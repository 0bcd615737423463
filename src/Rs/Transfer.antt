-- ===== src/Rs/Transfer.antt =====
-- rs/mod.rs: cutting a file into blocks, and putting one together again. A hasher is the bytes fed
-- to it. Reading a file gives the results of the successive `read` calls on a buffer of a given size;
-- the loop ends at the first empty one.
pub mod Entries
pub mod RoundTrip
use rxiu.Base.{
  ℕ, ◌+◌, ◌%◌, ◌^◌, Str, Bytes, str_eq, codes, Bool, true, false, List, [], ◌∷◌, ◌++◌, Option, none,
  some, if◌then◌else◌, length, is_nil, leb,
}
use rxiu.Base.Assoc.{insert, has_key}
use rxiu.Base.Sort.{sort_by}
use rxiu.Error.{Result, ok, err, io, path_not_found}
use rxiu.External.{Json, Sha256}
use rxiu.Rs.Types.{RsBlockEntry, RsFileEntry, RsMetadata, RsDisk}
use rxiu.Rs.Metadata.{upsert_file}
use rxiu.Rs.Blocks.{sha256_bytes, read_block}

-- The variables of the loop in `put_file_from_path`.
pub record Putting : Type 0 where
  pub files : List (Str × Bytes)
  pub offset : ℕ
  pub blocks : List RsBlockEntry
  pub hashed : Bytes

module _ (sha : Sha256) where
  unfoldable pub put_block : Bytes → Putting → Putting
  unfolding sha256_bytes
  put_block content s =
      let block_hash = sha256_bytes sha content in
      record {
        files = if has_key block_hash s.files then s.files else insert block_hash content s.files;
        offset = (s.offset + length content) % 2 ^ 64;
        blocks =
            s.blocks ++ record { hash = block_hash; size = length content; offset = s.offset } ∷ [];
        hashed = s.hashed ++ content;
      }

  unfoldable pub put_blocks : List Bytes → Putting → Putting
  unfolding put_block
  put_blocks [] s = s
  put_blocks (content ∷ rest) s =
      if is_nil content then s else put_blocks rest (put_block content s)

  unfoldable pub put_entry : Str → List Str → Str → Putting → RsFileEntry
  unfolding sha256_bytes
  put_entry target_name members algo s = record {
    name = target_name;
    size = s.offset;
    hash = sha256_bytes sha s.hashed;
    blocks = s.blocks;
    members = members;
    algo = algo;
    complete = true;
    syncing = false;
    deletable = true;
  }

abbrev pub put_start : List (Str × Bytes) → Putting
put_start files = record { files = files; offset = 0; blocks = []; hashed = [] }

module _ {Text : Type 0} (sha : Sha256) (json : Json Text RsMetadata) where
  unfoldable pub put_file_from_path :
      Str
      → Option (ℕ → List Bytes)
      → Str
      → List Str
      → Str
      → ℕ
      → RsDisk Text
      → Result RsFileEntry × RsDisk Text
  unfolding put_blocks put_entry upsert_file
  put_file_from_path src none target_name members algo block_size d = (err (path_not_found src), d)
  put_file_from_path src (some reads) target_name members algo block_size d =
      let s = put_blocks sha (reads block_size) (put_start d.files) in
      let entry = put_entry sha target_name members algo s in
      let (result, d') = upsert_file json entry (record d { files = s.files }) in
      elim result [ err e ↦ (err e, d') | ok _ ↦ (ok entry, d') ]

-- The loop of `reconstruct_to_path`. What has been written stays written on an error.
unfoldable pub write_blocks :
    {Text : Type 0} → List RsBlockEntry → Bytes → RsDisk Text → Result (Unit {0}) × Bytes
unfolding read_block
write_blocks [] out d = (ok tt, out)
write_blocks (b ∷ bs) out d = elim (read_block b.hash d) [
  | err e ↦ (err e, out)
  | ok content ↦ write_blocks bs (out ++ content) d
]

abbrev pub by_offset : RsBlockEntry → RsBlockEntry → Bool
by_offset a b = leb a.offset b.offset

-- The comparison with the entry's hash after the loop.
unfoldable pub check_output :
    Sha256 → RsFileEntry → Result (Unit {0}) × Bytes → Result (Unit {0}) × Bytes
unfolding sha256_bytes
check_output sha entry (err e, out) = (err e, out)
check_output sha entry (ok _, out) =
    if str_eq (sha256_bytes sha out) entry.hash
    then (ok tt, out)
    else (err (io (codes "RS file hash mismatch")), out)

-- The result, and what is in the destination file afterwards.
unfoldable pub reconstruct_to_path :
    {Text : Type 0} → Sha256 → RsFileEntry → RsDisk Text → Result (Unit {0}) × Bytes
unfolding write_blocks sort_by check_output
reconstruct_to_path sha entry d =
    check_output sha entry (write_blocks (sort_by by_offset entry.blocks) [] d)
