-- ===== src/Rs/Blocks.antt =====
-- rs/mod.rs, the operations on blocks, and those that join blocks and metadata.
pub mod Removal
use rxiu.Base.{
  ℕ, ◌+◌, ◌%◌, ◌^◌, Str, Bytes, str_eq, codes, Bool, true, false, List, [], ◌∷◌, ◌++◌, map, Option,
  none, some, filter, find, not, if◌then◌else◌, length, ◌==◌,
}
use rxiu.Base.Assoc.{lookup, insert, erase, has_key, keys, contains}
use rxiu.Error.{Result, ok, err, io, ◌>>=◌}
use rxiu.External.{Json, Sha256}
use rxiu.Rs.Types.{RsBlockEntry, RsFileEntry, RsMetadata, RsDisk, is_component}
use rxiu.Rs.Metadata.{load_metadata, save_metadata, get_file, upsert_file}

-- `sha256_bytes`
unfoldable pub sha256_bytes : Sha256 → Bytes → Str
sha256_bytes sha content = sha.lower_hex (sha.digest content)

module _ {Text : Type 0} where
  unfoldable pub has_block : Str → RsDisk Text → Bool
  has_block hash d = has_key hash d.files

  unfoldable pub read_block : Str → RsDisk Text → Result Bytes
  read_block hash d = elim (lookup hash d.files) [
    | none ↦ err (io (codes "Block not found"))
    | some content ↦ ok content
  ]

  -- A block that is there is left as it is.
  unfoldable pub write_block : Str → Bytes → RsDisk Text → Result (Unit {0}) × RsDisk Text
  write_block hash content d =
      if has_key hash d.files
      then (ok tt, d)
      else (ok tt, record d { files = insert hash content d.files })

  unfoldable pub verify_and_write_block :
      Sha256 → Str → Bytes → RsDisk Text → Result (Unit {0}) × RsDisk Text
  unfolding sha256_bytes write_block
  verify_and_write_block sha hash content d =
      if str_eq (sha256_bytes sha content) hash
      then write_block hash content d
      else (err (io (codes "Block hash mismatch")), d)

  -- The names in the blocks directory.
  unfoldable pub local_block_set : RsDisk Text → List Str
  unfolding is_component
  local_block_set d = filter is_component (keys d.files)

-- `have += block.size` on u64, with the wrap-around of a release build.
unfoldable pub sum_local : List Str → List RsBlockEntry → ℕ → ℕ
sum_local local_blocks [] have = have
sum_local local_blocks (b ∷ bs) have =
    sum_local local_blocks bs
      (if contains local_blocks b.hash then (have + b.size) % 2 ^ 64 else have)

unfoldable pub file_progress : {Text : Type 0} → RsFileEntry → RsDisk Text → ℕ × ℕ
file_progress entry d = (sum_local (local_block_set d) entry.blocks 0, entry.size)

-- The hashes that some file lists.
unfoldable pub referenced : List RsFileEntry → List Str
referenced [] = []
referenced (f ∷ fs) = map (λ b. b.hash) f.blocks ++ referenced fs

-- The loop over the removed file's blocks. An error of `remove_file` is dropped.
unfoldable pub erase_unreferenced :
    List Str → List RsBlockEntry → List (Str × Bytes) → List (Str × Bytes)
erase_unreferenced kept [] files = files
erase_unreferenced kept (b ∷ bs) files =
    erase_unreferenced kept bs (if contains kept b.hash then files else erase b.hash files)

unfoldable pub cleanup_blocks :
    {Text : Type 0} → List RsFileEntry → List RsBlockEntry → RsDisk Text → RsDisk Text
cleanup_blocks remaining removed d = record d {
  files = erase_unreferenced (referenced remaining) removed d.files;
}

-- What `apply_remote_meta` writes for an entry that a peer announced.
unfoldable pub remote_entry : {Text : Type 0} → RsFileEntry → RsDisk Text → RsFileEntry
unfolding local_block_set
remote_entry entry d =
    let missing = length (filter (λ b. not (contains (local_block_set d) b.hash)) entry.blocks) in
    record entry { complete = missing == 0; syncing = false; deletable = true }

module _ {Text : Type 0} (json : Json Text RsMetadata) where
  -- The hashes of the file's blocks that are on disk.
  unfoldable pub file_block_hashes : Str → RsDisk Text → Result (List Str)
  unfolding get_file has_block
  file_block_hashes name d = get_file json name d >>= λ found. elim found [
    | none ↦ err (io (codes "RS file not found"))
    | some entry ↦ ok (filter (λ h. has_block h d) (map (λ b. b.hash) entry.blocks))
  ]

  unfoldable pub remove_file : Str → RsDisk Text → Result (Unit {0}) × RsDisk Text
  unfolding load_metadata save_metadata cleanup_blocks
  remove_file name d = elim (load_metadata json d) [
    | err e ↦ (err e, d)
    | ok m ↦
        let remaining = filter (λ f. not (str_eq f.name name)) m.files in
        let saved = save_metadata json (record { files = remaining }) d in
        elim (find (λ f. str_eq f.name name) m.files) [
          | none ↦ (ok tt, saved)
          | some entry ↦ (ok tt, cleanup_blocks remaining entry.blocks saved)
        ]
  ]

  unfoldable pub apply_remote_meta : RsFileEntry → RsDisk Text → Result (Unit {0}) × RsDisk Text
  unfolding remote_entry upsert_file
  apply_remote_meta entry d = upsert_file json (remote_entry entry d) d
