-- ===== src/Rs/Transfer/RoundTrip.antt =====
-- rs/mod.rs: `put_file_from_path` cuts a file into blocks, and `reconstruct_to_path` joins them.
use rxiu.Base.{
  ℕ, ◌+◌, ◌^◌, ◌<◌, ◌≡◌, sym, ap, Str, Bytes, str_eq_refl, ◌∙◌, subst, List, [], ◌∷◌, ◌++◌, some,
  length, All, arith, append-nil, append_assoc,
}
use rxiu.Base.Sort.{sort_by, sort_by-IsSorted_id}
use rxiu.Error.{ok}
use rxiu.External.{Json, Sha256, IsCollisionFree}
use rxiu.Rs.Types.{RsFileEntry, RsMetadata, RsDisk}
use rxiu.Rs.Blocks.{sha256_bytes}
use rxiu.Rs.Transfer.{
  put_blocks, put_entry, put_start, put_file_from_path, write_blocks, by_offset,
  reconstruct_to_path,
}
use rxiu.Rs.Transfer.Entries.{
  concat, IsNonempty, entries, entries-IsSorted, Stored, IsFaithful, put_blocks-Stored,
  put_blocks-Shape,
}

module _ {Text : Type 0} (sha : Sha256) where
  -- Blocks that are stored are written out one after the other.
  write_blocks-entries :
      (cs : List Bytes) (offset : ℕ) (out : Bytes) (d : RsDisk Text)
      → All (Stored sha d.files) cs
      → write_blocks (entries sha offset cs) out d ≡ (ok tt, out ++ concat cs)
  unfolding write_blocks entries
  write_blocks-entries [] offset out d stored = rw append-nil
  write_blocks-entries (c ∷ cs) offset out d stored =
      rw (stored.0, write_blocks)
        (write_blocks-entries cs (offset + length c) (out ++ c) d stored.1
          ∙ rw (append_assoc out c (concat cs)))

  reconstruct-entries :
      (cs : List Bytes) (e : RsFileEntry) (d : RsDisk Text)
      → e.blocks ≡ entries sha 0 cs
      → e.hash ≡ sha256_bytes sha (concat cs)
      → All (Stored sha d.files) cs
      → reconstruct_to_path sha e d ≡ (ok tt, concat cs)
  unfolding reconstruct_to_path
  reconstruct-entries cs e d blocks hash stored =
      let written : write_blocks (sort_by by_offset e.blocks) [] d ≡ (ok tt, concat cs) =
        ap (λ bs. write_blocks (sort_by by_offset bs) [] d) blocks
        ∙ ap (λ bs. write_blocks bs [] d)
            (sort_by-IsSorted_id by_offset (entries sha 0 cs) (entries-IsSorted sha 0 cs))
        ∙ write_blocks-entries cs 0 [] d stored in
      ground (arith, written, hash, str_eq_refl (sha256_bytes sha (concat cs)))

  module _ (json : Json Text RsMetadata) (Seen : Bytes → Type 0)
      (collision_free : IsCollisionFree Seen (sha256_bytes sha)) (src target_name algo : Str)
      (members : List Str) (block_size : ℕ) (reads : ℕ → List Bytes) (d : RsDisk Text) where
    -- Let the hash be free of collisions on what is seen, the store hold under the hash of something
    -- seen only that, and `src` be a file of less than 2^64 bytes, read by any non-empty reads of
    -- seen bytes. Where the metadata file is there, `put_file_from_path` gives an entry with the
    -- file's size and hash, and `reconstruct_to_path` of that entry from the new disk succeeds and
    -- writes the bytes of `src`.
    pub put-reconstruct :
        {text : Text}
        → d.metadata ≡ some text
        → All Seen (reads block_size)
        → All IsNonempty (reads block_size)
        → length (concat (reads block_size)) < 2 ^ 64
        → IsFaithful sha Seen d.files
        → let content = concat (reads block_size) in
          let (result, d') =
            put_file_from_path sha json src (some reads) target_name members algo block_size d in
          (e : RsFileEntry) × (result ≡ ok e)
          × (e.size ≡ length content)
          × (e.hash ≡ sha256_bytes sha content)
          × (reconstruct_to_path sha e d' ≡ (ok tt, content))
    unfolding put_file_from_path put_entry
    put-reconstruct there seen full small faithful =
        let s = put_blocks sha (reads block_size) (put_start d.files) in
        let shape =
          put_blocks-Shape sha (reads block_size) (put_start d.files) full (omega arith) in
        let stored =
          put_blocks-Stored sha Seen collision_free (reads block_size) (put_start d.files) seen full
            faithful in
        let hash : sha256_bytes sha s.hashed ≡ sha256_bytes sha (concat (reads block_size)) =
          ap (sha256_bytes sha) shape.hashed_eq in
        let d' =
          (put_file_from_path sha json src (some reads) target_name members algo block_size d).1 in
        let files : d'.files ≡ s.files = ground (arith, there) in
        let kept : All (Stored sha d'.files) (reads block_size) =
          subst (λ fs. All (Stored sha fs) (reads block_size)) (sym files) stored in
        let rebuilt =
          reconstruct-entries (reads block_size) (put_entry sha target_name members algo s) d'
            shape.blocks_eq hash in
        (
          put_entry sha target_name members algo s,
          ground (arith, there),
          omega (arith, shape.offset_eq),
          hash,
          rebuilt kept,
        )
