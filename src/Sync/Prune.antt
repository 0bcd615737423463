-- ===== src/Sync/Prune.antt =====
-- rs/sync.rs: what `prune_unowned_blocks` deletes, and what it writes to the metadata.
use rxiu.Base.{
  ℕ, ◌≡◌, refl, Str, Bytes, str_eq_iff, List, [], ◌∷◌, none, filter, not, ◌&&◌, if◌then◌else◌,
  arith,
}
use rxiu.Base.Assoc.{lookup, erase, has_key, keys, contains, lookup-erase, lookup_missing}
use rxiu.Error.{ok}
use rxiu.External.{Json, Sha256}
use rxiu.Rs.Types.{RsFileEntry, RsMetadata, RsDisk, is_component}
use rxiu.Rs.Metadata.{list_files, upsert_file}
use rxiu.Rs.Blocks.{local_block_set}
use rxiu.Sync.{owned_hashes, pruned_entry, prune_entries, erase_unowned, prune_unowned_blocks}

lookup-erase_unowned :
    (owned names : List Str) (files : List (Str × Bytes)) (p : Str)
    → lookup p (erase_unowned owned names files)
      ≡ (if contains names p && not (contains owned p) then none else lookup p files)
unfolding erase_unowned contains
lookup-erase_unowned owned [] files p = refl
lookup-erase_unowned owned (n ∷ ns) files p = ground (
  arith,
  lookup-erase_unowned owned ns files p,
  lookup-erase_unowned owned ns (erase n files) p,
  lookup-erase n p files,
  str_eq_iff n p,
)

contains-components :
    (files : List (Str × Bytes)) (p : Str)
    → contains (filter is_component (keys files)) p ≡ (is_component p && has_key p files)
unfolding contains has_key
contains-components [] p = ground arith
contains-components ((q, c) ∷ files) p = ground (arith, contains-components files p, str_eq_iff q p)

module _ {Text : Type 0} (sha : Sha256) (json : Json Text RsMetadata) (local_id : Str)
    (fallback : List Str) (rf : ℕ) where
  prune_entries-files :
      (owned : List Str) (files : List RsFileEntry) (d : RsDisk Text)
      → (prune_entries sha local_id fallback rf json owned files d).1.files ≡ d.files
  unfolding prune_entries
  prune_entries-files owned [] d = refl
  prune_entries-files owned (f ∷ fs) d =
      let d' = (upsert_file json (pruned_entry sha local_id fallback rf owned f) d).1 in
      ground (arith, prune_entries-files owned fs d')

  -- Where the metadata can be read, pruning deletes a file exactly if its name is that of a file in the
  -- blocks directory and is not the hash of a block that the local node owns; every other file keeps
  -- its content, those outside of the blocks directory among them.
  pub lookup-prune_unowned_blocks :
      (d : RsDisk Text) (files : List RsFileEntry) (p : Str)
      → list_files json d ≡ ok files
      → lookup p (prune_unowned_blocks sha json local_id fallback rf d).1.files ≡ (
          if is_component p && not (contains (owned_hashes sha local_id fallback rf files) p)
          then none
          else lookup p d.files)
  unfolding prune_unowned_blocks local_block_set
  lookup-prune_unowned_blocks d files p listed =
      let owned = owned_hashes sha local_id fallback rf files in
      let d' : RsDisk Text = record d { files = erase_unowned owned (local_block_set d) d.files } in
      ground (
        arith,
        listed,
        prune_entries-files owned files d',
        lookup-erase_unowned owned (local_block_set d) d.files p,
        contains-components d.files p,
        lookup_missing p d.files,
      )
