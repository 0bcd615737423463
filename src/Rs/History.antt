-- ===== src/Rs/History.antt =====
-- rs/mod.rs: any sequence of calls of the store, and what holds after it.
pub mod Addressed
pub mod Names
use rxiu.Base.{
  ℕ, ◌≡◌, refl, sym, subst, Str, Bytes, str_eq, str_eq_iff, Bool, true, false, List, [], ◌∷◌,
  Option, none, some, filter, find, not, unwrap_or, arith, inl, inr, Option-cases, Bool-cases, All,
  is_nil,
}
use rxiu.Base.Assoc.{insert, erase, has_key, contains, All-insert, All-erase}
use rxiu.Error.{Result, ok, err, Result-cases}
use rxiu.External.{Json, Sha256, IsLossless}
use rxiu.Rs.Types.{RsBlockEntry, RsFileEntry, RsMetadata, RsDisk, is_component}
use rxiu.Rs.Metadata.{
  upsert, mark_syncing, load_metadata, save_metadata, upsert_file, set_syncing, new,
  default_metadata,
}
use rxiu.Rs.Metadata.Catalog.{
  UniqueNames, upsert-UniqueNames, mark_syncing-UniqueNames, filter-UniqueNames,
}
use rxiu.Rs.Blocks.{
  sha256_bytes, write_block, verify_and_write_block, erase_unreferenced, remove_file,
  apply_remote_meta, remote_entry, referenced,
}
use rxiu.Rs.Transfer.{Putting, put_block, put_blocks, put_start, put_entry, put_file_from_path}

-- A call that changes the disk, with its arguments.
pub data RsCall : Type 0 where
  put_file : Str → Option (ℕ → List Bytes) → Str → List Str → Str → ℕ → RsCall
  upserts : RsFileEntry → RsCall
  removes : Str → RsCall
  applies : RsFileEntry → RsCall
  writes : Str → Bytes → RsCall
  stores : Str → Bytes → RsCall
  syncs : Str → Bool → RsCall

module _ {Text : Type 0} (sha : Sha256) (json : Json Text RsMetadata) where
  -- The disk after a call, whatever its result.
  unfoldable pub step : RsDisk Text → RsCall → RsDisk Text
  step d (put_file src reads name members algo size) =
      (put_file_from_path sha json src reads name members algo size d).1
  step d (upserts e) = (upsert_file json e d).1
  step d (removes name) = (remove_file json name d).1
  step d (applies e) = (apply_remote_meta json e d).1
  step d (writes hash content) = (verify_and_write_block sha hash content d).1
  step d (stores hash content) = (write_block hash content d).1
  step d (syncs name syncing) = (set_syncing json name syncing d).1

  unfoldable pub run : RsDisk Text → List RsCall → RsDisk Text
  run d [] = d
  run d (c ∷ cs) = run (step d c) cs
