-- ===== src/Rs/Metadata.antt =====
-- rs/mod.rs, the operations on metadata.json.
pub mod Catalog
use rxiu.Base.{
  Str, str_eq, codes, Bool, false, List, [], ◌∷◌, Option, none, some, find, if◌then◌else◌,
  unwrap_or,
}
use rxiu.Error.{Result, ok, err, io, ◌>>=◌}
use rxiu.External.{Json}
use rxiu.Rs.Types.{RsFileEntry, RsMetadata, RsDisk}

-- The message of the error that a read of a missing file gives.
abbrev pub missing_file : Str
missing_file = codes "No such file or directory (os error 2)"

abbrev pub default_metadata : RsMetadata
default_metadata = record { files = [] }

-- `iter_mut().find(…)`: the first entry of that name is replaced, or the entry is pushed.
unfoldable pub upsert : RsFileEntry → List RsFileEntry → List RsFileEntry
upsert entry [] = entry ∷ []
upsert entry (f ∷ fs) = if str_eq f.name entry.name then entry ∷ fs else f ∷ upsert entry fs

-- The first entry of that name, marked.
unfoldable pub mark_syncing : Str → Bool → List RsFileEntry → List RsFileEntry
mark_syncing name syncing [] = []
mark_syncing name syncing (f ∷ fs) =
    if str_eq f.name name
    then record f { syncing = syncing; complete = (if syncing then false else f.complete) } ∷ fs
    else f ∷ mark_syncing name syncing fs

module _ {Text : Type 0} (json : Json Text RsMetadata) where
  -- A text that does not parse counts as the empty metadata.
  unfoldable pub load_metadata : RsDisk Text → Result RsMetadata
  load_metadata d = elim d.metadata [
    | none ↦ err (io missing_file)
    | some text ↦ ok (unwrap_or (json.from_text text) default_metadata)
  ]

  unfoldable pub save_metadata : RsMetadata → RsDisk Text → RsDisk Text
  save_metadata m d = record d { metadata = some (json.to_text m) }

  -- `new`: an empty metadata file is written where there is none.
  unfoldable pub new : RsDisk Text → RsDisk Text
  unfolding save_metadata
  new d = elim d.metadata [ none ↦ save_metadata default_metadata d | some _ ↦ d ]

  unfoldable pub list_files : RsDisk Text → Result (List RsFileEntry)
  unfolding load_metadata
  list_files d = load_metadata d >>= λ m. ok m.files

  unfoldable pub get_file : Str → RsDisk Text → Result (Option RsFileEntry)
  unfolding load_metadata
  get_file name d = load_metadata d >>= λ m. ok (find (λ f. str_eq f.name name) m.files)

  unfoldable pub upsert_file : RsFileEntry → RsDisk Text → Result (Unit {0}) × RsDisk Text
  unfolding load_metadata save_metadata
  upsert_file entry d = elim (load_metadata d) [
    | err e ↦ (err e, d)
    | ok m ↦ (ok tt, save_metadata (record { files = upsert entry m.files }) d)
  ]

  -- The file is written only where the name is there.
  unfoldable pub set_syncing : Str → Bool → RsDisk Text → Result (Unit {0}) × RsDisk Text
  unfolding load_metadata save_metadata
  set_syncing name syncing d = elim (load_metadata d) [
    | err e ↦ (err e, d)
    | ok m ↦ elim (find (λ f. str_eq f.name name) m.files) [
      | none ↦ (ok tt, d)
      | some _ ↦ (ok tt, save_metadata (record { files = mark_syncing name syncing m.files }) d)
    ]
  ]
