-- ===== src/Storage/Local/Catalog.antt =====
-- storage/local.rs: the files of a zone and their metadata after `store` and `delete`.
use rxiu.Base.{
  ℕ, ◌≡◌, refl, Str, Bytes, str_eq, true, List, [], ◌∷◌, ◌++◌, none, some, if◌then◌else◌, length,
  arith, false, inl, inr, Option-cases,
}
use rxiu.Base.Assoc.{lookup, erase, lookup-insert}
use rxiu.Error.{ok, err, io}
use rxiu.External.{Json, Sha256, IsLossless}
use rxiu.Rs.Types.{is_component, is_plain}
use rxiu.Storage.Local.{
  FileMetadata, ZoneDisk, compute_hash, create_error, first_component, retrieve, exists,
  load_metadata, save_metadata, list, store, delete,
}

-- Every entry of the metadata describes the file of its name.
abbrev pub Describes : Sha256 → List (Str × Bytes) → FileMetadata → Type 0
Describes sha files m =
    (content : Bytes) × (lookup m.name files ≡ some content)
    × (m.size ≡ length content)
    × (m.content_hash ≡ compute_hash sha content)

module _ {Text : Type 0} (json : Json Text (List FileMetadata)) (lossless : IsLossless json) where
  -- If what is written as JSON parses back, the zone's metadata loads and the name is a plain one (not empty, `.` or `..`, and without
  -- a slash), `store` succeeds, lists the new entry after the old ones with the
  -- size and the hash of the content, and gives that content back under the name; the other files of
  -- plain names stay as they are.
  pub retrieve-store :
      (sha : Sha256) (now : ℕ) (name other : Str) (content : Bytes) (before : List FileMetadata)
      (d : ZoneDisk Text)
      → list json d ≡ ok before
      → is_plain name ≡ true
      → is_plain other ≡ true
      → let (result, d') = store json sha now name content d in
        (m : FileMetadata) × (result ≡ ok m)
        × (m.name ≡ name)
        × (m.size ≡ length content)
        × (m.content_hash ≡ compute_hash sha content)
        × (list json d' ≡ ok (before ++ m ∷ []))
        × (retrieve other d' ≡ (if str_eq name other then ok content else retrieve other d))
  unfolding store list load_metadata save_metadata retrieve create_error
  retrieve-store sha now name other content before d loaded plain plain' =
      let m : FileMetadata = record {
        name = name;
        size = length content;
        content_hash = compute_hash sha content;
        created_at = none;
        imported_at = now;
      } in
      (
        m,
        ground (arith, plain, loaded),
        refl,
        refl,
        refl,
        ground (arith, plain, loaded, lossless (before ++ m ∷ [])),
        ground (arith, plain, loaded, lookup-insert name other content d.files),
      )

  delete-files :
      (name : Str) (d : ZoneDisk Text)
      → exists name d ≡ true
      → (delete json name d).1.files ≡ erase name d.files
  unfolding delete load_metadata save_metadata exists
  delete-files name d there = ground arith

  -- Under a name with a slash that does not start out of the directory, `store` fails and leaves the zone as it was.
  store-first_component :
      (sha : Sha256) (now : ℕ) (name : Str) (content : Bytes) (d : ZoneDisk Text)
      → is_component name ≡ false
      → is_plain (first_component name) ≡ true
      → (e : Str) × (store json sha now name content d ≡ (err (io e), d))
  unfolding store create_error is_plain
  store-first_component sha now name content d deep inside =
      elim (Option-cases (create_error name d.files)) [
        | inr (e, failed) ↦ (e, ground (arith, failed))
        | inl created ↦ absurd (ground (arith, deep, inside, created))
      ]
