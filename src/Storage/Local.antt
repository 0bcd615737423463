-- ===== src/Storage/Local.antt =====
-- storage/local.rs and storage/metadata.rs: the files of one zone. Disk faults other than a missing
-- file, and a file that cannot be created, do not occur.
pub mod Hex
pub mod Chunks
pub mod Catalog
use rxiu.Base.{
  ℕ, suc, zero, ◌+◌, ◌-◌, ◌/◌, ◌%◌, ◌^◌, Str, Bytes, str_eq, codes, Bool, true, false, List, [],
  ◌∷◌, ◌++◌, Option, none, some, if◌then◌else◌, not, filter, length, take, drop, get_elem?,
  unwrap_or, leb, min, max, ◌==◌, is_nil,
}
use rxiu.Base.Assoc.{lookup, insert, erase, has_key}
use rxiu.Error.{Result, ok, err, io, serialization, file_not_found, ◌>>=◌}
use rxiu.External.{Json, Sha256}
use rxiu.Rs.Types.{is_component, is_plain}
use rxiu.Rs.Metadata.{missing_file}

-- The times are seconds.
pub record FileMetadata : Type 0 where
  pub name : Str
  pub size : ℕ
  pub content_hash : Str
  pub created_at : Option ℕ
  pub imported_at : ℕ

-- The text of the zone's `metadata.json`, and the regular files `files_path.join(name)`.
pub record ZoneDisk (Text : Type 0) : Type 0 where
  pub metadata : Option Text
  pub files : List (Str × Bytes)

abbrev pub hex_chars : Bytes
hex_chars = codes "0123456789abcdef"

-- `hex::encode`; the bytes are below 256, so that the index is in range.
unfoldable pub encode : Bytes → Str
encode [] = []
encode (b ∷ bs) =
    unwrap_or (get_elem? hex_chars (b / 16)) 0
    ∷ unwrap_or (get_elem? hex_chars (b % 16)) 0
    ∷ encode bs

unfoldable pub compute_hash : Sha256 → Bytes → Str
unfolding encode
compute_hash sha content = encode (sha.digest content)

unfoldable pub first_component : Str → Str
first_component [] = []
first_component (c ∷ cs) = if c == b'/' then [] else c ∷ first_component cs

-- Why `File::create(files_path.join(name))` fails, if it does: the directory of the files has no directories in it. A name that
-- starts out of it, with `/`, `./` or `../`, is taken for a key of its own, whose file can be created.
unfoldable pub create_error : Str → List (Str × Bytes) → Option Str
unfolding is_component is_plain first_component
create_error name files =
    if is_plain name
    then none
    else if is_component name
    then some (codes "Is a directory (os error 21)")
    else if not (is_plain (first_component name))
    then none
    else if has_key (first_component name) files
    then some (codes "Not a directory (os error 20)")
    else some missing_file

module _ {Text : Type 0} where
  unfoldable pub retrieve : Str → ZoneDisk Text → Result Bytes
  retrieve name d = elim (lookup name d.files) [
    | none ↦ err (file_not_found name)
    | some content ↦ ok content
  ]

  unfoldable pub exists : Str → ZoneDisk Text → Bool
  exists name d = has_key name d.files

-- The loop of `read_chunk`: `read` calls that each give a byte at least, up to the end of the file. The
-- arguments are the fuel, the number of calls so far and the bytes read. `short` says how many bytes
-- a call has ready.
unfoldable pub read_loop : (ℕ → ℕ) → ℕ → ℕ → ℕ → ℕ → Bytes → Bytes → Bytes
read_loop short zero call to_read offset content buf = buf
read_loop short (suc fuel) call to_read offset content buf =
    let wanted = to_read - length buf in
    let got = take (min wanted (max 1 (short call))) (drop (offset + length buf) content) in
    let rest = read_loop short fuel (suc call) to_read offset content (buf ++ got) in
    if leb to_read (length buf) then buf else if is_nil got then buf else rest

-- The fuel is the number of bytes to read.
unfoldable pub read_chunk : {Text : Type 0} → (ℕ → ℕ) → Str → ℕ → ℕ → ZoneDisk Text → Result Bytes
unfolding read_loop
read_chunk short name offset size d = elim (lookup name d.files) [
  | none ↦ err (file_not_found name)
  | some content ↦
      if leb (length content) offset
      then err (io (codes "Chunk offset out of range"))
      else let to_read = min (length content - offset) size in
        ok (read_loop short to_read 0 to_read offset content [])
]

-- The trait's own `read_chunk` (storage/backend.rs), from `retrieve`; `none` is the panic of a slice
-- that ends before it starts.
unfoldable pub default_read_chunk :
    {Text : Type 0} → Str → ℕ → ℕ → ZoneDisk Text → Option (Result Bytes)
unfolding retrieve
default_read_chunk name offset size d = elim (retrieve name d) [
  | err e ↦ some (err e)
  | ok content ↦
      if leb (length content) offset
      then some (err (io (codes "Chunk offset out of range")))
      else let end = min ((offset + size) % 2 ^ 64) (length content) in
        if leb offset end then some (ok (take (end - offset) (drop offset content))) else none
]

module _ {Text : Type 0} (json : Json Text (List FileMetadata)) where
  unfoldable pub load_metadata : ZoneDisk Text → Result (List FileMetadata)
  load_metadata d = elim d.metadata [
    | none ↦ err (io missing_file)
    | some text ↦ elim (json.from_text text) [
      | none ↦ err (serialization (codes "invalid metadata"))
      | some metadata ↦ ok metadata
    ]
  ]

  unfoldable pub save_metadata : List FileMetadata → ZoneDisk Text → ZoneDisk Text
  save_metadata metadata d = record d { metadata = some (json.to_text metadata) }

  -- `LocalBackend::new`: an empty metadata file is written where there is none.
  unfoldable pub new : ZoneDisk Text → ZoneDisk Text
  unfolding save_metadata
  new d = elim d.metadata [ none ↦ save_metadata [] d | some _ ↦ d ]

  unfoldable pub list : ZoneDisk Text → Result (List FileMetadata)
  unfolding load_metadata
  list d = load_metadata d

  -- The content is written before the metadata is read; an error leaves it there. A file that cannot be created leaves the
  -- disk as it was.
  unfoldable pub store :
      Sha256 → ℕ → Str → Bytes → ZoneDisk Text → Result FileMetadata × ZoneDisk Text
  unfolding load_metadata save_metadata compute_hash create_error
  store sha now name content d =
      let written : ZoneDisk Text = record d { files = insert name content d.files } in
      let metadata : FileMetadata = record {
        name = name;
        size = length content;
        content_hash = compute_hash sha content;
        created_at = none;
        imported_at = now;
      } in
      elim (create_error name d.files) [
        | some e ↦ (err (io e), d)
        | none ↦ elim (load_metadata written) [
          | err e ↦ (err e, written)
          | ok all_metadata ↦ (ok metadata, save_metadata (all_metadata ++ metadata ∷ []) written)
        ]
      ]

  unfoldable pub delete : Str → ZoneDisk Text → Result (Unit {0}) × ZoneDisk Text
  unfolding load_metadata save_metadata
  delete name d =
      let removed : ZoneDisk Text = record d { files = erase name d.files } in
      if has_key name d.files
      then elim (load_metadata removed) [
        | err e ↦ (err e, removed)
        | ok all_metadata ↦
            (ok tt, save_metadata (filter (λ m. not (str_eq m.name name)) all_metadata) removed)
      ]
      else (err (file_not_found name), d)
