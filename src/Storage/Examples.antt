-- ===== src/Storage/Examples.antt =====
-- Runs of the zones, and their theorems at concrete data.
use rxiu.Base.{
  true, ◌≡◌, ◌⊎◌, refl, Str, codes, str_eq, false, not, List, [], ◌∷◌, none, some, arith, All,
  filter, if◌then◌else◌,
}
use rxiu.Base.Assoc.{lookup, has_key, contains}
use rxiu.Error.{ok, err, io}
use rxiu.Rs.Types.{is_plain}
use rxiu.Rs.Metadata.{missing_file}
use rxiu.Storage.Local.{
  FileMetadata, encode, compute_hash, retrieve, exists, load_metadata, list, store, create_error,
  read_chunk, default_read_chunk,
}
use rxiu.Storage.Local.Chunks.{read_chunk-default}
use rxiu.Storage.Local.Catalog.{Describes, retrieve-store}
use rxiu.Storage.Zones.{Home, ZoneManager, new, active_zone}
use rxiu.Storage.Zones.Registry.{ZoneCall, creates, activates, zone_run, zone_run-new}
use rxiu.Samples.{SampleText, identity_sha, files_json, registry_json, zone_x, empty_home}

abbrev x_entry : FileMetadata
x_entry = record {
  name = codes "x";
  size = 3;
  content_hash = codes "050607";
  created_at = none;
  imported_at = 0;
}

x_lists : list files_json zone_x ≡ ok (x_entry ∷ [])
unfolding list load_metadata
x_lists = refl

x_described : All (Describes identity_sha zone_x.files) (x_entry ∷ [])
unfolding lookup compute_hash encode str_eq
x_described = ((5 ∷ 6 ∷ 7 ∷ [], refl, refl, refl), tt)

y_fresh : exists (codes "y") zone_x ≡ false
unfolding exists has_key str_eq
y_fresh = refl

read_chunk-default_example :
    default_read_chunk (codes "x") 1 5 zone_x ≡ some (read_chunk (λ call. 1) (codes "x") 1 5 zone_x)
read_chunk-default_example = read_chunk-default (λ call. 1) (codes "x") 1 5 zone_x (omega arith)

-- A name whose directory is not there.
nested : (store files_json identity_sha 9 (codes "a/b") (8 ∷ []) zone_x).0 ≡ err (io missing_file)
unfolding store create_error str_eq has_key
nested = refl

y_plain : is_plain (codes "y") ≡ true
unfolding is_plain
y_plain = refl

retrieve-store_example :
    (m : FileMetadata) × ((store files_json identity_sha 9 (codes "y") (8 ∷ []) zone_x).0 ≡ ok m)
    × (m.name ≡ codes "y")
    × (m.size ≡ 1)
    × (m.content_hash ≡ compute_hash identity_sha (8 ∷ []))
    × (list files_json (store files_json identity_sha 9 (codes "y") (8 ∷ []) zone_x).1
        ≡ ok (x_entry ∷ m ∷ []))
    × (retrieve (codes "y") (store files_json identity_sha 9 (codes "y") (8 ∷ []) zone_x).1
        ≡ (if str_eq (codes "y") (codes "y") then ok (8 ∷ []) else retrieve (codes "y") zone_x))
retrieve-store_example =
    retrieve-store files_json (λ m. refl) identity_sha 9 (codes "y") (codes "y") (8 ∷ [])
      (x_entry ∷ []) zone_x x_lists y_plain y_plain

abbrev others : List FileMetadata
others = filter (λ m. not (str_eq m.name (codes "x"))) (x_entry ∷ [])

abbrev calls : List ZoneCall
calls = creates (codes "work") ∷ creates (codes "home") ∷ activates (codes "work") ∷ []

abbrev ended : ZoneManager × Home SampleText
ended = zone_run files_json registry_json (new files_json registry_json empty_home) calls

zone_run-new_example :
    (contains (new files_json registry_json ended.1).0.zones (codes "home")
      ≡ contains ended.0.zones (codes "home"))
    × ((ended.0.active_zone ≡ none)
        ⊎ ((active : Str) × (ended.0.active_zone ≡ some active)
            × (active_zone ended.0 ≡ ok active)))
zone_run-new_example =
    zone_run-new files_json registry_json (λ m. refl) empty_home calls (codes "home")
