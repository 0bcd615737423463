-- ===== src/Storage/Zones.antt =====
-- storage/manager.rs: the zones of a node and the active one. The zones' directories are keyed by
-- their names. `zones` lists the keys of the source's map, without an order.
pub mod Registry
use rxiu.Base.{
  ℕ, Str, Bytes, str_eq, codes, Bool, true, false, List, [], ◌∷◌, Option, none, some, if◌then◌else◌,
  is_some, unwrap_or, not,
}
use rxiu.Base.Assoc.{lookup, insert, contains}
use rxiu.Error.{Result, ok, err, zone_already_exists, zone_not_found, no_active_zone}
use rxiu.External.{Json}
use rxiu.Storage.Local.{FileMetadata, ZoneDisk}

pub record ZoneRegistry : Type 0 where
  pub zones : List Str

pub record ZoneManager : Type 0 where
  pub zones : List Str
  pub active_zone : Option Str

-- `zones.json`, and the zones' directories.
pub record Home (Text : Type 0) : Type 0 where
  pub registry : Option Text
  pub directories : List (Str × ZoneDisk Text)

abbrev pub empty_zone : {Text : Type 0} → ZoneDisk Text
empty_zone = record { metadata = none; files = [] }

module _ {Text : Type 0} (json : Json Text (List FileMetadata)) where
  -- `LocalBackend::new` for a zone: its directory is created where there is none.
  unfoldable pub open_backend : Str → Home Text → Home Text
  unfolding rxiu.Storage.Local.new
  open_backend name h =
      let zone = unwrap_or (lookup name h.directories) empty_zone in
      record h { directories = insert name (rxiu.Storage.Local.new json zone) h.directories }

  -- The loop of `new`; inserting a name twice keeps one.
  unfoldable pub open_zones : List Str → List Str → Home Text → List Str × Home Text
  unfolding open_backend
  open_zones [] zones h = (zones, h)
  open_zones (name ∷ names) zones h =
      open_zones names (if contains zones name then zones else name ∷ zones) (open_backend name h)

  module _ (registry_json : Json Text ZoneRegistry) where
    -- A registry that does not parse counts as empty.
    unfoldable pub load_registry : Home Text → List Str
    load_registry h = elim h.registry [
      | none ↦ []
      | some text ↦ elim (registry_json.from_text text) [ none ↦ [] | some r ↦ r.zones ]
    ]

    unfoldable pub new : Home Text → ZoneManager × Home Text
    unfolding open_zones load_registry
    new h =
        let (zones, h') = open_zones (load_registry h) [] h in
        (record { zones = zones; active_zone = none }, h')

    unfoldable pub save_registry : ZoneManager → Home Text → Home Text
    save_registry z h = record h {
      registry = some (registry_json.to_text (record { zones = z.zones }));
    }

    unfoldable pub create_zone :
        Str → ZoneManager × Home Text → Result (Unit {0}) × (ZoneManager × Home Text)
    unfolding open_backend save_registry
    create_zone name (z, h) =
        let z' : ZoneManager = record z { zones = name ∷ z.zones } in
        if contains z.zones name
        then (err (zone_already_exists name), (z, h))
        else (ok tt, (z', save_registry z' (open_backend name h)))

unfoldable pub set_active : Str → ZoneManager → Result (Unit {0}) × ZoneManager
set_active name z =
    if contains z.zones name
    then (ok tt, record z { active_zone = some name })
    else (err (zone_not_found name), z)

-- The zone, by its name.
unfoldable pub get_zone : Str → ZoneManager → Option Str
get_zone name z = if contains z.zones name then some name else none

unfoldable pub active_zone : ZoneManager → Result Str
unfolding get_zone
active_zone z = elim z.active_zone [
  | none ↦ err no_active_zone
  | some name ↦ elim (get_zone name z) [ none ↦ err no_active_zone | some zone ↦ ok zone ]
]

unfoldable pub clear_active : ZoneManager → ZoneManager
clear_active z = record z { active_zone = none }
