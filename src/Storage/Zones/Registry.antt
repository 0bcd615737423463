-- ===== src/Storage/Zones/Registry.antt =====
-- storage/manager.rs: the registry on disk, and the active zone.
use rxiu.Base.{
  ◌≡◌, refl, sym, ap, ◌∙◌, Str, str_eq_iff, true, ◌||◌, List, [], ◌∷◌, none, some, arith,
  Option-cases, ◌⊎◌, inl, inr,
}
use rxiu.Base.Assoc.{contains}
use rxiu.Error.{ok}
use rxiu.External.{Json, IsLossless}
use rxiu.Storage.Local.{FileMetadata}
use rxiu.Storage.Zones.{
  ZoneRegistry, ZoneManager, Home, open_zones, load_registry, new, save_registry, create_zone,
  set_active, get_zone, active_zone, clear_active,
}

-- The active zone is one of the zones.
abbrev pub IsActiveKnown : ZoneManager → Type 0
IsActiveKnown z = elim z.active_zone [ none ↦ Unit | some name ↦ contains z.zones name ≡ true ]

active_zone-known :
    (z : ZoneManager)
    → IsActiveKnown z
    → (z.active_zone ≡ none)
      ⊎ ((active : Str) × (z.active_zone ≡ some active) × (active_zone z ≡ ok active))
unfolding active_zone get_zone
active_zone-known z v = elim (Option-cases z.active_zone) [
  | inl e ↦ inl e
  | inr (active, e) ↦ inr (active, e, ground (arith, e, v))
]

-- A call that changes the manager.
pub data ZoneCall : Type 0 where
  creates activates : Str → ZoneCall
  clears : ZoneCall

module _ {Text : Type 0} (json : Json Text (List FileMetadata))
    (registry_json : Json Text ZoneRegistry) where
  unfoldable pub zone_step : ZoneManager × Home Text → ZoneCall → ZoneManager × Home Text
  zone_step (z, h) (creates name) = (create_zone json registry_json name (z, h)).1
  zone_step (z, h) (activates name) = ((set_active name z).1, h)
  zone_step (z, h) clears = (clear_active z, h)

  unfoldable pub zone_run : ZoneManager × Home Text → List ZoneCall → ZoneManager × Home Text
  zone_run s [] = s
  zone_run s (c ∷ cs) = zone_run (zone_step s c) cs

  open_zones-contains :
      (names zones : List Str) (h : Home Text) (name : Str)
      → contains (open_zones json names zones h).0 name
        ≡ (contains zones name || contains names name)
  unfolding open_zones contains
  open_zones-contains [] zones h name = ground arith
  open_zones-contains (n ∷ names) zones h name = ground (
    arith,
    str_eq_iff n name,
    open_zones-contains names zones (rxiu.Storage.Zones.open_backend json n h) name,
    open_zones-contains names (n ∷ zones) (rxiu.Storage.Zones.open_backend json n h) name,
  )

  -- What is on disk lists the zones of the manager.
  abbrev pub IsPersisted : ZoneManager × Home Text → Type 0
  IsPersisted (z, h) =
      (name : Str) → contains (load_registry json registry_json h) name ≡ contains z.zones name

  module _ (lossless : IsLossless registry_json) where
    zone_step-IsPersisted :
        (s : ZoneManager × Home Text) (c : ZoneCall) → IsPersisted s → IsPersisted (zone_step s c)
    unfolding zone_step create_zone set_active clear_active load_registry save_registry
    zone_step-IsPersisted (z, h) (creates new_name) v name =
        ground (arith, lossless (record { zones = new_name ∷ z.zones }), v name)
    zone_step-IsPersisted (z, h) (activates new_name) v name = ground (arith, v name)
    zone_step-IsPersisted (z, h) clears v name = v name

    zone_run-IsPersisted :
        (cs : List ZoneCall) (s : ZoneManager × Home Text)
        → IsPersisted s
        → IsPersisted (zone_run s cs)
    unfolding zone_run
    zone_run-IsPersisted [] s v = v
    zone_run-IsPersisted (c ∷ cs) s v =
        zone_run-IsPersisted cs (zone_step s c) (zone_step-IsPersisted s c v)

  zone_step-IsActiveKnown :
      (s : ZoneManager × Home Text) (c : ZoneCall)
      → IsActiveKnown s.0
      → IsActiveKnown (zone_step s c).0
  unfolding zone_step create_zone set_active clear_active contains
  zone_step-IsActiveKnown (z, h) (creates new_name) v = ground arith
  zone_step-IsActiveKnown (z, h) (activates new_name) v = ground arith
  zone_step-IsActiveKnown (z, h) clears v = ground arith

  zone_run-IsActiveKnown :
      (cs : List ZoneCall) (s : ZoneManager × Home Text)
      → IsActiveKnown s.0
      → IsActiveKnown (zone_run s cs).0
  unfolding zone_run
  zone_run-IsActiveKnown [] s v = v
  zone_run-IsActiveKnown (c ∷ cs) s v =
      zone_run-IsActiveKnown cs (zone_step s c) (zone_step-IsActiveKnown s c v)

  open_zones-registry :
      (names zones : List Str) (h : Home Text)
      → (open_zones json names zones h).1.registry ≡ h.registry
  unfolding open_zones rxiu.Storage.Zones.open_backend
  open_zones-registry [] zones h = refl
  open_zones-registry (n ∷ names) zones h = ground (
    arith,
    open_zones-registry names zones (rxiu.Storage.Zones.open_backend json n h),
    open_zones-registry names (n ∷ zones) (rxiu.Storage.Zones.open_backend json n h),
  )

  load_registry-congr :
      (g h : Home Text)
      → g.registry ≡ h.registry
      → load_registry json registry_json g ≡ load_registry json registry_json h
  unfolding load_registry
  load_registry-congr g h e = rw e

  new-contains :
      (h : Home Text) (name : Str)
      → contains (new json registry_json h).0.zones name
        ≡ contains (load_registry json registry_json h) name
  unfolding new contains
  new-contains h name = open_zones-contains (load_registry json registry_json h) [] h name

  new-active : (h : Home Text) → IsActiveKnown (new json registry_json h).0
  unfolding new
  new-active h = tt

  new-IsPersisted : (h : Home Text) → IsPersisted (new json registry_json h)
  unfolding new
  new-IsPersisted h name =
      ap (λ names. contains names name)
        (load_registry-congr (new json registry_json h).1 h
          (open_zones-registry (load_registry json registry_json h) [] h))
      ∙ sym (new-contains h name)

  -- If what is written as JSON parses back, then after any calls of a manager, a restart on the same disk has the same zones; and the active zone, if
  -- one is set, is always there, so that `active_zone` gives it.
  pub zone_run-new :
      IsLossless registry_json
      → (start : Home Text) (cs : List ZoneCall) (name : Str)
      → let (z, h) = zone_run (new json registry_json start) cs in
        (contains (new json registry_json h).0.zones name ≡ contains z.zones name)
        × ((z.active_zone ≡ none)
            ⊎ ((active : Str) × (z.active_zone ≡ some active) × (active_zone z ≡ ok active)))
  zone_run-new lossless start cs name =
      let s = zone_run (new json registry_json start) cs in
      (
        new-contains s.1 name
            ∙ zone_run-IsPersisted lossless cs (new json registry_json start)
                (new-IsPersisted start) name,
        active_zone-known s.0
            (zone_run-IsActiveKnown cs (new json registry_json start) (new-active start)),
      )
