-- ===== src/Tui/Asked.antt =====
-- tui/input.rs: a question names what its answer deletes.
use rxiu.Base.{
  ◌≡◌, ap, Str, Bytes, List, [], ◌∷◌, Option, some, arith, Bool-cases, inl, inr, unwrap_or,
  str_eq_iff,
}
use rxiu.Base.Assoc.{lookup, lookup-insert}
use rxiu.Error.{ok, Result-cases}
use rxiu.External.{Json}
use rxiu.Rs.Types.{RsMetadata}
use rxiu.Storage.Local
use rxiu.Storage.Local.{FileMetadata, ZoneDisk, exists}
use rxiu.Storage.Zones.{
  ZoneRegistry, ZoneManager, Home, active_zone, create_zone, open_backend, save_registry, get_zone,
  empty_zone,
}
use rxiu.Tui.App.{App, AppMode, Env, PendingAction, print, print_lines}
use rxiu.Tui.Commands.{create, zone_disk}
use rxiu.Tui.Prompts.{
  question, start_rs_delete_confirmation, execute_rget, start_get_browser, start_put_browser,
  start_delete_confirmation, open_browser, open_save_browser,
}
use rxiu.Tui.Arms.{Outcome}

-- The confirmation of a zone's file shows the file's name and the active zone's.
unfoldable pub IsAsked : App → Type 0
IsAsked a = elim a.mode [
  | AppMode.normal ↦ Unit {0}
  | AppMode.browser _ _ _ ↦ Unit {0}
  | AppMode.confirmation message (PendingAction.rs_delete_file _) ↦ Unit {0}
  | AppMode.confirmation message (PendingAction.delete_file name) ↦
      (zone : Str) × (a.zone_manager.active_zone ≡ some zone) × (message ≡ question name zone)
]

-- The content of a file of a zone.
abbrev pub file_at : {Text : Type 0} → Str → Str → Home Text → Option Bytes
file_at zone name h = lookup name (zone_disk zone h).files

abbrev pub Survives : {Text : Type 0} → Home Text → Home Text → Type 0
Survives h h' =
    (zone name : Str) (content : Bytes)
    → file_at zone name h ≡ some content
    → file_at zone name h' ≡ some content

pub normal-IsAsked : (a : App) → a.mode ≡ AppMode.normal → IsAsked a
unfolding IsAsked
normal-IsAsked a e = rw e tt

pub open_browser-IsAsked :
    (env : Env) (dir : _) (mode : _) (callback : _) (status : Str) (a : App)
    → a.mode ≡ AppMode.normal
    → IsAsked (open_browser env dir mode callback status a).1
unfolding IsAsked open_browser
open_browser-IsAsked env dir mode callback status a e = ground (arith, e)

pub execute_rget-IsAsked :
    (env : Env) (arg : Str) (a : App) → a.mode ≡ AppMode.normal → IsAsked (execute_rget env arg a)
unfolding IsAsked execute_rget open_save_browser print print_lines
execute_rget-IsAsked env arg a e = ground (arith, e)

pub start_put_browser-IsAsked :
    (env : Env) (target : Option Str) (a : App)
    → a.mode ≡ AppMode.normal
    → IsAsked (start_put_browser env target a).1
unfolding IsAsked start_put_browser open_browser
start_put_browser-IsAsked env target a e = ground (arith, e)

pub active_of_zone :
    (zone : Str) (z : ZoneManager) → active_zone z ≡ ok zone → z.active_zone ≡ some zone
unfolding active_zone get_zone
active_of_zone zone z h = ground (arith, h)

named :
    (zone : Str) (z : ZoneManager) (name : Str)
    → active_zone z ≡ ok zone
    → question name (unwrap_or z.active_zone []) ≡ question name zone
named zone z name h = ap (λ o. question name (unwrap_or o [])) (active_of_zone zone z h)

module _ {Text : Type 0} where
  pub start_get_browser-IsAsked :
      (env : Env) (h : Home Text) (name : Str) (a : App)
      → a.mode ≡ AppMode.normal
      → IsAsked (start_get_browser env h name a).1
  unfolding IsAsked start_get_browser open_browser print print_lines
  start_get_browser-IsAsked env h name a e = ground (arith, e)

  pub start_rs_delete_confirmation-IsAsked :
      (rs_json : Json Text RsMetadata) (d : _) (name : Str) (a : App)
      → a.mode ≡ AppMode.normal
      → IsAsked (start_rs_delete_confirmation rs_json d name a).1
  unfolding IsAsked start_rs_delete_confirmation print print_lines
  start_rs_delete_confirmation-IsAsked rs_json d name a e = ground (arith, e)

  pub start_delete_confirmation-IsAsked :
      (h : Home Text) (name : Str) (a : App)
      → a.mode ≡ AppMode.normal
      → IsAsked (start_delete_confirmation h name a).1
  unfolding IsAsked start_delete_confirmation print print_lines
  start_delete_confirmation-IsAsked h name a e = elim (Result-cases (active_zone a.zone_manager)) [
    | inr (why, failed) ↦ rw (failed, start_delete_confirmation, e) tt
    | inl (zone, chosen) ↦ elim (Bool-cases (exists name (zone_disk zone h))) [
      | inr missing ↦ rw (chosen, start_delete_confirmation, missing, e) tt
      | inl there ↦
          rw (chosen, start_delete_confirmation, there)
            (zone, active_of_zone zone a.zone_manager chosen, named zone a.zone_manager name chosen)
    ]
  ]

  -- A directory that is opened again has what it had.
  open_backend-Survives :
      (json : Json Text (List FileMetadata)) (zone : Str) (h : Home Text)
      → Survives h (open_backend json zone h)
  unfolding open_backend Local.new Local.save_metadata
  open_backend-Survives json zone h zone' name content found =
      let zone_dir = unwrap_or (lookup zone h.directories) empty_zone in
      ground (
        arith,
        found,
        str_eq_iff zone zone',
        lookup-insert zone zone' (Local.new json zone_dir) h.directories,
      )

  pub create-Survives :
      (json : Json Text (List FileMetadata)) (registry_json : Json Text ZoneRegistry) (env : Env)
      (args : List Str) (z : ZoneManager) (h : Home Text)
      → Survives h (create json registry_json env args (z, h)).1.1
  unfolding create create_zone save_registry
  create-Survives json registry_json env [] z h zone name content found = found
  create-Survives json registry_json env (new_zone ∷ args) z h zone name content found =
      ground (arith, found, open_backend-Survives json new_zone h zone name content found)

-- What every command from the normal mode gives.
abbrev pub IsCareful : {Text : Type 0} → Home Text → Outcome Text → Type 0
IsCareful h o = IsAsked o.1.0 × Survives h o.1.1.home
