-- ===== src/Tui/Careful.antt =====
-- tui/input.rs: no command deletes a file of a zone.
use rxiu.Base.{
  ◌▸◌, ◌≡◌, refl, ◌∙◌, Str, List, [], ◌∷◌, arith, All, Option-cases, inl, inr, get_elem?,
}
use rxiu.External.{Json, Sha256}
use rxiu.Rs.Types.{RsMetadata}
use rxiu.Storage.Local.{FileMetadata}
use rxiu.Storage.Zones.{ZoneRegistry, Home}
use rxiu.Tui.App.{App, AppMode, Env, Disk, print, print_lines, print_multiline}
use rxiu.Error.{Result, ok, err}
use rxiu.Tui.Input.{commands}
use rxiu.Tui.Arms.{
  Outcome, ruse_command, rlist_command, rshave_command, get_command, put_command, delete_command,
  on_rs_file, list_command, rget_command, print_result,
}
use rxiu.Tui.RsCommands.{rs_name, execute_rscfg}
use rxiu.Tui.Prompts.{start_rs_put_browser, start_rs_get_browser}
use rxiu.Tui.Screen.{
  execute_list_area, execute_list_storage, execute_rs_list, execute_rs_status, execute_rs_progress,
  execute_rxiu,
}
use rxiu.Tui.Modes.{
  execute_ruse-mode, execute_peers_list-mode, show_remote_status-mode, execute_rarea-mode,
  execute_rlist-mode, list_zone-mode, enter_rs-mode, execute_rs_peers-mode, remote_command-mode,
  execute_rs_stats-mode, execute_rs_have-mode, execute_rscfg-mode,
}
use rxiu.Tui.Asked.{
  IsAsked, Survives, IsCareful, normal-IsAsked, open_browser-IsAsked, execute_rget-IsAsked,
  start_put_browser-IsAsked, start_get_browser-IsAsked, start_rs_delete_confirmation-IsAsked,
  start_delete_confirmation-IsAsked, create-Survives,
}

module _ {Text : Type 0} where
  pub stays : (h : Home Text) → Survives h h
  stays h zone name content found = found

  kept : (d : Disk Text) (o : Outcome Text) → IsAsked o.1.0 × (o.1.1 ≡ d) → IsCareful d.home o
  kept d o h = (h.0, rw h.1 (stays d.home))

  get_command-IsAsked :
      (env : Env) (args : List Str) (a : App) (d : Disk Text)
      → a.mode ≡ AppMode.normal
      → let o = get_command env args (a, d) in IsAsked o.1.0 × (o.1.1 ≡ d)
  unfolding IsAsked print print_lines
  get_command-IsAsked env [] a d e = ground (arith, e)
  get_command-IsAsked env (name ∷ args) a d e =
      ground (arith, e, start_get_browser-IsAsked env d.home name a e)

  delete_command-IsAsked :
      (args : List Str) (a : App) (d : Disk Text)
      → a.mode ≡ AppMode.normal
      → let o = delete_command args (a, d) in IsAsked o.1.0 × (o.1.1 ≡ d)
  unfolding IsAsked print print_lines
  delete_command-IsAsked [] a d e = ground (arith, e)
  delete_command-IsAsked (name ∷ args) a d e =
      ground (arith, e, start_delete_confirmation-IsAsked d.home name a e)

  -- `rsget` and `rsdel`.
  on_rs_file-IsCareful :
      (usage : Str) (start : Str → App → Result (Unit {0}) × App) (args : List Str) (a : App)
      (d : Disk Text)
      → a.mode ≡ AppMode.normal
      → ((name : Str) → IsAsked (start name a).1)
      → IsCareful d.home (on_rs_file usage start args (a, d))
  unfolding IsAsked print print_lines
  on_rs_file-IsCareful usage start [] a d e asked = (rw e tt, stays d.home)
  on_rs_file-IsCareful usage start (arg ∷ args) a d e asked = elim (Option-cases (rs_name arg a)) [
    | inl invalid ↦ rw (invalid, on_rs_file, e) (tt, stays d.home)
    | inr (name, found) ↦ rw (found, on_rs_file) (asked name, stays d.home)
  ]

  list_command-mode :
      (json : Json Text (List FileMetadata)) (env : Env) (args : List Str) (a : App) (d : Disk Text)
      → let (_, (a', d')) = list_command json env args (a, d) in (a'.mode ≡ a.mode) × (d' ≡ d)
  unfolding list_command print print_lines print_multiline execute_list_area execute_list_storage
      execute_rs_list
  list_command-mode json env args a d = ground arith

  put_command-IsAsked :
      (env : Env) (args : List Str) (a : App) (d : Disk Text)
      → a.mode ≡ AppMode.normal
      → let o = put_command env args (a, d) in IsAsked o.1.0 × (o.1.1 ≡ d)
  unfolding IsAsked print print_lines
  put_command-IsAsked env args a d e =
      ground (arith, e, start_put_browser-IsAsked env (get_elem? args 0) a e)

  list_command-Survives :
      (json : Json Text (List FileMetadata)) (env : Env) (args : List Str) (a : App) (d : Disk Text)
      → Survives d.home (list_command json env args (a, d)).1.1.home
  list_command-Survives json env args a d zone name content found =
      ground (arith, found, list_command-mode json env args a d)

  execute_rscfg-Survives :
      (args : List Str) (a : App) (d : Disk Text)
      → Survives d.home (execute_rscfg args (a, d)).1.home
  execute_rscfg-Survives args a d zone name content found =
      ground (arith, found, execute_rscfg-mode args a d)

print_result-mode : (r : Result Str) (a : App) → (print_result r a).mode ≡ a.mode
unfolding print print_lines
print_result-mode (ok msg) a = refl
print_result-mode (err e) a = refl

rget_command-IsAsked :
    (env : Env) (args : List Str) (a : App)
    → a.mode ≡ AppMode.normal
    → IsAsked (rget_command env args a)
unfolding IsAsked rget_command print_lines
rget_command-IsAsked env [] a e = ground (arith, e)
rget_command-IsAsked env (arg ∷ args) a e = execute_rget-IsAsked env arg a e

ruse-mode : (args : List Str) (a : App) → (ruse_command args a).mode ≡ a.mode
ruse-mode [] a = show_remote_status-mode a
ruse-mode (arg ∷ args) a = execute_ruse-mode arg a

rlist-mode : (args : List Str) (a : App) → (rlist_command args a).mode ≡ a.mode
rlist-mode [] a = execute_rlist-mode a
rlist-mode (arg ∷ args) a = list_zone-mode arg a

-- The commands from the normal mode leave the zones' files there, and ask for what they name.
module _ {Text : Type 0} (sha : Sha256) (json : Json Text (List FileMetadata))
    (registry_json : Json Text ZoneRegistry) (rs_json : Json Text RsMetadata) where
  rshave-mode :
      (env : Env) (args : List Str) (d : Disk Text) (a : App)
      → (rshave_command rs_json env args d.rs a).mode ≡ a.mode
  unfolding print print_lines
  rshave-mode env [] d a = refl
  rshave-mode env (arg ∷ args) d a = execute_rs_have-mode rs_json env d.rs arg a

  pub commands-IsCareful :
      (env : Env) (args : List Str) (a : App) (d : Disk Text)
      → a.mode ≡ AppMode.normal
      → All (λ c. IsCareful d.home c.1) (commands sha json registry_json rs_json env args (a, d))
  unfolding commands execute_rs_list execute_rs_status execute_rs_progress execute_rxiu print
      print_lines print_multiline start_rs_put_browser start_rs_get_browser
  commands-IsCareful env args a d e =
      let s = stays d.home in
      let settings = execute_rscfg-Survives args a d in
      (
        normal-IsAsked _ (print_result-mode _ _ ∙ e),
        create-Survives json registry_json env args a.zone_manager d.home,
      )
      ▸ (normal-IsAsked _ (print_result-mode _ _ ∙ e), s)
      ▸ (
        normal-IsAsked _ ((list_command-mode json env args a d).0 ∙ e),
        list_command-Survives json env args a d,
      )
      ▸ kept d (get_command env args (a, d)) (get_command-IsAsked env args a d e)
      ▸ kept d (put_command env args (a, d)) (put_command-IsAsked env args a d e)
      ▸ kept d (delete_command args (a, d)) (delete_command-IsAsked args a d e)
      ▸ kept d (delete_command args (a, d)) (delete_command-IsAsked args a d e)
      ▸ kept d (delete_command args (a, d)) (delete_command-IsAsked args a d e)
      ▸ (normal-IsAsked _ (execute_peers_list-mode a ∙ e), s)
      ▸ (normal-IsAsked _ (remote_command-mode args a ∙ e), s)
      ▸ (normal-IsAsked _ (ruse-mode args a ∙ e), s)
      ▸ (normal-IsAsked _ (execute_rarea-mode a ∙ e), s)
      ▸ (normal-IsAsked _ (rlist-mode args a ∙ e), s)
      ▸ (rget_command-IsAsked env args a e, s)
      ▸ (normal-IsAsked _ (enter_rs-mode a ∙ e), s)
      ▸ (normal-IsAsked _ e, s)
      ▸ (normal-IsAsked _ e, s)
      ▸ (normal-IsAsked _ (execute_rs_stats-mode rs_json env d.rs a ∙ e), s)
      ▸ (normal-IsAsked _ (rshave-mode env args d a ∙ e), s)
      ▸ (normal-IsAsked _ (execute_rs_peers-mode a ∙ e), s)
      ▸ (normal-IsAsked _ e, s)
      ▸ (open_browser-IsAsked env _ _ _ _ a e, s)
      ▸ on_rs_file-IsCareful _ _ args a d e (λ name. open_browser-IsAsked env _ _ _ _ a e)
      ▸ on_rs_file-IsCareful _ _ args a d e
          (λ name. start_rs_delete_confirmation-IsAsked rs_json d.rs name a e)
      ▸ (normal-IsAsked _ ((execute_rscfg-mode args a d).0 ∙ e), settings)
      ▸ (normal-IsAsked _ e, s)
      ▸ (normal-IsAsked _ e, s)
      ▸ (normal-IsAsked _ e, s)
      ▸ (normal-IsAsked _ e, s)
      ▸ (normal-IsAsked _ e, s)
      ▸ (normal-IsAsked _ e, s)
      ▸ tt
