-- ===== src/Tui/Arms.antt =====
-- tui/input.rs: the arms of `execute_command`.
use rxiu.Base.{
  Str, str_eq, codes, Bool, true, false, List, [], ◌∷◌, ◌++◌, none, some, if◌then◌else◌, get_elem?,
}
use rxiu.Error.{Result, ok, err, to_string}
use rxiu.External.{Json}
use rxiu.Rs.Types.{RsMetadata, RsDisk}
use rxiu.Storage.Local.{FileMetadata}
use rxiu.Storage.Zones.{ZoneRegistry}
use rxiu.Ui.Keys.{KeyCode}
use rxiu.Tui.App.{
  LineStyle, App, Env, Disk, line, print, print_lines, print_multiline, current_zone_name,
}
use rxiu.Tui.Commands.{create, use_zone, help}
use rxiu.Tui.Commands
use rxiu.Tui.Screen.{execute_list_area, execute_list_storage, execute_peers_list, execute_rs_list}
use rxiu.Tui.Remote.{
  execute_remote_query, execute_ruse, show_remote_status, execute_rlist, list_zone,
}
use rxiu.Tui.RsCommands.{rs_name, invalid_number, execute_rs_have}
use rxiu.Tui.Prompts.{execute_rget, start_get_browser, start_put_browser, start_delete_confirmation}

-- The result of a command of cli/commands.rs, printed.
abbrev pub print_result : Result Str → App → App
print_result (ok msg) a = print LineStyle.success msg a
print_result (err e) a = print LineStyle.error (codes "Error: " ++ to_string e) a

abbrev pub is_enter : KeyCode → Bool
is_enter KeyCode.enter = true
is_enter _ = false

-- What a command gives: the `Result` of `execute_command`, and the state.
abbrev pub Outcome : Type 0 → Type 0
Outcome Text = Result (Unit {0}) × (App × Disk Text)

abbrev pub done : {Text : Type 0} → Disk Text → App → Outcome Text
done d a = (ok tt, (a, d))

-- A command that leaves the disk as it is.
abbrev pub keeping : {Text : Type 0} → Disk Text → Result (Unit {0}) × App → Outcome Text
keeping d ra = (ra.0, (ra.1, d))

abbrev pub is_first : Str → List Str → Bool
is_first s [] = false
is_first s (arg ∷ args) = str_eq arg s

-- The commands that ask for a file's name.
abbrev pub missing_name : App → App
missing_name = print LineStyle.error (codes "Error: Missing argument: file_name")

abbrev pub rs_active : Str → App → App
rs_active usage =
    print LineStyle.info (codes "RS mode active. Use '" ++ (usage ++ codes "' instead."))

unfoldable pub remote_command : List Str → App → App
unfolding execute_peers_list execute_remote_query print_lines
remote_command [] a =
    print_lines
      (line LineStyle.info []
        ∷ line LineStyle.info (codes "Use 'ruse <n>' to select a peer, then 'rarea' to see zones.")
        ∷ [])
      (execute_peers_list a)
remote_command (peer_index ∷ args) a = execute_remote_query peer_index a

unfoldable pub rget_command : Env → List Str → App → App
unfolding execute_rget print_lines
rget_command env [] a =
    print_lines
      (line LineStyle.error (codes "Usage: rget <file_number>")
        ∷ line LineStyle.info (codes "First use 'rlist' to see files with numbers.")
        ∷ [])
      a
rget_command env (file_num ∷ args) a = execute_rget env file_num a

-- `rsget` and `rsdel`: on a file's name, or on its number in the last list.
abbrev pub on_rs_file :
    {Text : Type 0}
    → Str
    → (Str → App → Result (Unit {0}) × App)
    → List Str
    → App × Disk Text
    → Outcome Text
on_rs_file usage start [] (a, d) = done d (print LineStyle.error usage a)
on_rs_file usage start (arg ∷ args) (a, d) = elim (rs_name arg a) [
  | none ↦ done d (invalid_number a)
  | some name ↦ keeping d (start name a)
]

abbrev pub ruse_command : List Str → App → App
ruse_command [] a = show_remote_status a
ruse_command (arg ∷ args) a = execute_ruse arg a

abbrev pub rlist_command : List Str → App → App
rlist_command [] a = execute_rlist a
rlist_command (zone ∷ args) a = list_zone zone a

abbrev pub rshave_command :
    {Text : Type 0} → Json Text RsMetadata → Env → List Str → RsDisk Text → App → App
rshave_command rs_json env [] d a =
    print LineStyle.error (codes "Usage: rshave <number> | rshave <file_name>") a
rshave_command rs_json env (arg ∷ args) d a = execute_rs_have rs_json env d arg a

abbrev pub prompt : App → Str
prompt a = elim (current_zone_name a) [ none ↦ codes "> " | some n ↦ n ++ codes "> " ]

module _ {Text : Type 0} where
  abbrev pub use_command : List Str → App × Disk Text → Outcome Text
  use_command args (a, d) =
      let (result, z) = use_zone args a.zone_manager in
      done d (print_result result (record a { zone_manager = z }))

  abbrev pub get_command : Env → List Str → App × Disk Text → Outcome Text
  get_command env args (a, d) =
      if a.rs_mode then done d (rs_active (codes "rsget <file_name>") a) else elim args [
        | [] ↦ done d (missing_name a)
        | file_name ∷ _ ↦ keeping d (start_get_browser env d.home file_name a)
      ]

  abbrev pub put_command : Env → List Str → App × Disk Text → Outcome Text
  put_command env args (a, d) =
      if a.rs_mode
      then done d (rs_active (codes "rsput [name]") a)
      else keeping d (start_put_browser env (get_elem? args 0) a)

  abbrev pub delete_command : List Str → App × Disk Text → Outcome Text
  delete_command args (a, d) =
      if a.rs_mode then done d (rs_active (codes "rsdel <file_name>") a) else elim args [
        | [] ↦ done d (missing_name a)
        | file_name ∷ _ ↦ keeping d (start_delete_confirmation d.home file_name a)
      ]

  module _ (json : Json Text (List FileMetadata)) where
    unfoldable pub list_command : Env → List Str → App × Disk Text → Outcome Text
    unfolding str_eq execute_list_area execute_list_storage execute_rs_list Commands.list print
        print_multiline to_string
    list_command env args (a, d) =
        if is_first (codes "area") args
        then done d (execute_list_area a)
        else if is_first (codes "storage") args
        then done d (execute_list_storage env a)
        else if a.rs_mode
        then done d (execute_rs_list a)
        else done d (elim (Commands.list json env a.zone_manager d.home) [
          | ok msg ↦ print_multiline msg LineStyle.normal a
          | err e ↦ print LineStyle.error (codes "Error: " ++ to_string e) a
        ])

    module _ (registry_json : Json Text ZoneRegistry) where
      abbrev pub create_command : Env → List Str → App × Disk Text → Outcome Text
      create_command env args (a, d) =
          let (result, zh) = create json registry_json env args (a.zone_manager, d.home) in
          done (record d { home = zh.1 }) (print_result result (record a { zone_manager = zh.0 }))
