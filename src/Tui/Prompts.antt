-- ===== src/Tui/Prompts.antt =====
-- tui/input.rs: the commands that open the file browser or ask for a confirmation.
use rxiu.Base.{
  ℕ, Str, codes, List, [], ◌∷◌, ◌++◌, Option, none, some, if◌then◌else◌, length, get_elem?, is_nil,
  is_some, not, unwrap_or,
}
use rxiu.Error.{Result, ok, err, no_home_directory, to_string, ◌>>=◌}
use rxiu.External.{Json}
use rxiu.Rs.Types.{RsMetadata, RsDisk}
use rxiu.Rs.Metadata.{get_file}
use rxiu.Storage.Local.{exists}
use rxiu.Storage.Zones.{Home, active_zone}
use rxiu.Base.Decimal.{format_u64}
use rxiu.Ui.Browser
use rxiu.Ui.Browser.{BrowserMode, select_file, select_directory, FilePath}
use rxiu.Tui.App.{
  LineStyle, App, AppMode, Env, BrowserCallback, PendingAction, print, set_status, print_lines,
  line,
}
use rxiu.Tui.Commands.{zone_disk}
use rxiu.Tui.Screen.{not_started}
use rxiu.Tui.Remote.{parse_index}

-- `a.or_else(b).ok_or(NoHomeDirectory)`
abbrev pub first_dir : Option FilePath → Option FilePath → Result FilePath
first_dir (some dir) other = ok dir
first_dir none (some dir) = ok dir
first_dir none none = err no_home_directory

-- The browser at a directory, or an error.
unfoldable pub open_browser :
    Env → Result FilePath → BrowserMode → BrowserCallback → Str → App → Result (Unit {0}) × App
unfolding Browser.new set_status
open_browser env dir mode callback status a =
    elim (dir >>= λ start_dir. Browser.new env.lowercase env.read_dir start_dir mode) [
      | err e ↦ (err e, a)
      | ok browser ↦
          (ok tt, set_status status (record a { mode = AppMode.browser browser mode callback }))
    ]

unfoldable pub start_rs_put_browser : Env → Option Str → App → Result (Unit {0}) × App
unfolding open_browser
start_rs_put_browser env target_name =
    open_browser env (first_dir env.home_dir none) select_file (BrowserCallback.rs_put target_name)
      (codes "Select file to share in RS (y to confirm, q to cancel)")

unfoldable pub start_rs_get_browser : Env → Str → App → Result (Unit {0}) × App
unfolding open_browser
start_rs_get_browser env file_name =
    open_browser env (first_dir env.desktop_dir env.home_dir) select_directory
      (BrowserCallback.rs_get file_name) (codes "Select destination directory for RS file")

-- The questions of the two confirmations.
abbrev pub rs_question : Str → Str
rs_question name = codes "Delete RS file '" ++ (name ++ codes "' from shared space? (y/N)")

abbrev pub question : Str → Str → Str
question name zone =
    codes "Delete '" ++ (name ++ (codes "' from zone '" ++ (zone ++ codes "'? (y/N)")))

unfoldable pub start_rs_delete_confirmation :
    {Text : Type 0} → Json Text RsMetadata → RsDisk Text → Str → App → Result (Unit {0}) × App
unfolding get_file print
start_rs_delete_confirmation rs_json d file_name a = elim (get_file rs_json file_name d) [
  | err e ↦ (err e, a)
  | ok none ↦ (
    ok tt,
    print LineStyle.error (codes "Error: RS file '" ++ (file_name ++ codes "' not found")) a,
  )
  | ok (some _) ↦
      let asked =
        print LineStyle.info
          (codes "Confirm RS delete: press 'y' to delete '" ++ (file_name ++ codes "'")) a in
      (
        ok tt,
        record asked {
          mode =
              AppMode.confirmation (rs_question file_name) (PendingAction.rs_delete_file file_name);
        },
      )
]

-- The first directory that can be read, or the working directory.
unfoldable pub save_dir : Env → List (Option FilePath) → FilePath
save_dir env [] = env.working_dir
save_dir env (none ∷ dirs) = save_dir env dirs
save_dir env (some dir ∷ dirs) =
    let rest = save_dir env dirs in elim (env.read_dir dir) [ ok _ ↦ dir | err _ ↦ rest ]

-- `rget <n>` once a peer, a zone and a file are chosen.
unfoldable pub open_save_browser : Env → ℕ → Str → Str → App → App
unfolding Browser.new save_dir set_status print_lines to_string
open_save_browser env peer_index zone file_name a =
    let start_dir =
      save_dir env
        (env.home_dir ∷ env.desktop_dir ∷ env.download_dir ∷ some env.working_dir ∷ []) in
    elim (Browser.new env.lowercase env.read_dir start_dir select_directory) [
      | ok browser ↦
          set_status (codes "Select save location for '" ++ (file_name ++ codes "'")) (record a {
            mode =
                AppMode.browser browser select_directory
                  (BrowserCallback.remote_get peer_index zone file_name);
          })
      | err e ↦
          print_lines
            (line LineStyle.error (codes "Failed to open directory browser: " ++ to_string e)
              ∷ line LineStyle.info
                  (codes "Try running from a directory you have permission to access.")
              ∷ [])
            a
    ]

unfoldable pub execute_rget : Env → Str → App → App
unfolding print parse_index open_save_browser format_u64
execute_rget env file_num_str a =
    let files = a.remote.files_cache in
    let invalid =
      print LineStyle.error (codes "Invalid file number. Use 1-" ++ format_u64 (length files)) a in
    if not (is_some a.p2p) then not_started a else elim a.remote.peer_index [
      | none ↦ print LineStyle.error (codes "No peer selected. Use 'ruse <n>' first.") a
      | some peer_index ↦ elim a.remote.zone [
        | none ↦ print LineStyle.error (codes "No zone selected. Use 'ruse <zone>' first.") a
        | some zone ↦
            if is_nil files
            then print LineStyle.error (codes "No files cached. Use 'rlist' first.") a
            else elim (parse_index (length files) file_num_str) [
              | none ↦ invalid
              | some file_num ↦ elim (get_elem? files file_num) [
                | none ↦ invalid
                | some file ↦ open_save_browser env peer_index zone file.name a
              ]
            ]
      ]
    ]

abbrev pub not_found : Str → App → App
not_found file_name =
    print LineStyle.error (codes "Error: File '" ++ (file_name ++ codes "' not found in zone"))

unfoldable pub start_get_browser :
    {Text : Type 0} → Env → Home Text → Str → App → Result (Unit {0}) × App
unfolding active_zone exists print open_browser
start_get_browser env h file_name a = elim (active_zone a.zone_manager) [
  | err e ↦ (err e, a)
  | ok zone ↦
      if not (exists file_name (zone_disk zone h))
      then (ok tt, not_found file_name a)
      else open_browser env (first_dir env.desktop_dir env.home_dir) select_directory
          (BrowserCallback.get file_name)
          (codes "Select destination directory (y to confirm, q to cancel)") a
]

unfoldable pub start_put_browser : Env → Option Str → App → Result (Unit {0}) × App
unfolding active_zone open_browser
start_put_browser env target_name a = elim (active_zone a.zone_manager) [
  | err e ↦ (err e, a)
  | ok zone ↦
      open_browser env (first_dir env.home_dir none) select_file (BrowserCallback.put target_name)
        (codes "Select file to import (y to confirm, q to cancel)") a
]

unfoldable pub start_delete_confirmation :
    {Text : Type 0} → Home Text → Str → App → Result (Unit {0}) × App
unfolding active_zone exists print
start_delete_confirmation h file_name a = elim (active_zone a.zone_manager) [
  | err e ↦ (err e, a)
  | ok zone ↦
      if not (exists file_name (zone_disk zone h)) then (ok tt, not_found file_name a) else (
        ok tt,
        record a {
          mode =
              AppMode.confirmation (question file_name (unwrap_or a.zone_manager.active_zone []))
                (PendingAction.delete_file file_name);
        },
      )
]
