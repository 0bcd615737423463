-- ===== src/Tui/Input.antt =====
-- tui/input.rs: the commands, and what a key does in each mode.
use rxiu.Base.{
  Str, codes, true, List, [], ◌∷◌, ◌++◌, Option, none, some, if◌then◌else◌, is_nil, get_elem?,
}
use rxiu.Base.Assoc.{lookup}
use rxiu.Error.{ok}
use rxiu.External.{Json, Sha256}
use rxiu.Rs.Types.{RsMetadata}
use rxiu.Storage.Local.{FileMetadata}
use rxiu.Storage.Zones.{ZoneRegistry}
use rxiu.Ui.Keys.{KeyEvent}
use rxiu.Tui.Text.{trim, split_whitespace}
use rxiu.Tui.App.{LineStyle, App, AppMode, Env, Disk, print, print_multiline, current_zone_name}
use rxiu.Tui.Commands.{create, use_zone, help}
use rxiu.Tui.Screen.{
  execute_peers_list, execute_rs_list, execute_rs_status, execute_rs_progress, execute_rs_peers,
  execute_rxiu, enter_rs,
}
use rxiu.Tui.Remote.{execute_ruse, show_remote_status, execute_rarea, execute_rlist, list_zone}
use rxiu.Tui.RsCommands.{rs_name, execute_rs_stats, execute_rs_have, execute_rscfg}
use rxiu.Tui.Prompts.{
  start_rs_put_browser, start_rs_get_browser, start_rs_delete_confirmation, start_get_browser,
  start_put_browser, start_delete_confirmation,
}
use rxiu.Tui.Actions.{handle_browser_input, handle_confirmation_input}
use rxiu.Tui.Editor.{edit}
use rxiu.Tui.Arms.{
  is_enter, Outcome, done, keeping, remote_command, rget_command, on_rs_file, ruse_command,
  rlist_command, rshave_command, prompt, use_command, get_command, put_command, delete_command,
  list_command, create_command,
}

module _ {Text : Type 0} (sha : Sha256) (json : Json Text (List FileMetadata))
    (registry_json : Json Text ZoneRegistry) (rs_json : Json Text RsMetadata) where
  -- The arms of the match on the command, by its word in lower case.
  unfoldable pub commands : Env → List Str → App × Disk Text → List (Str × Outcome Text)
  unfolding create use_zone list_command start_get_browser start_put_browser
      start_delete_confirmation execute_peers_list remote_command execute_ruse show_remote_status
      execute_rarea list_zone execute_rlist rget_command enter_rs execute_rs_list execute_rs_status
      execute_rs_stats execute_rs_have execute_rs_peers execute_rs_progress start_rs_put_browser
      start_rs_get_browser start_rs_delete_confirmation execute_rscfg execute_rxiu print_multiline
      rs_name
  commands env args (a, d) =
      (codes "create", create_command json registry_json env args (a, d))
      ∷ (codes "use", use_command args (a, d))
      ∷ (codes "list", list_command json env args (a, d))
      ∷ (codes "get", get_command env args (a, d))
      ∷ (codes "put", put_command env args (a, d))
      ∷ (codes "del", delete_command args (a, d))
      ∷ (codes "delete", delete_command args (a, d))
      ∷ (codes "rm", delete_command args (a, d))
      ∷ (codes "peers", done d (execute_peers_list a))
      ∷ (codes "remote", done d (remote_command args a))
      ∷ (codes "ruse", done d (ruse_command args a))
      ∷ (codes "rarea", done d (execute_rarea a))
      ∷ (codes "rlist", done d (rlist_command args a))
      ∷ (codes "rget", done d (rget_command env args a))
      ∷ (codes "rs", done d (enter_rs a))
      ∷ (codes "rslist", done d (execute_rs_list a))
      ∷ (codes "rsstatus", done d (execute_rs_status a))
      ∷ (codes "rsstats", done d (execute_rs_stats rs_json env d.rs a))
      ∷ (codes "rshave", done d (rshave_command rs_json env args d.rs a))
      ∷ (codes "rspeers", done d (execute_rs_peers a))
      ∷ (codes "rsprogress", done d (execute_rs_progress a))
      ∷ (codes "rsput", keeping d (start_rs_put_browser env (get_elem? args 0) a))
      ∷ (
        codes "rsget",
        on_rs_file (codes "Usage: rsget <number> | rsget <file_name>") (start_rs_get_browser env)
            args (a, d),
      )
      ∷ (
        codes "rsdel",
        on_rs_file (codes "Usage: rsdel <number> | rsdel <file_name>")
            (start_rs_delete_confirmation rs_json d.rs) args (a, d),
      )
      ∷ (codes "rscfg", (ok tt, execute_rscfg args (a, d)))
      ∷ (codes "rxiu", done d (execute_rxiu a))
      ∷ (codes "help", done d (print_multiline help LineStyle.normal a))
      ∷ (codes "?", done d (print_multiline help LineStyle.normal a))
      ∷ (codes "exit", done d (record a { should_quit = true }))
      ∷ (codes "quit", done d (record a { should_quit = true }))
      ∷ (codes "q", done d (record a { should_quit = true }))
      ∷ []

  -- The command's first word and its arguments.
  unfoldable pub dispatch : Env → List Str → App × Disk Text → Outcome Text
  unfolding commands print
  dispatch env [] (a, d) = done d a
  dispatch env (cmd ∷ args) (a, d) = elim (lookup (env.lowercase cmd) (commands env args (a, d))) [
    | some outcome ↦ outcome
    | none ↦ done d (
        print LineStyle.error (codes "Error: Invalid command. Type 'help' for available commands")
          a)
  ]

  unfoldable pub execute_command : Env → App × Disk Text → Outcome Text
  unfolding dispatch trim split_whitespace print current_zone_name
  execute_command env (a, d) =
      let input = trim a.input_buffer in
      let cleared = record a { input_buffer = []; cursor_pos = 0 } in
      let echoed = print LineStyle.info (prompt cleared ++ input) cleared in
      if is_nil input then done d cleared else dispatch env (split_whitespace input) (echoed, d)

  -- `none` is a panic.
  unfoldable pub handle_normal_input : Env → KeyEvent → App × Disk Text → Option (Outcome Text)
  unfolding edit execute_command
  handle_normal_input env key (a, d) =
      if is_enter key.code
      then some (execute_command env (a, d))
      else elim (edit key.code a) [ none ↦ none | some a' ↦ some (done d a') ]

  unfoldable pub handle_input : Env → KeyEvent → App × Disk Text → Option (Outcome Text)
  unfolding handle_normal_input handle_browser_input handle_confirmation_input
  handle_input env key (a, d) =
      if key.press
      then elim a.mode [
        | AppMode.normal ↦ handle_normal_input env key (a, d)
        | AppMode.browser browser mode callback ↦
            some (handle_browser_input sha json rs_json env key browser mode callback (a, d))
        | AppMode.confirmation message action ↦
            some (handle_confirmation_input sha json rs_json key action (a, d))
      ]
      else some (done d a)
