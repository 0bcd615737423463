-- ===== src/Tui/Actions.antt =====
-- tui/input.rs: what is done with a path that the browser gives, and with the answer to a question.
use rxiu.Base.{codes, List, ◌∷◌, ◌++◌, none, some, if◌then◌else◌, map, is_some}
use rxiu.Error.{Result, ok, err, cancelled, to_string}
use rxiu.External.{Json, Sha256}
use rxiu.Rs.Types.{RsMetadata}
use rxiu.Rs.Blocks.{remove_file}
use rxiu.Storage.Local
use rxiu.Storage.Local.{FileMetadata, ZoneDisk, exists, retrieve}
use rxiu.Storage.Zones.{active_zone}
use rxiu.Ui.Keys.{KeyEvent}
use rxiu.Ui.Browser.{FilePath, FileBrowser, BrowserMode, handle_key_tui}
use rxiu.Tui.App.{
  LineStyle, App, AppMode, Env, Disk, Task, BrowserCallback, PendingAction, PendingOperation, print,
  clear_status,
}
use rxiu.Tui.Commands.{zone_disk}
use rxiu.Tui.Files.{set_zone, save_file, is_yes, put_file, upload_file}

module _ {Text : Type 0} (sha : Sha256) (json : Json Text (List FileMetadata)) where
  module _ (rs_json : Json Text RsMetadata) where
    unfoldable pub complete_browser_action :
        Env → FilePath → BrowserCallback → App × Disk Text → Result (Unit {0}) × (App × Disk Text)
    unfolding save_file put_file upload_file print
    complete_browser_action env path (BrowserCallback.get file_name) ad =
        save_file env path file_name ad
    complete_browser_action env path (BrowserCallback.put target_name) ad =
        put_file sha json env path target_name ad
    complete_browser_action env path (BrowserCallback.remote_get peer_index zone file_name) (a, d) =
        (
          ok tt,
          (
            print LineStyle.info (codes "Downloading '" ++ (file_name ++ codes "'...")) (record a {
              pending_op = some (PendingOperation.download_file peer_index zone file_name path);
            }),
            d,
          ),
        )
    complete_browser_action env path (BrowserCallback.rs_put target_name) (a, d) =
        let (result, a') = upload_file sha json rs_json env path target_name (a, d) in
        (result, (a', d))
    complete_browser_action env path (BrowserCallback.rs_get file_name) (a, d) = (
      ok tt,
      (
        print LineStyle.info (codes "Downloading RS file '" ++ (file_name ++ codes "'..."))
            (record a { pending_op = some (PendingOperation.rs_download file_name path) }),
        d,
      ),
    )

    unfoldable pub handle_browser_input :
        Env
        → KeyEvent
        → FileBrowser
        → BrowserMode
        → BrowserCallback
        → App × Disk Text
        → Result (Unit {0}) × (App × Disk Text)
    unfolding handle_key_tui complete_browser_action clear_status print to_string
    handle_browser_input env key browser mode callback (a, d) =
        let a' = clear_status (record a { mode = AppMode.normal }) in
        let (browser', result) = handle_key_tui env.lowercase env.read_dir env.height key browser in
        elim result [
          | ok (some path) ↦ complete_browser_action env path callback (a', d)
          | ok none ↦ (ok tt, (record a { mode = AppMode.browser browser' mode callback }, d))
          | err cancelled ↦ (ok tt, (print LineStyle.info (codes "Cancelled.") a', d))
          | err e ↦ (ok tt, (print LineStyle.error (codes "Error: " ++ to_string e) a', d))
        ]

    -- The file of the active zone, or the shared file, is deleted.
    unfoldable pub execute_pending_action :
        PendingAction → App × Disk Text → Result (Unit {0}) × (App × Disk Text)
    unfolding active_zone Local.delete print remove_file
    execute_pending_action (PendingAction.delete_file name) (a, d) =
        elim (active_zone a.zone_manager) [
          | err e ↦ (err e, (a, d))
          | ok zone ↦
              let (result, z) = Local.delete json name (zone_disk zone d.home) in
              let d' = set_zone zone z d in
              elim result [
                | err e ↦ (err e, (a, d'))
                | ok _ ↦ (
                  ok tt,
                  (print LineStyle.success (codes "Deleted '" ++ (name ++ codes "'")) a, d'),
                )
              ]
        ]
    execute_pending_action (PendingAction.rs_delete_file name) (a, d) =
        let (result, rs) = remove_file rs_json name d.rs in
        let d' = record d { rs = rs } in
        let peers = map (λ p. p.peer_id) a.peers_cache in
        let shown = print LineStyle.success (codes "Deleted RS file '" ++ (name ++ codes "'")) a in
        elim result [
          | err e ↦ (err e, (a, d'))
          | ok _ ↦ (
            ok tt,
            (
              if is_some a.p2p
                  then record shown { tasks = Task.rs_delete peers name ∷ shown.tasks }
                  else shown,
              d',
            ),
          )
        ]

    unfoldable pub handle_confirmation_input :
        KeyEvent → PendingAction → App × Disk Text → Result (Unit {0}) × (App × Disk Text)
    unfolding execute_pending_action print
    handle_confirmation_input key action (a, d) =
        let a' = record a { mode = AppMode.normal } in
        if is_yes key.code
        then execute_pending_action action (a', d)
        else (ok tt, (print LineStyle.info (codes "Cancelled.") a', d))
