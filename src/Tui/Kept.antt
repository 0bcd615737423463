-- ===== src/Tui/Kept.antt =====
-- tui/input.rs: what the file browser's callbacks and the confirmations do to the zones' files.
use rxiu.Base.{
  ℕ, ◌≡◌, refl, ◌∙◌, Str, Bytes, false, List, Option, none, some, arith, Bool-cases, inl, inr,
  str_eq_iff,
}
use rxiu.Base.Assoc.{lookup, lookup-insert, lookup_missing}
use rxiu.Error.{Result-cases}
use rxiu.External.{Json, Sha256}
use rxiu.Rs.Types.{RsMetadata}
use rxiu.Storage.Local
use rxiu.Storage.Local.{FileMetadata, ZoneDisk, exists}
use rxiu.Ui.Keys.{KeyEvent}
use rxiu.Ui.Browser.{FilePath, FileBrowser, BrowserMode, handle_key_tui}
use rxiu.Tui.App.{App, AppMode, Env, Disk, BrowserCallback, print, print_lines, clear_status}
use rxiu.Tui.Commands.{zone_disk}
use rxiu.Tui.Actions.{complete_browser_action, handle_browser_input}
use rxiu.Tui.Files.{set_zone, save_file, chosen_file, import_file, put_file, upload_file}
use rxiu.Tui.Asked.{IsAsked, Survives, IsCareful, normal-IsAsked}
use rxiu.Tui.Careful.{stays}

module _ {Text : Type 0} where
  set_zone-Survives :
      (zone : Str) (z : ZoneDisk Text) (d : Disk Text)
      → ((name : Str) (content : Bytes)
          → lookup name (zone_disk zone d.home).files ≡ some content
          → lookup name z.files ≡ some content)
      → Survives d.home (set_zone zone z d).home
  set_zone-Survives zone z d keeps zone' name content found = ground (
    arith,
    found,
    keeps name content,
    str_eq_iff zone zone',
    lookup-insert zone zone' z d.home.directories,
  )

  store-keeps :
      (sha : Sha256) (json : Json Text (List FileMetadata)) (now : ℕ) (new : Str) (bytes : Bytes)
      (z : ZoneDisk Text)
      → exists new z ≡ false
      → (name : Str) (content : Bytes) → lookup name z.files ≡ some content
      → lookup name (Local.store json sha now new bytes z).1.files ≡ some content
  unfolding exists Local.store Local.save_metadata
  store-keeps sha json now new bytes z absent name content found = ground (
    arith,
    found,
    absent,
    lookup_missing new z.files absent,
    str_eq_iff new name,
    lookup-insert new name bytes z.files,
  )

  save_file-keeps :
      (env : Env) (path : FilePath) (name : Str) (a : App) (d : Disk Text)
      → let (_, (a', d')) = save_file env path name (a, d) in
        (a'.mode ≡ a.mode) × (d'.home ≡ d.home)
  unfolding save_file print print_lines
  save_file-keeps env path name a d = ground arith

module _ {Text : Type 0} (sha : Sha256) (json : Json Text (List FileMetadata)) where
  import_file-keeps :
      (env : Env) (zone : Str) (content : Bytes) (name : Str) (a : App) (d : Disk Text)
      → let (_, (a', d')) = import_file sha json env zone content name (a, d) in
        (a'.mode ≡ a.mode) × Survives d.home d'.home
  unfolding import_file print print_lines
  import_file-keeps env zone content name a d =
      let z = zone_disk zone d.home in
      elim (Bool-cases (exists name z)) [
        | inl there ↦ rw (there, import_file) (refl, stays d.home)
        | inr absent ↦
            let after = Local.store json sha env.now name content z in
            let survives =
              set_zone-Survives zone after.1 d
                (store-keeps sha json env.now name content z absent) in
            elim (Result-cases after.0) [
              | inl (metadata, stored) ↦ rw (absent, stored, import_file) (refl, survives)
              | inr (why, failed) ↦ rw (absent, failed, import_file) (refl, survives)
            ]
      ]

  put_file-keeps :
      (env : Env) (path : FilePath) (target_name : Option Str) (a : App) (d : Disk Text)
      → let (_, (a', d')) = put_file sha json env path target_name (a, d) in
        (a'.mode ≡ a.mode) × Survives d.home d'.home
  unfolding put_file
  put_file-keeps env path target_name a d =
      elim (Result-cases (chosen_file path target_name (a, d))) [
        | inr (why, failed) ↦ rw (failed, put_file) (refl, stays d.home)
        | inl ((content, (name, zone)), chosen) ↦
            rw (chosen, put_file) (import_file-keeps env zone content name a d)
      ]

  module _ (rs_json : Json Text RsMetadata) where
    upload_file-mode :
        (env : Env) (path : FilePath) (target_name : Option Str) (a : App) (d : Disk Text)
        → (upload_file sha json rs_json env path target_name (a, d)).1.mode ≡ a.mode
    unfolding upload_file print print_lines
    upload_file-mode env path target_name a d = ground arith

    complete_browser_action-keeps :
        (env : Env) (path : FilePath) (callback : BrowserCallback) (a : App) (d : Disk Text)
        → let (_, (a', d')) = complete_browser_action sha json rs_json env path callback (a, d) in
          (a'.mode ≡ a.mode) × Survives d.home d'.home
    unfolding complete_browser_action print print_lines
    complete_browser_action-keeps env path (BrowserCallback.get file_name) a d =
        let keeps = save_file-keeps env path file_name a d in
        (keeps.0, λ zone name content found. ground (arith, found, keeps.1))
    complete_browser_action-keeps env path (BrowserCallback.put target_name) a d =
        put_file-keeps env path target_name a d
    complete_browser_action-keeps env path (BrowserCallback.remote_get i zone name) a d =
        (refl, stays d.home)
    complete_browser_action-keeps env path (BrowserCallback.rs_put target_name) a d =
        (upload_file-mode env path target_name a d, stays d.home)
    complete_browser_action-keeps env path (BrowserCallback.rs_get name) a d = (refl, stays d.home)

    complete_browser_action-IsCareful :
        (env : Env) (path : FilePath) (callback : BrowserCallback) (a : App) (d : Disk Text)
        → a.mode ≡ AppMode.normal
        → IsCareful d.home (complete_browser_action sha json rs_json env path callback (a, d))
    complete_browser_action-IsCareful env path callback a d e =
        let o = complete_browser_action sha json rs_json env path callback (a, d) in
        let keeps = complete_browser_action-keeps env path callback a d in
        (normal-IsAsked o.1.0 (keeps.0 ∙ e), keeps.1)

    pub handle_browser_input-IsCareful :
        (env : Env) (key : KeyEvent) (browser : FileBrowser) (mode : BrowserMode)
        (callback : BrowserCallback) (a : App) (d : Disk Text)
        → IsCareful d.home
            (handle_browser_input sha json rs_json env key browser mode callback (a, d))
    unfolding handle_browser_input IsAsked clear_status print print_lines
    handle_browser_input-IsCareful env key browser mode callback a d =
        let after = handle_key_tui env.lowercase env.read_dir env.height key browser in
        let a' = clear_status (record a { mode = AppMode.normal }) in
        elim (Result-cases after.1) [
          | inr (why, failed) ↦
              (ground (arith, failed), λ zone name content found. ground (arith, failed, found))
          | inl (none, goes_on) ↦ rw (goes_on, handle_browser_input) (tt, stays d.home)
          | inl (some path, chosen) ↦
              rw (chosen, handle_browser_input)
                (complete_browser_action-IsCareful env path callback a' d refl)
        ]
