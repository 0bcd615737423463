-- ===== src/Tui/Answered.antt =====
-- tui/input.rs: what the answer to a question does to the zones' files.
use rxiu.Base.{
  ◌≡◌, refl, sym, ◌∙◌, subst, Str, str_eq, Bytes, true, List, some, arith, Bool-cases, ◌⊎◌, inl,
  inr, eq_of_str_eq,
}
use rxiu.Base.Assoc.{lookup, lookup-insert, lookup-erase}
use rxiu.Error.{ok, Result-cases}
use rxiu.External.{Json, Sha256}
use rxiu.Rs.Types.{RsMetadata}
use rxiu.Storage.Local
use rxiu.Storage.Local.{FileMetadata, ZoneDisk, exists}
use rxiu.Storage.Zones.{Home, active_zone}
use rxiu.Ui.Keys.{KeyEvent}
use rxiu.Tui.App.{App, AppMode, Disk, PendingAction, print, print_lines}
use rxiu.Tui.Prompts.{question}
use rxiu.Tui.Commands.{zone_disk}
use rxiu.Tui.Actions.{execute_pending_action, handle_confirmation_input}
use rxiu.Tui.Files.{set_zone, is_yes}
use rxiu.Tui.Asked.{IsAsked, file_at, normal-IsAsked, active_of_zone}

-- The question that is open names the file, and the key answers it with yes.
abbrev pub IsDeleting : KeyEvent → App → Str → Str → Type 0
IsDeleting key a zone name =
    (a.mode ≡ AppMode.confirmation (question name zone) (PendingAction.delete_file name))
    × (is_yes key.code ≡ true)

-- Every file of the zones is still there, or is being deleted.
abbrev pub Accounts : {Text : Type 0} → KeyEvent → App → Home Text → Home Text → Type 0
Accounts key a h h' =
    (zone name : Str) (content : Bytes)
    → file_at zone name h ≡ some content
    → (file_at zone name h' ≡ some content) ⊎ IsDeleting key a zone name

module _ {Text : Type 0} (json : Json Text (List FileMetadata)) where
  -- Only the file of that name is gone.
  delete-keeps :
      (name : Str) (z : ZoneDisk Text) (other : Str) (content : Bytes)
      → lookup other z.files ≡ some content
      → (lookup other (Local.delete json name z).1.files ≡ some content) ⊎ (name ≡ other)
  unfolding Local.delete Local.save_metadata
  delete-keeps name z other content found = elim (Bool-cases (str_eq name other)) [
    | inl same ↦ inr (eq_of_str_eq name other same)
    | inr differ ↦ inl (ground (arith, found, differ, lookup-erase name other z.files))
  ]

  module _ (sha : Sha256) (rs_json : Json Text RsMetadata) where
    -- What the confirmed deletion leaves of the zones.
    delete_file-home :
        (name zone : Str) (a : App) (d : Disk Text)
        → active_zone a.zone_manager ≡ ok zone
        → (execute_pending_action sha json rs_json (PendingAction.delete_file name) (a, d)).1.1
          ≡ set_zone zone (Local.delete json name (zone_disk zone d.home)).1 d
    unfolding execute_pending_action
    delete_file-home name zone a d active = ground (arith, active)

    delete_file-Accounts :
        (key : KeyEvent) (name : Str) (a a' : App) (d : Disk Text) (message : Str)
        → a.mode ≡ AppMode.confirmation message (PendingAction.delete_file name)
        → ((zone : Str) → active_zone a'.zone_manager ≡ ok zone → message ≡ question name zone)
        → is_yes key.code ≡ true
        → Accounts key a d.home
            (execute_pending_action sha json rs_json
              (PendingAction.delete_file name)
              (a', d)).1.1.home
    unfolding execute_pending_action
    delete_file-Accounts key name a a' d message asking asked answered zone other content found =
        elim (Result-cases (active_zone a'.zone_manager)) [
          | inr (why, failed) ↦ inl (ground (arith, failed, found))
          | inl (active, chosen) ↦ elim (Bool-cases (str_eq active zone)) [
            | inr differ ↦
                let z = (Local.delete json name (zone_disk active d.home)).1 in
                inl (
                  ground (
                    arith,
                    found,
                    differ,
                    delete_file-home name active a' d chosen,
                    lookup-insert active zone z d.home.directories,
                  ))
            | inl same ↦
                let z = (Local.delete json name (zone_disk active d.home)).1 in
                let here = eq_of_str_eq active zone same in
                elim (delete-keeps name (zone_disk active d.home) other content (rw here found)) [
                  | inl keeps ↦ inl (
                      ground (
                        arith,
                        keeps,
                        same,
                        delete_file-home name active a' d chosen,
                        lookup-insert active zone z d.home.directories,
                      ))
                  | inr e ↦ inr (asking ∙ rw (asked active chosen, here, e) refl, answered)
                ]
          ]
        ]

    asked_question :
        (a : App) (message name : Str)
        → a.mode ≡ AppMode.confirmation message (PendingAction.delete_file name)
        → IsAsked a
        → (zone : Str) → active_zone a.zone_manager ≡ ok zone
        → message ≡ question name zone
    unfolding IsAsked
    asked_question a message name e asked zone active =
        let named : (z : Str) × (a.zone_manager.active_zone ≡ some z)
            × (message ≡ question name z) =
          subst
            (λ m. elim m [
              | AppMode.normal ↦ Unit {0}
              | AppMode.browser _ _ _ ↦ Unit {0}
              | AppMode.confirmation text (PendingAction.rs_delete_file _) ↦ Unit {0}
              | AppMode.confirmation text (PendingAction.delete_file file) ↦
                  (z : Str) × (a.zone_manager.active_zone ≡ some z) × (text ≡ question file z)
            ])
            e asked in
        let chosen = active_of_zone zone a.zone_manager active in ground (arith, named, chosen)

    execute_pending_action-mode :
        (action : PendingAction) (a : App) (d : Disk Text)
        → (execute_pending_action sha json rs_json action (a, d)).1.0.mode ≡ a.mode
    unfolding execute_pending_action print print_lines
    execute_pending_action-mode (PendingAction.delete_file name) a d = ground arith
    execute_pending_action-mode (PendingAction.rs_delete_file name) a d = ground arith

    pub handle_confirmation_input-Accounts :
        (key : KeyEvent) (message : Str) (action : PendingAction) (a : App) (d : Disk Text)
        → a.mode ≡ AppMode.confirmation message action
        → IsAsked a
        → let o = handle_confirmation_input sha json rs_json key action (a, d) in
          IsAsked o.1.0 × Accounts key a d.home o.1.1.home
    unfolding handle_confirmation_input IsAsked print print_lines
    handle_confirmation_input-Accounts key message action a d e asked =
        let a' = record a { mode = AppMode.normal } in
        elim (Bool-cases (is_yes key.code)) [
          | inr refused ↦
              rw (refused, handle_confirmation_input)
                (normal-IsAsked a' refl, λ zone name content found. inl found)
          | inl answered ↦
              let o = execute_pending_action sha json rs_json action (a', d) in
              let same : handle_confirmation_input sha json rs_json key action (a, d) ≡ o =
                rw (answered, handle_confirmation_input) refl in
              subst (λ o'. IsAsked o'.1.0 × Accounts key a d.home o'.1.1.home) (sym same)
                (
                  normal-IsAsked o.1.0 (execute_pending_action-mode action a' d),
                  confirmed action e answered,
                )
        ]
      where
        confirmed :
            (act : PendingAction)
            → a.mode ≡ AppMode.confirmation message act
            → is_yes key.code ≡ true
            → Accounts key a d.home
                (execute_pending_action sha json rs_json act
                  (record a { mode = AppMode.normal }, d)).1.1.home
        confirmed (PendingAction.rs_delete_file name) same answered =
            λ zone other content found. inl (ground (arith, found))
        confirmed (PendingAction.delete_file name) same answered =
            delete_file-Accounts key name a (record a { mode = AppMode.normal }) d message same
              (asked_question a message name same asked) answered
