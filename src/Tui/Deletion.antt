-- ===== src/Tui/Deletion.antt =====
-- tui/input.rs: a file of a zone is deleted only by the answer to the question that names it.
use rxiu.Base.{
  ◌≡◌, refl, ◌∙◌, subst, Str, true, List, [], ◌∷◌, some, arith, Option-cases, Bool-cases, inl, inr,
  is_nil, none, All,
}
use rxiu.Base.Assoc.{lookup, All-lookup}
use rxiu.External.{Json, Sha256}
use rxiu.Rs.Types.{RsMetadata, is_plain, HasPlainBlocks}
use rxiu.Rs.History.Names.{catalog}
use rxiu.Storage.Local.{FileMetadata}
use rxiu.Storage.Zones.{ZoneRegistry}
use rxiu.Ui.Keys.{KeyCode, KeyEvent}
use rxiu.Tui.Text.{trim, split_whitespace}
use rxiu.Tui.App.{App, AppMode, PendingAction, Env, Disk, print, print_lines}
use rxiu.Tui.Editor.{edit, type_char, backspace, delete}
use rxiu.Tui.Input.{commands, dispatch, execute_command, handle_normal_input, handle_input}
use rxiu.Tui.Arms.{Outcome, is_enter, done}
use rxiu.Tui.Actions.{handle_browser_input, handle_confirmation_input}
use rxiu.Tui.Asked.{IsAsked, IsCareful, normal-IsAsked}
use rxiu.Tui.Kept.{handle_browser_input-IsCareful}
use rxiu.Tui.Answered.{Accounts, handle_confirmation_input-Accounts}
use rxiu.Tui.Careful.{commands-IsCareful, stays}

-- The file that an open question would delete.
abbrev pub deletes : AppMode → List Str
deletes mode = elim mode [
  | AppMode.confirmation message (PendingAction.delete_file name) ↦ name ∷ []
  | _ ↦ []
]

edit-mode : (code : KeyCode) (a a' : App) → edit code a ≡ some a' → a'.mode ≡ a.mode
unfolding edit type_char backspace delete
edit-mode code a a' h = ground (arith, h)

module _ {Text : Type 0} (sha : Sha256) (json : Json Text (List FileMetadata))
    (registry_json : Json Text ZoneRegistry) (rs_json : Json Text RsMetadata) where
  dispatch-IsCareful :
      (env : Env) (words : List Str) (a : App) (d : Disk Text)
      → a.mode ≡ AppMode.normal
      → IsCareful d.home (dispatch sha json registry_json rs_json env words (a, d))
  unfolding dispatch print print_lines
  dispatch-IsCareful env [] a d e = (normal-IsAsked a e, stays d.home)
  dispatch-IsCareful env (cmd ∷ args) a d e =
      let arms = commands sha json registry_json rs_json env args (a, d) in
      let careful = commands-IsCareful sha json registry_json rs_json env args a d e in
      elim (Option-cases (lookup (env.lowercase cmd) arms)) [
        | inl unknown ↦ rw (unknown, dispatch) (normal-IsAsked _ e, stays d.home)
        | inr (o, found) ↦
            rw (found, dispatch)
              (All-lookup (λ c. IsCareful d.home c.1) (env.lowercase cmd) arms careful found)
      ]

  execute_command-IsCareful :
      (env : Env) (a : App) (d : Disk Text)
      → a.mode ≡ AppMode.normal
      → IsCareful d.home (execute_command sha json registry_json rs_json env (a, d))
  unfolding execute_command print print_lines
  execute_command-IsCareful env a d e = elim (Bool-cases (is_nil (trim a.input_buffer))) [
    | inl empty ↦ rw (empty, execute_command) (normal-IsAsked _ e, stays d.home)
    | inr full ↦
        rw (full, execute_command)
          (dispatch-IsCareful env (split_whitespace (trim a.input_buffer)) _ d e)
  ]

  Careful-Accounts :
      (key : KeyEvent) (a : App) (d : Disk Text) (o : Outcome Text)
      → IsCareful d.home o
      → IsAsked o.1.0 × Accounts key a d.home o.1.1.home
  Careful-Accounts key a d o careful =
      (careful.0, λ zone name content found. inl (careful.1 zone name content found))

  handle_normal_input-IsCareful :
      (env : Env) (key : KeyEvent) (a : App) (d : Disk Text) (o : Outcome Text)
      → a.mode ≡ AppMode.normal
      → handle_normal_input sha json registry_json rs_json env key (a, d) ≡ some o
      → IsCareful d.home o
  unfolding handle_normal_input
  handle_normal_input-IsCareful env key a d o e h = elim (Bool-cases (is_enter key.code)) [
    | inl enter ↦
        let run = execute_command sha json registry_json rs_json env (a, d) in
        let same : run ≡ o = ground (arith, h, enter) in
        subst (IsCareful d.home) same (execute_command-IsCareful env a d e)
    | inr other ↦ elim (Option-cases (edit key.code a)) [
      | inl panics ↦ absurd (ground (arith, h, other, panics))
      | inr (a', edited) ↦
          let same : done d a' ≡ o = ground (arith, h, other, edited) in
          subst (IsCareful d.home) same
            (normal-IsAsked a' (edit-mode key.code a a' edited ∙ e), stays d.home)
    ]
  ]

  handle_input-Accounts :
      (env : Env) (key : KeyEvent) (a : App) (d : Disk Text) (o : Outcome Text)
      → IsAsked a
      → handle_input sha json registry_json rs_json env key (a, d) ≡ some o
      → IsAsked o.1.0 × Accounts key a d.home o.1.1.home
  unfolding handle_input
  handle_input-Accounts env key a d o asked h = elim (Bool-cases key.press) [
    | inr release ↦
        let same : done d a ≡ o = ground (arith, h, release) in
        subst (λ o'. IsAsked o'.1.0 × Accounts key a d.home o'.1.1.home) same
          (asked, λ zone name content found. inl found)
    | inl press ↦ pressed a.mode refl press
  ]
    where
      pressed :
          (mode : AppMode)
          → a.mode ≡ mode
          → key.press ≡ true
          → IsAsked o.1.0 × Accounts key a d.home o.1.1.home
      pressed AppMode.normal e press =
          Careful-Accounts key a d o
            (handle_normal_input-IsCareful env key a d o e (ground (arith, h, press, e)))
      pressed (AppMode.browser browser mode callback) e press =
          let o' = handle_browser_input sha json rs_json env key browser mode callback (a, d) in
          let same : o' ≡ o = ground (arith, h, press, e) in
          Careful-Accounts key a d o (
            subst (IsCareful d.home) same
              (handle_browser_input-IsCareful sha json rs_json env key browser mode callback a d))
      pressed (AppMode.confirmation message action) e press =
          let o' = handle_confirmation_input sha json rs_json key action (a, d) in
          let same : o' ≡ o = ground (arith, h, press, e) in
          subst (λ o''. IsAsked o''.1.0 × Accounts key a d.home o''.1.1.home) same
            (handle_confirmation_input-Accounts json sha rs_json key message action a d e asked)

  -- Every name is plain: those of the zones' directories, of their files, of the blocks in the metadata of the shared files, of the
  -- active zone, and of the file that an open question would delete.
  abbrev pub HasPlainNames : App → Disk Text → Type 0
  HasPlainNames a d =
      All (λ z. (is_plain z.0 ≡ true) × All (λ f. is_plain f.0 ≡ true) z.1.files) d.home.directories
      × All HasPlainBlocks (catalog rs_json d.rs)
      × All (λ z. is_plain z ≡ true)
          (elim a.zone_manager.active_zone [ none ↦ [] | some z ↦ z ∷ [] ])
      × All (λ n. is_plain n ≡ true) (deletes a.mode)

  -- A key in any mode, where all names are plain and the user's own files lie outside of the zones: the files of the zones
  -- stay there, with their contents, but for the file that the open question names, in the zone that it names, where the
  -- key is y or Y. A question that is open after the key names its file and the active zone again.
  pub handle_input-asks :
      (env : Env) (key : KeyEvent) (a : App) (d : Disk Text) (o : Outcome Text)
      → HasPlainNames a d
      → IsAsked a
      → handle_input sha json registry_json rs_json env key (a, d) ≡ some o
      → IsAsked o.1.0 × Accounts key a d.home o.1.1.home
  handle_input-asks env key a d o plain asked h = handle_input-Accounts env key a d o asked h
