-- ===== src/Tui/Failures.antt =====
-- tui/input.rs, tui/app.rs: keys that end the program.
use rxiu.Base.{
  ℕ, suc, ◌+◌, ◌≤◌, ◌<◌, ◌≡◌, refl, sym, ◌∙◌, Str, Bytes, str_eq, codes, true, false, List, [], ◌∷◌,
  ◌++◌, Option, none, some, if◌then◌else◌, arith, Option-cases, Bool-cases, inl, inr, Any, is_nil,
  length, take, drop, get_elem?, length-take, ltb, zero, ◌/◌, ◌%◌, get_elem?-drop,
  drop-length-append,
}
use rxiu.Base.Assoc.{lookup}
use rxiu.Error.{err, no_active_zone}
use rxiu.External.{Json, Sha256}
use rxiu.Config.{AppConfig, default}
use rxiu.Rs.Types.{RsMetadata}
use rxiu.Storage.Local.{FileMetadata}
use rxiu.Storage.Zones.{ZoneRegistry, active_zone}
use rxiu.Ui.Keys.{KeyCode, KeyEvent}
use rxiu.Tui.Text.{
  encode_utf8, is_continuation, is_char_boundary, insert_char, trim, parse_u64, split_whitespace,
  split_from,
}
use rxiu.Tui.App.{App, AppMode, Env, Disk, LineStyle, print, print_lines}
use rxiu.Tui.Editor.{type_char}
use rxiu.Tui.RsCommands.{
  execute_rscfg, set_concurrency, set_sync_concurrency, set_block_size, set_global_sync,
  save_config, config_of, show_config, in_range,
}
use rxiu.Tui.Prompts.{start_get_browser, start_put_browser, start_delete_confirmation}
use rxiu.Tui.Input.{commands, dispatch, execute_command, handle_normal_input, handle_input}
use rxiu.Tui.Arms.{Outcome, prompt}
use rxiu.Tui.MainLoop.{Event, key, handle_event, run}

small : (n : ℕ) → n < 64 → is_continuation (128 + n) ≡ true
small n h = ground arith

-- A character of more than one byte has a second byte that no character starts with.
second_byte :
    (c : ℕ)
    → 128 ≤ c
    → (b : ℕ) × (get_elem? (encode_utf8 c) 1 ≡ some b) × (is_continuation b ≡ true)
unfolding encode_utf8
second_byte c h = elim (Bool-cases (ltb c 2048)) [
  | inl two ↦ (128 + c % 64, ground (arith, h, two), small (c % 64) (omega arith))
  | inr more ↦ elim (Bool-cases (ltb c 65536)) [
    | inl three ↦
        (128 + c / 64 % 64, ground (arith, h, more, three), small (c / 64 % 64) (omega arith))
    | inr four ↦
        (128 + c / 4096 % 64, ground (arith, h, more, four), small (c / 4096 % 64) (omega arith))
  ]
]

get_elem?-prefix :
    (xs ys : Bytes) (k b : ℕ) → get_elem? xs k ≡ some b → get_elem? (xs ++ ys) k ≡ some b
get_elem?-prefix [] ys k b h = absurd (ground (arith, h))
get_elem?-prefix (x ∷ xs) ys zero b h = h
get_elem?-prefix (x ∷ xs) ys (suc k) b h = get_elem?-prefix xs ys k b h

get_elem?-bound : (xs : Bytes) (i b : ℕ) → get_elem? xs i ≡ some b → i < length xs
get_elem?-bound [] i b h = absurd (ground (arith, h))
get_elem?-bound (x ∷ xs) zero b h = omega arith
get_elem?-bound (x ∷ xs) (suc i) b h = let rest = get_elem?-bound xs i b h in omega arith

boundary-le : (s : Str) (i : ℕ) → is_char_boundary s i ≡ true → i ≤ length s
unfolding is_char_boundary
boundary-le s i h = elim (Option-cases (get_elem? s i)) [
  | inl out ↦ ground (arith, h, out)
  | inr (b, found) ↦ ground (arith, get_elem?-bound s i b found)
]

-- A character of more than one byte is typed: the cursor is then inside of that character, and the next character
-- that is typed makes the program panic.
pub type_char-panics :
    (c e : ℕ) (a : App)
    → 128 ≤ c
    → is_char_boundary a.input_buffer a.cursor_pos ≡ true
    → (a' : App) × (type_char c a ≡ some a') × (type_char e a' ≡ none)
unfolding type_char insert_char is_char_boundary
type_char-panics c e a wide valid =
    let i = a.cursor_pos in
    let front = take i a.input_buffer in
    let typed = encode_utf8 c ++ drop i a.input_buffer in
    let le = boundary-le a.input_buffer i valid in
    let at_end : length front ≡ i = ground (arith, le, length-take i a.input_buffer) in
    let (b, second, inside) = second_byte c wide in
    let there : get_elem? (front ++ typed) (i + 1) ≡ some b = ground (
      arith,
      at_end,
      get_elem?-drop (length front) 1 (front ++ typed),
      drop-length-append front typed,
      get_elem?-prefix (encode_utf8 c) (drop i a.input_buffer) 1 b second,
    ) in
    (
      record a { input_buffer = front ++ typed; cursor_pos = i + 1 },
      ground (arith, valid),
      ground (arith, there, inside),
    )

-- The commands that need an active zone and give its error to their caller.
abbrev pub needs_zone : List Str
needs_zone = codes "put" ∷ codes "get" ∷ codes "del" ∷ codes "delete" ∷ codes "rm" ∷ []

module _ {Text : Type 0} (sha : Sha256) (json : Json Text (List FileMetadata))
    (registry_json : Json Text ZoneRegistry) (rs_json : Json Text RsMetadata) where
  dispatch-no_zone :
      (env : Env) (cmd arg : Str) (a : App) (d : Disk Text)
      → env.lowercase cmd ≡ cmd
      → Any (λ c. c ≡ cmd) needs_zone
      → a.rs_mode ≡ false
      → a.zone_manager.active_zone ≡ none
      → dispatch sha json registry_json rs_json env (cmd ∷ arg ∷ []) (a, d)
        ≡ (err no_active_zone, (a, d))
  unfolding dispatch commands lookup str_eq start_get_browser start_put_browser
      start_delete_confirmation active_zone
  dispatch-no_zone env cmd arg a d lower (inl e) off idle =
      let word : env.lowercase cmd ≡ codes "put" = lower ∙ sym e in
      rw (word, dispatch) (rw (off, idle) refl)
  dispatch-no_zone env cmd arg a d lower (inr (inl e)) off idle =
      let word : env.lowercase cmd ≡ codes "get" = lower ∙ sym e in
      rw (word, dispatch) (rw (off, idle) refl)
  dispatch-no_zone env cmd arg a d lower (inr (inr (inl e))) off idle =
      let word : env.lowercase cmd ≡ codes "del" = lower ∙ sym e in
      rw (word, dispatch) (rw (off, idle) refl)
  dispatch-no_zone env cmd arg a d lower (inr (inr (inr (inl e)))) off idle =
      let word : env.lowercase cmd ≡ codes "delete" = lower ∙ sym e in
      rw (word, dispatch) (rw (off, idle) refl)
  dispatch-no_zone env cmd arg a d lower (inr (inr (inr (inr (inl e))))) off idle =
      let word : env.lowercase cmd ≡ codes "rm" = lower ∙ sym e in
      rw (word, dispatch) (rw (off, idle) refl)
  dispatch-no_zone env cmd arg a d lower (inr (inr (inr (inr (inr e))))) off idle = absurd e

  -- Enter after `put`, `get`, `del`, `delete` or `rm` with an argument, where no zone is active and the application is
  -- not in RS mode: the main loop ends with the error NoActiveZone, whatever events would follow.
  pub no_zone-exits :
      (env : Env) (k : KeyEvent) (events : List (Env × Event)) (cmd arg : Str) (a : App)
      (d : Disk Text)
      → k.code ≡ KeyCode.enter
      → k.press ≡ true
      → a.mode ≡ AppMode.normal
      → split_whitespace (trim a.input_buffer) ≡ cmd ∷ arg ∷ []
      → env.lowercase cmd ≡ cmd
      → Any (λ c. c ≡ cmd) needs_zone
      → a.rs_mode ≡ false
      → a.zone_manager.active_zone ≡ none
      → (o : Outcome Text) × (run sha json registry_json rs_json ((env, key k) ∷ events) (a, d)
          ≡ some o)
        × (o.0 ≡ err no_active_zone)
        × (o.1.1 ≡ d)
  unfolding run handle_event handle_input handle_normal_input execute_command split_whitespace
      split_from print print_lines
  no_zone-exits env k events cmd arg a d enter press normal words lower which off idle =
      let full : is_nil (trim a.input_buffer) ≡ false =
        elim (Bool-cases (is_nil (trim a.input_buffer))) [
          | inr f ↦ f
          | inl empty ↦ absurd (ground (arith, empty, words))
        ] in
      let input = trim a.input_buffer in
      let cleared = record a { input_buffer = []; cursor_pos = 0 } in
      let echoed = print LineStyle.info (prompt cleared ++ input) cleared in
      let stop = dispatch-no_zone env cmd arg echoed d lower which off idle in
      let executed : execute_command sha json registry_json rs_json env (a, d)
          ≡ (err no_active_zone, (echoed, d)) =
        rw (full, words, execute_command) stop in
      (
        (err no_active_zone, (echoed, d)),
        ground (arith, enter, press, normal, executed),
        refl,
        refl,
      )

unfoldable set_to : (ℕ → AppConfig → AppConfig) → Option ℕ → Option (AppConfig → AppConfig)
set_to set none = none
set_to set (some v) = some (set v)

-- What the arguments of `rscfg` change of the settings, where they name a setting and a value in its range.
unfoldable pub change : List Str → Option (AppConfig → AppConfig)
unfolding str_eq parse_u64 set_to
change [] = none
change (name ∷ []) = none
change (name ∷ value ∷ []) =
    if str_eq name (codes "concurrency")
    then set_to (λ v c. record c { rs_concurrency = v }) (in_range 2 16 value)
    else if str_eq name (codes "sync_concurrency")
    then set_to (λ v c. record c { rs_sync_concurrency = v }) (in_range 2 16 value)
    else if str_eq name (codes "block_size")
    then set_to (λ v c. record c { rs_block_size_mb = v }) (in_range 4 32 value)
    else if str_eq name (codes "gsyn")
    then if str_eq value (codes "0")
      then some (λ c. record c { rs_global_sync = false })
      else if str_eq value (codes "1")
      then some (λ c. record c { rs_global_sync = true })
      else none
    else none
change (name ∷ value ∷ more ∷ args) = none

-- The settings of the application, with the defaults for those that it does not keep.
abbrev pub known : App → AppConfig
known a = record default {
  rs_concurrency = a.rs_concurrency;
  rs_sync_concurrency = a.rs_sync_concurrency;
  rs_block_size_mb = a.rs_block_size_mb;
  rs_global_sync = a.rs_global_sync;
}

-- What becomes of the disk and of the application's settings with a change and without one.
abbrev pub IsReset :
    {Text : Type 0} → Option (AppConfig → AppConfig) → App × Disk Text → App × Disk Text → Type 0
IsReset none (a, d) (a', d') = (d' ≡ d) × (known a' ≡ known a)
IsReset (some f) (a, d) (a', d') =
    (d' ≡ record d { config = some (f (known a)) })
    × (known a' ≡ f (known a))
    × ((f (known a)).renew_enabled ≡ true)
    × ((f (known a)).renew_check_interval ≡ 300)
    × ((f (known a)).rs_replication_factor ≡ 2)

-- Where the arguments of `rscfg` change a setting, the file is written, whatever it had: it has the settings of the
-- application with that change, and all that the application does not keep is back at its default, so that updates
-- are enabled every 300 seconds and the replication factor is 2. The application's settings are changed alike. With
-- other arguments, the disk and the application's settings stay as they are.
pub execute_rscfg-resets :
    {Text : Type 0} (args : List Str) (a : App) (d : Disk Text)
    → IsReset (change args) (a, d) (execute_rscfg args (a, d))
unfolding execute_rscfg change set_to set_concurrency set_sync_concurrency set_block_size
    set_global_sync save_config config_of show_config print print_lines
execute_rscfg-resets [] a d = (refl, refl)
execute_rscfg-resets (name ∷ []) a d = ground arith
execute_rscfg-resets (name ∷ value ∷ []) a d = ground arith
execute_rscfg-resets (name ∷ value ∷ more ∷ args) a d = (refl, refl)
