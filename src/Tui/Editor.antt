-- ===== src/Tui/Editor.antt =====
-- tui/input.rs: the keys of the line editor. `none` is a panic of `String::insert` or of `String::remove`.
use rxiu.Base.{ℕ, ◌+◌, ◌-◌, [], Option, none, some, if◌then◌else◌, length, ltb}
use rxiu.Ui.Keys.{KeyCode}
use rxiu.Tui.Text.{insert_char, remove_char}
use rxiu.Tui.App.{App}

unfoldable pub type_char : ℕ → App → Option App
unfolding insert_char
type_char c a = elim (insert_char a.cursor_pos c a.input_buffer) [
  | none ↦ none
  | some s ↦ some (record a { input_buffer = s; cursor_pos = a.cursor_pos + 1 })
]

unfoldable pub backspace : App → Option App
unfolding remove_char
backspace a =
    if ltb 0 a.cursor_pos
    then elim (remove_char (a.cursor_pos - 1) a.input_buffer) [
      | none ↦ none
      | some s ↦ some (record a { input_buffer = s; cursor_pos = a.cursor_pos - 1 })
    ]
    else some a

unfoldable pub delete : App → Option App
unfolding remove_char
delete a =
    if ltb a.cursor_pos (length a.input_buffer)
    then elim (remove_char a.cursor_pos a.input_buffer) [
      | none ↦ none
      | some s ↦ some (record a { input_buffer = s })
    ]
    else some a

-- The keys other than Enter.
unfoldable pub edit : KeyCode → App → Option App
unfolding type_char backspace delete
edit code a = elim code [
  | KeyCode.char c ↦ type_char c a
  | KeyCode.backspace ↦ backspace a
  | KeyCode.delete ↦ delete a
  | KeyCode.left ↦
      some (if ltb 0 a.cursor_pos then record a { cursor_pos = a.cursor_pos - 1 } else a)
  | KeyCode.right ↦ some (
      if ltb a.cursor_pos (length a.input_buffer)
      then record a { cursor_pos = a.cursor_pos + 1 }
      else a)
  | KeyCode.home ↦ some (record a { cursor_pos = 0 })
  | KeyCode.end ↦ some (record a { cursor_pos = length a.input_buffer })
  | KeyCode.up ↦
      some (if ltb 0 a.scroll_offset then record a { scroll_offset = a.scroll_offset - 1 } else a)
  | KeyCode.down ↦ some (
      if ltb a.scroll_offset (length a.output_lines - 10)
      then record a { scroll_offset = a.scroll_offset + 1 }
      else a)
  | KeyCode.esc ↦ some (record a { input_buffer = []; cursor_pos = 0 })
  | KeyCode.enter ↦ some a
  | KeyCode.other ↦ some a
]
