-- ===== src/Tui/Zipper/Keys.antt =====
-- tui/input.rs: the keys of the line editor do what they do to a text with a cursor.
use rxiu.Base.{
  ℕ, ◌+◌, ◌-◌, ◌<◌, ◌≡◌, refl, sym, ◌∙◌, Str, Bool, true, false, List, [], ◌∷◌, Option, none, some,
  arith, All, length, ltb, if◌then◌else◌,
}
use rxiu.Ui.Keys.{KeyCode}
use rxiu.Tui.App.{App}
use rxiu.Tui.Editor.{edit, type_char, backspace, delete}
use rxiu.Tui.Zipper.{
  Zipper, rebuild, press, Shows, length-rebuild, insert_char-rebuild, remove_char-rebuild,
  rebuild-IsAscii, rebuild_end,
}

abbrev pub IsAsciiKey : KeyCode → Type 0
IsAsciiKey (KeyCode.char c) = c < 128
IsAsciiKey _ = Unit {0}

-- What a key does, where the editor shows a zipper: it does not panic, and shows the zipper after the key.
abbrev pub Follows : KeyCode → Zipper → App → Type 0
Follows code z a = (a' : App) × (edit code a ≡ some a') × Shows (press code z) a'

type_char-Follows :
    (c : ℕ) (b f : Str) (a : App)
    → c < 128
    → Shows (record { before = b; after = f }) a
    → Follows (KeyCode.char c) (record { before = b; after = f }) a
unfolding edit type_char
type_char-Follows c b f a small s =
    let inserted = insert_char-rebuild c b f small s.ascii.1 in
    (
      record a { input_buffer = rebuild (c ∷ b) f; cursor_pos = a.cursor_pos + 1 },
      ground (arith, inserted, s.text, s.cursor),
      record {
        text = refl;
        cursor = ground (arith, s.cursor);
        ascii = ((small, s.ascii.0), s.ascii.1);
      },
    )

backspace-Follows :
    (b f : Str) (a : App)
    → Shows (record { before = b; after = f }) a
    → Follows KeyCode.backspace (record { before = b; after = f }) a
unfolding edit backspace
backspace-Follows [] f a s = (a, ground (arith, s.cursor), s)
backspace-Follows (c ∷ b) f a s =
    let removed = remove_char-rebuild c b f (s.ascii.0.0, s.ascii.1) in
    (
      record a { input_buffer = rebuild b f; cursor_pos = a.cursor_pos - 1 },
      ground (arith, removed, s.text, s.cursor),
      record { text = refl; cursor = ground (arith, s.cursor); ascii = (s.ascii.0.1, s.ascii.1) },
    )

delete-Follows :
    (b f : Str) (a : App)
    → Shows (record { before = b; after = f }) a
    → Follows KeyCode.delete (record { before = b; after = f }) a
unfolding edit delete
delete-Follows b [] a s = (a, ground (arith, s.text, s.cursor, length-rebuild b []), s)
delete-Follows b (c ∷ f) a s =
    let removed = remove_char-rebuild c b f s.ascii.1 in
    (
      record a { input_buffer = rebuild b f },
      ground (arith, removed, s.text, s.cursor, length-rebuild b (c ∷ f)),
      record { text = refl; cursor = s.cursor; ascii = (s.ascii.0, s.ascii.1.1) },
    )

left-Follows :
    (b f : Str) (a : App)
    → Shows (record { before = b; after = f }) a
    → Follows KeyCode.left (record { before = b; after = f }) a
unfolding edit
left-Follows [] f a s = (a, ground (arith, s.cursor), s)
left-Follows (c ∷ b) f a s = (
  record a { cursor_pos = a.cursor_pos - 1 },
  ground (arith, s.cursor),
  record {
    text = s.text;
    cursor = ground (arith, s.cursor);
    ascii = (s.ascii.0.1, (s.ascii.0.0, s.ascii.1));
  },
)

right-Follows :
    (b f : Str) (a : App)
    → Shows (record { before = b; after = f }) a
    → Follows KeyCode.right (record { before = b; after = f }) a
unfolding edit
right-Follows b [] a s = (a, ground (arith, s.text, s.cursor, length-rebuild b []), s)
right-Follows b (c ∷ f) a s = (
  record a { cursor_pos = a.cursor_pos + 1 },
  ground (arith, s.text, s.cursor, length-rebuild b (c ∷ f)),
  record {
    text = s.text;
    cursor = ground (arith, s.cursor);
    ascii = ((s.ascii.1.0, s.ascii.0), s.ascii.1.1);
  },
)

-- Scrolling changes neither the text nor the cursor.
scrolled :
    (moves : Bool) (offset : ℕ) (z : Zipper) (a : App)
    → Shows z a
    → Shows z (if moves then record a { scroll_offset = offset } else a)
scrolled true offset z a s = record { text = s.text; cursor = s.cursor; ascii = s.ascii }
scrolled false offset z a s = s

edit-Follows :
    (code : KeyCode) (z : Zipper) (a : App) → IsAsciiKey code → Shows z a → Follows code z a
unfolding edit
edit-Follows (KeyCode.char c) z a small s = type_char-Follows c z.before z.after a small s
edit-Follows KeyCode.backspace z a t s = backspace-Follows z.before z.after a s
edit-Follows KeyCode.delete z a t s = delete-Follows z.before z.after a s
edit-Follows KeyCode.left z a t s = left-Follows z.before z.after a s
edit-Follows KeyCode.right z a t s = right-Follows z.before z.after a s
edit-Follows KeyCode.home z a t s = (
  record a { cursor_pos = 0 },
  refl,
  record {
    text = s.text;
    cursor = refl;
    ascii = (tt, rebuild-IsAscii z.before z.after s.ascii.0 s.ascii.1);
  },
)
edit-Follows KeyCode.end z a t s = (
  record a { cursor_pos = length a.input_buffer },
  refl,
  record {
    text = s.text ∙ sym (rebuild_end z.before z.after);
    cursor =
        ground (arith, s.text, length-rebuild z.before z.after, length-rebuild z.after z.before);
    ascii = (rebuild-IsAscii z.after z.before s.ascii.1 s.ascii.0, tt);
  },
)
edit-Follows KeyCode.esc z a t s = (
  record a { input_buffer = []; cursor_pos = 0 },
  refl,
  record { text = refl; cursor = refl; ascii = (tt, tt) },
)
edit-Follows KeyCode.up z a t s = (
  if ltb 0 a.scroll_offset then record a { scroll_offset = a.scroll_offset - 1 } else a,
  refl,
  scrolled (ltb 0 a.scroll_offset) (a.scroll_offset - 1) z a s,
)
edit-Follows KeyCode.down z a t s = (
  if ltb a.scroll_offset (length a.output_lines - 10)
      then record a { scroll_offset = a.scroll_offset + 1 }
      else a,
  refl,
  scrolled (ltb a.scroll_offset (length a.output_lines - 10)) (a.scroll_offset + 1) z a s,
)
edit-Follows KeyCode.enter z a t s = (a, refl, s)
edit-Follows KeyCode.other z a t s = (a, refl, s)

-- The keys one after the other, and the editor's.
abbrev pub press_all : List KeyCode → Zipper → Zipper
press_all [] z = z
press_all (code ∷ codes) z = press_all codes (press code z)

abbrev pub edit_all : List KeyCode → App → Option App
edit_all [] a = some a
edit_all (code ∷ codes) a = elim (edit code a) [ none ↦ none | some a' ↦ edit_all codes a' ]

-- Of keys other than Enter, with ASCII characters: the editor does not panic, and its text and its cursor are those
-- that the keys give a text with a cursor between two of its characters.
pub edit_all-Shows :
    (codes : List KeyCode) (z : Zipper) (a : App)
    → All IsAsciiKey codes
    → Shows z a
    → (a' : App) × (edit_all codes a ≡ some a') × Shows (press_all codes z) a'
edit_all-Shows [] z a ascii s = (a, refl, s)
edit_all-Shows (code ∷ codes) z a ascii s =
    let (a', edited, shows) = edit-Follows code z a ascii.0 s in
    let (end, run, shown) = edit_all-Shows codes (press code z) a' ascii.1 shows in
    (end, ground (arith, edited, run), shown)
