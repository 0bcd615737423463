-- ===== src/Tui/Zipper.antt =====
-- tui/input.rs: the line editor against a text with a cursor in it, for ASCII characters.
pub mod Keys
use rxiu.Base.{
  ℕ, zero, suc, ◌+◌, ◌-◌, ◌<◌, ◌≡◌, refl, sym, ap, ◌∙◌, Str, Bytes, Bool, true, false, List, [],
  ◌∷◌, ◌++◌, Option, none, some, arith, All, inl, inr, Bool-cases, Option-cases, length, take, drop,
  get_elem?, length-append, append_assoc, take-length-append, drop-length-append, get_elem?-drop,
  drop-drop, leb, ltb, if◌then◌else◌,
}
use rxiu.Ui.Keys.{KeyCode}
use rxiu.Tui.Text.{
  encode_utf8, is_continuation, is_char_boundary, char_length, insert_char, remove_char,
}
use rxiu.Tui.App.{App}
use rxiu.Tui.Editor.{edit, type_char, backspace, delete}

-- What stands before the cursor, the nearest first, and what stands behind it.
pub record Zipper : Type 0 where
  pub before : Str
  pub after : Str

abbrev pub rebuild : Str → Str → Str
rebuild [] after = after
rebuild (c ∷ before) after = rebuild before (c ∷ after)

-- The keys on a text with a cursor.
abbrev pub press : KeyCode → Zipper → Zipper
press (KeyCode.char c) z = record z { before = c ∷ z.before }
press KeyCode.backspace z = elim z.before [ [] ↦ z | _ ∷ b ↦ record z { before = b } ]
press KeyCode.delete z = elim z.after [ [] ↦ z | _ ∷ b ↦ record z { after = b } ]
press KeyCode.left z = elim z.before [ [] ↦ z | c ∷ b ↦ record { before = b; after = c ∷ z.after } ]
press KeyCode.right z = elim z.after [
  | [] ↦ z
  | c ∷ b ↦ record { before = c ∷ z.before; after = b }
]
press KeyCode.home z = record { before = []; after = rebuild z.before z.after }
press KeyCode.end z = record { before = rebuild z.after z.before; after = [] }
press KeyCode.esc z = record { before = []; after = [] }
press _ z = z

abbrev pub IsAscii : Str → Type 0
IsAscii = All (λ c. c < 128)

-- The editor's text and cursor are those of the zipper.
pub record Shows (z : Zipper) (a : App) : Type 0 where
  pub text : a.input_buffer ≡ rebuild z.before z.after
  pub cursor : a.cursor_pos ≡ length z.before
  pub ascii : IsAscii z.before × IsAscii z.after

rebuild-append : (b a : Str) → rebuild b a ≡ rebuild b [] ++ a
rebuild-append [] a = refl
rebuild-append (c ∷ b) a =
    rebuild-append b (c ∷ a)
    ∙ (sym (append_assoc (rebuild b []) (c ∷ []) a)
        ∙ ap (λ s. s ++ a) (sym (rebuild-append b (c ∷ []))))

pub length-rebuild : (b a : Str) → length (rebuild b a) ≡ length b + length a
length-rebuild [] a = omega arith
length-rebuild (c ∷ b) a = let rest = length-rebuild b (c ∷ a) in omega (arith, rest)

take-rebuild : (b a : Str) → take (length b) (rebuild b a) ≡ rebuild b []
take-rebuild b a =
    ground (arith, rebuild-append b a, length-rebuild b [], take-length-append (rebuild b []) a)

drop-rebuild : (b a : Str) → drop (length b) (rebuild b a) ≡ a
drop-rebuild b a =
    ground (arith, rebuild-append b a, length-rebuild b [], drop-length-append (rebuild b []) a)

get_elem?-rebuild : (b a : Str) → get_elem? (rebuild b a) (length b) ≡ get_elem? a 0
get_elem?-rebuild b a = ground (arith, get_elem?-drop (length b) 0 (rebuild b a), drop-rebuild b a)

-- Between ASCII characters every index is a boundary.
boundary-rebuild : (b a : Str) → IsAscii a → is_char_boundary (rebuild b a) (length b) ≡ true
unfolding is_char_boundary
boundary-rebuild b [] h = ground (arith, get_elem?-rebuild b [], length-rebuild b [])
boundary-rebuild b (c ∷ a) h = ground (arith, get_elem?-rebuild b (c ∷ a), h)

pub insert_char-rebuild :
    (c : ℕ) (b a : Str)
    → c < 128
    → IsAscii a
    → insert_char (length b) c (rebuild b a) ≡ some (rebuild (c ∷ b) a)
unfolding insert_char encode_utf8
insert_char-rebuild c b a small h = ground (
  arith,
  small,
  boundary-rebuild b a h,
  take-rebuild b a,
  drop-rebuild b a,
  rebuild-append b (c ∷ a),
)

pub remove_char-rebuild :
    (c : ℕ) (b a : Str)
    → IsAscii (c ∷ a)
    → remove_char (length b) (rebuild b (c ∷ a)) ≡ some (rebuild b a)
unfolding remove_char char_length
remove_char-rebuild c b a h = ground (
  arith,
  h,
  get_elem?-rebuild b (c ∷ a),
  boundary-rebuild b (c ∷ a) h,
  take-rebuild b (c ∷ a),
  drop-rebuild b (c ∷ a),
  drop-drop (length b) 1 (rebuild b (c ∷ a)),
  rebuild-append b a,
)

pub rebuild-IsAscii : (b a : Str) → IsAscii b → IsAscii a → IsAscii (rebuild b a)
rebuild-IsAscii [] a hb ha = ha
rebuild-IsAscii (c ∷ b) a hb ha = rebuild-IsAscii b (c ∷ a) hb.1 (hb.0, ha)

pub rebuild_end : (b a : Str) → rebuild (rebuild a b) [] ≡ rebuild b a
rebuild_end b [] = refl
rebuild_end b (c ∷ a) = rebuild_end (c ∷ b) a
