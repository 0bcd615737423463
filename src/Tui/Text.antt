-- ===== src/Tui/Text.antt =====
-- The operations on Rust's `String` and `str` that tui/input.rs uses. A text is its UTF-8 bytes, and an index is
-- one of bytes; `none` is a panic, or the error of `parse`.
use rxiu.Base.{
  ℕ, zero, suc, ◌+◌, ◌-◌, ◌*◌, ◌/◌, ◌%◌, ◌^◌, Str, Bytes, codes, Bool, not, List, [], ◌∷◌, ◌++◌,
  Option, none, some, if◌then◌else◌, length, take, drop, get_elem?, ltb, leb, ◌==◌, ◌&&◌, ◌||◌,
  is_nil, unwrap_or, filter, any,
}

-- The bytes of a character.
unfoldable pub encode_utf8 : ℕ → Bytes
encode_utf8 c =
    if ltb c 128
    then c ∷ []
    else if ltb c 2048
    then (192 + c / 64) ∷ (128 + c % 64) ∷ []
    else if ltb c 65536
    then (224 + c / 4096) ∷ (128 + c / 64 % 64) ∷ (128 + c % 64) ∷ []
    else (240 + c / 262144) ∷ (128 + c / 4096 % 64) ∷ (128 + c / 64 % 64) ∷ (128 + c % 64) ∷ []

-- A byte that is not the first of its character.
abbrev pub is_continuation : ℕ → Bool
is_continuation b = leb 128 b && ltb b 192

unfoldable pub is_char_boundary : Str → ℕ → Bool
is_char_boundary s i = elim (get_elem? s i) [
  | none ↦ i == length s
  | some b ↦ not (is_continuation b)
]

-- The length of the character that starts with a byte.
unfoldable pub char_length : ℕ → ℕ
char_length b = if ltb b 192 then 1 else if ltb b 224 then 2 else if ltb b 240 then 3 else 4

-- `String::insert`
unfoldable pub insert_char : ℕ → ℕ → Str → Option Str
unfolding is_char_boundary encode_utf8
insert_char i c s =
    if is_char_boundary s i then some (take i s ++ (encode_utf8 c ++ drop i s)) else none

-- `String::remove`
unfoldable pub remove_char : ℕ → Str → Option Str
unfolding is_char_boundary char_length
remove_char i s = elim (get_elem? s i) [
  | none ↦ none
  | some b ↦ if is_char_boundary s i then some (take i s ++ drop (i + char_length b) s) else none
]

-- How many bytes the white space at the front of a text has; 0 where there is none.
unfoldable pub space_length : Str → ℕ
space_length [] = 0
space_length (a ∷ s) =
    let b = unwrap_or (get_elem? s 0) 0 in
    let c = unwrap_or (get_elem? s 1) 0 in
    let is_wide =
      (a == 225) && (b == 154) && (c == 128)
      || (a == 226) && (b == 128) && (leb 128 c && leb c 138 || c == 168 || c == 169 || c == 175)
      || (a == 226) && (b == 129) && (c == 159)
      || (a == 227) && (b == 128) && (c == 128) in
    if leb 9 a && leb a 13 || a == 32
    then 1
    else if (a == 194) && (b == 133 || b == 160)
    then 2
    else if is_wide
    then 3
    else 0

-- The number is how many bytes of a white space are left to pass over.
unfoldable pub trim_start : ℕ → Str → Str
unfolding space_length
trim_start skip [] = []
trim_start (suc skip) (a ∷ s) = trim_start skip s
trim_start zero (a ∷ s) = elim (space_length (a ∷ s)) [
  | zero ↦ a ∷ s
  | suc skip ↦ trim_start skip s
]

-- The text up to its last character that is no white space.
unfoldable pub trim_end : Str → Str
unfolding trim_start
trim_end [] = []
trim_end (a ∷ s) = if is_nil (trim_start 0 (a ∷ s)) then [] else a ∷ trim_end s

-- `str::trim`
unfoldable pub trim : Str → Str
unfolding trim_start trim_end
trim s = trim_end (trim_start 0 s)

abbrev pub flush : Str → List Str → List Str
flush word words = if is_nil word then words else word ∷ words

-- `str::split_whitespace`: what is left of a white space, and the word so far.
unfoldable pub split_from : ℕ → Str → Str → List Str
unfolding space_length
split_from skip word [] = flush word []
split_from (suc skip) word (a ∷ s) = split_from skip word s
split_from zero word (a ∷ s) = elim (space_length (a ∷ s)) [
  | zero ↦ split_from zero (word ++ a ∷ []) s
  | suc skip ↦ flush word (split_from skip [] s)
]

unfoldable pub split_whitespace : Str → List Str
unfolding split_from
split_whitespace s = split_from 0 [] s

-- `str::lines` of a text whose lines end with a line feed alone.
unfoldable pub lines_from : Str → Str → List Str
lines_from line [] = flush line []
lines_from line (a ∷ s) = if a == 10 then line ∷ lines_from [] s else lines_from (line ++ a ∷ []) s

unfoldable pub lines : Str → List Str
unfolding lines_from
lines s = lines_from [] s

unfoldable pub parse_digits : ℕ → Str → Option ℕ
parse_digits n [] = some n
parse_digits n (a ∷ s) =
    let m = n * 10 + (a - 48) in
    let rest = parse_digits m s in if leb 48 a && leb a 57 && ltb m (2 ^ 64) then rest else none

-- `parse::<usize>` and `parse::<u64>`: digits, after a plus or not.
unfoldable pub parse_u64 : Str → Option ℕ
unfolding parse_digits
parse_u64 [] = none
parse_u64 (a ∷ []) = parse_digits 0 (a ∷ [])
parse_u64 (a ∷ b ∷ s) = if a == 43 then parse_digits 0 (b ∷ s) else parse_digits 0 (a ∷ b ∷ s)

abbrev pub repeat : ℕ → Str → Str
repeat zero s = []
repeat (suc n) s = s ++ repeat n s

-- `"─".repeat(n)`
abbrev pub rule : ℕ → Str
rule n = repeat n (226 ∷ 148 ∷ 128 ∷ [])

-- The number of characters, by which a format's width counts.
abbrev pub char_count : Str → ℕ
char_count s = length (filter (λ b. not (is_continuation b)) s)

-- `{:<width$}` and `{:>width$}`
unfoldable pub pad_right : ℕ → Str → Str
pad_right width s = s ++ repeat (width - char_count s) (codes " ")

unfoldable pub pad_left : ℕ → Str → Str
pad_left width s = repeat (width - char_count s) (codes " ") ++ s

-- `str::chars`, each by its bytes.
unfoldable pub chars : Str → List Bytes
chars [] = []
chars (a ∷ s) =
    let rest = chars s in
    elim rest [
      | [] ↦ (a ∷ []) ∷ []
      | c ∷ cs ↦ if any is_continuation (take 1 c) then (a ∷ c) ∷ cs else (a ∷ []) ∷ c ∷ cs
    ]
