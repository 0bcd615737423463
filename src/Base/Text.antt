-- ===== src/Base/Text.antt =====
-- Rust's `String` and `Vec<u8>`: both are bytes here, as Rust stores a `String` in UTF-8 and
-- compares it byte by byte.
use Prim.Native.Nat.{ℕ, compare, Ordering}
use Prim.Native.Char.{code}
use Prim.Native.String.{String}
use mathlib.Core.Path.{◌≡◌, refl}
use mathlib.Core.Logic.{◌↔◌}
use mathlib.Core.Bool.{Bool, true, false, ◌&&◌}
use mathlib.Core.List.{List, [], ◌∷◌}
use native.Mathlib.Omega.{arith}
use rxiu.Base.Tests.{◌==◌}

abbrev pub Bytes : Type 0
Bytes = List ℕ

abbrev pub Str : Type 0
Str = List ℕ

-- A literal of ASCII characters.
abbrev pub codes : String → Str
codes String.[] = []
codes (String.◌∷◌ c s) = code c ∷ codes s

unfoldable pub str_eq : Str → Str → Bool
str_eq [] [] = true
str_eq [] (b ∷ bs) = false
str_eq (a ∷ as') [] = false
str_eq (a ∷ as') (b ∷ bs) = (a == b) && str_eq as' bs

pub eq_of_str_eq : (a b : Str) → str_eq a b ≡ true → a ≡ b
unfolding str_eq
eq_of_str_eq [] [] h = refl
eq_of_str_eq [] (b ∷ bs) h = cc
eq_of_str_eq (a ∷ as') [] h = cc
eq_of_str_eq (a ∷ as') (b ∷ bs) h = ground (arith, eq_of_str_eq as' bs)

pub str_eq_refl : (a : Str) → str_eq a a ≡ true
unfolding str_eq
str_eq_refl [] = refl
str_eq_refl (a ∷ as') = ground (arith, str_eq_refl as')

pub str_eq_iff : (a b : Str) → (str_eq a b ≡ true) ↔ (a ≡ b)
str_eq_iff a b = (eq_of_str_eq a b, λ e. rw e (str_eq_refl b))

-- The order of `Vec<u8>` and of `String`: lexicographic, a proper prefix first.
unfoldable pub bytes_cmp : Bytes → Bytes → Ordering
bytes_cmp [] [] = Ordering.eq
bytes_cmp [] (b ∷ bs) = Ordering.lt
bytes_cmp (a ∷ as') [] = Ordering.gt
bytes_cmp (a ∷ as') (b ∷ bs) = elim (compare a b) [
  | Ordering.lt ↦ Ordering.lt
  | Ordering.gt ↦ Ordering.gt
  | Ordering.eq ↦ bytes_cmp as' bs
]

-- `a > b` on byte vectors.
abbrev pub bytes_gt : Bytes → Bytes → Bool
bytes_gt a b = elim (bytes_cmp a b) [ Ordering.gt ↦ true | _ ↦ false ]

-- `a ≤ b` on byte vectors.
abbrev pub bytes_le : Bytes → Bytes → Bool
bytes_le a b = elim (bytes_cmp a b) [ Ordering.gt ↦ false | _ ↦ true ]

pub bytes_cmp_flip :
    (a b : Bytes)
    → ((bytes_cmp a b ≡ Ordering.gt) ↔ (bytes_cmp b a ≡ Ordering.lt))
      × ((bytes_cmp a b ≡ Ordering.lt) ↔ (bytes_cmp b a ≡ Ordering.gt))
unfolding bytes_cmp
bytes_cmp_flip [] [] = ground arith
bytes_cmp_flip [] (b ∷ bs) = ground arith
bytes_cmp_flip (a ∷ as') [] = ground arith
bytes_cmp_flip (a ∷ as') (b ∷ bs) = ground (arith, bytes_cmp_flip as' bs)

pub bytes_le_trans :
    (a b c : Bytes) → bytes_le a b ≡ true → bytes_le b c ≡ true → bytes_le a c ≡ true
unfolding bytes_cmp
bytes_le_trans [] [] c h k = k
bytes_le_trans [] (b ∷ bs) [] h k = cc
bytes_le_trans [] (b ∷ bs) (c ∷ cs) h k = refl
bytes_le_trans (a ∷ as') [] c h k = cc
bytes_le_trans (a ∷ as') (b ∷ bs) [] h k = cc
bytes_le_trans (a ∷ as') (b ∷ bs) (c ∷ cs) h k = ground (arith, bytes_le_trans as' bs cs)

pub bytes_le_total : (a b : Bytes) → bytes_le a b ≡ false → bytes_le b a ≡ true
bytes_le_total a b h = ground (arith, bytes_cmp_flip a b)
