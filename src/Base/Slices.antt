-- ===== src/Base/Slices.antt =====
-- Consecutive slices of a list.
use Prim.Native.Nat.{ℕ, zero, suc, ◌+◌, ◌-◌, ◌≤◌, ◌<◌}
use mathlib.Core.Path.{◌≡◌, refl, ap, ◌∙◌, sym}
use mathlib.Core.Bool.{false}
use mathlib.Core.Logic.{inl, inr}
use mathlib.Core.Option.{none}
use mathlib.Core.List.{List, [], ◌∷◌, ◌++◌}
use native.Mathlib.Omega.{arith}
use rxiu.Base.Tests.{leb, ltb, if◌then◌else◌, Bool-cases}
use rxiu.Base.Lists.{length, get_elem?, take, drop, is_nil, length-take, length-drop}
use rxiu.Base.Members.{take_all}

module _ {ℓ} {A : Type ℓ} where
  pub take-append-take : (n k : ℕ) (xs : List A) → take n xs ++ take k (drop n xs) ≡ take (n + k) xs
  take-append-take zero k xs = let e : k ≡ 0 + k = omega arith in ap (λ m. take m xs) e
  take-append-take (suc n) zero [] =
      let e : suc n ≡ suc n + 0 = omega arith in ap (λ m. take {A = A} m []) e
  take-append-take (suc n) (suc k) [] =
      let e : suc (n + suc k) ≡ suc n + suc k = omega arith in ap (λ m. take {A = A} m []) e
  take-append-take (suc n) k (x ∷ xs) =
      let e : suc (n + k) ≡ suc n + k = omega arith in
      ap (x ∷◌) (take-append-take n k xs) ∙ ap (λ m. take m (x ∷ xs)) e

  pub drop_all : (n : ℕ) (xs : List A) → length xs ≤ n → drop n xs ≡ []
  drop_all zero [] h = refl
  drop_all zero (x ∷ xs) h = ground arith
  drop_all (suc n) [] h = refl
  drop_all (suc n) (x ∷ xs) h = drop_all n xs (omega arith)

  pub take-take : (n k : ℕ) (xs : List A) → n ≤ k → take n (take k xs) ≡ take n xs
  take-take zero k xs h = refl
  take-take (suc n) zero xs h = absurd (omega arith)
  take-take (suc n) (suc k) [] h = refl
  take-take (suc n) (suc k) (x ∷ xs) h = ap (x ∷◌) (take-take n k xs (omega arith))

  pub is_nil-length : (xs : List A) → 0 < length xs → is_nil xs ≡ false
  is_nil-length [] h = ground arith
  is_nil-length (x ∷ xs) h = refl

  pub drop-drop : (n k : ℕ) (xs : List A) → drop k (drop n xs) ≡ drop (n + k) xs
  drop-drop zero k xs = let e : k ≡ 0 + k = omega arith in ap (λ m. drop m xs) e
  drop-drop (suc n) zero [] =
      let e : suc n ≡ suc n + 0 = omega arith in ap (λ m. drop {A = A} m []) e
  drop-drop (suc n) (suc k) [] =
      let e : suc (n + suc k) ≡ suc n + suc k = omega arith in ap (λ m. drop {A = A} m []) e
  drop-drop (suc n) k (x ∷ xs) =
      let e : suc (n + k) ≡ suc n + k = omega arith in
      drop-drop n k xs ∙ ap (λ m. drop m (x ∷ xs)) e

  -- A slice after `n` members, as long as it may be, extends what stands before it by its own length.
  pub take-append-slice :
      (n k : ℕ) (xs : List A)
      → let slice = take k (drop n xs) in take n xs ++ slice ≡ take (n + length slice) xs
  take-append-slice n k xs =
      let slice = take k (drop n xs) in
      let size = length-take k (drop n xs) in
      let left = length-drop n xs in
      take-append-take n k xs ∙ elim (Bool-cases (leb k (length xs - n))) [
        | inl enough ↦
            let e : n + k ≡ n + length slice = ground (arith, size, left) in ap (λ m. take m xs) e
        | inr more ↦
            take_all (n + k) xs (ground (arith, left))
            ∙ sym (take_all (n + length slice) xs (ground (arith, size, left)))
      ]

  -- The same at the end of the list.
  pub take_end : (n k : ℕ) (xs : List A) → length xs ≤ n → length xs ≤ k → take n xs ≡ take k xs
  take_end n k xs h h' = take_all n xs h ∙ sym (take_all k xs h')

  pub get_elem?-take :
      (n i : ℕ) (xs : List A) → get_elem? (take n xs) i ≡ (if ltb i n then get_elem? xs i else none)
  get_elem?-take zero i xs = ground arith
  get_elem?-take (suc n) i [] = ground arith
  get_elem?-take (suc n) zero (x ∷ xs) = ground arith
  get_elem?-take (suc n) (suc i) (x ∷ xs) = ground (arith, get_elem?-take n i xs)

  pub get_elem?-drop : (n i : ℕ) (xs : List A) → get_elem? (drop n xs) i ≡ get_elem? xs (n + i)
  get_elem?-drop zero i xs = let e : i ≡ 0 + i = omega arith in ap (get_elem? xs) e
  get_elem?-drop (suc n) i [] = refl
  get_elem?-drop (suc n) i (x ∷ xs) =
      let e : suc (n + i) ≡ suc n + i = omega arith in
      get_elem?-drop n i xs ∙ ap (get_elem? (x ∷ xs)) e

  pub get_elem?-none : (xs : List A) (i : ℕ) → length xs ≤ i → get_elem? xs i ≡ none
  get_elem?-none [] i h = refl
  get_elem?-none (x ∷ xs) zero h = absurd (omega arith)
  get_elem?-none (x ∷ xs) (suc i) h = get_elem?-none xs i (omega arith)

  pub take-length-append : (xs ys : List A) → take (length xs) (xs ++ ys) ≡ xs
  take-length-append [] ys = refl
  take-length-append (x ∷ xs) ys = ap (x ∷◌) (take-length-append xs ys)

  pub drop-length-append : (xs ys : List A) → drop (length xs) (xs ++ ys) ≡ ys
  drop-length-append [] ys = refl
  drop-length-append (x ∷ xs) ys = drop-length-append xs ys
