-- ===== src/Base/Members.antt =====
-- Lemmas on predicates over every member of a list, and on Boolean searches.
use Prim.Native.Nat.{ℕ, zero, suc, ◌≤◌, ◌<◌}
use mathlib.Core.Path.{◌≡◌, refl, ap}
use mathlib.Core.Logic.{inl, inr}
use mathlib.Core.Bool.{Bool, true, false, ◌||◌}
use mathlib.Core.List.{List, [], ◌∷◌, ◌++◌, map}
use mathlib.Core.Option.{some}
use native.Mathlib.Omega.{arith}
use rxiu.Base.Tests.{Bool-cases}
use rxiu.Base.Lists.{is_nil, length, get_elem?, take, drop, any, filter, find, All, Pairwise}

module _ {ℓ} {A : Type ℓ} where
  pub All-append {κ} : (P : A → Type κ) (xs ys : List A) → All P xs → All P ys → All P (xs ++ ys)
  All-append P [] ys h k = k
  All-append P (x ∷ xs) ys h k = (h.0, All-append P xs ys h.1 k)

  pub All-filter {κ} :
      (P : A → Type κ) (p : A → Bool) (xs : List A) → All P xs → All P (filter p xs)
  All-filter P p [] h = tt
  All-filter P p (x ∷ xs) h = ground (arith, All-filter P p xs)

  -- What holds of the members that pass a test, and of those that fail it, holds of all.
  pub All-filter_split {κ} :
      (P : A → Type κ) (p : A → Bool) (xs : List A)
      → ((x : A) → p x ≡ false → P x)
      → All P (filter p xs)
      → All P xs
  All-filter_split P p [] f h = tt
  All-filter_split P p (x ∷ xs) f h = elim (Bool-cases (p x)) [
    | inl pass ↦
        let h' : All P (x ∷ filter p xs) = rw pass at h in (h'.0, All-filter_split P p xs f h'.1)
    | inr fail ↦ (f x fail, All-filter_split P p xs f (rw fail at h))
  ]

  pub is_nil-All {κ} : (P : A → Type κ) (xs : List A) → is_nil xs ≡ true → All P xs
  is_nil-All P [] h = tt
  is_nil-All P (x ∷ xs) h = absurd (ground (arith, h))

  -- What is filtered passes the test.
  pub All-filter_test {κ} :
      (P : A → Type κ) (p : A → Bool) (xs : List A)
      → All P xs
      → All (λ x. P x × (p x ≡ true)) (filter p xs)
  All-filter_test P p [] h = tt
  All-filter_test P p (x ∷ xs) h = ground (arith, All-filter_test P p xs)

  pub All-imp {κ μ} :
      {P : A → Type κ} {Q : A → Type μ}
      → ((x : A) → P x → Q x)
      → (xs : List A) → All P xs
      → All Q xs
  All-imp f [] h = tt
  All-imp f (x ∷ xs) h = (f x h.0, All-imp f xs h.1)

  pub All-find {κ} :
      (P : A → Type κ) (p : A → Bool) (xs : List A) {x : A} → All P xs → find p xs ≡ some x → P x
  All-find P p [] h e = cc
  All-find P p (y ∷ ys) {x = x} h e = ground (arith, All-find P p ys {x = x})

  pub All-trivial {κ} : {P : A → Type κ} → ((x : A) → P x) → (xs : List A) → All P xs
  All-trivial f [] = tt
  All-trivial f (x ∷ xs) = (f x, All-trivial f xs)

  pub All-take {κ} : (P : A → Type κ) (n : ℕ) (xs : List A) → All P xs → All P (take n xs)
  All-take P zero xs h = tt
  All-take P (suc n) [] h = tt
  All-take P (suc n) (x ∷ xs) h = (h.0, All-take P n xs h.1)

  pub All-drop {κ} : (P : A → Type κ) (n : ℕ) (xs : List A) → All P xs → All P (drop n xs)
  All-drop P zero xs h = h
  All-drop P (suc n) [] h = tt
  All-drop P (suc n) (x ∷ xs) h = All-drop P n xs h.1

  pub Pairwise-take {κ} :
      (R : A → A → Type κ) (n : ℕ) (xs : List A) → Pairwise R xs → Pairwise R (take n xs)
  Pairwise-take R zero xs h = tt
  Pairwise-take R (suc n) [] h = tt
  Pairwise-take R (suc n) (x ∷ xs) h = (All-take (R x) n xs h.0, Pairwise-take R n xs h.1)

  -- The members of a prefix are related to those of the rest.
  pub take-All-drop {κ} :
      (R : A → A → Type κ) (n : ℕ) (xs : List A)
      → Pairwise R xs
      → All (λ x. All (R x) (drop n xs)) (take n xs)
  take-All-drop R zero xs h = tt
  take-All-drop R (suc n) [] h = tt
  take-All-drop R (suc n) (x ∷ xs) h = (All-drop (R x) n xs h.0, take-All-drop R n xs h.1)

  pub any-take-drop :
      (p : A → Bool) (n : ℕ) (xs : List A) → any p xs ≡ (any p (take n xs) || any p (drop n xs))
  any-take-drop p zero xs = refl
  any-take-drop p (suc n) [] = refl
  any-take-drop p (suc n) (x ∷ xs) = ground (arith, any-take-drop p n xs)

  -- A member that passes a test, with what is known of every member.
  pub All-any {κ μ} :
      (P : A → Type κ) (p : A → Bool) (xs : List A) (C : Type μ)
      → ((x : A) → P x → p x ≡ true → C)
      → All P xs
      → any p xs ≡ true
      → C
  All-any P p [] C f h e = absurd (ground arith)
  All-any P p (x ∷ xs) C f h e = elim (Bool-cases (p x)) [
    | inl hit ↦ f x h.0 hit
    | inr miss ↦ All-any P p xs C f h.1 (ground arith)
  ]

  pub All-zip {κ μ} :
      (P : A → Type κ) (Q : A → Type μ) (xs : List A)
      → All P xs
      → All Q xs
      → All (λ x. P x × Q x) xs
  All-zip P Q [] h k = tt
  All-zip P Q (x ∷ xs) h k = ((h.0, k.0), All-zip P Q xs h.1 k.1)

  pub get_elem?_of_lt : (xs : List A) (i : ℕ) → i < length xs → (x : A) × (get_elem? xs i ≡ some x)
  get_elem?_of_lt [] i h = absurd (omega arith)
  get_elem?_of_lt (x ∷ xs) zero h = (x, refl)
  get_elem?_of_lt (x ∷ xs) (suc i) h = get_elem?_of_lt xs i (omega arith)

  pub any-take_mono :
      (p : A → Bool) (n k : ℕ) (xs : List A)
      → n ≤ k
      → any p (take n xs) ≡ true
      → any p (take k xs) ≡ true
  any-take_mono p zero k xs h e = cc
  any-take_mono p (suc n) zero xs h e = absurd (omega arith)
  any-take_mono p (suc n) (suc k) [] h e = e
  any-take_mono p (suc n) (suc k) (x ∷ xs) h e = ground (arith, any-take_mono p n k xs)

  pub take_all : (n : ℕ) (xs : List A) → length xs ≤ n → take n xs ≡ xs
  take_all zero [] h = refl
  take_all zero (x ∷ xs) h = absurd (omega arith)
  take_all (suc n) [] h = refl
  take_all (suc n) (x ∷ xs) h = ap (◌∷◌ x) (take_all n xs (omega arith))

pub All-map {ℓ κ μ} :
    {A : Type ℓ} {B : Type κ} (f : A → B) (P : B → Type μ) (xs : List A)
    → All (λ x. P (f x)) xs
    → All P (map f xs)
All-map f P [] h = tt
All-map f P (x ∷ xs) h = (h.0, All-map f P xs h.1)

pub Pairwise-map {ℓ κ μ} :
    {A : Type ℓ} {B : Type κ} (f : A → B) (R : B → B → Type μ) (xs : List A)
    → Pairwise (λ a b. R (f a) (f b)) xs
    → Pairwise R (map f xs)
Pairwise-map f R [] h = tt
Pairwise-map f R (x ∷ xs) h = (All-map f (R (f x)) xs h.0, Pairwise-map f R xs h.1)

pub any-map {ℓ κ} :
    {A : Type ℓ} {B : Type κ} (f : A → B) (p : B → Bool) (xs : List A)
    → any p (map f xs) ≡ any (λ x. p (f x)) xs
any-map f p [] = refl
any-map f p (x ∷ xs) = ground (arith, any-map f p xs)

pub map_congr {ℓ κ} :
    {A : Type ℓ} {B : Type κ} (f g : A → B) (xs : List A)
    → All (λ x. f x ≡ g x) xs
    → map f xs ≡ map g xs
map_congr f g [] h = refl
map_congr f g (x ∷ xs) h = rw (h.0, map_congr f g xs h.1)
