-- ===== src/Base/Sort.antt =====
-- Rust's stable sorts (`sort`, `sort_by`, `sort_by_key`) as insertion sort: a stable sort is
-- determined by its order, so any one of them is the function that the source calls.
use rxiu.Base.Tests.{if◌then◌else◌}
use rxiu.Base.Lists.{All, Pairwise, any, length}
use mathlib.Core.Path.{◌≡◌, refl}
use mathlib.Core.Bool.{Bool, true, false}
use mathlib.Core.List.{List, [], ◌∷◌, Perm}
use mathlib.Core.List.Perm
use native.Mathlib.Omega.{arith}

module _ {ℓ} {A : Type ℓ} (le : A → A → Bool) where
  unfoldable pub insert_sorted : A → List A → List A
  insert_sorted x [] = x ∷ []
  insert_sorted x (y ∷ ys) = if le x y then x ∷ y ∷ ys else y ∷ insert_sorted x ys

  unfoldable pub sort_by : List A → List A
  unfolding insert_sorted
  sort_by [] = []
  sort_by (x ∷ xs) = insert_sorted x (sort_by xs)

  -- Every member is at most each later one.
  abbrev pub IsSorted : List A → Type 0
  IsSorted = Pairwise (λ a b. le a b ≡ true)

  insert_sorted-perm : (x : A) (ys : List A) → Perm (x ∷ ys) (insert_sorted x ys)
  unfolding insert_sorted
  insert_sorted-perm x [] = Perm.refl _
  insert_sorted-perm x (y ∷ ys) = ground (
    arith,
    Perm.refl (x ∷ y ∷ ys),
    Perm.trans (Perm.swap y x ys) (Perm.cons y (insert_sorted-perm x ys)),
  )

  pub sort_by-perm : (xs : List A) → Perm xs (sort_by xs)
  unfolding sort_by
  sort_by-perm [] = Perm.refl _
  sort_by-perm (x ∷ xs) =
      Perm.trans (Perm.cons x (sort_by-perm xs)) (insert_sorted-perm x (sort_by xs))

  -- A list in order is left as it is.
  pub sort_by-IsSorted_id : (xs : List A) → IsSorted xs → sort_by xs ≡ xs
  unfolding sort_by insert_sorted
  sort_by-IsSorted_id [] h = refl
  sort_by-IsSorted_id (x ∷ []) h = refl
  sort_by-IsSorted_id (x ∷ y ∷ ys) h =
      rw (sort_by-IsSorted_id (y ∷ ys) h.1) (rw (h.0.0, insert_sorted))

  All-insert_sorted {κ} :
      (P : A → Type κ) (x : A) (ys : List A) → P x → All P ys → All P (insert_sorted x ys)
  unfolding insert_sorted
  All-insert_sorted P x [] p h = (p, tt)
  All-insert_sorted P x (y ∷ ys) p h = ground (arith, All-insert_sorted P x ys)

  pub All-sort_by {κ} : (P : A → Type κ) (xs : List A) → All P xs → All P (sort_by xs)
  unfolding sort_by
  All-sort_by P [] h = tt
  All-sort_by P (x ∷ xs) h = All-insert_sorted P x (sort_by xs) h.0 (All-sort_by P xs h.1)

  length-insert_sorted : (x : A) (ys : List A) → length (insert_sorted x ys) ≡ length (x ∷ ys)
  unfolding insert_sorted
  length-insert_sorted x [] = refl
  length-insert_sorted x (y ∷ ys) = ground (arith, length-insert_sorted x ys)

  pub length-sort_by : (xs : List A) → length (sort_by xs) ≡ length xs
  unfolding sort_by
  length-sort_by [] = refl
  length-sort_by (x ∷ xs) = omega (arith, length-insert_sorted x (sort_by xs), length-sort_by xs)

  insert_sorted-Pairwise {κ} :
      (R : A → A → Type κ) (sym_r : (a b : A) → R a b → R b a) (x : A) (ys : List A)
      → All (R x) ys
      → Pairwise R ys
      → Pairwise R (insert_sorted x ys)
  unfolding insert_sorted
  insert_sorted-Pairwise R sym_r x [] h k = (tt, tt)
  insert_sorted-Pairwise R sym_r x (y ∷ ys) h k = ground (
    arith,
    insert_sorted-Pairwise R sym_r x ys h.1 k.1,
    All-insert_sorted (R y) x ys (sym_r x y h.0) k.0,
  )

  -- A symmetric relation between all members survives sorting.
  pub sort_by-Pairwise {κ} :
      (R : A → A → Type κ) (sym_r : (a b : A) → R a b → R b a) (xs : List A)
      → Pairwise R xs
      → Pairwise R (sort_by xs)
  unfolding sort_by
  sort_by-Pairwise R sym_r [] h = tt
  sort_by-Pairwise R sym_r (x ∷ xs) h =
      insert_sorted-Pairwise R sym_r x (sort_by xs) (All-sort_by (R x) xs h.0)
        (sort_by-Pairwise R sym_r xs h.1)

  any-insert_sorted :
      (p : A → Bool) (x : A) (ys : List A) → any p (insert_sorted x ys) ≡ any p (x ∷ ys)
  unfolding insert_sorted
  any-insert_sorted p x [] = refl
  any-insert_sorted p x (y ∷ ys) = ground (arith, any-insert_sorted p x ys)

  pub any-sort_by : (p : A → Bool) (xs : List A) → any p (sort_by xs) ≡ any p xs
  unfolding sort_by
  any-sort_by p [] = refl
  any-sort_by p (x ∷ xs) = ground (arith, any-insert_sorted p x (sort_by xs), any-sort_by p xs)

  module _ (total : (a b : A) → le a b ≡ false → le b a ≡ true)
      (trans : (a b c : A) → le a b ≡ true → le b c ≡ true → le a c ≡ true) where
    All-le_mono :
        (x y : A) (zs : List A)
        → le x y ≡ true
        → All (λ z. le y z ≡ true) zs
        → All (λ z. le x z ≡ true) zs
    All-le_mono x y [] h k = tt
    All-le_mono x y (z ∷ zs) h k = (trans x y z h k.0, All-le_mono x y zs h k.1)

    insert_sorted-IsSorted : (x : A) (ys : List A) → IsSorted ys → IsSorted (insert_sorted x ys)
    unfolding insert_sorted
    insert_sorted-IsSorted x [] h = (tt, tt)
    insert_sorted-IsSorted x (y ∷ ys) h = ground (
      arith,
      total x y,
      All-le_mono x y ys,
      insert_sorted-IsSorted x ys,
      All-insert_sorted (λ z. le y z ≡ true) x ys,
    )

    pub sort_by-IsSorted : (xs : List A) → IsSorted (sort_by xs)
    unfolding sort_by
    sort_by-IsSorted [] = tt
    sort_by-IsSorted (x ∷ xs) = insert_sorted-IsSorted x (sort_by xs) (sort_by-IsSorted xs)
