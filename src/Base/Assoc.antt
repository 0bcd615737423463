-- ===== src/Base/Assoc.antt =====
-- Dictionaries with text keys as association lists: the `HashMap`s of the source, and a directory
-- as the map from file names to contents.
use rxiu.Base.Tests.{if◌then◌else◌, Bool-cases}
use rxiu.Base.Lists.{All, any, Pairwise}
use rxiu.Base.Members.{All-imp}
use rxiu.Base.Text.{Str, str_eq, eq_of_str_eq, str_eq_iff, str_eq_refl}
use mathlib.Core.Path.{◌≡◌, refl, subst}
use mathlib.Core.Logic.{inl, inr}
use mathlib.Core.Bool.{Bool, true, false, ◌||◌}
use mathlib.Core.List.{List, [], ◌∷◌, ◌++◌, map}
use mathlib.Core.Option.{Option, none, some}
use native.Mathlib.Omega.{arith}

module _ {ℓ} {V : Type ℓ} where
  unfoldable pub lookup : Str → List (Str × V) → Option V
  lookup k [] = none
  lookup k ((j, v) ∷ m) = if str_eq j k then some v else lookup k m

  -- `HashMap::insert` and `fs::write`: the old value of the key is replaced.
  unfoldable pub insert : Str → V → List (Str × V) → List (Str × V)
  insert k v [] = (k, v) ∷ []
  insert k v ((j, w) ∷ m) = if str_eq j k then (k, v) ∷ m else (j, w) ∷ insert k v m

  -- `HashMap::remove` and `fs::remove_file`.
  unfoldable pub erase : Str → List (Str × V) → List (Str × V)
  erase k [] = []
  erase k ((j, w) ∷ m) = if str_eq j k then erase k m else (j, w) ∷ erase k m

  -- `contains_key` and `exists`.
  unfoldable pub has_key : Str → List (Str × V) → Bool
  has_key k [] = false
  has_key k ((j, w) ∷ m) = if str_eq j k then true else has_key k m

  abbrev pub keys : List (Str × V) → List Str
  keys = map (λ e. e.0)

  pub lookup-insert :
      (k j : Str) (v : V) (m : List (Str × V))
      → lookup j (insert k v m) ≡ (if str_eq k j then some v else lookup j m)
  unfolding lookup insert
  lookup-insert k j v [] = refl
  lookup-insert k j v ((i, w) ∷ m) =
      ground (arith, str_eq_iff k j, str_eq_iff i k, str_eq_iff i j, lookup-insert k j v m)

  pub lookup-erase :
      (k j : Str) (m : List (Str × V))
      → lookup j (erase k m) ≡ (if str_eq k j then none else lookup j m)
  unfolding lookup erase
  lookup-erase k j [] = ground arith
  lookup-erase k j ((i, w) ∷ m) =
      ground (arith, str_eq_iff k j, str_eq_iff i k, str_eq_iff i j, lookup-erase k j m)

  pub has_key-insert :
      (k j : Str) (v : V) (m : List (Str × V))
      → has_key j (insert k v m) ≡ (if str_eq k j then true else has_key j m)
  unfolding has_key insert
  has_key-insert k j v [] = refl
  has_key-insert k j v ((i, w) ∷ m) =
      ground (arith, str_eq_iff k j, str_eq_iff i k, str_eq_iff i j, has_key-insert k j v m)

  pub has_key-erase :
      (k j : Str) (m : List (Str × V))
      → has_key j (erase k m) ≡ (if str_eq k j then false else has_key j m)
  unfolding has_key erase
  has_key-erase k j [] = ground arith
  has_key-erase k j ((i, w) ∷ m) =
      ground (arith, str_eq_iff k j, str_eq_iff i k, str_eq_iff i j, has_key-erase k j m)

  pub lookup_of_has_key :
      (k : Str) (m : List (Str × V)) → has_key k m ≡ true → (v : V) × (lookup k m ≡ some v)
  unfolding has_key lookup
  lookup_of_has_key k [] h = cc
  lookup_of_has_key k ((i, w) ∷ m) h = elim (Bool-cases (str_eq i k)) [
    | inl hit ↦ (w, rw hit)
    | inr miss ↦ let (v, e) = lookup_of_has_key k m (rw miss at h) in (v, rw miss e)
  ]

  pub lookup_missing : (k : Str) (m : List (Str × V)) → has_key k m ≡ false → lookup k m ≡ none
  unfolding has_key lookup
  lookup_missing k [] h = refl
  lookup_missing k ((i, w) ∷ m) h = ground (arith, lookup_missing k m)

  pub has_key_of_lookup :
      (k : Str) {v : V} (m : List (Str × V)) → lookup k m ≡ some v → has_key k m ≡ true
  unfolding has_key lookup
  has_key_of_lookup k {v} [] h = cc
  has_key_of_lookup k {v} ((i, w) ∷ m) h = ground (arith, has_key_of_lookup k {v = v} m)

  pub All-insert {κ} :
      (P : Str × V → Type κ) (k : Str) (v : V) (m : List (Str × V))
      → P (k, v)
      → All P m
      → All P (insert k v m)
  unfolding insert
  All-insert P k v [] p h = (p, tt)
  All-insert P k v ((i, w) ∷ m) p h = ground (arith, All-insert P k v m)

  pub All-erase {κ} :
      (P : Str × V → Type κ) (k : Str) (m : List (Str × V)) → All P m → All P (erase k m)
  unfolding erase
  All-erase P k [] h = tt
  All-erase P k ((i, w) ∷ m) h = ground (arith, All-erase P k m)

  pub All-lookup {κ} :
      (P : Str × V → Type κ) (k : Str) {v : V} (m : List (Str × V))
      → All P m
      → lookup k m ≡ some v
      → P (k, v)
  unfolding lookup
  All-lookup P k {v} [] h e = cc
  All-lookup P k {v} ((i, w) ∷ m) h e = ground (arith, All-lookup P k {v = v} m, str_eq_iff i k)

-- No key stands twice.
abbrev pub UniqueKeys {ℓ} : {V : Type ℓ} → List (Str × V) → Type 0
UniqueKeys = Pairwise (λ a b. str_eq a.0 b.0 ≡ false)

pub insert-UniqueKeys {ℓ} :
    {V : Type ℓ} (k : Str) (v : V) (m : List (Str × V)) → UniqueKeys m → UniqueKeys (insert k v m)
unfolding insert
insert-UniqueKeys k v [] h = (tt, tt)
insert-UniqueKeys k v ((i, w) ∷ m) h = elim (Bool-cases (str_eq i k)) [
  | inl hit ↦
      rw hit (subst (λ j. All (λ b. str_eq j b.0 ≡ false) m) (eq_of_str_eq i k hit) h.0, h.1)
  | inr miss ↦
      rw miss (All-insert (λ b. str_eq i b.0 ≡ false) k v m miss h.0, insert-UniqueKeys k v m h.1)
]

pub erase-UniqueKeys {ℓ} :
    {V : Type ℓ} (k : Str) (m : List (Str × V)) → UniqueKeys m → UniqueKeys (erase k m)
unfolding erase
erase-UniqueKeys k [] h = tt
erase-UniqueKeys k ((i, w) ∷ m) h =
    ground (arith, All-erase (λ b. str_eq i b.0 ≡ false) k m h.0, erase-UniqueKeys k m h.1)

-- `HashSet::contains`, and `contains` on a slice of strings.
unfoldable pub contains : List Str → Str → Bool
contains xs k = any (λ x. str_eq x k) xs

pub contains-append :
    (xs ys : List Str) (k : Str) → contains (xs ++ ys) k ≡ (contains xs k || contains ys k)
unfolding contains
contains-append [] ys k = refl
contains-append (x ∷ xs) ys k = ground (arith, contains-append xs ys k)

-- Every member of a list is found in it.
pub All-contains : (xs : List Str) → All (λ x. contains xs x ≡ true) xs
unfolding contains
All-contains [] = tt
All-contains (x ∷ xs) =
    (rw (str_eq_refl x), All-imp (λ y h. ground (arith, h)) xs (All-contains xs))
