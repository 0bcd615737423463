-- ===== src/Sync/Owners.antt =====
-- rs/sync.rs: the owners of a block are its members with the greatest scores.
use rxiu.Base.{
  ℕ, zero, suc, min, ◌≡◌, refl, ap, Str, Bytes, bytes_le_trans, bytes_le_total, true, false, List,
  [], ◌∷◌, map, Option, none, some, if◌then◌else◌, take, arith, length, length-take, get_elem?, inl,
  inr, Option-cases,
}
use rxiu.Base.Sort.{sort_by, length-sort_by, insert_sorted}
use rxiu.External.{Sha256}
use rxiu.Rs.Types.{RsBlockEntry}
use rxiu.Sync.{score, hrw_best, hrw_owner_index, scored, before, hrw_top_n_owners}

pub before_total : (a b : ℕ × Bytes) → before a b ≡ false → before b a ≡ true
before_total a b h = bytes_le_total b.1 a.1 h

pub before_trans : (a b c : ℕ × Bytes) → before a b ≡ true → before b c ≡ true → before a c ≡ true
before_trans a b c h k = bytes_le_trans c.1 b.1 a.1 k h

length-map {ℓ κ} :
    {A : Type ℓ} {B : Type κ} (f : A → B) (xs : List A) → length (map f xs) ≡ length xs
length-map f [] = refl
length-map f (x ∷ xs) = ap suc (length-map f xs)

module _ (sha : Sha256) (block : RsBlockEntry) where
  pub length-scored : (idx : ℕ) (ms : List Str) → length (scored sha block idx ms) ≡ length ms
  unfolding scored
  length-scored idx [] = refl
  length-scored idx (m ∷ ms) = ap suc (length-scored (suc idx) ms)

  abbrev pub ranked : List Str → List (ℕ × Bytes)
  ranked ms = sort_by before (scored sha block 0 ms)

  pub owners-cons :
      (m : Str) (ms : List Str) (n : ℕ)
      → hrw_top_n_owners sha block (m ∷ ms) (suc n)
        ≡ map (λ p. p.0) (take (suc n) (ranked (m ∷ ms)))
  unfolding hrw_top_n_owners
  owners-cons m ms n = ground arith

  -- A block has as many owners as the factor says, or all members where there are fewer.
  length-hrw_top_n_owners :
      (ms : List Str) (n : ℕ) → length (hrw_top_n_owners sha block ms n) ≡ min n (length ms)
  unfolding hrw_top_n_owners
  length-hrw_top_n_owners [] n = omega arith
  length-hrw_top_n_owners (m ∷ ms) zero = omega arith
  length-hrw_top_n_owners (m ∷ ms) (suc n) = rw (
    owners-cons m ms n,
    length-map (λ (p : ℕ × Bytes). p.0) (take (suc n) (ranked (m ∷ ms))),
    length-take (suc n) (ranked (m ∷ ms)),
    length-sort_by before (scored sha block 0 (m ∷ ms)),
    length-scored 0 (m ∷ ms),
  )

  -- The first of the members with the greatest score, by recursion from the end.
  best : List (ℕ × Bytes) → Option (ℕ × Bytes)
  best [] = none
  best (x ∷ xs) = elim (best xs) [ none ↦ some x | some b ↦ if before x b then some x else some b ]

  head : List (ℕ × Bytes) → Option (ℕ × Bytes)
  head [] = none
  head (x ∷ xs) = some x

  head-insert_sorted :
      (x : ℕ × Bytes) (ys : List (ℕ × Bytes))
      → head (insert_sorted before x ys)
        ≡ elim (head ys) [ none ↦ some x | some b ↦ if before x b then some x else some b ]
  unfolding head insert_sorted
  head-insert_sorted x [] = refl
  head-insert_sorted x (y ∷ ys) = ground arith

  head-sort_by : (xs : List (ℕ × Bytes)) → head (sort_by before xs) ≡ best xs
  unfolding head sort_by best
  head-sort_by [] = refl
  head-sort_by (x ∷ xs) = ground (arith, head-insert_sorted x (sort_by before xs), head-sort_by xs)

  -- The loop from a candidate on.
  hrw_best-best :
      (idx : ℕ) (ms : List Str) (a : ℕ × Bytes)
      → hrw_best sha block idx ms (some a) ≡ elim (best (scored sha block idx ms)) [
        | none ↦ some a
        | some b ↦ if before a b then some a else some b
      ]
  unfolding hrw_best best scored
  hrw_best-best idx [] a = refl
  hrw_best-best idx (m ∷ ms) a =
      let x : ℕ × Bytes = (idx, score sha block m) in
      elim (Option-cases (best (scored sha block (suc idx) ms))) [
        | inl nobody ↦
            ground (arith, hrw_best-best (suc idx) ms a, hrw_best-best (suc idx) ms x, nobody)
        | inr (b, found) ↦ ground (
          arith,
          hrw_best-best (suc idx) ms a,
          hrw_best-best (suc idx) ms x,
          found,
          before_trans a x b,
          before_trans x b a,
          before_trans b a x,
          before_trans a b x,
          before_total a x,
          before_total x b,
          before_total a b,
        )
      ]

  get_elem?-map-take :
      (xs : List (ℕ × Bytes)) (n : ℕ)
      → get_elem? (map (λ p. p.0) (take (suc n) xs)) 0
        ≡ elim (head xs) [ none ↦ none | some p ↦ some p.0 ]
  unfolding head
  get_elem?-map-take [] n = refl
  get_elem?-map-take (x ∷ xs) n = refl

  -- The owner that `hrw_owner_index` names is the first of those that `hrw_top_n_owners` lists, for
  -- every positive number of owners.
  hrw_owner_index-eq-head :
      (ms : List Str) (n : ℕ)
      → hrw_owner_index sha block ms ≡ get_elem? (hrw_top_n_owners sha block ms (suc n)) 0
  unfolding hrw_owner_index hrw_top_n_owners best
  hrw_owner_index-eq-head [] n = ground arith
  hrw_owner_index-eq-head (m ∷ ms) n =
      rw
        (
          owners-cons m ms n,
          get_elem?-map-take (ranked (m ∷ ms)) n,
          head-sort_by (scored sha block 0 (m ∷ ms)),
        )
        (ground (arith, hrw_best-best 1 ms (0, score sha block m)))
