-- ===== src/Sync/Assignment.antt =====
-- rs/sync.rs: which members a block is assigned to.
use rxiu.Base.{
  ℕ, zero, suc, ◌+◌, ◌≤◌, ◌<◌, ◌≡◌, ◌≢◌, sym, ap, ◌∙◌, subst, Str, Bytes, bytes_le, Bool, true,
  false, List, [], ◌∷◌, some, any, take, drop, ◌==◌, arith, length, All, All-imp, All-take,
  All-drop, Pairwise, take-All-drop, any-take-drop, All-any, All-zip, any-map, ==_iff, get_elem?,
}
use rxiu.Base.Sort.{All-sort_by, any-sort_by, sort_by-IsSorted}
use rxiu.External.{Sha256}
use rxiu.Rs.Types.{RsBlockEntry}
use rxiu.Sync.{score, scored, before, is_block_assigned_to}
use rxiu.Sync.Owners.{before_total, before_trans, ranked, owners-cons}

-- A member's pair holds its index and its score.
abbrev IsScored : Sha256 → RsBlockEntry → List Str → ℕ × Bytes → Type 0
IsScored sha block ms p = (m : Str) → get_elem? ms p.0 ≡ some m → p.1 ≡ score sha block m

abbrev has_index : ℕ → List (ℕ × Bytes) → Bool
has_index i = any (λ p. p.0 == i)

module _ (sha : Sha256) (block : RsBlockEntry) where
  scored-bounds :
      (idx : ℕ) (ms : List Str)
      → All (λ p. (idx ≤ p.0) × (p.0 < idx + length ms)) (scored sha block idx ms)
  unfolding scored
  scored-bounds idx [] = tt
  scored-bounds idx (m ∷ ms) = (
    omega arith,
    All-imp (λ p h. omega (arith, h)) (scored sha block (suc idx) ms) (scored-bounds (suc idx) ms),
  )

  scored-Pairwise :
      (idx : ℕ) (ms : List Str) → Pairwise (λ p q. p.0 ≢ q.0) (scored sha block idx ms)
  unfolding scored
  scored-Pairwise idx [] = tt
  scored-Pairwise idx (m ∷ ms) = (
    All-imp (λ p h. omega (arith, h)) (scored sha block (suc idx) ms) (scored-bounds (suc idx) ms),
    scored-Pairwise (suc idx) ms,
  )

  scored-IsScored :
      (whole : List Str) (idx : ℕ) (ms : List Str)
      → ((k : ℕ) → get_elem? whole (idx + k) ≡ get_elem? ms k)
      → All (IsScored sha block whole) (scored sha block idx ms)
  unfolding scored
  scored-IsScored whole idx [] h = tt
  scored-IsScored whole idx (m ∷ ms) h = (
    λ m' e. let same : idx + 0 ≡ idx = omega arith in ground (arith, same, h 0, e),
    scored-IsScored whole (suc idx) ms
        λ k. let same : idx + suc k ≡ suc idx + k = omega arith in ground (arith, same, h (suc k)),
  )

  scored-has_index :
      (idx k : ℕ) (ms : List Str) {m : Str}
      → get_elem? ms k ≡ some m
      → has_index (idx + k) (scored sha block idx ms) ≡ true
  unfolding scored
  scored-has_index idx k [] e = cc
  scored-has_index idx zero (m ∷ ms) e = ground arith
  scored-has_index idx (suc k) (m ∷ ms) e =
      let same : idx + suc k ≡ suc idx + k = omega arith in
      ground (arith, same, scored-has_index (suc idx) k ms e)

  -- Whether an index is among the first `n` of the ranking.
  assigned-eq :
      (m : Str) (ms : List Str) (i n : ℕ)
      → is_block_assigned_to sha block (m ∷ ms) i (suc n)
        ≡ has_index i (take (suc n) (ranked sha block (m ∷ ms)))
  unfolding is_block_assigned_to
  assigned-eq m ms i n =
      ap (any (λ j. j == i)) (owners-cons sha block m ms n)
      ∙ any-map (λ (p : ℕ × Bytes). p.0) (λ j. j == i) (take (suc n) (ranked sha block (m ∷ ms)))

  named_score :
      (p : ℕ × Bytes) (ms : List Str) (i : ℕ) (a : Str)
      → IsScored sha block ms p
      → (p.0 == i) ≡ true
      → get_elem? ms i ≡ some a
      → p.1 ≡ score sha block a
  named_score p ms i a scored_p hit e =
      scored_p a (subst (λ k. get_elem? ms k ≡ some a) (sym ((==_iff p.0 i).0 hit)) e)

  ranked-has_index :
      (ms : List Str) (j : ℕ) (b : Str)
      → get_elem? ms j ≡ some b
      → has_index j (ranked sha block ms) ≡ true
  ranked-has_index ms j b eb =
      any-sort_by before (λ p. p.0 == j) (scored sha block 0 ms)
      ∙ subst (λ k. has_index k (scored sha block 0 ms) ≡ true) (omega arith)
          (scored-has_index 0 j ms eb)

  -- A member that owns a block has at least the score of one that does not.
  pub assigned_scores :
      (ms : List Str) (i j n : ℕ) (a b : Str)
      → get_elem? ms i ≡ some a
      → get_elem? ms j ≡ some b
      → is_block_assigned_to sha block ms i n ≡ true
      → is_block_assigned_to sha block ms j n ≡ false
      → bytes_le (score sha block b) (score sha block a) ≡ true
  unfolding is_block_assigned_to
  assigned_scores [] i j n a b ea eb owner other = cc
  assigned_scores (m ∷ ms) i j zero a b ea eb owner other = absurd (ground arith)
  assigned_scores (m ∷ ms) i j (suc n) a b ea eb owner other =
      let whole = m ∷ ms in
      let list = ranked sha block whole in
      let known =
        All-sort_by before (IsScored sha block whole) (scored sha block 0 whole)
          (scored-IsScored whole 0 whole (λ k. ap (get_elem? whole) (omega arith))) in
      let sorted = sort_by-IsSorted before before_total before_trans (scored sha block 0 whole) in
      let inside : has_index i (take (suc n) list) ≡ true = sym (assigned-eq m ms i n) ∙ owner in
      let outside : has_index j (drop (suc n) list) ≡ true = rest_has_index in
      All-any _ (λ (p : ℕ × Bytes). p.0 == i) (take (suc n) list)
        (bytes_le (score sha block b) (score sha block a) ≡ true)
        (λ x (scored_x, beats) hit.
          All-any _ (λ (p : ℕ × Bytes). p.0 == j) (drop (suc n) list)
            (bytes_le (score sha block b) (score sha block a) ≡ true)
            (λ y (scored_y, beaten) hit'.
              subst (λ s. bytes_le (score sha block b) s ≡ true)
                (named_score x whole i a scored_x hit ea)
                (subst (λ s. bytes_le s x.1 ≡ true) (named_score y whole j b scored_y hit' eb)
                  beaten))
            (All-zip _ _ (drop (suc n) list)
              (All-drop (IsScored sha block whole) (suc n) list known) beats)
            outside)
        (All-zip _ _ (take (suc n) list) (All-take (IsScored sha block whole) (suc n) list known)
          (take-All-drop (λ x y. before x y ≡ true) (suc n) list sorted))
        inside
    where
      rest_has_index : has_index j (drop (suc n) (ranked sha block (m ∷ ms))) ≡ true
      rest_has_index = ground (
        arith,
        ranked-has_index (m ∷ ms) j b eb,
        any-take-drop (λ (p : ℕ × Bytes). p.0 == j) (suc n) (ranked sha block (m ∷ ms)),
        assigned-eq m ms j n,
        other,
      )
