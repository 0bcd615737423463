-- ===== src/Sync/Daemon/Round.antt =====
-- daemon/rs_sync.rs: the search for a peer that has a block.
use rxiu.Base.{
  ℕ, zero, suc, ◌+◌, ◌-◌, ◌%◌, ◌≤◌, ◌<◌, ◌≡◌, ◌∙◌, sym, ap, inl, inr, Str, Bytes, some, arith,
  Bool-cases, leb, ◌==◌,
}
use native.Mathlib.Nat.{mod-add-mod, mod-lt, mod-eq_of_lt, add-mod_right}
use rxiu.Error.{ok, Result-cases}
use rxiu.External.{Sha256}
use rxiu.Rs.Blocks.{sha256_bytes}
use rxiu.Sync.Daemon.{GetBlock, try_peers, try_cycles}

-- Some turn of the round reaches each peer.
round_robin : (idx p peers : ℕ) → p < peers → (j : ℕ) × (j < peers) × ((idx + j) % peers ≡ p)
round_robin idx p peers low =
    let r = idx % peers in
    let bound : r < peers = mod-lt idx (omega arith) in
    let start = λ (j : ℕ). sym (mod-add-mod idx peers j) in
    elim (Bool-cases (leb r p)) [
      | inl ahead ↦
          let e : r + (p - r) ≡ p = ground arith in
          (p - r, omega arith, start (p - r) ∙ ap (λ x. x % peers) e ∙ mod-eq_of_lt low)
      | inr behind ↦
          let e : r + (p + peers - r) ≡ p + peers = ground arith in
          (
            p + peers - r,
            ground arith,
            start (p + peers - r)
                ∙ ap (λ x. x % peers) e
                ∙ add-mod_right p peers
                ∙ mod-eq_of_lt low,
          )
    ]

module _ (get : GetBlock) (peers : ℕ) where
  -- An answer of a peer.
  abbrev pub IsAnswer : Str → Bytes → Type 0
  IsAnswer hash content = (p : ℕ) × (cycle : ℕ) × (get p cycle hash ≡ ok content)

  try_peers-finds :
      (idx cycle : ℕ) (hash : Str) (attempt left j : ℕ) {content : Bytes}
      → attempt ≤ j
      → j < attempt + left
      → get ((idx + j) % peers) cycle hash ≡ ok content
      → (found : Bytes) × (try_peers get peers idx cycle hash attempt left ≡ some found)
        × IsAnswer hash found
  unfolding try_peers
  try_peers-finds idx cycle hash attempt zero j low high e = absurd (omega arith)
  try_peers-finds idx cycle hash attempt (suc left) j {content} low high e =
      elim (Result-cases (get ((idx + attempt) % peers) cycle hash)) [
        | inl (found, answered) ↦
            (found, rw (answered, try_peers), ((idx + attempt) % peers, cycle, answered))
        | inr (bad, failed) ↦
            let later : suc attempt ≤ j = elim (Bool-cases (attempt == j)) [
              | inl same ↦
                  let eq : attempt ≡ j = ground arith in
                  absurd
                    (ground (arith, ap (λ a. get ((idx + a) % peers) cycle hash) eq, e, failed))
              | inr other ↦ ground arith
            ] in
            let (found, tried, answer) =
              try_peers-finds idx cycle hash (suc attempt) left j later (omega arith) e in
            (found, rw (failed, try_peers) tried, answer)
      ]

  -- A block that some peer has, and that no peer answers wrongly.
  abbrev pub IsServed : Sha256 → Str → Type 0
  IsServed sha hash =
      ((p : ℕ) × (content : Bytes) × (p < peers) × (get p 0 hash ≡ ok content))
      × ((p cycle : ℕ) (content : Bytes)
          → get p cycle hash ≡ ok content
          → sha256_bytes sha content ≡ hash)

  pub try_cycles-served :
      (sha : Sha256) (idx : ℕ) (hash : Str)
      → IsServed sha hash
      → (found : Bytes) × (try_cycles get peers idx hash 0 3 ≡ some found)
        × (sha256_bytes sha found ≡ hash)
  unfolding try_cycles
  try_cycles-served sha idx hash ((p, content, low, answered), right) =
      let (j, below, turn) = round_robin idx p peers low in
      let (found, tried, (q, cycle, answer)) =
        try_peers-finds idx 0 hash 0 peers j (omega arith) (omega arith)
          (ap (λ x. get x 0 hash) turn ∙ answered) in
      (found, rw (tried, try_cycles), right q cycle found answer)
