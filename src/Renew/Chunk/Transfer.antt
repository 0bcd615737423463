-- ===== src/Renew/Chunk/Transfer.antt =====
-- The chunk server of p2p/service.rs together with the download loop of daemon/renew.rs.
use rxiu.Base.{
  ℕ, suc, zero, ◌+◌, ◌-◌, ◌%◌, ◌^◌, ◌≤◌, ◌<◌, ◌≡◌, ap, ◌∙◌, Bytes, false, [], ◌++◌, some, is_nil,
  length, take, drop, leb, min, max, arith, length-take, length-drop, Bool-cases, inl, inr,
  take_all, is_nil-length, take-append-slice,
}
use rxiu.Error.{ok}
use rxiu.Renew.Chunk.{read_at, get_binary_chunk, Fetch, chunk_size, download}

-- A peer that serves a binary as `get_binary_chunk` does.
abbrev pub serve : (ℕ → ℕ → ℕ) → Bytes → Fetch
serve short exe call offset len = get_binary_chunk (short call) (ok exe) offset len

module _ (short : ℕ → ℕ → ℕ) (exe : Bytes) where
  -- What a request below the end of the binary gives.
  serve-bytes :
      (call offset : ℕ)
      → length exe < 2 ^ 64
      → offset < length exe
      → (buf : Bytes) × (serve short exe call offset chunk_size
          ≡ ok (buf, leb (length exe) (offset + length buf)))
        × (is_nil buf ≡ false)
        × (0 < length buf)
        × (offset + length buf ≤ length exe)
        × (take offset exe ++ buf ≡ take (offset + length buf) exe)
  unfolding get_binary_chunk
  serve-bytes call offset small low =
      let wanted = min chunk_size (max 1 (short call offset)) in
      let buf = read_at (short call) chunk_size offset exe in
      let size : length buf ≡ min wanted (length exe - offset) =
        length-take wanted (drop offset exe) ∙ ap (min wanted) (length-drop offset exe) in
      let positive : 0 < length buf = omega (arith, size) in
      let bound : offset + length buf ≤ length exe = omega (arith, size) in
      (
        buf,
        ground (arith, size),
        is_nil-length buf positive,
        positive,
        bound,
        take-append-slice offset wanted exe,
      )

  download-serve_from :
      (fuel call offset : ℕ)
      → length exe < 2 ^ 64
      → offset ≤ length exe
      → length exe < offset + fuel
      → download (serve short exe) fuel call offset (take offset exe) ≡ some (ok exe)
  unfolding download get_binary_chunk
  download-serve_from zero call offset small low enough = ground arith
  download-serve_from (suc fuel) call offset small low enough =
      elim (Bool-cases (leb (length exe) offset)) [
        | inl over ↦
            rw (over, download) (ap (λ f. some (ok f)) (take_all offset exe (ground arith)))
        | inr more ↦
            let (buf, e, full, positive, bound, joined) =
              serve-bytes call offset small (ground arith) in
            let rest =
              download-serve_from fuel (suc call) (offset + length buf) small bound (omega arith) in
            let end = λ (h : length exe ≤ offset + length buf).
              joined ∙ take_all (offset + length buf) exe h in
            let wrapped : (offset + length buf) % 2 ^ 64 ≡ offset + length buf = omega arith in
            let rest' : download (serve short exe) fuel (suc call) ((offset + length buf) % 2 ^ 64)
                  (take offset exe ++ buf)
                ≡ some (ok exe) =
              rw (wrapped, joined) rest in
            elim (Bool-cases (leb (length exe) (offset + length buf))) [
              | inl last ↦ rw (e, full, last, download) (ap (λ f. some (ok f)) (end (ground arith)))
              | inr not_last ↦ rw (e, full, not_last, download) rest'
            ]
      ]

  -- From a peer that serves a binary of less than 2^64 bytes as `get_binary_chunk` does, with reads
  -- as short as they may be, the download loop ends with just that binary, within as many rounds
  -- as the binary has bytes, and one more.
  pub download-serve :
      (fuel call : ℕ)
      → length exe < 2 ^ 64
      → length exe < fuel
      → download (serve short exe) fuel call 0 [] ≡ some (ok exe)
  download-serve fuel call small enough =
      download-serve_from fuel call 0 small (omega arith) (omega arith)
