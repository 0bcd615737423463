-- ===== src/Storage/Local/Chunks.antt =====
-- storage/local.rs `read_chunk`, against the slice that it means and the trait's own version
-- (storage/backend.rs).
use rxiu.Base.{
  ℕ, suc, zero, ◌+◌, ◌-◌, ◌%◌, ◌^◌, ◌≤◌, ◌<◌, ◌≡◌, sym, ap, ◌∙◌, Str, Bytes, true, false, ◌++◌,
  some, length, take, drop, leb, min, max, arith, Bool-cases, Option-cases, inl, inr, length-take,
  length-drop, take-append-slice, take_end, drop-drop, is_nil-length,
}
use rxiu.Base.Assoc.{lookup}
use rxiu.Error.{ok}
use rxiu.Storage.Local.{ZoneDisk, retrieve, read_loop, read_chunk, default_read_chunk}

module _ (short : ℕ → ℕ) (to_read offset : ℕ) (content : Bytes) where
  -- The loop goes on from the bytes read so far to all that it has to read.
  read_loop-slice :
      (fuel call have : ℕ)
      → have ≤ to_read
      → to_read ≤ length (drop offset content)
      → to_read ≤ have + fuel
      → read_loop short fuel call to_read offset content (take have (drop offset content))
        ≡ take to_read (drop offset content)
  unfolding read_loop
  read_loop-slice zero call have low room enough =
      let e : have ≡ to_read = omega arith in ap (λ m. take m (drop offset content)) e
  read_loop-slice (suc fuel) call have low room enough =
      let xs = drop offset content in
      let size : length (take have xs) ≡ have = omega (arith, length-take have xs) in
      elim (Bool-cases (leb to_read have)) [
        | inl full ↦
            let e : have ≡ to_read = ground arith in
            rw (size, full, read_loop) (ap (λ m. take m xs) e)
        | inr more ↦
            let k = min (to_read - have) (max 1 (short call)) in
            let got = take k (drop (offset + have) content) in
            let gap : have < to_read = ground arith in
            let count : length got ≡ k = omega (
              arith,
              gap,
              room,
              length-take k (drop (offset + have) content),
              length-drop (offset + have) content,
              length-drop offset content,
            ) in
            let full = is_nil-length got (omega (arith, count, gap)) in
            let joined : take have xs ++ got ≡ take (have + length got) xs =
              ap (λ ys. take have xs ++ take k ys) (sym (drop-drop offset have content))
              ∙ take-append-slice have k xs
              ∙ ap (λ ys. take (have + length (take k ys)) xs) (drop-drop offset have content) in
            let rest =
              read_loop-slice fuel (suc call) (have + length got) (omega (arith, count)) room
                (omega (arith, count, gap)) in
            rw (size, more, full, read_loop)
              (ap (read_loop short fuel (suc call) to_read offset content) joined ∙ rest)
      ]

module _ {Text : Type 0} where
  -- A chunk of a file, read in reads that may be short, is its bytes from the offset on, `size` of them
  -- or up to the end.
  pub read_chunk-slice :
      (short : ℕ → ℕ) (name : Str) (offset size : ℕ) (content : Bytes) (d : ZoneDisk Text)
      → lookup name d.files ≡ some content
      → offset < length content
      → read_chunk short name offset size d ≡ ok (take size (drop offset content))
  unfolding read_chunk
  read_chunk-slice short name offset size content d found low =
      let to_read = min (length content - offset) size in
      let rest = length-drop offset content in
      let read =
        read_loop-slice short to_read offset content to_read 0 0 (omega arith) (omega (arith, rest))
          (omega arith) in
      let outside : leb (length content) offset ≡ false = ground arith in
      let slice : take to_read (drop offset content) ≡ take size (drop offset content) =
        elim (Bool-cases (leb size (length content - offset))) [
          | inl enough ↦
              let e : to_read ≡ size = ground arith in ap (λ m. take m (drop offset content)) e
          | inr more ↦
              take_end to_read size (drop offset content) (ground (arith, rest))
                (ground (arith, rest))
        ] in
      rw (found, outside, read_chunk) (ap ok (read ∙ slice))

  -- While the end of the request stays below 2^64, `LocalBackend` reads the chunk that the trait's own
  -- `read_chunk` takes from the whole content, with the same errors, and that does not panic.
  pub read_chunk-default :
      (short : ℕ → ℕ) (name : Str) (offset size : ℕ) (d : ZoneDisk Text)
      → offset + size < 2 ^ 64
      → default_read_chunk name offset size d ≡ some (read_chunk short name offset size d)
  unfolding read_chunk default_read_chunk retrieve
  read_chunk-default short name offset size d small = elim (Option-cases (lookup name d.files)) [
    | inl missing ↦ rw (missing, default_read_chunk, retrieve, read_chunk)
    | inr (content, found) ↦ elim (Bool-cases (leb (length content) offset)) [
      | inl outside ↦ rw (found, outside, default_read_chunk, retrieve, read_chunk)
      | inr inside ↦
          let read = read_chunk-slice short name offset size content d found (ground arith) in
          let end = min ((offset + size) % 2 ^ 64) (length content) in
          let rest = length-drop offset content in
          let fits : leb offset end ≡ true = ground arith in
          let slice : take (end - offset) (drop offset content) ≡ take size (drop offset content) =
            elim (Bool-cases (leb (offset + size) (length content))) [
              | inl enough ↦
                  let e : end - offset ≡ size = ground arith in
                  ap (λ m. take m (drop offset content)) e
              | inr more ↦
                  take_end (end - offset) size (drop offset content) (ground (arith, rest))
                    (ground (arith, rest))
            ] in
          rw (read, found, inside, fits, slice, default_read_chunk, retrieve)
    ]
  ]
