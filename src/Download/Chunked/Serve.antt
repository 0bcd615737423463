-- ===== src/Download/Chunked/Serve.antt =====
-- tui/app.rs, the loop of `download_file_chunked`, with the chunk server of p2p/service.rs.
use rxiu.Base.{
  ℕ, suc, zero, ◌+◌, ◌-◌, ◌≤◌, ◌<◌, ◌≡◌, ◌∙◌, ap, inl, inr, Str, Bytes, str_eq_refl, false, ◌++◌,
  some, arith, Bool-cases, length, take, drop, min, leb, length-take, length-drop, take_all,
  drop_all, take-append-slice, append-nil,
}
use rxiu.Base.Assoc.{lookup}
use rxiu.Error.{ok, err}
use rxiu.External.{Json, Sha256}
use rxiu.Rs.Blocks.{sha256_bytes}
use rxiu.Storage.Local.{ZoneDisk, read_chunk}
use rxiu.Storage.Local.Chunks.{read_chunk-slice}
use rxiu.P2p.Messages.{FileMeta, FileChunk}
use rxiu.Download.Chunked.{ResumeMeta, GetChunk, get_verified, write_at, write_chunk, fetch_chunks}

module _ {Text Zone : Type 0} (sha : Sha256) (json : Json Text ResumeMeta) (short : ℕ → ℕ → ℕ)
    (zone name : Str) (z : ZoneDisk Zone) where
  -- The peer reads its chunks with `read_chunk`, and sends their hashes along.
  abbrev pub serve_chunk : GetChunk
  serve_chunk call offset size = elim (read_chunk (short call) name offset size z) [
    | err e ↦ err e
    | ok content ↦ ok (record {
      zone = zone;
      name = name;
      offset = offset;
      content = content;
      hash = sha256_bytes sha content;
    })
  ]

  -- What the server sends for a request below the end of the file.
  abbrev slice_chunk : Bytes → ℕ → ℕ → FileChunk
  slice_chunk content offset size = record {
    zone = zone;
    name = name;
    offset = offset;
    content = take size (drop offset content);
    hash = sha256_bytes sha (take size (drop offset content));
  }

  get_verified-serve :
      (content : Bytes) (attempts call offset size : ℕ)
      → lookup name z.files ≡ some content
      → offset < length content
      → get_verified sha json serve_chunk (suc attempts) call offset size
        ≡ (ok (slice_chunk content offset size), suc call)
  unfolding get_verified
  get_verified-serve content attempts call offset size there low = ground (
    arith,
    read_chunk-slice (short call) name offset size content z there low,
    str_eq_refl (sha256_bytes sha (take size (drop offset content))),
  )

  -- A chunk written behind a prefix of the content makes a longer prefix.
  write_at-slice :
      (content : Bytes) (offset size : ℕ)
      → offset ≤ length content
      → let chunk = take size (drop offset content) in
        write_at offset chunk (take offset content) ≡ take (offset + length chunk) content
  unfolding write_at
  write_at-slice content offset size low =
      let chunk = take size (drop offset content) in
      let prefix = take offset content in
      let count = length-take offset content in
      let same = take_all offset prefix (omega (arith, count)) in
      let nothing = drop_all (offset + length chunk) prefix (omega (arith, count)) in
      ap (λ p. p ++ chunk ++ drop (offset + length chunk) prefix) same
      ∙ ap (λ r. prefix ++ chunk ++ r) nothing
      ∙ append-nil (prefix ++ chunk)
      ∙ take-append-slice offset size content

  fetch_chunks-step :
      (fetch : GetChunk) (meta : FileMeta) (fuel call call' offset : ℕ) (part : Bytes)
      (chunk : FileChunk)
      → leb meta.size offset ≡ false
      → get_verified sha json fetch 3 call offset (min meta.chunk_size (meta.size - offset))
        ≡ (ok chunk, call')
      → fetch_chunks sha json fetch meta (suc fuel) call offset part
        ≡ fetch_chunks sha json fetch meta fuel call'
            (offset + length chunk.content)
            (write_at chunk.offset chunk.content part)
  unfolding fetch_chunks write_chunk
  fetch_chunks-step fetch meta fuel call call' offset part chunk more got = rw (got, more)

  pub fetch_chunks-serve :
      (content : Bytes) (meta : FileMeta) (fuel call offset : ℕ)
      → lookup name z.files ≡ some content
      → meta.size ≡ length content
      → 0 < meta.chunk_size
      → offset ≤ length content
      → length content < offset + fuel
      → fetch_chunks sha json serve_chunk meta fuel call offset (take offset content)
        ≡ some (ok tt, content)
  unfolding fetch_chunks
  fetch_chunks-serve content meta zero call offset there size step low enough = absurd (omega arith)
  fetch_chunks-serve content meta (suc fuel) call offset there size step low enough =
      elim (Bool-cases (leb meta.size offset)) [
        | inl over ↦
            rw (over, fetch_chunks)
              (ap (λ c. some (ok tt, c)) (take_all offset content (ground (arith, over, size))))
        | inr more ↦
            let inside : offset < length content = ground (arith, more, size) in
            let k = min meta.chunk_size (meta.size - offset) in
            let chunk = take k (drop offset content) in
            let count : length chunk ≡ k =
              omega
                (arith, length-take k (drop offset content), length-drop offset content, size) in
            let got = get_verified-serve content 2 call offset k there inside in
            let rest =
              fetch_chunks-serve content meta fuel (suc call) (offset + length chunk) there size
                step (omega (arith, count, size)) (omega (arith, count, size)) in
            fetch_chunks-step serve_chunk meta fuel call (suc call) offset (take offset content)
              (slice_chunk content offset k) more got
            ∙ ap (fetch_chunks sha json serve_chunk meta fuel (suc call) (offset + length chunk))
                (write_at-slice content offset k low)
            ∙ rest
      ]
