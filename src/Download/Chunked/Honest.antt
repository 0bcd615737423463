-- ===== src/Download/Chunked/Honest.antt =====
-- tui/app.rs, `download_file_chunked`, together with the chunk server of p2p/service.rs.
use rxiu.Base.{
  ℕ, ◌≤◌, ◌<◌, ◌≡◌, ◌⊎◌, ◌∙◌, sym, ap, inl, inr, refl, Str, Bytes, str_eq, str_eq_refl, str_eq_iff,
  true, false, [], ◌∷◌, Option, none, some, arith, Bool-cases, Option-cases, length, take, min,
  ◌==◌, unwrap_or, length-take, take_all, take-take,
}
use native.Mathlib.Nat.{div-mul-le_self}
use rxiu.Base.Assoc.{lookup}
use rxiu.Error.{Result, ok}
use rxiu.External.{Json, Sha256}
use rxiu.Rs.Blocks.{sha256_bytes}
use rxiu.Storage.Local.{ZoneDisk}
use rxiu.P2p.Messages.{FileMeta}
use rxiu.Download.Chunked.{
  ResumeMeta, Target, resumable, aligned, prepare, fetch_chunks, finish, download_file_chunked,
}
use rxiu.Download.Chunked.Serve.{serve_chunk, fetch_chunks-serve}

module _ {Text Zone : Type 0} (sha : Sha256) (json : Json Text ResumeMeta) (short : ℕ → ℕ → ℕ)
    (zone name : Str) (z : ZoneDisk Zone) where
  -- The part file is absent, or holds the beginning of the content.
  abbrev pub IsPrefixPart : Bytes → Target Text → Type 0
  IsPrefixPart content t = (t.part ≡ none) ⊎ ((k : ℕ) × (t.part ≡ some (take k content)))

  -- What `prepare` hands to the loop.
  abbrev Prepared : Bytes → FileMeta → Target Text → Type 0
  Prepared content meta t =
      let (offset, t') = prepare sha json meta t in
      (offset ≤ length content) × (t'.full ≡ t.full) × (unwrap_or t'.part [] ≡ take offset content)

  resumable-part :
      (meta : FileMeta) (t : Target Text) (part : Bytes)
      → resumable sha json meta t ≡ some part
      → t.part ≡ some part
  unfolding resumable
  resumable-part meta t part e = elim (Option-cases t.part) [
    | inl missing ↦ ground (arith, e, missing)
    | inr (p, there) ↦ elim (Option-cases t.resume) [
      | inl undescribed ↦ ground (arith, e, there, undescribed)
      | inr (text, described) ↦ elim (Option-cases (json.from_text text)) [
        | inl unreadable ↦ ground (arith, e, there, described, unreadable)
        | inr (saved, parsed) ↦ ground (arith, e, there, described, parsed)
      ]
    ]
  ]

  prepare-Prepared :
      (content : Bytes) (meta : FileMeta) (t : Target Text)
      → meta.size ≡ length content
      → IsPrefixPart content t
      → Prepared content meta t
  unfolding prepare
  prepare-Prepared content meta t size prefix = elim (Option-cases (resumable sha json meta t)) [
    | inl none_found ↦ ground (arith, none_found)
    | inr (part, found) ↦
        let there = resumable-part meta t part found in
        elim prefix [
          | inl missing ↦ ground (arith, there, missing)
          | inr (k, is_part) ↦
              let same : part ≡ take k content = ground (arith, there, is_part) in
              let count : length part ≡ min k (length content) =
                ap length same ∙ length-take k content in
              let cut = aligned sha json meta part in
              let whole : cut ≤ length part = div-mul-le_self (length part) meta.chunk_size in
              let low : cut ≤ k = omega (arith, whole, count) in
              let kept : take cut part ≡ take cut content =
                ap (take cut) same ∙ take-take cut k content low in
              let offset : min cut meta.size ≡ cut = omega (arith, whole, count, size) in
              ground (arith, found, offset, kept, whole, count)
        ]
  ]

  empty_of_length : (xs : Bytes) → length xs ≡ 0 → xs ≡ []
  empty_of_length [] h = refl
  empty_of_length (x ∷ xs) h = absurd (omega (arith, h))

  finish-serve :
      (content : Bytes) (meta : FileMeta) (t t' : Target Text)
      (r : Option (Result (Unit {0}) × Bytes))
      → r ≡ some (ok tt, content)
      → meta.hash ≡ sha256_bytes sha content
      → finish sha json meta t' r
        ≡ some (
          ok (meta.size, meta.hash),
          record t' { full = some content; part = none; resume = none },
        )
  unfolding finish
  finish-serve content meta t t' r e hash =
      ground (arith, e, hash, str_eq_iff (sha256_bytes sha content) meta.hash)

  -- From a peer that serves a file's chunks with `read_chunk`, in reads as short as they may be, and announces
  -- the file's size and hash and a positive chunk size, a download into a free place succeeds and
  -- leaves the file's content there, within as many requests as it has bytes and one more. It does so
  -- also where it goes on from a part file, provided that holds the beginning of the content.
  pub download_file_chunked-serve :
      (content : Bytes) (meta : FileMeta) (fuel : ℕ) (t : Target Text)
      → lookup name z.files ≡ some content
      → meta.size ≡ length content
      → meta.hash ≡ sha256_bytes sha content
      → 0 < meta.chunk_size
      → t.full ≡ none
      → IsPrefixPart content t
      → length content < fuel
      → (end : Result (ℕ × Str) × Target Text) × (download_file_chunked sha json
            (serve_chunk sha json short zone name z)
            (ok meta)
            fuel
            t
          ≡ some end)
        × (end.0 ≡ ok (meta.size, meta.hash))
        × (end.1.full ≡ some content)
  unfolding download_file_chunked
  download_file_chunked-serve content meta fuel t there size hash step new prefix enough =
      let (resume_offset, t') = prepare sha json meta t in
      let (low, same, part) = prepare-Prepared content meta t size prefix in
      let fetched =
        fetch_chunks-serve sha json short zone name z content meta fuel 0 resume_offset there size
          step low (omega arith) in
      let server = serve_chunk sha json short zone name z in
      let divisible : (meta.chunk_size == 0) ≡ false = ground arith in
      let loaded : fetch_chunks sha json server meta fuel 0 resume_offset (unwrap_or t'.part [])
          ≡ some (ok tt, content) =
        ap (fetch_chunks sha json server meta fuel 0 resume_offset) part ∙ fetched in
      let done : Target Text = record t' { full = some content; part = none; resume = none } in
      elim (Bool-cases (meta.size == 0)) [
        | inl empty ↦
            let nothing : content ≡ [] = empty_of_length content (ground (arith, empty, size)) in
            (
              (ok (0, meta.hash), record t { full = some [] }),
              ground (arith, new, empty),
              ground (arith, empty),
              ap some (sym nothing),
            )
        | inr nonempty ↦ elim (Bool-cases (resume_offset == meta.size)) [
          | inl whole ↦
              let all : unwrap_or t'.part [] ≡ content =
                part ∙ take_all resume_offset content (ground (arith, whole, size)) in
              let good : str_eq (sha256_bytes sha (unwrap_or t'.part [])) meta.hash ≡ true =
                ap (λ c. str_eq (sha256_bytes sha c) meta.hash) all
                ∙ ap (str_eq (sha256_bytes sha content)) hash
                ∙ str_eq_refl (sha256_bytes sha content) in
              (
                (ok (meta.size, meta.hash), record done { full = some (unwrap_or t'.part []) }),
                ground (arith, new, nonempty, divisible, whole, good),
                refl,
                ap some all,
              )
          | inr partial ↦ (
            (ok (meta.size, meta.hash), done),
            ground (
              arith,
              new,
              nonempty,
              divisible,
              partial,
              finish-serve content meta t t'
                  (fetch_chunks sha json server meta fuel 0 resume_offset (unwrap_or t'.part []))
                  loaded hash,
            ),
            refl,
            refl,
          )
        ]
      ]
