-- ===== src/Download/Chunked/Safety.antt =====
-- tui/app.rs, `download_file_chunked`: what a download that ends can leave.
use rxiu.Base.{
  ℕ, ◌≡◌, ◌⊎◌, ◌&&◌, codes, subst, inl, inr, refl, Str, Bytes, str_eq, str_eq_iff, [], Option, none,
  some, arith, Bool-cases, Option-cases, is_some, ◌==◌, unwrap_or,
}
use rxiu.Error.{AppError, Result, ok, err, io}
use rxiu.External.{Json, Sha256}
use rxiu.Rs.Blocks.{sha256_bytes}
use rxiu.P2p.Messages.{FileMeta}
use rxiu.Download.Chunked.{
  ResumeMeta, Target, GetChunk, resumable, prepare, fetch_chunks, finish, download_file_chunked,
}

module _ {Text : Type 0} (sha : Sha256) (json : Json Text ResumeMeta) where
  -- The outcome of a download that ends: it succeeds with a new file of the announced hash (or an
  -- empty one for the announced size 0), or it fails and leaves the destination as it was.
  abbrev pub IsSafeEnd : FileMeta → Target Text → Result (ℕ × Str) × Target Text → Type 0
  IsSafeEnd meta t end =
      ((end.0 ≡ ok (meta.size, meta.hash))
        × (t.full ≡ none)
        × ((content : Bytes) × (end.1.full ≡ some content)
            × ((sha256_bytes sha content ≡ meta.hash) ⊎ ((meta.size ≡ 0) × (content ≡ [])))))
      ⊎ (((e : AppError) × (end.0 ≡ err e)) × (end.1.full ≡ t.full))

  prepare-full : (meta : FileMeta) (t : Target Text) → (prepare sha json meta t).1.full ≡ t.full
  unfolding prepare
  prepare-full meta t = ground arith

  failed_end :
      (meta : FileMeta) (t t' : Target Text) (bad : AppError) (end : Result (ℕ × Str) × Target Text)
      → (err bad, t') ≡ end
      → t'.full ≡ t.full
      → IsSafeEnd meta t end
  failed_end meta t t' bad end e same = subst (λ x. IsSafeEnd meta t x) e (inr ((bad, refl), same))

  new_end :
      (meta : FileMeta) (t t' : Target Text) (content : Bytes)
      (end : Result (ℕ × Str) × Target Text)
      → (ok (meta.size, meta.hash), t') ≡ end
      → t.full ≡ none
      → t'.full ≡ some content
      → (sha256_bytes sha content ≡ meta.hash) ⊎ ((meta.size ≡ 0) × (content ≡ []))
      → IsSafeEnd meta t end
  new_end meta t t' content end e new full good =
      subst (λ x. IsSafeEnd meta t x) e (inl (refl, new, (content, full, good)))

  finish-safe :
      (meta : FileMeta) (t t' : Target Text) (r : Option (Result (Unit {0}) × Bytes))
      (end : Result (ℕ × Str) × Target Text)
      → t.full ≡ none
      → t'.full ≡ t.full
      → finish sha json meta t' r ≡ some end
      → IsSafeEnd meta t end
  unfolding finish
  finish-safe meta t t' none end new same e = cc
  finish-safe meta t t' (some (err bad, part)) end new same e =
      failed_end meta t (record t' { part = some part }) bad end (ground (arith, e)) same
  finish-safe meta t t' (some (ok _, part)) end new same e =
      elim (Bool-cases (str_eq (sha256_bytes sha part) meta.hash)) [
        | inl good ↦
            new_end meta t (record t' { full = some part; part = none; resume = none }) part end
              (ground (arith, e, good)) new refl
              (inl (ground (arith, good, str_eq_iff (sha256_bytes sha part) meta.hash)))
        | inr bad ↦
            failed_end meta t (record t' { part = some part })
              (io (codes "File hash mismatch after download")) end (ground (arith, e, bad)) same
      ]

  -- Whatever a peer answers to the requests for chunks, a download that ends has succeeded with a new file
  -- whose hash is the announced one (or an empty file for the announced size 0), or has failed
  -- and left the destination as it was.
  pub download_file_chunked-safe :
      (fetch : GetChunk) (meta : FileMeta) (fuel : ℕ) (t : Target Text)
      (end : Result (ℕ × Str) × Target Text)
      → download_file_chunked sha json fetch (ok meta) fuel t ≡ some end
      → IsSafeEnd meta t end
  unfolding download_file_chunked sha256_bytes
  download_file_chunked-safe fetch meta fuel t end e =
      let (resume_offset, t') = prepare sha json meta t in
      let part = unwrap_or t'.part [] in
      let same = prepare-full meta t in
      let broken = is_some (resumable sha json meta t) && (meta.chunk_size == 0) in
      elim (Option-cases t.full) [
        | inr (old, there) ↦
            failed_end meta t t (io (codes "File already exists at destination")) end
              (ground (arith, e, there)) refl
        | inl new ↦ elim (Bool-cases (meta.size == 0)) [
          | inl empty ↦
              new_end meta t (record t { full = some [] }) [] end (ground (arith, e, new, empty))
                new refl (inr (ground arith, refl))
          | inr nonempty ↦ elim (Bool-cases broken) [
            | inl panic ↦ absurd (ground (arith, e, new, nonempty, panic))
            | inr fine ↦ elim (Bool-cases (resume_offset == meta.size)) [
              | inr partial ↦
                  finish-safe meta t t' (fetch_chunks sha json fetch meta fuel 0 resume_offset part)
                    end new same (ground (arith, e, new, nonempty, fine, partial))
              | inl whole ↦ elim (Bool-cases (str_eq (sha256_bytes sha part) meta.hash)) [
                | inl good ↦
                    new_end meta t (record t' { full = some part; part = none; resume = none }) part
                      end (ground (arith, e, new, nonempty, fine, whole, good)) new refl
                      (inl (ground (arith, good, str_eq_iff (sha256_bytes sha part) meta.hash)))
                | inr bad ↦
                    finish-safe meta t t' (fetch_chunks sha json fetch meta fuel 0 0 []) end new
                      same (ground (arith, e, new, nonempty, fine, whole, bad))
              ]
            ]
          ]
        ]
      ]
