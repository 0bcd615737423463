-- ===== src/Download/Examples.antt =====
-- Downloads at concrete data.
use rxiu.Base.{ℕ, ◌≡◌, refl, inr, Str, codes, str_eq, [], ◌∷◌, none, some, arith}
use rxiu.Base.Assoc.{lookup}
use rxiu.Error.{Result, ok, err, io}
use rxiu.Rs.Blocks.{sha256_bytes}
use rxiu.P2p.Messages.{FileMeta}
use rxiu.Download.Chunked.{
  Target, GetChunk, resume_meta, resumable, prepare, get_verified, write_chunk, write_at,
  fetch_chunks, finish, download_file_chunked,
}
use rxiu.Download.Chunked.Safety.{IsSafeEnd, download_file_chunked-safe}
use rxiu.Download.Chunked.Serve.{serve_chunk}
use rxiu.Download.Chunked.Honest.{download_file_chunked-serve}
use rxiu.Samples.{SampleText, of_resume, identity_sha, resume_json, zone_x}

abbrev meta_x : FileMeta
meta_x = record {
  zone = codes "work";
  name = codes "x";
  size = 3;
  hash = 5 ∷ 6 ∷ 7 ∷ [];
  chunk_size = 2;
  chunks = 2;
}

-- The first chunk has come already.
abbrev half : Target SampleText
half = record {
  full = none;
  part = some (5 ∷ 6 ∷ []);
  resume = some (of_resume (resume_meta meta_x));
}

abbrev reads : ℕ → ℕ → ℕ
reads call n = 1

x_there : lookup (codes "x") zone_x.files ≡ some (5 ∷ 6 ∷ 7 ∷ [])
unfolding lookup str_eq
x_there = refl

x_hash : meta_x.hash ≡ sha256_bytes identity_sha (5 ∷ 6 ∷ 7 ∷ [])
unfolding sha256_bytes
x_hash = refl

download_file_chunked-serve_example :
    (end : Result (ℕ × Str) × Target SampleText) × (download_file_chunked identity_sha resume_json
        (serve_chunk identity_sha resume_json reads (codes "work") (codes "x") zone_x)
        (ok meta_x)
        4
        half
      ≡ some end)
    × (end.0 ≡ ok (3, 5 ∷ 6 ∷ 7 ∷ []))
    × (end.1.full ≡ some (5 ∷ 6 ∷ 7 ∷ []))
download_file_chunked-serve_example =
    download_file_chunked-serve identity_sha resume_json reads (codes "work") (codes "x") zone_x
      (5 ∷ 6 ∷ 7 ∷ []) meta_x 4 half x_there refl x_hash (omega arith) refl (inr (2, refl))
      (omega arith)

-- A peer that answers every request for a chunk with other bytes.
abbrev liar : GetChunk
liar call offset size = ok (record {
  zone = codes "work";
  name = codes "x";
  offset = offset;
  content = 9 ∷ 9 ∷ [];
  hash = 9 ∷ 9 ∷ [];
})

abbrev failed : Target SampleText
failed = record {
  full = none;
  part = some (9 ∷ 9 ∷ 9 ∷ 9 ∷ []);
  resume = some (of_resume (resume_meta meta_x));
}

abbrev fresh : Target SampleText
fresh = record { full = none; part = none; resume = none }

liar_run :
    download_file_chunked identity_sha resume_json liar (ok meta_x) 4 fresh
    ≡ some (err (io (codes "File hash mismatch after download")), failed)
unfolding download_file_chunked resumable prepare get_verified write_chunk write_at fetch_chunks
    finish str_eq sha256_bytes
liar_run = refl

download_file_chunked-safe_example :
    IsSafeEnd identity_sha resume_json meta_x fresh
      (err (io (codes "File hash mismatch after download")), failed)
download_file_chunked-safe_example =
    download_file_chunked-safe identity_sha resume_json liar meta_x 4 fresh
      (err (io (codes "File hash mismatch after download")), failed) liar_run
