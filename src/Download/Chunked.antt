-- ===== src/Download/Chunked.antt =====
-- tui/app.rs, `download_file_chunked`: a file of a peer's zone is fetched in chunks, and an interrupted
-- download goes on where it stopped. The reports of progress are left out.
pub mod Safety
pub mod Serve
pub mod Honest
use rxiu.Base.{
  ℕ, suc, zero, ◌+◌, ◌-◌, ◌*◌, ◌/◌, Str, Bytes, str_eq, codes, Bool, true, false, List, [], ◌∷◌,
  ◌++◌, Option, none, some, if◌then◌else◌, not, ◌&&◌, ◌==◌, ltb, leb, min, length, take, drop,
  unwrap_or, is_some,
}
use rxiu.Error.{Result, ok, err, io}
use rxiu.External.{Json, Sha256}
use rxiu.Rs.Blocks.{sha256_bytes}
use rxiu.P2p.Messages.{FileMeta, FileChunk}

pub record ResumeMeta : Type 0 where
  pub zone : Str
  pub name : Str
  pub size : ℕ
  pub hash : Str
  pub chunk_size : ℕ

-- The three files of a download in the chosen directory: the file itself, the part file, and the text of
-- the part file's description.
pub record Target (Text : Type 0) : Type 0 where
  pub full : Option Bytes
  pub part : Option Bytes
  pub resume : Option Text

-- A peer's answers to the requests for chunks: to the n-th one, for an offset and a size.
abbrev pub GetChunk : Type 0
GetChunk = ℕ → ℕ → ℕ → Result FileChunk

abbrev pub resume_meta : FileMeta → ResumeMeta
resume_meta meta = record {
  zone = meta.zone;
  name = meta.name;
  size = meta.size;
  hash = meta.hash;
  chunk_size = meta.chunk_size;
}

unfoldable pub same_download : ResumeMeta → ResumeMeta → Bool
same_download a b =
    str_eq a.zone b.zone
    && str_eq a.name b.name
    && (a.size == b.size)
    && str_eq a.hash b.hash
    && (a.chunk_size == b.chunk_size)

-- `seek` and `write_all`.
unfoldable pub write_at : ℕ → Bytes → Bytes → Bytes
write_at offset content file = take offset file ++ content ++ drop (offset + length content) file

module _ {Text : Type 0} (sha : Sha256) (json : Json Text ResumeMeta) where
  -- The part file that a matching description belongs to.
  unfoldable pub resumable : FileMeta → Target Text → Option Bytes
  unfolding same_download
  resumable meta t = elim t.part [
    | none ↦ none
    | some part ↦ elim t.resume [
      | none ↦ none
      | some text ↦ elim (json.from_text text) [
        | none ↦ none
        | some saved ↦ if same_download saved (resume_meta meta) then some part else none
      ]
    ]
  ]

  -- The length of the part file down to a whole number of chunks.
  abbrev pub aligned : FileMeta → Bytes → ℕ
  aligned meta part = length part / meta.chunk_size * meta.chunk_size

  -- Up to the first request: the offset to go on from, and the files. The part file is cut down to
  -- whole chunks; with nothing to go on from, it and its description are removed; the description
  -- is written anew.
  unfoldable pub prepare : FileMeta → Target Text → ℕ × Target Text
  unfolding resumable
  prepare meta t =
      let described =
        λ (t' : Target Text). record t' { resume = some (json.to_text (resume_meta meta)) } in
      elim (resumable meta t) [
        | none ↦ (0, described (record t { part = none }))
        | some part ↦
            let resume_offset = min (aligned meta part) meta.size in
            if resume_offset == 0 then (0, described (record t { part = none })) else (
              resume_offset,
              described (record t { part = some (take (aligned meta part) part) }),
            )
      ]

  -- At most three requests for a chunk. The result is the chunk, and the number of requests so far.
  unfoldable pub get_verified : GetChunk → ℕ → ℕ → ℕ → ℕ → Result FileChunk × ℕ
  unfolding sha256_bytes
  get_verified fetch zero call offset size =
      (err (io (codes "Chunk hash verification failed")), call)
  get_verified fetch (suc attempts) call offset size =
      let rest = get_verified fetch attempts (suc call) offset size in
      elim (fetch call offset size) [
        | err e ↦ (err e, suc call)
        | ok chunk ↦
            if not (chunk.offset == offset)
            then (err (io (codes "Chunk offset mismatch")), suc call)
            else if str_eq (sha256_bytes sha chunk.content) chunk.hash
            then (ok chunk, suc call)
            else rest
      ]

  -- What the loop does with the answer: it ends on an error, or goes on after the chunk is written.
  unfoldable pub write_chunk :
      Result FileChunk × ℕ
      → ℕ
      → Bytes
      → (ℕ → ℕ → Bytes → Option (Result (Unit {0}) × Bytes))
      → Option (Result (Unit {0}) × Bytes)
  unfolding write_at
  write_chunk (err e, call) offset part next = some (err e, part)
  write_chunk (ok chunk, call) offset part next =
      next call (offset + length chunk.content) (write_at chunk.offset chunk.content part)

  -- The loop over the chunks: the fuel, the number of requests, the offset and the part file. `none` says
  -- that the fuel has run out.
  unfoldable pub fetch_chunks :
      GetChunk → FileMeta → ℕ → ℕ → ℕ → Bytes → Option (Result (Unit {0}) × Bytes)
  unfolding get_verified write_chunk
  fetch_chunks fetch meta zero call offset part = none
  fetch_chunks fetch meta (suc fuel) call offset part =
      if leb meta.size offset
      then some (ok tt, part)
      else write_chunk (get_verified fetch 3 call offset (min meta.chunk_size (meta.size - offset)))
          offset part (fetch_chunks fetch meta fuel)

  -- After the loop: the hash of the part file is verified, and it becomes the file.
  unfoldable pub finish :
      FileMeta
      → Target Text
      → Option (Result (Unit {0}) × Bytes)
      → Option (Result (ℕ × Str) × Target Text)
  unfolding sha256_bytes
  finish meta t none = none
  finish meta t (some (err e, part)) = some (err e, record t { part = some part })
  finish meta t (some (ok _, part)) =
      if str_eq (sha256_bytes sha part) meta.hash
      then some
          (ok (meta.size, meta.hash), record t { full = some part; part = none; resume = none })
      else some
          (err (io (codes "File hash mismatch after download")), record t { part = some part })

  -- `none` says that the fuel has run out, or that the division by a chunk size of 0 panics.
  unfoldable pub download_file_chunked :
      GetChunk → Result FileMeta → ℕ → Target Text → Option (Result (ℕ × Str) × Target Text)
  unfolding resumable prepare fetch_chunks finish sha256_bytes
  download_file_chunked fetch (err e) fuel t = some (err e, t)
  download_file_chunked fetch (ok meta) fuel t =
      let (resume_offset, t') = prepare meta t in
      let part = unwrap_or t'.part [] in
      let from_start = finish meta t' (fetch_chunks fetch meta fuel 0 0 []) in
      let from_offset = finish meta t' (fetch_chunks fetch meta fuel 0 resume_offset part) in
      if is_some t.full
      then some (err (io (codes "File already exists at destination")), t)
      else if meta.size == 0
      then some (ok (0, meta.hash), record t { full = some [] })
      else if is_some (resumable meta t) && (meta.chunk_size == 0)
      then none
      else if resume_offset == meta.size
      then (if str_eq (sha256_bytes sha part) meta.hash
          then some (
            ok (meta.size, meta.hash),
            record t' { full = some part; part = none; resume = none },
          )
          else from_start)
      else from_offset
