-- ===== src/Rs/Transfer/Entries.antt =====
-- rs/mod.rs: what the loop of `put_file_from_path` leaves on disk and in its variables.
use rxiu.Base.{
  ℕ, ◌+◌, ◌^◌, ◌≤◌, ◌<◌, ◌≡◌, refl, sym, Str, Bytes, str_eq_refl, str_eq_iff, subst, true, false,
  List, [], ◌∷◌, ◌++◌, some, length, is_nil, leb, All, arith, append-nil, append_assoc,
  length-append, inl, inr, Bool-cases,
}
use rxiu.Base.Assoc.{lookup, has_key, lookup-insert, lookup_of_has_key}
use rxiu.Base.Sort.{IsSorted}
use rxiu.External.{Sha256, IsCollisionFree}
use rxiu.Rs.Types.{RsBlockEntry}
use rxiu.Rs.Blocks.{sha256_bytes}
use rxiu.Rs.Transfer.{Putting, put_block, put_blocks, by_offset}

-- The bytes of a file, from the results of its reads.
abbrev pub concat : List Bytes → Bytes
concat [] = []
concat (c ∷ cs) = c ++ concat cs

-- The reads of a file before its end: none of them is empty.
abbrev pub IsNonempty : Bytes → Type 0
IsNonempty c = is_nil c ≡ false

module _ (sha : Sha256) where
  -- The block entries of the reads, from an offset on.
  unfoldable pub entries : ℕ → List Bytes → List RsBlockEntry
  entries offset [] = []
  entries offset (c ∷ cs) =
      record { hash = sha256_bytes sha c; size = length c; offset = offset }
      ∷ entries (offset + length c) cs

  entries_above :
      (low offset : ℕ) (cs : List Bytes)
      → low ≤ offset
      → All (λ e. leb low e.offset ≡ true) (entries offset cs)
  unfolding entries
  entries_above low offset [] h = tt
  entries_above low offset (c ∷ cs) h =
      (ground arith, entries_above low (offset + length c) cs (omega arith))

  pub entries-IsSorted : (offset : ℕ) (cs : List Bytes) → IsSorted by_offset (entries offset cs)
  unfolding entries
  entries-IsSorted offset [] = tt
  entries-IsSorted offset (c ∷ cs) = (
    entries_above offset (offset + length c) cs (omega arith),
    entries-IsSorted (offset + length c) cs,
  )

  -- The block that the loop files under a hash is the block with that hash.
  abbrev pub Stored : List (Str × Bytes) → Bytes → Type 0
  Stored files c = lookup (sha256_bytes sha c) files ≡ some c

  put_blocks-cons :
      (c : Bytes) (cs : List Bytes) (s : Putting)
      → IsNonempty c
      → put_blocks sha (c ∷ cs) s ≡ put_blocks sha cs (put_block sha c s)
  unfolding put_blocks
  put_blocks-cons c cs s full = rw full

  -- A file in the store whose name is the hash of something seen holds just that.
  abbrev pub IsFaithful : (Bytes → Type 0) → List (Str × Bytes) → Type 0
  IsFaithful Seen files =
      (c found : Bytes) → Seen c → lookup (sha256_bytes sha c) files ≡ some found → found ≡ c

  module _ (Seen : Bytes → Type 0) (collision_free : IsCollisionFree Seen (sha256_bytes sha)) where
    put_block-IsFaithful :
        (c : Bytes) (s : Putting)
        → Seen c
        → IsFaithful Seen s.files
        → IsFaithful Seen (put_block sha c s).files
    unfolding put_block
    put_block-IsFaithful c s seen faithful c' found seen' e = ground (
      arith,
      lookup-insert (sha256_bytes sha c) (sha256_bytes sha c') c s.files,
      str_eq_iff (sha256_bytes sha c) (sha256_bytes sha c'),
      collision_free c c' seen seen',
      faithful c' found seen',
    )

    put_block-Stored :
        (c : Bytes) (s : Putting)
        → Seen c
        → IsFaithful Seen s.files
        → Stored (put_block sha c s).files c
    unfolding put_block
    put_block-Stored c s seen faithful = elim (Bool-cases (has_key (sha256_bytes sha c) s.files)) [
      | inl old ↦
          let (found, e) = lookup_of_has_key (sha256_bytes sha c) s.files old in
          ground (arith, faithful c found seen e)
      | inr new ↦ ground (
        arith,
        lookup-insert (sha256_bytes sha c) (sha256_bytes sha c) c s.files,
        str_eq_refl (sha256_bytes sha c),
      )
    ]

    put_block_keeps :
        (c c' : Bytes) (s : Putting)
        → Stored s.files c'
        → IsFaithful Seen s.files
        → Seen c
        → Seen c'
        → Stored (put_block sha c s).files c'
    unfolding put_block
    put_block_keeps c c' s kept faithful seen seen' = ground (
      arith,
      lookup-insert (sha256_bytes sha c) (sha256_bytes sha c') c s.files,
      str_eq_iff (sha256_bytes sha c) (sha256_bytes sha c'),
      collision_free c c' seen seen',
    )

    put_blocks_keeps :
        (cs : List Bytes) (c' : Bytes) (s : Putting)
        → All Seen cs
        → Seen c'
        → IsFaithful Seen s.files
        → Stored s.files c'
        → Stored (put_blocks sha cs s).files c'
    unfolding put_blocks
    put_blocks_keeps [] c' s seen seen' faithful kept = kept
    put_blocks_keeps (c ∷ cs) c' s seen seen' faithful kept = ground (
      arith,
      kept,
      put_blocks_keeps cs c' (put_block sha c s) seen.1 seen'
          (put_block-IsFaithful c s seen.0 faithful)
          (put_block_keeps c c' s kept faithful seen.0 seen'),
    )

    pub put_blocks-Stored :
        (cs : List Bytes) (s : Putting)
        → All Seen cs
        → All IsNonempty cs
        → IsFaithful Seen s.files
        → All (Stored (put_blocks sha cs s).files) cs
    put_blocks-Stored [] s seen full faithful = tt
    put_blocks-Stored (c ∷ cs) s seen full faithful =
        let faithful' = put_block-IsFaithful c s seen.0 faithful in
        subst (λ t. All (Stored t.files) (c ∷ cs)) (sym (put_blocks-cons c cs s full.0))
          (
            put_blocks_keeps cs c (put_block sha c s) seen.1 seen.0 faithful'
                (put_block-Stored c s seen.0 faithful),
            put_blocks-Stored cs (put_block sha c s) seen.1 full.1 faithful',
          )

  -- What the loop leaves in its variables.
  pub record Shape (s t : Putting) (cs : List Bytes) : Type 0 where
    pub offset_eq : t.offset ≡ s.offset + length (concat cs)
    pub blocks_eq : t.blocks ≡ s.blocks ++ entries s.offset cs
    pub hashed_eq : t.hashed ≡ s.hashed ++ concat cs

  put_block-Shape :
      (c : Bytes) (s : Putting)
      → s.offset + length c < 2 ^ 64
      → Shape s (put_block sha c s) (c ∷ [])
  unfolding put_block entries
  put_block-Shape c s h = record {
    offset_eq = rw append-nil (omega arith);
    blocks_eq = refl;
    hashed_eq = rw append-nil;
  }

  Shape-trans :
      (s t u : Putting) (c : Bytes) (cs : List Bytes)
      → Shape s t (c ∷ [])
      → Shape t u cs
      → Shape s u (c ∷ cs)
  unfolding entries
  Shape-trans s t u c cs h k =
      let offset : t.offset ≡ s.offset + length c = rw append-nil at h.offset_eq in
      record {
        offset_eq = omega (arith, k.offset_eq, length-append c (concat cs));
        blocks_eq =
            rw (k.blocks_eq, h.blocks_eq, offset)
              (append_assoc s.blocks _ (entries (s.offset + length c) cs));
        hashed_eq = rw (k.hashed_eq, h.hashed_eq, append-nil) (append_assoc s.hashed c (concat cs));
      }

  pub put_blocks-Shape :
      (cs : List Bytes) (s : Putting)
      → All IsNonempty cs
      → s.offset + length (concat cs) < 2 ^ 64
      → Shape s (put_blocks sha cs s) cs
  unfolding put_blocks entries
  put_blocks-Shape [] s full small = record {
    offset_eq = omega arith;
    blocks_eq = rw append-nil;
    hashed_eq = rw append-nil;
  }
  put_blocks-Shape (c ∷ cs) s full small =
      let sum = length-append c (concat cs) in
      let here = put_block-Shape c s (omega arith) in
      let offset : (put_block sha c s).offset ≡ s.offset + length c =
        rw append-nil at here.offset_eq in
      rw full.0 (
        Shape-trans s (put_block sha c s) _ c cs here
          (put_blocks-Shape cs (put_block sha c s) full.1 (omega arith)))
