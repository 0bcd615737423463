-- ===== src/Rs/History/Addressed.antt =====
-- rs/mod.rs: a block is filed under the hash of its content, whatever calls are made.
use rxiu.Base.{
  ℕ, ◌≡◌, refl, Str, Bytes, str_eq, str_eq_iff, Bool, false, List, [], ◌∷◌, none, some, filter,
  find, not, arith, ◌⊎◌, inl, inr, Option-cases, Bool-cases, All, is_nil,
}
use rxiu.Base.Assoc.{erase, contains, All-insert, All-erase}
use rxiu.Error.{Result-cases}
use rxiu.External.{Json, Sha256}
use rxiu.Rs.Types.{RsBlockEntry, RsFileEntry, RsMetadata, RsDisk, is_component}
use rxiu.Rs.Metadata.{load_metadata, upsert_file, set_syncing}
use rxiu.Rs.Blocks.{
  sha256_bytes, write_block, verify_and_write_block, erase_unreferenced, remove_file,
  apply_remote_meta, remote_entry, referenced,
}
use rxiu.Rs.Transfer.{Putting, put_block, put_blocks, put_start, put_file_from_path}
use rxiu.Rs.History.{RsCall, put_file, upserts, removes, applies, writes, stores, syncs, step, run}

module _ (sha : Sha256) where
  -- A file in the blocks directory is named by its hash.
  abbrev pub IsNamedByHash : Str × Bytes → Type 0
  IsNamedByHash f = (is_component f.0 ≡ false) ⊎ (sha256_bytes sha f.1 ≡ f.0)

  put_block-addressed :
      (c : Bytes) (s : Putting)
      → All IsNamedByHash s.files
      → All IsNamedByHash (put_block sha c s).files
  unfolding put_block
  put_block-addressed c s h =
      ground (arith, h, All-insert IsNamedByHash (sha256_bytes sha c) c s.files (inr refl) h)

  put_blocks-addressed :
      (cs : List Bytes) (s : Putting)
      → All IsNamedByHash s.files
      → All IsNamedByHash (put_blocks sha cs s).files
  unfolding put_blocks
  put_blocks-addressed [] s h = h
  put_blocks-addressed (c ∷ cs) s h = elim (Bool-cases (is_nil c)) [
    | inl empty ↦ rw empty h
    | inr more ↦ rw more (put_blocks-addressed cs (put_block sha c s) (put_block-addressed c s h))
  ]

  erase_unreferenced-addressed :
      (kept : List Str) (bs : List RsBlockEntry) (files : List (Str × Bytes))
      → All IsNamedByHash files
      → All IsNamedByHash (erase_unreferenced kept bs files)
  unfolding erase_unreferenced
  erase_unreferenced-addressed kept [] files h = h
  erase_unreferenced-addressed kept (b ∷ bs) files h = elim (Bool-cases (contains kept b.hash)) [
    | inl held ↦ rw held (erase_unreferenced-addressed kept bs files h)
    | inr free ↦ rw free (
        erase_unreferenced-addressed kept bs (erase b.hash files)
          (All-erase IsNamedByHash b.hash files h))
  ]

module _ {Text : Type 0} (sha : Sha256) (json : Json Text RsMetadata) where
  abbrev pub IsAddressed : RsDisk Text → Type 0
  IsAddressed d = All (IsNamedByHash sha) d.files

  upsert_file-files : (e : RsFileEntry) (d : RsDisk Text) → (upsert_file json e d).1.files ≡ d.files
  unfolding upsert_file
  upsert_file-files e d = ground arith

  set_syncing-files :
      (n : Str) (b : Bool) (d : RsDisk Text) → (set_syncing json n b d).1.files ≡ d.files
  unfolding set_syncing
  set_syncing-files n b d = ground arith

  put_file-files :
      (src name algo : Str) (reads : ℕ → List Bytes) (members : List Str) (size : ℕ)
      (d : RsDisk Text)
      → (put_file_from_path sha json src (some reads) name members algo size d).1.files
        ≡ (put_blocks sha (reads size) (put_start d.files)).files
  unfolding put_file_from_path
  put_file-files src name algo reads members size d = ground arith

  remove_file-IsAddressed :
      (name : Str) (d : RsDisk Text) → IsAddressed d → IsAddressed (remove_file json name d).1
  unfolding remove_file
  remove_file-IsAddressed name d h = elim (Result-cases (load_metadata json d)) [
    | inr (e, failed) ↦ rw (failed, remove_file) h
    | inl (m, loaded) ↦
        elim (Option-cases (find (λ (f : RsFileEntry). str_eq f.name name) m.files)) [
          | inl nobody ↦ rw (loaded, remove_file) (rw nobody h)
          | inr (entry, found) ↦
              rw (loaded, remove_file)
                (rw found (
                  erase_unreferenced-addressed sha
                    (referenced (filter (λ (f : RsFileEntry). not (str_eq f.name name)) m.files))
                    entry.blocks d.files h))
        ]
  ]

  verify_and_write_block-IsAddressed :
      (hash : Str) (content : Bytes) (d : RsDisk Text)
      → IsAddressed d
      → IsAddressed (verify_and_write_block sha hash content d).1
  unfolding verify_and_write_block
  verify_and_write_block-IsAddressed hash content d h =
      elim (Bool-cases (str_eq (sha256_bytes sha content) hash)) [
        | inr wrong ↦ rw wrong h
        | inl right ↦ ground (
          arith,
          h,
          right,
          All-insert (IsNamedByHash sha) hash content d.files
              (inr ((str_eq_iff (sha256_bytes sha content) hash).0 right)) h,
        )
      ]

  write_block-IsAddressed :
      (hash : Str) (content : Bytes) (d : RsDisk Text)
      → sha256_bytes sha content ≡ hash
      → IsAddressed d
      → IsAddressed (write_block hash content d).1
  unfolding write_block
  write_block-IsAddressed hash content d right h =
      ground (arith, h, All-insert (IsNamedByHash sha) hash content d.files (inr right) h)

  -- `write_block` itself checks nothing: its caller has to give content of the hash.
  abbrev pub IsVerified : RsCall → Type 0
  IsVerified call = elim call [ stores hash content ↦ sha256_bytes sha content ≡ hash | _ ↦ Unit ]

  step-IsAddressed :
      (d : RsDisk Text) (c : RsCall)
      → IsVerified c
      → IsAddressed d
      → IsAddressed (step sha json d c)
  unfolding step put_file_from_path apply_remote_meta
  step-IsAddressed d (put_file src none name members algo size) v h = h
  step-IsAddressed d (put_file src (some reads) name members algo size) v h =
      rw (put_file-files src name algo reads members size d)
        (put_blocks-addressed sha (reads size) (put_start d.files) h)
  step-IsAddressed d (upserts e) v h = rw (upsert_file-files e d) h
  step-IsAddressed d (removes name) v h = remove_file-IsAddressed name d h
  step-IsAddressed d (applies e) v h = rw (upsert_file-files (remote_entry e d) d) h
  step-IsAddressed d (writes hash content) v h = verify_and_write_block-IsAddressed hash content d h
  step-IsAddressed d (stores hash content) right h = write_block-IsAddressed hash content d right h
  step-IsAddressed d (syncs name syncing) v h = rw (set_syncing-files name syncing d) h

  -- Where every file of the blocks directory is named by the hash of its content, it is so after any
  -- sequence of calls of the methods that change the disk, those that fail included, if each call of `write_block` is given
  -- content of the hash that it is given: that one checks nothing.
  pub run-IsAddressed :
      (d : RsDisk Text) (calls : List RsCall)
      → All IsVerified calls
      → IsAddressed d
      → IsAddressed (run sha json d calls)
  unfolding run
  run-IsAddressed d [] v h = h
  run-IsAddressed d (c ∷ cs) v h =
      run-IsAddressed (step sha json d c) cs v.1 (step-IsAddressed d c v.0 h)
