-- ===== src/Rs/History/Names.antt =====
-- rs/mod.rs: the names in the metadata stay distinct, whatever calls are made.
use rxiu.Base.{
  ℕ, ◌≡◌, sym, subst, Str, Bytes, str_eq, Bool, List, [], ◌∷◌, none, some, filter, find, not, arith,
  inl, inr, Option-cases,
}
use rxiu.Error.{ok, err, Result-cases}
use rxiu.External.{Json, Sha256, IsLossless}
use rxiu.Rs.Types.{RsFileEntry, RsMetadata, RsDisk}
use rxiu.Rs.Metadata.{upsert, mark_syncing, load_metadata, save_metadata, upsert_file, set_syncing}
use rxiu.Rs.Metadata.Catalog.{
  UniqueNames, upsert-UniqueNames, mark_syncing-UniqueNames, filter-UniqueNames,
}
use rxiu.Rs.Blocks.{
  write_block, verify_and_write_block, remove_file, apply_remote_meta, remote_entry,
}
use rxiu.Rs.Transfer.{put_blocks, put_start, put_entry, put_file_from_path}
use rxiu.Rs.History.{RsCall, put_file, upserts, removes, applies, writes, stores, syncs, step, run}

module _ {Text : Type 0} (json : Json Text RsMetadata) where
  -- The entries of the metadata file; none where it is missing.
  abbrev pub catalog : RsDisk Text → List RsFileEntry
  catalog d = elim (load_metadata json d) [ err _ ↦ [] | ok m ↦ m.files ]

  module _ (lossless : IsLossless json) where
    pub catalog-save_metadata :
        (m : RsMetadata) (d : RsDisk Text) → catalog (save_metadata json m d) ≡ m.files
    unfolding load_metadata save_metadata
    catalog-save_metadata m d = ground (arith, lossless m)

    save_metadata-UniqueNames :
        (m : RsMetadata) (d : RsDisk Text)
        → UniqueNames m.files
        → UniqueNames (catalog (save_metadata json m d))
    save_metadata-UniqueNames m d h = subst UniqueNames (sym (catalog-save_metadata m d)) h

    loaded-UniqueNames :
        {m : RsMetadata} (d : RsDisk Text)
        → load_metadata json d ≡ ok m
        → UniqueNames (catalog d)
        → UniqueNames m.files
    loaded-UniqueNames {m} d loaded h =
        let same : catalog d ≡ m.files = ground (arith, loaded) in subst UniqueNames same h

    upsert_file-UniqueNames :
        (e : RsFileEntry) (d : RsDisk Text)
        → UniqueNames (catalog d)
        → UniqueNames (catalog (upsert_file json e d).1)
    unfolding upsert_file
    upsert_file-UniqueNames e d h = elim (Result-cases (load_metadata json d)) [
      | inr (failed, e') ↦ rw (e', upsert_file) h
      | inl (m, loaded) ↦
          rw (loaded, upsert_file)
            (save_metadata-UniqueNames (record { files = upsert e m.files }) d
              (upsert-UniqueNames e m.files (loaded-UniqueNames d loaded h)))
    ]

    set_syncing-UniqueNames :
        (name : Str) (b : Bool) (d : RsDisk Text)
        → UniqueNames (catalog d)
        → UniqueNames (catalog (set_syncing json name b d).1)
    unfolding set_syncing
    set_syncing-UniqueNames name b d h = elim (Result-cases (load_metadata json d)) [
      | inr (failed, e') ↦ rw (e', set_syncing) h
      | inl (m, loaded) ↦
          elim (Option-cases (find (λ (f : RsFileEntry). str_eq f.name name) m.files)) [
            | inl nobody ↦ rw (loaded, set_syncing) (rw nobody h)
            | inr (entry, found) ↦
                rw (loaded, set_syncing)
                  (rw found (
                    save_metadata-UniqueNames (record { files = mark_syncing name b m.files }) d
                      (mark_syncing-UniqueNames name b m.files (loaded-UniqueNames d loaded h))))
          ]
    ]

    remove_file-UniqueNames :
        (name : Str) (d : RsDisk Text)
        → UniqueNames (catalog d)
        → UniqueNames (catalog (remove_file json name d).1)
    unfolding remove_file
    remove_file-UniqueNames name d h = elim (Result-cases (load_metadata json d)) [
      | inr (failed, e') ↦ rw (e', remove_file) h
      | inl (m, loaded) ↦
          let kept : List RsFileEntry =
            filter (λ (f : RsFileEntry). not (str_eq f.name name)) m.files in
          let saved =
            save_metadata-UniqueNames (record { files = kept }) d
              (filter-UniqueNames _ m.files (loaded-UniqueNames d loaded h)) in
          elim (Option-cases (find (λ (f : RsFileEntry). str_eq f.name name) m.files)) [
            | inl nobody ↦ rw (loaded, remove_file) (rw nobody saved)
            | inr (entry, found) ↦ rw (loaded, remove_file) (rw found saved)
          ]
    ]

module _ {Text : Type 0} (sha : Sha256) (json : Json Text RsMetadata)
    (lossless : IsLossless json) where
  put_file-UniqueNames :
      (src name algo : Str) (reads : ℕ → List Bytes) (members : List Str) (size : ℕ)
      (d : RsDisk Text)
      → UniqueNames (catalog json d)
      → UniqueNames
          (catalog json (put_file_from_path sha json src (some reads) name members algo size d).1)
  unfolding put_file_from_path
  put_file-UniqueNames src name algo reads members size d h =
      let s = put_blocks sha (reads size) (put_start d.files) in
      let entry = put_entry sha name members algo s in
      let d' : RsDisk Text = record d { files = s.files } in
      let same : (put_file_from_path sha json src (some reads) name members algo size d).1
          ≡ (upsert_file json entry d').1 =
        ground arith in
      subst (λ (x : RsDisk Text). UniqueNames (catalog json x)) (sym same)
        (upsert_file-UniqueNames json lossless entry d' h)

  step-UniqueNames :
      (d : RsDisk Text) (c : RsCall)
      → UniqueNames (catalog json d)
      → UniqueNames (catalog json (step sha json d c))
  unfolding step put_file_from_path apply_remote_meta verify_and_write_block write_block
  step-UniqueNames d (put_file src none name members algo size) h = h
  step-UniqueNames d (put_file src (some reads) name members algo size) h =
      put_file-UniqueNames src name algo reads members size d h
  step-UniqueNames d (upserts e) h = upsert_file-UniqueNames json lossless e d h
  step-UniqueNames d (removes name) h = remove_file-UniqueNames json lossless name d h
  step-UniqueNames d (applies e) h = upsert_file-UniqueNames json lossless (remote_entry e d) d h
  step-UniqueNames d (writes hash content) h =
      let same : catalog json (verify_and_write_block sha hash content d).1 ≡ catalog json d =
        ground arith in
      subst UniqueNames (sym same) h
  step-UniqueNames d (stores hash content) h =
      let same : catalog json (write_block hash content d).1 ≡ catalog json d = ground arith in
      subst UniqueNames (sym same) h
  step-UniqueNames d (syncs name syncing) h = set_syncing-UniqueNames json lossless name syncing d h

  -- If what is written as JSON parses back, a metadata file with no two entries of one name has none
  -- after any sequence of calls either, those that fail included.
  pub run-UniqueNames :
      (d : RsDisk Text) (calls : List RsCall)
      → UniqueNames (catalog json d)
      → UniqueNames (catalog json (run sha json d calls))
  unfolding run
  run-UniqueNames d [] h = h
  run-UniqueNames d (c ∷ cs) h = run-UniqueNames (step sha json d c) cs (step-UniqueNames d c h)
