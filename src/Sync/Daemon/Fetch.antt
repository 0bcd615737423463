-- ===== src/Sync/Daemon/Fetch.antt =====
-- daemon/rs_sync.rs: which blocks a sync brings in.
use rxiu.Base.{
  ℕ, suc, ◌≡◌, ◌∙◌, ap, refl, inl, inr, Str, str_eq, str_eq_iff, str_eq_refl, true, false, not,
  List, [], ◌∷◌, some, arith, filter, is_nil, All, All-imp, All-filter_split, is_nil-All, unwrap_or,
  find, Bool-cases, Option-cases, position, ◌==◌, ◌&&◌, all,
}
use rxiu.Base.Assoc.{has_key, has_key-insert}
use rxiu.Error.{Result, ok}
use rxiu.External.{Json, Sha256}
use rxiu.Rs.Types.{RsBlockEntry, RsFileEntry, RsMetadata, RsDisk}
use rxiu.Rs.Metadata.{
  upsert_file, set_syncing, load_metadata, save_metadata, mark_syncing, default_metadata,
}
use rxiu.Rs.Blocks.{sha256_bytes, has_block, write_block, verify_and_write_block}
use rxiu.Sync.{entry_members, assigned}
use rxiu.Sync.Daemon.{
  GetBlock, try_cycles, sync_block, sync_blocks, written, fetch_missing, sync_entry,
}
use rxiu.Sync.Daemon.Round.{IsServed, try_cycles-served}

has_block-files :
    {Text : Type 0} (hash : Str) (d d' : RsDisk Text)
    → d.files ≡ d'.files
    → has_block hash d ≡ has_block hash d'
unfolding has_block
has_block-files hash d d' e = ap (has_key hash) e

module _ {Text : Type 0} (sha : Sha256) (get : GetBlock) (peers : ℕ) where
  sync_block-metadata :
      (idx : ℕ) (block : RsBlockEntry) (d : RsDisk Text)
      → (sync_block sha get peers idx block d).1.metadata ≡ d.metadata
  unfolding sync_block verify_and_write_block write_block
  sync_block-metadata idx block d = elim (Option-cases (try_cycles get peers idx block.hash 0 3)) [
    | inl nothing ↦ ground (arith, nothing)
    | inr (content, found) ↦ ground (arith, found)
  ]

  sync_blocks-metadata :
      (blocks : List RsBlockEntry) (idx : ℕ) (d : RsDisk Text)
      → (sync_blocks sha get peers idx blocks d).metadata ≡ d.metadata
  unfolding sync_blocks
  sync_blocks-metadata [] idx d = refl
  sync_blocks-metadata (block ∷ blocks) idx d =
      sync_blocks-metadata blocks (suc idx) (sync_block sha get peers idx block d).1
      ∙ sync_block-metadata idx block d

  sync_block-keeps :
      (idx : ℕ) (block : RsBlockEntry) (hash : Str) (d : RsDisk Text)
      → has_block hash d ≡ true
      → has_block hash (sync_block sha get peers idx block d).1 ≡ true
  unfolding sync_block verify_and_write_block write_block has_block
  sync_block-keeps idx block hash d there =
      elim (Option-cases (try_cycles get peers idx block.hash 0 3)) [
        | inl nothing ↦ ground (arith, nothing)
        | inr (content, found) ↦
            ground (arith, found, has_key-insert block.hash hash content d.files)
      ]

  sync_block-served :
      (idx : ℕ) (block : RsBlockEntry) (d : RsDisk Text)
      → IsServed get peers sha block.hash
      → has_block block.hash (sync_block sha get peers idx block d).1 ≡ true
  unfolding sync_block verify_and_write_block write_block has_block
  sync_block-served idx block d served =
      let (found, tried, hash) = try_cycles-served get peers sha idx block.hash served in
      let some_peer : (peers == 0) ≡ false = ground (arith, served.0.2) in
      ground (
        arith,
        tried,
        some_peer,
        str_eq_iff (sha256_bytes sha found) block.hash,
        hash,
        has_key-insert block.hash block.hash found d.files,
        str_eq_refl block.hash,
      )

  sync_blocks-keeps :
      (blocks : List RsBlockEntry) (idx : ℕ) (hash : Str) (d : RsDisk Text)
      → has_block hash d ≡ true
      → has_block hash (sync_blocks sha get peers idx blocks d) ≡ true
  unfolding sync_blocks
  sync_blocks-keeps [] idx hash d there = there
  sync_blocks-keeps (block ∷ blocks) idx hash d there =
      sync_blocks-keeps blocks (suc idx) hash (sync_block sha get peers idx block d).1
        (sync_block-keeps idx block hash d there)

  sync_blocks-served :
      (blocks : List RsBlockEntry) (idx : ℕ) (d : RsDisk Text)
      → All (λ b. IsServed get peers sha b.hash) blocks
      → All (λ b. has_block b.hash (sync_blocks sha get peers idx blocks d) ≡ true) blocks
  unfolding sync_blocks
  sync_blocks-served [] idx d served = tt
  sync_blocks-served (block ∷ blocks) idx d served =
      let d' = (sync_block sha get peers idx block d).1 in
      (
        sync_blocks-keeps blocks (suc idx) block.hash d' (sync_block-served idx block d served.0),
        sync_blocks-served blocks (suc idx) d' served.1,
      )

module _ {Text : Type 0} (sha : Sha256) (json : Json Text RsMetadata) (get : GetBlock) (peers : ℕ)
    (local_id : Str) (fallback : List Str) (rf : ℕ) where
  written-files :
      (entry : RsFileEntry) (n : ℕ) (d : RsDisk Text) {text : Text}
      → d.metadata ≡ some text
      → let (result, d') = written sha json get peers local_id fallback rf entry n d in
        (result ≡ ok n) × (d'.files ≡ d.files)
  unfolding written upsert_file load_metadata save_metadata
  written-files entry n d there = (ground (arith, there), ground (arith, there))

  set_syncing-files :
      (name : Str) (d : RsDisk Text) {text : Text}
      → d.metadata ≡ some text
      → let (result, d') = set_syncing json name true d in
        (result ≡ ok tt) × (d'.files ≡ d.files) × ((t : Text) × (d'.metadata ≡ some t))
  unfolding set_syncing load_metadata save_metadata
  set_syncing-files name d {text} there =
      let m = unwrap_or (json.from_text text) default_metadata in
      elim (Option-cases (find (λ f. str_eq f.name name) m.files)) [
        | inl missing ↦ (
          ground (arith, there, missing),
          ground (arith, there, missing),
          (text, ground (arith, there, missing)),
        )
        | inr (f, found) ↦
            let m' : RsMetadata = record { files = mark_syncing name true m.files } in
            (
              ground (arith, there, found),
              ground (arith, there, found),
              (json.to_text m', ground (arith, there, found)),
            )
      ]

  -- The blocks that were on disk or are served are there after the fetch.
  fetch_missing-served :
      (entry : RsFileEntry) (owned : List RsBlockEntry) (d : RsDisk Text) {text : Text}
      → d.metadata ≡ some text
      → let missing = filter (λ b. not (has_block b.hash d)) owned in
        All (λ b. IsServed get peers sha b.hash) missing
        → let (result, d') =
            fetch_missing sha json get peers local_id fallback rf entry owned missing d in
          (result ≡ ok 1) × All (λ b. has_block b.hash d' ≡ true) owned
  unfolding fetch_missing
  fetch_missing-served entry owned d there served =
      let missing = filter (λ b. not (has_block b.hash d)) owned in
      let (set, files, (text, there')) = set_syncing-files entry.name d there in
      let d' = (set_syncing json entry.name true d).1 in
      let fetched = sync_blocks sha get peers 0 missing d' in
      let kept = λ (b : RsBlockEntry) (h : not (has_block b.hash d) ≡ false).
        sync_blocks-keeps sha get peers missing 0 b.hash d'
          (has_block-files b.hash d' d files ∙ ground (arith, h)) in
      let all_there =
        All-filter_split (λ b. has_block b.hash fetched ≡ true) (λ b. not (has_block b.hash d))
          owned kept (sync_blocks-served sha get peers missing 0 d' served) in
      let complete = not (is_nil owned) && all (λ b. has_block b.hash fetched) owned in
      let entry' : RsFileEntry = record entry { complete = complete; syncing = false } in
      let (done, same) =
        written-files entry' 1 fetched (sync_blocks-metadata sha get peers missing 0 d' ∙ there') in
      let last = written sha json get peers local_id fallback rf entry' 1 fetched in
      let e : fetch_missing sha json get peers local_id fallback rf entry owned missing d ≡ last =
        rw (set, fetch_missing) in
      (
        ap (λ r. r.0) e ∙ done,
        All-imp
            (λ b h.
              ap (λ r. has_block b.hash r.1) e ∙ has_block-files b.hash last.1 fetched same ∙ h)
            owned all_there,
      )

  -- Let the metadata file be there, and the local node be a member of the file. If of each assigned block
  -- that is not on disk some peer has the content in the first cycle, and no peer sends anything else
  -- under its hash, then the sync of the file succeeds, and all its assigned blocks are on disk.
  pub sync_entry-served :
      (entry : RsFileEntry) (local_index : ℕ) (d : RsDisk Text) {text : Text}
      → d.metadata ≡ some text
      → let members = entry_members entry fallback in
        let owned = assigned sha entry members local_index rf in
        position (λ id. str_eq id local_id) members ≡ some local_index
        → All (λ b. IsServed get peers sha b.hash) (filter (λ b. not (has_block b.hash d)) owned)
        → let (result, d') = sync_entry sha json get peers local_id fallback rf entry d in
          (n : ℕ) × (result ≡ ok n) × All (λ b. has_block b.hash d' ≡ true) owned
  unfolding sync_entry
  sync_entry-served entry local_index d there member served =
      let owned = assigned sha entry (entry_members entry fallback) local_index rf in
      let missing = filter (λ b. not (has_block b.hash d)) owned in
      let result = sync_entry sha json get peers local_id fallback rf entry d in
      let on_disk =
        λ (end : Result ℕ × RsDisk Text) (e : result ≡ end) (same : end.1.files ≡ d.files)
            (full : is_nil missing ≡ true).
          All-imp
            (λ b h. ap (λ r. has_block b.hash r.1) e ∙ has_block-files b.hash end.1 d same ∙ h)
            owned
            (All-filter_split (λ b. has_block b.hash d ≡ true) (λ b. not (has_block b.hash d)) owned
              (λ b h. ground (arith, h))
              (is_nil-All (λ b. has_block b.hash d ≡ true) missing full)) in
      elim (Bool-cases (is_nil missing)) [
        | inr lacking ↦
            let fetch =
              fetch_missing sha json get peers local_id fallback rf entry owned missing d in
            let e : result ≡ fetch = rw (member, lacking, sync_entry) in
            let (done, there') = fetch_missing-served entry owned d there served in
            (
              1,
              ap (λ r. r.0) e ∙ done,
              All-imp (λ b h. ap (λ r. has_block b.hash r.1) e ∙ h) owned there',
            )
        | inl full ↦ elim (Bool-cases (not (is_nil owned) && not entry.complete)) [
          | inl stale ↦
              let entry' : RsFileEntry = record entry { complete = true; syncing = false } in
              let end = written sha json get peers local_id fallback rf entry' 1 d in
              let (done, same) = written-files entry' 1 d there in
              let e : result ≡ end = rw (member, full, stale, sync_entry) in
              (1, ap (λ r. r.0) e ∙ done, on_disk end e same full)
          | inr fresh ↦
              let e : result ≡ (ok 0, d) = rw (member, full, fresh, sync_entry) in
              (0, ap (λ r. r.0) e, on_disk (ok 0, d) e refl full)
        ]
      ]
