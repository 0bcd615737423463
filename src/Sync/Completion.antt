-- ===== src/Sync/Completion.antt =====
-- rs/sync.rs: the flags that `prune_unowned_blocks` writes.
use rxiu.Base.{
  ℕ, ◌≡◌, refl, sym, ap, ◌∙◌, subst, Str, str_eq, str_eq_iff, Bool, true, false, List, [], ◌∷◌,
  ◌++◌, map, Option, some, position, any, all, not, ◌&&◌, ◌||◌, is_nil, arith, inl, inr,
  Option-cases, is_some, All, All-imp, All-trivial, map_congr, append_assoc,
}
use rxiu.Base.Assoc.{contains, contains-append, All-contains}
use rxiu.Error.{ok}
use rxiu.External.{Json, Sha256, IsLossless}
use rxiu.Rs.Types.{RsBlockEntry, RsFileEntry, RsMetadata, RsDisk}
use rxiu.Rs.Metadata.{upsert, load_metadata, list_files, upsert_file}
use rxiu.Rs.Metadata.Catalog.{named, UniqueNames, load-save}
use rxiu.Rs.Blocks.{local_block_set}
use rxiu.Sync.{
  entry_members, assigned, owned_hashes, pruned_entry, prune_entries, erase_unowned,
  prune_unowned_blocks,
}

-- The index of the local node among the members of a file.
abbrev pub local_index : Str → List Str → RsFileEntry → Option ℕ
local_index local_id fallback file =
    position (λ id. str_eq id local_id) (entry_members file fallback)

-- An entry whose flag says that the local node is a member and the file has blocks.
abbrev pub flagged : Str → List Str → RsFileEntry → RsFileEntry
flagged local_id fallback file = record file {
  complete = is_some (local_index local_id fallback file) && not (is_nil file.blocks);
  syncing = false;
}

all-contains :
    (owned : List Str) (bs : List RsBlockEntry)
    → All (λ x. contains owned x ≡ true) (map (λ b. b.hash) bs)
    → all (λ b. contains owned b.hash) bs ≡ true
all-contains owned [] h = refl
all-contains owned (b ∷ bs) h = ground (arith, h.0, all-contains owned bs h.1)

module _ (sha : Sha256) (local_id : Str) (fallback : List Str) (rf : ℕ) where
  -- The test of the last loop on the set of the first.
  abbrev Covered : List Str → RsFileEntry → Type 0
  Covered owned file =
      (i : ℕ)
      → local_index local_id fallback file ≡ some i
      → All (λ x. contains owned x ≡ true)
          (map (λ b. b.hash) (assigned sha file (entry_members file fallback) i rf))

  Covered-append :
      (xs owned : List Str) (files : List RsFileEntry)
      → All (Covered owned) files
      → All (Covered (xs ++ owned)) files
  Covered-append xs owned files =
      All-imp
        (λ f covered i at.
          All-imp (λ x h. ground (arith, contains-append xs owned x, h)) _ (covered i at))
        files

  owned_hashes-Covered :
      (files : List RsFileEntry) → All (Covered (owned_hashes sha local_id fallback rf files)) files
  owned_hashes-Covered [] = tt
  owned_hashes-Covered (f ∷ fs) = elim (Option-cases (local_index local_id fallback f)) [
    | inl absent ↦
        let same : owned_hashes sha local_id fallback rf (f ∷ fs)
            ≡ owned_hashes sha local_id fallback rf fs =
          unfold owned_hashes in ground (arith, absent) in
        subst (λ owned. All (Covered owned) (f ∷ fs)) (sym same)
          (λ i at. absurd (ground (arith, absent, at)), owned_hashes-Covered fs)
    | inr (i, at) ↦
        let mine = map (λ b. b.hash) (assigned sha f (entry_members f fallback) i rf) in
        let rest = owned_hashes sha local_id fallback rf fs in
        let same : owned_hashes sha local_id fallback rf (f ∷ fs) ≡ mine ++ rest =
          unfold owned_hashes in ground (arith, at) in
        subst (λ owned. All (Covered owned) (f ∷ fs)) (sym same)
          (
            λ i' at'.
                let index : i ≡ i' = ground (arith, at, at') in
                subst
                  (λ k.
                    All (λ x. contains (mine ++ rest) x ≡ true)
                      (map (λ b. b.hash) (assigned sha f (entry_members f fallback) k rf)))
                  index
                  (All-imp (λ x h. ground (arith, contains-append mine rest x, h)) mine
                    (All-contains mine)),
            Covered-append mine rest fs (owned_hashes-Covered fs),
          )
  ]

  pruned_entry-flagged :
      (owned : List Str) (f : RsFileEntry)
      → Covered owned f
      → pruned_entry sha local_id fallback rf owned f ≡ flagged local_id fallback f
  unfolding pruned_entry
  pruned_entry-flagged owned f covered = elim (Option-cases (local_index local_id fallback f)) [
    | inl absent ↦ ground (arith, absent)
    | inr (i, at) ↦ ground (
      arith,
      at,
      all-contains owned (assigned sha f (entry_members f fallback) i rf) (covered i at),
    )
  ]

-- `upsert` of an entry at the place of its name.
upsert-middle :
    (e f : RsFileEntry) (front back : List RsFileEntry)
    → any (named e.name) front ≡ false
    → f.name ≡ e.name
    → upsert e (front ++ f ∷ back) ≡ front ++ e ∷ back
unfolding upsert
upsert-middle e f [] back fresh same = ground (arith, str_eq_iff f.name e.name)
upsert-middle e f (g ∷ front) back fresh same =
    ground (arith, upsert-middle e f front back, str_eq_iff f.name e.name)

any-append {ℓ} :
    {A : Type ℓ} (p : A → Bool) (xs ys : List A) → any p (xs ++ ys) ≡ (any p xs || any p ys)
any-append p [] ys = refl
any-append p (x ∷ xs) ys = ground (arith, any-append p xs ys)

-- No entry of the list has a name that an entry of the front has.
abbrev Fresh : List RsFileEntry → List RsFileEntry → Type 0
Fresh front = All (λ f. any (named f.name) front ≡ false)

Fresh-snoc :
    (front rest : List RsFileEntry) (f g : RsFileEntry)
    → g.name ≡ f.name
    → Fresh front rest
    → any (named f.name) rest ≡ false
    → Fresh (front ++ g ∷ []) rest
Fresh-snoc front [] f g same h k = tt
Fresh-snoc front (x ∷ rest) f g same h k = (
  ground (
    arith,
    any-append (named x.name) front (g ∷ []),
    str_eq_iff g.name x.name,
    str_eq_iff x.name f.name,
    h.0,
    k,
  ),
  Fresh-snoc front rest f g same h.1 (ground (arith, k)),
)

module _ {Text : Type 0} (sha : Sha256) (json : Json Text RsMetadata) (lossless : IsLossless json)
    (local_id : Str) (fallback : List Str) (rf : ℕ) where
  pruned_entry-name :
      (owned : List Str) (f : RsFileEntry)
      → (pruned_entry sha local_id fallback rf owned f).name ≡ f.name
  unfolding pruned_entry
  pruned_entry-name owned f = ground arith

  upsert_file-loaded :
      (e : RsFileEntry) (d : RsDisk Text) (fs : List RsFileEntry)
      → load_metadata json d ≡ ok (record { files = fs })
      → ((upsert_file json e d).0 ≡ ok tt)
        × (load_metadata json (upsert_file json e d).1 ≡ ok (record { files = upsert e fs }))
  unfolding upsert_file
  upsert_file-loaded e d fs loaded = (
    ground (arith, loaded),
    rw (loaded, upsert_file) (load-save json lossless (record { files = upsert e fs }) d),
  )

  prune_entries-loaded :
      (owned : List Str) (front rest : List RsFileEntry) (d : RsDisk Text)
      → load_metadata json d ≡ ok (record { files = front ++ rest })
      → Fresh front rest
      → UniqueNames rest
      → let g = pruned_entry sha local_id fallback rf owned in
        ((prune_entries sha local_id fallback rf json owned rest d).0 ≡ ok tt)
        × (load_metadata json (prune_entries sha local_id fallback rf json owned rest d).1
            ≡ ok (record { files = front ++ map g rest }))
  unfolding prune_entries
  prune_entries-loaded owned front [] d loaded fresh unique = (refl, loaded)
  prune_entries-loaded owned front (f ∷ fs) d loaded fresh unique =
      let g = pruned_entry sha local_id fallback rf owned f in
      let d' = (upsert_file json g d).1 in
      let name = pruned_entry-name owned f in
      let (done, loaded') = upsert_file-loaded g d (front ++ f ∷ fs) loaded in
      let placed : upsert g (front ++ f ∷ fs) ≡ (front ++ g ∷ []) ++ fs =
        upsert-middle g f front fs (subst (λ n. any (named n) front ≡ false) (sym name) fresh.0)
          (sym name)
        ∙ sym (append_assoc front (g ∷ []) fs) in
      let here : load_metadata json d' ≡ ok (record { files = (front ++ g ∷ []) ++ fs }) =
        subst (λ l. load_metadata json d' ≡ ok (record { files = l })) placed loaded' in
      let (rest_done, rest_loaded) =
        prune_entries-loaded owned (front ++ g ∷ []) fs d' here
          (Fresh-snoc front fs f g name fresh.1 unique.0) unique.1 in
      let step : prune_entries sha local_id fallback rf json owned (f ∷ fs) d
          ≡ prune_entries sha local_id fallback rf json owned fs d' =
        unfold prune_entries in ground (arith, done) in
      (
        ap (λ r. r.0) step ∙ rest_done,
        ap (λ r. load_metadata json r.1) step
            ∙ rest_loaded
            ∙ ap (λ l. ok (record { files = l }))
                (append_assoc front (g ∷ [])
                  (map (pruned_entry sha local_id fallback rf owned) fs)),
      )

  -- Let what is written as JSON parse back, and the metadata be readable, with no two entries of one
  -- name. Then pruning succeeds, and an entry is complete afterwards exactly if the local node is one
  -- of its members and it lists a block; no other field but `syncing`, which is cleared, changes. This
  -- holds whatever blocks are on disk: an entry none of whose blocks is there is marked complete.
  pub prune_unowned_blocks-flags :
      (d : RsDisk Text) (files : List RsFileEntry)
      → load_metadata json d ≡ ok (record { files = files })
      → UniqueNames files
      → ((prune_unowned_blocks sha json local_id fallback rf d).0 ≡ ok tt)
        × (load_metadata json (prune_unowned_blocks sha json local_id fallback rf d).1
            ≡ ok (record { files = map (flagged local_id fallback) files }))
  prune_unowned_blocks-flags d files loaded unique =
      let owned = owned_hashes sha local_id fallback rf files in
      let d' : RsDisk Text = record d { files = erase_unowned owned (local_block_set d) d.files } in
      let listed : list_files json d ≡ ok files = unfold list_files in ground (arith, loaded) in
      let unfolded : prune_unowned_blocks sha json local_id fallback rf d
          ≡ prune_entries sha local_id fallback rf json owned files d' =
        unfold prune_unowned_blocks in ground (arith, listed) in
      let loaded' : load_metadata json d' ≡ ok (record { files = files }) =
        unfold load_metadata in ground (arith, loaded) in
      let (done, written) =
        prune_entries-loaded owned [] files d' loaded' (All-trivial (λ f. refl) files) unique in
      let flags =
        map_congr (pruned_entry sha local_id fallback rf owned) (flagged local_id fallback) files (
          All-imp (λ f covered. pruned_entry-flagged sha local_id fallback rf owned f covered) files
            (owned_hashes-Covered sha local_id fallback rf files)) in
      (
        ap (λ r. r.0) unfolded ∙ done,
        ap (λ r. load_metadata json r.1) unfolded
            ∙ written
            ∙ ap (λ l. ok (record { files = l })) flags,
      )
