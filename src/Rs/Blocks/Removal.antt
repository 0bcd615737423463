-- ===== src/Rs/Blocks/Removal.antt =====
-- rs/mod.rs: what `remove_file` deletes from the disk, and what it leaves.
use rxiu.Base.{
  ◌≡◌, refl, ap, subst, Str, Bytes, str_eq, str_eq_iff, str_eq_refl, Bool, true, false, List, [],
  ◌∷◌, ◌++◌, map, none, some, filter, find, not, if◌then◌else◌, arith, inl, inr, ◌≢◌, Option-cases,
  Bool-cases, All, All-imp, All-trivial, ◌&&◌,
}
use rxiu.Base.Assoc.{lookup, erase, contains, lookup-erase, contains-append, All-contains}
use rxiu.Base.Sort.{sort_by, All-sort_by}
use rxiu.Error.{ok, Result-cases}
use rxiu.External.{Json, Sha256, IsLossless}
use rxiu.Rs.Types.{RsBlockEntry, RsFileEntry, RsMetadata, RsDisk, is_plain, HasPlainBlocks}
use rxiu.Rs.Metadata.{upsert, load_metadata, get_file}
use rxiu.Rs.Metadata.Catalog.{named, find-retain, find-upsert}
use rxiu.Rs.Blocks.{
  referenced, erase_unreferenced, cleanup_blocks, remove_file, apply_remote_meta, remote_entry,
}
use rxiu.Rs.History.Names.{catalog}
use rxiu.Rs.Transfer.{write_blocks, check_output, by_offset, reconstruct_to_path}

abbrev pub hashes : List RsBlockEntry → List Str
hashes = map (λ b. b.hash)

-- Whether the loop of `cleanup_blocks` deletes the path.
abbrev pub is_dropped : List Str → List RsBlockEntry → Str → Bool
is_dropped kept removed p = contains (hashes removed) p && not (contains kept p)

lookup-erase_unreferenced :
    (kept : List Str) (removed : List RsBlockEntry) (files : List (Str × Bytes)) (p : Str)
    → lookup p (erase_unreferenced kept removed files)
      ≡ (if is_dropped kept removed p then none else lookup p files)
unfolding erase_unreferenced contains
lookup-erase_unreferenced kept [] files p = refl
lookup-erase_unreferenced kept (b ∷ bs) files p = ground (
  arith,
  lookup-erase_unreferenced kept bs files p,
  lookup-erase_unreferenced kept bs (erase b.hash files) p,
  lookup-erase b.hash p files,
  str_eq_iff b.hash p,
)

-- The entries that `remove_file` leaves in the metadata.
abbrev pub remaining : Str → RsMetadata → List RsFileEntry
remaining name m = filter (λ f. not (str_eq f.name name)) m.files

-- The hashes of an entry that a search finds are referenced.
find-referenced :
    (n : Str) (fs : List RsFileEntry) {e : RsFileEntry}
    → find (named n) fs ≡ some e
    → All (λ b. contains (referenced fs) b.hash ≡ true) e.blocks
unfolding referenced
find-referenced n [] found = cc
find-referenced n (f ∷ fs) {e = e} found = elim (Bool-cases (named n f)) [
  | inl hit ↦
      let same : f ≡ e = ground arith in
      subst
        (λ (g : RsFileEntry).
          All (λ b. contains (hashes f.blocks ++ referenced fs) b.hash ≡ true) g.blocks)
        same (here f.blocks (All-contains (hashes f.blocks)))
  | inr miss ↦
      All-imp (λ b h. ground (arith, contains-append (hashes f.blocks) (referenced fs) b.hash, h))
        e.blocks (find-referenced n fs {e = e} (ground arith))
]
  where
    here :
        (bs : List RsBlockEntry)
        → All (λ x. contains (hashes f.blocks) x ≡ true) (hashes bs)
        → All (λ b. contains (hashes f.blocks ++ referenced fs) b.hash ≡ true) bs
    here [] h = tt
    here (b ∷ bs) h =
        (rw (contains-append (hashes f.blocks) (referenced fs) b.hash, h.0), here bs h.1)

module _ {Text : Type 0} where
  -- `write_blocks` reads only the files of its blocks.
  write_blocks-agree :
      (bs : List RsBlockEntry) (out : Bytes) (d d' : RsDisk Text)
      → All (λ b. lookup b.hash d'.files ≡ lookup b.hash d.files) bs
      → write_blocks bs out d' ≡ write_blocks bs out d
  unfolding write_blocks
  write_blocks-agree [] out d d' h = refl
  write_blocks-agree (b ∷ bs) out d d' h = elim (Option-cases (lookup b.hash d.files)) [
    | inl missing ↦ ground (arith, h.0, missing)
    | inr (content, there) ↦
        ground (arith, h.0, there, write_blocks-agree bs (out ++ content) d d' h.1)
  ]

  reconstruct-agree :
      (sha : Sha256) (e : RsFileEntry) (d d' : RsDisk Text)
      → All (λ b. lookup b.hash d'.files ≡ lookup b.hash d.files) e.blocks
      → reconstruct_to_path sha e d' ≡ reconstruct_to_path sha e d
  unfolding reconstruct_to_path
  reconstruct-agree sha e d d' h = ap (check_output sha e) (
      write_blocks-agree (sort_by by_offset e.blocks) [] d d'
        (All-sort_by by_offset (λ b. lookup b.hash d'.files ≡ lookup b.hash d.files) e.blocks h))

module _ {Text : Type 0} (json : Json Text RsMetadata) where
  -- By its key.
  lookup-remove_key :
      (name p : Str) (d : RsDisk Text) (m : RsMetadata) (entry : RsFileEntry)
      → load_metadata json d ≡ ok m
      → find (named name) m.files ≡ some entry
      → ((remove_file json name d).0 ≡ ok tt)
        × (lookup p (remove_file json name d).1.files ≡ (
            if is_dropped (referenced (remaining name m)) entry.blocks p
            then none
            else lookup p d.files))
  unfolding remove_file cleanup_blocks
  lookup-remove_key name p d m entry loaded found =
      ground
        (arith, lookup-erase_unreferenced (referenced (remaining name m)) entry.blocks d.files p)

  -- Where the metadata reads as `m`, with blocks of plain names only, and has an entry of the name, `remove_file`
  -- succeeds; a file of a plain name is deleted exactly if the entry lists it as a block and no entry of another name
  -- does, and keeps its content otherwise.
  pub lookup-remove_file :
      (name p : Str) (d : RsDisk Text) (m : RsMetadata) (entry : RsFileEntry)
      → load_metadata json d ≡ ok m
      → All HasPlainBlocks m.files
      → is_plain p ≡ true
      → find (named name) m.files ≡ some entry
      → ((remove_file json name d).0 ≡ ok tt)
        × (lookup p (remove_file json name d).1.files ≡ (
            if is_dropped (referenced (remaining name m)) entry.blocks p
            then none
            else lookup p d.files))
  lookup-remove_file name p d m entry loaded plain plain' found =
      lookup-remove_key name p d m entry loaded found

  -- Where the metadata has blocks of plain names only, removing a file leaves every file of another name as it was: what
  -- `reconstruct_to_path` gives of it, and writes, is the same before and after.
  pub reconstruct-remove_file :
      (sha : Sha256) (name n : Str) (d : RsDisk Text) (e : RsFileEntry)
      → All HasPlainBlocks (catalog json d)
      → get_file json n d ≡ ok (some e)
      → n ≢ name
      → reconstruct_to_path sha e (remove_file json name d).1 ≡ reconstruct_to_path sha e d
  unfolding get_file remove_file
  reconstruct-remove_file sha name n d e plain got other =
      reconstruct-agree sha e d (remove_file json name d).1
        (elim (Result-cases (load_metadata json d)) [
          | inl (m, loaded) ↦ elim (Option-cases (find (named name) m.files)) [
            | inl nobody ↦ All-trivial (λ b. remove_nobody m b.hash loaded nobody) e.blocks
            | inr (entry, found) ↦
                All-imp
                  (λ b h.
                    ground (arith, (lookup-remove_key name b.hash d m entry loaded found).1, h))
                  e.blocks (find-referenced n (remaining name m) {e = e} (left m loaded))
          ]
          | inr (failed, loaded) ↦ absurd (ground (arith, loaded, got))
        ])
    where
      left :
          (m : RsMetadata)
          → load_metadata json d ≡ ok m
          → find (named n) (remaining name m) ≡ some e
      left m loaded = ground (arith, find-retain n name m.files, str_eq_iff name n)

      remove_nobody :
          (m : RsMetadata) (p : Str)
          → load_metadata json d ≡ ok m
          → find (named name) m.files ≡ none
          → lookup p (remove_file json name d).1.files ≡ lookup p d.files
      remove_nobody m p loaded nobody = ground arith

filter-upsert :
    (e : RsFileEntry) (fs : List RsFileEntry)
    → filter (λ f. not (str_eq f.name e.name)) (upsert e fs)
      ≡ filter (λ f. not (str_eq f.name e.name)) fs
unfolding upsert
filter-upsert e [] = ground (arith, str_eq_refl e.name)
filter-upsert e (f ∷ fs) = ground (arith, filter-upsert e fs, str_eq_refl e.name)

module _ {Text : Type 0} (json : Json Text RsMetadata) (lossless : IsLossless json) where
  load-apply_remote_meta :
      (e : RsFileEntry) (d : RsDisk Text) (m : RsMetadata)
      → load_metadata json d ≡ ok m
      → load_metadata json (apply_remote_meta json e d).1
        ≡ ok (record { files = upsert (remote_entry e d) m.files })
  unfolding apply_remote_meta
  load-apply_remote_meta e d m loaded = elim (Option-cases d.metadata) [
    | inl missing ↦ absurd (ground (arith, missing, loaded))
    | inr (text, there) ↦
        ground
          (arith, there, loaded, lossless (record { files = upsert (remote_entry e d) m.files }))
  ]

  -- Let the metadata be readable, and what is written as JSON parse back. A peer that announces an
  -- entry and then has it deleted deletes the file at any path `p` that the entry lists as a block and
  -- that no entry of another name lists: `p` need not be the name of a block, so it can lead out of
  -- the blocks directory.
  pub announce_deletes :
      (e : RsFileEntry) (p : Str) (d : RsDisk Text) (m : RsMetadata)
      → load_metadata json d ≡ ok m
      → contains (hashes e.blocks) p ≡ true
      → contains (referenced (remaining e.name m)) p ≡ false
      → lookup p (remove_file json e.name (apply_remote_meta json e d).1).1.files ≡ none
  unfolding remote_entry
  announce_deletes e p d m loaded listed free =
      let fs = upsert (remote_entry e d) m.files in
      let removal =
        lookup-remove_key json e.name p (apply_remote_meta json e d).1 (record { files = fs })
          (remote_entry e d) (load-apply_remote_meta e d m loaded)
          (ground (arith, find-upsert e.name (remote_entry e d) m.files, str_eq_refl e.name)) in
      ground (arith, removal.1, filter-upsert (remote_entry e d) m.files, listed, free)
