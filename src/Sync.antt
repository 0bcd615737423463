-- ===== src/Sync.antt =====
-- rs/sync.rs: which members of a file own which of its blocks (rendezvous hashing), whether a node
-- lacks blocks that it owns, and the pruning of the blocks that it does not own.
pub mod Owners
pub mod Assignment
pub mod Prune
pub mod Completion
pub mod Daemon
mod Examples
use rxiu.Base.{
  ℕ, suc, ◌+◌, Str, Bytes, str_eq, bytes_gt, bytes_le, Bool, true, false, List, [], ◌∷◌, ◌++◌, map,
  Option, none, some, filter, position, any, all, not, ◌&&◌, ◌||◌, if◌then◌else◌, take, is_nil,
  ◌==◌,
}
use rxiu.Base.Assoc.{erase, contains}
use rxiu.Base.Sort.{sort_by}
use rxiu.Error.{Result, ok, err, ◌>>=◌}
use rxiu.External.{Json, Sha256}
use rxiu.Rs.Types.{RsBlockEntry, RsFileEntry, RsMetadata, RsDisk, is_component}
use rxiu.Rs.Metadata.{list_files, upsert_file}
use rxiu.Rs.Blocks.{has_block, local_block_set}

unfoldable pub entry_members : RsFileEntry → List Str → List Str
unfolding sort_by
entry_members entry fallback =
    if not (is_nil entry.members) then sort_by bytes_le entry.members else fallback

-- `b.1.cmp(&a.1)`: `a` stands before `b` unless `b` has the greater score.
abbrev pub before : ℕ × Bytes → ℕ × Bytes → Bool
before a b = bytes_le b.1 a.1

module _ (sha : Sha256) where
  -- The digest of a member's name and the block's hash.
  unfoldable pub score : RsBlockEntry → Str → Bytes
  score block member = sha.digest (member ++ block.hash)

  -- `best_idx` and `best_score`, which are set together.
  abbrev pub is_better : Bytes → Option (ℕ × Bytes) → Bool
  is_better s none = true
  is_better s (some (i, best_score)) = bytes_gt s best_score

  unfoldable pub hrw_best : RsBlockEntry → ℕ → List Str → Option (ℕ × Bytes) → Option (ℕ × Bytes)
  unfolding score
  hrw_best block idx [] best = best
  hrw_best block idx (member ∷ members) best =
      hrw_best block (suc idx) members
        (if is_better (score block member) best then some (idx, score block member) else best)

  -- The loop does nothing on an empty list, for which the source returns early.
  unfoldable pub hrw_owner_index : RsBlockEntry → List Str → Option ℕ
  unfolding hrw_best
  hrw_owner_index block members =
      if is_nil members
      then none
      else elim (hrw_best block 0 members none) [ none ↦ none | some (idx, s) ↦ some idx ]

  -- `enumerate().map(…)`
  unfoldable pub scored : RsBlockEntry → ℕ → List Str → List (ℕ × Bytes)
  unfolding score
  scored block idx [] = []
  scored block idx (member ∷ members) = (idx, score block member) ∷ scored block (suc idx) members

  unfoldable pub hrw_top_n_owners : RsBlockEntry → List Str → ℕ → List ℕ
  unfolding scored sort_by
  hrw_top_n_owners block members n =
      if is_nil members || n == 0
      then []
      else map (λ p. p.0) (take n (sort_by before (scored block 0 members)))

  unfoldable pub is_block_assigned_to : RsBlockEntry → List Str → ℕ → ℕ → Bool
  unfolding hrw_top_n_owners
  is_block_assigned_to block members local_index replication_factor =
      any (λ i. i == local_index) (hrw_top_n_owners block members replication_factor)

  -- The blocks of the file that are assigned to the local node.
  unfoldable pub assigned : RsFileEntry → List Str → ℕ → ℕ → List RsBlockEntry
  unfolding is_block_assigned_to
  assigned file members local_index rf =
      filter (λ b. is_block_assigned_to b members local_index rf) file.blocks

  module _ (local_id : Str) (fallback : List Str) (rf : ℕ) where
    -- The body of the loop of `needs_sync`.
    unfoldable pub is_missing_owned : {Text : Type 0} → RsDisk Text → RsFileEntry → Bool
    unfolding entry_members assigned has_block
    is_missing_owned d file =
        let members = entry_members file fallback in
        if is_nil members then false else elim (position (λ id. str_eq id local_id) members) [
          | none ↦ false
          | some local_index ↦
              any (λ b. not (has_block b.hash d)) (assigned file members local_index rf)
        ]

    -- The set built by the first loop of `prune_unowned_blocks`, as a list.
    unfoldable pub owned_hashes : List RsFileEntry → List Str
    unfolding entry_members assigned
    owned_hashes [] = []
    owned_hashes (file ∷ files) =
        let members = entry_members file fallback in
        let rest = owned_hashes files in
        elim (position (λ id. str_eq id local_id) members) [
          | none ↦ rest
          | some local_index ↦ map (λ b. b.hash) (assigned file members local_index rf) ++ rest
        ]

    -- What the last loop writes for a file.
    unfoldable pub pruned_entry : List Str → RsFileEntry → RsFileEntry
    unfolding entry_members assigned
    pruned_entry owned file =
        let members = entry_members file fallback in
        elim (position (λ id. str_eq id local_id) members) [
          | none ↦ record file { complete = false; syncing = false }
          | some local_index ↦
              let complete =
                all (λ b. contains owned b.hash) (assigned file members local_index rf) in
              record file { complete = complete && not (is_nil file.blocks); syncing = false }
        ]

    module _ {Text : Type 0} (json : Json Text RsMetadata) where
      unfoldable pub needs_sync : RsDisk Text → Result Bool
      unfolding is_missing_owned list_files
      needs_sync d = list_files json d >>= λ files. ok (any (is_missing_owned d) files)

      -- The last loop: the first error ends it.
      unfoldable pub prune_entries :
          List Str → List RsFileEntry → RsDisk Text → Result (Unit {0}) × RsDisk Text
      unfolding pruned_entry upsert_file
      prune_entries owned [] d = (ok tt, d)
      prune_entries owned (file ∷ files) d =
          let (result, d') = upsert_file json (pruned_entry owned file) d in
          elim result [ err e ↦ (err e, d') | ok _ ↦ prune_entries owned files d' ]

-- The second loop: each name in the blocks directory that is not owned is deleted.
unfoldable pub erase_unowned : List Str → List Str → List (Str × Bytes) → List (Str × Bytes)
erase_unowned owned [] files = files
erase_unowned owned (name ∷ names) files =
    erase_unowned owned names (if contains owned name then files else erase name files)

unfoldable pub prune_unowned_blocks :
    {Text : Type 0}
    → Sha256
    → Json Text RsMetadata
    → Str
    → List Str
    → ℕ
    → RsDisk Text
    → Result (Unit {0}) × RsDisk Text
unfolding owned_hashes prune_entries erase_unowned list_files local_block_set
prune_unowned_blocks sha json local_id fallback rf d = elim (list_files json d) [
  | err e ↦ (err e, d)
  | ok files ↦
      let owned = owned_hashes sha local_id fallback rf files in
      prune_entries sha local_id fallback rf json owned files
        (record d { files = erase_unowned owned (local_block_set d) d.files })
]
