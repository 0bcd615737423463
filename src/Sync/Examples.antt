-- ===== src/Sync/Examples.antt =====
-- Runs of the assignment of blocks and of the sync, and their theorems at concrete data.
use rxiu.Base.{
  ℕ, ◌≡◌, ◌↔◌, refl, Str, codes, str_eq, bytes_cmp, bytes_le, true, false, not, ◌&&◌, List, [], ◌∷◌,
  map, none, some, arith, if◌then◌else◌, All, All-trivial, position, ◌==◌,
}
use rxiu.Base.Assoc.{lookup, contains}
use rxiu.Base.Sort.{insert_sorted, sort_by}
use rxiu.Error.{ok, err, cancelled}
use rxiu.Config.{default}
use rxiu.Rs.Types.{RsBlockEntry, RsDisk, is_component}
use rxiu.Rs.Metadata.{load_metadata, list_files}
use rxiu.Rs.Metadata.Catalog.{UniqueNames}
use rxiu.Rs.Blocks.{sha256_bytes, has_block}
use rxiu.Sync.{
  entry_members, score, scored, hrw_top_n_owners, is_block_assigned_to, assigned, owned_hashes,
  prune_unowned_blocks,
}
use rxiu.Sync.Assignment.{assigned_scores}
use rxiu.Sync.Prune.{lookup-prune_unowned_blocks}
use rxiu.Sync.Completion.{flagged, prune_unowned_blocks-flags}
use rxiu.Sync.Daemon.{RsSyncState, GetBlock, sync_entry, run_sync_if_needed}
use rxiu.Sync.Daemon.Round.{IsServed}
use rxiu.Sync.Daemon.Fetch.{sync_entry-served}
use rxiu.Sync.Daemon.Stuck.{run_sync_if_needed-in_progress}
use rxiu.Samples.{
  SampleText, identity_sha, rs_json, block, file_a, both_files, full_disk, bare_disk,
}

abbrev nodes : List Str
nodes = codes "n1" ∷ codes "n2" ∷ codes "n3" ∷ []

abbrev first_block : RsBlockEntry
first_block = block (1 ∷ 2 ∷ []) 0

-- The scores grow with the names, so that the last two own the block.
top_two : hrw_top_n_owners identity_sha first_block nodes 2 ≡ 2 ∷ 1 ∷ []
unfolding hrw_top_n_owners scored score sort_by insert_sorted bytes_cmp
top_two = refl

owned_by_n3 : is_block_assigned_to identity_sha first_block nodes 2 1 ≡ true
unfolding is_block_assigned_to hrw_top_n_owners scored score sort_by insert_sorted bytes_cmp
owned_by_n3 = refl

not_owned_by_n1 : is_block_assigned_to identity_sha first_block nodes 0 1 ≡ false
unfolding is_block_assigned_to hrw_top_n_owners scored score sort_by insert_sorted bytes_cmp
not_owned_by_n1 = refl

assigned_scores_example :
    bytes_le
      (score identity_sha first_block (codes "n1"))
      (score identity_sha first_block (codes "n3"))
    ≡ true
assigned_scores_example =
    assigned_scores identity_sha first_block nodes 2 0 1 (codes "n3") (codes "n1") refl refl
      owned_by_n3 not_owned_by_n1

full_lists : list_files rs_json full_disk ≡ ok both_files.files
unfolding list_files load_metadata
full_lists = refl

lookup-prune_unowned_blocks_example :
    lookup
      (3 ∷ 4 ∷ [])
      (prune_unowned_blocks identity_sha rs_json (codes "n1") nodes 1 full_disk).1.files
    ≡ (if is_component (3 ∷ 4 ∷ [])
          && not (
              contains
                (owned_hashes identity_sha (codes "n1") nodes 1 both_files.files)
                (3 ∷ 4 ∷ []))
        then none
        else lookup (3 ∷ 4 ∷ []) full_disk.files)
lookup-prune_unowned_blocks_example =
    lookup-prune_unowned_blocks identity_sha rs_json (codes "n1") nodes 1 full_disk both_files.files
      (3 ∷ 4 ∷ []) full_lists

bare_loads : load_metadata rs_json bare_disk ≡ ok both_files
unfolding load_metadata
bare_loads = refl

both_unique : UniqueNames both_files.files
unfolding str_eq
both_unique = (refl, (refl, tt))

-- No block is on disk.
prune_unowned_blocks-flags_example :
    ((prune_unowned_blocks identity_sha rs_json (codes "n2") nodes 1 bare_disk).0 ≡ ok tt)
    × (load_metadata rs_json
          (prune_unowned_blocks identity_sha rs_json (codes "n2") nodes 1 bare_disk).1
        ≡ ok (record { files = map (flagged (codes "n2") nodes) both_files.files }))
prune_unowned_blocks-flags_example =
    prune_unowned_blocks-flags identity_sha rs_json (λ m. refl) (codes "n2") nodes 1 bare_disk
      both_files.files bare_loads both_unique

-- Two peers, of which the second serves every block; the first gives nothing.
abbrev second_serves : GetBlock
second_serves p cycle hash = if p == 1 then ok hash else err cancelled

member_n2 : position (λ id. str_eq id (codes "n2")) (entry_members file_a nodes) ≡ some 1
unfolding entry_members sort_by insert_sorted bytes_cmp str_eq
member_n2 = refl

served : (hash : Str) → IsServed second_serves 2 identity_sha hash
unfolding sha256_bytes
served hash = ((1, hash, omega arith, refl), λ p cycle content e. ground (arith, e))

sync_entry-served_example :
    (n : ℕ) × ((sync_entry identity_sha rs_json second_serves 2
        (codes "n2")
        nodes
        2
        file_a
        bare_disk).0
      ≡ ok n)
    × All
        (λ b.
          has_block b.hash
            (sync_entry identity_sha rs_json second_serves 2
              (codes "n2")
              nodes
              2
              file_a
              bare_disk).1
          ≡ true)
        (assigned identity_sha file_a (entry_members file_a nodes) 1 2)
sync_entry-served_example =
    sync_entry-served identity_sha rs_json second_serves 2 (codes "n2") nodes 2 file_a 1 bare_disk
      refl member_n2 (All-trivial (λ b. served b.hash) _)

abbrev idle : RsSyncState
idle = record { in_progress = false; last_updated_files = 0; last_error = none; config = default }

abbrev busy : RsSyncState
busy = record { in_progress = true; last_updated_files = 0; last_error = none; config = default }

-- The metadata file is gone.
abbrev lost_disk : RsDisk SampleText
lost_disk = record { metadata = none; files = [] }

run_sync_if_needed-in_progress_example :
    (((run_sync_if_needed identity_sha rs_json second_serves
          (codes "n2")
          nodes
          false
          (idle, lost_disk)).1.0.in_progress
        ≡ true)
      ↔ ((false ≡ false) × (lost_disk.metadata ≡ none)))
    × (run_sync_if_needed identity_sha rs_json second_serves
          (codes "n2")
          nodes
          false
          (busy, lost_disk)
        ≡ (ok tt, (busy, lost_disk)))
run_sync_if_needed-in_progress_example =
    run_sync_if_needed-in_progress identity_sha rs_json second_serves (codes "n2") nodes false idle
      busy lost_disk refl refl
