-- ===== src/Sync/Daemon.antt =====
-- daemon/rs_sync.rs: the daemon's fetching of the blocks that it owns and lacks. The tasks for the blocks
-- of a file, which run side by side in the source, come one after the other: each writes only under
-- its own block's hash.
pub mod Stuck
pub mod Round
pub mod Fetch
use rxiu.Base.{
  ℕ, zero, suc, ◌+◌, ◌*◌, ◌%◌, Str, Bytes, str_eq, bytes_le, codes, Bool, true, false, List, [],
  ◌∷◌, ◌++◌, map, Option, none, some, if◌then◌else◌, not, ◌&&◌, filter, all, any, position, length,
  is_nil, ltb, ◌==◌,
}
use rxiu.Base.Sort.{sort_by}
use rxiu.Error.{AppError, Result, ok, err, io, to_string}
use rxiu.External.{Json, Sha256}
use rxiu.Config.{AppConfig}
use rxiu.Rs.Types.{RsBlockEntry, RsFileEntry, RsMetadata, RsDisk}
use rxiu.Rs.Metadata.{list_files, upsert_file, set_syncing}
use rxiu.Rs.Blocks.{has_block, verify_and_write_block}
use rxiu.Sync.{entry_members, assigned, needs_sync}

pub record RsSyncState : Type 0 where
  pub in_progress : Bool
  pub last_updated_files : ℕ
  pub last_error : Option Str
  pub config : AppConfig

-- What a peer answers: the one of that index, in that cycle, to a request for that block.
abbrev pub GetBlock : Type 0
GetBlock = ℕ → ℕ → Str → Result Bytes

-- The inner loop: from the peer `(idx + attempt) % peers` on, as many peers as there are attempts left.
unfoldable pub try_peers : GetBlock → ℕ → ℕ → ℕ → Str → ℕ → ℕ → Option Bytes
try_peers get peers idx cycle hash attempt zero = none
try_peers get peers idx cycle hash attempt (suc left) =
    let rest = try_peers get peers idx cycle hash (suc attempt) left in
    elim (get ((idx + attempt) % peers) cycle hash) [ ok content ↦ some content | err e ↦ rest ]

-- The outer loop, without its pauses.
unfoldable pub try_cycles : GetBlock → ℕ → ℕ → Str → ℕ → ℕ → Option Bytes
unfolding try_peers
try_cycles get peers idx hash cycle zero = none
try_cycles get peers idx hash cycle (suc left) =
    let rest = try_cycles get peers idx hash (suc cycle) left in
    elim (try_peers get peers idx cycle hash 0 peers) [ some content ↦ some content | none ↦ rest ]

module _ {Text : Type 0} (sha : Sha256) where
  -- The task of a block.
  unfoldable pub sync_block :
      GetBlock → ℕ → ℕ → RsBlockEntry → RsDisk Text → Result (Unit {0}) × RsDisk Text
  unfolding try_cycles verify_and_write_block
  sync_block get peers idx block d =
      if peers == 0
      then (err (io (codes "No peers available for RS sync")), d)
      else elim (try_cycles get peers idx block.hash 0 3) [
        | none ↦ (err (io (codes "Failed to fetch RS block")), d)
        | some content ↦ verify_and_write_block sha block.hash content d
      ]

  -- The tasks of a file. A failed one is logged.
  unfoldable pub sync_blocks : GetBlock → ℕ → ℕ → List RsBlockEntry → RsDisk Text → RsDisk Text
  unfolding sync_block
  sync_blocks get peers idx [] d = d
  sync_blocks get peers idx (block ∷ blocks) d =
      sync_blocks get peers (suc idx) blocks (sync_block get peers idx block d).1

module _ {Text : Type 0} (sha : Sha256) (json : Json Text RsMetadata) (get : GetBlock) (peers : ℕ)
    (local_id : Str) (fallback : List Str) (rf : ℕ) where
  -- `upsert_file(entry)?`, then the given count.
  unfoldable pub written : RsFileEntry → ℕ → RsDisk Text → Result ℕ × RsDisk Text
  unfolding upsert_file
  written entry count d =
      let (result, d') = upsert_file json entry d in
      elim result [ err e ↦ (err e, d') | ok _ ↦ (ok count, d') ]

  -- The rest of the loop's body, once blocks are missing.
  unfoldable pub fetch_missing :
      RsFileEntry → List RsBlockEntry → List RsBlockEntry → RsDisk Text → Result ℕ × RsDisk Text
  unfolding sync_blocks written has_block set_syncing
  fetch_missing entry owned missing d =
      let (result, d') = set_syncing json entry.name true d in
      let fetched = sync_blocks sha get peers 0 missing d' in
      let complete = not (is_nil owned) && all (λ b. has_block b.hash fetched) owned in
      elim result [
        | err e ↦ (err e, d')
        | ok _ ↦ written (record entry { complete = complete; syncing = false }) 1 fetched
      ]

  -- The body of the loop over the files; the result is what it adds to `updated_files`.
  unfoldable pub sync_entry : RsFileEntry → RsDisk Text → Result ℕ × RsDisk Text
  unfolding entry_members assigned written fetch_missing has_block
  sync_entry entry d =
      let members = entry_members entry fallback in
      elim (position (λ id. str_eq id local_id) members) [
        | none ↦ written (record entry { complete = false; syncing = false }) 0 d
        | some local_index ↦
            let owned = assigned sha entry members local_index rf in
            let missing = filter (λ b. not (has_block b.hash d)) owned in
            if is_nil missing
            then (if not (is_nil owned) && not entry.complete
                then written (record entry { complete = true; syncing = false }) 1 d
                else (ok 0, d))
            else fetch_missing entry owned missing d
      ]

  -- The loop: the first error ends it.
  unfoldable pub sync_entries : List RsFileEntry → ℕ → RsDisk Text → Result ℕ × RsDisk Text
  unfolding sync_entry
  sync_entries [] updated d = (ok updated, d)
  sync_entries (entry ∷ entries) updated d =
      let (result, d') = sync_entry entry d in
      elim result [ err e ↦ (err e, d') | ok n ↦ sync_entries entries (updated + n) d' ]

  unfoldable pub sync_rs_missing_blocks : RsDisk Text → Result ℕ × RsDisk Text
  unfolding sync_entries list_files
  sync_rs_missing_blocks d =
      if peers == 0
      then (ok 0, d)
      else elim (list_files json d) [ err e ↦ (err e, d) | ok files ↦ sync_entries files 0 d ]

-- The ids of the peers and of the local node, sorted.
abbrev pub all_members : Str → List Str → List Str
all_members local_id peer_ids = sort_by bytes_le (peer_ids ++ local_id ∷ [])

-- What is stored of the result at the end.
abbrev pub finished : Result ℕ → RsSyncState → RsSyncState
finished (ok updated) s = record s { in_progress = false; last_updated_files = updated }
finished (err e) s = record s { in_progress = false; last_error = some (to_string e) }

abbrev pub finish :
    {Text : Type 0}
    → RsSyncState
    → Result ℕ × RsDisk Text
    → Result (Unit {0}) × (RsSyncState × RsDisk Text)
finish s (result, d) = (ok tt, (finished result s, d))

module _ {Text : Type 0} (sha : Sha256) (json : Json Text RsMetadata) (get : GetBlock)
    (local_id : Str) (peer_ids : List Str) where
  -- An error of `needs_sync` leaves the function at once.
  unfoldable pub run_sync_if_needed :
      Bool → RsSyncState × RsDisk Text → Result (Unit {0}) × (RsSyncState × RsDisk Text)
  unfolding sync_rs_missing_blocks needs_sync sort_by
  run_sync_if_needed force (s, d) =
      let members = all_members local_id peer_ids in
      let rf = s.config.rs_replication_factor in
      let started : RsSyncState = record s { in_progress = true; last_error = none } in
      let synced =
        finish started
          (sync_rs_missing_blocks sha json get (length peer_ids) local_id members rf d) in
      if s.in_progress
      then (ok tt, (s, d))
      else if force
      then synced
      else elim (needs_sync sha local_id members rf json d) [
        | err e ↦ (err e, (started, d))
        | ok needs ↦ if needs then synced else finish started (ok 0, d)
      ]
