-- ===== src/Sync/Daemon/Stuck.antt =====
-- daemon/rs_sync.rs: the flag `in_progress`.
use rxiu.Base.{
  ◌≡◌, ◌↔◌, inl, inr, Str, Bool, true, false, List, none, arith, Option-cases, Bool-cases,
}
use rxiu.Error.{ok}
use rxiu.External.{Json, Sha256}
use rxiu.Rs.Types.{RsMetadata, RsDisk}
use rxiu.Rs.Metadata.{list_files, load_metadata}
use rxiu.Sync.{needs_sync}
use rxiu.Sync.Daemon.{RsSyncState, GetBlock, run_sync_if_needed}

module _ {Text : Type 0} (sha : Sha256) (json : Json Text RsMetadata) where
  -- A run that starts with the flag off leaves it set exactly where it is an automatic one and the metadata
  -- file is missing; and a run that finds the flag set does nothing.
  pub run_sync_if_needed-in_progress :
      (get : GetBlock) (local_id : Str) (peer_ids : List Str) (force : Bool) (s busy : RsSyncState)
      (d : RsDisk Text)
      → s.in_progress ≡ false
      → busy.in_progress ≡ true
      → let (result, (s', d')) = run_sync_if_needed sha json get local_id peer_ids force (s, d) in
        ((s'.in_progress ≡ true) ↔ ((force ≡ false) × (d.metadata ≡ none)))
        × (run_sync_if_needed sha json get local_id peer_ids force (busy, d) ≡ (ok tt, (busy, d)))
  unfolding run_sync_if_needed needs_sync list_files load_metadata
  run_sync_if_needed-in_progress get local_id peer_ids force s busy d idle set =
      let metadata_cases = Option-cases d.metadata in
      elim (Bool-cases force) [
        | inl forced ↦ ground (arith, idle, set, forced)
        | inr auto ↦ elim metadata_cases [
          | inl missing ↦ ground (arith, idle, set, auto, missing)
          | inr (text, there) ↦ ground (arith, idle, set, auto, there)
        ]
      ]
