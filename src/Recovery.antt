-- ===== src/Recovery.antt =====
-- p2p/recovery.rs: when the network layer is restarted. An `Instant` and a `Duration` are nanoseconds;
-- the clock readings of a call are its arguments. `duration_since` stops at 0, as in the source.
pub mod Invariant
pub mod Budget
mod Examples
use rxiu.Base.{
  ℕ, ◌+◌, ◌-◌, ◌*◌, ◌/◌, Bool, true, false, Option, none, some, if◌then◌else◌, ltb, leb, not, ◌&&◌,
}

pub record NetworkRecovery : Type 0 where
  pub had_peers_before : Bool
  pub zero_peers_since : Option ℕ
  pub last_refresh : ℕ
  pub last_tick : ℕ
  pub retry_count : ℕ
  pub in_recovery : Bool
  pub stale_threshold : ℕ
  pub refresh_interval : ℕ
  pub retry_interval : ℕ
  pub max_retries : ℕ
  pub sleep_threshold : ℕ

pub data RecoveryReason : Type 0 where
  wake_from_sleep : ℕ → RecoveryReason
  periodic_refresh stale_detected : RecoveryReason
  retry : ℕ → RecoveryReason

abbrev pub nanos : ℕ
nanos = 1_000_000_000

-- The two readings of the clock in `new`.
unfoldable pub new : ℕ → ℕ → NetworkRecovery
new refresh_now tick_now = record {
  had_peers_before = false;
  zero_peers_since = none;
  last_refresh = refresh_now;
  last_tick = tick_now;
  retry_count = 0;
  in_recovery = false;
  stale_threshold = 5 * nanos;
  refresh_interval = 60 * nanos;
  retry_interval = 10 * nanos;
  max_retries = 5;
  sleep_threshold = 30 * nanos;
}

-- The first reading is that of `elapsed`, the second is stored.
unfoldable pub detect_wake : ℕ → ℕ → NetworkRecovery → NetworkRecovery × Option RecoveryReason
detect_wake now next r =
    let elapsed = now - r.last_tick in
    if ltb r.sleep_threshold elapsed
    then (
      record r { last_tick = next; zero_peers_since = none; retry_count = 0; in_recovery = false },
      some (wake_from_sleep (elapsed / nanos)),
    )
    else (record r { last_tick = next }, none)

-- The second condition of `should_recover`, after the peers have dropped to zero.
unfoldable pub check_stale : ℕ → NetworkRecovery → NetworkRecovery × Option RecoveryReason
check_stale now r = elim r.zero_peers_since [
  | none ↦ (record r { zero_peers_since = some now }, none)
  | some since ↦
      let elapsed = now - since in
      if not r.in_recovery && leb r.stale_threshold elapsed
      then (record r { in_recovery = true; retry_count = 1 }, some stale_detected)
      else if (r.in_recovery && ltb r.retry_count r.max_retries)
          && leb (r.stale_threshold + r.retry_interval * r.retry_count) elapsed
      then (record r { retry_count = r.retry_count + 1 }, some (retry (r.retry_count + 1)))
      else (r, none)
]

unfoldable pub should_recover : ℕ → ℕ → NetworkRecovery → NetworkRecovery × Option RecoveryReason
unfolding check_stale
should_recover now current_peer_count r =
    if ltb 0 current_peer_count
    then (
      record r {
        had_peers_before = true;
        zero_peers_since = none;
        retry_count = 0;
        in_recovery = false;
      },
      none,
    )
    else if leb r.refresh_interval (now - r.last_refresh)
    then (record r { last_refresh = now }, some periodic_refresh)
    else if r.had_peers_before
    then check_stale now r
    else (record r { zero_peers_since = some now }, none)

pub record RecoveryStatus : Type 0 where
  pub had_peers : Bool
  pub in_recovery : Bool
  pub retry_count : ℕ
  pub zero_since : Option ℕ

unfoldable pub status : ℕ → NetworkRecovery → RecoveryStatus
status now r = record {
  had_peers = r.had_peers_before;
  in_recovery = r.in_recovery;
  retry_count = r.retry_count;
  zero_since = elim r.zero_peers_since [ none ↦ none | some t ↦ some (now - t) ];
}
