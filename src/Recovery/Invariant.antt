-- ===== src/Recovery/Invariant.antt =====
-- p2p/recovery.rs: the invariant of the recovery state, over any calls.
use rxiu.Base.{ℕ, ◌*◌, ◌≤◌, ◌≡◌, refl, true, false, List, [], ◌∷◌, arith, ◌⊎◌, inl, is_some}
use rxiu.Recovery.{NetworkRecovery, nanos, new, detect_wake, should_recover}

-- The settings of `new`, and how the counter goes with the flag: outside of recovery it is 0, within
-- it lies between 1 and the limit, and the time of the loss of the peers is known.
pub record IsSound (r : NetworkRecovery) : Type 0 where
  pub stale : r.stale_threshold ≡ 5 * nanos
  pub refresh : r.refresh_interval ≡ 60 * nanos
  pub interval : r.retry_interval ≡ 10 * nanos
  pub limit : r.max_retries ≡ 5
  pub sleep : r.sleep_threshold ≡ 30 * nanos
  pub counted :
      ((r.in_recovery ≡ false) × (r.retry_count ≡ 0))
      ⊎ ((r.in_recovery ≡ true)
          × (r.had_peers_before ≡ true)
          × (1 ≤ r.retry_count)
          × (r.retry_count ≤ 5)
          × (is_some r.zero_peers_since ≡ true))

-- A call, with the clock readings that it makes.
pub data Call : Type 0 where
  wakes : ℕ → ℕ → Call
  recovers : ℕ → ℕ → Call

unfoldable pub step : NetworkRecovery → Call → NetworkRecovery
step r (wakes now next) = (detect_wake now next r).0
step r (recovers now peers) = (should_recover now peers r).0

unfoldable pub run : NetworkRecovery → List Call → NetworkRecovery
run r [] = r
run r (c ∷ cs) = run (step r c) cs

detect_wake-IsSound :
    (now next : ℕ) (r : NetworkRecovery) → IsSound r → IsSound (detect_wake now next r).0
unfolding detect_wake
detect_wake-IsSound now next r v = ground arith

pub should_recover-IsSound :
    (now peers : ℕ) (r : NetworkRecovery) → IsSound r → IsSound (should_recover now peers r).0
unfolding should_recover
should_recover-IsSound now peers r v = ground arith

run-IsSound : (r : NetworkRecovery) (cs : List Call) → IsSound r → IsSound (run r cs)
unfolding run step
run-IsSound r [] v = v
run-IsSound r (wakes now next ∷ cs) v =
    run-IsSound (detect_wake now next r).0 cs (detect_wake-IsSound now next r v)
run-IsSound r (recovers now peers ∷ cs) v =
    run-IsSound (should_recover now peers r).0 cs (should_recover-IsSound now peers r v)

-- After any calls from the start, the settings are those of `new`, and outside of recovery the retry
-- counter is 0 and within it lies between 1 and 5, with peers seen before and the time of their loss
-- stored.
pub run-new-IsSound : (a b : ℕ) (cs : List Call) → IsSound (run (new a b) cs)
unfolding new
run-new-IsSound a b cs = run-IsSound (new a b) cs (record {
  stale = refl;
  refresh = refl;
  interval = refl;
  limit = refl;
  sleep = refl;
  counted = inl (refl, refl);
})
