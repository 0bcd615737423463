-- ===== src/Recovery/Examples.antt =====
-- Runs of the recovery, and its theorems at concrete data.
use rxiu.Base.{◌*◌, ◌≡◌, refl, true, List, [], ◌∷◌, some, arith, inr}
use rxiu.Recovery.{NetworkRecovery, retry, nanos, new, check_stale, should_recover}
use rxiu.Recovery.Invariant.{IsSound, Call, recovers, run, step, run-new-IsSound}

-- Peers at 1 s, none at 2 s, stale at 8 s.
abbrev calls : List Call
calls = recovers nanos 3 ∷ recovers (2 * nanos) 0 ∷ recovers (8 * nanos) 0 ∷ []

stale_run : (run (new 0 0) calls).in_recovery ≡ true
unfolding run step new should_recover check_stale
stale_run = refl

run-new-IsSound_example : IsSound (run (new 0 0) calls)
run-new-IsSound_example = run-new-IsSound 0 0 calls

-- The state of that run: in recovery, with one attempt made.
abbrev lost : NetworkRecovery
lost = record {
  had_peers_before = true;
  zero_peers_since = some (2 * nanos);
  last_refresh = 0;
  last_tick = 0;
  retry_count = 1;
  in_recovery = true;
  stale_threshold = 5 * nanos;
  refresh_interval = 60 * nanos;
  retry_interval = 10 * nanos;
  max_retries = 5;
  sleep_threshold = 30 * nanos;
}

lost-IsSound : IsSound lost
lost-IsSound = record {
  stale = refl;
  refresh = refl;
  interval = refl;
  limit = refl;
  sleep = refl;
  counted = inr (refl, refl, omega arith, omega arith, refl);
}

retry_at_17 : (should_recover (17 * nanos) 0 lost).1 ≡ some (retry 2)
unfolding should_recover check_stale
retry_at_17 = refl
