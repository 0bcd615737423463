-- ===== src/Recovery/Budget.antt =====
-- p2p/recovery.rs: how often and when recovery is triggered.
use rxiu.Base.{ℕ, ◌+◌, ◌≤◌, Option, none, some, List, [], ◌∷◌, arith}
use rxiu.Recovery.{
  NetworkRecovery, RecoveryReason, wake_from_sleep, periodic_refresh, stale_detected, retry,
  should_recover,
}
use rxiu.Recovery.Invariant.{IsSound, should_recover-IsSound}

-- The calls of `should_recover` at the given times while there is no peer.
unfoldable pub starved : List ℕ → NetworkRecovery → List (Option RecoveryReason)
starved [] r = []
starved (now ∷ times) r = let (r', reason) = should_recover now 0 r in reason ∷ starved times r'

-- The stale detection and the retries among the results.
unfoldable pub attempts : List (Option RecoveryReason) → ℕ
attempts [] = 0
attempts (none ∷ rs) = attempts rs
attempts (some (wake_from_sleep s) ∷ rs) = attempts rs
attempts (some periodic_refresh ∷ rs) = attempts rs
attempts (some stale_detected ∷ rs) = 1 + attempts rs
attempts (some (retry n) ∷ rs) = 1 + attempts rs

-- From any state that calls can reach, while no peer appears and the system does not sleep, stale
-- detection and retries together trigger at most as often as the counter is below 5, whatever the
-- times of the calls.
attempts-starved :
    (times : List ℕ) (r : NetworkRecovery)
    → IsSound r
    → attempts (starved times r) + r.retry_count ≤ 5
unfolding starved attempts should_recover
attempts-starved [] r v = ground arith
attempts-starved (now ∷ times) r v =
    let next = should_recover now 0 r in
    ground (arith, attempts-starved times next.0 (should_recover-IsSound now 0 r v))
