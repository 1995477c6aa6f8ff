-- ===== src/Safety/Tests.antt =====
-- Runs of the rate limit and of the circuit breaker.
use aether_dex.Prelude.{
  ℕ, ◌+◌, ◌*◌, ◌<◌, ◌≤◌, ◌≡◌, refl, arith, true, false, none, some, List, [], ◌∷◌, All,
}
use aether_dex.Prelude.Dict.{get}
use aether_dex.Safety.{RateLimitConfig, kv_ttl_seconds}
use aether_dex.Safety.RateLimit.{Caller, Arrival, serve, read_window}
use aether_dex.Safety.Window.{PassFirst, serve-window}
use aether_dex.Safety.Breaker.{
  CircuitStatus, StateEntry, CircuitStore, BreakerConfig, Admission, Handled, circuit_breaker,
  enter, leave,
}
use aether_dex.Safety.Circuit.{
  IsWithin, after_trial, enter_all, circuit_breaker-rejects, leave-enter-trial, enter_all-trials,
}
use aether_dex.Safety.Failures.{no_faults, Request, until}

abbrev two_a_minute : RateLimitConfig
two_a_minute = record { max_requests = 2; window_seconds = 60 }

abbrev caller : Caller
caller = record { session_address = none; cf_connecting_ip = some "a"; first_forwarded = none }

abbrev arrival : ℕ → Arrival
arrival now = record {
  now = now;
  answered_at = now;
  faults = record { read_down = false; write_down = false };
}

serve-window_example :
    PassFirst 2
      (serve (λ s. s) two_a_minute caller (arrival 1000 ∷ arrival 2000 ∷ arrival 3000 ∷ []) [])
unfolding read_window get
serve-window_example =
    serve-window (λ s. s) two_a_minute caller (arrival 1000) (arrival 2000 ∷ arrival 3000 ∷ []) []
      refl
      (
        record { early = omega arith; reads = refl; writes = refl },
        (record { early = omega arith; reads = refl; writes = refl }, tt),
      )
      refl refl

abbrev breaker : BreakerConfig
breaker = record { failure_threshold = 3; cooldown_seconds = 30 }

abbrev opened : StateEntry
opened = record { held = record { status = CircuitStatus.is_open; opened_at = 1000 }; ends = 91000 }

abbrev open_store : CircuitStore
open_store = record { failures = some (record { count = 3; ends = 61000 }); state = some opened }

abbrev closed_store : CircuitStore
closed_store = record { failures = none; state = none }

circuit_breaker-rejects_example :
    (n : ℕ) × (circuit_breaker no_faults breaker 2000 2100 1 Handled.succeeded open_store
      ≡ (Admission.rejected n, open_store))
    × (31000 ≤ 2000 + n * 1000)
    × (2000 + n * 1000 < 31000 + 1000)
circuit_breaker-rejects_example =
    circuit_breaker-rejects no_faults breaker 2000 2100 1 Handled.succeeded open_store opened
      (record { entry = refl; lives = omega arith; answers = refl }) (omega arith)

leave-enter-trial_example :
    ((enter no_faults breaker 40000 open_store).0 ≡ Admission.admitted true)
    × (leave no_faults breaker 40100 1 true Handled.succeeded open_store
        ≡ after_trial breaker 40100 Handled.succeeded open_store)
leave-enter-trial_example =
    leave-enter-trial no_faults no_faults breaker 40000 40100 1 Handled.succeeded open_store
      open_store opened (record { entry = refl; lives = omega arith; answers = refl }) (omega arith)
      refl refl refl

within : (now : ℕ) → 40000 ≤ now → now < 91000 → IsWithin breaker 1000 40000 91000 now
unfolding kv_ttl_seconds
within now since before = record {
  cool = omega arith;
  since = since;
  before = omega arith;
  until = before;
}

enter_all-trials_example :
    All
      (λ a. a ≡ Admission.admitted true)
      (enter_all no_faults breaker (40000 ∷ 40001 ∷ 40002 ∷ []) open_store)
unfolding kv_ttl_seconds
enter_all-trials_example =
    enter_all-trials no_faults breaker 40000 (40000 ∷ 40001 ∷ 40002 ∷ []) open_store opened refl
      refl refl
      (
        within 40000 (omega arith) (omega arith),
        (within 40001 (omega arith) (omega arith), (within 40002 (omega arith) (omega arith), tt)),
      )

abbrev request : Handled → ℕ → Request
request h now = record { weight = 1; handled = h; started = now; ended = now }

-- Two failures with a success between them.
abbrev requests : List Request
requests = request Handled.threw 1 ∷ request Handled.succeeded 2 ∷ request Handled.threw 3 ∷ []
