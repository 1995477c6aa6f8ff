-- ===== src/Safety/Failures.antt =====
-- How failures add up and open a circuit (`circuitBreaker`).
use aether_dex.Prelude.{ℕ, ◌+◌, ◌*◌, ◌<◌, ◌≤◌, ◌≡◌, false, Option, none, some, List, [], ◌∷◌, max}
use aether_dex.Safety.Breaker.{
  FailureEntry, CircuitStore, KvFaults, BreakerConfig, Handled, circuit_breaker,
}

-- A namespace whose calls all succeed.
abbrev pub no_faults : KvFaults
no_faults = record {
  state_read = false;
  state_write = false;
  failure_read = false;
  failure_write = false;
  failure_delete = false;
  state_delete = false;
}

-- A request while the circuit is closed: its weight, how it ends and when.
pub record Request : Type 0 where
  pub weight : ℕ
  pub handled : Handled
  pub started : ℕ
  pub ended : ℕ

abbrev pub weight_of : Handled → ℕ → ℕ
weight_of Handled.succeeded w = 0
weight_of Handled.answered_5xx w = w
weight_of Handled.threw w = w

abbrev pub failure_weight : Request → ℕ
failure_weight q = weight_of q.handled q.weight

abbrev pub total_weight : List Request → ℕ
total_weight [] = 0
total_weight (q ∷ qs) = failure_weight q + total_weight qs

unfoldable pub serve_all : BreakerConfig → List Request → CircuitStore → CircuitStore
serve_all config [] s = s
serve_all config (q ∷ qs) s =
    serve_all config qs (circuit_breaker no_faults config q.started q.ended q.weight q.handled s).1

-- The count of the failures, in an entry that is not over before the given time.
abbrev pub Counts : ℕ → ℕ → Option FailureEntry → Type 0
Counts last count none = count ≡ 0
Counts last count (some e) = (e.count ≡ count) × (last ≤ e.ends)

-- The request ends from `first` on, and before an entry ends that is written at `first`.
pub record EndsSoon (config : BreakerConfig) (first : ℕ) (q : Request) : Type 0 where
  pub since : first ≤ q.ended
  pub before : q.ended < first + max 60 (config.cooldown_seconds * 2) * 1000

-- When an entry of failures ends that is written at `first`.
abbrev pub until : BreakerConfig → ℕ → ℕ
until config first = first + max 60 (config.cooldown_seconds * 2) * 1000
