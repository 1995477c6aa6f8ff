-- ===== src/Safety/Breaker.antt =====
-- The circuit breaker (apps/api/src/middleware/circuit-breaker.ts): what it holds in the KV
-- namespace under its two keys, and the middleware in its two halves, before and after the handler,
-- between which other requests may run. An entry is written with the time in milliseconds at which its
-- time to live ends; a read before it finds the entry, and none after.
use Prim.Native.String.{◌++◌ as append}
use aether_dex.Prelude.{
  ℕ, ◌+◌, ◌-◌, ◌*◌, ◌/◌, Bool, true, false, Option, none, some, String, max, leb, ltb, str_eq,
  if◌then◌else◌,
}
use aether_dex.Safety.{kv_ttl_seconds}

pub data CircuitStatus : Type 0 where
  is_open half_open : CircuitStatus

pub record CircuitStateRecord : Type 0 where
  pub status : CircuitStatus
  pub opened_at : ℕ

pub record FailureEntry : Type 0 where
  pub count : ℕ
  pub ends : ℕ

pub record StateEntry : Type 0 where
  pub held : CircuitStateRecord
  pub ends : ℕ

-- The two entries: the failures counted, and the state; no state is a closed circuit.
pub record CircuitStore : Type 0 where
  pub failures : Option FailureEntry
  pub state : Option StateEntry

-- Which calls of the namespace throw.
pub record KvFaults : Type 0 where
  pub state_read : Bool
  pub state_write : Bool
  pub failure_read : Bool
  pub failure_write : Bool
  pub failure_delete : Bool
  pub state_delete : Bool

pub record BreakerConfig : Type 0 where
  pub failure_threshold : ℕ
  pub cooldown_seconds : ℕ

pub record BreakerKeys : Type 0 where
  pub failures_key : String
  pub state_key : String

unfoldable pub default_keys : String → BreakerKeys
default_keys name = record {
  failures_key = append "cb:" (append name "_failures");
  state_key = if str_eq name "swap" then "cb:state" else append "cb:" (append name "_state");
}

-- What the first half decides: the answer 503 with `Retry-After`, or that the handler runs, as a
-- trial or not.
pub data Admission : Type 0 where
  rejected : ℕ → Admission
  admitted : Bool → Admission

-- How the handler ends: with an answer below 500, with one from 500 on, or by throwing.
pub data Handled : Type 0 where
  succeeded answered_5xx threw : Handled

-- When an entry ends that is written at `now` for so many seconds.
abbrev pub ends_after : ℕ → ℕ → ℕ
ends_after now seconds = now + kv_ttl_seconds seconds * 1000

abbrev pub state_ends : BreakerConfig → ℕ → ℕ
state_ends config now = ends_after now (max (config.cooldown_seconds * 3) 60)

abbrev pub failures_end : BreakerConfig → ℕ → ℕ
failures_end config now = ends_after now (config.cooldown_seconds * 2)

abbrev pub live_state : ℕ → Option StateEntry → Option CircuitStateRecord
live_state now none = none
live_state now (some e) = if ltb now e.ends then some e.held else none

-- The count that the entry holds, or none where it is over.
abbrev pub previous_failures : ℕ → Option FailureEntry → ℕ
previous_failures now none = 0
previous_failures now (some e) = if ltb now e.ends then e.count else 0

module _ (faults : KvFaults) where
  unfoldable pub read_state : ℕ → CircuitStore → Option CircuitStateRecord
  read_state now s = if faults.state_read then none else live_state now s.state

  unfoldable pub write_state : BreakerConfig → ℕ → CircuitStateRecord → CircuitStore → CircuitStore
  write_state config now r s =
      if faults.state_write
      then s
      else record s { state = some (record { held = r; ends = state_ends config now }) }

  abbrev pub counted_failures : ℕ → ℕ → CircuitStore → ℕ
  counted_failures now weight s =
      if faults.failure_read then weight else previous_failures now s.failures + weight

  abbrev pub with_failures : BreakerConfig → ℕ → ℕ → CircuitStore → CircuitStore
  with_failures config now count s = record s {
    failures = some (record { count = count; ends = failures_end config now });
  }

  abbrev pub opened_at : ℕ → CircuitStateRecord
  opened_at now = record { status = CircuitStatus.is_open; opened_at = now }

  unfoldable pub record_failure : BreakerConfig → ℕ → ℕ → Bool → CircuitStore → CircuitStore
  record_failure config now weight true s = write_state config now (opened_at now) s
  record_failure config now weight false s =
      let count = counted_failures now weight s in
      if faults.failure_write
      then s
      else if leb config.failure_threshold count
      then write_state config now (opened_at now) (with_failures config now count s)
      else with_failures config now count s

  unfoldable pub close_circuit : CircuitStore → CircuitStore
  close_circuit s = record {
    failures = if faults.failure_delete then s.failures else none;
    state = if faults.state_delete then s.state else none;
  }

  -- The seconds until the cooldown is over, rounded up, and at least one.
  abbrev pub retry_after : BreakerConfig → ℕ → CircuitStateRecord → ℕ
  retry_after config now r =
      max 1 ((r.opened_at + config.cooldown_seconds * 1000 - now + 999) / 1000)

  abbrev pub enter_with :
      BreakerConfig → ℕ → Option CircuitStateRecord → CircuitStore → Admission × CircuitStore
  enter_with config now none s = (admitted false, s)
  enter_with config now (some r) s =
      if ltb now (r.opened_at + config.cooldown_seconds * 1000)
      then (rejected (retry_after config now r), s)
      else (admitted true, write_state config now (record r { status = CircuitStatus.half_open }) s)

  unfoldable pub enter : BreakerConfig → ℕ → CircuitStore → Admission × CircuitStore
  enter config now s = enter_with config now (read_state now s) s

  unfoldable pub leave : BreakerConfig → ℕ → ℕ → Bool → Handled → CircuitStore → CircuitStore
  leave config now weight trial answered_5xx s = record_failure config now weight trial s
  leave config now weight trial threw s = record_failure config now weight trial s
  leave config now weight true succeeded s = close_circuit s
  leave config now weight false succeeded s = s

  abbrev pub leave_admitted :
      BreakerConfig → ℕ → ℕ → Handled → Admission × CircuitStore → Admission × CircuitStore
  leave_admitted config now weight h (rejected n, s) = (rejected n, s)
  leave_admitted config now weight h (admitted trial, s) =
      (admitted trial, leave config now weight trial h s)

  -- One request with nothing between its halves: it starts at `now`, and ends at `ended`.
  unfoldable pub circuit_breaker :
      BreakerConfig → ℕ → ℕ → ℕ → Handled → CircuitStore → Admission × CircuitStore
  circuit_breaker config now ended weight h s =
      leave_admitted config ended weight h (enter config now s)
