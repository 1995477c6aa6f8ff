-- ===== src/Safety/Circuit.antt =====
-- How an open circuit rejects, tries and closes again (`circuitBreaker`).
use aether_dex.Prelude.{
  ℕ, ◌+◌, ◌*◌, ◌<◌, ◌≤◌, ◌≡◌, refl, ap, ◌∙◌, arith, true, false, none, some, List, [], ◌∷◌, min,
  ltb, All,
}
use aether_dex.Safety.{kv_ttl_seconds}
use aether_dex.Safety.Breaker.{
  CircuitStatus, CircuitStateRecord, StateEntry, CircuitStore, KvFaults, BreakerConfig, Admission,
  Handled, state_ends, read_state, write_state, record_failure, close_circuit, retry_after,
  enter_with, enter, leave_admitted, leave, circuit_breaker,
}

-- The end of the cooldown.
abbrev pub cool_at : BreakerConfig → CircuitStateRecord → ℕ
cool_at config r = r.opened_at + config.cooldown_seconds * 1000

retry_after-enough :
    (faults : KvFaults) (config : BreakerConfig) (now : ℕ) (r : CircuitStateRecord)
    → now < cool_at config r
    → (cool_at config r ≤ now + retry_after faults config now r * 1000)
      × (now + retry_after faults config now r * 1000 < cool_at config r + 1000)
retry_after-enough faults config now r h = omega arith

-- A store whose state entry is not over at a time, and whose state the namespace yields.
pub record Holds (faults : KvFaults) (now : ℕ) (s : CircuitStore) (e : StateEntry) : Type 0 where
  pub entry : s.state ≡ some e
  pub lives : now < e.ends
  pub answers : faults.state_read ≡ false

module _ (faults : KvFaults) (config : BreakerConfig) (now : ℕ) (s : CircuitStore)
    (e : StateEntry) where
  Holds-read : Holds faults now s e → read_state faults now s ≡ some e.held
  unfolding read_state
  Holds-read h =
      let lives : ltb now e.ends ≡ true = let l = h.lives in ground arith in
      rw (h.answers, h.entry, lives) refl

  enter-early :
      Holds faults now s e
      → now < cool_at config e.held
      → enter faults config now s ≡ (Admission.rejected (retry_after faults config now e.held), s)
  unfolding enter
  enter-early h early =
      let soon : ltb now (cool_at config e.held) ≡ true = ground arith in
      ap (λ o. enter_with faults config now o s) (Holds-read h) ∙ rw soon refl

  enter-late :
      Holds faults now s e
      → cool_at config e.held ≤ now
      → enter faults config now s ≡ (
        Admission.admitted true,
        write_state faults config now (record e.held { status = CircuitStatus.half_open }) s,
      )
  unfolding enter
  enter-late h late =
      let over : ltb now (cool_at config e.held) ≡ false = ground arith in
      ap (λ o. enter_with faults config now o s) (Holds-read h) ∙ rw over refl

-- Where the namespace yields the state and its entry is not over, every request before the end of the
-- cooldown is rejected without running the handler and nothing is written; the seconds that it is
-- told to wait end after the cooldown does, by less than a second.
pub circuit_breaker-rejects :
    (faults : KvFaults) (config : BreakerConfig) (now ended weight : ℕ) (handled : Handled)
    (s : CircuitStore) (e : StateEntry)
    → Holds faults now s e
    → now < cool_at config e.held
    → (n : ℕ) × (circuit_breaker faults config now ended weight handled s
        ≡ (Admission.rejected n, s))
      × (cool_at config e.held ≤ now + n * 1000)
      × (now + n * 1000 < cool_at config e.held + 1000)
unfolding circuit_breaker
circuit_breaker-rejects faults config now ended weight handled s e h early =
    let (late, soon) = retry_after-enough faults config now e.held early in
    (
      retry_after faults config now e.held,
      ap (leave_admitted faults config ended weight handled)
          (enter-early faults config now s e h early),
      late,
      soon,
    )

-- What a trial leaves of the store that it finds at its end.
abbrev pub after_trial : BreakerConfig → ℕ → Handled → CircuitStore → CircuitStore
after_trial config ended Handled.succeeded s = record { failures = none; state = none }
after_trial config ended _ s = record s {
  state = some (record {
    held = record { status = CircuitStatus.is_open; opened_at = ended };
    ends = state_ends config ended;
  });
}

leave-trial :
    (faults : KvFaults) (config : BreakerConfig) (ended weight : ℕ) (h : Handled) (t : CircuitStore)
    → faults.state_write ≡ false
    → faults.failure_delete ≡ false
    → faults.state_delete ≡ false
    → leave faults config ended weight true h t ≡ after_trial config ended h t
unfolding leave record_failure write_state close_circuit
leave-trial faults config ended weight Handled.succeeded t w f d = rw (f, d) refl
leave-trial faults config ended weight Handled.answered_5xx t w f d = rw w refl
leave-trial faults config ended weight Handled.threw t w f d = rw w refl

-- Where the namespace yields the state, its entry is not over and the cooldown is, the request is a
-- trial. Whatever other requests write while the handler runs, where the calls of the namespace at
-- its end succeed: a success clears both entries, and a failure, by an answer from 500 on or by
-- throwing, opens the circuit anew from its end and leaves the failures as they are by then.
pub leave-enter-trial :
    (faults at_end : KvFaults) (config : BreakerConfig) (now ended weight : ℕ) (h : Handled)
    (s t : CircuitStore) (e : StateEntry)
    → Holds faults now s e
    → cool_at config e.held ≤ now
    → at_end.state_write ≡ false
    → at_end.failure_delete ≡ false
    → at_end.state_delete ≡ false
    → (enter faults config now s).0 ≡ Admission.admitted true
      × (leave at_end config ended weight true h t ≡ after_trial config ended h t)
leave-enter-trial faults at_end config now ended weight h s t e holds late w f d = (
  ap (λ r. r.0) (enter-late faults config now s e holds late),
  leave-trial at_end config ended weight h t w f d,
)

-- Requests that start at the given times, none of which ends before the last one has started.
unfoldable pub enter_all : KvFaults → BreakerConfig → List ℕ → CircuitStore → List Admission
enter_all faults config [] s = []
enter_all faults config (now ∷ times) s =
    (enter faults config now s).0 ∷ enter_all faults config times (enter faults config now s).1

-- A time from the end of the cooldown and from `start` on, before an entry of `start` ends.
pub record IsWithin (config : BreakerConfig) (opened_at start last now : ℕ) : Type 0 where
  pub cool : opened_at + config.cooldown_seconds * 1000 ≤ now
  pub since : start ≤ now
  pub before : now < state_ends config start
  pub until : now < last

enter_all-admits :
    (faults : KvFaults) (config : BreakerConfig) (start last : ℕ) (times : List ℕ)
    (s : CircuitStore) (e : StateEntry)
    → faults.state_read ≡ false
    → faults.state_write ≡ false
    → s.state ≡ some e
    → last ≤ e.ends
    → last ≤ state_ends config start
    → All (IsWithin config e.held.opened_at start last) times
    → All (λ a. a ≡ Admission.admitted true) (enter_all faults config times s)
unfolding enter_all write_state kv_ttl_seconds
enter_all-admits faults config start last [] s e read write held far near h = tt
enter_all-admits faults config start last (now ∷ times) s e read write held far near (w, h) =
    let holds : Holds faults now s e = record {
      entry = held;
      lives = let u = w.until in omega arith;
      answers = read;
    } in
    let entered = enter-late faults config now s e holds w.cool in
    let next : StateEntry = record {
      held = record e.held { status = CircuitStatus.half_open };
      ends = state_ends config now;
    } in
    let since = w.since in
    rw (entered, write)
      (
        refl,
        enter_all-admits faults config start last times (record s { state = some next }) next read
            write refl (omega arith) near h,
      )

-- While the namespace answers, every request that starts after the cooldown and before the first
-- trial ends is admitted as a trial, however many they are, from a first time on until the state's
-- entry at that time is over or one that is written then would be: the half-open state that the
-- first one writes does not keep the others out.
pub enter_all-trials :
    (faults : KvFaults) (config : BreakerConfig) (start : ℕ) (times : List ℕ) (s : CircuitStore)
    (e : StateEntry)
    → faults.state_read ≡ false
    → faults.state_write ≡ false
    → s.state ≡ some e
    → All (IsWithin config e.held.opened_at start (min e.ends (state_ends config start))) times
    → All (λ a. a ≡ Admission.admitted true) (enter_all faults config times s)
enter_all-trials faults config start times s e read write held h =
    enter_all-admits faults config start (min e.ends (state_ends config start)) times s e read write
      held (omega arith) (omega arith) h
