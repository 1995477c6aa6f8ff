-- ===== src/Positions/Accounting.antt =====
-- What the reduced states satisfy: no amount is negative, and what a position holds of a token is
-- covered by what was paid in.
use aether_dex.Prelude.{
  ◌≡◌, arith, List, [], ◌∷◌, none, some, All, Option, Option-cases, inl, inr, String,
}
use aether_dex.Prelude.Sort.{sort_by-All}
use aether_dex.Prelude.Int.{pos, ◌≤ℤ◌, int_laws}
use aether_dex.Prelude.Dict.{Dict, get, AllValues, nil-AllValues, put-AllValues}
use aether_dex.Positions.{
  EventType, V3LiquidityEvent, V3PositionState, initial_state, to_big_int, apply_as, apply_event,
  get_or_initial, reduce_token, stays_before, sort, reduce_from, reduce_v3_position_events,
}

-- The log decoder yields unsigned amounts (`uint128`, `uint256`).
abbrev pub IsUnsigned : V3LiquidityEvent → Type 0
IsUnsigned e =
    (pos 0 ≤ℤ to_big_int e.liquidity_delta)
    × (pos 0 ≤ℤ to_big_int e.amount0)
    × (pos 0 ≤ℤ to_big_int e.amount1)

pub record IsCovered (s : V3PositionState) : Type 0 where
  pub liquidity_nonneg : pos 0 ≤ℤ s.liquidity
  pub amount0_nonneg : pos 0 ≤ℤ s.amount0
  pub amount1_nonneg : pos 0 ≤ℤ s.amount1
  pub fees0_nonneg : pos 0 ≤ℤ s.fees0
  pub fees1_nonneg : pos 0 ≤ℤ s.fees1
  pub amount0_covered : s.amount0 ≤ℤ s.cost_basis0
  pub amount1_covered : s.amount1 ≤ℤ s.cost_basis1

apply_as-IsCovered :
    (t : EventType) (s : V3PositionState) (e : V3LiquidityEvent) {s' : V3PositionState}
    → IsCovered s
    → IsUnsigned e
    → apply_as t s e ≡ some s'
    → IsCovered s'
unfolding apply_as
apply_as-IsCovered EventType.transfer s e v u h = grind int_laws
apply_as-IsCovered EventType.collect s e v u h = grind int_laws
apply_as-IsCovered EventType.increase s e v u h = grind int_laws
apply_as-IsCovered EventType.decrease s e v u h = grind int_laws
apply_as-IsCovered EventType.mint s e v u h = grind int_laws
apply_as-IsCovered EventType.burn s e v u h = grind int_laws

initial_state-IsCovered : (t : String) → IsCovered (initial_state t)
initial_state-IsCovered t = omega arith

get_or_initial-IsCovered :
    (t : String) (states : Dict V3PositionState)
    → AllValues IsCovered states
    → IsCovered (get_or_initial t states)
get_or_initial-IsCovered t states h = elim (Option-cases (get states t)) [
  | inl e ↦ rw (e, get_or_initial) (initial_state-IsCovered t)
  | inr (s, e) ↦ rw (e, get_or_initial) (h t s e)
]

reduce_token-IsCovered :
    (t : Option String) (e : V3LiquidityEvent) (states : Dict V3PositionState)
    → AllValues IsCovered states
    → IsUnsigned e
    → AllValues IsCovered (reduce_token t e states)
unfolding reduce_token apply_event
reduce_token-IsCovered none e states h u = h
reduce_token-IsCovered (some t) e states h u =
    let s = get_or_initial t states in
    let covered = get_or_initial-IsCovered t states h in
    elim (Option-cases (apply_event s e)) [
      | inl refused ↦ rw refused h
      | inr (s', applied) ↦ rw applied (
          put-AllValues IsCovered states t s'
            (apply_as-IsCovered e.event_type s e covered u applied) h)
    ]

reduce_from-IsCovered :
    (states : Dict V3PositionState) (events : List V3LiquidityEvent)
    → AllValues IsCovered states
    → All IsUnsigned events
    → AllValues IsCovered (reduce_from states events)
unfolding reduce_from
reduce_from-IsCovered states [] h u = h
reduce_from-IsCovered states (e ∷ es) h (u, us) =
    reduce_from-IsCovered (reduce_token e.token_id e states) es
      (reduce_token-IsCovered e.token_id e states h u) us

-- For events with unsigned amounts, in whatever order they arrive, every reduced state has
-- non-negative liquidity, amounts and fees, and its amounts do not exceed its cost basis.
pub reduce_v3_position_events-IsCovered :
    (events : List V3LiquidityEvent) (t : String) {s : V3PositionState}
    → All IsUnsigned events
    → get (reduce_v3_position_events events) t ≡ some s
    → IsCovered s
unfolding reduce_v3_position_events sort
reduce_v3_position_events-IsCovered events t {s} u e =
    reduce_from-IsCovered [] (sort events) (nil-AllValues IsCovered)
      (sort_by-All stays_before IsUnsigned events u) t s e
