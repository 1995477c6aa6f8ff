-- ===== src/Positions.antt =====
-- V3 positions rebuilt from their log events: apps/api/src/services/v3-position-reducer.ts, over
-- the events of v3-liquidity-events.ts. An amount is a decimal string in the source, which
-- `BigInt` reads: here it is the integer that the string denotes.
mod Order
mod Accounting
mod Isolation
mod Tests
use aether_dex.Prelude.{
  ℕ, Bool, true, false, Option, none, some, List, [], ◌∷◌, String, if◌then◌else◌, ◌||◌, not,
}
use aether_dex.Prelude.Int.{ℤ, pos, ◌+ℤ◌, ◌-ℤ◌, leb_ℤ, ltb_ℤ, eqb_ℤ}
use aether_dex.Prelude.Sort.{sort_by}
use aether_dex.Prelude.Dict.{Dict, get, put}

pub data EventType : Type 0 where
  mint burn increase decrease collect transfer : EventType

pub record V3LiquidityEvent : Type 0 where
  pub event_type : EventType
  pub tx_hash : String
  pub log_index : ℕ
  pub block_number : ℕ
  pub pool_id : Option String
  pub token_id : Option String
  pub owner_address : Option String
  pub tick_lower : Option ℤ
  pub tick_upper : Option ℤ
  pub liquidity_delta : Option ℤ
  pub amount0 : Option ℤ
  pub amount1 : Option ℤ

pub record V3PositionState : Type 0 where
  pub token_id : String
  pub owner_address : Option String
  pub is_active : Bool
  pub liquidity : ℤ
  pub amount0 : ℤ
  pub amount1 : ℤ
  pub fees0 : ℤ
  pub fees1 : ℤ
  pub cost_basis0 : ℤ
  pub cost_basis1 : ℤ

-- The state that a token's first event starts from.
abbrev pub initial_state : String → V3PositionState
initial_state t = record {
  token_id = t;
  owner_address = none;
  is_active = true;
  liquidity = pos 0;
  amount0 = pos 0;
  amount1 = pos 0;
  fees0 = pos 0;
  fees1 = pos 0;
  cost_basis0 = pos 0;
  cost_basis1 = pos 0;
}

-- `value === null ? 0n : BigInt(value)`
abbrev pub to_big_int : Option ℤ → ℤ
to_big_int none = pos 0
to_big_int (some v) = v

abbrev is_some {ℓ} : {A : Type ℓ} → Option A → Bool
is_some none = false
is_some (some _) = true

unfoldable pub apply_as : EventType → V3PositionState → V3LiquidityEvent → Option V3PositionState
apply_as EventType.transfer state event =
    some (record state {
      owner_address = event.owner_address;
      is_active = is_some event.owner_address;
    })
apply_as EventType.collect state event = some (record state {
  fees0 = state.fees0 +ℤ to_big_int event.amount0;
  fees1 = state.fees1 +ℤ to_big_int event.amount1;
})
apply_as EventType.increase state event =
    let delta0 = to_big_int event.amount0 in
    let delta1 = to_big_int event.amount1 in
    some (record state {
      liquidity = state.liquidity +ℤ to_big_int event.liquidity_delta;
      amount0 = state.amount0 +ℤ delta0;
      amount1 = state.amount1 +ℤ delta1;
      cost_basis0 = state.cost_basis0 +ℤ delta0;
      cost_basis1 = state.cost_basis1 +ℤ delta1;
    })
apply_as EventType.decrease state event =
    let delta_liquidity = to_big_int event.liquidity_delta in
    let delta0 = to_big_int event.amount0 in
    let delta1 = to_big_int event.amount1 in
    if ltb_ℤ state.liquidity delta_liquidity
      || ltb_ℤ state.amount0 delta0
      || ltb_ℤ state.amount1 delta1
    then none
    else some (record state {
      is_active = ltb_ℤ (pos 0) (state.liquidity -ℤ delta_liquidity);
      liquidity = state.liquidity -ℤ delta_liquidity;
      amount0 = state.amount0 -ℤ delta0;
      amount1 = state.amount1 -ℤ delta1;
    })
apply_as EventType.mint state event = some state
apply_as EventType.burn state event = some state

unfoldable pub apply_event : V3PositionState → V3LiquidityEvent → Option V3PositionState
unfolding apply_as
apply_event state event = apply_as event.event_type state event

-- The comparator of the `sort`: block number, then log index.
abbrev pub comparator : V3LiquidityEvent → V3LiquidityEvent → ℤ
comparator left right =
    let blocks = pos left.block_number -ℤ pos right.block_number in
    if not (eqb_ℤ blocks (pos 0)) then blocks else pos left.log_index -ℤ pos right.log_index

-- The comparator's verdict that `left` may stay before `right`.
pub stays_before : V3LiquidityEvent → V3LiquidityEvent → Bool
stays_before left right = leb_ℤ (comparator left right) (pos 0)

-- The `sort` of the reducer.
pub sort : List V3LiquidityEvent → List V3LiquidityEvent
unfolding sort_by stays_before
sort events = sort_by stays_before events

abbrev get_or_initial : String → Dict V3PositionState → V3PositionState
get_or_initial t states = elim (get states t) [ none ↦ initial_state t | some s ↦ s ]

abbrev set_state : String → Option V3PositionState → Dict V3PositionState → Dict V3PositionState
set_state t none states = states
set_state t (some s) states = put states t s

-- One round of the loop, on the event's token id.
reduce_token : Option String → V3LiquidityEvent → Dict V3PositionState → Dict V3PositionState
reduce_token none event states = states
reduce_token (some t) event states =
    set_state t (apply_event (get_or_initial t states) event) states

pub reduce_from : Dict V3PositionState → List V3LiquidityEvent → Dict V3PositionState
unfolding reduce_token
reduce_from states [] = states
reduce_from states (event ∷ events) = reduce_from (reduce_token event.token_id event states) events

unfoldable pub reduce_v3_position_events : List V3LiquidityEvent → Dict V3PositionState
unfolding reduce_from sort apply_event ◌-ℤ◌ ◌+ℤ◌
reduce_v3_position_events events = reduce_from [] (sort events)
