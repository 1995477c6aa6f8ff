-- ===== src/Zap/Call.antt =====
-- What holds of every call that is built for single-sided liquidity.
use aether_dex.Prelude.{ℕ, ◌+◌, ◌*◌, ◌≤◌, ◌<◌, ◌≡◌, some}
use aether_dex.Prelude.Int.{pos, pos_part, ◌≤ℤ◌, ◌<ℤ◌}
use aether_dex.Zap.{V4SingleSidedCallInput, V4SingleSidedCall, Sdk, max_uint128, max_int128}

-- The least amount that the call takes is not more than the SDK expects, and not less than nineteen
-- twentieths of it, rounded down.
pub record IsFloor (floor expected : ℕ) : Type 0 where
  pub at_most : floor ≤ expected
  pub slips : expected * 9500 < (floor + 1) * 10000

-- The amounts of a call.
pub record IsSplit (input : V4SingleSidedCallInput) : Type 0 where
  pub swaps : pos 0 <ℤ input.swap_amount_in
  pub within : input.swap_amount_in ≤ℤ input.amount_in
  pub fits : input.amount_in ≤ℤ pos max_uint128
  pub takes : pos 0 <ℤ input.min_swap_amount_out
  pub quoted : input.min_swap_amount_out ≤ℤ input.quoted_amount_out
  pub ordered : input.tick_lower <ℤ input.tick_upper
  pub slippage : pos_part input.slippage_bps ≤ 500

pub record IsSound (sdk : Sdk) (input : V4SingleSidedCallInput) (call : V4SingleSidedCall)
    : Type 0 where
  pub split : IsSplit input
  pub positive : 1 ≤ call.liquidity_delta
  pub fits : call.liquidity_delta ≤ max_int128
  pub pool : call.params.pool ≡ input.pool
  pub tick_lower : call.params.tick_lower ≡ input.tick_lower
  pub tick_upper : call.params.tick_upper ≡ input.tick_upper
  pub zero_for_one : call.params.zero_for_one ≡ input.zero_for_one
  pub amount_in : call.params.amount_in ≡ input.amount_in
  pub swap_amount_in : call.params.swap_amount_in ≡ input.swap_amount_in
  pub min_swap_amount_out : call.params.min_swap_amount_out ≡ input.min_swap_amount_out
  pub params_deadline : call.params.deadline ≡ input.deadline
  pub deadline : call.deadline ≡ input.deadline
  pub delta : call.params.liquidity_delta ≡ call.liquidity_delta
  pub encoded : sdk.encode call.params ≡ some call.calldata
  pub floor0 : IsFloor call.params.min_amount0 call.expected_amount0
  pub floor1 : IsFloor call.params.min_amount1 call.expected_amount1
