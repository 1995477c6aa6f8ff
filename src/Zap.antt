-- ===== src/Zap.antt =====
-- Single-sided liquidity of v4 pools (apps/web/src/lib/v4-liquidity.ts): the checks of a call, the
-- call, and the errors. The SDK's pool and position arithmetic and the encoding of calls are the
-- record `Sdk`.
pub mod Search
pub mod Best
pub mod Call
mod Tests
use aether_dex.Prelude.{
  ℕ, ◌+◌, ◌-◌, ◌*◌, ◌/◌, ◌%◌, ◌^◌, Bool, true, false, not, ◌&&◌, ◌||◌, Option, none, some, String,
  ◌==◌, ltb, leb, if◌then◌else◌,
}
use aether_dex.Prelude.Result.{Result, ok, err, ◌>>=◌, or_err, demand}
use aether_dex.Prelude.Int.{ℤ, pos, pos_part, neg_part, ◌-ℤ◌, leb_ℤ, ltb_ℤ}

abbrev pub max_uint128 : ℕ
max_uint128 = 2 ^ 128 - 1

abbrev pub max_int128 : ℕ
max_int128 = 2 ^ 127 - 1

abbrev pub bps : ℕ
bps = 10000

pub record V4LiquidityPoolInput : Type 0 where
  pub chain_id : ℕ
  pub token0 : String
  pub token1 : String
  pub token0_decimals : ℕ
  pub token1_decimals : ℕ
  pub fee : ℕ
  pub tick_spacing : ℤ
  pub hooks : String
  pub sqrt_price_x96 : ℤ
  pub liquidity : ℤ
  pub current_tick : ℤ

pub record V4SingleSidedCallInput : Type 0 where
  pub pool : V4LiquidityPoolInput
  pub tick_lower : ℤ
  pub tick_upper : ℤ
  pub zero_for_one : Bool
  pub amount_in : ℤ
  pub swap_amount_in : ℤ
  pub quoted_amount_out : ℤ
  pub min_swap_amount_out : ℤ
  pub slippage_bps : ℤ
  pub deadline : ℤ
  pub hook_data : Option String

-- What the code reads of a `Position` of the SDK.
pub record Position : Type 0 where
  pub liquidity : ℕ
  pub mint_amount0 : ℕ
  pub mint_amount1 : ℕ

-- The arguments of `addLiquiditySingleSided`.
pub record SingleSidedParams : Type 0 where
  pub pool : V4LiquidityPoolInput
  pub tick_lower : ℤ
  pub tick_upper : ℤ
  pub liquidity_delta : ℕ
  pub zero_for_one : Bool
  pub amount_in : ℤ
  pub swap_amount_in : ℤ
  pub min_swap_amount_out : ℤ
  pub min_amount0 : ℕ
  pub min_amount1 : ℕ
  pub deadline : ℤ
  pub hook_data : String

-- `new Pool(…)` with `Position.fromAmounts`, and `encodeFunctionData`; `none` where they throw.
pub record Sdk : Type 0 where
  pub from_amounts : V4LiquidityPoolInput → ℤ → ℤ → ℤ → ℤ → Option Position
  pub encode : SingleSidedParams → Option String

pub record V4SingleSidedCall : Type 0 where
  pub params : SingleSidedParams
  pub calldata : String
  pub deadline : ℤ
  pub liquidity_delta : ℕ
  pub expected_amount0 : ℕ
  pub expected_amount1 : ℕ

pub data ZapError : Type 0 where
  range multiples amounts swap_quote slippage uint128 spacing pool_state past_deadline : ZapError
  sdk_failed delta_out_of_range too_small quote_failed no_candidate : ZapError

-- `Number.isSafeInteger` of an integer.
abbrev pub is_safe : ℤ → Bool
is_safe n = leb_ℤ n (pos 9007199254740991) && leb_ℤ (pos 0 -ℤ pos 9007199254740991) n

abbrev magnitude : ℤ → ℕ
magnitude n = pos_part n + neg_part n

-- `a % b === 0`; the remainder by 0 is NaN.
abbrev pub is_multiple : ℤ → ℤ → Bool
is_multiple a b = not (magnitude b == 0) && magnitude a % magnitude b == 0

-- The checks of the range and the amounts, in the order of the source.
unfoldable pub validate_amounts : V4SingleSidedCallInput → Result ZapError (Unit {0})
validate_amounts input = do
  _ ← demand ZapError.range (
      is_safe input.tick_lower
      && is_safe input.tick_upper
      && ltb_ℤ input.tick_lower input.tick_upper)
  _ ← demand ZapError.multiples (
      is_multiple input.tick_lower input.pool.tick_spacing
      && is_multiple input.tick_upper input.pool.tick_spacing)
  _ ← demand ZapError.amounts (
      ltb_ℤ (pos 0) input.amount_in
      && ltb_ℤ (pos 0) input.swap_amount_in
      && leb_ℤ input.swap_amount_in input.amount_in)
  demand ZapError.swap_quote (
      ltb_ℤ (pos 0) input.quoted_amount_out
      && ltb_ℤ (pos 0) input.min_swap_amount_out
      && leb_ℤ input.min_swap_amount_out input.quoted_amount_out)

unfoldable pub validate_limits : V4SingleSidedCallInput → Result ZapError (Unit {0})
validate_limits input = do
  _ ← demand ZapError.slippage (
      is_safe input.slippage_bps
      && leb_ℤ (pos 0) input.slippage_bps
      && leb_ℤ input.slippage_bps (pos 500))
  _ ← demand ZapError.uint128 (
      leb_ℤ input.amount_in (pos max_uint128)
      && leb_ℤ input.swap_amount_in (pos max_uint128)
      && leb_ℤ input.min_swap_amount_out (pos max_uint128))
  _ ← demand ZapError.spacing (ltb_ℤ (pos 0) input.pool.tick_spacing)
  _ ←
      demand ZapError.pool_state
        (ltb_ℤ (pos 0) input.pool.sqrt_price_x96 && ltb_ℤ (pos 0) input.pool.liquidity)
  demand ZapError.past_deadline (ltb_ℤ (pos 0) input.deadline)

unfoldable pub validate_input : V4SingleSidedCallInput → Result ZapError (Unit {0})
validate_input input = do _ ← validate_amounts input; validate_limits input

-- `(expected * slippageFactor) / BPS`; the slippage is between 0 and 500 by then.
unfoldable pub min_amount : ℕ → ℤ → ℕ
min_amount expected slippage_bps = expected * (bps - pos_part slippage_bps) / bps

abbrev text_or : String → Option String → String
text_or fallback none = fallback
text_or fallback (some s) = s

abbrev params_of : V4SingleSidedCallInput → Position → SingleSidedParams
params_of input position = record {
  pool = input.pool;
  tick_lower = input.tick_lower;
  tick_upper = input.tick_upper;
  liquidity_delta = position.liquidity;
  zero_for_one = input.zero_for_one;
  amount_in = input.amount_in;
  swap_amount_in = input.swap_amount_in;
  min_swap_amount_out = input.min_swap_amount_out;
  min_amount0 = min_amount position.mint_amount0 input.slippage_bps;
  min_amount1 = min_amount position.mint_amount1 input.slippage_bps;
  deadline = input.deadline;
  hook_data = text_or "0x" input.hook_data;
}

-- The position of the amounts: the input that is left on one side, the quoted output on the other.
abbrev position_of : Sdk → V4SingleSidedCallInput → Option Position
position_of sdk input =
    let remaining = input.amount_in -ℤ input.swap_amount_in in
    if input.zero_for_one
    then sdk.from_amounts input.pool input.tick_lower input.tick_upper remaining
        input.quoted_amount_out
    else sdk.from_amounts input.pool input.tick_lower input.tick_upper input.quoted_amount_out
        remaining

unfoldable pub build_v4_single_sided_call :
    Sdk → V4SingleSidedCallInput → Result ZapError V4SingleSidedCall
build_v4_single_sided_call sdk input = do
  _ ← validate_input input
  position ← or_err ZapError.sdk_failed (position_of sdk input)
  _ ←
      demand ZapError.delta_out_of_range
        (ltb 0 position.liquidity && leb position.liquidity max_int128)
  calldata ← or_err ZapError.sdk_failed (sdk.encode (params_of input position))
  ok (record {
    params = params_of input position;
    calldata = calldata;
    deadline = input.deadline;
    liquidity_delta = position.liquidity;
    expected_amount0 = position.mint_amount0;
    expected_amount1 = position.mint_amount1;
  })
