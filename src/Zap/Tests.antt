-- ===== src/Zap/Tests.antt =====
-- A search and a call on a pool.
use aether_dex.Prelude.{◌+◌, ◌≡◌, refl, true, none, some, ltb, if◌then◌else◌}
use aether_dex.Prelude.Int.{pos, pos_part}
use aether_dex.Prelude.Result.{ok, ◌>>=◌, or_err, demand}
use aether_dex.Zap.{V4LiquidityPoolInput, V4SingleSidedCallInput, V4SingleSidedCall, Sdk}
use aether_dex.Zap.Search.{Candidate, SearchInput, probe, search, find_v4_swap_amount}

abbrev pool : V4LiquidityPoolInput
pool = record {
  chain_id = 1;
  token0 = "0xa";
  token1 = "0xb";
  token0_decimals = 18;
  token1_decimals = 18;
  fee = 30;
  tick_spacing = pos 60;
  hooks = "0x0";
  sqrt_price_x96 = pos 1000;
  liquidity = pos 1000;
  current_tick = pos 0;
}

-- A position that takes as much of either token as there is of the other.
abbrev sdk : Sdk
sdk = record {
  from_amounts = λ p lower upper a0 a1. some (record {
    liquidity = pos_part a0 + pos_part a1;
    mint_amount0 = if ltb (pos_part a0) (pos_part a1) then pos_part a0 else pos_part a1;
    mint_amount1 = if ltb (pos_part a0) (pos_part a1) then pos_part a0 else pos_part a1;
  });
  encode = λ params. some "0xcall";
}

abbrev searching : SearchInput
searching = record {
  pool = pool;
  tick_lower = pos 0;
  tick_upper = pos 60;
  zero_for_one = true;
  amount_in = 100;
  quote = λ amount. some (record { amount_out = amount; min_amount_out = amount });
}

half : (r : Candidate) × (find_v4_swap_amount sdk searching ≡ ok r) × (r.swap_amount_in ≡ 50)
unfolding find_v4_swap_amount search probe ◌>>=◌ or_err demand
half = (_, refl, refl)

abbrev calling : V4SingleSidedCallInput
calling = record {
  pool = pool;
  tick_lower = pos 0;
  tick_upper = pos 60;
  zero_for_one = true;
  amount_in = pos 100;
  swap_amount_in = pos 50;
  quoted_amount_out = pos 50;
  min_swap_amount_out = pos 49;
  slippage_bps = pos 50;
  deadline = pos 2000;
  hook_data = none;
}

abbrev built : V4SingleSidedCall
built = record {
  params = record {
    pool = pool;
    tick_lower = pos 0;
    tick_upper = pos 60;
    liquidity_delta = 100;
    zero_for_one = true;
    amount_in = pos 100;
    swap_amount_in = pos 50;
    min_swap_amount_out = pos 49;
    min_amount0 = 49;
    min_amount1 = 49;
    deadline = pos 2000;
    hook_data = "0x";
  };
  calldata = "0xcall";
  deadline = pos 2000;
  liquidity_delta = 100;
  expected_amount0 = 50;
  expected_amount1 = 50;
}
