-- ===== src/Zap/Search.antt =====
-- `findV4SwapAmount` (apps/web/src/lib/v4-liquidity.ts): a bisection over the part of the input to
-- swap, at most twelve quotes deep.
use aether_dex.Prelude.{
  ℕ, zero, suc, ◌+◌, ◌-◌, ◌/◌, Bool, true, false, not, Option, none, some, ltb, if◌then◌else◌,
}
use aether_dex.Prelude.Result.{Result, ok, ◌>>=◌, or_err, demand}
use aether_dex.Prelude.Int.{ℤ, pos}
use aether_dex.Zap.{V4LiquidityPoolInput, Position, Sdk, ZapError}

pub record V4SwapQuote : Type 0 where
  pub amount_out : ℕ
  pub min_amount_out : ℕ

pub record Candidate : Type 0 where
  pub swap_amount_in : ℕ
  pub quote : V4SwapQuote
  pub error : ℕ

-- The input of a search. A quote is `none` where it throws.
pub record SearchInput : Type 0 where
  pub pool : V4LiquidityPoolInput
  pub tick_lower : ℤ
  pub tick_upper : ℤ
  pub zero_for_one : Bool
  pub amount_in : ℕ
  pub quote : ℕ → Option V4SwapQuote

-- A candidate, and whether its position consumes less than what is left of the input.
pub record Probe : Type 0 where
  pub candidate : Candidate
  pub too_little : Bool

abbrev pub distance : ℕ → ℕ → ℕ
distance a b = if ltb b a then a - b else b - a

abbrev pub consumed_of : Bool → Position → ℕ
consumed_of true position = position.mint_amount0
consumed_of false position = position.mint_amount1

abbrev pub better : Option Candidate → Candidate → Candidate
better none c = c
better (some best) c = if ltb c.error best.error then c else best

module _ (sdk : Sdk) (input : SearchInput) where
  abbrev pub amounts_position : ℕ → ℕ → Option Position
  amounts_position remaining out =
      if input.zero_for_one
      then sdk.from_amounts input.pool input.tick_lower input.tick_upper (pos remaining) (pos out)
      else sdk.from_amounts input.pool input.tick_lower input.tick_upper (pos out) (pos remaining)

  -- One round of the loop at an amount to swap.
  unfoldable pub probe : ℕ → Result ZapError Probe
  probe swap_amount_in = do
    quote ← or_err ZapError.quote_failed (input.quote swap_amount_in)
    let remaining = input.amount_in - swap_amount_in
    position ← or_err ZapError.sdk_failed (amounts_position remaining quote.amount_out)
    let consumed = consumed_of input.zero_for_one position
    ok (record {
      candidate = record {
        swap_amount_in = swap_amount_in;
        quote = quote;
        error = distance consumed remaining;
      };
      too_little = ltb consumed remaining;
    })

  abbrev pub next_low : Probe → ℕ → ℕ → ℕ
  next_low p low middle = if p.too_little then middle + 1 else low

  abbrev pub next_high : Probe → ℕ → ℕ → ℕ
  next_high p high middle = if p.too_little then high else middle - 1

  -- The loop, with the rounds that are left.
  unfoldable pub search : ℕ → ℕ → ℕ → Option Candidate → Result ZapError (Option Candidate)
  search zero low high best = ok best
  search (suc n) low high best =
      let middle = (low + high) / 2 in
      let rest = probe middle >>= (λ p.
        search n (next_low p low middle) (next_high p high middle)
          (some (better best p.candidate))) in
      if ltb high low then ok best else rest

  unfoldable pub find_v4_swap_amount : Result ZapError Candidate
  find_v4_swap_amount = do
    _ ← demand ZapError.too_small (not (ltb input.amount_in 3))
    best ← search 12 1 (input.amount_in - 1) none
    or_err ZapError.no_candidate best
