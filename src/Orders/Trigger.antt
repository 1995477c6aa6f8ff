-- ===== src/Orders/Trigger.antt =====
-- What decides whether the keeper may execute an order: the two prices against the trigger
-- (apps/api/src/workers/queue-handler.ts), the authorization gate and the addresses
-- (apps/api/src/lib/keeper-signer.ts), and the chain id (apps/api/src/lib/chain-id.ts).
use aether_dex.Prelude.{
  ℕ, Bool, true, false, not, ◌&&◌, Option, none, some, String, ◌==◌, leb, if◌then◌else◌,
}
use aether_dex.Prelude.Chain.{◌>>=◌}
use aether_dex.Prelude.Int.{ℤ, pos, leb_ℤ, ltb_ℤ}
use aether_dex.Prelude.Text.{is_decimal, is_positive_decimal, decimal_value}
use aether_dex.Orders.{OrderType, OrderStatus, is_pending}

-- What the code calls of the JavaScript runtime and of viem.
pub record Runtime : Type 0 where
  -- `BigInt(s)`, which throws on a text that denotes no integer.
  pub big_int : String → Option ℤ
  -- `JSON.parse(payload).price` where that is a text.
  pub price_field : String → Option String
  -- `JSON.stringify({ price })`
  pub price_payload : String → String
  pub trim : String → String
  pub is_address : String → Bool
  -- `encodeFunctionData` of `executeOrder(id, "0x")`
  pub encode_execute : ℤ → String

-- `Number.MAX_SAFE_INTEGER`
abbrev pub max_safe_integer : ℕ
max_safe_integer = 9007199254740991

unfoldable pub parse_chain_id : Option String → Option ℕ
parse_chain_id none = none
parse_chain_id (some value) =
    if not (is_positive_decimal value)
    then none
    else if leb (decimal_value value) max_safe_integer
    then some (decimal_value value)
    else none

-- `take_profit` of the input token waits for a fall, `stop_loss` for a rise; of the output token
-- each for the other.
unfoldable pub is_triggered : OrderType → Bool → ℤ → ℤ → ℤ → Bool
is_triggered OrderType.take_profit true trigger spot twap = leb_ℤ spot trigger && leb_ℤ twap trigger
is_triggered OrderType.take_profit false trigger spot twap =
    leb_ℤ trigger spot && leb_ℤ trigger twap
is_triggered OrderType.stop_loss true trigger spot twap = leb_ℤ trigger spot && leb_ℤ trigger twap
is_triggered OrderType.stop_loss false trigger spot twap = leb_ℤ spot trigger && leb_ℤ twap trigger

pub record TpSlExecutableLike : Type 0 where
  pub status : OrderStatus
  pub deadline : ℕ
  pub chain_id : ℕ
  pub amount_in : Option String

pub record TpSlExecutionPolicy : Type 0 where
  pub expected_chain_id : ℕ
  pub max_amount_in : Option ℤ

pub record KeeperSignerEnv : Type 0 where
  pub chain_id : Option String
  pub keeper_private_key : Option String
  pub keeper_rpc_url : Option String
  pub keeper_max_gas_price_gwei : Option String
  pub keeper_min_balance_eth : Option String
  pub keeper_allow_public_submission : Option String
  pub private_tx_relay_url : Option String
  pub tpsl_address : Option String
  pub aether_tpsl_address : Option String

module _ (rt : Runtime) where
  unfoldable pub read_integer_cache_value : String → Option String
  read_integer_cache_value payload = do
    value ← rt.price_field payload
    if not (is_decimal value) then none else do _ ← rt.big_int value; some value

  abbrev pub within_cap : Option String → Option ℤ → Bool
  within_cap amount none = true
  within_cap none (some cap) = elim (rt.big_int "") [ none ↦ false | some a ↦ not (ltb_ℤ cap a) ]
  within_cap (some text) (some cap) = elim (rt.big_int text) [
    | none ↦ false
    | some a ↦ not (ltb_ℤ cap a)
  ]

  unfoldable pub can_execute_tp_sl_order : TpSlExecutableLike → TpSlExecutionPolicy → ℕ → Bool
  can_execute_tp_sl_order order policy now =
      if not (is_pending order.status)
      then false
      else if leb order.deadline now
      then false
      else if not (order.chain_id == policy.expected_chain_id)
      then false
      else within_cap order.amount_in policy.max_amount_in

  abbrev parse_address : Option String → Option String
  parse_address none = none
  parse_address (some raw) = if rt.is_address (rt.trim raw) then some (rt.trim raw) else none

  abbrev either_address : Option String → Option String → Option String
  either_address none fallback = fallback
  either_address (some a) fallback = some a

  unfoldable pub resolve_tpsl_address : KeeperSignerEnv → Option String
  resolve_tpsl_address env =
      either_address (parse_address env.tpsl_address) (parse_address env.aether_tpsl_address)

  -- `none` where it throws.
  unfoldable pub encode_execute_order : String → Option String
  encode_execute_order order_id = do
    i ← rt.big_int order_id
    if ltb_ℤ i (pos 0) then none else some (rt.encode_execute i)
