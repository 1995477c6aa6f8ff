-- ===== src/Orders/Samples.antt =====
-- An order, a store, a message and a worker, to run the code on.
use aether_dex.Prelude.{ℕ, true, false, Option, none, some, [], ◌∷◌, String, str_eq, if◌then◌else◌}
use aether_dex.Prelude.Int.{pos}
use aether_dex.Prelude.Text.{is_decimal, decimal_value}
use aether_dex.Orders.{OrderType, OrderStatus, TpSlOrder, OrderStore}
use aether_dex.Orders.Trigger.{Runtime}
use aether_dex.Orders.Evaluate.{
  TpSlEvaluateMessage, CacheKey, QueueEnv, SendTransactionInput, SubmissionResult, Clock,
}

abbrev pub runtime : Runtime
runtime = record {
  big_int = λ s. if is_decimal s then some (pos (decimal_value s)) else none;
  price_field = λ payload. some payload;
  price_payload = λ price. price;
  trim = λ s. s;
  is_address = λ s. str_eq s "0xtpsl";
  encode_execute = λ i. "0xdata";
}

abbrev pub order_of : OrderStatus → TpSlOrder
order_of status = record {
  id = 1;
  onchain_order_id = some "17";
  user_address = "0xuser";
  pool_id = "0xpool";
  order_type = OrderType.stop_loss;
  zero_for_one = false;
  amount_in = "5";
  min_amount_out = "4";
  trigger_price_x18 = "100";
  twap_window = 60;
  slippage_bps = 50;
  deadline = 2000;
  status = status;
  created_at = 10;
  updated_at = none;
  executed_at = none;
  execution_tx_hash = none;
  execution_amount_out = none;
  chain_id = 1;
}

abbrev pub store_of : OrderStatus → OrderStore
store_of status = record {
  orders = order_of status ∷ [];
  executions = [];
  next_order_id = 2;
  next_execution_id = 1;
}

abbrev pub message : TpSlEvaluateMessage
message = record {
  order_id = 1;
  onchain_order_id = "17";
  pool_id = "0xpool";
  order_type = OrderType.stop_loss;
  zero_for_one = false;
  amount_in = "5";
  min_amount_out = "4";
  trigger_price_x18 = "100";
  twap_window = 60;
  slippage_bps = 50;
  deadline = 2000;
  user_address = "0xuser";
  chain_id = 1;
}

abbrev pub prices : CacheKey → Option (Option String)
prices (CacheKey.pool_spot p) = some (some "90")
prices (CacheKey.twap p w) = some (some "95")

abbrev pub worker : QueueEnv
worker = record {
  db_down = false;
  signer = record {
    chain_id = some "1";
    keeper_private_key = none;
    keeper_rpc_url = none;
    keeper_max_gas_price_gwei = none;
    keeper_min_balance_eth = none;
    keeper_allow_public_submission = none;
    private_tx_relay_url = none;
    tpsl_address = none;
    aether_tpsl_address = some "0xtpsl";
  };
  rpc_url = none;
  aether_hook_address = none;
  cache_get = prices;
  chain_twap = λ p w. none;
}

abbrev pub confirms : SendTransactionInput → SubmissionResult
confirms input = SubmissionResult.submitted "0xhash" (some true)

abbrev pub clock : ℕ → Clock
clock now = record { at_expiry = now; at_gate = now; at_write = now }

abbrev pub transaction : SendTransactionInput
transaction = record {
  to = "0xtpsl";
  data_hex = "0xdata";
  value = none;
  chain_id = some 1;
  gas_limit = none;
}
