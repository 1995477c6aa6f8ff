-- ===== src/Orders/Evaluate.antt =====
-- The queue handler `handleTpSlEvaluate` (apps/api/src/workers/queue-handler.ts): it reads the row,
-- the prices and the clock, decides, perhaps sends a transaction, and then writes the row. The
-- reads and the decision are `evaluate`, the write is `commit`, and other workers may write between.
use aether_dex.Prelude.{ℕ, Bool, true, false, ◌&&◌, Option, none, some, String, not, ◌==◌, ltb}
use aether_dex.Prelude.Result.{Result, ok, err, ◌>>=◌, or_err, demand}
use aether_dex.Prelude.Text.{is_decimal}
use aether_dex.Prelude.Table.{update_where, find_where}
use aether_dex.Orders.{OrderType, OrderStatus, TpSlOrder, OrderStore, is_open}
use aether_dex.Orders.Trigger.{
  Runtime, KeeperSignerEnv, parse_chain_id, is_triggered, read_integer_cache_value,
  can_execute_tp_sl_order, resolve_tpsl_address, encode_execute_order,
}

pub record TpSlEvaluateMessage : Type 0 where
  pub order_id : ℕ
  pub onchain_order_id : String
  pub pool_id : String
  pub order_type : OrderType
  pub zero_for_one : Bool
  pub amount_in : String
  pub min_amount_out : String
  pub trigger_price_x18 : String
  pub twap_window : ℕ
  pub slippage_bps : ℕ
  pub deadline : ℕ
  pub user_address : String
  pub chain_id : ℕ

-- The keys `poolSpot:<pool>` and `twap:<pool>:<window>` of the price cache.
pub data CacheKey : Type 0 where
  pool_spot : String → CacheKey
  twap : String → ℕ → CacheKey

-- The worker's environment. `cache_get` is `none` where the read throws; `chain_twap` is what
-- `getCurrentTwap` returns, `none` where the call or the write of the cache behind it throws. D1
-- refuses the `SELECT` where `db_down`.
pub record QueueEnv : Type 0 where
  pub db_down : Bool
  pub signer : KeeperSignerEnv
  pub rpc_url : Option String
  pub aether_hook_address : Option String
  pub cache_get : CacheKey → Option (Option String)
  pub chain_twap : String → ℕ → Option String

pub record SendTransactionInput : Type 0 where
  pub to : String
  pub data_hex : String
  pub value : Option ℕ
  pub chain_id : Option ℕ
  pub gas_limit : Option ℕ

-- What `sendTransaction` comes to; `failed` holds `isTransientKeeperError` of what it throws.
pub data SubmissionResult : Type 0 where
  submitted : String → Option Bool → SubmissionResult
  submission_disabled : SubmissionResult
  failed : Bool → SubmissionResult

-- `Date.now()` at the three places that read it.
pub record Clock : Type 0 where
  pub at_expiry : ℕ
  pub at_gate : ℕ
  pub at_write : ℕ

-- How the handler ends without a submission: it returns, it throws and the message is delivered
-- again, or it writes that the order has expired.
pub data Stop : Type 0 where
  skip retry expire : Stop

-- What is left to do with the row.
pub data Plan : Type 0 where
  stop : Stop → Plan
  unconfirmed : String → Plan
  confirmed : String → Plan

-- `!value`
abbrev pub nonempty : Option String → Option String
nonempty none = none
nonempty (some String.[]) = none
nonempty (some s) = some s

module _ (rt : Runtime) where
  unfoldable pub read_twap_from_chain : QueueEnv → String → ℕ → Option String
  read_twap_from_chain env pool_id window = elim (nonempty env.rpc_url) [
    | none ↦ none
    | some _ ↦ elim (nonempty env.aether_hook_address) [
      | none ↦ none
      | some _ ↦ env.chain_twap pool_id window
    ]
  ]

  abbrev cached_twap : Option String → Option String
  cached_twap none = none
  cached_twap (some payload) = read_integer_cache_value rt payload

  abbrev chain_twap_value : Option String → Option String
  chain_twap_value none = none
  chain_twap_value (some price) = read_integer_cache_value rt (rt.price_payload price)

  abbrev first_twap : Option String → Option String → Option String
  first_twap (some cached) from_chain = some cached
  first_twap none from_chain = from_chain

  unfoldable pub read_twap : QueueEnv → String → ℕ → Option String → Option String
  read_twap env pool_id window cached =
      first_twap (cached_twap cached) (chain_twap_value (read_twap_from_chain env pool_id window))

  -- The row, where it is pending and the message's deadline has not passed, with the on-chain id
  -- that it must have.
  unfoldable pub load_order :
      QueueEnv → Clock → TpSlEvaluateMessage → OrderStore → Result Stop (TpSlOrder × String)
  load_order env clock msg s = do
    _ ← demand Stop.retry (not env.db_down)
    order ← or_err Stop.skip (find_where (is_open msg.order_id msg.chain_id) s.orders)
    _ ← demand Stop.expire (not (ltb msg.deadline clock.at_expiry))
    onchain_id ← or_err Stop.skip order.onchain_order_id
    _ ← demand Stop.skip (is_decimal onchain_id)
    ok (order, onchain_id)

  -- The texts of the two prices.
  unfoldable pub read_prices : QueueEnv → TpSlEvaluateMessage → Result Stop (String × String)
  read_prices env msg = do
    spot_read ← or_err Stop.retry (env.cache_get (CacheKey.pool_spot msg.pool_id))
    spot_data ← or_err Stop.skip (nonempty spot_read)
    spot_text ← or_err Stop.skip (read_integer_cache_value rt spot_data)
    twap_data ← or_err Stop.retry (env.cache_get (CacheKey.twap msg.pool_id msg.twap_window))
    twap_text ← or_err Stop.skip (read_twap env msg.pool_id msg.twap_window twap_data)
    ok (spot_text, twap_text)

  unfoldable pub check_trigger : TpSlEvaluateMessage → String → String → Result Stop (Unit {0})
  check_trigger msg spot_text twap_text = do
    trigger ← or_err Stop.retry (rt.big_int msg.trigger_price_x18)
    spot ← or_err Stop.retry (rt.big_int spot_text)
    average ← or_err Stop.retry (rt.big_int twap_text)
    demand Stop.skip (is_triggered msg.order_type msg.zero_for_one trigger spot average)

  -- The authorization gate, and the transaction.
  unfoldable pub build_submission :
      QueueEnv → Clock → TpSlEvaluateMessage → TpSlOrder → String → Result Stop SendTransactionInput
  build_submission env clock msg order onchain_id = do
    expected ← or_err Stop.skip (parse_chain_id env.signer.chain_id)
    _ ← demand Stop.skip (
        can_execute_tp_sl_order rt
          (record {
            status = order.status;
            deadline = msg.deadline;
            chain_id = msg.chain_id;
            amount_in = some msg.amount_in;
          })
          (record { expected_chain_id = expected; max_amount_in = none }) clock.at_gate)
    address ← or_err Stop.skip (resolve_tpsl_address rt env.signer)
    payload ← or_err Stop.skip (encode_execute_order rt onchain_id)
    ok (record {
      to = address;
      data_hex = payload;
      value = none;
      chain_id = some msg.chain_id;
      gas_limit = none;
    })

  -- Up to the submission: the transaction to send, or what the early returns leave to do.
  unfoldable pub authorise :
      QueueEnv → Clock → TpSlEvaluateMessage → OrderStore → Result Stop SendTransactionInput
  authorise env clock msg s = do
    loaded ← load_order env clock msg s
    prices ← read_prices env msg
    _ ← check_trigger msg prices.0 prices.1
    build_submission env clock msg loaded.0 loaded.1

-- After the submission. Only a receipt that is confirmed executes the order.
unfoldable pub plan_of : SubmissionResult → Plan
plan_of (SubmissionResult.failed true) = Plan.stop Stop.retry
plan_of (SubmissionResult.failed false) = Plan.stop Stop.skip
plan_of SubmissionResult.submission_disabled = Plan.stop Stop.skip
plan_of (SubmissionResult.submitted hash (some true)) = Plan.confirmed hash
plan_of (SubmissionResult.submitted hash _) = Plan.unconfirmed hash

-- The plan, and the transaction that was sent.
abbrev pub after :
    (SendTransactionInput → SubmissionResult)
    → Result Stop SendTransactionInput
    → Plan × Option SendTransactionInput
after send (err reason) = (Plan.stop reason, none)
after send (ok input) = (plan_of (send input), some input)

unfoldable pub evaluate :
    Runtime
    → QueueEnv
    → (SendTransactionInput → SubmissionResult)
    → Clock
    → TpSlEvaluateMessage
    → OrderStore
    → Plan × Option SendTransactionInput
evaluate rt env send clock msg s = after send (authorise rt env clock msg s)

abbrev pub has_key : TpSlEvaluateMessage → TpSlOrder → Bool
has_key msg o = o.id == msg.order_id && o.chain_id == msg.chain_id

-- The write, on the store as it is by then. An update that D1 refuses (`down`) writes nothing.
unfoldable pub commit : Bool → Clock → TpSlEvaluateMessage → Plan → OrderStore → OrderStore
commit true clock msg plan s = s
commit false clock msg (Plan.stop Stop.skip) s = s
commit false clock msg (Plan.stop Stop.retry) s = s
commit false clock msg (Plan.stop Stop.expire) s = record s {
  orders = update_where (has_key msg) (λ o. record o { status = OrderStatus.expired }) s.orders;
}
commit false clock msg (Plan.unconfirmed hash) s = record s {
  orders =
      update_where (is_open msg.order_id msg.chain_id)
        (λ o. record o { execution_tx_hash = some hash; updated_at = some clock.at_write })
        s.orders;
}
commit false clock msg (Plan.confirmed hash) s = record s {
  orders =
      update_where (is_open msg.order_id msg.chain_id)
        (λ o. record o {
          status = OrderStatus.executed;
          execution_tx_hash = some hash;
          executed_at = some clock.at_write;
          updated_at = some clock.at_write;
        })
        s.orders;
}
