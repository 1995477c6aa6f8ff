-- ===== src/Orders/Service.antt =====
-- The operations of `TpSlService` over D1. A statement that D1 refuses (`down`) writes nothing, and
-- the operation fails with the error that it maps the refusal to. Time is an argument.
use aether_dex.Prelude.{
  ℕ, ◌+◌, Bool, true, false, Option, none, some, List, [], ◌∷◌, ◌++◌, String, ◌&&◌, ◌==◌, leb, ltb,
  str_eq, if◌then◌else◌, filter, take,
}
use aether_dex.Prelude.Result.{Result, ok, err}
use aether_dex.Prelude.Sort.{sort_by}
use aether_dex.Prelude.Table.{update_where, count_where, find_where}
use aether_dex.Orders.{OrderType, OrderStatus, is_pending, TpSlOrder, OrderStore, is_open}

pub data OrderError : Type 0 where
  order_not_found : ℕ → OrderError
  order_create order_update order_query : OrderError

pub record CreateOrderInput : Type 0 where
  pub user_address : String
  pub pool_id : String
  pub order_type : OrderType
  pub zero_for_one : Bool
  pub amount_in : String
  pub min_amount_out : String
  pub trigger_price_x18 : String
  pub twap_window : ℕ
  pub slippage_bps : ℕ
  pub deadline : ℕ
  pub onchain_order_id : String
  pub chain_id : Option ℕ

abbrev pub sepolia : ℕ
sepolia = 11155111

-- `input.chainId ?? 11155111`
abbrev pub chain_or_default : Option ℕ → ℕ
chain_or_default none = sepolia
chain_or_default (some c) = c

abbrev has_onchain_id : String → Option String → Bool
has_onchain_id i none = false
has_onchain_id i (some j) = str_eq j i

-- The unique index on (chain_id, onchain_order_id), of the migration 0009.
abbrev pub is_taken : ℕ → String → List TpSlOrder → Bool
is_taken chain_id i orders =
    ltb 0 (count_where (λ o. o.chain_id == chain_id && has_onchain_id i o.onchain_order_id) orders)

abbrev pub new_order : ℕ → ℕ → CreateOrderInput → TpSlOrder
new_order order_id now input = record {
  id = order_id;
  onchain_order_id = some input.onchain_order_id;
  user_address = input.user_address;
  pool_id = input.pool_id;
  order_type = input.order_type;
  zero_for_one = input.zero_for_one;
  amount_in = input.amount_in;
  min_amount_out = input.min_amount_out;
  trigger_price_x18 = input.trigger_price_x18;
  twap_window = input.twap_window;
  slippage_bps = input.slippage_bps;
  deadline = input.deadline;
  status = OrderStatus.pending;
  created_at = now;
  updated_at = none;
  executed_at = none;
  execution_tx_hash = none;
  execution_amount_out = none;
  chain_id = chain_or_default input.chain_id;
}

unfoldable pub create_order :
    Bool → ℕ → CreateOrderInput → OrderStore → Result OrderError ℕ × OrderStore
create_order down now input s =
    if down
    then (err order_create, s)
    else if is_taken (chain_or_default input.chain_id) input.onchain_order_id s.orders
    then (err order_create, s)
    else (
      ok s.next_order_id,
      record s {
        orders = s.orders ++ new_order s.next_order_id now input ∷ [];
        next_order_id = s.next_order_id + 1;
      },
    )

unfoldable pub get_order : Bool → ℕ → ℕ → OrderStore → Result OrderError (Option TpSlOrder)
get_order down order_id chain_id s =
    if down
    then err order_query
    else ok (find_where (λ o. o.id == order_id && o.chain_id == chain_id) s.orders)

-- `ORDER BY created_at DESC` and `ASC`; the order of rows of one instant is the table's.
abbrev pub newest_first : TpSlOrder → TpSlOrder → Bool
newest_first a b = leb b.created_at a.created_at

abbrev pub oldest_first : TpSlOrder → TpSlOrder → Bool
oldest_first a b = leb a.created_at b.created_at

unfoldable pub list_by_user :
    Bool → String → ℕ → ℕ → OrderStore → Result OrderError (List TpSlOrder)
list_by_user down user_address chain_id limit s =
    if down
    then err order_query
    else ok (
        take limit (
          sort_by newest_first
            (filter (λ o. o.chain_id == chain_id && str_eq o.user_address user_address) s.orders)))

abbrev same_status : OrderStatus → OrderStatus → Bool
same_status OrderStatus.pending OrderStatus.pending = true
same_status OrderStatus.triggered OrderStatus.triggered = true
same_status OrderStatus.executed OrderStatus.executed = true
same_status OrderStatus.cancelled OrderStatus.cancelled = true
same_status OrderStatus.expired OrderStatus.expired = true
same_status _ _ = false

abbrev has_status : Option OrderStatus → OrderStatus → Bool
has_status none s = true
has_status (some t) s = same_status s t

unfoldable pub list_by_pool :
    Bool → String → ℕ → Option OrderStatus → OrderStore → Result OrderError (List TpSlOrder)
list_by_pool down pool_id chain_id status s =
    if down
    then err order_query
    else ok (
        sort_by newest_first (
          filter
            (λ o. o.chain_id == chain_id && str_eq o.pool_id pool_id && has_status status o.status)
            s.orders))

-- `status = 'pending' AND deadline > now`, in a pool of a chain.
abbrev pub is_live : String → ℕ → ℕ → TpSlOrder → Bool
is_live pool_id chain_id now o =
    o.chain_id == chain_id && str_eq o.pool_id pool_id && is_pending o.status && ltb now o.deadline

unfoldable pub list_pending_by_pool :
    Bool → ℕ → String → ℕ → OrderStore → Result OrderError (List TpSlOrder)
list_pending_by_pool down now pool_id chain_id s =
    if down
    then err order_query
    else ok (sort_by newest_first (filter (is_live pool_id chain_id now) s.orders))

unfoldable pub get_triggerable_orders :
    Bool → ℕ → String → ℕ → OrderStore → Result OrderError (List TpSlOrder)
get_triggerable_orders down now pool_id chain_id s =
    if down
    then err order_query
    else ok (sort_by oldest_first (filter (is_live pool_id chain_id now) s.orders))

-- `changes` reads the field of that name of what the SQL client returns for an `UPDATE` of so
-- many rows, where it has one.
module _ (changes : ℕ → Option ℕ) where
  -- `raw.changes === 0`
  abbrev pub reports_none : Option ℕ → Bool
  reports_none none = false
  reports_none (some n) = n == 0

  -- An `UPDATE tp_sl_orders SET … WHERE …` that fails when it is said to change no row.
  unfoldable pub update_orders :
      Bool
      → ℕ
      → (TpSlOrder → Bool)
      → (TpSlOrder → TpSlOrder)
      → OrderStore
      → Result OrderError (Unit {0}) × OrderStore
  update_orders down order_id test change s = if down then (err order_update, s) else (
    if reports_none (changes (count_where test s.orders))
        then err (order_not_found order_id)
        else ok tt,
    record s { orders = update_where test change s.orders },
  )

  abbrev pub is_owned_open : ℕ → String → ℕ → TpSlOrder → Bool
  is_owned_open order_id user_address chain_id o =
      is_open order_id chain_id o && str_eq o.user_address user_address

  unfoldable pub cancel_order :
      Bool → ℕ → String → ℕ → OrderStore → Result OrderError (Unit {0}) × OrderStore
  cancel_order down order_id user_address chain_id =
      update_orders down order_id (is_owned_open order_id user_address chain_id)
        (λ o. record o { status = OrderStatus.cancelled })

  unfoldable pub execute_order :
      Bool → ℕ → ℕ → ℕ → String → String → OrderStore → Result OrderError (Unit {0}) × OrderStore
  execute_order down now order_id chain_id tx_hash amount_out =
      update_orders down order_id (is_open order_id chain_id) (λ o. record o {
        status = OrderStatus.executed;
        executed_at = some now;
        execution_tx_hash = some tx_hash;
        execution_amount_out = some amount_out;
      })

  unfoldable pub expire_order :
      Bool → ℕ → ℕ → OrderStore → Result OrderError (Unit {0}) × OrderStore
  expire_order down order_id chain_id =
      update_orders down order_id (is_open order_id chain_id)
        (λ o. record o { status = OrderStatus.expired })

pub record KeeperExecutionInput : Type 0 where
  pub order_id : ℕ
  pub chain_id : ℕ
  pub keeper_address : String
  pub tx_hash : String
  pub amount_out : String
  pub gas_used : Option ℕ
  pub policy_triggered : Option String

abbrev pub with_execution : ℕ → KeeperExecutionInput → OrderStore → OrderStore
with_execution now input s = record s {
  executions =
      s.executions
      ++ record {
        id = s.next_execution_id;
        order_id = input.order_id;
        chain_id = input.chain_id;
        keeper_address = input.keeper_address;
        tx_hash = input.tx_hash;
        amount_out = input.amount_out;
        gas_used = input.gas_used;
        executed_at = now;
        policy_triggered = input.policy_triggered;
      }
        ∷ [];
  next_execution_id = s.next_execution_id + 1;
}

abbrev pub lacks_order : ℕ → OrderStore → Bool
lacks_order order_id s = count_where (λ o. o.id == order_id) s.orders == 0

-- The row's `order_id` is a foreign key, so that without such an order D1 refuses the row.
unfoldable pub record_keeper_execution :
    Bool → ℕ → KeeperExecutionInput → OrderStore → Result OrderError ℕ × OrderStore
record_keeper_execution down now input s =
    if down
    then (err order_create, s)
    else if lacks_order input.order_id s
    then (err order_create, s)
    else (ok s.next_execution_id, with_execution now input s)
