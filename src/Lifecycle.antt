-- ===== src/Lifecycle.antt =====
-- The life of the rows of `tp_sl_orders` under everything that writes them: the service
-- (apps/api/src/services/tp-sl.service.ts), the queue (apps/api/src/workers/queue-handler.ts) and
-- the cron (apps/api/src/workers/cron-handler.ts).
mod Writes
mod Tests
use aether_dex.Prelude.{
  ℕ, ◌+◌, ◌<◌, ◌≡◌, refl, sym, arith, Bool, true, false, Option, none, some, List, [], ◌∷◌, String,
  All, Bool-cases, Option-cases, inl, inr, if◌then◌else◌, either_branch, ◌≢◌, ◌⊎◌,
}
use Writes.{
  create_order-IsKeyed, update_orders-IsKeyed, record-IsKeyed, commit-IsKeyed, tick_with-IsKeyed,
  handled-KeepsOrders, expires-open, tick_with-KeepsOrders,
}
use aether_dex.Prelude.Int.{ℤ}
use aether_dex.Prelude.Result.{Result, ok, err, ◌>>=◌, demand, or_err}
use aether_dex.Prelude.Table.{update_where, find_where, Grows}
use aether_dex.Orders.{OrderStatus, TpSlOrder, OrderStore, is_open, is_pending}
use aether_dex.Orders.Service.{
  OrderError, CreateOrderInput, KeeperExecutionInput, is_taken, chain_or_default, create_order,
  update_orders, cancel_order, execute_order, expire_order, record_keeper_execution,
}
use aether_dex.Orders.Trigger.{Runtime}
use aether_dex.Orders.Evaluate.{
  TpSlEvaluateMessage, QueueEnv, SendTransactionInput, SubmissionResult, Clock, Stop, Plan,
  load_order, authorise, after, evaluate, has_key, commit,
}
use aether_dex.Orders.Keeps.{
  Keeps, KeepsOrders, KeepsOrders-refl, KeepsOrders-trans, create_order-KeepsOrders,
  record_keeper_execution-KeepsOrders, cancel_order-KeepsOrders, execute_order-KeepsOrders,
  expire_order-KeepsOrders, commit-KeepsOrders, update_pending-Grows, update_named-Grows,
}
use aether_dex.Orders.Keys.{IsKeyed, IsKeyed-update_where, IsKeyed-append, expire-only-open}
use aether_dex.Keeper.{PositionPolicy}
use aether_dex.Cron.{
  QueueMessage, LiquidityPosition, TickFaults, live_orders, tick_with, run_keeper_tick,
}

-- What may happen to the store next. The handler of the queue either reads and writes with nothing
-- between (`handled`), or writes late, on a store that others have written since it read; then its
-- plan is any but to expire the order.
pub data OrderStep (changes : ℕ → Option ℕ) (s : OrderStore) : OrderStore → Type 0 where
  created :
      (down : Bool) (now : ℕ) (input : CreateOrderInput)
      → OrderStep changes s (create_order down now input s).1
  cancelled :
      (down : Bool) (order_id : ℕ) (user_address : String) (chain_id : ℕ)
      → OrderStep changes s (cancel_order changes down order_id user_address chain_id s).1
  executed :
      (down : Bool) (now order_id chain_id : ℕ) (tx_hash amount_out : String)
      → OrderStep changes s
          (execute_order changes down now order_id chain_id tx_hash amount_out s).1
  expired :
      (down : Bool) (order_id chain_id : ℕ)
      → OrderStep changes s (expire_order changes down order_id chain_id s).1
  recorded :
      (down : Bool) (now : ℕ) (input : KeeperExecutionInput)
      → OrderStep changes s (record_keeper_execution down now input s).1
  handled :
      (rt : Runtime) (env : QueueEnv) (send : SendTransactionInput → SubmissionResult)
      (clock : Clock) (msg : TpSlEvaluateMessage) (down : Bool)
      → OrderStep changes s (commit down clock msg (evaluate rt env send clock msg s).0 s)
  wrote_late :
      (clock : Clock) (msg : TpSlEvaluateMessage) (plan : Plan) (down : Bool)
      → plan ≢ Plan.stop Stop.expire
      → OrderStep changes s (commit down clock msg plan s)
  ticked :
      (refuses : QueueMessage → Bool) (faults : TickFaults) (env_chain : Option ℕ) (now : ℕ)
      (policies : List PositionPolicy) (positions : List LiquidityPosition)
      → OrderStep changes s (run_keeper_tick refuses faults env_chain now policies positions s).1

pub data Reaches (changes : ℕ → Option ℕ) (s : OrderStore) : OrderStore → Type 0 where
  here : Reaches changes s s
  next : {t u : OrderStore} → Reaches changes s t → OrderStep changes t u → Reaches changes s u

-- Every step keeps the ids apart.
OrderStep-IsKeyed :
    {changes : ℕ → Option ℕ} {s t : OrderStore} → OrderStep changes s t → IsKeyed s → IsKeyed t
unfolding cancel_order execute_order expire_order run_keeper_tick
OrderStep-IsKeyed {changes} {s} (created down now input) k = create_order-IsKeyed down now input s k
OrderStep-IsKeyed {changes} {s} (cancelled down i user c) k =
    update_orders-IsKeyed changes down i _ _ s (λ o. refl) k
OrderStep-IsKeyed {changes} {s} (executed down now i c hash out) k =
    update_orders-IsKeyed changes down i _ _ s (λ o. refl) k
OrderStep-IsKeyed {changes} {s} (expired down i c) k =
    update_orders-IsKeyed changes down i _ _ s (λ o. refl) k
OrderStep-IsKeyed {changes} {s} (recorded down now input) k = record-IsKeyed down now input s k
OrderStep-IsKeyed {changes} {s} (handled rt env send clock msg down) k =
    commit-IsKeyed clock msg down (evaluate rt env send clock msg s).0 s k
OrderStep-IsKeyed {changes} {s} (wrote_late clock msg plan down n) k =
    commit-IsKeyed clock msg down plan s k
OrderStep-IsKeyed {changes} {s} (ticked refuses faults env_chain now policies positions) k =
    either_branch (λ (r : List QueueMessage × OrderStore). IsKeyed r.1) faults.orders_down _ _ k
      (tick_with-IsKeyed refuses faults _ now policies positions s (live_orders _ now s.orders) k)

OrderStep-KeepsOrders :
    {changes : ℕ → Option ℕ} {s t : OrderStore}
    → OrderStep changes s t
    → IsKeyed s
    → KeepsOrders s t
unfolding run_keeper_tick
OrderStep-KeepsOrders {changes} {s} (created down now input) k =
    create_order-KeepsOrders down now input s
OrderStep-KeepsOrders {changes} {s} (cancelled down i user c) k =
    cancel_order-KeepsOrders changes down i user c s
OrderStep-KeepsOrders {changes} {s} (executed down now i c hash out) k =
    execute_order-KeepsOrders changes down now i c hash out s
OrderStep-KeepsOrders {changes} {s} (expired down i c) k =
    expire_order-KeepsOrders changes down i c s
OrderStep-KeepsOrders {changes} {s} (recorded down now input) k =
    record_keeper_execution-KeepsOrders down now input s
OrderStep-KeepsOrders {changes} {s} (handled rt env send clock msg down) k =
    handled-KeepsOrders clock msg down (evaluate rt env send clock msg s).0 s k
      (expires-open rt env send clock msg s)
OrderStep-KeepsOrders {changes} {s} (wrote_late clock msg plan down n) k =
    commit-KeepsOrders down clock msg plan s n
OrderStep-KeepsOrders {changes} {s} (ticked refuses faults env_chain now policies positions) k =
    either_branch (λ (r : List QueueMessage × OrderStore). KeepsOrders s r.1) faults.orders_down _ _
      (KeepsOrders-refl s)
      (tick_with-KeepsOrders refuses faults _ now policies positions s (live_orders _ now s.orders))

Reaches-IsKeyed :
    {changes : ℕ → Option ℕ} {s t : OrderStore} → Reaches changes s t → IsKeyed s → IsKeyed t
Reaches-IsKeyed here k = k
Reaches-IsKeyed (next r step) k = OrderStep-IsKeyed step (Reaches-IsKeyed r k)

-- From a store whose ids are apart, through any steps of the service, the queue and the cron in
-- any order, no row goes away or moves, every row keeps its owner, its amounts, its trigger and
-- its deadline, and a row that is no longer pending does not change at all. The steps hold every
-- late write of the queue but the one that marks an order expired.
pub Reaches-KeepsOrders :
    {changes : ℕ → Option ℕ} {s t : OrderStore} → IsKeyed s → Reaches changes s t → KeepsOrders s t
Reaches-KeepsOrders {changes} {s} k here = KeepsOrders-refl s
Reaches-KeepsOrders {changes} {s} {t} k (next {t = m} r step) =
    KeepsOrders-trans s m t (Reaches-KeepsOrders k r)
      (OrderStep-KeepsOrders step (Reaches-IsKeyed r k))
