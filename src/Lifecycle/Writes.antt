-- ===== src/Lifecycle/Writes.antt =====
-- What one write of the queue, the cron or the service keeps of the orders.
use aether_dex.Prelude.{
  ℕ, ◌≡◌, refl, arith, Bool, true, false, Option, none, some, List, [], ◌∷◌, Bool-cases,
  Option-cases, inl, inr, either_branch, ◌⊎◌,
}
use aether_dex.Prelude.Result.{Result, ok, err, ◌>>=◌, demand, or_err}
use aether_dex.Prelude.Table.{find_where}
use aether_dex.Orders.{TpSlOrder, OrderStore, is_open}
use aether_dex.Orders.Service.{
  OrderError, order_create, lacks_order, with_execution, CreateOrderInput, KeeperExecutionInput,
  is_taken, chain_or_default, create_order, update_orders, record_keeper_execution,
}
use aether_dex.Orders.Trigger.{Runtime}
use aether_dex.Orders.Evaluate.{
  TpSlEvaluateMessage, QueueEnv, SendTransactionInput, SubmissionResult, Clock, Stop, Plan,
  load_order, authorise, evaluate, has_key, commit,
}
use aether_dex.Orders.Keeps.{
  KeepsOrders, KeepsOrders-refl, commit-KeepsOrders, update_pending-Grows, update_named-Grows,
}
use aether_dex.Orders.Keys.{IsKeyed, IsKeyed-update_where, IsKeyed-append, expire-only-open}
use aether_dex.Keeper.{PositionPolicy}
use aether_dex.Cron.{QueueMessage, LiquidityPosition, TickFaults, tick_with, expire_overdue}

-- Without an open row the handler has nothing to write.
authorise-none :
    (rt : Runtime) (env : QueueEnv) (clock : Clock) (msg : TpSlEvaluateMessage) (s : OrderStore)
    → find_where (is_open msg.order_id msg.chain_id) s.orders ≡ none
    → (authorise rt env clock msg s ≡ err Stop.retry)
      ⊎ (authorise rt env clock msg s ≡ err Stop.skip)
unfolding authorise load_order ◌>>=◌ demand or_err
authorise-none rt env clock msg s e = elim (Bool-cases env.db_down) [
  | inl down ↦ inl (rw down refl)
  | inr up ↦ inr (rw (up, e) refl)
]

-- Where the handler finds that the order has expired, it has read an open row.
pub expires-open :
    (rt : Runtime) (env : QueueEnv) (send : SendTransactionInput → SubmissionResult) (clock : Clock)
    (msg : TpSlEvaluateMessage) (s : OrderStore)
    → (evaluate rt env send clock msg s).0 ≡ Plan.stop Stop.expire
    → (o : TpSlOrder) × (find_where (is_open msg.order_id msg.chain_id) s.orders ≡ some o)
unfolding evaluate
expires-open rt env send clock msg s h =
    elim (Option-cases (find_where (is_open msg.order_id msg.chain_id) s.orders)) [
      | inr found ↦ found
      | inl missing ↦ elim (authorise-none rt env clock msg s missing) [
        | inl e ↦ absurd cc
        | inr e ↦ absurd cc
      ]
    ]

-- The handler that reads and writes with nothing between keeps every settled row, also where it
-- expires the order: the row that it names is the one that it read.
pub handled-KeepsOrders :
    (clock : Clock) (msg : TpSlEvaluateMessage) (down : Bool) (plan : Plan) (s : OrderStore)
    → IsKeyed s
    → (plan ≡ Plan.stop Stop.expire
        → (o : TpSlOrder) × (find_where (is_open msg.order_id msg.chain_id) s.orders ≡ some o))
    → KeepsOrders s (commit down clock msg plan s)
unfolding commit
handled-KeepsOrders clock msg true plan s k found = KeepsOrders-refl s
handled-KeepsOrders clock msg false (Plan.stop Stop.expire) s k found =
    let (o, e) = found refl in
    update_named-Grows (has_key msg) _ s.orders (expire-only-open msg s.orders o k.ascending e)
      (λ o. refl)
handled-KeepsOrders clock msg false (Plan.stop Stop.skip) s k found = KeepsOrders-refl s
handled-KeepsOrders clock msg false (Plan.stop Stop.retry) s k found = KeepsOrders-refl s
handled-KeepsOrders clock msg false (Plan.unconfirmed hash) s k found =
    commit-KeepsOrders false clock msg (Plan.unconfirmed hash) s cc
handled-KeepsOrders clock msg false (Plan.confirmed hash) s k found =
    commit-KeepsOrders false clock msg (Plan.confirmed hash) s cc

pub commit-IsKeyed :
    (clock : Clock) (msg : TpSlEvaluateMessage) (down : Bool) (plan : Plan) (s : OrderStore)
    → IsKeyed s
    → IsKeyed (commit down clock msg plan s)
unfolding commit
commit-IsKeyed clock msg true plan s k = k
commit-IsKeyed clock msg false (Plan.stop Stop.skip) s k = k
commit-IsKeyed clock msg false (Plan.stop Stop.retry) s k = k
commit-IsKeyed clock msg false (Plan.stop Stop.expire) s k =
    IsKeyed-update_where _ _ (λ o. refl) s k
commit-IsKeyed clock msg false (Plan.unconfirmed hash) s k =
    IsKeyed-update_where _ _ (λ o. refl) s k
commit-IsKeyed clock msg false (Plan.confirmed hash) s k = IsKeyed-update_where _ _ (λ o. refl) s k

module _ (refuses : QueueMessage → Bool) (faults : TickFaults) (chain_id now : ℕ)
    (policies : List PositionPolicy) (positions : List LiquidityPosition) (s : OrderStore) where
  pub tick_with-KeepsOrders :
      (live : List TpSlOrder)
      → KeepsOrders s (tick_with refuses faults chain_id now live policies positions s).1
  tick_with-KeepsOrders [] = KeepsOrders-refl s
  tick_with-KeepsOrders (o ∷ os) =
      let kept : KeepsOrders s (expire_overdue refuses chain_id now s) =
        update_pending-Grows _ _ s.orders (λ o h. ground arith) (λ o. refl) in
      let Q : List QueueMessage × OrderStore → Type 0 = λ r. KeepsOrders s r.1 in
      either_branch Q faults.update_down _ _ (KeepsOrders-refl s)
        (either_branch Q faults.positions_down _ _ kept kept)

  pub tick_with-IsKeyed :
      (live : List TpSlOrder)
      → IsKeyed s
      → IsKeyed (tick_with refuses faults chain_id now live policies positions s).1
  tick_with-IsKeyed [] k = k
  tick_with-IsKeyed (o ∷ os) k =
      let kept : IsKeyed (expire_overdue refuses chain_id now s) =
        IsKeyed-update_where _ _ (λ o. refl) s k in
      let Q : List QueueMessage × OrderStore → Type 0 = λ r. IsKeyed r.1 in
      either_branch Q faults.update_down _ _ k (either_branch Q faults.positions_down _ _ kept kept)

module _ (changes : ℕ → Option ℕ) where
  pub update_orders-IsKeyed :
      (down : Bool) (order_id : ℕ) (test : TpSlOrder → Bool) (change : TpSlOrder → TpSlOrder)
      (s : OrderStore)
      → ((o : TpSlOrder) → (change o).id ≡ o.id)
      → IsKeyed s
      → IsKeyed (update_orders changes down order_id test change s).1
  unfolding update_orders
  update_orders-IsKeyed true order_id test change s same k = k
  update_orders-IsKeyed false order_id test change s same k =
      IsKeyed-update_where test change same s k

pub create_order-IsKeyed :
    (down : Bool) (now : ℕ) (input : CreateOrderInput) (s : OrderStore)
    → IsKeyed s
    → IsKeyed (create_order down now input s).1
unfolding create_order
create_order-IsKeyed true now input s k = k
create_order-IsKeyed false now input s k =
    either_branch (λ (r : Result OrderError ℕ × OrderStore). IsKeyed r.1)
      (is_taken (chain_or_default input.chain_id) input.onchain_order_id s.orders) _ _ k
      (IsKeyed-append s _ refl k)

pub record-IsKeyed :
    (down : Bool) (now : ℕ) (input : KeeperExecutionInput) (s : OrderStore)
    → IsKeyed s
    → IsKeyed (record_keeper_execution down now input s).1
unfolding record_keeper_execution
record-IsKeyed true now input s k = k
record-IsKeyed false now input s k =
    either_branch (λ (r : Result OrderError ℕ × OrderStore). IsKeyed r.1)
      (lacks_order input.order_id s) (err order_create, s)
      (ok s.next_execution_id, with_execution now input s) k
      (record { below = k.below; ascending = k.ascending })
