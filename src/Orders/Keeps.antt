-- ===== src/Orders/Keeps.antt =====
-- What a row of `tp_sl_orders` keeps for good: the terms its owner set, and everything once it is
-- no longer pending.
use aether_dex.Prelude.{
  ℕ, ◌≡◌, refl, ap, ◌∙◌, arith, Bool, true, false, Option, List, [], ◌∷◌, All, String,
  if◌then◌else◌, either_branch, ◌≢◌,
}
use aether_dex.Prelude.Result.{Result, ok, err}
use aether_dex.Prelude.Table.{
  update_where, Grows, Grows-update_where, Grows-append, Grows-refl, Grows-trans,
}
use aether_dex.Orders.{is_pending, TpSlOrder, OrderStore}
use aether_dex.Orders.Service.{
  OrderError, order_create, lacks_order, with_execution, CreateOrderInput, KeeperExecutionInput,
  create_order, is_taken, chain_or_default, update_orders, cancel_order, execute_order,
  expire_order, record_keeper_execution,
}
use aether_dex.Orders.Evaluate.{TpSlEvaluateMessage, Clock, Stop, Plan, commit}

-- `new` differs from `old` at most in what the keeper writes.
abbrev pub KeepsTerms : TpSlOrder → TpSlOrder → Type 0
KeepsTerms old new = new ≡ record old {
  status = new.status;
  updated_at = new.updated_at;
  executed_at = new.executed_at;
  execution_tx_hash = new.execution_tx_hash;
  execution_amount_out = new.execution_amount_out;
}

-- `new` differs from `old` at most in what the keeper writes, and not at all where `old` is not
-- pending.
pub record Keeps (old new : TpSlOrder) : Type 0 where
  pub terms : KeepsTerms old new
  pub settled : is_pending old.status ≡ false → new ≡ old

pub Keeps-refl : (o : TpSlOrder) → Keeps o o
Keeps-refl o = record { terms = refl; settled = λ _. refl }

pub Keeps-trans : (x y z : TpSlOrder) → Keeps x y → Keeps y z → Keeps x z
Keeps-trans x y z h k = record {
  terms = cc;
  settled =
      λ e. let same = h.settled e in k.settled (ap (λ o. is_pending o.status) same ∙ e) ∙ same;
}

branch-Keeps :
    (b : Bool) (o n : TpSlOrder)
    → (b ≡ true → is_pending o.status ≡ true)
    → KeepsTerms o n
    → Keeps o (if b then n else o)
branch-Keeps false o n guard same = Keeps-refl o
branch-Keeps true o n guard same = record { terms = same; settled = λ e. grind (arith, guard refl) }

-- The rows of the later store keep those of the earlier one.
abbrev pub KeepsOrders : OrderStore → OrderStore → Type 0
KeepsOrders s t = Grows Keeps s.orders t.orders

pub KeepsOrders-refl : (s : OrderStore) → KeepsOrders s s
KeepsOrders-refl s = Grows-refl Keeps s.orders Keeps-refl

pub KeepsOrders-trans : (r s t : OrderStore) → KeepsOrders r s → KeepsOrders s t → KeepsOrders r t
KeepsOrders-trans r s t h k = Grows-trans Keeps r.orders s.orders t.orders Keeps-trans h k

pub create_order-KeepsOrders :
    (down : Bool) (now : ℕ) (input : CreateOrderInput) (s : OrderStore)
    → KeepsOrders s (create_order down now input s).1
unfolding create_order
create_order-KeepsOrders true now input s = KeepsOrders-refl s
create_order-KeepsOrders false now input s =
    either_branch (λ (r : Result OrderError ℕ × OrderStore). KeepsOrders s r.1)
      (is_taken (chain_or_default input.chain_id) input.onchain_order_id s.orders) _ _
      (KeepsOrders-refl s) (Grows-append Keeps s.orders _ Keeps-refl)

pub record_keeper_execution-KeepsOrders :
    (down : Bool) (now : ℕ) (input : KeeperExecutionInput) (s : OrderStore)
    → KeepsOrders s (record_keeper_execution down now input s).1
unfolding record_keeper_execution
record_keeper_execution-KeepsOrders true now input s = KeepsOrders-refl s
record_keeper_execution-KeepsOrders false now input s =
    either_branch (λ (r : Result OrderError ℕ × OrderStore). KeepsOrders s r.1)
      (lacks_order input.order_id s) (err order_create, s)
      (ok s.next_execution_id, with_execution now input s) (KeepsOrders-refl s) (KeepsOrders-refl s)

-- An update that names pending rows only, and writes what the keeper writes.
pub update_pending-Grows :
    (test : TpSlOrder → Bool) (change : TpSlOrder → TpSlOrder) (orders : List TpSlOrder)
    → ((o : TpSlOrder) → test o ≡ true → is_pending o.status ≡ true)
    → ((o : TpSlOrder) → KeepsTerms o (change o))
    → Grows Keeps orders (update_where test change orders)
update_pending-Grows test change orders guard same =
    Grows-update_where Keeps test change orders
      (λ o. branch-Keeps (test o) o (change o) (guard o) (same o))

-- The same where only the rows of this table are known to be pending.
pub update_named-Grows :
    (test : TpSlOrder → Bool) (change : TpSlOrder → TpSlOrder) (orders : List TpSlOrder)
    → All (λ o. test o ≡ true → is_pending o.status ≡ true) orders
    → ((o : TpSlOrder) → KeepsTerms o (change o))
    → Grows Keeps orders (update_where test change orders)
unfolding update_where
update_named-Grows test change [] guard same = tt
update_named-Grows test change (o ∷ os) (guard, guards) same = (
  branch-Keeps (test o) o (change o) guard (same o),
  update_named-Grows test change os guards same,
)

module _ (changes : ℕ → Option ℕ) where
  pub cancel_order-KeepsOrders :
      (down : Bool) (order_id : ℕ) (user_address : String) (chain_id : ℕ) (s : OrderStore)
      → KeepsOrders s (cancel_order changes down order_id user_address chain_id s).1
  unfolding cancel_order update_orders
  cancel_order-KeepsOrders true order_id user_address chain_id s = KeepsOrders-refl s
  cancel_order-KeepsOrders false order_id user_address chain_id s =
      update_pending-Grows _ _ s.orders (λ o h. ground arith) (λ o. refl)

  pub execute_order-KeepsOrders :
      (down : Bool) (now order_id chain_id : ℕ) (tx_hash amount_out : String) (s : OrderStore)
      → KeepsOrders s (execute_order changes down now order_id chain_id tx_hash amount_out s).1
  unfolding execute_order update_orders
  execute_order-KeepsOrders true now order_id chain_id tx_hash amount_out s = KeepsOrders-refl s
  execute_order-KeepsOrders false now order_id chain_id tx_hash amount_out s =
      update_pending-Grows _ _ s.orders (λ o h. ground arith) (λ o. refl)

  pub expire_order-KeepsOrders :
      (down : Bool) (order_id chain_id : ℕ) (s : OrderStore)
      → KeepsOrders s (expire_order changes down order_id chain_id s).1
  unfolding expire_order update_orders
  expire_order-KeepsOrders true order_id chain_id s = KeepsOrders-refl s
  expire_order-KeepsOrders false order_id chain_id s =
      update_pending-Grows _ _ s.orders (λ o h. ground arith) (λ o. refl)

-- Whatever the handler's plan, unless it is to expire the order, and whatever other workers wrote
-- since it read: the write leaves every row that is no longer pending as it is, and of a pending
-- one the terms.
pub commit-KeepsOrders :
    (down : Bool) (clock : Clock) (msg : TpSlEvaluateMessage) (plan : Plan) (s : OrderStore)
    → plan ≢ Plan.stop Stop.expire
    → KeepsOrders s (commit down clock msg plan s)
unfolding commit
commit-KeepsOrders true clock msg plan s n = KeepsOrders-refl s
commit-KeepsOrders false clock msg (Plan.stop Stop.skip) s n = KeepsOrders-refl s
commit-KeepsOrders false clock msg (Plan.stop Stop.retry) s n = KeepsOrders-refl s
commit-KeepsOrders false clock msg (Plan.stop Stop.expire) s n = absurd (n refl)
commit-KeepsOrders false clock msg (Plan.unconfirmed hash) s n =
    update_pending-Grows _ _ s.orders (λ o h. ground arith) (λ o. refl)
commit-KeepsOrders false clock msg (Plan.confirmed hash) s n =
    update_pending-Grows _ _ s.orders (λ o h. ground arith) (λ o. refl)
