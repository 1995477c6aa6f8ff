-- ===== src/Cron/Expiry.antt =====
-- What the keeper's tick leaves of overdue orders (`runKeeperTick`).
use aether_dex.Prelude.{
  ℕ, ◌<◌, ◌≡◌, ◌≢◌, refl, arith, Bool, true, false, Option, List, [], ◌∷◌, All, Among, take,
  filter-nonempty, either_branch, Bool-cases, inl, inr, if◌then◌else◌,
}
use aether_dex.Prelude.Sort.{sort_by-nonempty}
use aether_dex.Prelude.Table.{update_where}
use aether_dex.Orders.{TpSlOrder, OrderStatus, OrderStore}
use aether_dex.Orders.Service.{oldest_first}
use aether_dex.Keeper.{PositionPolicy}
use aether_dex.Cron.{
  QueueMessage, LiquidityPosition, TickFaults, configured_chain, is_live_on, is_overdue_on,
  live_orders, tick_with, run_keeper_tick,
}

-- A pending order of the chain is before its deadline.
abbrev pub IsInTime : ℕ → ℕ → TpSlOrder → Type 0
IsInTime chain_id now o = o.chain_id ≡ chain_id → o.status ≡ OrderStatus.pending → now < o.deadline

-- A row that keeps the tick from ending at once.
pub record IsLiveRow (chain_id now : ℕ) (orders : List TpSlOrder) (o : TpSlOrder) : Type 0 where
  pub row : Among o orders
  pub chain : o.chain_id ≡ chain_id
  pub pending : o.status ≡ OrderStatus.pending
  pub in_time : now < o.deadline

not_overdue :
    (chain_id now : ℕ) (o : TpSlOrder)
    → o.chain_id ≡ chain_id
    → o.status ≡ OrderStatus.pending
    → is_overdue_on chain_id now o ≡ false
    → now < o.deadline
not_overdue chain_id now o chain pending ahead = ground arith

is_live_row :
    (chain_id now : ℕ) (o : TpSlOrder)
    → o.chain_id ≡ chain_id
    → o.status ≡ OrderStatus.pending
    → now < o.deadline
    → is_live_on chain_id now o ≡ true
is_live_row chain_id now o chain pending early = ground arith

expired-IsInTime :
    (chain_id now : ℕ) (o : TpSlOrder)
    → IsInTime chain_id now
        (if is_overdue_on chain_id now o then record o { status = OrderStatus.expired } else o)
expired-IsInTime chain_id now o = elim (Bool-cases (is_overdue_on chain_id now o)) [
  | inl overdue ↦ rw overdue (λ chain pending. cc)
  | inr ahead ↦ rw ahead (λ chain pending. not_overdue chain_id now o chain pending ahead)
]

update_where-IsInTime :
    (chain_id now : ℕ) (xs : List TpSlOrder)
    → All (IsInTime chain_id now) (
        update_where
          (is_overdue_on chain_id now)
          (λ o. record o { status = OrderStatus.expired })
          xs)
unfolding update_where
update_where-IsInTime chain_id now [] = tt
update_where-IsInTime chain_id now (o ∷ os) =
    (expired-IsInTime chain_id now o, update_where-IsInTime chain_id now os)

take-nonempty : (xs : List TpSlOrder) → xs ≢ [] → take 50 xs ≢ []
take-nonempty [] n h = n refl
take-nonempty (x ∷ xs) n h = cc

live_orders-nonempty :
    (chain_id now : ℕ) (orders : List TpSlOrder) (o : TpSlOrder)
    → IsLiveRow chain_id now orders o
    → live_orders chain_id now orders ≢ []
unfolding live_orders
live_orders-nonempty chain_id now orders o live = take-nonempty _ (
    sort_by-nonempty oldest_first _ (
      filter-nonempty (is_live_on chain_id now) orders o live.row
        (is_live_row chain_id now o live.chain live.pending live.in_time)))

module _ (refuses : QueueMessage → Bool) (faults : TickFaults) (chain_id now : ℕ)
    (policies : List PositionPolicy) (positions : List LiquidityPosition) (s : OrderStore) where
  tick_with-expires :
      (live : List TpSlOrder)
      → live ≢ []
      → faults.update_down ≡ false
      → All
          (IsInTime chain_id now)
          (tick_with refuses faults chain_id now live policies positions s).1.orders
  tick_with-expires [] n up = absurd (n refl)
  tick_with-expires (o ∷ os) n up = rw up (
      either_branch (λ (r : List QueueMessage × OrderStore). All (IsInTime chain_id now) r.1.orders)
        faults.positions_down _ _ (update_where-IsInTime chain_id now s.orders)
        (update_where-IsInTime chain_id now s.orders))

-- Where D1 answers the SELECT of the orders and the UPDATE, and the chain has a pending order before
-- its deadline, the tick leaves no pending order of the chain whose deadline has passed.
pub run_keeper_tick-expires :
    (refuses : QueueMessage → Bool) (faults : TickFaults) (env_chain : Option ℕ) (now : ℕ)
    (policies : List PositionPolicy) (positions : List LiquidityPosition) (s : OrderStore)
    (o : TpSlOrder)
    → faults.orders_down ≡ false
    → faults.update_down ≡ false
    → IsLiveRow (configured_chain env_chain) now s.orders o
    → All
        (IsInTime (configured_chain env_chain) now)
        (run_keeper_tick refuses faults env_chain now policies positions s).1.orders
unfolding run_keeper_tick
run_keeper_tick-expires refuses faults env_chain now policies positions s o read up live = rw read (
    tick_with-expires refuses faults (configured_chain env_chain) now policies positions s
      (live_orders (configured_chain env_chain) now s.orders)
      (live_orders-nonempty (configured_chain env_chain) now s.orders o live) up)
