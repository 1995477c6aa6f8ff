-- ===== src/Orders/Access.antt =====
-- Whose orders the service changes, and which it lists (apps/api/src/services/tp-sl.service.ts).
use aether_dex.Prelude.{
  ℕ, ◌≡◌, refl, arith, true, false, Option, List, String, ◌⊎◌, All, All-filter, All-both, All-Among,
  Among, filter-Among, filter-holds, filter, leb, eq_iff, ◌<◌,
}
use aether_dex.Prelude.Result.{ok}
use aether_dex.Prelude.Sort.{
  IsSorted, IsPreorder, sort_by, sort_by-All, sort_by-IsSorted, sort_by-Among,
}
use aether_dex.Orders.{OrderStatus, TpSlOrder, OrderStore}
use aether_dex.Orders.Service.{is_owned_open, is_live, oldest_first, get_triggerable_orders}

oldest_first-IsPreorder : IsPreorder oldest_first
oldest_first-IsPreorder = record {
  total = λ a b h. ground arith;
  trans = λ a b c h k. ground arith;
}

module _ (changes : ℕ → Option ℕ) where
  -- The row is as it was, or was the caller's own pending one and is cancelled.
  abbrev pub IsOwnCancel : ℕ → String → ℕ → TpSlOrder → TpSlOrder → Type 0
  IsOwnCancel order_id user_address chain_id old new =
      (new ≡ old)
      ⊎ ((is_owned_open changes order_id user_address chain_id old ≡ true)
          × (new ≡ record old { status = OrderStatus.cancelled }))

-- A row that is to be looked at.
pub record IsTriggerable (now : ℕ) (pool_id : String) (chain_id : ℕ) (o : TpSlOrder) : Type 0 where
  pub chain : o.chain_id ≡ chain_id
  pub pool : o.pool_id ≡ pool_id
  pub pending : o.status ≡ OrderStatus.pending
  pub in_time : now < o.deadline

is_live-IsTriggerable :
    (now : ℕ) (pool_id : String) (chain_id : ℕ) (o : TpSlOrder)
    → is_live pool_id chain_id now o ≡ true
    → IsTriggerable now pool_id chain_id o
is_live-IsTriggerable now pool_id chain_id o h = record {
  chain = ground arith;
  pool = ground (arith, eq_iff o.pool_id pool_id);
  pending = ground arith;
  in_time = ground arith;
}

IsTriggerable-is_live :
    (now : ℕ) (pool_id : String) (chain_id : ℕ) (o : TpSlOrder)
    → IsTriggerable now pool_id chain_id o
    → is_live pool_id chain_id now o ≡ true
IsTriggerable-is_live now pool_id chain_id o h =
    let same = (eq_iff o.pool_id pool_id).1 h.pool in
    let chain = h.chain in let pending = h.pending in let early = h.in_time in ground arith

-- Where D1 answers, the orders that the keeper is to look at are the rows of the store that are
-- pending, of the pool and chain and before their deadline, all of them and no others, with the
-- oldest first.
pub get_triggerable_orders-IsSorted :
    (now : ℕ) (pool_id : String) (chain_id : ℕ) (s : OrderStore)
    → (orders : List TpSlOrder) × (get_triggerable_orders false now pool_id chain_id s ≡ ok orders)
      × All (λ o. Among o s.orders) orders
      × All (IsTriggerable now pool_id chain_id) orders
      × ((o : TpSlOrder) → Among o s.orders → IsTriggerable now pool_id chain_id o → Among o orders)
      × IsSorted (λ a b. leb a.created_at b.created_at) orders
unfolding get_triggerable_orders
get_triggerable_orders-IsSorted now pool_id chain_id s =
    let test = is_live pool_id chain_id now in
    let live = filter test s.orders in
    (
      sort_by oldest_first live,
      refl,
      sort_by-All oldest_first (λ o. Among o s.orders) live
          (All-filter (λ o. Among o s.orders) test s.orders (All-Among s.orders)),
      sort_by-All oldest_first (IsTriggerable now pool_id chain_id) live (
          All-both (λ o. test o ≡ true) (λ o. test o ≡ true) (IsTriggerable now pool_id chain_id)
            (λ o h k. is_live-IsTriggerable now pool_id chain_id o h) live
            (filter-holds test s.orders) (filter-holds test s.orders)),
      λ o among h.
          sort_by-Among oldest_first live o
            (filter-Among test s.orders o among (IsTriggerable-is_live now pool_id chain_id o h)),
      sort_by-IsSorted oldest_first oldest_first-IsPreorder live,
    )
