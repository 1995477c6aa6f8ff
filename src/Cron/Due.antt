-- ===== src/Cron/Due.antt =====
-- What the keeper's tick sends (`runKeeperTick`).
use aether_dex.Prelude.{
  ℕ, ◌≡◌, refl, arith, Bool, true, Option, none, some, List, [], ◌∷◌, All, All-append, All-take,
  All-filter, All-both, All-Among, Among, filter-holds, branch_on, either_branch, String, filter,
  eq_iff, not, if◌then◌else◌,
}
use aether_dex.Prelude.Sort.{sort_by-All}
use aether_dex.Prelude.Text.{is_decimal}
use aether_dex.Orders.{TpSlOrder, OrderStore}
use aether_dex.Orders.Service.{oldest_first}
use aether_dex.Orders.Evaluate.{TpSlEvaluateMessage}
use aether_dex.Keeper.{PositionPolicy}
use aether_dex.Keeper.Recenter.{AutoRecenterCheckMessage}
use aether_dex.Cron.{
  QueueMessage, LiquidityPosition, TickFaults, configured_chain, is_live_on, live_orders,
  evaluate_message, check_message, is_watched, message_for, send_orders, send_checks_of,
  send_checks, tick_with, run_keeper_tick,
}
use aether_dex.Cron.Expiry.{IsLiveRow}

-- A message repeats the terms of an order, with its on-chain id.
pub record RepeatsOrder (chain_id : ℕ) (o : TpSlOrder) (i : String) (m : TpSlEvaluateMessage)
    : Type 0 where
  pub onchain : o.onchain_order_id ≡ some i
  pub decimal : is_decimal i ≡ true
  pub order_id : m.order_id ≡ o.id
  pub onchain_id : m.onchain_order_id ≡ i
  pub pool_id : m.pool_id ≡ o.pool_id
  pub order_type : m.order_type ≡ o.order_type
  pub zero_for_one : m.zero_for_one ≡ o.zero_for_one
  pub amount_in : m.amount_in ≡ o.amount_in
  pub min_amount_out : m.min_amount_out ≡ o.min_amount_out
  pub trigger_price_x18 : m.trigger_price_x18 ≡ o.trigger_price_x18
  pub twap_window : m.twap_window ≡ o.twap_window
  pub slippage_bps : m.slippage_bps ≡ o.slippage_bps
  pub deadline : m.deadline ≡ o.deadline
  pub user_address : m.user_address ≡ o.user_address
  pub same_chain : m.chain_id ≡ chain_id

-- An active policy of the chain that recenters, with its active position of the chain.
pub record Watches (chain_id : ℕ) (p : PositionPolicy) (l : LiquidityPosition) : Type 0 where
  pub position : p.position_id ≡ l.id_text
  pub position_chain : l.chain_id ≡ chain_id
  pub policy_chain : p.chain_id ≡ chain_id
  pub active : p.is_active ≡ true
  pub recenters : p.policy_type ≡ "auto_recenter"
  pub held : l.is_active ≡ true

-- A check repeats the policy and the range of its position.
pub record RepeatsPolicy (chain_id : ℕ) (p : PositionPolicy) (l : LiquidityPosition)
    (m : AutoRecenterCheckMessage) : Type 0 where
  pub policy_id : m.policy_id ≡ p.id
  pub position_id : m.position_id ≡ p.position_id
  pub pool_id : m.pool_id ≡ p.pool_id
  pub user_address : m.user_address ≡ p.user_address
  pub tick_lower : m.tick_lower ≡ l.tick_lower
  pub tick_upper : m.tick_upper ≡ l.tick_upper
  pub min_drift_bps : m.min_drift_bps ≡ p.min_drift_bps
  pub same_chain : m.chain_id ≡ chain_id

module _ (chain_id now : ℕ) (orders : List TpSlOrder) (policies : List PositionPolicy)
    (positions : List LiquidityPosition) where
  -- What a message stands for.
  abbrev pub IsDue : QueueMessage → Type 0
  IsDue (QueueMessage.tp_sl_evaluate m) =
      (o : TpSlOrder) × (i : String) × IsLiveRow chain_id now orders o × RepeatsOrder chain_id o i m
  IsDue (QueueMessage.auto_recenter_check m) =
      (p : PositionPolicy) × (l : LiquidityPosition) × Among p policies
      × Among l positions
      × Watches chain_id p l
      × RepeatsPolicy chain_id p l m

  module _ (refuses : QueueMessage → Bool) where
    sent_if-IsDue :
        (m : QueueMessage) (rest : List QueueMessage)
        → IsDue m
        → All IsDue rest
        → All IsDue (if refuses m then rest else m ∷ rest)
    sent_if-IsDue m rest due h = either_branch (All IsDue) (refuses m) rest (m ∷ rest) h (due, h)

    message_for-IsDue :
        (o : TpSlOrder) (i : Option String) (rest : List QueueMessage)
        → o.onchain_order_id ≡ i
        → IsLiveRow chain_id now orders o
        → All IsDue rest
        → All IsDue (message_for refuses chain_id o i rest)
    unfolding evaluate_message
    message_for-IsDue o none rest e live h = h
    message_for-IsDue o (some i) rest e live h =
        branch_on (λ (b : List QueueMessage). All IsDue b) (not (is_decimal i)) _ _ (λ bad. h)
          (λ good.
            sent_if-IsDue (QueueMessage.tp_sl_evaluate (evaluate_message chain_id o i)) rest
              (
                o,
                i,
                live,
                record {
                  onchain = e;
                  decimal = ground arith;
                  order_id = refl;
                  onchain_id = refl;
                  pool_id = refl;
                  order_type = refl;
                  zero_for_one = refl;
                  amount_in = refl;
                  min_amount_out = refl;
                  trigger_price_x18 = refl;
                  twap_window = refl;
                  slippage_bps = refl;
                  deadline = refl;
                  user_address = refl;
                  same_chain = refl;
                },
              )
              h)

    send_orders-IsDue :
        (os : List TpSlOrder)
        → All (IsLiveRow chain_id now orders) os
        → All IsDue (send_orders refuses chain_id os)
    unfolding send_orders
    send_orders-IsDue [] h = tt
    send_orders-IsDue (o ∷ os) (h, hs) =
        message_for-IsDue o o.onchain_order_id (send_orders refuses chain_id os) refl h
          (send_orders-IsDue os hs)

    is_watched-Watches :
        (p : PositionPolicy) (l : LiquidityPosition)
        → is_watched refuses chain_id p l ≡ true
        → Watches chain_id p l
    is_watched-Watches p l h = record {
      position = ground (arith, eq_iff p.position_id l.id_text);
      position_chain = ground arith;
      policy_chain = ground arith;
      active = ground arith;
      recenters = ground (arith, eq_iff p.policy_type "auto_recenter");
      held = ground arith;
    }

    send_checks_of-IsDue :
        (p : PositionPolicy) (ls : List LiquidityPosition)
        → Among p policies
        → All (λ l. Among l positions) ls
        → All IsDue (send_checks_of refuses chain_id p ls)
    unfolding send_checks_of check_message
    send_checks_of-IsDue p [] own h = tt
    send_checks_of-IsDue p (l ∷ ls) own (mine, h) =
        let rest = send_checks_of-IsDue p ls own h in
        branch_on (λ (b : List QueueMessage). All IsDue b) (is_watched refuses chain_id p l) _ _
          (λ watched.
            sent_if-IsDue (QueueMessage.auto_recenter_check (check_message chain_id p l)) _
              (
                p,
                l,
                own,
                mine,
                is_watched-Watches p l watched,
                record {
                  policy_id = refl;
                  position_id = refl;
                  pool_id = refl;
                  user_address = refl;
                  tick_lower = refl;
                  tick_upper = refl;
                  min_drift_bps = refl;
                  same_chain = refl;
                },
              )
              rest)
          (λ other. rest)

    send_checks-IsDue :
        (ps : List PositionPolicy)
        → All (λ p. Among p policies) ps
        → All IsDue (send_checks refuses chain_id ps positions)
    unfolding send_checks
    send_checks-IsDue [] h = tt
    send_checks-IsDue (p ∷ ps) (own, h) =
        All-append IsDue (send_checks_of refuses chain_id p positions)
          (send_checks refuses chain_id ps positions)
          (send_checks_of-IsDue p positions own (All-Among positions)) (send_checks-IsDue ps h)

    tick_with-IsDue :
        (faults : TickFaults) (s : OrderStore) (live : List TpSlOrder)
        → All (IsLiveRow chain_id now orders) live
        → All IsDue (tick_with refuses faults chain_id now live policies positions s).0
    tick_with-IsDue faults s [] h = tt
    tick_with-IsDue faults s (o ∷ os) h =
        let Q : List QueueMessage × OrderStore → Type 0 = λ r. All IsDue r.0 in
        let sent = send_orders-IsDue (o ∷ os) h in
        either_branch Q faults.update_down _ _ sent (
          either_branch Q faults.positions_down _ _ sent (
            All-append IsDue (send_orders refuses chain_id (o ∷ os))
              (send_checks refuses chain_id policies positions) sent
              (send_checks-IsDue policies (All-Among policies))))

live_row :
    (chain_id now : ℕ) (orders : List TpSlOrder) (o : TpSlOrder)
    → Among o orders
    → is_live_on chain_id now o ≡ true
    → IsLiveRow chain_id now orders o
live_row chain_id now orders o among live = record {
  row = among;
  chain = ground arith;
  pending = ground arith;
  in_time = ground arith;
}

live_orders-live :
    (chain_id now : ℕ) (orders : List TpSlOrder)
    → All (IsLiveRow chain_id now orders) (live_orders chain_id now orders)
unfolding live_orders
live_orders-live chain_id now orders =
    let P : TpSlOrder → Type 0 = IsLiveRow chain_id now orders in
    let live = filter (is_live_on chain_id now) orders in
    All-take P 50 _ (
      sort_by-All oldest_first P live (
        All-both (λ o. Among o orders) (λ o. is_live_on chain_id now o ≡ true) P
          (λ o among holds. live_row chain_id now orders o among holds) live
          (All-filter (λ o. Among o orders) (is_live_on chain_id now) orders (All-Among orders))
          (filter-holds (is_live_on chain_id now) orders)))

-- Whatever statements D1 refuses, each message of a tick that evaluates an order repeats the terms of
-- a row of the store that is pending, on the tick's chain, before its deadline and has a decimal
-- on-chain id; each that checks a position repeats an active policy of the chain that recenters, and
-- the range of its active position.
pub run_keeper_tick-IsDue :
    (refuses : QueueMessage → Bool) (faults : TickFaults) (env_chain : Option ℕ) (now : ℕ)
    (policies : List PositionPolicy) (positions : List LiquidityPosition) (s : OrderStore)
    → All
        (IsDue (configured_chain env_chain) now s.orders policies positions)
        (run_keeper_tick refuses faults env_chain now policies positions s).0
unfolding run_keeper_tick
run_keeper_tick-IsDue refuses faults env_chain now policies positions s =
    let chain_id = configured_chain env_chain in
    either_branch
      (λ (r : List QueueMessage × OrderStore).
        All (IsDue chain_id now s.orders policies positions) r.0)
      faults.orders_down _ _ tt
      (tick_with-IsDue chain_id now s.orders policies positions refuses faults s
        (live_orders chain_id now s.orders) (live_orders-live chain_id now s.orders))
