-- ===== src/Cron.antt =====
-- The keeper's tick, `runKeeperTick` (apps/api/src/workers/cron-handler.ts): it sends a message for
-- each live order, expires the orders whose deadline has passed, and sends a message for each
-- position that a policy keeps in range.
pub mod Expiry
pub mod Due
mod Tests
use aether_dex.Prelude.{
  ℕ, Bool, ◌&&◌, Option, none, some, List, [], ◌∷◌, ◌++◌, String, ◌==◌, leb, ltb, str_eq, not,
  if◌then◌else◌, filter, take,
}
use aether_dex.Prelude.Int.{ℤ}
use aether_dex.Prelude.Sort.{sort_by}
use aether_dex.Prelude.Text.{is_decimal}
use aether_dex.Prelude.Table.{update_where}
use aether_dex.Orders.{TpSlOrder, OrderStatus, OrderStore, is_pending}
use aether_dex.Orders.Service.{oldest_first, sepolia}
use aether_dex.Orders.Evaluate.{TpSlEvaluateMessage}
use aether_dex.Keeper.{PositionPolicy}
use aether_dex.Keeper.Recenter.{AutoRecenterCheckMessage}

-- The columns of `liquidity_positions` that the tick reads; `id_text` is `CAST(id AS TEXT)`.
pub record LiquidityPosition : Type 0 where
  pub id_text : String
  pub chain_id : ℕ
  pub tick_lower : ℤ
  pub tick_upper : ℤ
  pub is_active : Bool

pub data QueueMessage : Type 0 where
  tp_sl_evaluate : TpSlEvaluateMessage → QueueMessage
  auto_recenter_check : AutoRecenterCheckMessage → QueueMessage

-- `Number.parseInt(env.CHAIN_ID, 10) || 11155111`, from what `parseInt` reads.
abbrev pub configured_chain : Option ℕ → ℕ
configured_chain none = sepolia
configured_chain (some c) = if c == 0 then sepolia else c

-- `chain_id = ? AND status = 'pending' AND deadline > ?`
abbrev pub is_live_on : ℕ → ℕ → TpSlOrder → Bool
is_live_on chain_id now o = o.chain_id == chain_id && is_pending o.status && ltb now o.deadline

-- `chain_id = ? AND status = 'pending' AND deadline <= ?`
abbrev pub is_overdue_on : ℕ → ℕ → TpSlOrder → Bool
is_overdue_on chain_id now o = o.chain_id == chain_id && is_pending o.status && leb o.deadline now

unfoldable pub live_orders : ℕ → ℕ → List TpSlOrder → List TpSlOrder
live_orders chain_id now orders =
    take 50 (sort_by oldest_first (filter (is_live_on chain_id now) orders))

unfoldable pub evaluate_message : ℕ → TpSlOrder → String → TpSlEvaluateMessage
evaluate_message chain_id o onchain_id = record {
  order_id = o.id;
  onchain_order_id = onchain_id;
  pool_id = o.pool_id;
  order_type = o.order_type;
  zero_for_one = o.zero_for_one;
  amount_in = o.amount_in;
  min_amount_out = o.min_amount_out;
  trigger_price_x18 = o.trigger_price_x18;
  twap_window = o.twap_window;
  slippage_bps = o.slippage_bps;
  deadline = o.deadline;
  user_address = o.user_address;
  chain_id = chain_id;
}

-- The check of a position, `CAST(lp.id AS TEXT)` being the policy's `position_id`.
unfoldable pub check_message : ℕ → PositionPolicy → LiquidityPosition → AutoRecenterCheckMessage
check_message chain_id p l = record {
  policy_id = p.id;
  position_id = p.position_id;
  pool_id = p.pool_id;
  user_address = p.user_address;
  tick_lower = l.tick_lower;
  tick_upper = l.tick_upper;
  min_drift_bps = p.min_drift_bps;
  chain_id = chain_id;
}

-- Which statements of a tick D1 refuses: the SELECT of the orders, the UPDATE, and the SELECT of the
-- positions.
pub record TickFaults : Type 0 where
  pub orders_down : Bool
  pub update_down : Bool
  pub positions_down : Bool

-- A send that fails (`refuses`) is logged, and the loop goes on.
module _ (refuses : QueueMessage → Bool) where
  abbrev sent_if : QueueMessage → List QueueMessage → List QueueMessage
  sent_if m rest = if refuses m then rest else m ∷ rest

  abbrev pub message_for : ℕ → TpSlOrder → Option String → List QueueMessage → List QueueMessage
  message_for chain_id o none rest = rest
  message_for chain_id o (some i) rest =
      if not (is_decimal i)
      then rest
      else sent_if (QueueMessage.tp_sl_evaluate (evaluate_message chain_id o i)) rest

  unfoldable pub send_orders : ℕ → List TpSlOrder → List QueueMessage
  send_orders chain_id [] = []
  send_orders chain_id (o ∷ os) =
      let rest = send_orders chain_id os in message_for chain_id o o.onchain_order_id rest

  -- `pp JOIN lp ON pp.position_id = CAST(lp.id AS TEXT) AND lp.chain_id = pp.chain_id WHERE …`
  abbrev pub is_watched : ℕ → PositionPolicy → LiquidityPosition → Bool
  is_watched chain_id p l =
      str_eq p.position_id l.id_text
      && l.chain_id == p.chain_id
      && p.chain_id == chain_id
      && p.is_active
      && str_eq p.policy_type "auto_recenter"
      && l.is_active

  unfoldable pub send_checks_of : ℕ → PositionPolicy → List LiquidityPosition → List QueueMessage
  send_checks_of chain_id p [] = []
  send_checks_of chain_id p (l ∷ ls) =
      let rest = send_checks_of chain_id p ls in
      if is_watched chain_id p l
      then sent_if (QueueMessage.auto_recenter_check (check_message chain_id p l)) rest
      else rest

  unfoldable pub send_checks : ℕ → List PositionPolicy → List LiquidityPosition → List QueueMessage
  send_checks chain_id [] positions = []
  send_checks chain_id (p ∷ ps) positions =
      send_checks_of chain_id p positions ++ send_checks chain_id ps positions

  abbrev pub expire_overdue : ℕ → ℕ → OrderStore → OrderStore
  expire_overdue chain_id now s = record s {
    orders =
        update_where (is_overdue_on chain_id now) (λ o. record o { status = OrderStatus.expired })
          s.orders;
  }

  -- The messages that were sent, and the store. With no live order the tick ends at once, and so it
  -- does at a statement that D1 refuses.
  abbrev pub tick_with :
      TickFaults
      → ℕ
      → ℕ
      → List TpSlOrder
      → List PositionPolicy
      → List LiquidityPosition
      → OrderStore
      → List QueueMessage × OrderStore
  tick_with faults chain_id now [] policies positions s = ([], s)
  tick_with faults chain_id now (o ∷ os) policies positions s =
      let orders = send_orders chain_id (o ∷ os) in
      if faults.update_down
      then (orders, s)
      else if faults.positions_down
      then (orders, expire_overdue chain_id now s)
      else (orders ++ send_checks chain_id policies positions, expire_overdue chain_id now s)

  unfoldable pub run_keeper_tick :
      TickFaults
      → Option ℕ
      → ℕ
      → List PositionPolicy
      → List LiquidityPosition
      → OrderStore
      → List QueueMessage × OrderStore
  run_keeper_tick faults env_chain now policies positions s =
      let chain_id = configured_chain env_chain in
      if faults.orders_down
      then ([], s)
      else tick_with faults chain_id now (live_orders chain_id now s.orders) policies positions s
