-- ===== src/Orders.antt =====
-- Take-profit and stop-loss orders: the rows of `tp_sl_orders` and `keeper_executions`
-- (apps/api/src/services/tp-sl.service.ts), which the service, the queue and the cron share.
pub mod Service
pub mod Trigger
pub mod Evaluate
pub mod Keeps
pub mod Keys
pub mod Marks
pub mod Soundness
pub mod Access
pub mod Samples
mod Tests
use aether_dex.Prelude.{ℕ, Bool, true, false, Option, none, some, List, String, ◌&&◌, ◌==◌}

pub data OrderType : Type 0 where
  take_profit stop_loss : OrderType

pub data OrderStatus : Type 0 where
  pending triggered executed cancelled expired : OrderStatus

-- `status = 'pending'`
abbrev pub is_pending : OrderStatus → Bool
is_pending OrderStatus.pending = true
is_pending _ = false

-- A row of `tp_sl_orders`. Prices and amounts are the decimal texts that the table holds.
pub record TpSlOrder : Type 0 where
  pub id : ℕ
  pub onchain_order_id : Option String
  pub user_address : String
  pub pool_id : String
  pub order_type : OrderType
  pub zero_for_one : Bool
  pub amount_in : String
  pub min_amount_out : String
  pub trigger_price_x18 : String
  pub twap_window : ℕ
  pub slippage_bps : ℕ
  pub deadline : ℕ
  pub status : OrderStatus
  pub created_at : ℕ
  pub updated_at : Option ℕ
  pub executed_at : Option ℕ
  pub execution_tx_hash : Option String
  pub execution_amount_out : Option String
  pub chain_id : ℕ

-- A row of `keeper_executions`.
pub record KeeperExecution : Type 0 where
  pub id : ℕ
  pub order_id : ℕ
  pub chain_id : ℕ
  pub keeper_address : String
  pub tx_hash : String
  pub amount_out : String
  pub gas_used : Option ℕ
  pub executed_at : ℕ
  pub policy_triggered : Option String

-- The two tables, with the next value of each `AUTOINCREMENT` key.
pub record OrderStore : Type 0 where
  pub orders : List TpSlOrder
  pub executions : List KeeperExecution
  pub next_order_id : ℕ
  pub next_execution_id : ℕ

-- `id = ? AND chain_id = ? AND status = 'pending'`
abbrev pub is_open : ℕ → ℕ → TpSlOrder → Bool
is_open order_id chain_id o = o.id == order_id && o.chain_id == chain_id && is_pending o.status
