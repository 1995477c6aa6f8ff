-- ===== src/Sources.antt =====
-- The indexer of three sources: what its configuration names, the events of the v4 pool manager and
-- how they are decoded (apps/api/src/services/indexer-events.ts), and the tables that it writes
-- (apps/api/src/db/queries.ts).
pub mod Config
pub mod Tables
pub mod Store
pub mod Window
pub mod Run
pub mod Keeps
mod Stored
mod Stretch
pub mod Progress
pub mod Frontier
pub mod Refine
pub mod Head
pub mod Replay
pub mod Backfill
mod Tests
use aether_dex.Prelude.{ℕ, Bool, true, false, Option, none, some, List, String}
use aether_dex.Prelude.Chain.{◌>>=◌}
use aether_dex.Prelude.Int.{ℤ}
use aether_dex.Indexer.{RawLog, LiquidityRow}

pub data IndexerSource : Type 0 where
  v3_position_manager v3_pool v4_pool_manager : IndexerSource

abbrev pub same_source : IndexerSource → IndexerSource → Bool
same_source IndexerSource.v3_position_manager IndexerSource.v3_position_manager = true
same_source IndexerSource.v3_pool IndexerSource.v3_pool = true
same_source IndexerSource.v4_pool_manager IndexerSource.v4_pool_manager = true
same_source _ _ = false

-- What stands in every event.
pub record DecodedLogLocation : Type 0 where
  pub block_number : ℕ
  pub log_index : ℕ
  pub tx_hash : String

pub record V4InitializeEvent : Type 0 where
  pub location : DecodedLogLocation
  pub pool_id : String
  pub currency0 : String
  pub currency1 : String
  pub fee : ℕ
  pub tick_spacing : ℤ
  pub hooks : String
  pub sqrt_price_x96 : ℕ
  pub tick : ℤ

pub record V4ModifyLiquidityEvent : Type 0 where
  pub location : DecodedLogLocation
  pub pool_id : String
  pub sender : String
  pub tick_lower : ℤ
  pub tick_upper : ℤ
  pub liquidity_delta : ℤ

pub record V4SwapEvent : Type 0 where
  pub location : DecodedLogLocation
  pub pool_id : String
  pub sender : String
  pub amount0 : ℤ
  pub amount1 : ℤ
  pub sqrt_price_x96 : ℕ
  pub liquidity : ℕ
  pub tick : ℤ
  pub fee : ℕ

pub data V4PoolManagerEvent : Type 0 where
  initialize : V4InitializeEvent → V4PoolManagerEvent
  modify_liquidity : V4ModifyLiquidityEvent → V4PoolManagerEvent
  swap : V4SwapEvent → V4PoolManagerEvent

-- The arguments that `decodeEventLog` of viem yields by `V4_POOL_MANAGER_ABI`.
pub record InitializeArgs : Type 0 where
  pub id : String
  pub currency0 : String
  pub currency1 : String
  pub fee : ℕ
  pub tick_spacing : ℤ
  pub hooks : String
  pub sqrt_price_x96 : ℕ
  pub tick : ℤ

pub record ModifyLiquidityArgs : Type 0 where
  pub id : String
  pub sender : String
  pub tick_lower : ℤ
  pub tick_upper : ℤ
  pub liquidity_delta : ℤ

pub record SwapArgs : Type 0 where
  pub id : String
  pub sender : String
  pub amount0 : ℤ
  pub amount1 : ℤ
  pub sqrt_price_x96 : ℕ
  pub liquidity : ℕ
  pub tick : ℤ
  pub fee : ℕ

pub data DecodedLog : Type 0 where
  initialize_log : InitializeArgs → DecodedLog
  modify_liquidity_log : ModifyLiquidityArgs → DecodedLog
  swap_log : SwapArgs → DecodedLog

-- `decodeEventLog` and `getAddress`, `none` where they throw.
pub record V4Abi : Type 0 where
  pub decode : RawLog → Option DecodedLog
  pub get_address : String → Option String

abbrev location_of : RawLog → DecodedLogLocation
location_of log = record {
  block_number = log.block_number;
  log_index = log.log_index;
  tx_hash = log.transaction_hash;
}

abbrev v4_event : V4Abi → RawLog → DecodedLog → Option V4PoolManagerEvent
v4_event abi log (initialize_log args) = do
  currency0 ← abi.get_address args.currency0
  currency1 ← abi.get_address args.currency1
  hooks ← abi.get_address args.hooks
  some (
      initialize (record {
        location = location_of log;
        pool_id = args.id;
        currency0 = currency0;
        currency1 = currency1;
        fee = args.fee;
        tick_spacing = args.tick_spacing;
        hooks = hooks;
        sqrt_price_x96 = args.sqrt_price_x96;
        tick = args.tick;
      }))
v4_event abi log (modify_liquidity_log args) = do
  sender ← abi.get_address args.sender
  some (
      modify_liquidity (record {
        location = location_of log;
        pool_id = args.id;
        sender = sender;
        tick_lower = args.tick_lower;
        tick_upper = args.tick_upper;
        liquidity_delta = args.liquidity_delta;
      }))
v4_event abi log (swap_log args) = do
  sender ← abi.get_address args.sender
  some (
      swap (record {
        location = location_of log;
        pool_id = args.id;
        sender = sender;
        amount0 = args.amount0;
        amount1 = args.amount1;
        sqrt_price_x96 = args.sqrt_price_x96;
        liquidity = args.liquidity;
        tick = args.tick;
        fee = args.fee;
      }))

unfoldable pub parse_v4_pool_manager_log : V4Abi → RawLog → Option V4PoolManagerEvent
parse_v4_pool_manager_log abi log = do decoded ← abi.decode log; v4_event abi log decoded
