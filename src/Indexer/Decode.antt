-- ===== src/Indexer/Decode.antt =====
-- `parseV3LiquidityLog` (apps/api/src/services/v3-liquidity-events.ts). What `decodeEventLog` of
-- viem yields by the two ABIs, and the texts that viem makes of numbers and addresses, are the
-- record `Viem`.
use aether_dex.Prelude.{ℕ, Bool, false, Option, none, some, String, str_eq, if◌then◌else◌}
use aether_dex.Prelude.Int.{ℤ, pos}
use aether_dex.Prelude.Chain.{◌>>=◌}
use aether_dex.Positions.{EventType, V3LiquidityEvent}
use aether_dex.Indexer.{RawLog}

-- The token's id and the unsigned amounts of the position manager's events.
pub data PositionManagerEvent : Type 0 where
  increase_liquidity : ℕ → ℕ → ℕ → ℕ → PositionManagerEvent
  decrease_liquidity : ℕ → ℕ → ℕ → ℕ → PositionManagerEvent
  collected : ℕ → String → ℕ → ℕ → PositionManagerEvent
  transferred : ℕ → String → String → PositionManagerEvent

-- The owner, the ticks, and the amounts of a pool's `Mint` (or `Burn`).
pub record PoolEvent : Type 0 where
  pub is_mint : Bool
  pub owner : String
  pub tick_lower : ℤ
  pub tick_upper : ℤ
  pub amount : ℕ
  pub amount0 : ℕ
  pub amount1 : ℕ

pub record Viem : Type 0 where
  -- `none` where it throws.
  pub decode_position_manager : RawLog → Option PositionManagerEvent
  pub decode_pool : RawLog → Option PoolEvent
  pub get_address : String → Option String
  pub to_lower : String → String
  pub decimal : ℕ → String

pub record LogSources : Type 0 where
  pub position_manager : Option String
  pub pool_address : Option String
  pub pool_id : Option String

abbrev base_event : RawLog → String → EventType → V3LiquidityEvent
base_event log token_id kind = record {
  event_type = kind;
  tx_hash = log.transaction_hash;
  log_index = log.log_index;
  block_number = log.block_number;
  pool_id = none;
  token_id = some token_id;
  owner_address = none;
  tick_lower = none;
  tick_upper = none;
  liquidity_delta = none;
  amount0 = none;
  amount1 = none;
}

module _ (viem : Viem) where
  abbrev pub owned_transfer : RawLog → ℕ → Option String → Option V3LiquidityEvent
  owned_transfer log token none = none
  owned_transfer log token (some owner) =
      some (record (base_event log (viem.decimal token) EventType.transfer) {
        owner_address = some owner;
      })

  unfoldable pub position_manager_event : RawLog → PositionManagerEvent → Option V3LiquidityEvent
  position_manager_event log (increase_liquidity token liquidity a0 a1) =
      some (record (base_event log (viem.decimal token) EventType.increase) {
        liquidity_delta = some (pos liquidity);
        amount0 = some (pos a0);
        amount1 = some (pos a1);
      })
  position_manager_event log (decrease_liquidity token liquidity a0 a1) =
      some (record (base_event log (viem.decimal token) EventType.decrease) {
        liquidity_delta = some (pos liquidity);
        amount0 = some (pos a0);
        amount1 = some (pos a1);
      })
  position_manager_event log (collected token recipient a0 a1) = do
    owner ← viem.get_address recipient
    some (record (base_event log (viem.decimal token) EventType.collect) {
      owner_address = some owner;
      amount0 = some (pos a0);
      amount1 = some (pos a1);
    })
  position_manager_event log (transferred token from to) =
      owned_transfer log token (viem.get_address to)

  unfoldable pub parse_position_manager_log : RawLog → Option V3LiquidityEvent
  parse_position_manager_log log = do
    decoded ← viem.decode_position_manager log
    position_manager_event log decoded

  unfoldable pub parse_pool_log : RawLog → Option String → Option V3LiquidityEvent
  parse_pool_log log pool_id = do
    decoded ← viem.decode_pool log
    owner ← viem.get_address decoded.owner
    some (record {
      event_type = if decoded.is_mint then EventType.mint else EventType.burn;
      tx_hash = log.transaction_hash;
      log_index = log.log_index;
      block_number = log.block_number;
      pool_id = pool_id;
      token_id = none;
      owner_address = some owner;
      tick_lower = some decoded.tick_lower;
      tick_upper = some decoded.tick_upper;
      liquidity_delta = some (pos decoded.amount);
      amount0 = some (pos decoded.amount0);
      amount1 = some (pos decoded.amount1);
    })

  abbrev is_at : Option String → RawLog → Bool
  is_at none log = false
  is_at (some String.[]) log = false
  is_at (some address) log = str_eq (viem.to_lower log.address) (viem.to_lower address)

  unfoldable pub parse_v3_liquidity_log : LogSources → RawLog → Option V3LiquidityEvent
  parse_v3_liquidity_log sources log =
      let by_manager = parse_position_manager_log log in
      let by_pool = parse_pool_log log sources.pool_id in
      if is_at sources.position_manager log
      then by_manager
      else if is_at sources.pool_address log
      then by_pool
      else none
