-- ===== src/Indexer.antt =====
-- The indexer of v3 liquidity events: the logs it reads and how it decodes them
-- (apps/api/src/services/v3-liquidity-events.ts), the rows it stores (insertLiquidityEvent of
-- apps/api/src/db/queries.ts), and what the blocks hold (apps/api/src/services/v3-liquidity-indexer.service.ts).
pub mod Decode
pub mod Run
pub mod Coverage
mod Tests
use aether_dex.Prelude.{
  ℕ, zero, suc, Bool, true, false, ◌&&◌, Option, none, some, List, [], ◌∷◌, ◌++◌, String, ◌==◌, ltb,
  str_eq, if◌then◌else◌,
}
use aether_dex.Prelude.Table.{count_where}
use aether_dex.Positions.{V3LiquidityEvent}

pub record RawLog : Type 0 where
  pub address : String
  -- The data and the topics.
  pub payload : String
  pub transaction_hash : String
  pub log_index : ℕ
  pub block_number : ℕ

pub data Protocol : Type 0 where
  v3 v4 : Protocol

-- A row of `liquidity_events`.
pub record LiquidityRow : Type 0 where
  pub chain_id : ℕ
  pub protocol : Protocol
  pub event : V3LiquidityEvent
  pub block_timestamp : ℕ

-- The table is `UNIQUE (chain_id, tx_hash, log_index)`.
abbrev pub same_key : LiquidityRow → LiquidityRow → Bool
same_key a b =
    a.chain_id == b.chain_id
    && str_eq a.event.tx_hash b.event.tx_hash
    && a.event.log_index == b.event.log_index

abbrev pub is_stored : LiquidityRow → List LiquidityRow → Bool
is_stored row rows = ltb 0 (count_where (same_key row) rows)

-- `INSERT … ON CONFLICT(chain_id, tx_hash, log_index) DO NOTHING`
unfoldable pub insert_liquidity_event : LiquidityRow → List LiquidityRow → List LiquidityRow
insert_liquidity_event row rows = if is_stored row rows then rows else rows ++ row ∷ []

-- The inserts of one range, in turn. D1 refuses one after `budget` of them, or none; the flag tells
-- whether all were made.
unfoldable pub insert_all :
    List LiquidityRow → Option ℕ → List LiquidityRow → Bool × List LiquidityRow
insert_all [] budget table = (true, table)
insert_all (row ∷ rows) (some zero) table = (false, table)
insert_all (row ∷ rows) (some (suc n)) table =
    insert_all rows (some n) (insert_liquidity_event row table)
insert_all (row ∷ rows) none table = insert_all rows none (insert_liquidity_event row table)
