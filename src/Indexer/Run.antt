-- ===== src/Indexer/Run.antt =====
-- The blocks that the indexer reads next (apps/api/src/workers/v3-indexer-cursor.ts), what it reads
-- of them (apps/api/src/services/v3-liquidity-indexer.service.ts), and the cron's run
-- `runV3LiquidityIndexer` (apps/api/src/workers/cron-handler.ts).
use aether_dex.Prelude.{
  ℕ, ◌+◌, ◌-◌, Bool, true, false, Option, none, some, List, [], ◌∷◌, ◌++◌, String, ◌==◌, ltb,
  str_eq, if◌then◌else◌, length, not,
}
use aether_dex.Prelude.Result.{Result, ok, err, ◌>>=◌, or_err, demand}
use aether_dex.Positions.{V3LiquidityEvent}
use aether_dex.Indexer.{RawLog, Protocol, LiquidityRow, insert_all}
use aether_dex.Indexer.Decode.{Viem, LogSources, parse_v3_liquidity_log}

abbrev pub v3_indexer_max_range : ℕ
v3_indexer_max_range = 2000

abbrev v3_indexer_confirmations : ℕ
v3_indexer_confirmations = 12

unfoldable pub finalized_v3_head : ℕ → ℕ
finalized_v3_head latest =
    if ltb v3_indexer_confirmations latest then latest - v3_indexer_confirmations else 0

pub record BlockRange : Type 0 where
  pub from_block : ℕ
  pub to_block : ℕ

-- `cursor ?? deploymentBlock`
abbrev pub start_block : Option ℕ → ℕ → ℕ
start_block none deployment = deployment
start_block (some c) deployment = c

unfoldable pub next_v3_indexer_range : Option ℕ → ℕ → ℕ → Option BlockRange
next_v3_indexer_range cursor latest deployment =
    let from = start_block cursor deployment in
    let last = from + v3_indexer_max_range - 1 in
    if ltb latest from
    then none
    else some (record { from_block = from; to_block = if ltb last latest then last else latest })

pub record V3PoolIndexConfig : Type 0 where
  pub address : String
  pub pool_id : String

pub record V3LiquidityIndexerConfig : Type 0 where
  pub chain_id : ℕ
  pub position_manager : String
  pub pools : List V3PoolIndexConfig

-- A log as the node yields it: of a pending block the last three are missing.
pub record ChainLog : Type 0 where
  pub address : String
  pub payload : String
  pub transaction_hash : Option String
  pub log_index : Option ℕ
  pub block_number : Option ℕ

-- The node, `none` where a call throws.
pub record Rpc : Type 0 where
  pub get_chain_id : Option ℕ
  pub get_block_number : Option ℕ
  pub get_logs : String → ℕ → ℕ → Option (List ChainLog)
  pub get_timestamp : ℕ → Option ℕ

pub data IndexerError : Type 0 where
  rpc_chain invalid_range rpc_logs rpc_block rpc_head insert_failed cursor_failed : IndexerError

abbrev raw_of : ChainLog → Option String → Option ℕ → Option ℕ → Option RawLog
raw_of log (some hash) (some index) (some block) = some (record {
  address = log.address;
  payload = log.payload;
  transaction_hash = hash;
  log_index = index;
  block_number = block;
})
raw_of log _ _ _ = none

unfoldable pub to_raw_log : ChainLog → Option RawLog
to_raw_log log = raw_of log log.transaction_hash log.log_index log.block_number

-- The table of events and the row of `indexer_cursors`.
pub record IndexerState : Type 0 where
  pub rows : List LiquidityRow
  pub cursor : Option ℕ

module _ (viem : Viem) (config : V3LiquidityIndexerConfig) (rpc : Rpc) where
  unfoldable pub verify_rpc_chain : Result IndexerError (Unit {0})
  verify_rpc_chain = do
    actual ← or_err IndexerError.rpc_chain rpc.get_chain_id
    demand IndexerError.rpc_chain (actual == config.chain_id)

  -- The last pool of that address, as in a `Map` built in order.
  abbrev find_pool : List V3PoolIndexConfig → String → Option V3PoolIndexConfig
  find_pool [] address = none
  find_pool (p ∷ ps) address = elim (find_pool ps address) [
    | some later ↦ some later
    | none ↦ if str_eq (viem.to_lower p.address) (viem.to_lower address) then some p else none
  ]

  abbrev sources_of : Option V3PoolIndexConfig → LogSources
  sources_of none = record {
    position_manager = some config.position_manager;
    pool_address = none;
    pool_id = none;
  }
  sources_of (some p) = record {
    position_manager = some config.position_manager;
    pool_address = some p.address;
    pool_id = some p.pool_id;
  }

  abbrev parse_raw : Option RawLog → Option V3LiquidityEvent
  parse_raw none = none
  parse_raw (some raw) =
      parse_v3_liquidity_log viem (sources_of (find_pool config.pools raw.address)) raw

  abbrev cons_event : Option V3LiquidityEvent → List V3LiquidityEvent → List V3LiquidityEvent
  cons_event none events = events
  cons_event (some e) events = e ∷ events

  unfoldable pub parse_logs : List ChainLog → List V3LiquidityEvent
  parse_logs [] = []
  parse_logs (log ∷ logs) = cons_event (parse_raw (to_raw_log log)) (parse_logs logs)

  abbrev addresses_of : List V3PoolIndexConfig → List String
  addresses_of [] = []
  addresses_of (p ∷ ps) = p.address ∷ addresses_of ps

  -- One call for each address; all must succeed.
  unfoldable pub fetch_logs : List String → ℕ → ℕ → Result IndexerError (List ChainLog)
  fetch_logs [] from to = ok []
  fetch_logs (a ∷ rest) from to = do
    logs ← or_err IndexerError.rpc_logs (rpc.get_logs a from to)
    others ← fetch_logs rest from to
    ok (logs ++ others)

  -- The rows, each with the time of its block.
  unfoldable pub stamp_events : List V3LiquidityEvent → Result IndexerError (List LiquidityRow)
  stamp_events [] = ok []
  stamp_events (e ∷ es) = do
    time ← or_err IndexerError.rpc_block (rpc.get_timestamp e.block_number)
    rows ← stamp_events es
    ok (
        record {
          chain_id = config.chain_id;
          protocol = Protocol.v3;
          event = e;
          block_timestamp = time;
        }
        ∷ rows)

  unfoldable pub read_rows : BlockRange → Result IndexerError (List LiquidityRow)
  read_rows range = do
    _ ← verify_rpc_chain
    _ ← demand IndexerError.invalid_range (not (ltb range.to_block range.from_block))
    logs ←
        fetch_logs (config.position_manager ∷ addresses_of config.pools) range.from_block
          range.to_block
    stamp_events (parse_logs logs)

  abbrev pub inserted :
      List LiquidityRow → Bool × List LiquidityRow → Result IndexerError ℕ × List LiquidityRow
  inserted rows (true, table) = (ok (length rows), table)
  inserted rows (false, table) = (err IndexerError.insert_failed, table)

  abbrev pub insert_read :
      Result IndexerError (List LiquidityRow)
      → Option ℕ
      → List LiquidityRow
      → Result IndexerError ℕ × List LiquidityRow
  insert_read (err e) budget table = (err e, table)
  insert_read (ok rows) budget table = inserted rows (insert_all rows budget table)

  -- What is stored when it fails stays stored.
  unfoldable pub index_range :
      BlockRange → Option ℕ → List LiquidityRow → Result IndexerError ℕ × List LiquidityRow
  index_range range budget table = insert_read (read_rows range) budget table

  -- After the range was read and stored the cursor moves past it, unless D1 refuses that write.
  abbrev pub advance :
      Bool
      → BlockRange
      → Result IndexerError ℕ × List LiquidityRow
      → IndexerState
      → Result IndexerError (Unit {0}) × IndexerState
  advance cursor_down range (err e, table) s = (err e, record s { rows = table })
  advance true range (ok n, table) s = (err IndexerError.cursor_failed, record s { rows = table })
  advance false range (ok n, table) s =
      (ok tt, record { rows = table; cursor = some (range.to_block + 1) })

  abbrev pub run_range :
      Option ℕ
      → Bool
      → Option BlockRange
      → IndexerState
      → Result IndexerError (Unit {0}) × IndexerState
  run_range budget cursor_down none s = (ok tt, s)
  run_range budget cursor_down (some range) s =
      advance cursor_down range (index_range range budget s.rows) s

  -- The head that is final, where the node answers for the right chain.
  unfoldable pub latest_final : Result IndexerError ℕ
  latest_final = do
    _ ← verify_rpc_chain
    head ← or_err IndexerError.rpc_head rpc.get_block_number
    ok (finalized_v3_head head)

  abbrev pub run_from :
      ℕ
      → Option ℕ
      → Bool
      → Result IndexerError ℕ
      → IndexerState
      → Result IndexerError (Unit {0}) × IndexerState
  run_from deployment budget cursor_down (err e) s = (err e, s)
  run_from deployment budget cursor_down (ok head) s =
      run_range budget cursor_down (next_v3_indexer_range s.cursor head deployment) s

  -- One tick, with the budget of inserts and whether the write of the cursor is refused.
  unfoldable pub run_v3_liquidity_indexer :
      ℕ → Option ℕ → Bool → IndexerState → Result IndexerError (Unit {0}) × IndexerState
  run_v3_liquidity_indexer deployment budget cursor_down s =
      run_from deployment budget cursor_down latest_final s
