-- ===== src/Sources/Window.antt =====
-- What the indexer of three sources reads and stores of a window of blocks
-- (apps/api/src/services/indexer.service.ts).
use aether_dex.Prelude.{
  ℕ, ◌+◌, ◌-◌, Bool, true, false, Option, none, some, List, [], ◌∷◌, String, ◌==◌, ltb,
  if◌then◌else◌, length,
}
use aether_dex.Prelude.Result.{Result, ok, err, ◌>>=◌, or_err}
use aether_dex.Positions.{V3LiquidityEvent}
use aether_dex.Indexer.{RawLog}
use aether_dex.Indexer.Decode.{Viem, parse_v3_liquidity_log}
use aether_dex.Indexer.Run.{ChainLog, to_raw_log}
use aether_dex.Sources.{IndexerSource, V4Abi, V4PoolManagerEvent, parse_v4_pool_manager_log}
use aether_dex.Sources.Config.{IndexerChainConfig}
use aether_dex.Sources.Store.{Budget, ParsedIndexerEvent, item_block, persist_events}
use aether_dex.Sources.Tables.{IndexerDb, set_indexer_cursor}

pub data IndexerError : Type 0 where
  no_config rpc_logs rpc_block rpc_head persist_failed cursor_failed invalid_range : IndexerError

pub record IndexResult : Type 0 where
  pub source : IndexerSource
  pub from_block : ℕ
  pub to_block : ℕ
  pub events_processed : ℕ
  pub cursor_advanced : Bool

-- The node, `none` where a call throws.
pub record Node : Type 0 where
  pub get_block_number : Option ℕ
  pub get_logs : List String → ℕ → ℕ → Option (List ChainLog)
  pub get_timestamp : ℕ → Option ℕ

-- The decoders of viem.
pub record Decoders : Type 0 where
  pub viem : Viem
  pub abi : V4Abi

abbrev pub one_address : Option String → List String
one_address none = []
one_address (some a) = a ∷ []

unfoldable pub source_addresses : IndexerChainConfig → IndexerSource → List String
source_addresses config IndexerSource.v3_position_manager = one_address config.v3_position_manager
source_addresses config IndexerSource.v3_pool = config.v3_pools
source_addresses config IndexerSource.v4_pool_manager = one_address config.v4_pool_manager

-- The configuration of a chain as a `Map` that is filled in order: the last one counts.
unfoldable pub config_by_chain : List IndexerChainConfig → ℕ → Option IndexerChainConfig
config_by_chain [] chain_id = none
config_by_chain (c ∷ cs) chain_id = elim (config_by_chain cs chain_id) [
  | some later ↦ some later
  | none ↦ if c.chain_id == chain_id then some c else none
]

unfoldable pub resolve_start_block : Option ℕ → Option ℕ → ℕ → ℕ
resolve_start_block (some next) genesis head = next
resolve_start_block none (some block) head = block
resolve_start_block none none head = if ltb 10000 head then head - 10000 else 0

-- `config.batchSize ?? 2000`
abbrev pub batch_size : Option ℕ → ℕ
batch_size none = 2000
batch_size (some size) = size

unfoldable pub last_block : ℕ → ℕ → ℕ → ℕ
last_block head from size = if ltb head (from + size) then head else from + size

abbrev pub advanced_to : IndexerSource → ℕ → ℕ → ℕ → IndexResult
advanced_to source from to n = record {
  source = source;
  from_block = from;
  to_block = to;
  events_processed = n;
  cursor_advanced = true;
}

abbrev pub with_cursor : ℕ → IndexerSource → ℕ → IndexerDb → IndexerDb
with_cursor chain_id source next db = record db {
  cursors = set_indexer_cursor chain_id source next db.cursors;
}

abbrev pub v3_parsed : Option V3LiquidityEvent → Option ParsedIndexerEvent
v3_parsed none = none
v3_parsed (some e) = some (ParsedIndexerEvent.v3_item e)

abbrev pub v4_parsed : Option V4PoolManagerEvent → Option ParsedIndexerEvent
v4_parsed none = none
v4_parsed (some e) = some (ParsedIndexerEvent.v4_item e)

-- What an operation yields, what is left of the budget, and the tables.
abbrev pub Outcome : Type 0 → Type 0
Outcome A = Result IndexerError A × Budget × IndexerDb

module _ (decoders : Decoders) where
  unfoldable pub parse_for_source :
      IndexerChainConfig → IndexerSource → RawLog → Option ParsedIndexerEvent
  parse_for_source config IndexerSource.v3_position_manager raw = v3_parsed (
      parse_v3_liquidity_log decoders.viem
        (record {
          position_manager = config.v3_position_manager;
          pool_address = none;
          pool_id = none;
        })
        raw)
  parse_for_source config IndexerSource.v3_pool raw = v3_parsed (
      parse_v3_liquidity_log decoders.viem
        (record {
          position_manager = none;
          pool_address = some raw.address;
          pool_id = some (decoders.viem.to_lower raw.address);
        })
        raw)
  parse_for_source config IndexerSource.v4_pool_manager raw =
      v4_parsed (parse_v4_pool_manager_log decoders.abi raw)

  abbrev pub parsed_of :
      IndexerChainConfig → IndexerSource → Option RawLog → Option ParsedIndexerEvent
  parsed_of config source none = none
  parsed_of config source (some raw) = parse_for_source config source raw

  abbrev pub cons_parsed :
      Option ParsedIndexerEvent → List ParsedIndexerEvent → List ParsedIndexerEvent
  cons_parsed none items = items
  cons_parsed (some item) items = item ∷ items

  -- The relevant logs.
  unfoldable pub parse_all :
      IndexerChainConfig → IndexerSource → List ChainLog → List ParsedIndexerEvent
  parse_all config source [] = []
  parse_all config source (log ∷ logs) =
      cons_parsed (parsed_of config source (to_raw_log log)) (parse_all config source logs)

  -- The time of each item's block. Blocks that many items share are asked for once in the source.
  unfoldable pub load_timestamps :
      Node → List ParsedIndexerEvent → Result IndexerError (List (ParsedIndexerEvent × ℕ))
  load_timestamps node [] = ok []
  load_timestamps node (item ∷ items) = do
    time ← or_err IndexerError.rpc_block (node.get_timestamp (item_block item))
    rest ← load_timestamps node items
    ok ((item, time) ∷ rest)

  -- Without an address no call is made.
  abbrev pub fetch_logs_of : Node → List String → ℕ → ℕ → Result IndexerError (List ChainLog)
  fetch_logs_of node [] from to = ok []
  fetch_logs_of node (a ∷ rest) from to =
      or_err IndexerError.rpc_logs (node.get_logs (a ∷ rest) from to)

  unfoldable pub fetch_window :
      IndexerChainConfig → IndexerSource → Node → ℕ → ℕ → Result IndexerError (List ChainLog)
  fetch_window config source node from to =
      fetch_logs_of node (source_addresses config source) from to

  -- The items of a window.
  unfoldable pub read_window :
      IndexerChainConfig
      → IndexerSource
      → Node
      → ℕ
      → ℕ
      → Result IndexerError (List (ParsedIndexerEvent × ℕ))
  read_window config source node from to = do
    logs ← fetch_window config source node from to
    load_timestamps node (parse_all config source logs)

  abbrev pub persisted : ℕ → Bool × Budget × IndexerDb → Outcome ℕ
  persisted n (true, budget, db) = (ok n, budget, db)
  persisted n (false, budget, db) = (err IndexerError.persist_failed, budget, db)

  abbrev pub persist_read :
      ℕ → Result IndexerError (List (ParsedIndexerEvent × ℕ)) → Budget → IndexerDb → Outcome ℕ
  persist_read chain_id (err e) budget db = (err e, budget, db)
  persist_read chain_id (ok items) budget db =
      persisted (length items) (persist_events chain_id items budget db)

  -- Fetches, decodes and stores one range of blocks; it writes no cursor.
  unfoldable pub index_window :
      ℕ → IndexerSource → IndexerChainConfig → Node → ℕ → ℕ → Budget → IndexerDb → Outcome ℕ
  index_window chain_id source config node from to budget db =
      persist_read chain_id (read_window config source node from to) budget db
