-- ===== src/Sources/Tests.antt =====
-- Runs of the indexer of three sources over a small chain.
use aether_dex.Prelude.{ℕ, ◌<◌, ◌≡◌, refl, arith, none, some, [], ◌∷◌}
use aether_dex.Prelude.Int.{pos, negsuc}
use aether_dex.Prelude.Result.{◌>>=◌, or_err}
use aether_dex.Prelude.Table.{find_where, count_where}
use aether_dex.Prelude.Text.{is_positive_decimal, decimal_value, is_hex_address}
use aether_dex.Orders.Trigger.{parse_chain_id}
use aether_dex.Indexer.Run.{ChainLog, to_raw_log}
use aether_dex.Sources.{
  IndexerSource, DecodedLog, V4InitializeEvent, V4PoolManagerEvent, parse_v4_pool_manager_log,
}
use aether_dex.Sources.Config.{
  Texts, IndexerEnvConfig, IndexerChainConfig, is_indexer_enabled, parse_batch_size,
  build_indexer_chain_config,
}
use aether_dex.Sources.Store.{
  ParsedIndexerEvent, execute, execute_all, persist_v4, persist_event, persist_events, swap_sides,
  initial_pool,
}
use aether_dex.Sources.Tables.{
  Pool, IndexerDb, get_pool_by_id, upsert_user, record_swap, set_indexer_cursor,
}
use aether_dex.Sources.Run.{index_batch, index_sources, index_chain, run_phase3_indexer}
use aether_dex.Sources.Window.{
  Node, Decoders, source_addresses, config_by_chain, resolve_start_block, last_block,
  parse_for_source, parse_all, load_timestamps, fetch_window, read_window, index_window,
}
use aether_dex.Sources.Refine.{Runs, Asked, Runs-Covered}
use aether_dex.Sources.Frontier.{Covered}
use aether_dex.Sources.Head.{batches, batches-head}
use aether_dex.Sources.Replay.{persist_events-resets}

abbrev texts : Texts
texts = record { trim = λ s. s; to_lower = λ s. s; split_commas = λ s. s ∷ [] }

abbrev env : IndexerEnvConfig
env = record {
  chain_id = some "1";
  rpc_url = some "https://node";
  indexer_enabled = some "true";
  indexer_batch_size = some "10";
  v3_position_manager_address = none;
  v3_indexed_pool_addresses = none;
  v4_pool_manager_address = some "0xa1a1a1a1a1a1a1a1a1a1a1a1a1a1a1a1a1a1a1a1";
}

abbrev config : IndexerChainConfig
config = record {
  chain_id = 1;
  rpc_url = "https://node";
  batch_size = some 10;
  v3_position_manager = none;
  v3_pools = [];
  v4_pool_manager = some "0xa1a1a1a1a1a1a1a1a1a1a1a1a1a1a1a1a1a1a1a1";
  genesis_block = none;
}

abbrev decoders : Decoders
decoders = record {
  viem = record {
    decode_position_manager = λ log. none;
    decode_pool = λ log. none;
    get_address = λ a. some a;
    to_lower = λ s. s;
    decimal = λ n. "0";
  };
  abi = record {
    decode = λ log. some (
        DecodedLog.swap_log (record {
          id = "0xpool";
          sender = "0xsender";
          amount0 = pos 5;
          amount1 = negsuc 3;
          sqrt_price_x96 = 9;
          liquidity = 8;
          tick = pos 1;
          fee = 30;
        }));
    get_address = λ a. some a;
  };
}

abbrev swap_log : ChainLog
swap_log = record {
  address = "0xa1a1a1a1a1a1a1a1a1a1a1a1a1a1a1a1a1a1a1a1";
  payload = "0x";
  transaction_hash = some "0xhash";
  log_index = some 0;
  block_number = some 4;
}

abbrev node : Node
node = record {
  get_block_number = some 25;
  get_logs = λ addresses from to. some (swap_log ∷ []);
  get_timestamp = λ block. some 1000;
}

abbrev empty : IndexerDb
empty = record { pools = []; users = []; swaps = []; liquidity_events = []; cursors = λ c s. none }

-- The three sources share the budget: nine statements are enough for all.
abbrev ticked : IndexerDb
ticked = run_phase3_indexer decoders texts env (λ source. node) (some 9) empty

configured : build_indexer_chain_config texts env ≡ some config
unfolding build_indexer_chain_config parse_batch_size parse_chain_id is_positive_decimal
    decimal_value is_hex_address
configured = refl

ticked_cursor : ticked.cursors 1 IndexerSource.v4_pool_manager ≡ some 11
unfolding run_phase3_indexer is_indexer_enabled build_indexer_chain_config parse_batch_size
    parse_chain_id is_positive_decimal decimal_value is_hex_address index_chain index_sources
    index_batch config_by_chain resolve_start_block last_block index_window read_window fetch_window
    source_addresses parse_all parse_for_source to_raw_log parse_v4_pool_manager_log load_timestamps
    ◌>>=◌ or_err persist_events persist_event persist_v4 execute_all execute get_pool_by_id
    find_where upsert_user record_swap count_where set_indexer_cursor swap_sides
ticked_cursor = refl

abbrev one_tick : Runs decoders texts env empty ticked
one_tick = Runs.tick (λ source. node) (some 9) Runs.here

Runs-Covered_example :
    (start : ℕ) × Covered decoders
      (Asked decoders texts env config IndexerSource.v4_pool_manager empty one_tick)
      config
      IndexerSource.v4_pool_manager
      ticked
      start
      11
    × (start < 11)
Runs-Covered_example =
    Runs-Covered decoders texts env config IndexerSource.v4_pool_manager empty ticked 11 configured
      refl one_tick ticked_cursor

batches-head_example :
    (batches decoders (config ∷ []) 1 IndexerSource.v4_pool_manager node 3 empty).cursors 1
      IndexerSource.v4_pool_manager
    ≡ some 26
unfolding config_by_chain resolve_start_block
batches-head_example =
    batches-head decoders (config ∷ []) 1 IndexerSource.v4_pool_manager config node 25 3 empty
      (record {
        at = refl;
        logs = λ addresses from to. (swap_log ∷ [], refl);
        times = λ block. (1000, refl);
      })
      refl (omega arith) (omega arith)

abbrev initialized : V4InitializeEvent
initialized = record {
  location = record { block_number = 2; log_index = 0; tx_hash = "0xfirst" };
  pool_id = "0xpool";
  currency0 = "0xa";
  currency1 = "0xb";
  fee = 30;
  tick_spacing = pos 60;
  hooks = "0xhook";
  sqrt_price_x96 = 7;
  tick = pos 0;
}

-- The pool as swaps have left it.
abbrev traded : Pool
traded = record (initial_pool 1 initialized) {
  sqrt_price_x96 = 9;
  current_tick = pos 1;
  liquidity = 8;
  tvl_usd = 100;
}

persist_events-resets_example :
    get_pool_by_id "0xpool" 1
      (persist_events 1
        ((ParsedIndexerEvent.v4_item (V4PoolManagerEvent.initialize initialized), 1000) ∷ [])
        none
        (record empty { pools = traded ∷ [] })).2.pools
    ≡ some (initial_pool 1 initialized)
unfolding get_pool_by_id find_where
persist_events-resets_example =
    persist_events-resets 1 initialized 1000 (record empty { pools = traded ∷ [] }) traded refl
