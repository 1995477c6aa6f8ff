-- ===== src/Indexer/Tests.antt =====
-- A run of the indexer over one log, and its properties at concrete inputs.
use aether_dex.Prelude.{ℕ, ◌≡◌, ◌⊎◌, refl, false, none, some, [], ◌∷◌, String}
use aether_dex.Prelude.Result.{ok, ◌>>=◌, or_err, demand}
use aether_dex.Positions.{EventType, V3LiquidityEvent, V3PositionState, initial_state}
use aether_dex.Indexer.{RawLog, insert_all}
use aether_dex.Indexer.Decode.{
  Viem, PositionManagerEvent, parse_v3_liquidity_log, parse_position_manager_log,
  position_manager_event,
}
use aether_dex.Indexer.Run.{
  BlockRange, ChainLog, Rpc, V3LiquidityIndexerConfig, IndexerState, index_range, read_rows,
  verify_rpc_chain, fetch_logs, stamp_events, parse_logs, to_raw_log, run_v3_liquidity_indexer,
}
use aether_dex.Indexer.Coverage.{Advanced, index_range-idempotent, run_v3_liquidity_indexer-covers}

abbrev library : Viem
library = record {
  decode_position_manager = λ log. some (PositionManagerEvent.increase_liquidity 7 100 10 20);
  decode_pool = λ log. none;
  get_address = λ a. some a;
  to_lower = λ s. s;
  decimal = λ n. "7";
}

abbrev config : V3LiquidityIndexerConfig
config = record { chain_id = 1; position_manager = "0xnft"; pools = [] }

abbrev log : ChainLog
log = record {
  address = "0xnft";
  payload = "0x";
  transaction_hash = some "0xaa";
  log_index = some 3;
  block_number = some 120;
}

abbrev node : Rpc
node = record {
  get_chain_id = some 1;
  get_block_number = some 5000;
  get_logs = λ address from to. some (log ∷ []);
  get_timestamp = λ block. some 1700;
}

abbrev blocks : BlockRange
blocks = record { from_block = 100; to_block = 2099 }

abbrev start : IndexerState
start = record { rows = []; cursor = some 100 }

stores_one : (index_range library config node blocks none []).0 ≡ ok 1
unfolding index_range read_rows verify_rpc_chain fetch_logs stamp_events parse_logs to_raw_log
    parse_v3_liquidity_log parse_position_manager_log position_manager_event ◌>>=◌ or_err demand
    insert_all
stores_one = refl

index_range-idempotent_example :
    (index_range library config node blocks
      (some 0)
      (index_range library config node blocks none []).1).1
    ≡ (index_range library config node blocks none []).1
index_range-idempotent_example =
    index_range-idempotent library config node blocks none (some 0) [] 1 stores_one

run_v3_liquidity_indexer-covers_example :
    ((run_v3_liquidity_indexer library config node 0 none false start).1.cursor ≡ some 100)
    ⊎ ((head : ℕ) × Advanced library config node head 0 start
          (run_v3_liquidity_indexer library config node 0 none false start).1)
run_v3_liquidity_indexer-covers_example =
    run_v3_liquidity_indexer-covers library config node 0 none false start

abbrev raw : RawLog
raw = record {
  address = "0xnft";
  payload = "0x";
  transaction_hash = "0xaa";
  log_index = 3;
  block_number = 120;
}

abbrev zero_address : String
zero_address = "0x0000000000000000000000000000000000000000"

abbrev burnt : V3LiquidityEvent
burnt = record {
  event_type = EventType.transfer;
  tx_hash = "0xaa";
  log_index = 3;
  block_number = 120;
  pool_id = none;
  token_id = some "7";
  owner_address = some zero_address;
  tick_lower = none;
  tick_upper = none;
  liquidity_delta = none;
  amount0 = none;
  amount1 = none;
}

abbrev after_burn : V3PositionState
after_burn = record (initial_state "7") { owner_address = some zero_address }
