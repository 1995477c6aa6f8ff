-- ===== src/Sources/Store.antt =====
-- The tables that the indexer of three sources writes, and the statements that an event comes to
-- (apps/api/src/services/indexer.service.ts, apps/api/src/db/queries.ts). Texts of numbers are the
-- numbers that they denote; the columns of times that the database fills in are left out.
use aether_dex.Prelude.{
  ℕ, zero, suc, Bool, true, false, Option, none, some, List, [], ◌∷◌, String, if◌then◌else◌,
}
use aether_dex.Prelude.Int.{ℤ, pos, ◌-ℤ◌, ltb_ℤ, leb_ℤ}
use aether_dex.Positions.{EventType, V3LiquidityEvent}
use aether_dex.Indexer.{Protocol, LiquidityRow, insert_liquidity_event}
use aether_dex.Sources.{V4PoolManagerEvent, V4InitializeEvent, V4ModifyLiquidityEvent, V4SwapEvent}
use aether_dex.Sources.Tables.{
  Pool, RecordSwapInput, IndexerDb, get_pool_by_id, upsert_pool, upsert_user, record_swap,
}

-- An SQL statement.
pub data Statement : Type 0 where
  read_pool : Statement
  put_pool : Pool → Statement
  touch_user : String → Statement
  add_swap : RecordSwapInput → Statement
  add_event : LiquidityRow → Statement

unfoldable pub execute : Statement → IndexerDb → IndexerDb
execute read_pool db = db
execute (put_pool pool) db = record db { pools = upsert_pool pool db.pools }
execute (touch_user address) db = record db { users = upsert_user address db.users }
execute (add_swap swap) db = record db { swaps = record_swap swap db.swaps }
execute (add_event row) db = record db {
  liquidity_events = insert_liquidity_event row db.liquidity_events;
}

-- D1 answers so many statements more, or all (`none`).
abbrev pub Budget : Type 0
Budget = Option ℕ

-- The statements in turn; the flag tells whether all were answered.
unfoldable pub execute_all : List Statement → Budget → IndexerDb → Bool × Budget × IndexerDb
execute_all [] budget db = (true, budget, db)
execute_all (s ∷ rest) (some zero) db = (false, some zero, db)
execute_all (s ∷ rest) (some (suc n)) db = execute_all rest (some n) (execute s db)
execute_all (s ∷ rest) none db = execute_all rest none (execute s db)

pub data ParsedIndexerEvent : Type 0 where
  v3_item : V3LiquidityEvent → ParsedIndexerEvent
  v4_item : V4PoolManagerEvent → ParsedIndexerEvent

abbrev pub item_block : ParsedIndexerEvent → ℕ
item_block (v3_item e) = e.block_number
item_block (v4_item (V4PoolManagerEvent.initialize e)) = e.location.block_number
item_block (v4_item (V4PoolManagerEvent.modify_liquidity e)) = e.location.block_number
item_block (v4_item (V4PoolManagerEvent.swap e)) = e.location.block_number

abbrev pub v3_row : ℕ → V3LiquidityEvent → ℕ → LiquidityRow
v3_row chain_id event time = record {
  chain_id = chain_id;
  protocol = Protocol.v3;
  event = event;
  block_timestamp = time;
}

unfoldable pub persist_v3 : ℕ → V3LiquidityEvent → ℕ → Statement
persist_v3 chain_id event time = add_event (v3_row chain_id event time)

pub record SwapSides : Type 0 where
  pub token_in : Option String
  pub token_out : Option String
  pub amount_in : Option ℤ
  pub amount_out : Option ℤ

-- `pool?.token0Address ?? null`
abbrev token0_of : Option Pool → Option String
token0_of none = none
token0_of (some pool) = some pool.token0_address

abbrev token1_of : Option Pool → Option String
token1_of none = none
token1_of (some pool) = some pool.token1_address

unfoldable pub swap_sides : V4SwapEvent → Option Pool → SwapSides
swap_sides event pool =
    if ltb_ℤ (pos 0) event.amount0
    then record {
      token_in = token0_of pool;
      token_out = token1_of pool;
      amount_in = some event.amount0;
      amount_out = some (pos 0 -ℤ event.amount1);
    }
    else if ltb_ℤ event.amount0 (pos 0)
    then record {
      token_in = token1_of pool;
      token_out = token0_of pool;
      amount_in = some event.amount1;
      amount_out = some (pos 0 -ℤ event.amount0);
    }
    else record { token_in = none; token_out = none; amount_in = none; amount_out = none }

abbrev pub initial_pool : ℕ → V4InitializeEvent → Pool
initial_pool chain_id event = record {
  chain_id = chain_id;
  pool_id = event.pool_id;
  token0_address = event.currency0;
  token1_address = event.currency1;
  fee = event.fee;
  tick_spacing = event.tick_spacing;
  hook_address = some event.hooks;
  sqrt_price_x96 = event.sqrt_price_x96;
  current_tick = event.tick;
  liquidity = 0;
  tvl_usd = 0;
  volume24h_usd = 0;
  fees24h_usd = 0;
  is_active = true;
}

abbrev pub swapped_pool : V4SwapEvent → Pool → Pool
swapped_pool event pool = record pool {
  sqrt_price_x96 = event.sqrt_price_x96;
  current_tick = event.tick;
  liquidity = event.liquidity;
}

abbrev pub swap_row : ℕ → V4SwapEvent → ℕ → Option Pool → RecordSwapInput
swap_row chain_id event time pool =
    let sides = swap_sides event pool in
    record {
      chain_id = chain_id;
      tx_hash = event.location.tx_hash;
      user_address = event.sender;
      pool_id = elim pool [ none ↦ none | some _ ↦ some event.pool_id ];
      token_in = sides.token_in;
      token_out = sides.token_out;
      amount_in = sides.amount_in;
      amount_out = sides.amount_out;
      block_number = event.location.block_number;
      block_timestamp = time;
    }

abbrev pub modify_row : ℕ → V4ModifyLiquidityEvent → ℕ → LiquidityRow
modify_row chain_id event time = record {
  chain_id = chain_id;
  protocol = Protocol.v4;
  event = record {
    event_type =
        if leb_ℤ (pos 0) event.liquidity_delta then EventType.increase else EventType.decrease;
    tx_hash = event.location.tx_hash;
    log_index = event.location.log_index;
    block_number = event.location.block_number;
    pool_id = some event.pool_id;
    token_id = none;
    owner_address = some event.sender;
    tick_lower = some event.tick_lower;
    tick_upper = some event.tick_upper;
    liquidity_delta = some event.liquidity_delta;
    amount0 = none;
    amount1 = none;
  };
  block_timestamp = time;
}

-- `if (pool) { yield* upsertPool(…) }`
abbrev pub update_pool : V4SwapEvent → Option Pool → List Statement → List Statement
update_pool event none rest = rest
update_pool event (some pool) rest = put_pool (swapped_pool event pool) ∷ rest

-- The statements of an event. The pool of a swap is read first of all.
unfoldable pub persist_v4 : ℕ → V4PoolManagerEvent → ℕ → IndexerDb → List Statement
persist_v4 chain_id (V4PoolManagerEvent.initialize event) time db =
    put_pool (initial_pool chain_id event) ∷ []
persist_v4 chain_id (V4PoolManagerEvent.modify_liquidity event) time db =
    add_event (modify_row chain_id event time) ∷ []
persist_v4 chain_id (V4PoolManagerEvent.swap event) time db =
    let pool = get_pool_by_id event.pool_id chain_id db.pools in
    read_pool
    ∷ update_pool event pool
        (touch_user event.sender ∷ add_swap (swap_row chain_id event time pool) ∷ [])

unfoldable pub persist_event : ℕ → ParsedIndexerEvent × ℕ → IndexerDb → List Statement
persist_event chain_id (v3_item event, time) db = persist_v3 chain_id event time ∷ []
persist_event chain_id (v4_item event, time) db = persist_v4 chain_id event time db

-- The events of a batch, each with the time of its block, in turn.
unfoldable pub persist_events :
    ℕ → List (ParsedIndexerEvent × ℕ) → Budget → IndexerDb → Bool × Budget × IndexerDb
persist_events chain_id [] budget db = (true, budget, db)
persist_events chain_id (item ∷ items) budget db =
    let ran = execute_all (persist_event chain_id item db) budget db in
    let rest = persist_events chain_id items ran.1 ran.2 in if ran.0 then rest else ran
