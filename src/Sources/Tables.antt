-- ===== src/Sources/Tables.antt =====
-- The tables that the indexer of three sources writes (apps/api/src/db/queries.ts). Texts of numbers
-- are the numbers that they denote; times that the database fills in are left out.
use aether_dex.Prelude.{
  ℕ, Bool, ◌&&◌, Option, some, List, [], ◌∷◌, ◌++◌, String, ◌==◌, ltb, str_eq, if◌then◌else◌,
}
use aether_dex.Prelude.Int.{ℤ}
use aether_dex.Prelude.Table.{count_where, find_where, update_where}
use aether_dex.Indexer.{LiquidityRow}
use aether_dex.Sources.{IndexerSource, same_source}

pub record Pool : Type 0 where
  pub chain_id : ℕ
  pub pool_id : String
  pub token0_address : String
  pub token1_address : String
  pub fee : ℕ
  pub tick_spacing : ℤ
  pub hook_address : Option String
  pub sqrt_price_x96 : ℕ
  pub current_tick : ℤ
  pub liquidity : ℕ
  pub tvl_usd : ℕ
  pub volume24h_usd : ℕ
  pub fees24h_usd : ℕ
  pub is_active : Bool

pub record RecordSwapInput : Type 0 where
  pub chain_id : ℕ
  pub tx_hash : String
  pub user_address : String
  pub pool_id : Option String
  pub token_in : Option String
  pub token_out : Option String
  pub amount_in : Option ℤ
  pub amount_out : Option ℤ
  pub block_number : ℕ
  pub block_timestamp : ℕ

pub record IndexerDb : Type 0 where
  pub pools : List Pool
  pub users : List String
  pub swaps : List RecordSwapInput
  pub liquidity_events : List LiquidityRow
  -- `next_block` of the row of a chain and a source.
  pub cursors : ℕ → IndexerSource → Option ℕ

-- The keys of the two tables.
abbrev pub is_pool : ℕ → String → Pool → Bool
is_pool chain_id pool_id p = p.chain_id == chain_id && str_eq p.pool_id pool_id

abbrev pub is_swap : ℕ → String → RecordSwapInput → Bool
is_swap chain_id tx_hash s = s.chain_id == chain_id && str_eq s.tx_hash tx_hash

unfoldable pub get_pool_by_id : String → ℕ → List Pool → Option Pool
get_pool_by_id pool_id chain_id pools = find_where (is_pool chain_id pool_id) pools

-- The columns that `ON CONFLICT … DO UPDATE` sets.
abbrev pub excluded : Pool → Pool → Pool
excluded new old = record old {
  sqrt_price_x96 = new.sqrt_price_x96;
  current_tick = new.current_tick;
  liquidity = new.liquidity;
  tvl_usd = new.tvl_usd;
  volume24h_usd = new.volume24h_usd;
  fees24h_usd = new.fees24h_usd;
  is_active = new.is_active;
}

unfoldable pub upsert_pool : Pool → List Pool → List Pool
upsert_pool pool pools =
    if ltb 0 (count_where (is_pool pool.chain_id pool.pool_id) pools)
    then update_where (is_pool pool.chain_id pool.pool_id) (excluded pool) pools
    else pools ++ pool ∷ []

unfoldable pub upsert_user : String → List String → List String
upsert_user address users =
    if ltb 0 (count_where (str_eq address) users) then users else users ++ address ∷ []

unfoldable pub record_swap : RecordSwapInput → List RecordSwapInput → List RecordSwapInput
record_swap swap swaps =
    if ltb 0 (count_where (is_swap swap.chain_id swap.tx_hash) swaps)
    then swaps
    else swaps ++ swap ∷ []

unfoldable pub set_indexer_cursor :
    ℕ → IndexerSource → ℕ → (ℕ → IndexerSource → Option ℕ) → ℕ → IndexerSource → Option ℕ
set_indexer_cursor chain_id source next cursors c s =
    if c == chain_id && same_source s source then some next else cursors c s
