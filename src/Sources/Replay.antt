-- ===== src/Sources/Replay.antt =====
-- What it does to a pool that is there to read the blocks of its beginning again.
use aether_dex.Prelude.{ℕ, ◌≡◌, refl, arith, true, none, some, List, [], ◌∷◌, ltb, String}
use aether_dex.Prelude.Table.{count_where, find_where, find_where-update_where}
use aether_dex.Sources.{V4PoolManagerEvent, V4InitializeEvent}
use aether_dex.Sources.Store.{
  ParsedIndexerEvent, execute, execute_all, persist_v4, persist_event, persist_events, initial_pool,
}
use aether_dex.Sources.Tables.{Pool, IndexerDb, is_pool, excluded, upsert_pool, get_pool_by_id}

found-counted :
    (chain_id : ℕ) (pool_id : String) (pools : List Pool) (old : Pool)
    → find_where (is_pool chain_id pool_id) pools ≡ some old
    → ltb 0 (count_where (is_pool chain_id pool_id) pools) ≡ true
unfolding find_where count_where
found-counted chain_id pool_id [] old h = cc
found-counted chain_id pool_id (p ∷ ps) old h =
    ground (arith, found-counted chain_id pool_id ps old)

-- An `Initialize` that is read again, as a backfill of old blocks does, sets the pool that is there
-- back: its price and tick to those of its beginning, its liquidity, value, volume and fees to 0, and
-- it marks it active.
pub persist_events-resets :
    (chain_id : ℕ) (event : V4InitializeEvent) (time : ℕ) (db : IndexerDb) (old : Pool)
    → get_pool_by_id event.pool_id chain_id db.pools ≡ some old
    → get_pool_by_id event.pool_id chain_id
        (persist_events chain_id
          ((ParsedIndexerEvent.v4_item (V4PoolManagerEvent.initialize event), time) ∷ [])
          none
          db).2.pools
      ≡ some (record old {
        sqrt_price_x96 = event.sqrt_price_x96;
        current_tick = event.tick;
        liquidity = 0;
        tvl_usd = 0;
        volume24h_usd = 0;
        fees24h_usd = 0;
        is_active = true;
      })
unfolding persist_events execute_all persist_event persist_v4 execute upsert_pool get_pool_by_id
persist_events-resets chain_id event time db old h =
    rw (found-counted chain_id event.pool_id db.pools old h) (
      find_where-update_where (is_pool chain_id event.pool_id) (is_pool chain_id event.pool_id)
        (excluded (initial_pool chain_id event)) db.pools old (λ p e. e) (λ p. refl) h)
