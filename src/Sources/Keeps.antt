-- ===== src/Sources/Keeps.antt =====
-- What a statement leaves as it is, and what an item leaves in the tables.
use aether_dex.Prelude.{
  ℕ, ◌+◌, ◌≡◌, refl, arith, Bool, true, List, [], ◌∷◌, ◌++◌, String, ltb, eq_iff, if◌then◌else◌,
}
use aether_dex.Prelude.Table.{count_where, update_where}
use aether_dex.Indexer.{LiquidityRow, is_stored}
use aether_dex.Indexer.Coverage.{is_stored-insert}
use aether_dex.Sources.{V4PoolManagerEvent}
use aether_dex.Sources.Store.{Statement, ParsedIndexerEvent, execute, modify_row, v3_row}
use aether_dex.Sources.Tables.{
  Pool, RecordSwapInput, IndexerDb, is_pool, is_swap, excluded, upsert_pool, record_swap,
}

abbrev pub has_pool : ℕ → String → IndexerDb → Bool
has_pool chain_id pool_id db = ltb 0 (count_where (is_pool chain_id pool_id) db.pools)

abbrev pub has_swap : ℕ → String → IndexerDb → Bool
has_swap chain_id tx_hash db = ltb 0 (count_where (is_swap chain_id tx_hash) db.swaps)

-- An item of a chain, with the time of its block, is in the tables: an event of liquidity under its
-- transaction and index, a pool under its id, a swap under its transaction.
abbrev pub IsPersisted : ℕ → IndexerDb → ParsedIndexerEvent × ℕ → Type 0
IsPersisted chain_id db (ParsedIndexerEvent.v3_item event, time) =
    is_stored (v3_row chain_id event time) db.liquidity_events ≡ true
IsPersisted chain_id db (ParsedIndexerEvent.v4_item (V4PoolManagerEvent.initialize event), time) =
    has_pool chain_id event.pool_id db ≡ true
IsPersisted chain_id db
      (ParsedIndexerEvent.v4_item (V4PoolManagerEvent.modify_liquidity event), time) =
    is_stored (modify_row chain_id event time) db.liquidity_events ≡ true
IsPersisted chain_id db (ParsedIndexerEvent.v4_item (V4PoolManagerEvent.swap event), time) =
    has_swap chain_id event.location.tx_hash db ≡ true

-- What the tables hold under a key they go on to hold.
pub record Keeps (before after : IndexerDb) : Type 0 where
  pub pools : (c : ℕ) (p : String) → has_pool c p before ≡ true → has_pool c p after ≡ true
  pub swaps : (c : ℕ) (t : String) → has_swap c t before ≡ true → has_swap c t after ≡ true
  pub events :
      (row : LiquidityRow)
      → is_stored row before.liquidity_events ≡ true
      → is_stored row after.liquidity_events ≡ true

pub Keeps-refl : (db : IndexerDb) → Keeps db db
Keeps-refl db = record { pools = λ c p h. h; swaps = λ c t h. h; events = λ row h. h }

pub count_where-append :
    {A : Type 0} (p : A → Bool) (xs : List A) (x : A)
    → count_where p (xs ++ x ∷ []) ≡ count_where p xs + (if p x then 1 else 0)
unfolding count_where
count_where-append p [] x = ground arith
count_where-append p (y ∷ ys) x = ground (arith, count_where-append p ys x)

pub count_where-excluded :
    (c : ℕ) (i : String) (q : Pool → Bool) (new : Pool) (pools : List Pool)
    → count_where (is_pool c i) (update_where q (excluded new) pools)
      ≡ count_where (is_pool c i) pools
unfolding count_where update_where
count_where-excluded c i q new [] = refl
count_where-excluded c i q new (p ∷ ps) = ground (arith, count_where-excluded c i q new ps)

pub upsert_pool-keeps :
    (pool : Pool) (pools : List Pool) (c : ℕ) (i : String)
    → ltb 0 (count_where (is_pool c i) pools) ≡ true
    → ltb 0 (count_where (is_pool c i) (upsert_pool pool pools)) ≡ true
unfolding upsert_pool
upsert_pool-keeps pool pools c i h = ground (
  arith,
  count_where-append (is_pool c i) pools pool,
  count_where-excluded c i (is_pool pool.chain_id pool.pool_id) pool pools,
)

pub upsert_pool-stores :
    (pool : Pool) (pools : List Pool)
    → ltb 0 (count_where (is_pool pool.chain_id pool.pool_id) (upsert_pool pool pools)) ≡ true
unfolding upsert_pool
upsert_pool-stores pool pools = ground (
  arith,
  count_where-append (is_pool pool.chain_id pool.pool_id) pools pool,
  count_where-excluded pool.chain_id pool.pool_id (is_pool pool.chain_id pool.pool_id) pool pools,
  eq_iff pool.pool_id pool.pool_id,
)

pub record_swap-keeps :
    (swap : RecordSwapInput) (swaps : List RecordSwapInput) (c : ℕ) (t : String)
    → ltb 0 (count_where (is_swap c t) swaps) ≡ true
    → ltb 0 (count_where (is_swap c t) (record_swap swap swaps)) ≡ true
unfolding record_swap
record_swap-keeps swap swaps c t h = ground (arith, count_where-append (is_swap c t) swaps swap)

pub record_swap-stores :
    (swap : RecordSwapInput) (swaps : List RecordSwapInput)
    → ltb 0 (count_where (is_swap swap.chain_id swap.tx_hash) (record_swap swap swaps)) ≡ true
unfolding record_swap
record_swap-stores swap swaps = ground (
  arith,
  count_where-append (is_swap swap.chain_id swap.tx_hash) swaps swap,
  eq_iff swap.tx_hash swap.tx_hash,
)

pub execute-Keeps : (s : Statement) (db : IndexerDb) → Keeps db (execute s db)
unfolding execute
execute-Keeps Statement.read_pool db = Keeps-refl db
execute-Keeps (Statement.put_pool pool) db = record {
  pools = upsert_pool-keeps pool db.pools;
  swaps = λ c t h. h;
  events = λ row h. h;
}
execute-Keeps (Statement.touch_user address) db = record {
  pools = λ c p h. h;
  swaps = λ c t h. h;
  events = λ row h. h;
}
execute-Keeps (Statement.add_swap swap) db = record {
  pools = λ c p h. h;
  swaps = record_swap-keeps swap db.swaps;
  events = λ row h. h;
}
execute-Keeps (Statement.add_event row) db = record {
  pools = λ c p h. h;
  swaps = λ c t h. h;
  events = λ r h. is_stored-insert r row db.liquidity_events h;
}

pub Keeps-trans : (a b c : IndexerDb) → Keeps a b → Keeps b c → Keeps a c
Keeps-trans a b c h k = record {
  pools = λ i p e. k.pools i p (h.pools i p e);
  swaps = λ i t e. k.swaps i t (h.swaps i t e);
  events = λ row e. k.events row (h.events row e);
}
