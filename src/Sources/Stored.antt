-- ===== src/Sources/Stored.antt =====
-- What a batch stores: each of its items is in the tables when all its statements were answered, and
-- no statement moves a cursor or takes a row away.
use aether_dex.Prelude.{
  ℕ, zero, suc, ◌≡◌, refl, ◌∙◌, Bool, true, false, Option, none, some, List, [], ◌∷◌, if◌then◌else◌,
  All, either_branch,
}
use aether_dex.Indexer.Coverage.{insert-stores}
use aether_dex.Sources.{V4PoolManagerEvent, V4SwapEvent}
use aether_dex.Sources.Store.{
  Statement, Budget, ParsedIndexerEvent, execute, execute_all, persist_v3, persist_v4,
  persist_event, persist_events, modify_row, update_pool, swap_row, initial_pool, v3_row,
}
use aether_dex.Sources.Tables.{Pool, IndexerDb, get_pool_by_id}
use aether_dex.Sources.Keeps.{
  IsPersisted, Keeps, Keeps-refl, upsert_pool-stores, record_swap-stores, execute-Keeps,
  Keeps-trans,
}

execute_all-Keeps :
    (ss : List Statement) (budget : Budget) (db : IndexerDb) → Keeps db (execute_all ss budget db).2
unfolding execute_all
execute_all-Keeps [] budget db = Keeps-refl db
execute_all-Keeps (s ∷ ss) (some zero) db = Keeps-refl db
execute_all-Keeps (s ∷ ss) (some (suc n)) db =
    Keeps-trans db (execute s db) _ (execute-Keeps s db)
      (execute_all-Keeps ss (some n) (execute s db))
execute_all-Keeps (s ∷ ss) none db =
    Keeps-trans db (execute s db) _ (execute-Keeps s db) (execute_all-Keeps ss none (execute s db))

-- The statement that a list ends with.
abbrev Ends : Statement → List Statement → Type 0
Ends s [] = ⊥
Ends s (x ∷ []) = x ≡ s
Ends s (x ∷ y ∷ ys) = Ends s (y ∷ ys)

execute_all-last :
    (P : IndexerDb → Type 0) (s : Statement)
    → ((db : IndexerDb) → P (execute s db))
    → (ss : List Statement) → Ends s ss
    → (budget : Budget) (db : IndexerDb) → (execute_all ss budget db).0 ≡ true
    → P (execute_all ss budget db).2
unfolding execute_all
execute_all-last P s done [] ends budget db h = absurd ends
execute_all-last P s done (x ∷ []) ends (some zero) db h = cc
execute_all-last P s done (x ∷ []) ends (some (suc n)) db h = rw ends (done db)
execute_all-last P s done (x ∷ []) ends none db h = rw ends (done db)
execute_all-last P s done (x ∷ y ∷ ys) ends (some zero) db h = cc
execute_all-last P s done (x ∷ y ∷ ys) ends (some (suc n)) db h =
    execute_all-last P s done (y ∷ ys) ends (some n) (execute x db) h
execute_all-last P s done (x ∷ y ∷ ys) ends none db h =
    execute_all-last P s done (y ∷ ys) ends none (execute x db) h

-- What is stored of an item stays.
pub IsPersisted-Keeps :
    (chain_id : ℕ) (a b : IndexerDb) (item : ParsedIndexerEvent × ℕ)
    → Keeps a b
    → IsPersisted chain_id a item
    → IsPersisted chain_id b item
IsPersisted-Keeps chain_id a b (ParsedIndexerEvent.v3_item e, time) k h =
    k.events (v3_row chain_id e time) h
IsPersisted-Keeps chain_id a b (ParsedIndexerEvent.v4_item (V4PoolManagerEvent.initialize e), time)
      k h =
    k.pools chain_id e.pool_id h
IsPersisted-Keeps chain_id a b
      (ParsedIndexerEvent.v4_item (V4PoolManagerEvent.modify_liquidity e), time) k h =
    k.events (modify_row chain_id e time) h
IsPersisted-Keeps chain_id a b (ParsedIndexerEvent.v4_item (V4PoolManagerEvent.swap e), time) k h =
    k.swaps chain_id e.location.tx_hash h

-- The statement that stores an item.
abbrev storing : ℕ → ParsedIndexerEvent × ℕ → IndexerDb → Statement
storing chain_id (ParsedIndexerEvent.v3_item e, time) db = persist_v3 chain_id e time
storing chain_id (ParsedIndexerEvent.v4_item (V4PoolManagerEvent.initialize e), time) db =
    Statement.put_pool (initial_pool chain_id e)
storing chain_id (ParsedIndexerEvent.v4_item (V4PoolManagerEvent.modify_liquidity e), time) db =
    Statement.add_event (modify_row chain_id e time)
storing chain_id (ParsedIndexerEvent.v4_item (V4PoolManagerEvent.swap e), time) db =
    Statement.add_swap (swap_row chain_id e time (get_pool_by_id e.pool_id chain_id db.pools))

Ends-swap :
    (event : V4SwapEvent) (pool : Option Pool) (touch add : Statement)
    → Ends add (Statement.read_pool ∷ update_pool event pool (touch ∷ add ∷ []))
Ends-swap event none touch add = refl
Ends-swap event (some pool) touch add = refl

storing-last :
    (chain_id : ℕ) (item : ParsedIndexerEvent × ℕ) (db : IndexerDb)
    → Ends (storing chain_id item db) (persist_event chain_id item db)
unfolding persist_event persist_v4
storing-last chain_id (ParsedIndexerEvent.v3_item e, time) db = refl
storing-last chain_id (ParsedIndexerEvent.v4_item (V4PoolManagerEvent.initialize e), time) db = refl
storing-last chain_id (ParsedIndexerEvent.v4_item (V4PoolManagerEvent.modify_liquidity e), time)
      db =
    refl
storing-last chain_id (ParsedIndexerEvent.v4_item (V4PoolManagerEvent.swap e), time) db =
    Ends-swap e (get_pool_by_id e.pool_id chain_id db.pools) _ _

storing-stores :
    (chain_id : ℕ) (item : ParsedIndexerEvent × ℕ) (db before : IndexerDb)
    → IsPersisted chain_id (execute (storing chain_id item before) db) item
unfolding execute persist_v3
storing-stores chain_id (ParsedIndexerEvent.v3_item e, time) db before =
    insert-stores _ db.liquidity_events
storing-stores chain_id (ParsedIndexerEvent.v4_item (V4PoolManagerEvent.initialize e), time) db
      before =
    upsert_pool-stores (initial_pool chain_id e) db.pools
storing-stores chain_id (ParsedIndexerEvent.v4_item (V4PoolManagerEvent.modify_liquidity e), time)
      db before =
    insert-stores _ db.liquidity_events
storing-stores chain_id (ParsedIndexerEvent.v4_item (V4PoolManagerEvent.swap e), time) db before =
    record_swap-stores (swap_row chain_id e time (get_pool_by_id e.pool_id chain_id before.pools))
      db.swaps

persist_event-stores :
    (chain_id : ℕ) (item : ParsedIndexerEvent × ℕ) (budget : Budget) (db : IndexerDb)
    → (execute_all (persist_event chain_id item db) budget db).0 ≡ true
    → IsPersisted chain_id (execute_all (persist_event chain_id item db) budget db).2 item
persist_event-stores chain_id item budget db h =
    execute_all-last (λ d. IsPersisted chain_id d item) (storing chain_id item db)
      (λ d. storing-stores chain_id item d db) (persist_event chain_id item db)
      (storing-last chain_id item db) budget db h

pub persist_events-Keeps :
    (chain_id : ℕ) (items : List (ParsedIndexerEvent × ℕ)) (budget : Budget) (db : IndexerDb)
    → Keeps db (persist_events chain_id items budget db).2
unfolding persist_events
persist_events-Keeps chain_id [] budget db = Keeps-refl db
persist_events-Keeps chain_id (item ∷ items) budget db =
    let ran = execute_all (persist_event chain_id item db) budget db in
    let first = execute_all-Keeps (persist_event chain_id item db) budget db in
    let rest = persist_events chain_id items ran.1 ran.2 in
    either_branch (λ (r : Bool × Budget × IndexerDb). Keeps db r.2) ran.0 rest ran
      (Keeps-trans db ran.2 rest.2 first (persist_events-Keeps chain_id items ran.1 ran.2)) first

when_answered :
    (P : Bool × Budget × IndexerDb → Type 0) (b : Bool) (x y : Bool × Budget × IndexerDb)
    → y.0 ≡ b
    → (if b then x else y).0 ≡ true
    → (b ≡ true → x.0 ≡ true → P x)
    → P (if b then x else y)
when_answered P true x y same h k = k refl h
when_answered P false x y same h k = cc

-- Where all statements were answered, every item is in the tables.
pub persist_events-stores :
    (chain_id : ℕ) (items : List (ParsedIndexerEvent × ℕ)) (budget : Budget) (db : IndexerDb)
    → (persist_events chain_id items budget db).0 ≡ true
    → All (IsPersisted chain_id (persist_events chain_id items budget db).2) items
unfolding persist_events
persist_events-stores chain_id [] budget db h = tt
persist_events-stores chain_id (item ∷ items) budget db h =
    let ran = execute_all (persist_event chain_id item db) budget db in
    let rest = persist_events chain_id items ran.1 ran.2 in
    when_answered
      (λ (r : Bool × Budget × IndexerDb).
        IsPersisted chain_id r.2 item × All (IsPersisted chain_id r.2) items)
      ran.0 rest ran refl h
      (λ first_done rest_done. (
        IsPersisted-Keeps chain_id ran.2 rest.2 item
            (persist_events-Keeps chain_id items ran.1 ran.2)
            (persist_event-stores chain_id item budget db first_done),
        persist_events-stores chain_id items ran.1 ran.2 rest_done,
      ))

-- No statement of an event moves a cursor.
execute-cursors : (s : Statement) (db : IndexerDb) → (execute s db).cursors ≡ db.cursors
unfolding execute
execute-cursors Statement.read_pool db = refl
execute-cursors (Statement.put_pool pool) db = refl
execute-cursors (Statement.touch_user address) db = refl
execute-cursors (Statement.add_swap swap) db = refl
execute-cursors (Statement.add_event row) db = refl

execute_all-cursors :
    (ss : List Statement) (budget : Budget) (db : IndexerDb)
    → (execute_all ss budget db).2.cursors ≡ db.cursors
unfolding execute_all
execute_all-cursors [] budget db = refl
execute_all-cursors (s ∷ ss) (some zero) db = refl
execute_all-cursors (s ∷ ss) (some (suc n)) db =
    execute_all-cursors ss (some n) (execute s db) ∙ execute-cursors s db
execute_all-cursors (s ∷ ss) none db =
    execute_all-cursors ss none (execute s db) ∙ execute-cursors s db

pub persist_events-cursors :
    (chain_id : ℕ) (items : List (ParsedIndexerEvent × ℕ)) (budget : Budget) (db : IndexerDb)
    → (persist_events chain_id items budget db).2.cursors ≡ db.cursors
unfolding persist_events
persist_events-cursors chain_id [] budget db = refl
persist_events-cursors chain_id (item ∷ items) budget db =
    let ran = execute_all (persist_event chain_id item db) budget db in
    let first = execute_all-cursors (persist_event chain_id item db) budget db in
    let rest = persist_events chain_id items ran.1 ran.2 in
    either_branch (λ (r : Bool × Budget × IndexerDb). r.2.cursors ≡ db.cursors) ran.0 rest ran
      (persist_events-cursors chain_id items ran.1 ran.2 ∙ first) first
