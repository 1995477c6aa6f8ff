-- ===== src/Sources/Progress.antt =====
-- The cursors and what is stored behind them.
use aether_dex.Prelude.{
  ℕ, zero, suc, ◌+◌, ◌≤◌, ◌≡◌, refl, ap, arith, false, Option, none, some, List, [], ◌∷◌, ltb, All,
  either_branch, branch_on,
}
use aether_dex.Prelude.Result.{ok, err}
use aether_dex.Sources.{IndexerSource}
use aether_dex.Sources.Config.{IndexerChainConfig}
use aether_dex.Sources.Store.{Budget, ParsedIndexerEvent}
use aether_dex.Sources.Tables.{IndexerDb, set_indexer_cursor}
use aether_dex.Sources.Stored.{IsPersisted-Keeps}
use aether_dex.Sources.Keeps.{IsPersisted, Keeps, Keeps-refl, Keeps-trans}
use aether_dex.Sources.Run.{
  save_cursor, index_from, index_head, index_configured, index_batch, range_result,
  range_configured, index_range,
}
use aether_dex.Sources.Window.{
  IndexerError, IndexResult, Node, Decoders, Outcome, config_by_chain, resolve_start_block,
  batch_size, last_block, read_window, index_window, with_cursor,
}
use aether_dex.Sources.Stretch.{Stored, WindowDone, index_window-WindowDone}

module _ (decoders : Decoders) where
  -- What one batch does: the cursors stay, or the one of its chain and source moves right behind a
  -- window that begins where it stood, ends at the head at the latest and is stored.
  pub data BatchStep (chains : List IndexerChainConfig) (chain_id : ℕ) (source : IndexerSource)
      (node : Node) (before after : IndexerDb) : Type 0 where
    stays :
        after.cursors ≡ before.cursors
        → Keeps before after
        → BatchStep chains chain_id source node before after
    advances :
        (config : IndexerChainConfig) (head from to : ℕ)
        → config_by_chain chains chain_id ≡ some config
        → node.get_block_number ≡ some head
        → from ≡ resolve_start_block (before.cursors chain_id source) config.genesis_block head
        → from ≤ to
        → to ≤ head
        → Stored decoders chain_id source config node from to after
        → after.cursors ≡ set_indexer_cursor chain_id source (to + 1) before.cursors
        → Keeps before after
        → BatchStep chains chain_id source node before after

  IsPersisted-with_cursor :
      (chain_id c : ℕ) (s : IndexerSource) (n : ℕ) (db : IndexerDb)
      → Keeps db (with_cursor c s n db)
  IsPersisted-with_cursor chain_id c s n db = record {
    pools = λ i p h. h;
    swaps = λ i t h. h;
    events = λ r h. h;
  }

  All-Keeps :
      (chain_id : ℕ) (a b : IndexerDb) (items : List (ParsedIndexerEvent × ℕ))
      → Keeps a b
      → All (IsPersisted chain_id a) items
      → All (IsPersisted chain_id b) items
  All-Keeps chain_id a b [] k h = tt
  All-Keeps chain_id a b (item ∷ items) k (h, hs) =
      (IsPersisted-Keeps chain_id a b item k h, All-Keeps chain_id a b items k hs)

  pub Stored-Keeps :
      (chain_id : ℕ) (source : IndexerSource) (config : IndexerChainConfig) (node : Node)
      (from to : ℕ) (a b : IndexerDb)
      → Keeps a b
      → Stored decoders chain_id source config node from to a
      → Stored decoders chain_id source config node from to b
  Stored-Keeps chain_id source config node from to a b k s = record {
    items = s.items;
    read = s.read;
    all = All-Keeps chain_id a b s.items k s.all;
  }

  -- The end of a batch whose window is stored.
  moved :
      (chains : List IndexerChainConfig) (chain_id : ℕ) (source : IndexerSource) (node : Node)
      (config : IndexerChainConfig) (head from to : ℕ) (before db : IndexerDb)
      → config_by_chain chains chain_id ≡ some config
      → node.get_block_number ≡ some head
      → from ≡ resolve_start_block (before.cursors chain_id source) config.genesis_block head
      → from ≤ to
      → to ≤ head
      → Stored decoders chain_id source config node from to db
      → db.cursors ≡ before.cursors
      → Keeps before db
      → BatchStep chains chain_id source node before (with_cursor chain_id source (to + 1) db)
  moved chains chain_id source node config head from to before db found at starts up down st c k =
      let k' = IsPersisted-with_cursor chain_id chain_id source (to + 1) db in
      advances config head from to found at starts up down
        (Stored-Keeps chain_id source config node from to db
          (with_cursor chain_id source (to + 1) db) k' st)
        (ap (set_indexer_cursor chain_id source (to + 1)) c) (Keeps-trans before db _ k k')

  save_cursor-BatchStep :
      (chains : List IndexerChainConfig) (chain_id : ℕ) (source : IndexerSource) (node : Node)
      (config : IndexerChainConfig) (head from to : ℕ) (before : IndexerDb) (o : Outcome ℕ)
      → config_by_chain chains chain_id ≡ some config
      → node.get_block_number ≡ some head
      → from ≡ resolve_start_block (before.cursors chain_id source) config.genesis_block head
      → from ≤ to
      → to ≤ head
      → WindowDone decoders chain_id source config node from to before o
      → BatchStep chains chain_id source node before
          (save_cursor decoders chain_id source from to o).2
  save_cursor-BatchStep chains chain_id source node config head from to before (err e, b, db) found
        at starts up down w =
      stays w.cursors w.keeps
  save_cursor-BatchStep chains chain_id source node config head from to before (ok n, some zero, db)
        found at starts up down w =
      stays w.cursors w.keeps
  save_cursor-BatchStep chains chain_id source node config head from to before
        (ok n, some (suc m), db) found at starts up down w =
      moved chains chain_id source node config head from to before db found at starts up down
        (w.stored n refl) w.cursors w.keeps
  save_cursor-BatchStep chains chain_id source node config head from to before (ok n, none, db)
        found at starts up down w =
      moved chains chain_id source node config head from to before db found at starts up down
        (w.stored n refl) w.cursors w.keeps

  last_block-bounds :
      (head from size : ℕ)
      → from ≤ head
      → (from ≤ last_block head from size) × (last_block head from size ≤ head)
  unfolding last_block
  last_block-bounds head from size h = (ground arith, ground arith)

  reached : (head from : ℕ) → ltb head from ≡ false → from ≤ head
  reached head from h = ground arith

  index_from-BatchStep :
      (chains : List IndexerChainConfig) (chain_id : ℕ) (source : IndexerSource) (node : Node)
      (config : IndexerChainConfig) (head : ℕ) (budget : Budget) (db : IndexerDb)
      → config_by_chain chains chain_id ≡ some config
      → node.get_block_number ≡ some head
      → (let from = resolve_start_block (db.cursors chain_id source) config.genesis_block head in
          BatchStep chains chain_id source node db
            (index_from decoders chain_id source config node head from budget db).2)
  unfolding index_window
  index_from-BatchStep chains chain_id source node config head budget db found at =
      let from = resolve_start_block (db.cursors chain_id source) config.genesis_block head in
      let to = last_block head from (batch_size config.batch_size) in
      let window = index_window decoders chain_id source config node from to budget db in
      branch_on (λ (o : Outcome IndexResult). BatchStep chains chain_id source node db o.2)
        (ltb head from)
        (
          ok (record {
            source = source;
            from_block = from;
            to_block = head;
            events_processed = 0;
            cursor_advanced = false;
          }),
          budget,
          db,
        )
        (save_cursor decoders chain_id source from to window) (λ past. stays refl (Keeps-refl db))
        (λ due.
          let (up, down) =
            last_block-bounds head from (batch_size config.batch_size) (reached head from due) in
          save_cursor-BatchStep chains chain_id source node config head from to db window found at
            refl up down
            (index_window-WindowDone decoders chain_id source config node from to budget db
              (read_window decoders config source node from to) refl))

  index_head-BatchStep :
      (chains : List IndexerChainConfig) (chain_id : ℕ) (source : IndexerSource) (node : Node)
      (config : IndexerChainConfig) (head : Option ℕ) (budget : Budget) (db : IndexerDb)
      → config_by_chain chains chain_id ≡ some config
      → node.get_block_number ≡ head
      → BatchStep chains chain_id source node db
          (index_head decoders chain_id source config node head budget db).2
  index_head-BatchStep chains chain_id source node config none budget db found at =
      stays refl (Keeps-refl db)
  index_head-BatchStep chains chain_id source node config (some head) (some zero) db found at =
      stays refl (Keeps-refl db)
  index_head-BatchStep chains chain_id source node config (some head) (some (suc m)) db found at =
      index_from-BatchStep chains chain_id source node config head (some m) db found at
  index_head-BatchStep chains chain_id source node config (some head) none db found at =
      index_from-BatchStep chains chain_id source node config head none db found at

  index_configured-BatchStep :
      (chains : List IndexerChainConfig) (chain_id : ℕ) (source : IndexerSource) (node : Node)
      (config : Option IndexerChainConfig) (budget : Budget) (db : IndexerDb)
      → config_by_chain chains chain_id ≡ config
      → BatchStep chains chain_id source node db
          (index_configured decoders chain_id source config node budget db).2
  index_configured-BatchStep chains chain_id source node none budget db found =
      stays refl (Keeps-refl db)
  index_configured-BatchStep chains chain_id source node (some config) budget db found =
      index_head-BatchStep chains chain_id source node config node.get_block_number budget db found
        refl

  -- Whatever fails on the way, a batch leaves every cursor where it was, or it moves that of its chain
  -- and source right behind a window that begins where the cursor stood, ends at the head at the
  -- latest, and each of whose decoded events is in the tables; and no row that the tables hold goes.
  pub index_batch-BatchStep :
      (chains : List IndexerChainConfig) (chain_id : ℕ) (source : IndexerSource) (node : Node)
      (budget : Budget) (db : IndexerDb)
      → BatchStep chains chain_id source node db
          (index_batch decoders chains chain_id source node budget db).2
  unfolding index_batch
  index_batch-BatchStep chains chain_id source node budget db =
      index_configured-BatchStep chains chain_id source node (config_by_chain chains chain_id)
        budget db refl

  range_result-Keeps :
      (source : IndexerSource) (from to : ℕ) (o : Outcome ℕ) (db : IndexerDb)
      → (o.2.cursors ≡ db.cursors) × Keeps db o.2
      → (let after = (range_result decoders source from to o).2 in
          (after.cursors ≡ db.cursors) × Keeps db after)
  range_result-Keeps source from to (err e, budget, after) db h = h
  range_result-Keeps source from to (ok n, budget, after) db h = h

  range_configured-Keeps :
      (chain_id : ℕ) (source : IndexerSource) (from to : ℕ) (config : Option IndexerChainConfig)
      (node : Node) (budget : Budget) (db : IndexerDb)
      → (let after = (range_configured decoders chain_id source from to config node budget db).2 in
          (after.cursors ≡ db.cursors) × Keeps db after)
  unfolding index_window
  range_configured-Keeps chain_id source from to none node budget db = (refl, Keeps-refl db)
  range_configured-Keeps chain_id source from to (some config) node budget db =
      let window = index_window decoders chain_id source config node from to budget db in
      let w =
        index_window-WindowDone decoders chain_id source config node from to budget db
          (read_window decoders config source node from to) refl in
      range_result-Keeps source from to window db (w.cursors, w.keeps)

  -- A range for a backfill moves no cursor, and where it succeeds it is stored.
  pub index_range-Keeps :
      (chains : List IndexerChainConfig) (chain_id : ℕ) (source : IndexerSource) (from to : ℕ)
      (node : Node) (budget : Budget) (db : IndexerDb)
      → (let after = (index_range decoders chains chain_id source from to node budget db).2 in
          (after.cursors ≡ db.cursors) × Keeps db after)
  unfolding index_range
  index_range-Keeps chains chain_id source from to node budget db =
      let done =
        range_configured decoders chain_id source from to (config_by_chain chains chain_id) node
          budget db in
      either_branch (λ (o : Outcome IndexResult). (o.2.cursors ≡ db.cursors) × Keeps db o.2)
        (ltb to from) (err IndexerError.invalid_range, budget, db) done (refl, Keeps-refl db)
        (range_configured-Keeps chain_id source from to (config_by_chain chains chain_id) node
          budget db)
