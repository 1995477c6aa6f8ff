-- ===== src/Sources/Run.antt =====
-- The indexer of three sources (apps/api/src/services/indexer.service.ts) and the cron's tick
-- `runPhase3Indexer` (apps/api/src/workers/cron-handler.ts).
use aether_dex.Prelude.{
  ℕ, zero, suc, ◌+◌, false, Option, none, some, List, [], ◌∷◌, ltb, if◌then◌else◌,
}
use aether_dex.Prelude.Result.{Result, ok, err}
use aether_dex.Sources.{IndexerSource}
use aether_dex.Sources.Config.{
  Texts, IndexerEnvConfig, IndexerChainConfig, is_indexer_enabled, build_indexer_chain_config,
}
use aether_dex.Sources.Store.{Budget}
use aether_dex.Sources.Tables.{IndexerDb}
use aether_dex.Sources.Window.{
  IndexerError, IndexResult, Node, Decoders, config_by_chain, resolve_start_block, batch_size,
  last_block, advanced_to, with_cursor, Outcome, index_window,
}

module _ (decoders : Decoders) where
  -- `saveCursor`, where the window was stored.
  abbrev pub save_cursor : ℕ → IndexerSource → ℕ → ℕ → Outcome ℕ → Outcome IndexResult
  save_cursor chain_id source from to (err e, budget, db) = (err e, budget, db)
  save_cursor chain_id source from to (ok n, some zero, db) =
      (err IndexerError.cursor_failed, some zero, db)
  save_cursor chain_id source from to (ok n, some (suc m), db) =
      (ok (advanced_to source from to n), some m, with_cursor chain_id source (to + 1) db)
  save_cursor chain_id source from to (ok n, none, db) =
      (ok (advanced_to source from to n), none, with_cursor chain_id source (to + 1) db)

  -- From the block `from` to the head, at most `size` blocks further.
  abbrev pub index_from :
      ℕ
      → IndexerSource
      → IndexerChainConfig
      → Node
      → ℕ
      → ℕ
      → Budget
      → IndexerDb
      → Outcome IndexResult
  index_from chain_id source config node head from budget db =
      let to = last_block head from (batch_size config.batch_size) in
      let window = index_window decoders chain_id source config node from to budget db in
      if ltb head from
      then (
        ok (record {
          source = source;
          from_block = from;
          to_block = head;
          events_processed = 0;
          cursor_advanced = false;
        }),
        budget,
        db,
      )
      else save_cursor chain_id source from to window

  -- `getCursor` fails, or yields what the table holds.
  abbrev pub index_head :
      ℕ
      → IndexerSource
      → IndexerChainConfig
      → Node
      → Option ℕ
      → Budget
      → IndexerDb
      → Outcome IndexResult
  index_head chain_id source config node none budget db = (err IndexerError.rpc_head, budget, db)
  index_head chain_id source config node (some head) (some zero) db =
      (err IndexerError.cursor_failed, some zero, db)
  index_head chain_id source config node (some head) (some (suc m)) db =
      index_from chain_id source config node head
        (resolve_start_block (db.cursors chain_id source) config.genesis_block head) (some m) db
  index_head chain_id source config node (some head) none db =
      index_from chain_id source config node head
        (resolve_start_block (db.cursors chain_id source) config.genesis_block head) none db

  abbrev pub index_configured :
      ℕ
      → IndexerSource
      → Option IndexerChainConfig
      → Node
      → Budget
      → IndexerDb
      → Outcome IndexResult
  index_configured chain_id source none node budget db = (err IndexerError.no_config, budget, db)
  index_configured chain_id source (some config) node budget db =
      index_head chain_id source config node node.get_block_number budget db

  unfoldable pub index_batch :
      List IndexerChainConfig → ℕ → IndexerSource → Node → Budget → IndexerDb → Outcome IndexResult
  index_batch chains chain_id source node budget db =
      index_configured chain_id source (config_by_chain chains chain_id) node budget db

  abbrev pub range_result : IndexerSource → ℕ → ℕ → Outcome ℕ → Outcome IndexResult
  range_result source from to (err e, budget, db) = (err e, budget, db)
  range_result source from to (ok n, budget, db) = (
    ok (record {
      source = source;
      from_block = from;
      to_block = to;
      events_processed = n;
      cursor_advanced = false;
    }),
    budget,
    db,
  )

  abbrev pub range_configured :
      ℕ
      → IndexerSource
      → ℕ
      → ℕ
      → Option IndexerChainConfig
      → Node
      → Budget
      → IndexerDb
      → Outcome IndexResult
  range_configured chain_id source from to none node budget db =
      (err IndexerError.no_config, budget, db)
  range_configured chain_id source from to (some config) node budget db =
      range_result source from to
        (index_window decoders chain_id source config node from to budget db)

  -- A range for a backfill.
  unfoldable pub index_range :
      List IndexerChainConfig
      → ℕ
      → IndexerSource
      → ℕ
      → ℕ
      → Node
      → Budget
      → IndexerDb
      → Outcome IndexResult
  index_range chains chain_id source from to node budget db =
      let done =
        range_configured chain_id source from to (config_by_chain chains chain_id) node budget db in
      if ltb to from then (err IndexerError.invalid_range, budget, db) else done

  abbrev pub after_batch :
      Result IndexerError IndexResult → Budget × IndexerDb → Budget × IndexerDb → Budget × IndexerDb
  after_batch (ok _) others stopped = others
  after_batch (err _) others stopped = stopped

  -- The sources in turn; the first error ends the chain.
  unfoldable pub index_sources :
      List IndexerChainConfig
      → ℕ
      → List IndexerSource
      → (IndexerSource → Node)
      → Budget
      → IndexerDb
      → Budget × IndexerDb
  index_sources chains chain_id [] nodes budget db = (budget, db)
  index_sources chains chain_id (source ∷ rest) nodes budget db =
      let batch = index_batch chains chain_id source (nodes source) budget db in
      let others = index_sources chains chain_id rest nodes batch.1 batch.2 in
      after_batch batch.0 others (batch.1, batch.2)

  -- What the chain leaves of the tables; the results are only logged.
  unfoldable pub index_chain :
      List IndexerChainConfig → ℕ → (IndexerSource → Node) → Budget → IndexerDb → Budget × IndexerDb
  index_chain chains chain_id nodes budget db =
      index_sources chains chain_id
        (IndexerSource.v3_position_manager ∷ IndexerSource.v3_pool ∷ IndexerSource.v4_pool_manager
          ∷ [])
        nodes budget db

  abbrev pub tick_configured :
      Option IndexerChainConfig → (IndexerSource → Node) → Budget → IndexerDb → IndexerDb
  tick_configured none nodes budget db = db
  tick_configured (some config) nodes budget db =
      (index_chain (config ∷ []) config.chain_id nodes budget db).1

  -- The cron's tick. It logs an error and goes on.
  unfoldable pub run_phase3_indexer :
      Texts → IndexerEnvConfig → (IndexerSource → Node) → Budget → IndexerDb → IndexerDb
  run_phase3_indexer texts env nodes budget db =
      let ticked = tick_configured (build_indexer_chain_config texts env) nodes budget db in
      if is_indexer_enabled texts env then ticked else db
