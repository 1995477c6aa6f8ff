-- ===== src/Sources/Refine.antt =====
-- The cron's ticks and the queue's backfills against an abstract indexer: its state is a run of
-- windows, each stored as a whole, that lie end to end up to the cursor.
use aether_dex.Prelude.{
  ℕ, ◌<◌, ◌≡◌, ◌⊎◌, inl, inr, refl, sym, subst, Option, none, some, List, [], ◌∷◌, ◌==◌,
  either_branch,
}
use aether_dex.Prelude.Text.{decimal_value}
use aether_dex.Prelude.Result.{Result, ok, err}
use aether_dex.Sources.{IndexerSource}
use aether_dex.Sources.Config.{
  Texts, IndexerEnvConfig, IndexerChainConfig, is_indexer_enabled, build_indexer_chain_config,
}
use aether_dex.Sources.Store.{Budget}
use aether_dex.Sources.Tables.{IndexerDb}
use aether_dex.Sources.Run.{
  index_batch, after_batch, index_sources, index_chain, index_range, tick_configured,
  run_phase3_indexer,
}
use aether_dex.Sources.Window.{IndexerError, IndexResult, Node, Decoders}
use aether_dex.Sources.Backfill.{
  IndexerBackfillMessage, is_valid_backfill, backfill_configured, backfill_source,
  handle_indexer_backfill,
}
use aether_dex.Sources.Progress.{index_batch-BatchStep, index_range-Keeps}
use aether_dex.Sources.Frontier.{
  Covered, IsFrontier, IsFrontier-weaken, stays-IsFrontier, batch-IsFrontier,
}

module _ (decoders : Decoders) (Answers : Node → Type 0) where
  module _ (config : IndexerChainConfig) (source : IndexerSource) where
    after_batch-IsFrontier :
        (r : Result IndexerError IndexResult) (x y : Budget × IndexerDb)
        → IsFrontier decoders Answers config source x.1
        → IsFrontier decoders Answers config source y.1
        → IsFrontier decoders Answers config source (after_batch decoders r x y).1
    after_batch-IsFrontier (ok _) x y h k = h
    after_batch-IsFrontier (err _) x y h k = k

    sources-IsFrontier :
        (order : List IndexerSource) (nodes : IndexerSource → Node) (budget : Budget)
        (db : IndexerDb)
        → Answers (nodes source)
        → IsFrontier decoders Answers config source db
        → (let ran = index_sources decoders (config ∷ []) config.chain_id order nodes budget db in
            IsFrontier decoders Answers config source ran.1)
    unfolding index_sources
    sources-IsFrontier [] nodes budget db asked f = f
    sources-IsFrontier (moving ∷ rest) nodes budget db asked f =
        let chains : List IndexerChainConfig = config ∷ [] in
        let batch = index_batch decoders chains config.chain_id moving (nodes moving) budget db in
        let others = index_sources decoders chains config.chain_id rest nodes batch.1 batch.2 in
        let first =
          batch-IsFrontier decoders Answers config source moving (nodes moving) db batch.2
            (index_batch-BatchStep decoders chains config.chain_id moving (nodes moving) budget db)
            (λ same. subst (λ (s : IndexerSource). Answers (nodes s)) (sym same) asked) f in
        after_batch-IsFrontier batch.0 others (batch.1, batch.2)
          (sources-IsFrontier rest nodes batch.1 batch.2 asked first) first

    module _ (texts : Texts) (env : IndexerEnvConfig) where
      tick-IsFrontier :
          (nodes : IndexerSource → Node) (budget : Budget) (db : IndexerDb)
          → build_indexer_chain_config texts env ≡ some config
          → Answers (nodes source)
          → IsFrontier decoders Answers config source db
          → IsFrontier decoders Answers config source
              (run_phase3_indexer decoders texts env nodes budget db)
      unfolding run_phase3_indexer index_chain
      tick-IsFrontier nodes budget db same asked f =
          either_branch (IsFrontier decoders Answers config source) (is_indexer_enabled texts env)
            (tick_configured decoders (build_indexer_chain_config texts env) nodes budget db) db
            (subst
              (λ (o : Option IndexerChainConfig).
                IsFrontier decoders Answers config source
                  (tick_configured decoders o nodes budget db))
              (sym same)
              (sources-IsFrontier
                (IndexerSource.v3_position_manager ∷ IndexerSource.v3_pool
                  ∷ IndexerSource.v4_pool_manager ∷ [])
                nodes budget db asked f))
            f

      configured-IsFrontier :
          (msg : IndexerBackfillMessage) (asked : IndexerSource) (found : Option IndexerChainConfig)
          (node : Node) (budget : Budget) (db : IndexerDb)
          → IsFrontier decoders Answers config source db
          → IsFrontier decoders Answers config source
              (backfill_configured decoders msg asked found node budget db)
      configured-IsFrontier msg asked none node budget db f = f
      configured-IsFrontier msg asked (some c) node budget db f =
          let ran =
            index_range decoders (c ∷ []) msg.chain_id asked (decimal_value msg.from_block)
              (decimal_value msg.to_block) node budget db in
          let (same, keeps) =
            index_range-Keeps decoders (c ∷ []) msg.chain_id asked (decimal_value msg.from_block)
              (decimal_value msg.to_block) node budget db in
          either_branch (IsFrontier decoders Answers config source) (msg.chain_id == c.chain_id)
            ran.2 db (stays-IsFrontier decoders Answers config source db ran.2 same keeps f) f

      source-IsFrontier :
          (msg : IndexerBackfillMessage) (asked : Option IndexerSource) (node : Node)
          (budget : Budget) (db : IndexerDb)
          → IsFrontier decoders Answers config source db
          → IsFrontier decoders Answers config source
              (backfill_source decoders texts env msg asked node budget db)
      source-IsFrontier msg none node budget db f = f
      source-IsFrontier msg (some asked) node budget db f =
          either_branch (IsFrontier decoders Answers config source) (is_valid_backfill msg)
            (backfill_configured decoders msg asked (build_indexer_chain_config texts env) node
              budget db)
            db
            (configured-IsFrontier msg asked (build_indexer_chain_config texts env) node budget db
              f)
            f

      backfill-IsFrontier :
          (msg : IndexerBackfillMessage) (node : Node) (budget : Budget) (db : IndexerDb)
          → IsFrontier decoders Answers config source db
          → IsFrontier decoders Answers config source
              (handle_indexer_backfill decoders texts env msg node budget db)
      unfolding handle_indexer_backfill
      backfill-IsFrontier msg node budget db f =
          either_branch (IsFrontier decoders Answers config source) (is_indexer_enabled texts env)
            (backfill_source decoders texts env msg msg.source node budget db) db
            (source-IsFrontier msg msg.source node budget db f) f

-- Ticks of the cron and messages of the queue in any order, each with what the node and D1 answer
-- by then.
pub data Runs (decoders : Decoders) (texts : Texts) (env : IndexerEnvConfig) (first : IndexerDb)
    : IndexerDb → Type 0 where
  here : Runs decoders texts env first first
  tick :
      {db : IndexerDb} (nodes : IndexerSource → Node) (budget : Budget)
      → Runs decoders texts env first db
      → Runs decoders texts env first (run_phase3_indexer decoders texts env nodes budget db)
  backfill :
      {db : IndexerDb} (msg : IndexerBackfillMessage) (node : Node) (budget : Budget)
      → Runs decoders texts env first db
      → Runs decoders texts env first
          (handle_indexer_backfill decoders texts env msg node budget db)

module _ (decoders : Decoders) (texts : Texts) (env : IndexerEnvConfig)
    (config : IndexerChainConfig) (source : IndexerSource) (first : IndexerDb) where
  -- The nodes that the ticks of a run asked for the source.
  abbrev pub Asked : {db : IndexerDb} → Runs decoders texts env first db → Node → Type 0
  Asked here node = ⊥
  Asked (tick nodes budget runs) node = (node ≡ nodes source) ⊎ Asked runs node
  Asked (backfill msg n budget runs) node = Asked runs node

  Runs-IsFrontier :
      (db : IndexerDb)
      → build_indexer_chain_config texts env ≡ some config
      → first.cursors config.chain_id source ≡ none
      → (runs : Runs decoders texts env first db)
      → IsFrontier decoders (Asked runs) config source db
  Runs-IsFrontier db configured fresh here = record { covers = λ n at. cc }
  Runs-IsFrontier db configured fresh (tick {db = before} nodes budget runs) =
      let earlier = Runs-IsFrontier before configured fresh runs in
      tick-IsFrontier decoders (Asked (tick nodes budget runs)) config source texts env nodes budget
        before configured (inl refl)
        (IsFrontier-weaken decoders (Asked runs) (Asked (tick nodes budget runs)) config source
          before (λ node asked. inr asked) earlier)
  Runs-IsFrontier db configured fresh (backfill {db = before} msg node budget runs) =
      backfill-IsFrontier decoders (Asked runs) config source texts env msg node budget before
        (Runs-IsFrontier before configured fresh runs)

-- The ticks and the backfills refine the abstract indexer. From tables without a cursor of a source,
-- through any ticks and backfills, whatever fails in them: where the source has a cursor, windows,
-- at least one, lie end to end from the first block (the configured one, or else 10000 before a head
-- that a node answered to a tick) to right before it, and for each window one of the nodes that the
-- ticks asked for the source yielded events of which each that the indexer decodes is in the tables:
-- a pool, a liquidity event, or for a swap a row of its transaction.
pub Runs-Covered :
    (decoders : Decoders) (texts : Texts) (env : IndexerEnvConfig) (config : IndexerChainConfig)
    (source : IndexerSource) (first db : IndexerDb) (n : ℕ)
    → build_indexer_chain_config texts env ≡ some config
    → first.cursors config.chain_id source ≡ none
    → (runs : Runs decoders texts env first db) → db.cursors config.chain_id source ≡ some n
    → (start : ℕ) × Covered decoders
        (Asked decoders texts env config source first runs)
        config
        source
        db
        start
        n
      × (start < n)
Runs-Covered decoders texts env config source first db n configured fresh runs at =
    (Runs-IsFrontier decoders texts env config source first db configured fresh runs).covers n at
