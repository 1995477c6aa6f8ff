-- ===== src/Sources/Backfill.antt =====
-- `handleIndexerBackfill` of the queue (apps/api/src/workers/queue-handler.ts).
use aether_dex.Prelude.{
  ℕ, Bool, not, ◌&&◌, Option, none, some, [], ◌∷◌, String, ◌==◌, ltb, leb, if◌then◌else◌,
}
use aether_dex.Prelude.Text.{is_decimal, decimal_value}
use aether_dex.Orders.Trigger.{max_safe_integer}
use aether_dex.Sources.{IndexerSource}
use aether_dex.Sources.Config.{
  Texts, IndexerEnvConfig, IndexerChainConfig, is_indexer_enabled, build_indexer_chain_config,
}
use aether_dex.Sources.Store.{Budget}
use aether_dex.Sources.Tables.{IndexerDb}
use aether_dex.Sources.Run.{index_range}
use aether_dex.Sources.Window.{Node, Decoders}

-- The source is `none` where the text names none of the three.
pub record IndexerBackfillMessage : Type 0 where
  pub chain_id : ℕ
  pub source : Option IndexerSource
  pub from_block : String
  pub to_block : String

-- The checks of the message, after the source's.
unfoldable pub is_valid_backfill : IndexerBackfillMessage → Bool
is_valid_backfill msg =
    leb msg.chain_id max_safe_integer
    && ltb 0 msg.chain_id
    && is_decimal msg.from_block
    && is_decimal msg.to_block
    && not (ltb (decimal_value msg.to_block) (decimal_value msg.from_block))

module _ (decoders : Decoders) where
  abbrev pub backfill_configured :
      IndexerBackfillMessage
      → IndexerSource
      → Option IndexerChainConfig
      → Node
      → Budget
      → IndexerDb
      → IndexerDb
  backfill_configured msg source none node budget db = db
  backfill_configured msg source (some config) node budget db =
      let ran =
        index_range decoders (config ∷ []) msg.chain_id source (decimal_value msg.from_block)
          (decimal_value msg.to_block) node budget db in
      if msg.chain_id == config.chain_id then ran.2 else db

  abbrev pub backfill_source :
      Texts
      → IndexerEnvConfig
      → IndexerBackfillMessage
      → Option IndexerSource
      → Node
      → Budget
      → IndexerDb
      → IndexerDb
  backfill_source texts env msg none node budget db = db
  backfill_source texts env msg (some source) node budget db =
      let done =
        backfill_configured msg source (build_indexer_chain_config texts env) node budget db in
      if is_valid_backfill msg then done else db

  -- What the message leaves of the tables. It is never delivered again: errors are logged.
  unfoldable pub handle_indexer_backfill :
      Texts → IndexerEnvConfig → IndexerBackfillMessage → Node → Budget → IndexerDb → IndexerDb
  handle_indexer_backfill texts env msg node budget db =
      let done = backfill_source texts env msg msg.source node budget db in
      if is_indexer_enabled texts env then done else db
