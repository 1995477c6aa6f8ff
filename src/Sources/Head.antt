-- ===== src/Sources/Head.antt =====
-- While the node and D1 answer, the batches of a source reach the head.
use aether_dex.Prelude.{
  ℕ, zero, suc, ◌+◌, ◌*◌, ◌≤◌, ◌<◌, ◌≡◌, refl, ap, ◌∙◌, arith, Bool, true, false, Option, none,
  some, List, [], ◌∷◌, String, ltb, branch_on, length, ◌⊎◌, inl, inr,
}
use aether_dex.Prelude.Result.{ok, ◌>>=◌, or_err}
use aether_dex.Indexer.Run.{ChainLog}
use aether_dex.Sources.{IndexerSource, same_source}
use aether_dex.Sources.Config.{IndexerChainConfig}
use aether_dex.Sources.Store.{
  Budget, Statement, ParsedIndexerEvent, item_block, execute, execute_all, persist_event,
  persist_events,
}
use aether_dex.Sources.Tables.{IndexerDb, set_indexer_cursor}
use aether_dex.Sources.Stored.{persist_events-cursors}
use aether_dex.Sources.Run.{save_cursor, index_from, index_batch}
use aether_dex.Sources.Window.{
  IndexResult, Node, Decoders, Outcome, config_by_chain, resolve_start_block, batch_size,
  last_block, source_addresses, parse_all, load_timestamps, fetch_logs_of, fetch_window,
  read_window, persisted, index_window,
}

-- The node answers every call, and its head is this block.
pub record IsAnswering (node : Node) (head : ℕ) : Type 0 where
  pub at : node.get_block_number ≡ some head
  pub logs :
      (addresses : List String) (from to : ℕ)
      → (found : List ChainLog) × (node.get_logs addresses from to ≡ some found)
  pub times : (block : ℕ) → (time : ℕ) × (node.get_timestamp block ≡ some time)

-- So many batches of one source in turn, while D1 answers.
unfoldable pub batches :
    Decoders → List IndexerChainConfig → ℕ → IndexerSource → Node → ℕ → IndexerDb → IndexerDb
batches decoders chains chain_id source node zero db = db
batches decoders chains chain_id source node (suc k) db =
    batches decoders chains chain_id source node k
      (index_batch decoders chains chain_id source node none db).2

execute_all-answered :
    (ss : List Statement) (db : IndexerDb)
    → ((execute_all ss none db).0 ≡ true) × ((execute_all ss none db).1 ≡ none)
unfolding execute_all
execute_all-answered [] db = (refl, refl)
execute_all-answered (s ∷ ss) db = execute_all-answered ss (execute s db)

persist_events-answered :
    (chain_id : ℕ) (items : List (ParsedIndexerEvent × ℕ)) (budget : Budget) (db : IndexerDb)
    → budget ≡ none
    → ((persist_events chain_id items budget db).0 ≡ true)
      × ((persist_events chain_id items budget db).1 ≡ none)
unfolding persist_events
persist_events-answered chain_id [] budget db unlimited = (refl, unlimited)
persist_events-answered chain_id (item ∷ items) (some n) db unlimited = cc
persist_events-answered chain_id (item ∷ items) none db unlimited =
    let ran = execute_all (persist_event chain_id item db) none db in
    let (answered, left) = execute_all-answered (persist_event chain_id item db) db in
    let rest = persist_events chain_id items ran.1 ran.2 in
    branch_on (λ (r : Bool × Budget × IndexerDb). (r.0 ≡ true) × (r.1 ≡ none)) ran.0 rest ran
      (λ yes_all. persist_events-answered chain_id items ran.1 ran.2 left)
      (λ refused. (answered, left))

module _ (decoders : Decoders) (node : Node) (head : ℕ) (answers : IsAnswering node head) where
  load_timestamps-answered :
      (items : List ParsedIndexerEvent)
      → (timed : List (ParsedIndexerEvent × ℕ)) × (load_timestamps decoders node items ≡ ok timed)
  unfolding load_timestamps ◌>>=◌ or_err
  load_timestamps-answered [] = ([], refl)
  load_timestamps-answered (item ∷ items) =
      let (time, known) = answers.times (item_block item) in
      let (rest, loaded) = load_timestamps-answered items in
      ((item, time) ∷ rest, rw (known, loaded) refl)

  fetch_logs_of-answered :
      (addresses : List String) (from to : ℕ)
      → (logs : List ChainLog) × (fetch_logs_of decoders node addresses from to ≡ ok logs)
  unfolding or_err
  fetch_logs_of-answered [] from to = ([], refl)
  fetch_logs_of-answered (a ∷ rest) from to =
      let (logs, known) = answers.logs (a ∷ rest) from to in (logs, rw known refl)

  read_window-answered :
      (config : IndexerChainConfig) (source : IndexerSource) (from to : ℕ)
      → (items : List (ParsedIndexerEvent × ℕ)) × (read_window decoders config source node from to
          ≡ ok items)
  unfolding read_window fetch_window ◌>>=◌
  read_window-answered config source from to =
      let (logs, fetched) = fetch_logs_of-answered (source_addresses config source) from to in
      let (items, loaded) = load_timestamps-answered (parse_all decoders config source logs) in
      (items, rw fetched loaded)

  -- Where a batch leaves the cursor.
  persisted-cursor :
      (chain_id : ℕ) (source : IndexerSource) (from to n : ℕ)
      (cursors : ℕ → IndexerSource → Option ℕ) (ran : Bool × Budget × IndexerDb)
      → ran.0 ≡ true
      → ran.1 ≡ none
      → ran.2.cursors ≡ cursors
      → (save_cursor decoders chain_id source from to (persisted decoders n ran)).2.cursors
        ≡ set_indexer_cursor chain_id source (to + 1) cursors
  persisted-cursor chain_id source from to n cursors (false, budget, db) done left same = cc
  persisted-cursor chain_id source from to n cursors (true, some b, db) done left same = cc
  persisted-cursor chain_id source from to n cursors (true, none, db) done left same =
      ap (set_indexer_cursor chain_id source (to + 1)) same

  save_cursor-cursor :
      (chain_id : ℕ) (source : IndexerSource) (config : IndexerChainConfig) (from to : ℕ)
      (db : IndexerDb)
      → (save_cursor decoders chain_id source from to
          (index_window decoders chain_id source config node from to none db)).2.cursors
        ≡ set_indexer_cursor chain_id source (to + 1) db.cursors
  unfolding index_window
  save_cursor-cursor chain_id source config from to db =
      let (items, read) = read_window-answered config source from to in
      let (done, left) = persist_events-answered chain_id items none db refl in
      rw read (
        persisted-cursor chain_id source from to (length items) db.cursors
          (persist_events chain_id items none db) done left
          (persist_events-cursors chain_id items none db))

  module _ (chains : List IndexerChainConfig) (chain_id : ℕ) (source : IndexerSource)
      (config : IndexerChainConfig) (found : config_by_chain chains chain_id ≡ some config) where
    abbrev start_of : IndexerDb → ℕ
    start_of db = resolve_start_block (db.cursors chain_id source) config.genesis_block head

    abbrev batch_from : ℕ → IndexerDb → Outcome IndexResult
    batch_from from db = index_from decoders chain_id source config node head from none db

    index_batch-from :
        (db : IndexerDb)
        → index_batch decoders chains chain_id source node none db ≡ batch_from (start_of db) db
    unfolding index_batch
    index_batch-from db = rw (found, answers.at) refl

    same_source_refl : (s : IndexerSource) → same_source s s ≡ true
    same_source_refl IndexerSource.v3_position_manager = refl
    same_source_refl IndexerSource.v3_pool = refl
    same_source_refl IndexerSource.v4_pool_manager = refl

    set-cursor :
        (n : ℕ) (cursors : ℕ → IndexerSource → Option ℕ)
        → set_indexer_cursor chain_id source n cursors chain_id source ≡ some n
    unfolding set_indexer_cursor
    set-cursor n cursors = ground (arith, same_source_refl source)

    moves_on :
        (from : ℕ) (db : IndexerDb)
        → from ≤ head
        → (batch_from from db).2.cursors chain_id source
          ≡ some (last_block head from (batch_size config.batch_size) + 1)
    moves_on from db due =
        let to = last_block head from (batch_size config.batch_size) in
        branch_on (λ (o : Outcome IndexResult). o.2.cursors chain_id source ≡ some (to + 1))
          (ltb head from) _ _ (λ past. ground arith)
          (λ here.
            ap (λ (t : ℕ → IndexerSource → Option ℕ). t chain_id source)
              (save_cursor-cursor chain_id source config from to db)
            ∙ set-cursor (to + 1) db.cursors)

    rests :
        (from : ℕ) (db : IndexerDb)
        → head < from
        → (batch_from from db).2.cursors chain_id source ≡ db.cursors chain_id source
    rests from db past =
        branch_on
          (λ (o : Outcome IndexResult). o.2.cursors chain_id source ≡ db.cursors chain_id source)
          (ltb head from) _ _ (λ h. refl) (λ h. ground arith)

    start_after : (db : IndexerDb) (n : ℕ) → db.cursors chain_id source ≡ some n → start_of db ≡ n
    unfolding resolve_start_block
    start_after db n at = rw at refl

    stays_at_head :
        (k : ℕ) (db : IndexerDb)
        → db.cursors chain_id source ≡ some (head + 1)
        → (batches decoders chains chain_id source node k db).cursors chain_id source
          ≡ some (head + 1)
    unfolding batches
    stays_at_head zero db at = at
    stays_at_head (suc k) db at =
        let next = (index_batch decoders chains chain_id source node none db).2 in
        stays_at_head k next (
          rw (index_batch-from db)
            (rests (start_of db) db (rw (start_after db (head + 1) at) (omega arith)) ∙ at))

    last_block-head :
        (from size : ℕ)
        → (last_block head from size ≡ head)
          ⊎ ((last_block head from size ≡ from + size) × (from + size < head))
    unfolding last_block
    last_block-head from size = ground arith

    more_to_go :
        (last from size k : ℕ)
        → last < from + suc k * (size + 1)
        → last < from + size + 1 + k * (size + 1)
    more_to_go last from size k h = omega arith

    reaches :
        (k : ℕ) (db : IndexerDb)
        → start_of db ≤ head
        → head < start_of db + k * (batch_size config.batch_size + 1)
        → (batches decoders chains chain_id source node k db).cursors chain_id source
          ≡ some (head + 1)
    unfolding batches
    reaches zero db due enough = ground arith
    reaches (suc k) db due enough =
        let next = (index_batch decoders chains chain_id source node none db).2 in
        let size = batch_size config.batch_size in
        let to = last_block head (start_of db) size in
        let at : next.cursors chain_id source ≡ some (to + 1) =
          rw (index_batch-from db) (moves_on (start_of db) db due) in
        let starts = start_after next (to + 1) at in
        elim (last_block-head (start_of db) size) [
          | inl last ↦ stays_at_head k next (at ∙ ap (λ (n : ℕ). some (n + 1)) last)
          | inr (whole, more) ↦
              let behind : start_of next ≡ start_of db + size + 1 =
                starts ∙ ap (λ (n : ℕ). n + 1) whole in
              reaches k next (rw behind (omega arith))
                (rw behind (more_to_go head (start_of db) size k enough))
        ]

-- While the node and D1 answer and the head stands, enough batches of a source that starts at the
-- head or before it bring its cursor right behind the head: as many as cover the blocks that are
-- left, each one block more than the batch size.
pub batches-head :
    (decoders : Decoders) (chains : List IndexerChainConfig) (chain_id : ℕ) (source : IndexerSource)
    (config : IndexerChainConfig) (node : Node) (head k : ℕ) (db : IndexerDb)
    → IsAnswering node head
    → config_by_chain chains chain_id ≡ some config
    → resolve_start_block (db.cursors chain_id source) config.genesis_block head ≤ head
    → head
      < resolve_start_block (db.cursors chain_id source) config.genesis_block head
        + k * (batch_size config.batch_size + 1)
    → (batches decoders chains chain_id source node k db).cursors chain_id source ≡ some (head + 1)
batches-head decoders chains chain_id source config node head k db answers found due enough =
    reaches decoders node head answers chains chain_id source config found k db due enough
