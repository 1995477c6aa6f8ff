-- ===== src/Sources/Frontier.antt =====
-- Windows that lie end to end up to a cursor, and that batches keep them so.
use aether_dex.Prelude.{
  ℕ, ◌+◌, ◌-◌, ◌≤◌, ◌<◌, ◌≡◌, refl, ltb, branch_on, sym, ap, ◌∙◌, subst, arith, true, false, Option,
  none, some, [], ◌∷◌, Bool-cases, inl, inr,
}
use aether_dex.Sources.{IndexerSource, same_source}
use aether_dex.Sources.Config.{IndexerChainConfig}
use aether_dex.Sources.Tables.{IndexerDb, set_indexer_cursor}
use aether_dex.Sources.Keeps.{Keeps}
use aether_dex.Sources.Window.{Node, Decoders, config_by_chain, resolve_start_block}
use aether_dex.Sources.Progress.{Stored-Keeps, BatchStep, stays, advances}
use aether_dex.Sources.Stretch.{Stored}

pub same_source-equal : (a b : IndexerSource) → same_source a b ≡ true → a ≡ b
same_source-equal IndexerSource.v3_position_manager IndexerSource.v3_position_manager h = refl
same_source-equal IndexerSource.v3_position_manager IndexerSource.v3_pool h = cc
same_source-equal IndexerSource.v3_position_manager IndexerSource.v4_pool_manager h = cc
same_source-equal IndexerSource.v3_pool IndexerSource.v3_position_manager h = cc
same_source-equal IndexerSource.v3_pool IndexerSource.v3_pool h = refl
same_source-equal IndexerSource.v3_pool IndexerSource.v4_pool_manager h = cc
same_source-equal IndexerSource.v4_pool_manager IndexerSource.v3_position_manager h = cc
same_source-equal IndexerSource.v4_pool_manager IndexerSource.v3_pool h = cc
same_source-equal IndexerSource.v4_pool_manager IndexerSource.v4_pool_manager h = refl

-- The block that an indexer without a cursor begins at: the configured one, or else 10000 before the
-- head.
pub data IsOrigin (head : ℕ) : Option ℕ → ℕ → Type 0 where
  given : (block : ℕ) → IsOrigin head (some block) block
  recent : 10000 < head → IsOrigin head none (head - 10000)
  short : head ≤ 10000 → IsOrigin head none 0

resolve_start_block-IsOrigin :
    (genesis : Option ℕ) (head : ℕ) → IsOrigin head genesis (resolve_start_block none genesis head)
unfolding resolve_start_block
resolve_start_block-IsOrigin (some block) head = given block
resolve_start_block-IsOrigin none head =
    branch_on (λ (n : ℕ). IsOrigin head none n) (ltb 10000 head) _ _ (λ h. recent (ground arith))
      (λ h. short (ground arith))

module _ (decoders : Decoders) (Answers : Node → Type 0) where
  -- Windows of one source, each not empty and stored as one of the nodes answered for it, that cover
  -- the blocks from the first number to before the second without a gap. The first one begins where
  -- the head that one of the nodes answered lets the indexer begin.
  pub data Covered (config : IndexerChainConfig) (source : IndexerSource) (db : IndexerDb)
      : ℕ → ℕ → Type 0 where
    origin :
        (node : Node) (head start : ℕ)
        → Answers node
        → node.get_block_number ≡ some head
        → IsOrigin head config.genesis_block start
        → Covered config source db start start
    window :
        {start from : ℕ} (to : ℕ) (node : Node)
        → Answers node
        → Covered config source db start from
        → from ≤ to
        → Stored decoders config.chain_id source config node from to db
        → Covered config source db start (to + 1)

  pub Covered-Keeps :
      (config : IndexerChainConfig) (source : IndexerSource) (a b : IndexerDb) {m n : ℕ}
      → Keeps a b
      → Covered config source a m n
      → Covered config source b m n
  Covered-Keeps config source a b keeps (origin node head n asked at starts) =
      origin node head n asked at starts
  Covered-Keeps config source a b keeps (window {from = from} to node asked run up stored) =
      window to node asked (Covered-Keeps config source a b keeps run) up
        (Stored-Keeps decoders config.chain_id source config node from to a b keeps stored)

  Covered-order :
      (config : IndexerChainConfig) (source : IndexerSource) (a : IndexerDb) {m n : ℕ}
      → Covered config source a m n
      → m ≤ n
  Covered-order config source a (origin node head n asked at starts) = omega arith
  Covered-order config source a (window to node asked run up stored) =
      let before = Covered-order config source a run in omega arith

  -- Wherever the cursor stands, the blocks from some start up to it are covered.
  pub record IsFrontier (config : IndexerChainConfig) (source : IndexerSource) (db : IndexerDb)
      : Type 0 where
    pub covers :
        (n : ℕ)
        → db.cursors config.chain_id source ≡ some n
        → (start : ℕ) × Covered config source db start n × (start < n)

  module _ (config : IndexerChainConfig) (source : IndexerSource) where
    pub stays-IsFrontier :
        (a b : IndexerDb)
        → b.cursors ≡ a.cursors
        → Keeps a b
        → IsFrontier config source a
        → IsFrontier config source b
    stays-IsFrontier a b same keeps f = record {
      covers = λ n at.
          let before : a.cursors config.chain_id source ≡ some n =
            sym (ap (λ (t : ℕ → IndexerSource → Option ℕ). t config.chain_id source) same) ∙ at in
          let (start, run, some_window) = f.covers n before in
          (start, Covered-Keeps config source a b keeps run, some_window);
    }

    -- The run up to where a batch begins.
    pub resolve_start_block-Covered :
        (a : IndexerDb) (node : Node) (cursor : Option ℕ) (head from : ℕ)
        → Answers node
        → node.get_block_number ≡ some head
        → a.cursors config.chain_id source ≡ cursor
        → from ≡ resolve_start_block cursor config.genesis_block head
        → IsFrontier config source a
        → (start : ℕ) × Covered config source a start from
    unfolding resolve_start_block
    resolve_start_block-Covered a node none head from asked known at starts f = (
      from,
      origin node head from asked known
          (rw starts (resolve_start_block-IsOrigin config.genesis_block head)),
    )
    resolve_start_block-Covered a node (some n) head from asked known at starts f =
        let (start, run, some_window) = f.covers n at in (start, rw starts run)

    pub advances-IsFrontier :
        (node : Node) (head from to : ℕ) (a b : IndexerDb)
        → Answers node
        → node.get_block_number ≡ some head
        → from ≡ resolve_start_block (a.cursors config.chain_id source) config.genesis_block head
        → from ≤ to
        → Stored decoders config.chain_id source config node from to b
        → Keeps a b
        → IsFrontier config source a
        → (start : ℕ) × Covered config source b start (to + 1) × (start < to + 1)
    advances-IsFrontier node head from to a b asked known starts up stored keeps f =
        let (start, run) =
          resolve_start_block-Covered a node (a.cursors config.chain_id source) head from asked
            known refl starts f in
        let ahead = Covered-order config source a run in
        (
          start,
          window to node asked (Covered-Keeps config source a b keeps run) up stored,
          omega arith,
        )

    pub found_alone :
        (c : IndexerChainConfig)
        → config_by_chain (config ∷ []) config.chain_id ≡ some c
        → c ≡ config
    unfolding config_by_chain
    found_alone c h = ground arith

    pub cursor_moved :
        (moving : IndexerSource) (to n : ℕ) (cursors : ℕ → IndexerSource → Option ℕ)
        → same_source moving source ≡ true
        → set_indexer_cursor config.chain_id moving (to + 1) cursors config.chain_id source ≡ some n
        → to + 1 ≡ n
    unfolding set_indexer_cursor
    cursor_moved moving to n cursors same h = ground arith

    pub cursor_kept :
        (moving : IndexerSource) (to n : ℕ) (cursors : ℕ → IndexerSource → Option ℕ)
        → same_source moving source ≡ false
        → set_indexer_cursor config.chain_id moving (to + 1) cursors config.chain_id source ≡ some n
        → cursors config.chain_id source ≡ some n
    unfolding set_indexer_cursor
    cursor_kept moving to n cursors same h = ground arith

    pub batch-IsFrontier :
        (moving : IndexerSource) (node : Node) (a b : IndexerDb)
        → BatchStep decoders (config ∷ []) config.chain_id moving node a b
        → (moving ≡ source → Answers node)
        → IsFrontier config source a
        → IsFrontier config source b
    batch-IsFrontier moving node a b (stays same keeps) asked f = stays-IsFrontier a b same keeps f
    batch-IsFrontier moving node a b
          (advances c head from to found at starts up down stored moved keeps) asked f =
        record {
          covers = λ n after.
              let set : set_indexer_cursor config.chain_id moving (to + 1) a.cursors config.chain_id
                    source
                  ≡ some n =
                sym (ap (λ (t : ℕ → IndexerSource → Option ℕ). t config.chain_id source) moved)
                ∙ after in
              elim (Bool-cases (same_source moving source)) [
                | inl same ↦
                    let found_config = found_alone c found in
                    let found_source = same_source-equal moving source same in
                    let starts_here : from
                        ≡ resolve_start_block (a.cursors config.chain_id source)
                            config.genesis_block head =
                      subst
                        (λ (k : IndexerChainConfig).
                          from
                          ≡ resolve_start_block (a.cursors config.chain_id source) k.genesis_block
                              head)
                        found_config
                        (subst
                          (λ (s : IndexerSource).
                            from
                            ≡ resolve_start_block (a.cursors config.chain_id s) c.genesis_block
                                head)
                          found_source starts) in
                    let stored_here =
                      subst (λ k. Stored decoders config.chain_id source k node from to b)
                        found_config
                        (subst (λ s. Stored decoders config.chain_id s c node from to b)
                          found_source stored) in
                    let (start, run, some_window) =
                      advances-IsFrontier node head from to a b (asked found_source) at starts_here
                        up stored_here keeps f in
                    let ends = cursor_moved moving to n a.cursors same set in
                    (
                      start,
                      subst (Covered config source b start) ends run,
                      subst (λ (k : ℕ). start < k) ends some_window,
                    )
                | inr other ↦
                    let (start, run, some_window) =
                      f.covers n (cursor_kept moving to n a.cursors other set) in
                    (start, Covered-Keeps config source a b keeps run, some_window)
              ];
        }

-- More nodes may be asked.
pub Covered-weaken :
    (decoders : Decoders) (P Q : Node → Type 0) (config : IndexerChainConfig)
    (source : IndexerSource) (a : IndexerDb) {m n : ℕ}
    → ((node : Node) → P node → Q node)
    → Covered decoders P config source a m n
    → Covered decoders Q config source a m n
Covered-weaken decoders P Q config source a more (origin node head n asked at starts) =
    origin node head n (more node asked) at starts
Covered-weaken decoders P Q config source a more (window to node asked run up stored) =
    window to node (more node asked) (Covered-weaken decoders P Q config source a more run) up
      stored

pub IsFrontier-weaken :
    (decoders : Decoders) (P Q : Node → Type 0) (config : IndexerChainConfig)
    (source : IndexerSource) (a : IndexerDb)
    → ((node : Node) → P node → Q node)
    → IsFrontier decoders P config source a
    → IsFrontier decoders Q config source a
IsFrontier-weaken decoders P Q config source a more f = record {
  covers = λ n at.
      let (start, run, some_window) = f.covers n at in
      (start, Covered-weaken decoders P Q config source a more run, some_window);
}
