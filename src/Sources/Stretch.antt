-- ===== src/Sources/Stretch.antt =====
-- What a window leaves of the tables, whether it succeeds or not.
use aether_dex.Prelude.{ℕ, ◌≡◌, refl, Bool, true, false, List, All, length}
use aether_dex.Prelude.Result.{Result, ok, err}
use aether_dex.Sources.{IndexerSource}
use aether_dex.Sources.Config.{IndexerChainConfig}
use aether_dex.Sources.Store.{Budget, ParsedIndexerEvent, persist_events}
use aether_dex.Sources.Tables.{IndexerDb}
use aether_dex.Sources.Stored.{persist_events-Keeps, persist_events-stores, persist_events-cursors}
use aether_dex.Sources.Keeps.{IsPersisted, Keeps, Keeps-refl}
use aether_dex.Sources.Window.{
  IndexerError, Node, Decoders, Outcome, read_window, persisted, persist_read,
}

module _ (decoders : Decoders) where
  -- A window was read and stored as a whole.
  pub record Stored (chain_id : ℕ) (source : IndexerSource) (config : IndexerChainConfig)
      (node : Node) (from to : ℕ) (db : IndexerDb) : Type 0 where
    pub items : List (ParsedIndexerEvent × ℕ)
    pub read : read_window decoders config source node from to ≡ ok items
    pub all : All (IsPersisted chain_id db) items

  -- What a window leaves, whether it succeeds or not.
  pub record WindowDone (chain_id : ℕ) (source : IndexerSource) (config : IndexerChainConfig)
      (node : Node) (from to : ℕ) (before : IndexerDb) (o : Outcome ℕ) : Type 0 where
    pub cursors : o.2.cursors ≡ before.cursors
    pub keeps : Keeps before o.2
    pub stored : (n : ℕ) → o.0 ≡ ok n → Stored chain_id source config node from to o.2

  pub persisted-stored :
      (chain_id : ℕ) (source : IndexerSource) (config : IndexerChainConfig) (node : Node)
      (from to n : ℕ) (items : List (ParsedIndexerEvent × ℕ)) (before : IndexerDb)
      (ran : Bool × Budget × IndexerDb)
      → read_window decoders config source node from to ≡ ok items
      → ran.2.cursors ≡ before.cursors
      → Keeps before ran.2
      → (ran.0 ≡ true → All (IsPersisted chain_id ran.2) items)
      → WindowDone chain_id source config node from to before (persisted decoders n ran)
  persisted-stored chain_id source config node from to n items before (true, budget, db) r c k a =
      record {
        cursors = c;
        keeps = k;
        stored = λ m h. record { items = items; read = r; all = a refl };
      }
  persisted-stored chain_id source config node from to n items before (false, budget, db) r c k a =
      record { cursors = c; keeps = k; stored = λ m h. cc }

  pub index_window-WindowDone :
      (chain_id : ℕ) (source : IndexerSource) (config : IndexerChainConfig) (node : Node)
      (from to : ℕ) (budget : Budget) (db : IndexerDb)
      (r : Result IndexerError (List (ParsedIndexerEvent × ℕ)))
      → read_window decoders config source node from to ≡ r
      → WindowDone chain_id source config node from to db
          (persist_read decoders chain_id r budget db)
  index_window-WindowDone chain_id source config node from to budget db (err e) same = record {
    cursors = refl;
    keeps = Keeps-refl db;
    stored = λ m h. cc;
  }
  index_window-WindowDone chain_id source config node from to budget db (ok items) same =
      persisted-stored chain_id source config node from to (length items) items db
        (persist_events chain_id items budget db) same
        (persist_events-cursors chain_id items budget db)
        (persist_events-Keeps chain_id items budget db)
        (persist_events-stores chain_id items budget db)
