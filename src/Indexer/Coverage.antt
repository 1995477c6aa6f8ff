-- ===== src/Indexer/Coverage.antt =====
-- Which blocks the indexer reads, what it stores of them, and that reading them again stores
-- nothing new.
use aether_dex.Prelude.{
  ℕ, zero, suc, ◌+◌, ◌<◌, ◌≤◌, ◌≡◌, refl, ap, ◌∙◌, arith, Bool, true, false, Option, none, some,
  List, [], ◌∷◌, ◌++◌, All, ◌⊎◌, inl, inr, eq_iff, if◌then◌else◌,
}
use aether_dex.Prelude.Result.{Result, ok, err}
use aether_dex.Prelude.Table.{count_where}
use aether_dex.Indexer.{LiquidityRow, same_key, is_stored, insert_liquidity_event, insert_all}
use aether_dex.Indexer.Decode.{Viem}
use aether_dex.Indexer.Run.{
  BlockRange, start_block, next_v3_indexer_range, V3LiquidityIndexerConfig, Rpc, IndexerError,
  IndexerState, read_rows, inserted, insert_read, index_range, advance, run_range, run_from,
  latest_final, run_v3_liquidity_indexer,
}

-- The next range starts where the cursor stands, is not empty, ends at the head at the latest and
-- is at most 2000 blocks long.
pub record IsNext (cursor : Option ℕ) (latest deployment : ℕ) (r : BlockRange) : Type 0 where
  pub starts : r.from_block ≡ start_block cursor deployment
  pub ordered : r.from_block ≤ r.to_block
  pub final : r.to_block ≤ latest
  pub short : r.to_block < r.from_block + 2000

pub next_v3_indexer_range-IsNext :
    (cursor : Option ℕ) (latest deployment : ℕ) (r : BlockRange)
    → next_v3_indexer_range cursor latest deployment ≡ some r
    → IsNext cursor latest deployment r
unfolding next_v3_indexer_range
next_v3_indexer_range-IsNext cursor latest deployment r h = record {
  starts = ground arith;
  ordered = ground arith;
  final = ground arith;
  short = ground arith;
}

same_key_refl : (row : LiquidityRow) → same_key row row ≡ true
same_key_refl row = ground (arith, eq_iff row.event.tx_hash row.event.tx_hash)

count_where-append :
    (p : LiquidityRow → Bool) (xs : List LiquidityRow) (x : LiquidityRow)
    → count_where p (xs ++ x ∷ []) ≡ count_where p xs + (if p x then 1 else 0)
unfolding count_where
count_where-append p [] x = ground arith
count_where-append p (y ∷ ys) x = ground (arith, count_where-append p ys x)

pub is_stored-insert :
    (row x : LiquidityRow) (table : List LiquidityRow)
    → is_stored row table ≡ true
    → is_stored row (insert_liquidity_event x table) ≡ true
unfolding insert_liquidity_event
is_stored-insert row x table h = ground (arith, count_where-append (same_key row) table x)

pub insert-stores :
    (row : LiquidityRow) (table : List LiquidityRow)
    → is_stored row (insert_liquidity_event row table) ≡ true
unfolding insert_liquidity_event
insert-stores row table =
    ground (arith, count_where-append (same_key row) table row, same_key_refl row)

insert-again :
    (row : LiquidityRow) (table : List LiquidityRow)
    → is_stored row table ≡ true
    → insert_liquidity_event row table ≡ table
unfolding insert_liquidity_event
insert-again row table h = rw h refl

insert_all-keeps :
    (row : LiquidityRow) (rows : List LiquidityRow) (budget : Option ℕ) (table : List LiquidityRow)
    → is_stored row table ≡ true
    → is_stored row (insert_all rows budget table).1 ≡ true
unfolding insert_all
insert_all-keeps row [] budget table h = h
insert_all-keeps row (x ∷ xs) (some zero) table h = h
insert_all-keeps row (x ∷ xs) (some (suc n)) table h =
    insert_all-keeps row xs (some n) (insert_liquidity_event x table)
      (is_stored-insert row x table h)
insert_all-keeps row (x ∷ xs) none table h =
    insert_all-keeps row xs none (insert_liquidity_event x table) (is_stored-insert row x table h)

insert_all-stores :
    (rows : List LiquidityRow) (budget : Option ℕ) (table : List LiquidityRow)
    → (insert_all rows budget table).0 ≡ true
    → All (λ r. is_stored r (insert_all rows budget table).1 ≡ true) rows
unfolding insert_all
insert_all-stores [] budget table h = tt
insert_all-stores (x ∷ xs) (some zero) table h = cc
insert_all-stores (x ∷ xs) (some (suc n)) table h =
    let table' = insert_liquidity_event x table in
    (
      insert_all-keeps x xs (some n) table' (insert-stores x table),
      insert_all-stores xs (some n) table' h,
    )
insert_all-stores (x ∷ xs) none table h =
    let table' = insert_liquidity_event x table in
    (insert_all-keeps x xs none table' (insert-stores x table), insert_all-stores xs none table' h)

insert_all-idle :
    (rows : List LiquidityRow) (budget : Option ℕ) (table : List LiquidityRow)
    → All (λ r. is_stored r table ≡ true) rows
    → (insert_all rows budget table).1 ≡ table
unfolding insert_all
insert_all-idle [] budget table h = refl
insert_all-idle (x ∷ xs) (some zero) table h = refl
insert_all-idle (x ∷ xs) (some (suc n)) table (h, hs) =
    ap (λ t. (insert_all xs (some n) t).1) (insert-again x table h)
    ∙ insert_all-idle xs (some n) table hs
insert_all-idle (x ∷ xs) none table (h, hs) =
    ap (λ t. (insert_all xs none t).1) (insert-again x table h) ∙ insert_all-idle xs none table hs

module _ (viem : Viem) (config : V3LiquidityIndexerConfig) (rpc : Rpc) where
  inserted-table :
      (rows : List LiquidityRow) (q : Bool × List LiquidityRow)
      → (inserted viem config rpc rows q).1 ≡ q.1
  inserted-table rows (true, t) = refl
  inserted-table rows (false, t) = refl

  inserted-done :
      (rows : List LiquidityRow) (q : Bool × List LiquidityRow) (n : ℕ)
      → (inserted viem config rpc rows q).0 ≡ ok n
      → q.0 ≡ true
  inserted-done rows (true, t) n h = refl
  inserted-done rows (false, t) n h = cc

  insert_read-idle :
      (r : Result IndexerError (List LiquidityRow)) (budget again : Option ℕ)
      (table : List LiquidityRow) (n : ℕ)
      → (insert_read viem config rpc r budget table).0 ≡ ok n
      → (insert_read viem config rpc r again (insert_read viem config rpc r budget table).1).1
        ≡ (insert_read viem config rpc r budget table).1
  insert_read-idle (err e) budget again table n h = refl
  insert_read-idle (ok rows) budget again table n h =
      let first = insert_all rows budget table in
      let same = inserted-table rows first in
      inserted-table rows (insert_all rows again (inserted viem config rpc rows first).1)
      ∙ insert_all-idle rows again (inserted viem config rpc rows first).1
          (rw same (insert_all-stores rows budget table (inserted-done rows first n h)))

  -- Reading a range again that was read and stored leaves the table as it is, also where D1
  -- refuses an insert on the way: an overlap of ranges stores nothing twice.
  pub index_range-idempotent :
      (range : BlockRange) (budget again : Option ℕ) (table : List LiquidityRow) (n : ℕ)
      → (index_range viem config rpc range budget table).0 ≡ ok n
      → (index_range viem config rpc range again
          (index_range viem config rpc range budget table).1).1
        ≡ (index_range viem config rpc range budget table).1
  unfolding index_range
  index_range-idempotent range budget again table n h =
      insert_read-idle (read_rows viem config rpc range) budget again table n h

  -- What an advance of the cursor from `s` to `s'` has behind it: a range that starts where the
  -- cursor stood, each of whose decoded events is stored, and the cursor right behind its end.
  pub record Advanced (head deployment : ℕ) (s s' : IndexerState) : Type 0 where
    pub range : BlockRange
    pub is_next : IsNext s.cursor head deployment range
    pub rows : List LiquidityRow
    pub read : read_rows viem config rpc range ≡ ok rows
    pub stored : All (λ r. is_stored r s'.rows ≡ true) rows
    pub cursor_behind : s'.cursor ≡ some (range.to_block + 1)

  insert_read-stored :
      (r : Result IndexerError (List LiquidityRow)) (budget : Option ℕ) (table : List LiquidityRow)
      (n : ℕ)
      → (insert_read viem config rpc r budget table).0 ≡ ok n
      → (rows : List LiquidityRow) × (r ≡ ok rows)
        × All (λ x. is_stored x (insert_read viem config rpc r budget table).1 ≡ true) rows
  insert_read-stored (err e) budget table n h = cc
  insert_read-stored (ok rows) budget table n h =
      let q = insert_all rows budget table in
      (
        rows,
        refl,
        rw (inserted-table rows q) (insert_all-stores rows budget table (inserted-done rows q n h)),
      )

  advance-covers :
      (head deployment : ℕ) (cursor_down : Bool) (range : BlockRange)
      (q : Result IndexerError ℕ × List LiquidityRow) (s : IndexerState)
      → IsNext s.cursor head deployment range
      → ((n : ℕ)
          → q.0 ≡ ok n
          → (rows : List LiquidityRow) × (read_rows viem config rpc range ≡ ok rows)
            × All (λ x. is_stored x q.1 ≡ true) rows)
      → ((advance viem config rpc cursor_down range q s).1.cursor ≡ s.cursor)
        ⊎ Advanced head deployment s (advance viem config rpc cursor_down range q s).1
  advance-covers head deployment cursor_down range (err e, table) s next done = inl refl
  advance-covers head deployment true range (ok n, table) s next done = inl refl
  advance-covers head deployment false range (ok n, table) s next done =
      let (rows, read, stored) = done n refl in
      inr (record {
        range = range;
        is_next = next;
        rows = rows;
        read = read;
        stored = stored;
        cursor_behind = refl;
      })

  run_range-covers :
      (head deployment : ℕ) (budget : Option ℕ) (cursor_down : Bool) (o : Option BlockRange)
      (s : IndexerState)
      → next_v3_indexer_range s.cursor head deployment ≡ o
      → ((run_range viem config rpc budget cursor_down o s).1.cursor ≡ s.cursor)
        ⊎ Advanced head deployment s (run_range viem config rpc budget cursor_down o s).1
  unfolding index_range
  run_range-covers head deployment budget cursor_down none s e = inl refl
  run_range-covers head deployment budget cursor_down (some range) s e =
      advance-covers head deployment cursor_down range
        (insert_read viem config rpc (read_rows viem config rpc range) budget s.rows) s
        (next_v3_indexer_range-IsNext s.cursor head deployment range e)
        (insert_read-stored (read_rows viem config rpc range) budget s.rows)

  run_from-covers :
      (deployment : ℕ) (budget : Option ℕ) (cursor_down : Bool) (r : Result IndexerError ℕ)
      (s : IndexerState)
      → ((run_from viem config rpc deployment budget cursor_down r s).1.cursor ≡ s.cursor)
        ⊎ ((head : ℕ) × Advanced head deployment s
              (run_from viem config rpc deployment budget cursor_down r s).1)
  run_from-covers deployment budget cursor_down (err e) s = inl refl
  run_from-covers deployment budget cursor_down (ok head) s =
      elim (run_range-covers head deployment budget cursor_down
        (next_v3_indexer_range s.cursor head deployment) s refl) [
          | inl same ↦ inl same
          | inr moved ↦ inr (head, moved)
        ]

  -- However a tick ends, with the node or D1 failing at any of its calls: the cursor stays where it
  -- was, or it moves right behind a range that begins there, and every event that the range's logs
  -- decode to is stored. No block is passed over.
  pub run_v3_liquidity_indexer-covers :
      (deployment : ℕ) (budget : Option ℕ) (cursor_down : Bool) (s : IndexerState)
      → ((run_v3_liquidity_indexer viem config rpc deployment budget cursor_down s).1.cursor
          ≡ s.cursor)
        ⊎ ((head : ℕ) × Advanced head deployment s
              (run_v3_liquidity_indexer viem config rpc deployment budget cursor_down s).1)
  unfolding run_v3_liquidity_indexer
  run_v3_liquidity_indexer-covers deployment budget cursor_down s =
      run_from-covers deployment budget cursor_down (latest_final viem config rpc) s
