-- ===== src/Alerts/Volume.antt =====
-- What the sum of the query is (`readVolumeSpikes`), told row by row.
use aether_dex.Prelude.{
  ℕ, ◌+◌, ◌≤◌, ◌<◌, ◌≡◌, ◌≢◌, refl, sym, ap, arith, true, false, ◌&&◌, Option, none, some, List, [],
  ◌∷◌, String, ◌==◌, ltb, leb, eq_iff, Bool-cases, inl, inr, branch_on,
}
use aether_dex.Alerts.{TransactionRow, amount_or_zero, is_of_pool, counts, volume_of}

module _ (chain_id start : ℕ) (pool_id : String) where
  -- Why a row adds nothing to a pool.
  pub data IsOther (row : TransactionRow) : Type 0 where
    other_chain : row.chain_id ≢ chain_id → IsOther row
    early : row.created_at < start → IsOther row
    other_pool : row.pool_id ≢ some pool_id → IsOther row
    no_amount : row.amount_usd ≡ none → IsOther row
    zero_amount : row.amount_usd ≡ some 0 → IsOther row

  -- The positive amounts that the rows of the chain and the pool hold since the start add up to the
  -- number.
  pub data Volume : List TransactionRow → ℕ → Type 0 where
    nothing : Volume [] 0
    counted :
        {rows : List TransactionRow} {total : ℕ} (row : TransactionRow) (amount : ℕ)
        → row.chain_id ≡ chain_id
        → start ≤ row.created_at
        → row.pool_id ≡ some pool_id
        → row.amount_usd ≡ some amount
        → 0 < amount
        → Volume rows total
        → Volume (row ∷ rows) (amount + total)
    other :
        {rows : List TransactionRow} {total : ℕ} (row : TransactionRow)
        → IsOther row
        → Volume rows total
        → Volume (row ∷ rows) total

  some-injective : (a b : String) → (let x : Option String = some a in x ≡ some b) → a ≡ b
  some-injective a b h = cc

  positive_amount : (o : Option ℕ) → ltb 0 (amount_or_zero o) ≡ true → o ≡ some (amount_or_zero o)
  positive_amount none h = cc
  positive_amount (some n) h = refl

  zero_option :
      (row : TransactionRow) (o : Option ℕ)
      → row.amount_usd ≡ o
      → ltb 0 (amount_or_zero o) ≡ false
      → IsOther row
  zero_option row none same h = no_amount same
  zero_option row (some n) same h =
      let none_left : n ≡ 0 = ground arith in zero_amount (rw (sym none_left) same)

  named_pool : (o : Option String) → is_of_pool pool_id o ≡ true → o ≡ some pool_id
  named_pool none h = cc
  named_pool (some p) h = ap some ((eq_iff p pool_id).0 h)

  unnamed_pool : (o : Option String) → is_of_pool pool_id o ≡ false → o ≢ some pool_id
  unnamed_pool none h same = cc
  unnamed_pool (some p) h same = ground (arith, eq_iff p pool_id, some-injective p pool_id same)

  left_out :
      (row : TransactionRow)
      → (counts chain_id start row && is_of_pool pool_id row.pool_id) ≡ false
      → IsOther row
  left_out row h = elim (Bool-cases (is_of_pool pool_id row.pool_id)) [
    | inr unnamed ↦ other_pool (unnamed_pool row.pool_id unnamed)
    | inl named ↦ elim (Bool-cases (row.chain_id == chain_id)) [
      | inr apart ↦ other_chain (λ e. ground arith)
      | inl same ↦ elim (Bool-cases (leb start row.created_at)) [
        | inr before ↦ early (ground arith)
        | inl since ↦ zero_option row row.amount_usd refl (ground arith)
      ]
    ]
  ]

  pub volume_of-Volume :
      (rows : List TransactionRow) → Volume rows (volume_of chain_id start pool_id rows)
  unfolding volume_of
  volume_of-Volume [] = nothing
  volume_of-Volume (row ∷ rows) =
      let rest = volume_of-Volume rows in
      branch_on (λ (total : ℕ). Volume (row ∷ rows) total)
        (counts chain_id start row && is_of_pool pool_id row.pool_id) _ _
        (λ holds.
          counted row (amount_or_zero row.amount_usd) (ground arith) (ground arith)
            (named_pool row.pool_id (ground arith)) (positive_amount row.amount_usd (ground arith))
            (ground arith) rest)
        (λ fails. other row (left_out row fails) rest)
