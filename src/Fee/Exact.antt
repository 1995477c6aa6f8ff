-- ===== src/Fee/Exact.antt =====
-- What the fee takes of an amount and of several.
use aether_dex.Prelude.{
  ℕ, ◌+◌, ◌*◌, ◌≤◌, ◌<◌, ◌≡◌, refl, arith, false, ltb, ap, ◌∙◌, List, [], ◌∷◌, sym, suc, ◌↔◌, All,
  length,
}
use aether_dex.Prelude.Int.{pos}
use aether_dex.Prelude.Result.{ok}
use aether_dex.Fee.{
  ProtocolFeeComputed, ProtocolFeeInput, ProtocolFeeAmountEntry, fee_on, compute_protocol_fee,
  entry_of, then_entry, fee_entries,
}

-- A deposit is split without remainder into the fee and what is put to work, the fee is the tenth
-- of a percent rounded down, and nothing is taken exactly below a thousand base units.
pub record IsExact (gross : ℕ) (c : ProtocolFeeComputed) : Type 0 where
  pub split : c.fee + c.amount_after_fee ≡ gross
  pub at_most : c.fee * 1000 ≤ gross
  pub at_least : gross < c.fee * 1000 + 1000
  pub free : (c.fee ≡ 0) ↔ (gross < 1000)

fee_on-IsExact : (gross : ℕ) → IsExact gross (fee_on gross)
fee_on-IsExact gross = record {
  split = omega arith;
  at_most = omega arith;
  at_least = omega arith;
  free = (λ h. omega arith, λ h. omega arith);
}

-- For every unsigned amount the fee is computed, and is exact.
pub compute_protocol_fee-IsExact :
    (gross : ℕ)
    → (c : ProtocolFeeComputed) × (compute_protocol_fee (pos gross) ≡ ok c) × IsExact gross c
unfolding compute_protocol_fee
compute_protocol_fee-IsExact gross =
    let no : ltb (gross + 0) 0 ≡ false = ground arith in
    (fee_on gross, rw no refl, fee_on-IsExact gross)

-- A larger deposit never leaves less to put to work.
pub fee_on-monotone : (a b : ℕ) → a ≤ b → (fee_on a).amount_after_fee ≤ (fee_on b).amount_after_fee
fee_on-monotone a b h = omega arith

abbrev pub IsSplit : ProtocolFeeAmountEntry → Type 0
IsSplit e = e.gross_amount ≡ pos (e.protocol_fee_amount + e.amount_after_protocol_fee)

-- Every unsigned deposit of a charged operation gets its line, and the line's fee and remainder
-- make up its amount.
pub fee_entries-IsSplit :
    (inputs : List ProtocolFeeInput)
    → All (λ i. (g : ℕ) × (i.gross_amount ≡ pos g)) inputs
    → (entries : List ProtocolFeeAmountEntry) × (fee_entries inputs ≡ ok entries)
      × (length entries ≡ length inputs)
      × All IsSplit entries
unfolding fee_entries
fee_entries-IsSplit [] h = ([], refl, refl, tt)
fee_entries-IsSplit (i ∷ is) ((g, e), h) =
    let (entries, done, same, splits) = fee_entries-IsSplit is h in
    let (c, computed, exact) = compute_protocol_fee-IsExact g in
    let line : ProtocolFeeAmountEntry = record {
      token = i.token;
      gross_amount = i.gross_amount;
      protocol_fee_amount = c.fee;
      amount_after_protocol_fee = c.amount_after_fee;
    } in
    (
      line ∷ entries,
      ap (then_entry i) done
          ∙ ap (λ r. entry_of i r entries) (ap compute_protocol_fee e ∙ computed),
      ap suc same,
      (e ∙ ap pos (sym exact.split), splits),
    )
