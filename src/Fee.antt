-- ===== src/Fee.antt =====
-- The protocol's entry fee (apps/api/src/lib/protocol-fee.ts, and the web application's own copy in
-- apps/web/src/lib/protocol-fee.ts), on the exact amounts of the `bigint` overload.
pub mod Exact
mod Tests
use aether_dex.Prelude.{
  ℕ, ◌-◌, ◌*◌, ◌/◌, Bool, true, false, Option, none, some, List, [], ◌∷◌, String, if◌then◌else◌,
}
use aether_dex.Prelude.Int.{ℤ, pos, pos_part, ltb_ℤ}
use aether_dex.Prelude.Result.{Result, ok, err}

pub data RangeError : Type 0 where
  negative_amount : RangeError

pub record ProtocolFeeComputed : Type 0 where
  pub fee : ℕ
  pub amount_after_fee : ℕ

abbrev pub protocol_fee_bps : ℕ
protocol_fee_bps = 10

abbrev pub bps_denominator : ℕ
bps_denominator = 10000

-- The fee is at most the amount, so the subtraction is the integers'.
abbrev pub fee_on : ℕ → ProtocolFeeComputed
fee_on gross = record {
  fee = gross * protocol_fee_bps / bps_denominator;
  amount_after_fee = gross - gross * protocol_fee_bps / bps_denominator;
}

unfoldable pub compute_protocol_fee : ℤ → Result RangeError ProtocolFeeComputed
compute_protocol_fee amount =
    if ltb_ℤ amount (pos 0) then err negative_amount else ok (fee_on (pos_part amount))

pub record ProtocolFeeInput : Type 0 where
  pub token : Option String
  pub gross_amount : ℤ

pub record ProtocolFeeAmountEntry : Type 0 where
  pub token : Option String
  pub gross_amount : ℤ
  pub protocol_fee_amount : ℕ
  pub amount_after_protocol_fee : ℕ

-- The constants of the breakdown (the rate and its labels) are left out.
pub record ProtocolFeeBreakdown : Type 0 where
  pub charged_here : Bool
  pub amounts : List ProtocolFeeAmountEntry

abbrev pub zero_protocol_fee_breakdown : ProtocolFeeBreakdown
zero_protocol_fee_breakdown = record { charged_here = false; amounts = [] }

abbrev pub entry_of :
    ProtocolFeeInput
    → Result RangeError ProtocolFeeComputed
    → List ProtocolFeeAmountEntry
    → Result RangeError (List ProtocolFeeAmountEntry)
entry_of input (err e) rest = err e
entry_of input (ok computed) rest = ok (
    record {
      token = input.token;
      gross_amount = input.gross_amount;
      protocol_fee_amount = computed.fee;
      amount_after_protocol_fee = computed.amount_after_fee;
    }
    ∷ rest)

abbrev pub then_entry :
    ProtocolFeeInput
    → Result RangeError (List ProtocolFeeAmountEntry)
    → Result RangeError (List ProtocolFeeAmountEntry)
then_entry input (err e) = err e
then_entry input (ok rest) = entry_of input (compute_protocol_fee input.gross_amount) rest

-- A negative amount anywhere throws.
unfoldable pub fee_entries : List ProtocolFeeInput → Result RangeError (List ProtocolFeeAmountEntry)
fee_entries [] = ok []
fee_entries (input ∷ rest) = then_entry input (fee_entries rest)

abbrev charged_with :
    Result RangeError (List ProtocolFeeAmountEntry) → Result RangeError ProtocolFeeBreakdown
charged_with (err e) = err e
charged_with (ok amounts) = ok (record { charged_here = true; amounts = amounts })

unfoldable pub protocol_fee_breakdown :
    Bool → List ProtocolFeeInput → Result RangeError ProtocolFeeBreakdown
protocol_fee_breakdown false inputs = ok zero_protocol_fee_breakdown
protocol_fee_breakdown true inputs = charged_with (fee_entries inputs)
