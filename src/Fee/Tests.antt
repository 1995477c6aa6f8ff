-- ===== src/Fee/Tests.antt =====
-- Runs of the fee, and its properties at concrete inputs.
use aether_dex.Prelude.{ℕ, ◌≡◌, refl, none}
use aether_dex.Prelude.Int.{pos}
use aether_dex.Prelude.Result.{ok}
use aether_dex.Fee.{ProtocolFeeComputed, ProtocolFeeInput, fee_on, compute_protocol_fee}
use aether_dex.Fee.Exact.{IsExact, compute_protocol_fee-IsExact}

compute_protocol_fee-IsExact_example :
    (c : ProtocolFeeComputed) × (compute_protocol_fee (pos 12345) ≡ ok c) × IsExact 12345 c
compute_protocol_fee-IsExact_example = compute_protocol_fee-IsExact 12345

twelve : fee_on 12345 ≡ record { fee = 12; amount_after_fee = 12333 }
twelve = refl

abbrev deposit : ℕ → ProtocolFeeInput
deposit gross = record { token = none; gross_amount = pos gross }
