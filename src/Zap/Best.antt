-- ===== src/Zap/Best.antt =====
-- The search for the amount to swap ends with the best of the amounts that it tried.
use aether_dex.Prelude.{
  ℕ, zero, suc, ◌+◌, ◌-◌, ◌/◌, ◌≤◌, ◌<◌, ◌≡◌, none, some, List, [], ◌∷◌, ltb, if◌then◌else◌, All,
  ◌⊎◌, Option, Among,
}
use aether_dex.Prelude.Result.{ok}
use aether_dex.Zap.{Sdk, Position}
use aether_dex.Zap.Search.{
  V4SwapQuote, Candidate, SearchInput, Probe, consumed_of, amounts_position, probe, search,
}

module _ (sdk : Sdk) (input : SearchInput) where
  abbrev consumed_by : Option Position → Option ℕ
  consumed_by none = none
  consumed_by (some position) = some (consumed_of input.zero_for_one position)

  abbrev used_at : ℕ → Option V4SwapQuote → Option ℕ
  used_at amount none = none
  used_at amount (some quote) =
      consumed_by (amounts_position sdk input (input.amount_in - amount) quote.amount_out)

  -- What the position takes of the input that a swap of the amount leaves.
  abbrev pub used : ℕ → Option ℕ
  used amount = used_at amount (input.quote amount)

  -- The amounts of a bisection between two bounds: the middle, and then the upper half where the
  -- position takes less than what is left of the input, and the lower half where it does not.
  unfoldable pub tried : ℕ → ℕ → ℕ → List ℕ
  tried zero low high = []
  tried (suc n) low high =
      let middle = (low + high) / 2 in
      let rest : List ℕ = elim (used middle) [
        | none ↦ []
        | some taken ↦
            let short = ltb taken (input.amount_in - middle) in
            tried n (if short then middle + 1 else low) (if short then high else middle - 1)
      ] in
      if ltb high low then [] else middle ∷ rest

  -- A candidate that the loop made, of a part of the input that leaves something.
  pub record IsTried (r : Candidate) : Type 0 where
    pub positive : 1 ≤ r.swap_amount_in
    pub leaves : r.swap_amount_in < input.amount_in
    pub asked : Probe
    pub made : probe sdk input r.swap_amount_in ≡ ok asked
    pub candidate : asked.candidate ≡ r

  -- No better candidate comes of the amount.
  pub record Beats (r : Candidate) (amount : ℕ) : Type 0 where
    pub least : (p : Probe) → probe sdk input amount ≡ ok p → r.error ≤ p.candidate.error

  -- The quotes and the SDK answer for every part of the input.
  pub record Answers : Type 0 where
    pub answer :
        (amount : ℕ)
        → 1 ≤ amount
        → amount < input.amount_in
        → (p : Probe) × (probe sdk input amount ≡ ok p)

  record Used (amount : ℕ) (p : Probe) : Type 0 where
    taken : ℕ
    takes : used amount ≡ some taken
    short : p.too_little ≡ ltb taken (input.amount_in - amount)

  -- Where the loop ends.
  record Ends (n low high : ℕ) (best : Candidate) : Type 0 where
    r : Candidate
    found : search sdk input n low high (some best) ≡ ok (some r)
    own : IsTried r
    improved : r.error ≤ best.error
    placed : (r ≡ best) ⊎ Among r.swap_amount_in (tried n low high)
    beats : All (Beats r) (tried n low high)
