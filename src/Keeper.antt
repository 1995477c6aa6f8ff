-- ===== src/Keeper.antt =====
-- The keeper's position policies (apps/api/src/services/keeper.service.ts): the rows of
-- `position_policies`, the evaluators, and what the service reads and writes.
pub mod Recenter
pub mod Cooldown
pub mod Range
mod Tests
use aether_dex.Prelude.{
  ℕ, ◌+◌, ◌*◌, ◌/◌, Bool, true, false, ◌&&◌, ◌||◌, Option, none, some, List, [], ◌∷◌, String, ◌==◌,
  leb, str_eq, if◌then◌else◌, filter, take, length, map,
}
use aether_dex.Prelude.Int.{ℤ, pos, pos_part, ◌-ℤ◌, ltb_ℤ}
use aether_dex.Prelude.Result.{Result, ok, err}
use aether_dex.Prelude.Sort.{sort_by}
use aether_dex.Prelude.Table.{update_where}
use aether_dex.Orders.{TpSlOrder, is_pending}
use aether_dex.Orders.Service.{oldest_first}

-- A row of `position_policies`.
pub record PositionPolicy : Type 0 where
  pub id : ℕ
  pub user_address : String
  pub position_id : String
  pub pool_id : String
  pub policy_type : String
  pub is_active : Bool
  pub last_rebalance_at : Option ℕ
  pub rebalance_count : ℕ
  pub min_drift_bps : ℕ
  pub cooldown_seconds : ℕ
  pub created_at : ℕ
  pub chain_id : ℕ

-- The verdict and the policy's name. The reason and the confidence are for reports: no code
-- decides by them.
pub record PolicyEvaluation : Type 0 where
  pub should_execute : Bool
  pub policy : String

abbrev pub is_out_of_range : ℤ → ℤ → ℤ → Bool
is_out_of_range current lower upper = ltb_ℤ current lower || ltb_ℤ upper current

-- How far the tick lies outside the range, in basis points of the range's width. The products are
-- integers below 2^53, so the floor of the float quotient is the integer quotient.
unfoldable pub drift_bps : ℤ → ℤ → ℤ → ℕ
drift_bps current lower upper =
    let drift = pos_part (if ltb_ℤ current lower then lower -ℤ current else current -ℤ upper) in
    let size = upper -ℤ lower in if ltb_ℤ (pos 0) size then drift * 10000 / pos_part size else 10000

unfoldable pub evaluate_range_drift : PositionPolicy → ℤ → ℤ → ℤ → PolicyEvaluation
evaluate_range_drift position current lower upper =
    if is_out_of_range current lower upper
    then record {
      should_execute = leb position.min_drift_bps (drift_bps current lower upper);
      policy = "range_drift";
    }
    else record { should_execute = false; policy = "range_drift" }

-- `lastRebalanceAt ?? 0`
abbrev pub last_rebalance : Option ℕ → ℕ
last_rebalance none = 0
last_rebalance (some t) = t

abbrev pub is_cooling : ℕ → Option ℕ → ℕ → Bool
is_cooling now last cooldown_seconds =
    ltb_ℤ (pos now -ℤ pos (last_rebalance last)) (pos (cooldown_seconds * 1000))

unfoldable pub evaluate_anti_whipsaw : ℕ → PositionPolicy → PolicyEvaluation
evaluate_anti_whipsaw now position = record {
  should_execute =
      if is_cooling now position.last_rebalance_at position.cooldown_seconds then false else true;
  policy = "anti_whipsaw";
}

unfoldable pub evaluate_volatility : String → ℕ → PolicyEvaluation
evaluate_volatility pool_id window_seconds = record {
  should_execute = true;
  policy = "realized_volatility";
}

unfoldable pub evaluate_idle_reserve : ℤ → ℤ → PolicyEvaluation
evaluate_idle_reserve balance minimum = record {
  should_execute = if ltb_ℤ balance minimum then false else true;
  policy = "idle_reserve";
}

unfoldable pub evaluate_cap_pressure : String → ℕ → PolicyEvaluation
evaluate_cap_pressure pool_id max_exposure = record {
  should_execute = true;
  policy = "cap_pressure";
}

pub data KeeperError : Type 0 where
  keeper_error : KeeperError

abbrev is_active_on : ℕ → PositionPolicy → Bool
is_active_on chain_id p = p.chain_id == chain_id && p.is_active

abbrev newest_policy_first : PositionPolicy → PositionPolicy → Bool
newest_policy_first a b = leb b.created_at a.created_at

unfoldable pub get_active_policies :
    Bool → ℕ → List PositionPolicy → Result KeeperError (List PositionPolicy)
get_active_policies down chain_id policies =
    if down
    then err KeeperError.keeper_error
    else ok (sort_by newest_policy_first (filter (is_active_on chain_id) policies))

abbrev pub rebalanced_at : ℕ → PositionPolicy → PositionPolicy
rebalanced_at now p = record p {
  last_rebalance_at = some now;
  rebalance_count = p.rebalance_count + 1;
}

unfoldable pub record_rebalance :
    Bool
    → ℕ
    → String
    → ℕ
    → List PositionPolicy
    → Result KeeperError (Unit {0}) × List PositionPolicy
record_rebalance down now position_id chain_id policies =
    if down then (err KeeperError.keeper_error, policies) else (
      ok tt,
      update_where (λ p. str_eq p.position_id position_id && p.chain_id == chain_id)
          (rebalanced_at now) policies,
    )
