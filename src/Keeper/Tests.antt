-- ===== src/Keeper/Tests.antt =====
-- Runs of the check of a position.
use aether_dex.Prelude.{◌≡◌, refl, arith, true, false, Option, none, some, [], ◌∷◌, String}
use aether_dex.Prelude.Int.{pos, negsuc, sub_ℕ, ◌+ℤ◌, ◌-ℤ◌, ◌≤ℤ◌, ◌<ℤ◌, ℤ}
use aether_dex.Prelude.Table.{update_where, find_where}
use aether_dex.Keeper.{PositionPolicy, rebalanced_at}
use aether_dex.Keeper.Recenter.{
  AutoRecenterCheckMessage, RecenterFaults, message_drift_bps, needs_rebalance,
  handle_auto_recenter_check,
}
use aether_dex.Prelude.Result.{ok}
use aether_dex.Keeper.Range.{
  TickRange, max_tick, aligned_tick, half_range, compute_optimal_range, compute_optimal_range-holds,
}
use aether_dex.Keeper.Cooldown.{handle_auto_recenter_check-cooldown}

abbrev policy : PositionPolicy
policy = record {
  id = 4;
  user_address = "0xuser";
  position_id = "9";
  pool_id = "0xpool";
  policy_type = "auto_recenter";
  is_active = true;
  last_rebalance_at = none;
  rebalance_count = 0;
  min_drift_bps = 500;
  cooldown_seconds = 3600;
  created_at = 1;
  chain_id = 1;
}

abbrev check : AutoRecenterCheckMessage
check = record {
  policy_id = 4;
  position_id = "9";
  pool_id = "0xpool";
  user_address = "0xuser";
  tick_lower = pos 0;
  tick_upper = pos 1000;
  min_drift_bps = 500;
  chain_id = 1;
}

abbrev answers : RecenterFaults
answers = record { select_down = false; update_down = false }

abbrev out_of_range : String → Option ℤ
out_of_range pool_id = some (pos 1100)

stamps :
    handle_auto_recenter_check answers 5000000 out_of_range check (policy ∷ [])
    ≡ rebalanced_at 5000000 policy ∷ []
unfolding handle_auto_recenter_check find_where needs_rebalance message_drift_bps ◌-ℤ◌ update_where
stamps = refl

handle_auto_recenter_check-cooldown_example :
    handle_auto_recenter_check answers 5000001 out_of_range check
      (handle_auto_recenter_check answers 5000000 out_of_range check (policy ∷ []))
    ≡ handle_auto_recenter_check answers 5000000 out_of_range check (policy ∷ [])
unfolding handle_auto_recenter_check find_where needs_rebalance message_drift_bps ◌-ℤ◌ update_where
handle_auto_recenter_check-cooldown_example =
    handle_auto_recenter_check-cooldown answers answers 5000000 5000001 out_of_range out_of_range
      check check (policy ∷ []) policy refl refl refl refl (omega arith)

abbrev around_105 : TickRange
around_105 = record { tick_lower = negsuc 59; tick_upper = pos 180 }

computes : compute_optimal_range (pos 105) 60 none ≡ ok around_105
unfolding compute_optimal_range aligned_tick half_range ◌-ℤ◌ ◌+ℤ◌
computes = refl

compute_optimal_range-holds_example :
    (negsuc 59 ≤ℤ pos 105)
    × (pos 105 <ℤ pos 180)
    × (sub_ℕ 0 max_tick ≤ℤ negsuc 59)
    × (pos 180 ≤ℤ pos max_tick)
compute_optimal_range-holds_example =
    compute_optimal_range-holds (pos 105) 60 none around_105 (omega arith) computes
