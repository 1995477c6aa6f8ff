-- ===== src/Keeper/Cooldown.antt =====
-- What `handleAutoRecenterCheck` shares with the evaluators of the keeper service, and how often it
-- rebalances.
use aether_dex.Prelude.{
  ℕ, ◌+◌, ◌*◌, ◌<◌, ◌≡◌, refl, ap, ◌∙◌, arith, Bool, true, ◌&&◌, either_branch, Option, some, List,
  String,
}
use aether_dex.Prelude.Int.{ℤ, pos, -ℤ_parts}
use aether_dex.Prelude.Table.{update_where, find_where, find_where-update_where}
use aether_dex.Keeper.{PositionPolicy, evaluate_range_drift, evaluate_anti_whipsaw, rebalanced_at}
use aether_dex.Keeper.Recenter.{
  AutoRecenterCheckMessage, has_id, is_live_policy, RecenterFaults, is_cooling_down, recenter_found,
  handle_auto_recenter_check,
}

-- The verdict of the service's evaluators on a policy, with the threshold of the message.
abbrev pub evaluators_agree : ℕ → AutoRecenterCheckMessage → ℤ → PositionPolicy → Bool
evaluators_agree now msg current policy =
    (evaluate_anti_whipsaw now policy).should_execute
    && (evaluate_range_drift (record policy { min_drift_bps = msg.min_drift_bps }) current
        msg.tick_lower msg.tick_upper).should_execute

cools_down :
    (now later cooldown_seconds : ℕ)
    → later < now + cooldown_seconds * 1000
    → is_cooling_down later (some now) cooldown_seconds ≡ true
cools_down now later cooldown_seconds h = ground (arith, -ℤ_parts (pos later) (pos now))

cooling-idle :
    (faults : RecenterFaults) (later : ℕ) (tick_of : String → Option ℤ)
    (msg : AutoRecenterCheckMessage) (policies : List PositionPolicy) (policy : PositionPolicy)
    → find_where (is_live_policy msg) policies ≡ some policy
    → is_cooling_down later policy.last_rebalance_at policy.cooldown_seconds ≡ true
    → handle_auto_recenter_check faults later tick_of msg policies ≡ policies
unfolding handle_auto_recenter_check
cooling-idle faults later tick_of msg policies policy found cooling =
    either_branch (λ ps. ps ≡ policies) faults.select_down _ _ refl
      (ap (recenter_found faults.update_down later tick_of msg policies) found ∙ rw cooling refl)

-- After a check that stamped a policy, each check of the same policy before its cooldown is over
-- changes nothing, whatever range and tick it is about and whatever D1 refuses.
pub handle_auto_recenter_check-cooldown :
    (faults faults_later : RecenterFaults) (now later : ℕ) (tick_of tick_later : String → Option ℤ)
    (msg again : AutoRecenterCheckMessage) (policies : List PositionPolicy)
    (policy : PositionPolicy)
    → find_where (is_live_policy msg) policies ≡ some policy
    → handle_auto_recenter_check faults now tick_of msg policies
      ≡ update_where (has_id msg) (rebalanced_at now) policies
    → again.policy_id ≡ msg.policy_id
    → again.chain_id ≡ msg.chain_id
    → later < now + policy.cooldown_seconds * 1000
    → handle_auto_recenter_check faults_later later tick_later again
        (handle_auto_recenter_check faults now tick_of msg policies)
      ≡ handle_auto_recenter_check faults now tick_of msg policies
handle_auto_recenter_check-cooldown faults faults_later now later tick_of tick_later msg again
      policies policy found stamped same_id same_chain soon =
    let stamped_policies = update_where (has_id msg) (rebalanced_at now) policies in
    let found_again : find_where (is_live_policy again) policies ≡ some policy =
      rw (same_id, same_chain) found in
    let found_stamped : find_where (is_live_policy again) stamped_policies
        ≡ some (rebalanced_at now policy) =
      find_where-update_where (is_live_policy again) (has_id msg) (rebalanced_at now) policies
        policy (λ p live. ground arith) (λ p. refl) found_again in
    rw stamped (
      cooling-idle faults_later later tick_later again stamped_policies (rebalanced_at now policy)
        found_stamped (cools_down now later policy.cooldown_seconds soon))
