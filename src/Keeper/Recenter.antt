-- ===== src/Keeper/Recenter.antt =====
-- The queue handler `handleAutoRecenterCheck` (apps/api/src/workers/queue-handler.ts).
use aether_dex.Prelude.{
  ℕ, ◌*◌, ◌/◌, Bool, true, false, ◌&&◌, Option, none, some, List, String, ◌==◌, ltb, if◌then◌else◌,
}
use aether_dex.Prelude.Int.{ℤ, pos, pos_part, ◌-ℤ◌, leb_ℤ, ltb_ℤ}
use aether_dex.Prelude.Table.{update_where, find_where}
use aether_dex.Keeper.{PositionPolicy, rebalanced_at}

pub record AutoRecenterCheckMessage : Type 0 where
  pub policy_id : ℕ
  pub position_id : String
  pub pool_id : String
  pub user_address : String
  pub tick_lower : ℤ
  pub tick_upper : ℤ
  pub min_drift_bps : ℕ
  pub chain_id : ℕ

abbrev pub has_id : AutoRecenterCheckMessage → PositionPolicy → Bool
has_id msg p = p.id == msg.policy_id && p.chain_id == msg.chain_id

abbrev pub is_live_policy : AutoRecenterCheckMessage → PositionPolicy → Bool
is_live_policy msg p = has_id msg p && p.is_active

-- `now - (last_rebalance_at ?? 0) < cooldown_seconds * 1000`
abbrev pub is_cooling_down : ℕ → Option ℕ → ℕ → Bool
is_cooling_down now none cooldown_seconds = ltb_ℤ (pos now -ℤ pos 0) (pos (cooldown_seconds * 1000))
is_cooling_down now (some last) cooldown_seconds =
    ltb_ℤ (pos now -ℤ pos last) (pos (cooldown_seconds * 1000))

abbrev pub is_in_range : ℤ → AutoRecenterCheckMessage → Bool
is_in_range current msg = leb_ℤ msg.tick_lower current && leb_ℤ current msg.tick_upper

-- The handler's own computation of the drift.
unfoldable pub message_drift_bps : ℤ → AutoRecenterCheckMessage → ℕ
message_drift_bps current msg =
    let drift_ticks =
      if ltb_ℤ current msg.tick_lower
      then msg.tick_lower -ℤ current
      else current -ℤ msg.tick_upper in
    let range_size = msg.tick_upper -ℤ msg.tick_lower in
    if ltb_ℤ (pos 0) range_size then pos_part drift_ticks * 10000 / pos_part range_size else 10000

-- Whether the range of the message is to move to the tick that the pool's cached state holds
-- (`none` where it holds no integer tick).
unfoldable pub needs_rebalance : AutoRecenterCheckMessage → Option ℤ → Bool
needs_rebalance msg none = false
needs_rebalance msg (some current) =
    if is_in_range current msg
    then false
    else if ltb (message_drift_bps current msg) msg.min_drift_bps
    then false
    else true

-- What is done with the row that the `SELECT` finds: nothing while it cools down or where the range
-- is to stay, and else the update of the row.
abbrev pub recenter_found :
    Bool
    → ℕ
    → (String → Option ℤ)
    → AutoRecenterCheckMessage
    → List PositionPolicy
    → Option PositionPolicy
    → List PositionPolicy
recenter_found down now tick_of msg policies none = policies
recenter_found down now tick_of msg policies (some policy) =
    if is_cooling_down now policy.last_rebalance_at policy.cooldown_seconds
    then policies
    else if needs_rebalance msg (tick_of msg.pool_id)
    then if down then policies else update_where (has_id msg) (rebalanced_at now) policies
    else policies

-- Which statements of a check D1 refuses. The handler throws then, and has written nothing.
pub record RecenterFaults : Type 0 where
  pub select_down : Bool
  pub update_down : Bool

-- The whole handler: the `SELECT`, the cooldown, the tick, and the update, with no other write to
-- the policy between them.
unfoldable pub handle_auto_recenter_check :
    RecenterFaults
    → ℕ
    → (String → Option ℤ)
    → AutoRecenterCheckMessage
    → List PositionPolicy
    → List PositionPolicy
handle_auto_recenter_check faults now tick_of msg policies =
    if faults.select_down
    then policies
    else recenter_found faults.update_down now tick_of msg policies
        (find_where (is_live_policy msg) policies)
