-- ===== src/Safety/Mev.antt =====
-- The slippage cap for transactions that are built (apps/api/src/middleware/mev-protection.ts).
use aether_dex.Prelude.{ℕ, Bool, true, false, Option, none, some, String, if◌then◌else◌}
use aether_dex.Prelude.Int.{ℤ, pos, ltb_ℤ, leb_ℤ}
use aether_dex.Safety.{
  Reader, SafetyEnv, MevProtectionMode, read_mev_protection_config, read_circuit_breaker_config,
}

-- The answer 400, or the handler's with the headers that are set.
pub data MevReply : Type 0 where
  slippage_exceeds_cap : MevReply
  passed : MevProtectionMode → Bool → Bool → MevReply

-- `private` without a relay protects as `client` does.
abbrev pub degraded : MevProtectionMode → Option String → MevProtectionMode
degraded MevProtectionMode.private_relay none = MevProtectionMode.client
degraded mode relay = mode

abbrev is_off : MevProtectionMode → Bool
is_off MevProtectionMode.off = true
is_off _ = false

abbrev is_private : MevProtectionMode → Bool
is_private MevProtectionMode.private_relay = true
is_private _ = false

abbrev pub exceeds : Option ℤ → ℕ → Bool
exceeds none cap = false
exceeds (some bps) cap = ltb_ℤ (pos cap) bps

abbrev is_high_value : Option ℤ → Option ℤ → Bool
is_high_value none amount = false
is_high_value (some threshold) none = false
is_high_value (some threshold) (some amount) = leb_ℤ threshold amount

-- `slippage` and `amount` are what the route's readers find, `none` where they find no finite
-- number or throw. The header `X-MEV-Relay` is set where the mode is private.
unfoldable pub mev_protection : Reader → SafetyEnv → Option ℤ → Option ℤ → MevReply
mev_protection reader env slippage amount =
    let config = read_mev_protection_config reader env in
    let mode = degraded config.mode config.private_relay_url in
    let reply =
      MevReply.passed mode (is_private mode)
        (is_high_value (read_circuit_breaker_config reader env).high_value_usd_threshold amount) in
    if is_off mode
    then reply
    else if exceeds slippage config.max_slippage_bps
    then MevReply.slippage_exceeds_cap
    else reply
