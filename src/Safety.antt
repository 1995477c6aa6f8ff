-- ===== src/Safety.antt =====
-- What guards the API's mutation routes: the configuration (apps/api/src/lib/safety-config.ts), the
-- rate limit, the circuit breaker and the slippage cap (apps/api/src/middleware).
pub mod RateLimit
pub mod Window
pub mod Breaker
pub mod Circuit
pub mod Failures
pub mod Mev
mod Tests
use aether_dex.Prelude.{ℕ, Bool, Option, none, some, String, max, ltb, str_eq, if◌then◌else◌}
use aether_dex.Prelude.Int.{ℤ, pos, pos_part, ltb_ℤ}

-- What the configuration reads with the JavaScript runtime: `parseInt` of the trimmed text, where it
-- is finite, `parseFloat` as a threshold in the caller's unit, where it is finite, and the relay's
-- address where it starts with `http://` or `https://`.
pub record Reader : Type 0 where
  pub parse_int : String → Option ℤ
  pub parse_float : String → Option ℤ
  pub http_url : String → Option String

pub record SafetyEnv : Type 0 where
  pub rate_limit_max : Option String
  pub rate_limit_window_seconds : Option String
  pub circuit_failure_threshold : Option String
  pub circuit_cooldown_seconds : Option String
  pub high_value_usd_threshold : Option String
  pub mev_protection_mode : Option String
  pub mev_max_slippage_bps : Option String
  pub private_tx_relay_url : Option String

pub record RateLimitConfig : Type 0 where
  pub max_requests : ℕ
  pub window_seconds : ℕ

pub record CircuitBreakerConfig : Type 0 where
  pub failure_threshold : ℕ
  pub cooldown_seconds : ℕ
  pub high_value_usd_threshold : Option ℤ

pub data MevProtectionMode : Type 0 where
  off client private_relay : MevProtectionMode

pub record MevProtectionConfig : Type 0 where
  pub mode : MevProtectionMode
  pub max_slippage_bps : ℕ
  pub private_relay_url : Option String

-- On whole seconds, which are all that the code passes.
unfoldable pub kv_ttl_seconds : ℕ → ℕ
kv_ttl_seconds seconds = max 60 seconds

module _ (reader : Reader) where
  abbrev positive_or : ℕ → Option ℤ → ℕ
  positive_or fallback none = fallback
  positive_or fallback (some n) = if ltb_ℤ (pos 0) n then pos_part n else fallback

  unfoldable pub parse_positive_int : Option String → ℕ → ℕ
  parse_positive_int none fallback = fallback
  parse_positive_int (some raw) fallback = positive_or fallback (reader.parse_int raw)

  abbrev positive_only : Option ℤ → Option ℤ
  positive_only none = none
  positive_only (some n) = if ltb_ℤ (pos 0) n then some n else none

  -- The float without its fraction.
  unfoldable pub parse_positive_float : Option String → Option ℤ
  parse_positive_float none = none
  parse_positive_float (some raw) = positive_only (reader.parse_float raw)

  unfoldable pub read_rate_limit_config : SafetyEnv → RateLimitConfig
  read_rate_limit_config env = record {
    max_requests = parse_positive_int env.rate_limit_max 60;
    window_seconds = parse_positive_int env.rate_limit_window_seconds 60;
  }

  unfoldable pub read_circuit_breaker_config : SafetyEnv → CircuitBreakerConfig
  read_circuit_breaker_config env = record {
    failure_threshold = parse_positive_int env.circuit_failure_threshold 5;
    cooldown_seconds = parse_positive_int env.circuit_cooldown_seconds 30;
    high_value_usd_threshold = parse_positive_float env.high_value_usd_threshold;
  }

  abbrev mode_of : Option String → MevProtectionMode
  mode_of none = MevProtectionMode.client
  mode_of (some raw) =
      if str_eq raw "off"
      then MevProtectionMode.off
      else if str_eq raw "private"
      then MevProtectionMode.private_relay
      else MevProtectionMode.client

  abbrev relay_of : Option String → Option String
  relay_of none = none
  relay_of (some raw) = reader.http_url raw

  unfoldable pub read_mev_protection_config : SafetyEnv → MevProtectionConfig
  read_mev_protection_config env = record {
    mode = mode_of env.mev_protection_mode;
    max_slippage_bps = parse_positive_int env.mev_max_slippage_bps 500;
    private_relay_url = relay_of env.private_tx_relay_url;
  }
