-- ===== src/Signer.antt =====
-- The keeper's relayer (apps/api/src/lib/keeper-signer.ts): how it reads its configuration, and the
-- errors that it throws.
pub mod World
pub mod Send
pub mod Checks
pub mod Guard
pub mod Confirm
pub mod Nonces
mod Tests
use aether_dex.Prelude.{ℕ, Bool, true, false, Option, none, some, String, str_eq, if◌then◌else◌}
use aether_dex.Prelude.Chain.{◌>>=◌}
use aether_dex.Prelude.Int.{ℤ}
use aether_dex.Prelude.Text.{is_hex_key}
use aether_dex.Safety.{Reader, parse_positive_float}
use aether_dex.Orders.Trigger.{Runtime, KeeperSignerEnv, parse_chain_id, resolve_tpsl_address}

-- What the relayer calls of the JavaScript runtime and of viem, beside what the orders call.
pub record SignerRuntime : Type 0 where
  pub base : Runtime
  pub reader : Reader
  pub to_lower : String → String
  -- `trimmed.startsWith("0x") ? trimmed.slice(2) : trimmed`
  pub without_prefix : String → String
  -- `new URL(s).protocol`, `none` where it throws.
  pub url_protocol : String → Option String
  -- `parseEther(s)` and `parseGwei(String(n))`, `none` where they throw.
  pub parse_ether : String → Option ℕ
  pub parse_gwei : ℤ → Option ℕ
  -- `keccak256(toBytes(s))`
  pub keccak : String → String

pub record KeeperSignerConfig : Type 0 where
  pub chain_id : Option ℕ
  -- The digits behind `0x`.
  pub private_key : Option String
  pub rpc_url : Option String
  pub max_gas_price_gwei : Option ℤ
  pub min_balance_wei : ℕ
  pub private_relay_url : Option String
  pub allow_public_submission : Bool
  pub tpsl_address : Option String

-- `parseEther("0.05")`
abbrev pub default_min_balance : ℕ
default_min_balance = 50000000000000000

-- What is thrown. `other` is an error of no class of the relayer's own.
pub data KeeperError : Type 0 where
  rpc other : KeeperError
  insufficient_balance gas_price_exceeded chain_mismatch : ℕ → ℕ → KeeperError
  -- The flag is `retryable`.
  relay : Bool → KeeperError
  transaction : String → KeeperError

unfoldable pub is_transient_keeper_error : KeeperError → Bool
is_transient_keeper_error KeeperError.rpc = true
is_transient_keeper_error (KeeperError.relay retryable) = retryable
is_transient_keeper_error _ = false

abbrev ether_or : ℕ → Option ℕ → ℕ
ether_or fallback none = fallback
ether_or fallback (some wei) = wei

abbrev text_or_none : String → Option String
text_or_none String.[] = none
text_or_none s = some s

module _ (rt : SignerRuntime) where
  unfoldable pub parse_hex_private_key : Option String → Option String
  parse_hex_private_key none = none
  parse_hex_private_key (some raw) =
      let candidate = rt.without_prefix (rt.base.trim raw) in
      if is_hex_key candidate then some (rt.to_lower candidate) else none

  abbrev pub https_only : String → Option String → Option String
  https_only url none = none
  https_only url (some protocol) = if str_eq protocol "https:" then some url else none

  unfoldable pub parse_relay_url : Option String → Option String
  parse_relay_url raw = do
    text ← raw
    url ← text_or_none (rt.base.trim text)
    https_only url (rt.url_protocol url)

  unfoldable pub is_flag_enabled : Option String → Bool
  is_flag_enabled none = false
  is_flag_enabled (some raw) = str_eq (rt.to_lower (rt.base.trim raw)) "true"

  -- `parseEther` of the text where `parsePositiveFloat` takes it.
  abbrev min_balance_of : Option String → Option ℤ → ℕ
  min_balance_of none float = default_min_balance
  min_balance_of (some raw) none = default_min_balance
  min_balance_of (some raw) (some float) =
      ether_or default_min_balance (rt.parse_ether (rt.base.trim raw))

  unfoldable pub parse_min_balance_wei : Option String → ℕ
  parse_min_balance_wei raw = min_balance_of raw (parse_positive_float rt.reader raw)

  abbrev rpc_url_of : Option String → Option String
  rpc_url_of none = none
  rpc_url_of (some raw) = text_or_none (rt.base.trim raw)

  unfoldable pub read_keeper_signer_config : KeeperSignerEnv → KeeperSignerConfig
  read_keeper_signer_config env = record {
    chain_id = parse_chain_id env.chain_id;
    private_key = parse_hex_private_key env.keeper_private_key;
    rpc_url = rpc_url_of env.keeper_rpc_url;
    max_gas_price_gwei = parse_positive_float rt.reader env.keeper_max_gas_price_gwei;
    min_balance_wei = parse_min_balance_wei env.keeper_min_balance_eth;
    private_relay_url = parse_relay_url env.private_tx_relay_url;
    allow_public_submission = is_flag_enabled env.keeper_allow_public_submission;
    tpsl_address = resolve_tpsl_address rt.base env;
  }
