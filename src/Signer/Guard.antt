-- ===== src/Signer/Guard.antt =====
-- What the relayer checks before a transaction leaves it, from the environment on.
use aether_dex.Prelude.{ℕ, ◌≡◌, true, Option, none, some, String}
use aether_dex.Prelude.Result.{Result}
use aether_dex.Orders.Trigger.{KeeperSignerEnv, parse_chain_id}
use aether_dex.Orders.Evaluate.{SendTransactionInput}
use aether_dex.Signer.{SignerRuntime, parse_relay_url, is_flag_enabled, read_keeper_signer_config}
use aether_dex.Signer.Checks.{Checked}
use aether_dex.Signer.Send.{send_transaction}
use aether_dex.Signer.World.{Transaction, World, Wire, Attempt, KeeperSigner}

-- The way a transaction takes: to the configured relay, over https; or in public, where no relay is
-- configured and the flag asks for it.
pub data Permitted (rt : SignerRuntime) (env : KeeperSignerEnv) (chain_id : ℕ) : Wire → Type 0 where
  private :
      (url : String) (tx : Transaction)
      → parse_relay_url rt env.private_tx_relay_url ≡ some url
      → rt.url_protocol url ≡ some "https:"
      → tx.chain_id ≡ some chain_id
      → Permitted rt env chain_id (Wire.posted url tx)
  opted_in :
      (tx : Transaction)
      → parse_relay_url rt env.private_tx_relay_url ≡ none
      → is_flag_enabled rt env.keeper_allow_public_submission ≡ true
      → Permitted rt env chain_id (Wire.broadcast tx)

abbrev pub wire_transaction : Wire → Transaction
wire_transaction (Wire.posted url tx) = tx
wire_transaction (Wire.broadcast tx) = tx

-- What holds of all that leaves the keeper.
pub record Guarded (rt : SignerRuntime) (env : KeeperSignerEnv) (world : World)
    (next_nonce : Option ℕ) (input : SendTransactionInput) (wire : Wire) : Type 0 where
  pub chain_id : ℕ
  pub chain : parse_chain_id env.chain_id ≡ some chain_id
  pub channel : Permitted rt env chain_id wire
  -- A request that names a chain names the configured one.
  pub asked : (named : ℕ) → input.chain_id ≡ some named → named ≡ chain_id
  pub checked :
      Checked rt
        (read_keeper_signer_config rt env)
        chain_id
        world
        next_nonce
        input
        (wire_transaction wire)

module _ (rt : SignerRuntime) (env : KeeperSignerEnv) (world : World) (next_nonce : Option ℕ)
    (input : SendTransactionInput) where
  abbrev attempt_with : KeeperSigner → Attempt
  attempt_with signer =
      send_transaction rt (read_keeper_signer_config rt env) signer world next_nonce input
