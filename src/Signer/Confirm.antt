-- ===== src/Signer/Confirm.antt =====
-- The queue's handler with the keeper's own relayer: what stands behind an order that it marks
-- executed.
use aether_dex.Prelude.{◌≡◌, true, false, Option, none, some, String}
use aether_dex.Prelude.Result.{Result}
use aether_dex.Orders.{OrderStore}
use aether_dex.Orders.Evaluate.{
  SendTransactionInput, SubmissionResult, QueueEnv, Clock, TpSlEvaluateMessage, evaluate,
}
use aether_dex.Signer.{SignerRuntime, read_keeper_signer_config}
use aether_dex.Signer.Send.{
  some_log, is_executed_log, send_transaction, create_keeper_signer, outcome_of,
}
use aether_dex.Signer.World.{KeeperTransactionReceipt, World}

-- The relayer as the handler calls it: a signer that is new for each message.
unfoldable pub keeper_send :
    SignerRuntime → QueueEnv → World → SendTransactionInput → SubmissionResult
keeper_send rt env world input =
    let config = read_keeper_signer_config rt env.signer in
    outcome_of (send_transaction rt config (create_keeper_signer config) world none input).answer

-- A receipt of the hash that did not revert and holds the event of an executed order, from the
-- contract that was called.
pub record Executed (rt : SignerRuntime) (world : World) (target hash : String) : Type 0 where
  pub wait : String → Option KeeperTransactionReceipt
  pub waits : world.wait_receipt ≡ some wait
  pub receipt : KeeperTransactionReceipt
  pub mined : wait hash ≡ some receipt
  pub succeeded : receipt.reverted ≡ false
  pub logged : some_log rt (is_executed_log rt target) receipt.logs ≡ true

-- What stands behind a hash: the handler sent a transaction, and the transaction of that hash has a
-- receipt that executed an order on the contract that was called.
abbrev pub IsBehind :
    SignerRuntime → QueueEnv → World → Clock → TpSlEvaluateMessage → OrderStore → String → Type 0
IsBehind rt env world clock msg s hash =
    (input : SendTransactionInput) × ((evaluate rt.base env (keeper_send rt env world) clock msg
        s).1
      ≡ some input)
    × Executed rt world input.to hash
