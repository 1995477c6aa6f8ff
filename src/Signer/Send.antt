-- ===== src/Signer/Send.antt =====
-- `createKeeperSigner` (apps/api/src/lib/keeper-signer.ts). The lock `withSubmissionLock` runs the
-- calls of `sendTransaction` one after another, so a call is a function from the nonce that the
-- signer remembers to what the call comes to.
use aether_dex.Prelude.{
  ℕ, ◌+◌, max, Bool, true, false, not, ◌&&◌, ◌||◌, Option, none, some, List, [], ◌∷◌, String, ◌==◌,
  ltb, leb, str_eq, if◌then◌else◌,
}
use aether_dex.Prelude.Result.{Result, ok, err, ◌>>=◌, or_err, demand}
use aether_dex.Prelude.Int.{ℤ}
use aether_dex.Prelude.Text.{is_tx_hash}
use aether_dex.Orders.Evaluate.{SendTransactionInput, SubmissionResult}
use aether_dex.Signer.{SignerRuntime, KeeperSignerConfig, KeeperError, is_transient_keeper_error}
use aether_dex.Signer.World.{
  SubmissionChannel, Submission, Log, KeeperTransactionReceipt, Transaction, Response, World, Wire,
  Attempt, KeeperSigner,
}

-- `nextNonce ?? pendingNonce`, and the larger of it and the count.
abbrev pub nonce_from : Option ℕ → ℕ → ℕ
nonce_from none pending = max pending pending
nonce_from (some n) pending = max pending n

-- `input.gasLimit ?? await estimateGas(…)`
abbrev gas_of : World → SendTransactionInput → Option ℕ → Option ℕ
gas_of world input none = world.estimate_gas input
gas_of world input (some limit) = some limit

-- `input.chainId !== undefined && input.chainId !== chainId`
abbrev pub chain_allowed : ℕ → Option ℕ → Bool
chain_allowed chain_id none = true
chain_allowed chain_id (some asked) = asked == chain_id

abbrev mismatch : ℕ → Option ℕ → KeeperError
mismatch chain_id none = KeeperError.other
mismatch chain_id (some asked) = KeeperError.chain_mismatch chain_id asked

-- What the preflight reads of the node.
pub record Reading : Type 0 where
  pub nonce : ℕ
  pub balance : ℕ
  pub gas_price : ℕ
  pub gas : ℕ

unfoldable pub read_node : World → Option ℕ → SendTransactionInput → Result KeeperError Reading
read_node world next_nonce input = do
  pending ← or_err KeeperError.rpc world.pending_count
  balance ← or_err KeeperError.rpc world.balance
  price ← or_err KeeperError.rpc world.gas_price
  gas ← or_err KeeperError.rpc (gas_of world input input.gas_limit)
  ok (record {
    nonce = nonce_from next_nonce pending;
    balance = balance;
    gas_price = price;
    gas = gas;
  })

module _ (rt : SignerRuntime) where
  unfoldable pub check_ceiling : ℕ → Option ℤ → Result KeeperError (Unit {0})
  check_ceiling price none = ok tt
  check_ceiling price (some gwei) = do
    ceiling ← or_err KeeperError.other (rt.parse_gwei gwei)
    demand (KeeperError.gas_price_exceeded price ceiling) (not (ltb ceiling price))

  -- The transaction with the nonce, the gas and the price that the node's answers settle.
  unfoldable pub preflight :
      KeeperSignerConfig
      → ℕ
      → World
      → Option ℕ
      → SendTransactionInput
      → Result KeeperError Transaction
  preflight config chain_id world next_nonce input = do
    _ ← demand (mismatch chain_id input.chain_id) (chain_allowed chain_id input.chain_id)
    r ← read_node world next_nonce input
    _ ←
        demand (KeeperError.insufficient_balance r.balance config.min_balance_wei)
          (not (ltb r.balance config.min_balance_wei))
    _ ← check_ceiling r.gas_price config.max_gas_price_gwei
    ok (record {
      chain_id = some chain_id;
      to = input.to;
      data_hex = input.data_hex;
      value = input.value;
      nonce = r.nonce;
      gas = r.gas;
      gas_price = r.gas_price;
    })

  -- `ORDER_EXECUTED_TOPIC`
  abbrev pub executed_topic : String
  executed_topic = rt.keccak "OrderExecuted(uint256,address,uint256,uint256)"

  abbrev first_is_executed : List String → Bool
  first_is_executed [] = false
  first_is_executed (topic ∷ _) = str_eq (rt.to_lower topic) (rt.to_lower executed_topic)

  -- The receipt's log of an executed order, of the contract that was called.
  abbrev pub is_executed_log : String → Log → Bool
  is_executed_log target log =
      str_eq (rt.to_lower log.address) (rt.to_lower target) && first_is_executed log.topics

  abbrev pub some_log : (Log → Bool) → List Log → Bool
  some_log p [] = false
  some_log p (log ∷ logs) = p log || some_log p logs

  abbrev of_receipt : String → String → KeeperTransactionReceipt → Result KeeperError (Option Bool)
  of_receipt hash target receipt =
      if receipt.reverted
      then err (KeeperError.transaction hash)
      else ok (some (some_log (is_executed_log target) receipt.logs))

  unfoldable pub await_confirmation :
      Option (String → Option KeeperTransactionReceipt)
      → String
      → String
      → Result KeeperError (Option Bool)
  await_confirmation none hash target = ok none
  await_confirmation (some wait) hash target = do
    receipt ← or_err KeeperError.rpc (wait hash)
    of_receipt hash target receipt

  abbrev missing_hash : KeeperError
  missing_hash = KeeperError.relay false

  abbrev no_error : Option String → Bool
  no_error none = true
  no_error (some message) = false

  -- The hash in the relay's answer.
  unfoldable pub relay_answer : Option Response → Result KeeperError String
  relay_answer reply = do
    response ← or_err (KeeperError.relay true) reply
    _ ← demand (KeeperError.relay (leb 500 response.status)) response.is_ok
    payload ← or_err (KeeperError.relay false) response.body
    _ ← demand (KeeperError.relay false) (no_error payload.error)
    hash ← or_err missing_hash payload.result_text
    _ ← demand missing_hash (is_tx_hash hash)
    ok hash

  -- The transaction, signed, where the relay's URL is https.
  unfoldable pub sign_for_relay : World → String → Transaction → Result KeeperError String
  sign_for_relay world url tx = do
    signed ← or_err KeeperError.rpc (world.sign tx)
    protocol ← or_err (KeeperError.relay false) (rt.url_protocol url)
    _ ← demand (KeeperError.relay false) (str_eq protocol "https:")
    ok signed

  abbrev failed_before : Option ℕ → KeeperError → Attempt
  failed_before next_nonce e = record {
    answer = err e;
    sent = none;
    accepted = none;
    next_nonce = next_nonce;
  }

  abbrev pub answer_of :
      SubmissionChannel → String → Result KeeperError (Option Bool) → Result KeeperError Submission
  answer_of channel hash (err e) = err e
  answer_of channel hash (ok confirmed) = ok (Submission.submitted channel hash confirmed)

  -- A transaction is out, and a hash came back or an error.
  abbrev pub sent_attempt :
      World
      → Option ℕ
      → SubmissionChannel
      → Wire
      → Transaction
      → Result KeeperError String
      → Attempt
  sent_attempt world next_nonce channel wire tx (err e) = record {
    answer = err e;
    sent = some wire;
    accepted = none;
    next_nonce = next_nonce;
  }
  sent_attempt world next_nonce channel wire tx (ok hash) = record {
    answer = answer_of channel hash (await_confirmation world.wait_receipt hash tx.to);
    sent = some wire;
    accepted = some tx.nonce;
    next_nonce = some (tx.nonce + 1);
  }

  abbrev pub post_signed :
      World → Option ℕ → String → Transaction → Result KeeperError String → Attempt
  post_signed world next_nonce url tx (err e) = failed_before next_nonce e
  post_signed world next_nonce url tx (ok signed) =
      sent_attempt world next_nonce SubmissionChannel.private_relay (Wire.posted url tx) tx
        (relay_answer (world.fetch url signed))

  abbrev pub relay_prepared : World → Option ℕ → String → Result KeeperError Transaction → Attempt
  relay_prepared world next_nonce url (err e) = failed_before next_nonce e
  relay_prepared world next_nonce url (ok tx) =
      post_signed world next_nonce url tx (sign_for_relay world url tx)

  abbrev pub public_prepared : World → Option ℕ → Result KeeperError Transaction → Attempt
  public_prepared world next_nonce (err e) = failed_before next_nonce e
  public_prepared world next_nonce (ok tx) =
      let public_tx = record tx { chain_id = none } in
      sent_attempt world next_nonce SubmissionChannel.public_mempool (Wire.broadcast public_tx)
        public_tx (or_err KeeperError.rpc (world.wallet_send public_tx))

  unfoldable pub send_transaction :
      KeeperSignerConfig → KeeperSigner → World → Option ℕ → SendTransactionInput → Attempt
  send_transaction config KeeperSigner.disabled world next_nonce input = record {
    answer = ok Submission.submission_disabled;
    sent = none;
    accepted = none;
    next_nonce = next_nonce;
  }
  send_transaction config (KeeperSigner.relaying chain_id url) world next_nonce input =
      relay_prepared world next_nonce url (preflight config chain_id world next_nonce input)
  send_transaction config (KeeperSigner.publishing chain_id) world next_nonce input =
      public_prepared world next_nonce (preflight config chain_id world next_nonce input)

-- The channel, where the key and the node are configured.
abbrev pub channel_of : ℕ → Option String → Bool → KeeperSigner
channel_of chain_id (some url) allow_public = KeeperSigner.relaying chain_id url
channel_of chain_id none true = KeeperSigner.publishing chain_id
channel_of chain_id none false = KeeperSigner.disabled

abbrev pub signer_of :
    Option String → Option String → Option ℕ → Option String → Bool → KeeperSigner
signer_of (some key) (some rpc_url) (some chain_id) relay_url allow_public =
    channel_of chain_id relay_url allow_public
signer_of _ _ _ _ _ = KeeperSigner.disabled

-- `privateKeyToAccount` takes the key.
unfoldable pub create_keeper_signer : KeeperSignerConfig → KeeperSigner
create_keeper_signer config =
    signer_of config.private_key config.rpc_url config.chain_id config.private_relay_url
      config.allow_public_submission

-- The answer as the queue's handler takes it.
unfoldable pub outcome_of : Result KeeperError Submission → SubmissionResult
outcome_of (err e) = SubmissionResult.failed (is_transient_keeper_error e)
outcome_of (ok Submission.submission_disabled) = SubmissionResult.submission_disabled
outcome_of (ok (Submission.submitted channel hash confirmed)) =
    SubmissionResult.submitted hash confirmed
