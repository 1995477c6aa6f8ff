-- ===== src/Signer/World.antt =====
-- The relayer's transactions and answers (apps/api/src/lib/keeper-signer.ts), and the world that it
-- calls.
use aether_dex.Prelude.{ℕ, Bool, Option, List, String}
use aether_dex.Prelude.Result.{Result}
use aether_dex.Orders.Evaluate.{SendTransactionInput}
use aether_dex.Signer.{KeeperError}

pub data SubmissionChannel : Type 0 where
  private_relay public_mempool evaluation_only : SubmissionChannel

pub data Submission : Type 0 where
  -- The channel, the hash, and `confirmed`.
  submitted : SubmissionChannel → String → Option Bool → Submission
  submission_disabled : Submission

pub record Log : Type 0 where
  pub address : String
  pub topics : List String

pub record KeeperTransactionReceipt : Type 0 where
  pub reverted : Bool
  pub logs : List Log

-- A transaction as it is signed, or handed to the wallet.
pub record Transaction : Type 0 where
  -- `none` where the wallet's own chain is used.
  pub chain_id : Option ℕ
  pub to : String
  pub data_hex : String
  pub value : Option ℕ
  pub nonce : ℕ
  pub gas : ℕ
  pub gas_price : ℕ

-- The relay's answer as JSON-RPC: `error` where it is neither missing nor null, `result` where it
-- is a text.
pub record RelayPayload : Type 0 where
  pub error : Option String
  pub result_text : Option String

-- The body is `none` where it is no JSON object.
pub record Response : Type 0 where
  pub is_ok : Bool
  pub status : ℕ
  pub body : Option RelayPayload

-- The world during one call: what the node, viem's account and wallet, and the relay answer, `none`
-- where they throw. `wait_receipt` is missing from some clients.
pub record World : Type 0 where
  pub pending_count : Option ℕ
  pub balance : Option ℕ
  pub gas_price : Option ℕ
  pub estimate_gas : SendTransactionInput → Option ℕ
  pub wait_receipt : Option (String → Option KeeperTransactionReceipt)
  pub sign : Transaction → Option String
  pub fetch : String → String → Option Response
  pub wallet_send : Transaction → Option String

-- What left the keeper.
pub data Wire : Type 0 where
  -- The relay's URL, and the transaction that was signed for it.
  posted : String → Transaction → Wire
  broadcast : Transaction → Wire

-- What a call comes to: its answer, what was sent, the nonce of a transaction that was accepted,
-- and the nonce that the signer remembers then.
pub record Attempt : Type 0 where
  pub answer : Result KeeperError Submission
  pub sent : Option Wire
  pub accepted : Option ℕ
  pub next_nonce : Option ℕ

pub data KeeperSigner : Type 0 where
  disabled : KeeperSigner
  relaying : ℕ → String → KeeperSigner
  publishing : ℕ → KeeperSigner
