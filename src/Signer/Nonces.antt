-- ===== src/Signer/Nonces.antt =====
-- The nonces of the transactions that one signer sends.
use aether_dex.Prelude.{
  ℕ, ◌+◌, ◌≤◌, ◌≡◌, refl, sym, arith, Option, none, some, String, List, [], ◌∷◌,
}
use aether_dex.Prelude.Result.{Result, ok, err, or_err}
use aether_dex.Orders.Evaluate.{SendTransactionInput}
use aether_dex.Signer.{SignerRuntime, KeeperSignerConfig, KeeperError}
use aether_dex.Signer.Checks.{preflight-Checked}
use aether_dex.Signer.Send.{
  nonce_from, preflight, sign_for_relay, relay_answer, sent_attempt, post_signed, relay_prepared,
  public_prepared, send_transaction,
}
use aether_dex.Signer.World.{SubmissionChannel, Transaction, World, Wire, Attempt, KeeperSigner}

-- A call, with the world as it is by then.
pub record Call : Type 0 where
  pub world : World
  pub input : SendTransactionInput

abbrev accepted_then : Option ℕ → List ℕ → List ℕ
accepted_then none nonces = nonces
accepted_then (some n) nonces = n ∷ nonces

-- The nonces that are accepted of calls that the lock runs in turn.
unfoldable pub accepted_nonces :
    SignerRuntime → KeeperSignerConfig → KeeperSigner → Option ℕ → List Call → List ℕ
accepted_nonces rt config signer next [] = []
accepted_nonces rt config signer next (call ∷ calls) =
    let a = send_transaction rt config signer call.world next call.input in
    accepted_then a.accepted (accepted_nonces rt config signer a.next_nonce calls)

-- Each number is above the one before it, and the first is not below the bound.
abbrev pub IncreasingFrom : ℕ → List ℕ → Type 0
IncreasingFrom bound [] = Unit
IncreasingFrom bound (n ∷ ns) = (bound ≤ n) × IncreasingFrom (n + 1) ns

-- The nonce that the signer remembers, or no bound yet.
abbrev floor_of : Option ℕ → ℕ
floor_of none = 0
floor_of (some n) = n

-- A call leaves what the signer remembers, or it accepts a nonce that is not below it and remembers
-- the next.
data Moves (next : Option ℕ) (a : Attempt) : Type 0 where
  kept : a.accepted ≡ none → a.next_nonce ≡ next → Moves next a
  used :
      (n : ℕ) → a.accepted ≡ some n → a.next_nonce ≡ some (n + 1) → floor_of next ≤ n → Moves next a

nonce_from-floor : (next : Option ℕ) (pending : ℕ) → floor_of next ≤ nonce_from next pending
nonce_from-floor none pending = omega arith
nonce_from-floor (some n) pending = omega arith

module _ (rt : SignerRuntime) (world : World) (next : Option ℕ) where
  sent_attempt-Moves :
      (channel : SubmissionChannel) (wire : Wire) (tx : Transaction)
      (reply : Result KeeperError String)
      → floor_of next ≤ tx.nonce
      → Moves next (sent_attempt rt world next channel wire tx reply)
  sent_attempt-Moves channel wire tx (err e) h = kept refl refl
  sent_attempt-Moves channel wire tx (ok hash) h = used tx.nonce refl refl h

  post_signed-Moves :
      (url : String) (tx : Transaction) (signed : Result KeeperError String)
      → floor_of next ≤ tx.nonce
      → Moves next (post_signed rt world next url tx signed)
  post_signed-Moves url tx (err e) h = kept refl refl
  post_signed-Moves url tx (ok text) h =
      sent_attempt-Moves SubmissionChannel.private_relay (Wire.posted url tx) tx
        (relay_answer rt (world.fetch url text)) h

  relay_prepared-Moves :
      (url : String) (r : Result KeeperError Transaction)
      → ((tx : Transaction) → r ≡ ok tx → floor_of next ≤ tx.nonce)
      → Moves next (relay_prepared rt world next url r)
  relay_prepared-Moves url (err e) h = kept refl refl
  relay_prepared-Moves url (ok tx) h =
      post_signed-Moves url tx (sign_for_relay rt world url tx) (h tx refl)

  public_prepared-Moves :
      (r : Result KeeperError Transaction)
      → ((tx : Transaction) → r ≡ ok tx → floor_of next ≤ tx.nonce)
      → Moves next (public_prepared rt world next r)
  public_prepared-Moves (err e) h = kept refl refl
  public_prepared-Moves (ok tx) h =
      let public_tx : Transaction = record tx { chain_id = none } in
      sent_attempt-Moves SubmissionChannel.public_mempool (Wire.broadcast public_tx) public_tx
        (or_err KeeperError.rpc (world.wallet_send public_tx)) (h tx refl)

  preflight-floor :
      (config : KeeperSignerConfig) (chain_id : ℕ) (input : SendTransactionInput) (tx : Transaction)
      → preflight rt config chain_id world next input ≡ ok tx
      → floor_of next ≤ tx.nonce
  preflight-floor config chain_id input tx h =
      let checks = preflight-Checked rt config chain_id world next input tx h in
      rw checks.nonce (nonce_from-floor next checks.pending)

  send_transaction-Moves :
      (config : KeeperSignerConfig) (signer : KeeperSigner) (input : SendTransactionInput)
      → Moves next (send_transaction rt config signer world next input)
  unfolding send_transaction
  send_transaction-Moves config KeeperSigner.disabled input = kept refl refl
  send_transaction-Moves config (KeeperSigner.relaying chain_id url) input =
      relay_prepared-Moves url (preflight rt config chain_id world next input)
        (preflight-floor config chain_id input)
  send_transaction-Moves config (KeeperSigner.publishing chain_id) input =
      public_prepared-Moves (preflight rt config chain_id world next input)
        (preflight-floor config chain_id input)

kept-IncreasingFrom :
    (accepted after next : Option ℕ) (ns : List ℕ)
    → accepted ≡ none
    → after ≡ next
    → IncreasingFrom (floor_of after) ns
    → IncreasingFrom (floor_of next) (accepted_then accepted ns)
kept-IncreasingFrom none after next ns e same h = rw (sym same) h
kept-IncreasingFrom (some n) after next ns e same h = cc

used-IncreasingFrom :
    (accepted after next : Option ℕ) (ns : List ℕ) (n : ℕ)
    → accepted ≡ some n
    → after ≡ some (n + 1)
    → floor_of next ≤ n
    → IncreasingFrom (floor_of after) ns
    → IncreasingFrom (floor_of next) (accepted_then accepted ns)
used-IncreasingFrom none after next ns n e moved above h = cc
used-IncreasingFrom (some m) none next ns n e moved above h = cc
used-IncreasingFrom (some m) (some k) next ns n e moved above h =
    let same : m ≡ n = cc in let follows : m + 1 ≡ k = ground arith in (ground arith, rw follows h)

-- Whatever the world answers from call to call, the nonces that one signer has accepted grow
-- strictly: none is used twice, and none is below the nonce that the signer remembered at first.
pub accepted_nonces-IncreasingFrom :
    (rt : SignerRuntime) (config : KeeperSignerConfig) (signer : KeeperSigner) (next : Option ℕ)
    (calls : List Call)
    → IncreasingFrom (floor_of next) (accepted_nonces rt config signer next calls)
unfolding accepted_nonces
accepted_nonces-IncreasingFrom rt config signer next [] = tt
accepted_nonces-IncreasingFrom rt config signer next (call ∷ calls) =
    let a = send_transaction rt config signer call.world next call.input in
    let rest = accepted_nonces-IncreasingFrom rt config signer a.next_nonce calls in
    elim (send_transaction-Moves rt call.world next config signer call.input) [
      | kept unused same ↦ kept-IncreasingFrom a.accepted a.next_nonce next _ unused same rest
      | used n accepted moved above ↦
          used-IncreasingFrom a.accepted a.next_nonce next _ n accepted moved above rest
    ]
