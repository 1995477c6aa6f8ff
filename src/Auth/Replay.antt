-- ===== src/Auth/Replay.antt =====
-- What a session needs, and that one nonce yields one session.
use aether_dex.Prelude.{
  ℕ, ◌<◌, ◌≡◌, ◌≢◌, refl, sym, ap, ◌∙◌, arith, Bool, true, false, Option, none, some, String,
  eq_iff,
}
use aether_dex.Prelude.Dict.{Dict, get, put, get-put}
use aether_dex.Prelude.Result.{Result, ok, err, or_err-ok, demand-ok, ok-injective}
use aether_dex.Auth.{NonceStorage, no_nonce, consume, consume_record}
use aether_dex.Auth.Verify.{
  SiweMessage, SiweVerificationConfig, VerifyRequest, AuthSessionToken, SiweError, SiweLibrary,
  AuthState, Circumstances, is_recent, is_unexpired, is_begun, check_message, stored, nonce_of,
  use_nonce, create_session, after_consume, after_checks, verify_and_create_session,
}

-- The message behind a session.
pub record IsVerified (lib : SiweLibrary) (config : SiweVerificationConfig) (now : ℕ)
    (request : VerifyRequest) (m : SiweMessage) : Type 0 where
  pub parsed : lib.parse request.message ≡ some m
  pub same_domain : m.domain ≡ config.domain
  pub same_uri : m.uri ≡ config.uri
  pub same_chain : m.chain_id ≡ config.chain_id
  pub recent : is_recent now m.issued_at ≡ true
  pub unexpired : is_unexpired now m.expiration_time ≡ true
  pub begun : is_begun now m.not_before ≡ true
  pub signed : lib.verify_message m.address request.message request.signature ≡ some true

pub check_message-IsVerified :
    (lib : SiweLibrary) (config : SiweVerificationConfig) (now : ℕ) (request : VerifyRequest)
    (m : SiweMessage)
    → check_message lib config now request ≡ ok m
    → IsVerified lib config now request m
unfolding check_message
check_message-IsVerified lib config now request m h =
    let (n, parsed, h1) = or_err-ok _ _ _ _ h in
    let (origin, h2) = demand-ok _ _ _ _ h1 in
    let (chain, h3) = demand-ok _ _ _ _ h2 in
    let (recent, h4) = demand-ok _ _ _ _ h3 in
    let (unexpired, h5) = demand-ok _ _ _ _ h4 in
    let (begun, h6) = demand-ok _ _ _ _ h5 in
    let (valid, signed, h7) = or_err-ok _ _ _ _ h6 in
    let (genuine, h8) = demand-ok _ _ _ _ h7 in
    rw (sym (ok-injective n m h8)) (record {
      parsed = parsed;
      same_domain = ground (arith, eq_iff n.domain config.domain);
      same_uri = ground (arith, eq_iff n.uri config.uri);
      same_chain = ground arith;
      recent = recent;
      unexpired = unexpired;
      begun = begun;
      signed = signed ∙ ap some genuine;
    })

some-injective {ℓ} : {A : Type ℓ} (a b : A) → (let o : Option A = some a in o ≡ some b) → a ≡ b
some-injective a b h = cc

none_ne_some : (e : ℕ) → (let o : Option ℕ = none in o ≢ some e)
none_ne_some e h = cc

consume-took :
    (now : ℕ) (s : NonceStorage) (o : Option ℕ)
    → s.expires_at ≡ o
    → (consume_record now s o).0 ≡ true
    → (e : ℕ) × (o ≡ some e) × (now < e) × ((consume_record now s o).1 ≡ no_nonce)
consume-took now s none h took = cc
consume-took now s (some e) h took = (e, refl, ground arith, refl)

create_session-nonces :
    (at : Circumstances) (m : SiweMessage) (s : AuthState)
    → (create_session at m s).1.nonces ≡ s.nonces
create_session-nonces at m s = ground arith

after_consume-took :
    (at : Circumstances) (m : SiweMessage) (s : AuthState) (q : Bool × NonceStorage)
    (token : AuthSessionToken)
    → (after_consume at m s q).0 ≡ ok token
    → (q.0 ≡ true) × ((after_consume at m s q).1.nonces ≡ put s.nonces m.nonce q.1)
after_consume-took at m s (false, n) token h = cc
after_consume-took at m s (true, n) token h =
    (refl, create_session-nonces at m (record s { nonces = put s.nonces m.nonce n }))

-- What a session takes of the nonces: a nonce that was there and had not expired, and is gone.
pub record Took (at : Circumstances) (m : SiweMessage) (s s' : AuthState) : Type 0 where
  pub expiry : ℕ
  pub there : (nonce_of s m.nonce).expires_at ≡ some expiry
  pub unexpired : at.consumed_at < expiry
  pub gone : (nonce_of s' m.nonce).expires_at ≡ none

get-put_same :
    (table : Dict NonceStorage) (k : String) (v : NonceStorage) → get (put table k v) k ≡ some v
get-put_same table k v = ground (arith, get-put table k k v, eq_iff k k)

use_nonce-Took :
    (at : Circumstances) (m : SiweMessage) (s : AuthState) (down : Bool) (token : AuthSessionToken)
    → (use_nonce at m s down).0 ≡ ok token
    → Took at m s (use_nonce at m s down).1
unfolding consume
use_nonce-Took at m s true token h = cc
use_nonce-Took at m s false token h =
    let n = nonce_of s m.nonce in
    let q = consume_record at.consumed_at n n.expires_at in
    let (took, nonces) = after_consume-took at m s q token h in
    let (e, there, unexpired, emptied) = consume-took at.consumed_at n n.expires_at refl took in
    record {
      expiry = e;
      there = there;
      unexpired = unexpired;
      gone =
          ap (λ t. (stored (get t m.nonce)).expires_at) nonces
          ∙ ap (λ o. (stored o).expires_at) (get-put_same s.nonces m.nonce q.1)
          ∙ ap (λ v. v.expires_at) emptied;
    }

after_checks-Took :
    (at : Circumstances) (r : Result SiweError SiweMessage) (s : AuthState)
    (token : AuthSessionToken)
    → (after_checks at r s).0 ≡ ok token
    → (m : SiweMessage) × (r ≡ ok m) × Took at m s (after_checks at r s).1
after_checks-Took at (err e) s token h = cc
after_checks-Took at (ok m) s token h = (m, refl, use_nonce-Took at m s at.nonce_down token h)

-- A session is created only for a message of the configured site and chain, issued within five
-- minutes of the clock, within its own times, signed by its address, whose nonce was there and had
-- not expired; and that nonce is gone then.
pub verify_and_create_session-IsVerified :
    (lib : SiweLibrary) (config : SiweVerificationConfig) (at : Circumstances)
    (request : VerifyRequest) (s : AuthState) (token : AuthSessionToken)
    → (verify_and_create_session lib config at request s).0 ≡ ok token
    → (m : SiweMessage) × IsVerified lib config at.checked_at request m
      × Took at m s (verify_and_create_session lib config at request s).1
unfolding verify_and_create_session
verify_and_create_session-IsVerified lib config at request s token h =
    let (m, checked, took) =
      after_checks-Took at (check_message lib config at.checked_at request) s token h in
    (m, check_message-IsVerified lib config at.checked_at request m checked, took)

-- After a session no request with a message of the same nonce, the same one or another, gets a
-- session from the state that it left.
pub verify_and_create_session-replay :
    (lib : SiweLibrary) (config : SiweVerificationConfig) (at later : Circumstances)
    (request again : VerifyRequest) (s : AuthState) (token other : AuthSessionToken)
    (m n : SiweMessage)
    → (verify_and_create_session lib config at request s).0 ≡ ok token
    → lib.parse request.message ≡ some m
    → lib.parse again.message ≡ some n
    → n.nonce ≡ m.nonce
    → (verify_and_create_session lib config later again
        (verify_and_create_session lib config at request s).1).0
      ≢ ok other
verify_and_create_session-replay lib config at later request again s token other m n h pm pn same
      k =
    let s' = (verify_and_create_session lib config at request s).1 in
    let (m', first, took) = verify_and_create_session-IsVerified lib config at request s token h in
    let (n', second, taken) =
      verify_and_create_session-IsVerified lib config later again s' other k in
    let em : m' ≡ m = some-injective m' m (sym first.parsed ∙ pm) in
    let en : n' ≡ n = some-injective n' n (sym second.parsed ∙ pn) in
    let nonces : n'.nonce ≡ m'.nonce = ap (λ v. v.nonce) en ∙ same ∙ sym (ap (λ v. v.nonce) em) in
    none_ne_some taken.expiry
      (sym took.gone ∙ ap (λ x. (nonce_of s' x).expires_at) (sym nonces) ∙ taken.there)
