-- ===== src/Auth/Session.antt =====
-- What a session is good for: `authMiddleware` (apps/api/src/auth/middleware.ts) and `deleteSession`
-- (apps/api/src/auth/siwe.ts), on the sessions that a sign-in writes.
use aether_dex.Prelude.{
  ℕ, ◌+◌, ◌≤◌, ◌<◌, ◌≡◌, ◌≢◌, refl, sym, ap, ◌∙◌, arith, Bool, true, false, ◌&&◌, Option, none,
  some, String, ◌==◌, ltb, leb, eq_iff, if◌then◌else◌, branch_on,
}
use aether_dex.Prelude.Dict.{Dict, get, put, remove, get-put, get-remove}
use aether_dex.Prelude.Result.{Result, ok, err, ok-injective}
use aether_dex.Prelude.Text.{is_hex_address}
use aether_dex.Auth.{NonceStorage, consume}
use aether_dex.Auth.Verify.{
  SiweMessage, SiweVerificationConfig, VerifyRequest, SessionEntry, AuthSessionToken, SiweError,
  SiweLibrary, AuthState, Circumstances, issue_tolerance, nonzero, session_milliseconds,
  check_message, nonce_of, use_nonce, create_session, after_consume, after_checks,
  verify_and_create_session,
}
use aether_dex.Auth.Replay.{check_message-IsVerified}

-- `session.chainId !== configuredChainId`, where the configured one is a number.
abbrev is_on_chain : Option ℕ → Option ℕ → Bool
is_on_chain (some configured) (some c) = c == configured
is_on_chain _ _ = false

-- The checks of a session. `Date.now()` is read for each of two of them.
is_valid_session : Option ℕ → ℕ → ℕ → SessionEntry → Bool
is_valid_session configured first_now second_now session =
    is_hex_address session.user_address
    && leb session.issued_at (first_now + issue_tolerance)
    && ltb session.issued_at session.expires_at
    && ltb second_now session.expires_at
    && is_on_chain configured session.chain_id

abbrev attach :
    Option ℕ
    → ℕ
    → ℕ
    → String
    → AuthState
    → Option SessionEntry
    → Option (SessionEntry × String) × AuthState
attach configured first_now second_now token s none = (none, s)
attach configured first_now second_now token s (some session) =
    if is_valid_session configured first_now second_now session
    then (some (session, token), s)
    else (none, record s { sessions = remove s.sessions token })

-- The session that the request gets, and the state. The token is `none` where the header is missing,
-- is no `Bearer`, or holds nothing.
pub auth_middleware :
    Option ℕ → ℕ → ℕ → Option String → AuthState → Option (SessionEntry × String) × AuthState
auth_middleware configured first_now second_now none s = (none, s)
auth_middleware configured first_now second_now (some String.[]) s = (none, s)
auth_middleware configured first_now second_now (some token) s =
    attach configured first_now second_now token s (get s.sessions token)

pub delete_session : String → AuthState → AuthState
delete_session token s = record s { sessions = remove s.sessions token }

-- The entry of a session.
abbrev session_of : Circumstances → SiweMessage → SessionEntry
session_of at m = record {
  user_address = m.address;
  issued_at = at.session_at;
  expires_at = at.session_at + session_milliseconds;
  chain_id = nonzero m.chain_id;
}

-- What a sign-in leaves of its session.
record Holds (at : Circumstances) (m : SiweMessage) (s : AuthState) (token : AuthSessionToken)
    : Type 0 where
  entry : get s.sessions at.token ≡ some (session_of at m)
  named : token.token ≡ at.token
  address : token.user_address ≡ m.address
  expiry : token.expires_at ≡ at.session_at + session_milliseconds

get-put_session :
    (table : Dict SessionEntry) (k : String) (v : SessionEntry) → get (put table k v) k ≡ some v
get-put_session table k v = ground (arith, get-put table k k v, eq_iff k k)

get-removed :
    (table : Dict SessionEntry) (k : String)
    → (let nothing : Option SessionEntry = none in get (remove table k) k ≡ nothing)
get-removed table k = ground (arith, get-remove table k k, eq_iff k k)

create_session-Holds :
    (at : Circumstances) (m : SiweMessage) (s : AuthState) (token : AuthSessionToken)
    → (create_session at m s).0 ≡ ok token
    → Holds at m (create_session at m s).1 token
create_session-Holds at m s token =
    branch_on
      (λ (r : Result SiweError AuthSessionToken × AuthState). r.0 ≡ ok token → Holds at m r.1 token)
      at.session_down _ _ (λ down h. cc)
      (λ up h.
        let same = ok-injective _ token h in
        record {
          entry = get-put_session s.sessions at.token (session_of at m);
          named = sym (ap (λ (t : AuthSessionToken). t.token) same);
          address = sym (ap (λ (t : AuthSessionToken). t.user_address) same);
          expiry = sym (ap (λ (t : AuthSessionToken). t.expires_at) same);
        })

after_consume-Holds :
    (at : Circumstances) (m : SiweMessage) (s : AuthState) (q : Bool × NonceStorage)
    (token : AuthSessionToken)
    → (after_consume at m s q).0 ≡ ok token
    → Holds at m (after_consume at m s q).1 token
after_consume-Holds at m s (false, n) token h = cc
after_consume-Holds at m s (true, n) token h =
    create_session-Holds at m (record s { nonces = put s.nonces m.nonce n }) token h

use_nonce-Holds :
    (at : Circumstances) (m : SiweMessage) (s : AuthState) (down : Bool) (token : AuthSessionToken)
    → (use_nonce at m s down).0 ≡ ok token
    → Holds at m (use_nonce at m s down).1 token
use_nonce-Holds at m s true token h = cc
use_nonce-Holds at m s false token h =
    after_consume-Holds at m s (consume at.consumed_at (nonce_of s m.nonce)) token h

after_checks-Holds :
    (at : Circumstances) (r : Result SiweError SiweMessage) (s : AuthState)
    (token : AuthSessionToken)
    → (after_checks at r s).0 ≡ ok token
    → (m : SiweMessage) × (r ≡ ok m) × Holds at m (after_checks at r s).1 token
after_checks-Holds at (err e) s token h = cc
after_checks-Holds at (ok m) s token h = (m, refl, use_nonce-Holds at m s at.nonce_down token h)

found-attached :
    (configured : Option ℕ) (first_now second_now : ℕ) (token : String) (s : AuthState)
    (session : SessionEntry)
    → token ≢ ""
    → get s.sessions token ≡ some session
    → is_valid_session configured first_now second_now session ≡ true
    → auth_middleware configured first_now second_now (some token) s ≡ (some (session, token), s)
unfolding auth_middleware
found-attached configured first_now second_now String.[] s session named found valid =
    absurd (named refl)
found-attached configured first_now second_now (String.◌∷◌ c cs) s session named found valid =
    rw (found, valid) refl

-- No session is attached for a token that is deleted.
deleted-unattached :
    (configured : Option ℕ) (first_now second_now : ℕ) (token : String) (s : AuthState)
    → (auth_middleware configured first_now second_now (some token) (delete_session token s)).0
      ≡ none
unfolding auth_middleware delete_session
deleted-unattached configured first_now second_now String.[] s = refl
deleted-unattached configured first_now second_now (String.◌∷◌ c cs) s =
    rw (get-removed s.sessions (String.◌∷◌ c cs)) refl

session-IsValid :
    (at : Circumstances) (m : SiweMessage) (chain first_now second_now : ℕ)
    → is_hex_address m.address ≡ true
    → 0 < chain
    → m.chain_id ≡ chain
    → at.session_at ≤ first_now + issue_tolerance
    → second_now < at.session_at + session_milliseconds
    → is_valid_session (some chain) first_now second_now (session_of at m) ≡ true
unfolding is_valid_session
session-IsValid at m chain first_now second_now hex positive same begun alive =
    rw (hex, same) (ground arith)

-- A sign-in that succeeds answers a token with which, until the token's expiry, the middleware
-- attaches a session of the same address and leaves the state as it is; once the session is deleted,
-- the middleware attaches none. This is for an address that is one in hexadecimal digits, a token that
-- is not empty, a configured chain that is not 0, and a clock that has not gone back by more than the
-- tolerance of five minutes.
pub verify_and_create_session-attached :
    (lib : SiweLibrary) (config : SiweVerificationConfig) (at : Circumstances)
    (request : VerifyRequest) (s : AuthState) (token : AuthSessionToken) (first_now second_now : ℕ)
    → is_hex_address token.user_address ≡ true
    → at.token ≢ ""
    → 0 < config.chain_id
    → at.session_at ≤ first_now + issue_tolerance
    → second_now < token.expires_at
    → (verify_and_create_session lib config at request s).0 ≡ ok token
    → (let after = (verify_and_create_session lib config at request s).1 in
        let authorize = λ (state : AuthState).
          auth_middleware (some config.chain_id) first_now second_now (some token.token) state in
        ((session : SessionEntry) × (session.user_address ≡ token.user_address)
          × (authorize after ≡ (some (session, token.token), after)))
        × ((authorize (delete_session token.token after)).0 ≡ none))
unfolding verify_and_create_session
verify_and_create_session-attached lib config at request s token first_now second_now hex named
      positive begun alive signed_in =
    let checked = check_message lib config at.checked_at request in
    let (m, is_m, holds) = after_checks-Holds at checked s token signed_in in
    let verified = check_message-IsVerified lib config at.checked_at request m is_m in
    let after = (after_checks at checked s).1 in
    let valid =
      session-IsValid at m config.chain_id first_now second_now
        (ap is_hex_address (sym holds.address) ∙ hex) positive verified.same_chain begun
        (ground (arith, holds.expiry)) in
    let entry = ap (get after.sessions) holds.named ∙ holds.entry in
    let named_too : token.token ≢ "" = λ e. named (sym holds.named ∙ e) in
    (
      (
        session_of at m,
        sym holds.address,
        found-attached (some config.chain_id) first_now second_now token.token after
            (session_of at m) named_too entry valid,
      ),
      deleted-unattached (some config.chain_id) first_now second_now token.token after,
    )
