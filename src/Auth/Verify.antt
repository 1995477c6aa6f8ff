-- ===== src/Auth/Verify.antt =====
-- `verifyAndCreateSession` (apps/api/src/auth/siwe.ts): the checks of the message, the nonce that it
-- consumes, and the session. The parser, the signature check and the random token are viem's, siwe's
-- and the runtime's, and parameters.
use aether_dex.Prelude.{
  ℕ, ◌+◌, Bool, true, false, ◌&&◌, Option, none, some, String, ◌==◌, leb, ltb, str_eq,
  if◌then◌else◌,
}
use aether_dex.Prelude.Dict.{Dict, get, put}
use aether_dex.Prelude.Result.{Result, ok, err, ◌>>=◌, or_err, demand}
use aether_dex.Auth.{NonceStorage, no_nonce, consume}

-- A parsed message; its times in milliseconds, where they are given and read as dates.
pub record SiweMessage : Type 0 where
  pub domain : String
  pub uri : String
  pub chain_id : ℕ
  pub address : String
  pub nonce : String
  pub issued_at : Option ℕ
  pub expiration_time : Option ℕ
  pub not_before : Option ℕ

pub record SiweVerificationConfig : Type 0 where
  pub domain : String
  pub uri : String
  pub chain_id : ℕ

pub record VerifyRequest : Type 0 where
  pub message : String
  pub signature : String

pub record SessionEntry : Type 0 where
  pub user_address : String
  pub issued_at : ℕ
  pub expires_at : ℕ
  pub chain_id : Option ℕ

pub record AuthSessionToken : Type 0 where
  pub token : String
  pub user_address : String
  pub expires_at : ℕ

pub data SiweError : Type 0 where
  invalid_format origin_mismatch chain_mismatch invalid_issued_at expired not_yet_valid : SiweError
  verification_failed invalid_signature nonce_failed invalid_nonce session_failed : SiweError

pub record SiweLibrary : Type 0 where
  -- `new SiweMessage(text)`, `none` where it throws.
  pub parse : String → Option SiweMessage
  -- `verifyMessage` for the address, the text and the signature, `none` where it throws.
  pub verify_message : String → String → String → Option Bool

pub record AuthState : Type 0 where
  pub nonces : Dict NonceStorage
  pub sessions : Dict SessionEntry

-- `Date.now()` at the checks, in the nonce's object and at the session; the random token; and which
-- of the two writes fails.
pub record Circumstances : Type 0 where
  pub checked_at : ℕ
  pub consumed_at : ℕ
  pub session_at : ℕ
  pub token : String
  pub nonce_down : Bool
  pub session_down : Bool

-- Five minutes.
abbrev pub issue_tolerance : ℕ
issue_tolerance = 300000

abbrev pub is_recent : ℕ → Option ℕ → Bool
is_recent now none = false
is_recent now (some t) = leb now (t + issue_tolerance) && leb t (now + issue_tolerance)

abbrev pub is_unexpired : ℕ → Option ℕ → Bool
is_unexpired now none = true
is_unexpired now (some t) = ltb now t

abbrev pub is_begun : ℕ → Option ℕ → Bool
is_begun now none = true
is_begun now (some t) = leb t now

unfoldable pub check_message :
    SiweLibrary → SiweVerificationConfig → ℕ → VerifyRequest → Result SiweError SiweMessage
check_message lib config now request = do
  m ← or_err SiweError.invalid_format (lib.parse request.message)
  _ ← demand SiweError.origin_mismatch (str_eq m.domain config.domain && str_eq m.uri config.uri)
  _ ← demand SiweError.chain_mismatch (m.chain_id == config.chain_id)
  _ ← demand SiweError.invalid_issued_at (is_recent now m.issued_at)
  _ ← demand SiweError.expired (is_unexpired now m.expiration_time)
  _ ← demand SiweError.not_yet_valid (is_begun now m.not_before)
  valid ←
      or_err SiweError.verification_failed
        (lib.verify_message m.address request.message request.signature)
  _ ← demand SiweError.invalid_signature valid
  ok m

abbrev pub stored : Option NonceStorage → NonceStorage
stored none = no_nonce
stored (some s) = s

abbrev pub nonce_of : AuthState → String → NonceStorage
nonce_of s nonce = stored (get s.nonces nonce)

-- `...(chainId ? { chainId } : {})`
abbrev pub nonzero : ℕ → Option ℕ
nonzero c = if c == 0 then none else some c

-- A day.
abbrev pub session_milliseconds : ℕ
session_milliseconds = 86400000

abbrev pub create_session :
    Circumstances → SiweMessage → AuthState → Result SiweError AuthSessionToken × AuthState
create_session at m s = if at.session_down then (err SiweError.session_failed, s) else (
  ok (record {
    token = at.token;
    user_address = m.address;
    expires_at = at.session_at + session_milliseconds;
  }),
  record s {
    sessions = put s.sessions at.token (record {
      user_address = m.address;
      issued_at = at.session_at;
      expires_at = at.session_at + session_milliseconds;
      chain_id = nonzero m.chain_id;
    });
  },
)

abbrev pub after_consume :
    Circumstances
    → SiweMessage
    → AuthState
    → Bool × NonceStorage
    → Result SiweError AuthSessionToken × AuthState
after_consume at m s (false, nonce) =
    (err SiweError.invalid_nonce, record s { nonces = put s.nonces m.nonce nonce })
after_consume at m s (true, nonce) =
    create_session at m (record s { nonces = put s.nonces m.nonce nonce })

-- Whether the nonce's object can be reached, and what it answers.
abbrev pub use_nonce :
    Circumstances → SiweMessage → AuthState → Bool → Result SiweError AuthSessionToken × AuthState
use_nonce at m s true = (err SiweError.nonce_failed, s)
use_nonce at m s false = after_consume at m s (consume at.consumed_at (nonce_of s m.nonce))

abbrev pub after_checks :
    Circumstances
    → Result SiweError SiweMessage
    → AuthState
    → Result SiweError AuthSessionToken × AuthState
after_checks at (err e) s = (err e, s)
after_checks at (ok m) s = use_nonce at m s at.nonce_down

unfoldable pub verify_and_create_session :
    SiweLibrary
    → SiweVerificationConfig
    → Circumstances
    → VerifyRequest
    → AuthState
    → Result SiweError AuthSessionToken × AuthState
verify_and_create_session lib config at request s =
    after_checks at (check_message lib config at.checked_at request) s
