-- ===== src/Auth/Tests.antt =====
-- A sign-in, and its replay.
use aether_dex.Prelude.{
  ℕ, ◌+◌, ◌≤◌, ◌≡◌, ◌≢◌, refl, arith, true, false, none, some, [], ◌∷◌, String,
}
use aether_dex.Prelude.Dict.{get}
use aether_dex.Prelude.Result.{ok, ◌>>=◌, or_err, demand}
use aether_dex.Auth.{NonceStorage, consume}
use aether_dex.Auth.Session.{auth_middleware, delete_session, verify_and_create_session-attached}
use aether_dex.Prelude.Text.{is_hex_address}
use aether_dex.Auth.SingleUse.{NonceRequest, consumed, consumed-single}
use aether_dex.Auth.Verify.{
  SiweMessage, SiweVerificationConfig, VerifyRequest, AuthSessionToken, SiweLibrary, AuthState,
  Circumstances, SessionEntry, check_message, verify_and_create_session,
}
use aether_dex.Auth.Replay.{
  IsVerified, Took, verify_and_create_session-IsVerified, verify_and_create_session-replay,
}

abbrev fresh_nonce : NonceStorage
fresh_nonce = record { expires_at = some 900000; alarm_at = some 900000 }

consumed-single_example :
    consumed
      (NonceRequest.consumes 500000
        ∷ NonceRequest.alarms 600000
        ∷ NonceRequest.consumes 700000
        ∷ [])
      fresh_nonce
    ≤ 0 + 1
consumed-single_example =
    consumed-single
      (NonceRequest.consumes 500000
        ∷ NonceRequest.alarms 600000
        ∷ NonceRequest.consumes 700000
        ∷ [])
      fresh_nonce

abbrev greeting : SiweMessage
greeting = record {
  domain = "aetherdex.io";
  uri = "https://aetherdex.io";
  chain_id = 1;
  address = "0xuser";
  nonce = "abc";
  issued_at = some 500000;
  expiration_time = none;
  not_before = none;
}

abbrev library : SiweLibrary
library = record { parse = λ text. some greeting; verify_message = λ a m s. some true }

abbrev site : SiweVerificationConfig
site = record { domain = "aetherdex.io"; uri = "https://aetherdex.io"; chain_id = 1 }

abbrev circumstances : ℕ → String → Circumstances
circumstances now token = record {
  checked_at = now;
  consumed_at = now;
  session_at = now;
  token = token;
  nonce_down = false;
  session_down = false;
}

abbrev request : VerifyRequest
request = record { message = "hello"; signature = "0x01" }

abbrev before : AuthState
before = record { nonces = record { key = "abc"; value = fresh_nonce } ∷ []; sessions = [] }

abbrev session : AuthSessionToken
session = record { token = "t1"; user_address = "0xuser"; expires_at = 86900001 }

signs_in :
    (verify_and_create_session library site (circumstances 500001 "t1") request before).0
    ≡ ok session
unfolding verify_and_create_session check_message ◌>>=◌ or_err demand consume get
signs_in = refl

verify_and_create_session-IsVerified_example :
    (m : SiweMessage) × IsVerified library site 500001 request m
    × Took
        (circumstances 500001 "t1")
        m
        before
        (verify_and_create_session library site (circumstances 500001 "t1") request before).1
verify_and_create_session-IsVerified_example =
    verify_and_create_session-IsVerified library site (circumstances 500001 "t1") request before
      session signs_in

verify_and_create_session-replay_example :
    (verify_and_create_session library site
      (circumstances 500002 "t2")
      request
      (verify_and_create_session library site (circumstances 500001 "t1") request before).1).0
    ≢ ok session
verify_and_create_session-replay_example =
    verify_and_create_session-replay library site (circumstances 500001 "t1")
      (circumstances 500002 "t2") request request before session session greeting greeting signs_in
      refl refl refl

abbrev user : String
user = "0x00000000000000000000000000000000000000Aa"

abbrev user_library : SiweLibrary
user_library = record {
  parse = λ text. some (record greeting { address = user });
  verify_message = λ a m s. some true;
}

abbrev user_token : AuthSessionToken
user_token = record { token = "t1"; user_address = user; expires_at = 86900001 }

user_signs_in :
    (verify_and_create_session user_library site (circumstances 500001 "t1") request before).0
    ≡ ok user_token
unfolding verify_and_create_session check_message ◌>>=◌ or_err demand consume get
user_signs_in = refl

user-is_hex_address : is_hex_address user ≡ true
unfolding is_hex_address
user-is_hex_address = refl

abbrev user_state : AuthState
user_state =
    (verify_and_create_session user_library site (circumstances 500001 "t1") request before).1

verify_and_create_session-attached_example :
    ((session : SessionEntry) × (session.user_address ≡ user)
      × (auth_middleware (some 1) 600000 600001 (some "t1") user_state
          ≡ (some (session, "t1"), user_state)))
    × ((auth_middleware (some 1) 600000 600001 (some "t1") (delete_session "t1" user_state)).0
        ≡ none)
verify_and_create_session-attached_example =
    verify_and_create_session-attached user_library site (circumstances 500001 "t1") request before
      user_token 600000 600001 user-is_hex_address (λ e. cc) (ground arith) (ground arith)
      (ground arith) user_signs_in
