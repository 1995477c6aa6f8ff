-- ===== src/Auth.antt =====
-- Signing in with Ethereum: the object that holds one nonce
-- (apps/api/src/durable-objects/siwe-nonce-do.ts) and the verification of a signed message
-- (apps/api/src/auth/siwe.ts).
pub mod Verify
pub mod Replay
pub mod SingleUse
pub mod Session
mod Tests
use aether_dex.Prelude.{ℕ, Bool, true, false, Option, none, some, leb, if◌then◌else◌}

-- The storage of the object: the expiry in its record, and its alarm.
pub record NonceStorage : Type 0 where
  pub expires_at : Option ℕ
  pub alarm_at : Option ℕ

abbrev pub no_nonce : NonceStorage
no_nonce = record { expires_at = none; alarm_at = none }

unfoldable pub issue : ℕ → NonceStorage → NonceStorage
issue expires_at s = record { expires_at = some expires_at; alarm_at = some expires_at }

-- `consume` and `alarm` run while the object takes no other request; they go by the record.
abbrev pub consume_record : ℕ → NonceStorage → Option ℕ → Bool × NonceStorage
consume_record now s none = (false, record s { alarm_at = none })
consume_record now s (some e) = (if leb e now then false else true, no_nonce)

unfoldable pub consume : ℕ → NonceStorage → Bool × NonceStorage
consume now s = consume_record now s s.expires_at

abbrev pub alarm_record : ℕ → NonceStorage → Option ℕ → NonceStorage
alarm_record now s none = no_nonce
alarm_record now s (some e) = if leb e now then no_nonce else record s { alarm_at = some e }

unfoldable pub alarm : ℕ → NonceStorage → NonceStorage
alarm now s = alarm_record now s s.expires_at
