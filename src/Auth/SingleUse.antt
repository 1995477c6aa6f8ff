-- ===== src/Auth/SingleUse.antt =====
-- How often the requests that reach one nonce object are told that they consumed the nonce.
use aether_dex.Prelude.{
  ℕ, suc, ◌+◌, ◌≤◌, ◌≡◌, refl, arith, Option, none, some, List, [], ◌∷◌, leb, if◌then◌else◌,
  either_branch,
}
use aether_dex.Auth.{NonceStorage, no_nonce, issue, consume_record, consume, alarm_record, alarm}

-- What reaches the object, with its clock.
pub data NonceRequest : Type 0 where
  issues : ℕ → NonceRequest
  consumes : ℕ → NonceRequest
  alarms : ℕ → NonceRequest

-- How many of the requests are told that they consumed the nonce.
unfoldable pub consumed : List NonceRequest → NonceStorage → ℕ
consumed [] s = 0
consumed (issues e ∷ rest) s = consumed rest (issue e s)
consumed (alarms now ∷ rest) s = consumed rest (alarm now s)
consumed (consumes now ∷ rest) s =
    (if (consume now s).0 then 1 else 0) + consumed rest (consume now s).1

abbrev pub issued : List NonceRequest → ℕ
issued [] = 0
issued (issues e ∷ rest) = suc (issued rest)
issued (_ ∷ rest) = issued rest

abbrev pub held : Option ℕ → ℕ
held none = 0
held (some e) = 1

consume-held :
    (now : ℕ) (s : NonceStorage) (o : Option ℕ)
    → s.expires_at ≡ o
    → (if (consume_record now s o).0 then 1 else 0) + held (consume_record now s o).1.expires_at
      ≤ held o
consume-held now s none e = rw (e, held) (omega arith)
consume-held now s (some t) e = ground arith

alarm-held :
    (now : ℕ) (s : NonceStorage) (o : Option ℕ)
    → s.expires_at ≡ o
    → held (alarm_record now s o).expires_at ≤ held o
alarm-held now s none e = omega arith
alarm-held now s (some t) e =
    either_branch (λ (q : NonceStorage). held q.expires_at ≤ 1) (leb t now) no_nonce
      (record s { alarm_at = some t }) (omega arith) (rw (e, held) (omega arith))

-- Whatever requests and alarms reach the object in whatever order, no more of them consume the
-- nonce than were issued, with one more where the object held one at the start.
pub consumed-single :
    (rest : List NonceRequest) (s : NonceStorage)
    → consumed rest s ≤ issued rest + held s.expires_at
unfolding consumed issue alarm consume
consumed-single [] s = omega arith
consumed-single (issues e ∷ rest) s = omega (arith, consumed-single rest (issue e s))
consumed-single (alarms now ∷ rest) s =
    omega (arith, consumed-single rest (alarm now s), alarm-held now s s.expires_at refl)
consumed-single (consumes now ∷ rest) s =
    omega (arith, consumed-single rest (consume now s).1, consume-held now s s.expires_at refl)
