-- ===== src/Prelude/Result.antt =====
-- Results of fallible code: a value, or the error that it fails with.
use mathlib.Core.Path.{◌≡◌, refl}
use mathlib.Core.Bool.{Bool, true, false}
use mathlib.Core.Option.{Option, none, some}

pub data Result {ℓ κ} (E : Type ℓ) (A : Type κ) : Type (ℓ ⊔ κ) where
  ok : A → Result E A
  err : E → Result E A

-- What `do` stands for: the first error ends the chain.
infixl 5 ◌>>=◌
unfoldable pub ◌>>=◌ {ℓ κ υ} :
    {E : Type ℓ} {A : Type κ} {B : Type υ} → Result E A → (A → Result E B) → Result E B
err e >>= f = err e
ok a >>= f = f a

-- A value that must be there.
unfoldable pub or_err {ℓ κ} : {E : Type ℓ} {A : Type κ} → E → Option A → Result E A
or_err e none = err e
or_err e (some a) = ok a

-- A condition that must hold.
unfoldable pub demand {ℓ} : {E : Type ℓ} → E → Bool → Result E (Unit {0})
demand e true = ok tt
demand e false = err e

-- A chain with a value has one at its first link, and at the rest.
pub or_err-ok {ℓ κ υ} :
    {E : Type ℓ} {A : Type κ} {B : Type υ} (e : E) (o : Option A) (f : A → Result E B) (b : B)
    → (or_err e o >>= f) ≡ ok b
    → (a : A) × (o ≡ some a) × (f a ≡ ok b)
unfolding or_err ◌>>=◌
or_err-ok e none f b h = cc
or_err-ok e (some a) f b h = (a, refl, h)

pub demand-ok {ℓ κ} :
    {E : Type ℓ} {B : Type κ} (e : E) (c : Bool) (f : Unit {0} → Result E B) (b : B)
    → (demand e c >>= f) ≡ ok b
    → (c ≡ true) × (f tt ≡ ok b)
unfolding demand ◌>>=◌
demand-ok e true f b h = (refl, h)
demand-ok e false f b h = cc

pub ok-injective {ℓ κ} :
    {E : Type ℓ} {A : Type κ} (a b : A) → (let x : Result E A = ok a in x ≡ ok b) → a ≡ b
ok-injective a b h = cc

pub bind-ok {ℓ κ υ} :
    {E : Type ℓ} {A : Type κ} {B : Type υ} (r : Result E A) (f : A → Result E B) (b : B)
    → (r >>= f) ≡ ok b
    → (a : A) × (r ≡ ok a) × (f a ≡ ok b)
unfolding ◌>>=◌
bind-ok (err e) f b h = cc
bind-ok (ok a) f b h = (a, refl, h)
