-- ===== src/Prelude/Lists.antt =====
-- Lists measured by native numbers, with Boolean filters, under the library's names.
use Prim.Native.Nat.{ℕ, zero, suc, ◌+◌, ◌≤◌}
use mathlib.Core.Path.{◌≡◌, refl, sym, ap, ◌∙◌}
use mathlib.Core.Bool.{Bool, true}
use mathlib.Core.Logic.{◌⊎◌, inl, inr, ◌≢◌}
use mathlib.Core.List.{List, [], ◌∷◌, ◌++◌}
use native.Mathlib.Omega.{arith}
use aether_dex.Prelude.Tests.{if◌then◌else◌, Bool-cases}

module _ {ℓ} {A : Type ℓ} where
  abbrev pub length : List A → ℕ
  length [] = 0
  length (x ∷ xs) = suc (length xs)

  abbrev pub take : ℕ → List A → List A
  take zero xs = []
  take (suc n) [] = []
  take (suc n) (x ∷ xs) = x ∷ take n xs

  -- Keeps what passes a Boolean test.
  abbrev pub filter : (A → Bool) → List A → List A
  filter p [] = []
  filter p (x ∷ xs) = let rest = filter p xs in if p x then x ∷ rest else rest

  pub length-append : (xs ys : List A) → length (xs ++ ys) ≡ length xs + length ys
  length-append [] ys = omega arith
  length-append (x ∷ xs) ys = omega (arith, length-append xs ys)

  pub length-take-le : (n : ℕ) (xs : List A) → length (take n xs) ≤ n
  length-take-le (suc n) (x ∷ xs) = omega (arith, length-take-le n xs)
  length-take-le _ _ = omega arith

module _ {ℓ κ} {A : Type ℓ} (P : A → Type κ) where
  -- A predicate by recursion, which the tactics read and build.
  abbrev pub All : List A → Type κ
  All [] = Unit
  All (x ∷ xs) = P x × All xs

  pub All-append : (xs ys : List A) → All xs → All ys → All (xs ++ ys)
  All-append [] ys h k = k
  All-append (x ∷ xs) ys (p, h) k = (p, All-append xs ys h k)

  pub All-filter : (p : A → Bool) (xs : List A) → All xs → All (filter p xs)
  All-filter p [] h = tt
  All-filter p (x ∷ xs) (q, h) = ground (arith, All-filter p xs h)

pub filter-holds {ℓ} :
    {A : Type ℓ} (p : A → Bool) (xs : List A) → All (λ x. p x ≡ true) (filter p xs)
filter-holds p [] = tt
filter-holds p (x ∷ xs) = elim (Bool-cases (p x)) [
  | inl t ↦ rw t (t, filter-holds p xs)
  | inr f ↦ rw f (filter-holds p xs)
]

pub All-take {ℓ κ} :
    {A : Type ℓ} (P : A → Type κ) (n : ℕ) (xs : List A) → All P xs → All P (take n xs)
All-take P zero xs h = tt
All-take P (suc n) [] h = tt
All-take P (suc n) (x ∷ xs) (h, hs) = (h, All-take P n xs hs)

-- What holds of the items by two predicates.
pub All-both {ℓ κ} :
    {A : Type ℓ} (P Q R : A → Type κ)
    → ((x : A) → P x → Q x → R x)
    → (xs : List A) → All P xs
    → All Q xs
    → All R xs
All-both P Q R both [] h k = tt
All-both P Q R both (x ∷ xs) (p, h) (q, k) = (both x p q, All-both P Q R both xs h k)

module _ {A : Type 0} where
  -- The list holds the item.
  abbrev pub Among : A → List A → Type 0
  Among a [] = ⊥
  Among a (b ∷ bs) = (a ≡ b) ⊎ Among a bs

  All-Among_from :
      (all xs : List A) → ((x : A) → Among x xs → Among x all) → All (λ x. Among x all) xs
  All-Among_from all [] h = tt
  All-Among_from all (x ∷ xs) h =
      (h x (inl refl), All-Among_from all xs (λ y among. h y (inr among)))

  pub All-Among : (xs : List A) → All (λ x. Among x xs) xs
  All-Among xs = All-Among_from xs xs (λ x among. among)

  cons_ne_nil : (x : A) (xs : List A) → x ∷ xs ≢ []
  cons_ne_nil x xs h = cc

  pub filter-nonempty :
      (p : A → Bool) (xs : List A) (x : A) → Among x xs → p x ≡ true → filter p xs ≢ []
  filter-nonempty p [] x among h = absurd among
  filter-nonempty p (y ∷ xs) x (inl same) h =
      let holds : p y ≡ true = ap p (sym same) ∙ h in rw holds (cons_ne_nil y (filter p xs))
  filter-nonempty p (y ∷ xs) x (inr among) h = elim (Bool-cases (p y)) [
    | inl t ↦ rw t (cons_ne_nil y (filter p xs))
    | inr f ↦ rw f (filter-nonempty p xs x among h)
  ]

  pub filter-Among :
      (p : A → Bool) (xs : List A) (x : A) → Among x xs → p x ≡ true → Among x (filter p xs)
  filter-Among p [] x among h = absurd among
  filter-Among p (y ∷ xs) x (inl same) h =
      let holds : p y ≡ true = ap p (sym same) ∙ h in rw holds (inl same)
  filter-Among p (y ∷ xs) x (inr among) h = elim (Bool-cases (p y)) [
    | inl t ↦ rw t (inr (filter-Among p xs x among h))
    | inr f ↦ rw f (filter-Among p xs x among h)
  ]
