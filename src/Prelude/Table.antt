-- ===== src/Prelude/Table.antt =====
-- A database table as its rows in insertion order, and the SQL that the source uses of it.
use Prim.Native.Nat.{ℕ, suc}
use mathlib.Core.Path.{◌≡◌, refl}
use mathlib.Core.Bool.{Bool, true}
use mathlib.Core.Option.{Option, none, some}
use mathlib.Core.List.{List, [], ◌∷◌, ◌++◌}
use native.Mathlib.Omega.{arith}
use aether_dex.Prelude.Tests.{if◌then◌else◌}

module _ {ℓ} {A : Type ℓ} where
  -- `UPDATE … SET f WHERE p`
  unfoldable pub update_where : (A → Bool) → (A → A) → List A → List A
  update_where p f [] = []
  update_where p f (x ∷ xs) = (if p x then f x else x) ∷ update_where p f xs

  -- The number of rows that a `WHERE` names: the `changes` of the update.
  unfoldable pub count_where : (A → Bool) → List A → ℕ
  count_where p [] = 0
  count_where p (x ∷ xs) = let rest = count_where p xs in if p x then suc rest else rest

  -- `SELECT … WHERE p LIMIT 1`
  unfoldable pub find_where : (A → Bool) → List A → Option A
  find_where p [] = none
  find_where p (x ∷ xs) = if p x then some x else find_where p xs

  pub find_where-holds :
      (p : A → Bool) (xs : List A) (x : A) → find_where p xs ≡ some x → p x ≡ true
  unfolding find_where
  find_where-holds p [] x h = cc
  find_where-holds p (y ∷ xs) x h = ground (arith, find_where-holds p xs x)

  pub update_where_none :
      (p : A → Bool) (f : A → A) (xs : List A) → count_where p xs ≡ 0 → update_where p f xs ≡ xs
  unfolding update_where count_where
  update_where_none p f [] h = refl
  update_where_none p f (x ∷ xs) h = ground (arith, update_where_none p f xs)

  -- The row that a `SELECT` finds, after an update that names it and that no `SELECT` tells.
  pub find_where-update_where :
      (p q : A → Bool) (f : A → A) (xs : List A) (o : A)
      → ((x : A) → p x ≡ true → q x ≡ true)
      → ((x : A) → p (f x) ≡ p x)
      → find_where p xs ≡ some o
      → find_where p (update_where q f xs) ≡ some (f o)
  unfolding find_where update_where
  find_where-update_where p q f [] o named same h = cc
  find_where-update_where p q f (x ∷ xs) o named same h =
      ground (arith, named x, same x, find_where-update_where p q f xs o named same)

  -- Every row of a table stands in the relation to the row at its place later; rows are added at
  -- the end and none goes away.
  abbrev pub Grows : (A → A → Type 0) → List A → List A → Type 0
  Grows R [] ys = Unit
  Grows R (x ∷ xs) [] = ⊥
  Grows R (x ∷ xs) (y ∷ ys) = R x y × Grows R xs ys

  module _ (R : A → A → Type 0) where
    pub Grows-update_where :
        (p : A → Bool) (f : A → A) (xs : List A)
        → ((x : A) → R x (if p x then f x else x))
        → Grows R xs (update_where p f xs)
    unfolding update_where
    Grows-update_where p f [] h = tt
    Grows-update_where p f (x ∷ xs) h = (h x, Grows-update_where p f xs h)

    pub Grows-append : (xs ys : List A) → ((x : A) → R x x) → Grows R xs (xs ++ ys)
    Grows-append [] ys h = tt
    Grows-append (x ∷ xs) ys h = (h x, Grows-append xs ys h)

    pub Grows-refl : (xs : List A) → ((x : A) → R x x) → Grows R xs xs
    Grows-refl [] h = tt
    Grows-refl (x ∷ xs) h = (h x, Grows-refl xs h)

    pub Grows-trans :
        (xs ys zs : List A)
        → ((x y z : A) → R x y → R y z → R x z)
        → Grows R xs ys
        → Grows R ys zs
        → Grows R xs zs
    Grows-trans [] ys zs t h k = tt
    Grows-trans (x ∷ xs) [] zs t h k = absurd h
    Grows-trans (x ∷ xs) (y ∷ ys) [] t h k = absurd k
    Grows-trans (x ∷ xs) (y ∷ ys) (z ∷ zs) t (r, h) (s, k) =
        (t x y z r s, Grows-trans xs ys zs t h k)
