-- ===== src/Prelude/Sort.antt =====
-- The stable sort that `Array.prototype.sort` and `ORDER BY` make, by a Boolean order.
use mathlib.Core.Path.{◌≡◌, refl, sym}
use mathlib.Core.Bool.{Bool, true, false}
use mathlib.Core.List.{List, [], ◌∷◌}
use native.Mathlib.Omega.{arith}
use mathlib.Core.Logic.{inl, inr, ◌≢◌}
use aether_dex.Prelude.Tests.{Bool-cases, if◌then◌else◌}
use aether_dex.Prelude.Lists.{All, All-filter, Among, filter}

module _ {ℓ} {A : Type ℓ} (before : A → A → Bool) where
  -- An item goes before those that it may precede.
  unfoldable pub insert_by : A → List A → List A
  insert_by a [] = a ∷ []
  insert_by a (x ∷ xs) =
      let further = insert_by a xs in if before a x then a ∷ x ∷ xs else x ∷ further

  unfoldable pub sort_by : List A → List A
  unfolding insert_by
  sort_by [] = []
  sort_by (x ∷ xs) = insert_by x (sort_by xs)

  insert_by-All {κ} :
      (P : A → Type κ) (a : A) (xs : List A) → P a → All P xs → All P (insert_by a xs)
  unfolding insert_by
  insert_by-All P a [] p h = (p, tt)
  insert_by-All P a (x ∷ xs) p h = ground (arith, insert_by-All P a xs p h.1)

  pub sort_by-All {κ} : (P : A → Type κ) (xs : List A) → All P xs → All P (sort_by xs)
  unfolding sort_by
  sort_by-All P [] h = tt
  sort_by-All P (x ∷ xs) (p, h) = insert_by-All P x (sort_by xs) p (sort_by-All P xs h)

  insert_by-nonempty : (a : A) (xs : List A) → insert_by a xs ≢ []
  unfolding insert_by
  insert_by-nonempty a [] = λ h. cc
  insert_by-nonempty a (x ∷ xs) = elim (Bool-cases (before a x)) [
    | inl t ↦ rw t (λ h. cc)
    | inr f ↦ rw f (λ h. cc)
  ]

  pub sort_by-nonempty : (xs : List A) → xs ≢ [] → sort_by xs ≢ []
  unfolding sort_by
  sort_by-nonempty [] n = λ h. n refl
  sort_by-nonempty (x ∷ xs) n = insert_by-nonempty x (sort_by xs)

  abbrev Precedes : A → A → Type 0
  Precedes a b = before a b ≡ true

  abbrev pub IsSorted : List A → Type 0
  IsSorted [] = Unit
  IsSorted (x ∷ xs) = All (Precedes x) xs × IsSorted xs

  insert_by_first : (a : A) (xs : List A) → All (Precedes a) xs → insert_by a xs ≡ a ∷ xs
  unfolding insert_by
  insert_by_first a [] h = refl
  insert_by_first a (x ∷ xs) (p, h) = rw p

  -- A total preorder.
  pub record IsPreorder : Type ℓ where
    pub total : (a b : A) → before a b ≡ false → before b a ≡ true
    pub trans : (a b c : A) → before a b ≡ true → before b c ≡ true → before a c ≡ true

module _ {ℓ} {A : Type ℓ} (before : A → A → Bool) (order : IsPreorder before) where
  All-Precedes :
      (a b : A) (xs : List A)
      → before a b ≡ true
      → All (Precedes before b) xs
      → All (Precedes before a) xs
  All-Precedes a b [] h k = tt
  All-Precedes a b (x ∷ xs) h (p, k) = (order.trans a b x h p, All-Precedes a b xs h k)

  insert_by-IsSorted :
      (a : A) (xs : List A) → IsSorted before xs → IsSorted before (insert_by before a xs)
  unfolding insert_by
  insert_by-IsSorted a [] h = (tt, tt)
  insert_by-IsSorted a (x ∷ xs) (ahead, h) = elim (Bool-cases (before a x)) [
    | inl first ↦ rw first ((first, All-Precedes a x xs first ahead), (ahead, h))
    | inr later ↦ rw later (
      insert_by-All before (Precedes before x) a xs (order.total a x later) ahead,
      insert_by-IsSorted a xs h,
    )
  ]

  pub sort_by-IsSorted : (xs : List A) → IsSorted before (sort_by before xs)
  unfolding sort_by
  sort_by-IsSorted [] = tt
  sort_by-IsSorted (x ∷ xs) = insert_by-IsSorted x (sort_by before xs) (sort_by-IsSorted xs)

  filter-insert_by :
      (p : A → Bool) (a : A) (xs : List A)
      → IsSorted before xs
      → filter p (insert_by before a xs)
        ≡ (if p a then insert_by before a (filter p xs) else filter p xs)
  unfolding insert_by
  filter-insert_by p a [] h = ground arith
  filter-insert_by p a (x ∷ xs) (ahead, h) = elim (Bool-cases (before a x)) [
    | inl first ↦ ground (
      arith,
      insert_by_first before a (filter p xs)
          (All-filter (Precedes before a) p xs (All-Precedes a x xs first ahead)),
    )
    | inr later ↦ ground (arith, filter-insert_by p a xs h)
  ]

  -- Sorting what a test keeps is keeping what is sorted.
  pub filter-sort_by :
      (p : A → Bool) (xs : List A) → filter p (sort_by before xs) ≡ sort_by before (filter p xs)
  unfolding sort_by
  filter-sort_by p [] = refl
  filter-sort_by p (x ∷ xs) =
      ground
        (arith, filter-insert_by p x (sort_by before xs) (sort_by-IsSorted xs), filter-sort_by p xs)

  insert_by_comm :
      (a b : A) (xs : List A)
      → before a b ≡ true
      → before b a ≡ false
      → insert_by before a (insert_by before b xs) ≡ insert_by before b (insert_by before a xs)
  unfolding insert_by
  insert_by_comm a b [] h k = ground arith
  insert_by_comm a b (x ∷ xs) h k = ground (
    arith,
    insert_by_comm a b xs h k,
    order.trans a b x,
    order.total b x,
    order.total a x,
    order.trans b x a,
  )

  -- Insertions commute, unless two different items may each precede the other.
  pub insert_by_swap :
      (a b : A) (xs : List A)
      → (before a b ≡ true → before b a ≡ true → a ≡ b)
      → insert_by before a (insert_by before b xs) ≡ insert_by before b (insert_by before a xs)
  insert_by_swap a b xs same = elim (Bool-cases (before a b)) [
    | inl ab ↦ elim (Bool-cases (before b a)) [
      | inl ba ↦ cc (same ab ba)
      | inr nba ↦ insert_by_comm a b xs ab nba
    ]
    | inr nab ↦ sym (insert_by_comm b a xs (order.total a b nab) nab)
  ]

module _ {A : Type 0} (before : A → A → Bool) where
  further-Among :
      (a y : A) (xs : List A) (x : A)
      → Among x (a ∷ y ∷ xs)
      → (Among x (a ∷ xs) → Among x (insert_by before a xs))
      → Among x (y ∷ insert_by before a xs)
  further-Among a y xs x (inl first) step = inr (step (inl first))
  further-Among a y xs x (inr (inl second)) step = inl second
  further-Among a y xs x (inr (inr later)) step = inr (step (inr later))

  insert_by-Among :
      (a : A) (xs : List A) (x : A) → Among x (a ∷ xs) → Among x (insert_by before a xs)
  unfolding insert_by
  insert_by-Among a [] x among = among
  insert_by-Among a (y ∷ xs) x among = elim (Bool-cases (before a y)) [
    | inl t ↦ rw t among
    | inr f ↦ rw f (further-Among a y xs x among (λ later. insert_by-Among a xs x later))
  ]

  pub sort_by-Among : (xs : List A) (x : A) → Among x xs → Among x (sort_by before xs)
  unfolding sort_by
  sort_by-Among [] x among = among
  sort_by-Among (y ∷ xs) x (inl same) = insert_by-Among y (sort_by before xs) x (inl same)
  sort_by-Among (y ∷ xs) x (inr among) =
      insert_by-Among y (sort_by before xs) x (inr (sort_by-Among xs x among))
