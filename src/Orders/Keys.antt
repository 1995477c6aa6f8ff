-- ===== src/Orders/Keys.antt =====
-- The ids of `tp_sl_orders` (`INTEGER PRIMARY KEY AUTOINCREMENT`): each new row's is above all that
-- were given before, so that a row's id names it alone.
use aether_dex.Prelude.{
  ℕ, ◌+◌, ◌<◌, ◌≡◌, arith, Bool, true, some, List, [], ◌∷◌, ◌++◌, All, All-append, Bool-cases, inl,
  inr, either_branch,
}
use aether_dex.Prelude.Table.{update_where, find_where, find_where-holds}
use aether_dex.Orders.{TpSlOrder, OrderStore, is_open, is_pending}
use aether_dex.Orders.Evaluate.{TpSlEvaluateMessage, has_key}

abbrev pub IsAscending : List TpSlOrder → Type 0
IsAscending [] = Unit
IsAscending (o ∷ os) = All (λ (p : TpSlOrder). o.id < p.id) os × IsAscending os

pub record IsKeyed (s : OrderStore) : Type 0 where
  pub below : All (λ (o : TpSlOrder). o.id < s.next_order_id) s.orders
  pub ascending : IsAscending s.orders

module _ (p : TpSlOrder → Bool) (f : TpSlOrder → TpSlOrder)
    (same : (o : TpSlOrder) → (f o).id ≡ o.id) where
  All-update_where :
      (P : ℕ → Type 0) (xs : List TpSlOrder)
      → All (λ o. P o.id) xs
      → All (λ o. P o.id) (update_where p f xs)
  unfolding update_where
  All-update_where P [] h = h
  All-update_where P (x ∷ xs) (h, hs) = (
    either_branch (λ (o : TpSlOrder). P o.id) (p x) (f x) x (rw (same x) h) h,
    All-update_where P xs hs,
  )

  IsAscending-update_where :
      (xs : List TpSlOrder) → IsAscending xs → IsAscending (update_where p f xs)
  unfolding update_where
  IsAscending-update_where [] h = h
  IsAscending-update_where (x ∷ xs) (h, hs) = (
    either_branch (λ (o : TpSlOrder). All (λ (q : TpSlOrder). o.id < q.id) (update_where p f xs))
        (p x) (f x) x (rw (same x) (All-update_where (λ i. x.id < i) xs h))
        (All-update_where (λ i. x.id < i) xs h),
    IsAscending-update_where xs hs,
  )

  pub IsKeyed-update_where :
      (s : OrderStore) → IsKeyed s → IsKeyed (record s { orders = update_where p f s.orders })
  IsKeyed-update_where s h = record {
    below = All-update_where (λ i. i < s.next_order_id) s.orders h.below;
    ascending = IsAscending-update_where s.orders h.ascending;
  }

IsAscending-append :
    (xs : List TpSlOrder) (o : TpSlOrder)
    → All (λ x. x.id < o.id) xs
    → IsAscending xs
    → IsAscending (xs ++ o ∷ [])
IsAscending-append [] o b h = (tt, tt)
IsAscending-append (x ∷ xs) o (b, bs) (h, hs) =
    (All-append (λ p. x.id < p.id) xs (o ∷ []) h (b, tt), IsAscending-append xs o bs hs)

All-map :
    {P Q : TpSlOrder → Type 0} (xs : List TpSlOrder)
    → ((o : TpSlOrder) → P o → Q o)
    → All P xs
    → All Q xs
All-map [] t h = h
All-map (x ∷ xs) t (h, hs) = (t x h, All-map xs t hs)

others_lack_key :
    (msg : TpSlEvaluateMessage) (i : ℕ) (xs : List TpSlOrder)
    → i ≡ msg.order_id
    → All (λ o. i < o.id) xs
    → All (λ o. has_key msg o ≡ true → is_pending o.status ≡ true) xs
others_lack_key msg i xs e h = All-map xs (λ o b k. absurd (ground arith)) h

pub IsKeyed-append :
    (s : OrderStore) (o : TpSlOrder)
    → o.id ≡ s.next_order_id
    → IsKeyed s
    → IsKeyed (record s { orders = s.orders ++ o ∷ []; next_order_id = s.next_order_id + 1 })
IsKeyed-append s o e h = record {
  below =
      All-append (λ p. p.id < s.next_order_id + 1) s.orders (o ∷ [])
        (All-map s.orders (λ p b. omega arith) h.below) (omega arith);
  ascending =
      IsAscending-append s.orders o (All-map s.orders (λ p b. omega arith) h.below) h.ascending;
}

find_where-All :
    (P : TpSlOrder → Type 0) (p : TpSlOrder → Bool) (xs : List TpSlOrder) (o : TpSlOrder)
    → All P xs
    → find_where p xs ≡ some o
    → P o
unfolding find_where
find_where-All P p [] o h e = cc
find_where-All P p (x ∷ xs) o (h, hs) e = ground (arith, find_where-All P p xs o hs)

-- A row that an open row's key names is that row, or not there.
pub expire-only-open :
    (msg : TpSlEvaluateMessage) (xs : List TpSlOrder) (found : TpSlOrder)
    → IsAscending xs
    → find_where (is_open msg.order_id msg.chain_id) xs ≡ some found
    → All (λ o. has_key msg o ≡ true → is_pending o.status ≡ true) xs
unfolding find_where
expire-only-open msg [] found h e = tt
expire-only-open msg (x ∷ xs) found (h, hs) e =
    let tested = is_open msg.order_id msg.chain_id in
    elim (Bool-cases (tested x)) [
      | inl t ↦ (λ k. ground arith, others_lack_key msg x.id xs (ground arith) h)
      | inr f ↦
          let later : find_where tested xs ≡ some found = ground arith in
          let above : x.id < found.id = find_where-All (λ p. x.id < p.id) tested xs found h later in
          let holds = find_where-holds tested xs found later in
          (λ k. absurd (ground arith), expire-only-open msg xs found hs later)
    ]
