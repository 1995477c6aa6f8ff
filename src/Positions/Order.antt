-- ===== src/Positions/Order.antt =====
-- The order in which events arrive does not matter to the reduction.
use mathlib.Core.List.{Mem, Perm, Permᴰ, mem-cons_self, mem-cons_of_mem}
use mathlib.Core.List.Permᴰ
use mathlib.Core.Logic.{∥∥₁_elim}
use text.Mathlib.TextEquality.{IsScalar-prop}
use aether_dex.Prelude.{◌≡◌, refl, ap, ◌∙◌, arith, List, [], ◌∷◌, ◌<◌, ◌⊎◌, ◌≤◌, true, ◌↔◌, false}
use aether_dex.Prelude.Sort.{IsPreorder, sort_by, insert_by_swap}
use aether_dex.Prelude.Int.{◌-ℤ◌}
use aether_dex.Positions.{
  V3LiquidityEvent, stays_before, sort, reduce_from, reduce_v3_position_events,
}

-- Two events at one place of the chain are one event.
abbrev pub HasOneEventPerLog : List V3LiquidityEvent → Type 0
HasOneEventPerLog events =
    (a b : V3LiquidityEvent)
    → Mem a events
    → Mem b events
    → a.block_number ≡ b.block_number
    → a.log_index ≡ b.log_index
    → a ≡ b

pub stays_before_total :
    (a b : V3LiquidityEvent) → stays_before a b ≡ false → stays_before b a ≡ true
unfolding stays_before ◌-ℤ◌
stays_before_total a b h = ground arith

abbrev Before : V3LiquidityEvent → V3LiquidityEvent → Type 0
Before a b =
    (a.block_number < b.block_number)
    ⊎ ((a.block_number ≡ b.block_number) × (a.log_index ≤ b.log_index))

stays_before_iff : (a b : V3LiquidityEvent) → (stays_before a b ≡ true) ↔ Before a b
unfolding stays_before ◌-ℤ◌
stays_before_iff a b = (λ h. ground arith, λ h. ground arith)

pub stays_before_trans :
    (a b c : V3LiquidityEvent)
    → stays_before a b ≡ true
    → stays_before b c ≡ true
    → stays_before a c ≡ true
stays_before_trans a b c h k =
    let ab = (stays_before_iff a b).0 h in
    let bc = (stays_before_iff b c).0 k in (stays_before_iff a c).1 (omega arith)

stays_before_antisym :
    (a b : V3LiquidityEvent)
    → stays_before a b ≡ true
    → stays_before b a ≡ true
    → (a.block_number ≡ b.block_number) × (a.log_index ≡ b.log_index)
unfolding stays_before ◌-ℤ◌
stays_before_antisym a b h k = ground arith

pub stays_before-IsPreorder : IsPreorder stays_before
stays_before-IsPreorder = record { total = stays_before_total; trans = stays_before_trans }

same_log :
    (a b : V3LiquidityEvent)
    → (a.block_number ≡ b.block_number → a.log_index ≡ b.log_index → a ≡ b)
    → stays_before a b ≡ true
    → stays_before b a ≡ true
    → a ≡ b
same_log a b same ab ba = let (blocks, logs) = stays_before_antisym a b ab ba in same blocks logs

-- the property above restricted to part of a list
HasOneEventPerLog-tail :
    {x : V3LiquidityEvent} {l : List V3LiquidityEvent}
    → HasOneEventPerLog (x ∷ l)
    → HasOneEventPerLog l
HasOneEventPerLog-tail {x} h a b ma mb = h a b (mem-cons_of_mem x ma) (mem-cons_of_mem x mb)

HasOneEventPerLog-perm :
    {l m : List V3LiquidityEvent} → Permᴰ l m → HasOneEventPerLog l → HasOneEventPerLog m
HasOneEventPerLog-perm p h a b ma mb =
    h a b (Permᴰ.mem (Permᴰ.symm p) ma) (Permᴰ.mem (Permᴰ.symm p) mb)

sort-permᴰ :
    {l m : List V3LiquidityEvent}
    → Permᴰ l m
    → HasOneEventPerLog l
    → sort_by stays_before l ≡ sort_by stays_before m
unfolding sort_by
sort-permᴰ Permᴰ.nil h = refl
sort-permᴰ (Permᴰ.cons e p) h = cc (sort-permᴰ p (HasOneEventPerLog-tail h), e)
sort-permᴰ (Permᴰ.swap {a} {b} {l} e f) h =
    insert_by_swap stays_before stays_before-IsPreorder a b (sort_by stays_before l)
      (same_log a b (h a b mem-cons_self (mem-cons_of_mem a mem-cons_self)))
    ∙ cc (e, f)
sort-permᴰ (Permᴰ.trans p q) h = sort-permᴰ p h ∙ sort-permᴰ q (HasOneEventPerLog-perm p h)

V3LiquidityEvents-set : IsSet (List V3LiquidityEvent)
V3LiquidityEvents-set = hlevel IsScalar-prop

-- Where no two different events share a block and a log index, the states that a list of events
-- reduces to are the same for every order in which the events arrive.
pub reduce_v3_position_events-perm :
    (events arrived : List V3LiquidityEvent)
    → HasOneEventPerLog events
    → Perm events arrived
    → reduce_v3_position_events events ≡ reduce_v3_position_events arrived
unfolding reduce_v3_position_events sort
reduce_v3_position_events-perm events arrived h p =
    ap (reduce_from []) (∥∥₁_elim p (V3LiquidityEvents-set _ _) (λ d. sort-permᴰ d h))
