-- ===== src/Keeper/Range.antt =====
-- The range that a rebalance moves a position to (`computeOptimalRange` of
-- apps/api/src/services/auto-recenter.service.ts, with the bounds of tick-bounds.ts beside it).
use native.Mathlib.Omega.{div_any, mod_fact}
use aether_dex.Prelude.{
  ℕ, zero, suc, ◌+◌, ◌*◌, ◌/◌, ◌%◌, ◌≤◌, ◌<◌, ◌≡◌, arith, max, ◌||◌, Option, none, some,
  if◌then◌else◌,
}
use aether_dex.Prelude.Int.{ℤ, pos, negsuc, sub_ℕ, ◌+ℤ◌, ◌-ℤ◌, ◌≤ℤ◌, ◌<ℤ◌, ltb_ℤ, int_laws}
use aether_dex.Prelude.Result.{Result, ok, err}

abbrev pub max_tick : ℕ
max_tick = 887272

pub record TickRange : Type 0 where
  pub tick_lower : ℤ
  pub tick_upper : ℤ

pub data AutoRecenterError : Type 0 where
  out_of_bounds : AutoRecenterError

-- `Math.floor(currentTick / tickSpacing) * tickSpacing`
unfoldable pub aligned_tick : ℤ → ℕ → ℤ
aligned_tick (pos n) spacing = pos (spacing * (n / spacing))
aligned_tick (negsuc n) spacing = sub_ℕ 0 (spacing * (n / spacing) + spacing)

abbrev width_or_default : Option ℕ → ℕ → ℕ
width_or_default none spacing = max (spacing * 3) 200
width_or_default (some w) spacing = w

-- `Math.max(1, Math.round(width / 2 / spacing)) * spacing`: a half is rounded up.
unfoldable pub half_range : ℕ → ℕ → ℕ
half_range width spacing = spacing * max 1 ((width + spacing) / (2 * spacing))

abbrev checked_range : ℤ → ℤ → Result AutoRecenterError TickRange
checked_range lower upper =
    if ltb_ℤ lower (sub_ℕ 0 max_tick) || ltb_ℤ (pos max_tick) upper
    then err out_of_bounds
    else ok (record { tick_lower = lower; tick_upper = upper })

-- The tick spacing of a pool is positive.
unfoldable pub compute_optimal_range : ℤ → ℕ → Option ℕ → Result AutoRecenterError TickRange
compute_optimal_range current spacing width =
    let half = half_range (width_or_default width spacing) spacing in
    let aligned = aligned_tick current spacing in
    checked_range (aligned -ℤ pos half) (aligned +ℤ pos half)

le_mul : (s m : ℕ) → 1 ≤ m → s ≤ s * m
le_mul s zero h = omega arith
le_mul s (suc m) h = omega arith

half_range-least : (width spacing : ℕ) → spacing ≤ half_range width spacing
unfolding half_range
half_range-least width spacing =
    le_mul spacing (max 1 ((width + spacing) / (2 * spacing))) (omega arith)

mod_below : (n s : ℕ) → 0 < s → n % s < s
mod_below n zero h = omega arith
mod_below n (suc s) h = mod_fact n s

aligned_tick-near :
    (current : ℤ) (spacing : ℕ)
    → 0 < spacing
    → (aligned_tick current spacing ≤ℤ current)
      × (current <ℤ (aligned_tick current spacing +ℤ pos spacing))
unfolding aligned_tick ◌+ℤ◌
aligned_tick-near (pos n) spacing h = (
  ground (arith, div_any n spacing, mod_below n spacing h),
  ground (arith, div_any n spacing, mod_below n spacing h),
)
aligned_tick-near (negsuc n) spacing h = (
  ground (arith, div_any n spacing, mod_below n spacing h),
  ground (arith, div_any n spacing, mod_below n spacing h),
)

checked_range-within :
    (current lower upper : ℤ) (r : TickRange)
    → checked_range lower upper ≡ ok r
    → (lower ≤ℤ current)
    → (current <ℤ upper)
    → (r.tick_lower ≤ℤ current)
      × (current <ℤ r.tick_upper)
      × (sub_ℕ 0 max_tick ≤ℤ r.tick_lower)
      × (r.tick_upper ≤ℤ pos max_tick)
checked_range-within current lower upper r h below above = ground arith

-- For a positive tick spacing a range that is computed holds the current tick, strictly below its
-- upper end, and lies within the bounds of the pool.
pub compute_optimal_range-holds :
    (current : ℤ) (spacing : ℕ) (width : Option ℕ) (r : TickRange)
    → 0 < spacing
    → compute_optimal_range current spacing width ≡ ok r
    → (r.tick_lower ≤ℤ current)
      × (current <ℤ r.tick_upper)
      × (sub_ℕ 0 max_tick ≤ℤ r.tick_lower)
      × (r.tick_upper ≤ℤ pos max_tick)
unfolding compute_optimal_range
compute_optimal_range-holds current spacing width r h e =
    let half = half_range (width_or_default width spacing) spacing in
    let aligned = aligned_tick current spacing in
    let (low, high) = aligned_tick-near current spacing h in
    let wide = half_range-least (width_or_default width spacing) spacing in
    checked_range-within current (aligned -ℤ pos half) (aligned +ℤ pos half) r e (omega (int_laws))
      (omega (int_laws))
