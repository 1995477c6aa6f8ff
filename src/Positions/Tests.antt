-- ===== src/Positions/Tests.antt =====
-- Runs of the reducer, and its properties at concrete inputs.
use mathlib.Core.HLevel.{⊥_prop}
use mathlib.Core.List.{Mem, mem-cons, not-mem-nil}
use mathlib.Core.List.Perm
use mathlib.Core.Logic.Or
use text.Mathlib.TextEquality.{IsScalar-prop}
use aether_dex.Prelude.{
  ◌≡◌, refl, sym, ap, ◌∙◌, arith, ◌≢◌, true, none, some, List, [], ◌∷◌, String, All, filter, ℕ,
}
use aether_dex.Prelude.Int.{pos}
use aether_dex.Prelude.Dict.{get, put}
use aether_dex.Positions.{EventType, V3LiquidityEvent, V3PositionState, reduce_v3_position_events}
use aether_dex.Positions.Order.{HasOneEventPerLog, reduce_v3_position_events-perm}
use aether_dex.Positions.Accounting.{IsCovered, reduce_v3_position_events-IsCovered}
use aether_dex.Positions.Isolation.{names, reduce_v3_position_events-filter}

abbrev event : EventType → String → ℕ → ℕ → ℕ → ℕ → V3LiquidityEvent
event kind token block liquidity a0 a1 = record {
  event_type = kind;
  tx_hash = "0xaa";
  log_index = 0;
  block_number = block;
  pool_id = none;
  token_id = some token;
  owner_address = some "0xowner";
  tick_lower = none;
  tick_upper = none;
  liquidity_delta = some (pos liquidity);
  amount0 = some (pos a0);
  amount1 = some (pos a1);
}

abbrev increased : V3LiquidityEvent
increased = event EventType.increase "7" 2 100 10 20

abbrev decreased : V3LiquidityEvent
decreased = event EventType.decrease "7" 5 40 4 8

-- The events of the repository's own test, out of order.
reconciles :
    get
      (reduce_v3_position_events (
        event EventType.transfer "7" 3 100 10 20
        ∷ increased
        ∷ event EventType.collect "7" 4 100 2 3
        ∷ decreased
        ∷ []))
      "7"
    ≡ some (record {
      token_id = "7";
      owner_address = some "0xowner";
      is_active = true;
      liquidity = pos 60;
      amount0 = pos 6;
      amount1 = pos 12;
      fees0 = pos 2;
      fees1 = pos 3;
      cost_basis0 = pos 10;
      cost_basis1 = pos 20;
    })
unfolding reduce_v3_position_events get put
reconciles = refl

-- A decrease that would underflow publishes no state.
underflow : get (reduce_v3_position_events (event EventType.decrease "7" 2 101 1 1 ∷ [])) "7" ≡ none
unfolding reduce_v3_position_events get put
underflow = refl

V3LiquidityEvent-set : IsSet V3LiquidityEvent
V3LiquidityEvent-set = hlevel IsScalar-prop

block_ne_of_mem :
    (n : ℕ) (l : List V3LiquidityEvent) {e : V3LiquidityEvent}
    → All (λ y. n ≢ y.block_number) l
    → Mem e l
    → n ≢ e.block_number
block_ne_of_mem n [] h m = absurd (not-mem-nil m)
block_ne_of_mem n (y ∷ l) (ne, h) m = λ e.
    Or.elim ⊥_prop (mem-cons.0 m) (λ same. ne (e ∙ ap (λ v. v.block_number) same))
      (λ later. block_ne_of_mem n l h later e)

HasOneEventPerLog-nil : HasOneEventPerLog []
HasOneEventPerLog-nil a b ma = absurd (not-mem-nil ma)

HasOneEventPerLog-cons :
    (x : V3LiquidityEvent) (l : List V3LiquidityEvent)
    → All (λ y. x.block_number ≢ y.block_number) l
    → HasOneEventPerLog l
    → HasOneEventPerLog (x ∷ l)
HasOneEventPerLog-cons x l fresh h a b ma mb blocks logs =
    Or.elim (V3LiquidityEvent-set a b) (mem-cons.0 ma)
      (λ ax.
        Or.elim (V3LiquidityEvent-set a b) (mem-cons.0 mb) (λ bx. ax ∙ sym bx)
          (λ later. absurd (
            block_ne_of_mem x.block_number l fresh later
              (sym (ap (λ v. v.block_number) ax) ∙ blocks))))
      (λ ahead.
        Or.elim (V3LiquidityEvent-set a b) (mem-cons.0 mb)
          (λ bx. absurd (
            block_ne_of_mem x.block_number l fresh ahead
              (sym (ap (λ v. v.block_number) bx) ∙ sym blocks)))
          (λ later. h a b ahead later blocks logs))

reduce_v3_position_events-perm_example :
    reduce_v3_position_events (decreased ∷ increased ∷ [])
    ≡ reduce_v3_position_events (increased ∷ decreased ∷ [])
reduce_v3_position_events-perm_example =
    reduce_v3_position_events-perm (decreased ∷ increased ∷ []) (increased ∷ decreased ∷ [])
      (HasOneEventPerLog-cons decreased (increased ∷ []) (omega arith)
        (HasOneEventPerLog-cons increased [] tt HasOneEventPerLog-nil))
      (Perm.swap increased decreased [])

abbrev after_increase : V3PositionState
after_increase = record {
  token_id = "7";
  owner_address = none;
  is_active = true;
  liquidity = pos 100;
  amount0 = pos 10;
  amount1 = pos 20;
  fees0 = pos 0;
  fees1 = pos 0;
  cost_basis0 = pos 10;
  cost_basis1 = pos 20;
}

reduce_v3_position_events-IsCovered_example : IsCovered after_increase
unfolding reduce_v3_position_events get put
reduce_v3_position_events-IsCovered_example =
    reduce_v3_position_events-IsCovered (increased ∷ []) "7" (omega arith) refl

reduce_v3_position_events-filter_example :
    get (reduce_v3_position_events (event EventType.burn "8" 1 1 1 1 ∷ increased ∷ [])) "7"
    ≡ get
        (reduce_v3_position_events
          (filter (names "7") (event EventType.burn "8" 1 1 1 1 ∷ increased ∷ [])))
        "7"
reduce_v3_position_events-filter_example =
    reduce_v3_position_events-filter "7" (event EventType.burn "8" 1 1 1 1 ∷ increased ∷ [])
