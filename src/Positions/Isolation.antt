-- ===== src/Positions/Isolation.antt =====
-- The state of a token depends on the events of that token alone.
use aether_dex.Prelude.{
  ◌≡◌, refl, ap, ◌∙◌, Bool, true, false, Option, none, some, List, [], ◌∷◌, String, filter,
  Bool-cases, Option-cases, inl, inr, str_eq, eq_iff,
}
use aether_dex.Prelude.Sort.{filter-sort_by}
use aether_dex.Prelude.Dict.{Dict, get, get-put}
use aether_dex.Positions.{
  V3LiquidityEvent, V3PositionState, initial_state, apply_event, get_or_initial, reduce_token,
  stays_before, sort, reduce_from, reduce_v3_position_events,
}
use aether_dex.Positions.Order.{stays_before-IsPreorder}

-- The event names the token.
abbrev pub is_token : String → Option String → Bool
is_token t none = false
is_token t (some u) = str_eq u t

abbrev pub names : String → V3LiquidityEvent → Bool
names t e = is_token t e.token_id

-- one round changes no other token, and reads only the token's own state
reduce_token_other :
    (t : String) (o : Option String) (e : V3LiquidityEvent) (states : Dict V3PositionState)
    → is_token t o ≡ false
    → get (reduce_token o e states) t ≡ get states t
unfolding reduce_token
reduce_token_other t none e states other = refl
reduce_token_other t (some u) e states other =
    elim (Option-cases (apply_event (get_or_initial u states) e)) [
      | inl refused ↦ rw refused
      | inr (s, applied) ↦ rw applied (rw (get-put states u t s) (rw other))
    ]

reduce_token_same :
    (t : String) (o : Option String) (e : V3LiquidityEvent) (s s' : Dict V3PositionState)
    → is_token t o ≡ true
    → get s t ≡ get s' t
    → get (reduce_token o e s) t ≡ get (reduce_token o e s') t
unfolding reduce_token
reduce_token_same t none e s s' own same = same
reduce_token_same t (some u) e s s' own same =
    let u-eq-t : u ≡ t = (eq_iff u t).0 own in
    let start : get_or_initial u s ≡ get_or_initial u s' =
      rw u-eq-t (ap (λ o. elim o [ none ↦ initial_state t | some x ↦ x ]) same) in
    elim (Option-cases (apply_event (get_or_initial u s') e)) [
      | inl refused ↦ rw (start, refused) same
      | inr (x, applied) ↦ rw (start, applied) (rw (get-put s u t x, get-put s' u t x, own))
    ]

reduce_from-filter :
    (t : String) (l : List V3LiquidityEvent) (s s' : Dict V3PositionState)
    → get s t ≡ get s' t
    → get (reduce_from s l) t ≡ get (reduce_from s' (filter (names t) l)) t
unfolding reduce_from
reduce_from-filter t [] s s' same = same
reduce_from-filter t (e ∷ l) s s' same = elim (Bool-cases (names t e)) [
  | inl own ↦ rw own (
      reduce_from-filter t l (reduce_token e.token_id e s) (reduce_token e.token_id e s')
        (reduce_token_same t e.token_id e s s' own same))
  | inr other ↦ rw other (
      reduce_from-filter t l (reduce_token e.token_id e s) s'
        (reduce_token_other t e.token_id e s other ∙ same))
]

-- The state that a token is left in is that of the reduction of its own events alone: events of
-- other tokens and events without a token change nothing of it.
pub reduce_v3_position_events-filter :
    (t : String) (events : List V3LiquidityEvent)
    → get (reduce_v3_position_events events) t
      ≡ get (reduce_v3_position_events (filter (names t) events)) t
unfolding reduce_v3_position_events sort
reduce_v3_position_events-filter t events =
    rw (← filter-sort_by stays_before stays_before-IsPreorder (names t) events)
      (reduce_from-filter t (sort events) [] [] refl)
