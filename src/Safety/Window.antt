-- ===== src/Safety/Window.antt =====
-- What the fixed window lets through (`rateLimit`).
use aether_dex.Prelude.{
  ℕ, zero, suc, ◌+◌, ◌-◌, ◌*◌, ◌/◌, ◌<◌, ◌≤◌, ◌≡◌, refl, sym, arith, false, Option, none, some,
  List, [], ◌∷◌, String, leb, max, subst, if◌then◌else◌, All, eq_iff, Bool-cases, inl, inr,
}
use aether_dex.Prelude.Dict.{Dict, get, put, get-put}
use aether_dex.Safety.{RateLimitConfig}
use aether_dex.Safety.RateLimit.{
  WindowMetadata, Caller, Verdict, Arrival, identify_caller, read_window, consume_rate_limit,
  rate_limit, serve,
}

get-put_same :
    (kv : Dict WindowMetadata) (key : String) (w : WindowMetadata) → get (put kv key w) key ≡ some w
get-put_same kv key w = ground (arith, get-put kv key key w, eq_iff key key)

read_window-live :
    (o : Option WindowMetadata) (w : WindowMetadata) (t : ℕ)
    → o ≡ some w
    → t < w.reset_at
    → read_window o t ≡ some w
unfolding read_window
read_window-live none w t h early = cc
read_window-live (some v) w t h early = ground arith

-- A request before a time, for which the namespace answers.
pub record IsServed (last : ℕ) (a : Arrival) : Type 0 where
  pub early : a.now < last
  pub reads : a.faults.read_down ≡ false
  pub writes : a.faults.write_down ≡ false

-- The answer 429.
abbrev pub IsRejected : Verdict → Type 0
IsRejected Verdict.pass = ⊥
IsRejected (Verdict.too_many n) = 1 ≤ n

-- The first answers, as many as the number says, let the request through, and the others reject it.
abbrev pub PassFirst : ℕ → List Verdict → Type 0
PassFirst n [] = Unit
PassFirst (suc n) (v ∷ vs) = (v ≡ Verdict.pass) × PassFirst n vs
PassFirst zero (v ∷ vs) = IsRejected v × PassFirst zero vs

rejected_wait : (a : ℕ) → 1 ≤ max 1 a
rejected_wait a = omega arith

-- One more answer, by the count that it comes to.
one_more :
    (count most wait : ℕ) (vs : List Verdict)
    → 1 ≤ wait
    → PassFirst (most - suc count) vs
    → PassFirst
        (most - count)
        ((if leb (suc count) most then Verdict.pass else Verdict.too_many wait) ∷ vs)
one_more count most wait vs long rest = elim (Bool-cases (leb (suc count) most)) [
  | inl within ↦
      let left : most - count ≡ suc (most - suc count) = ground arith in
      rw (within, left) (refl, rest)
  | inr over ↦
      let full : most - count ≡ 0 = ground arith in
      let still : most - suc count ≡ 0 = ground arith in
      rw (over, full) (long, subst (λ (n : ℕ). PassFirst n vs) still rest)
]

module _ (lower : String → String) (config : RateLimitConfig) (caller : Caller)
    (w : WindowMetadata) where
  serve-live :
      (arrivals : List Arrival) (kv : Dict WindowMetadata) (count : ℕ)
      → get kv (identify_caller lower caller) ≡ some (record w { count = count })
      → All (IsServed w.reset_at) arrivals
      → PassFirst (config.max_requests - count) (serve lower config caller arrivals kv)
  unfolding serve rate_limit consume_rate_limit
  serve-live [] kv count h served = tt
  serve-live (a ∷ arrivals) kv count h (s, served) =
      let key = identify_caller lower caller in
      let next : WindowMetadata = record w { count = suc count } in
      let rest =
        serve-live arrivals (put kv key next) (suc count) (get-put_same kv key next) served in
      rw
        (
          s.reads,
          s.writes,
          read_window-live (get kv key) (record w { count = count }) a.now h s.early,
        )
        (one_more count config.max_requests _ _ (rejected_wait _) rest)

whole : (n : ℕ) (vs : List Verdict) → PassFirst (n - 0) vs → PassFirst n vs
whole n vs h = let same : n - 0 ≡ n = omega arith in subst (λ (m : ℕ). PassFirst m vs) same h

-- What a first request is answered, and what it leaves.
serve_first :
    (lower : String → String) (config : RateLimitConfig) (caller : Caller) (first : Arrival)
    (arrivals : List Arrival) (kv : Dict WindowMetadata)
    → read_window (get kv (identify_caller lower caller)) first.now ≡ none
    → first.faults.read_down ≡ false
    → first.faults.write_down ≡ false
    → (let reset_at = first.now + config.window_seconds * 1000 in
        let w : WindowMetadata = record { count = 1; reset_at = reset_at } in
        serve lower config caller (first ∷ arrivals) kv
        ≡ (if leb 1 config.max_requests
            then Verdict.pass
            else Verdict.too_many (max 1 ((reset_at - first.answered_at + 999) / 1000)))
          ∷ serve lower config caller arrivals (put kv (identify_caller lower caller) w))
unfolding serve rate_limit consume_rate_limit
serve_first lower config caller first arrivals kv fresh reads writes =
    rw (reads, writes, fresh) refl

-- Requests of one caller that come one after another, from a first one before which no window of the
-- caller is open until its window ends, and for which the namespace answers: the first `max` of them
-- pass, and all others are answered 429 with a second or more to wait.
pub serve-window :
    (lower : String → String) (config : RateLimitConfig) (caller : Caller) (first : Arrival)
    (arrivals : List Arrival) (kv : Dict WindowMetadata)
    → read_window (get kv (identify_caller lower caller)) first.now ≡ none
    → All (IsServed (first.now + config.window_seconds * 1000)) arrivals
    → first.faults.read_down ≡ false
    → first.faults.write_down ≡ false
    → PassFirst config.max_requests (serve lower config caller (first ∷ arrivals) kv)
unfolding serve rate_limit consume_rate_limit
serve-window lower config caller first arrivals kv fresh served reads writes =
    let key = identify_caller lower caller in
    let w : WindowMetadata = record {
      count = 1;
      reset_at = first.now + config.window_seconds * 1000;
    } in
    let rest =
      serve-live lower config caller w arrivals (put kv key w) 1 (get-put_same kv key w) served in
    let wait = max 1 ((w.reset_at - first.answered_at + 999) / 1000) in
    let answer = if leb 1 config.max_requests then Verdict.pass else Verdict.too_many wait in
    let others = serve lower config caller arrivals (put kv key w) in
    let long = rejected_wait ((w.reset_at - first.answered_at + 999) / 1000) in
    subst (PassFirst config.max_requests)
      (sym (serve_first lower config caller first arrivals kv fresh reads writes))
      (whole config.max_requests (answer ∷ others)
        (one_more 0 config.max_requests wait others long rest))
