-- ===== src/Safety/RateLimit.antt =====
-- The fixed-window rate limit (apps/api/src/middleware/rate-limit.ts). The KV namespace holds one
-- window per caller, and a read returns the last write.
use Prim.Native.String.{◌++◌ as append}
use aether_dex.Prelude.{
  ℕ, suc, ◌+◌, ◌-◌, ◌*◌, ◌/◌, Bool, false, Option, none, some, List, [], ◌∷◌, String, max, leb,
  if◌then◌else◌,
}
use aether_dex.Prelude.Dict.{Dict, get, put}
use aether_dex.Prelude.Text.{is_hex_address}
use aether_dex.Safety.{RateLimitConfig}

pub record WindowMetadata : Type 0 where
  pub count : ℕ
  pub reset_at : ℕ

pub record RateLimitOutcome : Type 0 where
  pub allowed : Bool
  pub limit : ℕ
  pub remaining : ℕ
  pub reset_at : ℕ

-- What the middleware sees of a request, its texts trimmed: the session's address, the header
-- `cf-connecting-ip`, and the first hop of `x-forwarded-for`.
pub record Caller : Type 0 where
  pub session_address : Option String
  pub cf_connecting_ip : Option String
  pub first_forwarded : Option String

abbrev either_text : Option String → String → String
either_text none fallback = fallback
either_text (some String.[]) fallback = fallback
either_text (some s) fallback = s

unfoldable pub extract_client_ip : Caller → String
extract_client_ip c = either_text c.cf_connecting_ip (either_text c.first_forwarded "anonymous")

-- The key of the caller's counter; `lower` is `toLowerCase`.
unfoldable pub identify_caller : (String → String) → Caller → String
identify_caller lower c = elim c.session_address [
  | none ↦ append "rl:ip:" (extract_client_ip c)
  | some address ↦
      if is_hex_address address
      then append "rl:addr:" (lower address)
      else append "rl:ip:" (extract_client_ip c)
]

unfoldable pub read_window : Option WindowMetadata → ℕ → Option WindowMetadata
read_window none now = none
read_window (some w) now = if leb w.reset_at now then none else some w

abbrev pub counted : RateLimitConfig → ℕ → Option WindowMetadata → WindowMetadata
counted config now none = record { count = 1; reset_at = now + config.window_seconds * 1000 }
counted config now (some w) = record w { count = suc w.count }

abbrev pub outcome_of : RateLimitConfig → WindowMetadata → RateLimitOutcome
outcome_of config w = record {
  allowed = leb w.count config.max_requests;
  limit = config.max_requests;
  remaining = config.max_requests - w.count;
  reset_at = w.reset_at;
}

-- Which calls of the namespace throw.
pub record RateFaults : Type 0 where
  pub read_down : Bool
  pub write_down : Bool

-- The window is read in one store, and written to the store as it is by then (`later`), which other
-- requests may have written meanwhile. The result is `none` where a call throws. An entry lives
-- longer than its window, so that its end is not seen.
unfoldable pub consume_rate_limit :
    RateFaults
    → Dict WindowMetadata
    → Dict WindowMetadata
    → String
    → RateLimitConfig
    → ℕ
    → Option RateLimitOutcome × Dict WindowMetadata
consume_rate_limit faults kv later key config now =
    let w = counted config now (read_window (get kv key) now) in
    if faults.read_down
    then (none, later)
    else if faults.write_down
    then (none, later)
    else (some (outcome_of config w), put later key w)

pub data Verdict : Type 0 where
  pass : Verdict
  -- The answer 429, with `Retry-After`.
  too_many : ℕ → Verdict

abbrev verdict_of : ℕ → Option RateLimitOutcome → Verdict
verdict_of answered_at none = Verdict.pass
verdict_of answered_at (some outcome) =
    if outcome.allowed
    then Verdict.pass
    else Verdict.too_many (max 1 ((outcome.reset_at - answered_at + 999) / 1000))

-- The middleware. It fails open where the namespace is missing or throws; `answered_at` is the clock
-- when it answers.
unfoldable pub rate_limit :
    Bool
    → RateFaults
    → (String → String)
    → RateLimitConfig
    → Caller
    → ℕ
    → ℕ
    → Dict WindowMetadata
    → Dict WindowMetadata
    → Verdict × Dict WindowMetadata
rate_limit missing faults lower config caller now answered_at kv later =
    let (outcome, stored) =
      consume_rate_limit faults kv later (identify_caller lower caller) config now in
    if missing then (Verdict.pass, later) else (verdict_of answered_at outcome, stored)

-- A request: when it comes, when it is answered, and which calls throw for it.
pub record Arrival : Type 0 where
  pub now : ℕ
  pub answered_at : ℕ
  pub faults : RateFaults

-- Requests of one caller, each of which ends before the next one comes: what they are answered.
unfoldable pub serve :
    (String → String) → RateLimitConfig → Caller → List Arrival → Dict WindowMetadata → List Verdict
serve lower config caller [] kv = []
serve lower config caller (a ∷ arrivals) kv =
    let served = rate_limit false a.faults lower config caller a.now a.answered_at kv kv in
    served.0 ∷ serve lower config caller arrivals served.1
