-- ===== src/Alerts.antt =====
-- Volume alerts (apps/api/src/services/volume-alerts.service.ts). Amounts are in one unit of account
-- without fractions. The KV namespace is a map whose entries carry the time at which they end: a
-- read before it finds the entry, and none after.
pub mod Volume
pub mod Spikes
pub mod Cooldown
mod Tests
use aether_dex.Prelude.{
  ℕ, ◌+◌, ◌-◌, ◌*◌, max, Bool, true, false, not, ◌&&◌, ◌||◌, Option, none, some, List, [], ◌∷◌,
  String, ◌==◌, ltb, leb, str_eq, filter, if◌then◌else◌,
}
use aether_dex.Prelude.Text.{is_positive_decimal, decimal_value}
use aether_dex.Prelude.Sort.{sort_by}
use aether_dex.Orders.Trigger.{parse_chain_id, max_safe_integer}

pub record VolumeAlertConfig : Type 0 where
  pub chain_id : ℕ
  pub window_seconds : ℕ
  pub threshold_usd : ℕ
  pub cooldown_seconds : ℕ

pub record VolumeAlertEnv : Type 0 where
  pub chain_id : Option String
  pub volume_alert_window_seconds : Option String
  pub volume_alert_threshold_usd : Option String
  pub volume_alert_cooldown_seconds : Option String

pub record VolumeSpike : Type 0 where
  pub pool_id : String
  pub volume_usd : ℕ
  pub window_seconds : ℕ
  pub threshold_usd : ℕ

-- The numbers are texts in the source.
pub record VolumeAlert : Type 0 where
  pub chain_id : ℕ
  pub pool_id : String
  pub volume_usd : ℕ
  pub threshold_usd : ℕ
  pub window_seconds : ℕ
  pub timestamp : ℕ

-- The columns of `transactions` that the query reads; `created_at` is in milliseconds.
pub record TransactionRow : Type 0 where
  pub chain_id : ℕ
  pub created_at : ℕ
  pub pool_id : Option String
  pub amount_usd : Option ℕ

abbrev safe_or : ℕ → String → ℕ
safe_or fallback trimmed =
    if not (is_positive_decimal trimmed)
    then fallback
    else if leb (decimal_value trimmed) max_safe_integer
    then decimal_value trimmed
    else fallback

-- `trim` is the runtime's.
unfoldable pub parse_positive_integer : (String → String) → Option String → ℕ → ℕ
parse_positive_integer trim none fallback = fallback
parse_positive_integer trim (some value) fallback = safe_or fallback (trim value)

abbrev config_of : (String → String) → VolumeAlertEnv → Option ℕ → Option VolumeAlertConfig
config_of trim env none = none
config_of trim env (some chain_id) = some (record {
  chain_id = chain_id;
  window_seconds = parse_positive_integer trim env.volume_alert_window_seconds 300;
  threshold_usd = parse_positive_integer trim env.volume_alert_threshold_usd 1000000;
  cooldown_seconds = parse_positive_integer trim env.volume_alert_cooldown_seconds 900;
})

unfoldable pub read_volume_alert_config :
    (String → String) → VolumeAlertEnv → Option VolumeAlertConfig
read_volume_alert_config trim env = config_of trim env (parse_chain_id env.chain_id)

-- The amount that a row adds to a pool: the row is of the chain and the pool, not before the window,
-- and its amount is positive.
abbrev pub amount_or_zero : Option ℕ → ℕ
amount_or_zero none = 0
amount_or_zero (some amount) = amount

abbrev pub is_of_pool : String → Option String → Bool
is_of_pool pool_id none = false
is_of_pool pool_id (some p) = str_eq p pool_id

abbrev pub counts : ℕ → ℕ → TransactionRow → Bool
counts chain_id start row =
    row.chain_id == chain_id && leb start row.created_at && ltb 0 (amount_or_zero row.amount_usd)

unfoldable pub volume_of : ℕ → ℕ → String → List TransactionRow → ℕ
volume_of chain_id start pool_id [] = 0
volume_of chain_id start pool_id (row ∷ rows) =
    let rest = volume_of chain_id start pool_id rows in
    if counts chain_id start row && is_of_pool pool_id row.pool_id
    then amount_or_zero row.amount_usd + rest
    else rest

abbrev has_text : String → List String → Bool
has_text s [] = false
has_text s (t ∷ ts) = str_eq t s || has_text s ts

abbrev with_pool : Option String → List String → List String
with_pool none pools = pools
with_pool (some p) pools = if has_text p pools then pools else p ∷ pools

-- `GROUP BY pool_id`: each pool of the rows that count, once.
unfoldable pub pools_of : ℕ → ℕ → List TransactionRow → List String
pools_of chain_id start [] = []
pools_of chain_id start (row ∷ rows) =
    let rest = pools_of chain_id start rows in
    if counts chain_id start row then with_pool row.pool_id rest else rest

-- `HAVING SUM(amount_usd) > threshold`
unfoldable pub spikes_of :
    VolumeAlertConfig → ℕ → List TransactionRow → List String → List VolumeSpike
spikes_of config start rows [] = []
spikes_of config start rows (pool_id ∷ pools) =
    let rest = spikes_of config start rows pools in
    let volume = volume_of config.chain_id start pool_id rows in
    if ltb config.threshold_usd volume
    then record {
      pool_id = pool_id;
      volume_usd = volume;
      window_seconds = config.window_seconds;
      threshold_usd = config.threshold_usd;
    }
      ∷ rest
    else rest

-- `now - windowSeconds * 1000`, or 0 where that is negative, which no time of a row is below.
abbrev pub window_start : VolumeAlertConfig → ℕ → ℕ
window_start config now = now - config.window_seconds * 1000

abbrev pub larger_first : VolumeSpike → VolumeSpike → Bool
larger_first a b = leb b.volume_usd a.volume_usd

unfoldable pub read_volume_spikes : VolumeAlertConfig → ℕ → List TransactionRow → List VolumeSpike
read_volume_spikes config now rows =
    let start = window_start config now in
    sort_by larger_first (spikes_of config start rows (pools_of config.chain_id start rows))

-- The entries under `va:cooldown:<chain>:<pool>`, each with the time in milliseconds at which it ends.
abbrev pub Cooldowns : Type 0
Cooldowns = ℕ → String → Option ℕ

-- One tick's calls of the KV namespace for a pool: when the entry is read and written, and whether
-- the calls answer.
pub record KvCalls : Type 0 where
  pub read_at : String → ℕ
  pub written_at : String → ℕ
  pub reads : String → Bool
  pub writes : String → Bool

abbrev runs_at : ℕ → Option ℕ → Bool
runs_at now none = false
runs_at now (some ends) = ltb now ends

unfoldable pub is_in_cooldown : Cooldowns → ℕ → ℕ → String → Bool
is_in_cooldown cooldowns now chain_id pool_id = runs_at now (cooldowns chain_id pool_id)

-- The time to live in milliseconds.
abbrev pub cooldown_ms : ℕ → ℕ
cooldown_ms cooldown_seconds = max 60 cooldown_seconds * 1000

unfoldable pub mark_cooldown : ℕ → String → ℕ → ℕ → Cooldowns → Cooldowns
mark_cooldown chain_id pool_id cooldown_seconds now cooldowns c p =
    if c == chain_id && str_eq p pool_id
    then some (now + cooldown_ms cooldown_seconds)
    else cooldowns c p

unfoldable pub format_volume_alert : ℕ → VolumeSpike → ℕ → VolumeAlert
format_volume_alert chain_id spike timestamp = record {
  chain_id = chain_id;
  pool_id = spike.pool_id;
  volume_usd = spike.volume_usd;
  threshold_usd = spike.threshold_usd;
  window_seconds = spike.window_seconds;
  timestamp = timestamp;
}

-- The alerts that are delivered of the spikes in turn, and the cooldowns then. A call that throws
-- ends the tick; an alert is delivered before its cooldown is written.
unfoldable pub alert_spikes :
    VolumeAlertConfig → KvCalls → ℕ → List VolumeSpike → Cooldowns → List VolumeAlert × Cooldowns
alert_spikes config kv now [] cooldowns = ([], cooldowns)
alert_spikes config kv now (spike ∷ spikes) cooldowns =
    let pool = spike.pool_id in
    let cooling = is_in_cooldown cooldowns (kv.read_at pool) config.chain_id pool in
    let marked =
      mark_cooldown config.chain_id pool config.cooldown_seconds (kv.written_at pool) cooldowns in
    let alert = format_volume_alert config.chain_id spike now in
    let rest = alert_spikes config kv now spikes (if cooling then cooldowns else marked) in
    if not (kv.reads pool)
    then ([], cooldowns)
    else if cooling
    then rest
    else if kv.writes pool
    then (alert ∷ rest.0, rest.1)
    else (alert ∷ [], cooldowns)

unfoldable pub run_volume_alerts_tick :
    VolumeAlertConfig → KvCalls → ℕ → List TransactionRow → Cooldowns → List VolumeAlert × Cooldowns
run_volume_alerts_tick config kv now rows cooldowns =
    alert_spikes config kv now (read_volume_spikes config now rows) cooldowns
