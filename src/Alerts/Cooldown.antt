-- ===== src/Alerts/Cooldown.antt =====
-- A pool is announced once in a cooldown.
use aether_dex.Prelude.{
  ℕ, ◌+◌, ◌<◌, ◌≡◌, refl, ◌∙◌, arith, Bool, true, false, not, ◌||◌, some, List, [], ◌∷◌, String,
  str_eq, eq_iff, if◌then◌else◌, branch_on, All, Bool-cases, inl, inr,
}
use aether_dex.Alerts.{
  VolumeAlertConfig, VolumeSpike, VolumeAlert, TransactionRow, Cooldowns, KvCalls, is_in_cooldown,
  cooldown_ms, mark_cooldown, format_volume_alert, alert_spikes, read_volume_spikes,
  run_volume_alerts_tick,
}

-- Whether a pool is among those that are announced.
abbrev pub mentions : String → List VolumeAlert → Bool
mentions pool [] = false
mentions pool (alert ∷ alerts) = str_eq alert.pool_id pool || mentions pool alerts

module _ (config : VolumeAlertConfig) (kv : KvCalls) (now : ℕ) (pool : String) where
  cooling_here :
      (cooldowns : Cooldowns) (ends : ℕ) (other : String)
      → cooldowns config.chain_id pool ≡ some ends
      → kv.read_at pool < ends
      → is_in_cooldown cooldowns (kv.read_at other) config.chain_id other ≡ false
      → str_eq other pool ≡ false
  unfolding is_in_cooldown
  cooling_here cooldowns ends other at early hot = ground (arith, eq_iff other pool)

  marked_other :
      (cooldowns : Cooldowns) (other : String) (time : ℕ)
      → str_eq other pool ≡ false
      → mark_cooldown config.chain_id other config.cooldown_seconds time cooldowns config.chain_id
          pool
        ≡ cooldowns config.chain_id pool
  unfolding mark_cooldown
  marked_other cooldowns other time h = ground (arith, eq_iff other pool, eq_iff pool other)

  marked_same :
      (cooldowns : Cooldowns) (other : String)
      → str_eq other pool ≡ true
      → mark_cooldown config.chain_id other config.cooldown_seconds
          (kv.written_at other)
          cooldowns
          config.chain_id
          pool
        ≡ some (kv.written_at pool + cooldown_ms config.cooldown_seconds)
  unfolding mark_cooldown
  marked_same cooldowns other h = ground (arith, eq_iff other pool, eq_iff pool other)

  marked_or_kept :
      (cooldowns : Cooldowns) (other : String)
      → cooldowns config.chain_id pool
        ≡ some (kv.written_at pool + cooldown_ms config.cooldown_seconds)
      → mark_cooldown config.chain_id other config.cooldown_seconds
          (kv.written_at other)
          cooldowns
          config.chain_id
          pool
        ≡ some (kv.written_at pool + cooldown_ms config.cooldown_seconds)
  unfolding mark_cooldown
  marked_or_kept cooldowns other at = ground (arith, eq_iff other pool, eq_iff pool other)

  -- While the pool cools down it is not announced, and its cooldown stays.
  abbrev Silent : ℕ → List VolumeAlert × Cooldowns → Type 0
  Silent ends r = (mentions pool r.0 ≡ false) × (r.1 config.chain_id pool ≡ some ends)

  alert_spikes-Silent :
      (spikes : List VolumeSpike) (cooldowns : Cooldowns) (ends : ℕ)
      → cooldowns config.chain_id pool ≡ some ends
      → kv.read_at pool < ends
      → Silent ends (alert_spikes config kv now spikes cooldowns)
  unfolding alert_spikes format_volume_alert
  alert_spikes-Silent [] cooldowns ends at early = (refl, at)
  alert_spikes-Silent (spike ∷ spikes) cooldowns ends at early =
      let other = spike.pool_id in
      let cooling = is_in_cooldown cooldowns (kv.read_at other) config.chain_id other in
      let kept =
        branch_on (λ (c : Cooldowns). c config.chain_id pool ≡ some ends) cooling _ _ (λ h. at)
          (λ hot.
            marked_other cooldowns other (kv.written_at other)
              (cooling_here cooldowns ends other at early hot)
            ∙ at) in
      let rest = alert_spikes-Silent spikes _ ends kept early in
      branch_on (Silent ends) (not (kv.reads other)) _ _ (λ h. (refl, at))
        (λ answered.
          branch_on (Silent ends) cooling _ _ (λ h. rest)
            (λ hot.
              let apart = cooling_here cooldowns ends other at early hot in
              branch_on (Silent ends) (kv.writes other) _ _ (λ h. (rw apart rest.0, rest.1))
                (λ h. (rw apart refl, at))))

  -- The end that the tick writes for the pool.
  abbrev written : ℕ
  written = kv.written_at pool + cooldown_ms config.cooldown_seconds

  alert_spikes-keeps :
      (spikes : List VolumeSpike) (cooldowns : Cooldowns)
      → cooldowns config.chain_id pool ≡ some written
      → (alert_spikes config kv now spikes cooldowns).1 config.chain_id pool ≡ some written
  unfolding alert_spikes
  alert_spikes-keeps [] cooldowns at = at
  alert_spikes-keeps (spike ∷ spikes) cooldowns at =
      let other = spike.pool_id in
      let cooling = is_in_cooldown cooldowns (kv.read_at other) config.chain_id other in
      let P : List VolumeAlert × Cooldowns → Type 0 =
        λ r. r.1 config.chain_id pool ≡ some written in
      let kept =
        branch_on (λ (c : Cooldowns). c config.chain_id pool ≡ some written) cooling _ _ (λ h. at)
          (λ hot. marked_or_kept cooldowns other at) in
      let rest = alert_spikes-keeps spikes _ kept in
      branch_on P (not (kv.reads other)) _ _ (λ h. at)
        (λ answered.
          branch_on P cooling _ _ (λ h. rest)
            (λ hot. branch_on P (kv.writes other) _ _ (λ h. rest) (λ h. at)))

  -- Once the pool is announced and the write of its cooldown answers, its cooldown is written.
  abbrev Marked : List VolumeAlert × Cooldowns → Type 0
  Marked r = mentions pool r.0 ≡ true → r.1 config.chain_id pool ≡ some written

  alert_spikes-Marked :
      (spikes : List VolumeSpike) (cooldowns : Cooldowns)
      → kv.writes pool ≡ true
      → Marked (alert_spikes config kv now spikes cooldowns)
  unfolding alert_spikes format_volume_alert
  alert_spikes-Marked [] cooldowns answers = λ announced. cc
  alert_spikes-Marked (spike ∷ spikes) cooldowns answers =
      let other = spike.pool_id in
      let cooling = is_in_cooldown cooldowns (kv.read_at other) config.chain_id other in
      let next : Cooldowns =
        if cooling
        then cooldowns
        else mark_cooldown config.chain_id other config.cooldown_seconds (kv.written_at other)
            cooldowns in
      let rest = alert_spikes-Marked spikes next answers in
      branch_on Marked (not (kv.reads other)) _ _ (λ h announced. cc)
        (λ answered.
          branch_on Marked cooling _ _ (λ h. rest)
            (λ hot.
              branch_on Marked (kv.writes other) _ _
                (λ h announced. elim (Bool-cases (str_eq other pool)) [
                  | inl same ↦
                      alert_spikes-keeps spikes next (rw hot (marked_same cooldowns other same))
                  | inr apart ↦ rest (ground arith)
                ])
                (λ refused announced. ground (arith, eq_iff other pool))))

-- A later tick, on what the table holds by then.
pub record Tick : Type 0 where
  pub kv : KvCalls
  pub now : ℕ
  pub rows : List TransactionRow

-- What the ticks in turn announce.
unfoldable pub run_ticks : VolumeAlertConfig → List Tick → Cooldowns → List (List VolumeAlert)
run_ticks config [] cooldowns = []
run_ticks config (tick ∷ ticks) cooldowns =
    let ran = run_volume_alerts_tick config tick.kv tick.now tick.rows cooldowns in
    ran.0 ∷ run_ticks config ticks ran.1

run_ticks-silent :
    (config : VolumeAlertConfig) (pool : String) (ends : ℕ) (ticks : List Tick)
    (cooldowns : Cooldowns)
    → cooldowns config.chain_id pool ≡ some ends
    → All (λ (t : Tick). t.kv.read_at pool < ends) ticks
    → All (λ alerts. mentions pool alerts ≡ false) (run_ticks config ticks cooldowns)
unfolding run_ticks run_volume_alerts_tick
run_ticks-silent config pool ends [] cooldowns at early = tt
run_ticks-silent config pool ends (tick ∷ ticks) cooldowns at (early, later) =
    let spikes = read_volume_spikes config tick.now tick.rows in
    let (silent, kept) =
      alert_spikes-Silent config tick.kv tick.now pool spikes cooldowns ends at early in
    (silent, run_ticks-silent config pool ends ticks _ kept later)

-- After a tick that announces a pool and writes its cooldown, no tick that reads the pool's cooldown
-- before its end announces the pool again, whatever is traded and whatever calls fail; the cooldown
-- lasts the configured seconds, and a minute at the least.
pub run_volume_alerts_tick-cooldown :
    (config : VolumeAlertConfig) (first : Tick) (cooldowns : Cooldowns) (pool : String)
    (ticks : List Tick)
    → mentions pool (run_volume_alerts_tick config first.kv first.now first.rows cooldowns).0 ≡ true
    → first.kv.writes pool ≡ true
    → All
        (λ (t : Tick).
          t.kv.read_at pool < first.kv.written_at pool + cooldown_ms config.cooldown_seconds)
        ticks
    → All
        (λ alerts. mentions pool alerts ≡ false)
        (run_ticks config ticks
          (run_volume_alerts_tick config first.kv first.now first.rows cooldowns).1)
unfolding run_volume_alerts_tick
run_volume_alerts_tick-cooldown config first cooldowns pool ticks announced answers early =
    let spikes = read_volume_spikes config first.now first.rows in
    run_ticks-silent config pool (first.kv.written_at pool + cooldown_ms config.cooldown_seconds)
      ticks _
      (alert_spikes-Marked config first.kv first.now pool spikes cooldowns answers announced) early
