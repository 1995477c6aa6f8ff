-- ===== src/Alerts/Spikes.antt =====
-- What is announced has been traded.
use aether_dex.Prelude.{
  ℕ, ◌-◌, ◌*◌, ◌<◌, ◌≡◌, refl, arith, true, not, List, [], ◌∷◌, String, ltb, branch_on, All,
}
use aether_dex.Prelude.Sort.{sort_by-All}
use aether_dex.Alerts.Volume.{Volume, volume_of-Volume}
use aether_dex.Alerts.{
  VolumeAlertConfig, VolumeSpike, VolumeAlert, TransactionRow, Cooldowns, KvCalls, is_in_cooldown,
  format_volume_alert, alert_spikes, volume_of, pools_of, spikes_of, window_start, larger_first,
  read_volume_spikes, run_volume_alerts_tick,
}

module _ (config : VolumeAlertConfig) (now : ℕ) (rows : List TransactionRow) where
  -- The volume is the sum of the positive amounts that the pool's rows of the chain hold since the
  -- window began, and it is over the threshold.
  pub record IsSpike (spike : VolumeSpike) : Type 0 where
    pub volume :
        Volume config.chain_id
          (now - config.window_seconds * 1000)
          spike.pool_id
          rows
          spike.volume_usd
    pub over : config.threshold_usd < spike.volume_usd
    pub threshold : spike.threshold_usd ≡ config.threshold_usd
    pub window : spike.window_seconds ≡ config.window_seconds

  pub record IsAlert (alert : VolumeAlert) : Type 0 where
    pub chain : alert.chain_id ≡ config.chain_id
    pub time : alert.timestamp ≡ now
    pub volume :
        Volume config.chain_id
          (now - config.window_seconds * 1000)
          alert.pool_id
          rows
          alert.volume_usd
    pub over : config.threshold_usd < alert.volume_usd
    pub threshold : alert.threshold_usd ≡ config.threshold_usd
    pub window : alert.window_seconds ≡ config.window_seconds

  less : (a b : ℕ) → ltb a b ≡ true → a < b
  less a b h = ground arith

  spikes_of-IsSpike :
      (pools : List String) → All IsSpike (spikes_of config (window_start config now) rows pools)
  unfolding spikes_of
  spikes_of-IsSpike [] = tt
  spikes_of-IsSpike (pool ∷ pools) =
      let rest = spikes_of-IsSpike pools in
      let volume = volume_of config.chain_id (window_start config now) pool rows in
      branch_on (All IsSpike) (ltb config.threshold_usd volume) _ _
        (λ over. (
          record {
            volume = volume_of-Volume config.chain_id (window_start config now) pool rows;
            over = less config.threshold_usd volume over;
            threshold = refl;
            window = refl;
          },
          rest,
        ))
        (λ under. rest)

  read_volume_spikes-IsSpike : All IsSpike (read_volume_spikes config now rows)
  unfolding read_volume_spikes
  read_volume_spikes-IsSpike =
      sort_by-All larger_first IsSpike
        (spikes_of config (window_start config now) rows
          (pools_of config.chain_id (window_start config now) rows))
        (spikes_of-IsSpike (pools_of config.chain_id (window_start config now) rows))

  alert_spikes-IsAlert :
      (kv : KvCalls) (spikes : List VolumeSpike) (cooldowns : Cooldowns)
      → All IsSpike spikes
      → All IsAlert (alert_spikes config kv now spikes cooldowns).0
  unfolding alert_spikes format_volume_alert
  alert_spikes-IsAlert kv [] cooldowns h = tt
  alert_spikes-IsAlert kv (spike ∷ spikes) cooldowns (sound, h) =
      let P : List VolumeAlert × Cooldowns → Type 0 = λ r. All IsAlert r.0 in
      let alert : IsAlert (format_volume_alert config.chain_id spike now) = record {
        chain = refl;
        time = refl;
        volume = sound.volume;
        over = sound.over;
        threshold = sound.threshold;
        window = sound.window;
      } in
      let rest = alert_spikes-IsAlert kv spikes _ h in
      branch_on P (not (kv.reads spike.pool_id)) _ _ (λ g. tt)
        (λ answered.
          branch_on P
            (is_in_cooldown cooldowns (kv.read_at spike.pool_id) config.chain_id spike.pool_id) _ _
            (λ cooling. rest)
            (λ hot.
              branch_on P (kv.writes spike.pool_id) _ _ (λ g. (alert, rest))
                (λ refused. (alert, tt))))

-- Every alert of a tick is of the configured chain, and carries the sum of the positive amounts that
-- the rows of the chain and the pool hold from the window's start on, also of rows later than the
-- tick; that sum is over the threshold, and the threshold and the window are the configured ones.
pub run_volume_alerts_tick-IsAlert :
    (config : VolumeAlertConfig) (kv : KvCalls) (now : ℕ) (rows : List TransactionRow)
    (cooldowns : Cooldowns)
    → All (IsAlert config now rows) (run_volume_alerts_tick config kv now rows cooldowns).0
unfolding run_volume_alerts_tick
run_volume_alerts_tick-IsAlert config kv now rows cooldowns =
    alert_spikes-IsAlert config now rows kv (read_volume_spikes config now rows) cooldowns
      (read_volume_spikes-IsSpike config now rows)
