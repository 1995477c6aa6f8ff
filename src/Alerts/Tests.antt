-- ===== src/Alerts/Tests.antt =====
-- Two ticks on one busy pool.
use aether_dex.Prelude.{
  ℕ, ◌+◌, ◌≡◌, refl, arith, true, false, none, some, List, [], ◌∷◌, String, All,
}
use aether_dex.Prelude.Sort.{sort_by, insert_by}
use aether_dex.Alerts.{
  VolumeAlertConfig, TransactionRow, Cooldowns, KvCalls, read_volume_spikes, spikes_of, volume_of,
  pools_of, alert_spikes, is_in_cooldown, mark_cooldown, format_volume_alert,
  run_volume_alerts_tick,
}
use aether_dex.Alerts.Spikes.{IsAlert, run_volume_alerts_tick-IsAlert}
use aether_dex.Alerts.Cooldown.{mentions, Tick, run_ticks, run_volume_alerts_tick-cooldown}

abbrev config : VolumeAlertConfig
config = record { chain_id = 1; window_seconds = 300; threshold_usd = 1000; cooldown_seconds = 900 }

abbrev trade : String → ℕ → ℕ → TransactionRow
trade pool time amount = record {
  chain_id = 1;
  created_at = time;
  pool_id = some pool;
  amount_usd = some amount;
}

abbrev rows : List TransactionRow
rows =
    trade "0xbusy" 900000 700
    ∷ trade "0xquiet" 900000 10
    ∷ trade "0xbusy" 950000 600
    ∷ trade "0xbusy" 100000 5000
    ∷ []

abbrev calls : ℕ → KvCalls
calls time = record {
  read_at = λ pool. time;
  written_at = λ pool. time + 5;
  reads = λ pool. true;
  writes = λ pool. true;
}

abbrev tick_at : ℕ → Tick
tick_at time = record { kv = calls time; now = time; rows = rows }

abbrev none_yet : Cooldowns
none_yet c p = none

announced :
    (run_volume_alerts_tick config (calls 1000000) 1000000 rows none_yet).0
    ≡ record {
      chain_id = 1;
      pool_id = "0xbusy";
      volume_usd = 1300;
      threshold_usd = 1000;
      window_seconds = 300;
      timestamp = 1000000;
    }
      ∷ []
unfolding run_volume_alerts_tick read_volume_spikes sort_by insert_by spikes_of volume_of pools_of
    alert_spikes is_in_cooldown mark_cooldown format_volume_alert
announced = refl

run_volume_alerts_tick-IsAlert_example :
    All
      (IsAlert config 1000000 rows)
      (run_volume_alerts_tick config (calls 1000000) 1000000 rows none_yet).0
run_volume_alerts_tick-IsAlert_example =
    run_volume_alerts_tick-IsAlert config (calls 1000000) 1000000 rows none_yet

run_volume_alerts_tick-cooldown_example :
    All
      (λ alerts. mentions "0xbusy" alerts ≡ false)
      (run_ticks config
        (tick_at 1060000 ∷ tick_at 1120000 ∷ [])
        (run_volume_alerts_tick config (calls 1000000) 1000000 rows none_yet).1)
unfolding run_volume_alerts_tick read_volume_spikes sort_by insert_by spikes_of volume_of pools_of
    alert_spikes is_in_cooldown mark_cooldown format_volume_alert
run_volume_alerts_tick-cooldown_example =
    run_volume_alerts_tick-cooldown config (tick_at 1000000) none_yet "0xbusy"
      (tick_at 1060000 ∷ tick_at 1120000 ∷ []) refl refl (omega arith, (omega arith, tt))
