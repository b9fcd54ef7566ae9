-- ===== src/Analytics/Extensions.antt =====
-- src/analytics/extensions.cpp: `AnalyticsExtensions`, which runs the anomaly detector and the resistance
-- estimator and hands rows to the database. `wall` is the system clock and `tick` the steady clock, in
-- whole seconds; `cloud` is `weather_->current_cloud_cover()`. The rows are kept as values, and the
-- function's static times are part of the state.
pub mod Rows
pub mod Keeps
pub mod Parts
use limonitor.Common.{
  ℕ, ◌+◌, ◌-◌, Bool, true, false, not, ◌&&◌, ◌||◌, List, [], ◌∷◌, ◌++◌, Option, none, some, length,
  ltb, leb, last?, push_bounded, foldl, String, if◌then◌else◌,
}
use limonitor.Double.{Double, ◌+F◌, ◌-F◌, ◌*F◌, ◌/F◌, ◌<F◌, ◌>F◌, ◌≤F◌, of_ℕ, decimal}
use limonitor.Battery.{BatterySnapshot, PwrGateSnapshot, TxEvent}
use limonitor.AnalyticsEngine.{Charger}
use limonitor.Analytics.Anomalies.{AnomalyDetector}
use limonitor.Analytics.Anomalies.{update as update_anomalies}
use limonitor.Analytics.Resistance.{ResistanceEstimator, internal_resistance_mohm, time_series}
use limonitor.Analytics.Resistance.{update as update_resistance}

abbrev pub max_charge_history : ℕ
max_charge_history = 72

abbrev pub solar_perf_interval_sec : ℕ
solar_perf_interval_sec = 900

pub record ResistanceRow (F : Type 0) : Type 0 where
  pub ts : F
  pub ohm : F

pub record EfficiencyRow (F : Type 0) : Type 0 where
  pub ts : F
  pub efficiency : F
  pub input_w : F
  pub battery_w : F

pub record SolarPerfRow (F : Type 0) : Type 0 where
  pub ts : ℕ
  pub cloud_cover : F
  pub actual_w : F
  pub theoretical_w : F
  pub coefficient : F
  pub sol_v : F
  pub bat_v : F
  pub bat_a : F
  pub soc : F

pub record Extensions (F : Type 0) : Type 0 where
  pub anomaly : AnomalyDetector F
  pub resistance : ResistanceEstimator F
  pub charge_history : List F
  pub effective_max_charge_a : F
  pub has_db : Bool
  pub panel_watts : F
  pub system_efficiency : F
  pub latest_solar_coeff : F
  pub last_solar_perf_time : ℕ
  pub last_persisted_ts : F
  pub last_eff_ts : F
  pub resistance_rows : List (ResistanceRow F)
  pub efficiency_rows : List (EfficiencyRow F)
  pub solar_rows : List (SolarPerfRow F)

module _ {F : Type 0} ⦃d : Double F⦄ where
  abbrev larger : F → F → F
  larger m a = if a >F m then a else m

  unfoldable pub hist_max : List F → F
  hist_max history = foldl larger (decimal 0 0) history

  unfoldable pub recall_max : Extensions F → Extensions F
  recall_max s =
      if ltb 0 (length s.charge_history)
      then record s { effective_max_charge_a = hist_max s.charge_history }
      else s

  unfoldable pub track_max : Option (PwrGateSnapshot F) → Extensions F → Extensions F
  track_max none s = recall_max s
  track_max (some chg) s =
      if chg.valid && chg.target_a >F decimal 0 0
      then record s {
        charge_history = push_bounded max_charge_history s.charge_history chg.target_a;
        effective_max_charge_a = chg.target_a;
      }
      else recall_max s

  unfoldable pub write_resistance : Option (F × F) → Extensions F → Extensions F
  write_resistance none s = s
  write_resistance (some (ts, r)) s =
      if ts >F s.last_persisted_ts +F decimal 3600 0
      then record s {
        resistance_rows = s.resistance_rows ++ (record { ts = ts; ohm = r /F decimal 1000 0 } ∷ []);
        last_persisted_ts = ts;
      }
      else s

  unfoldable pub persist_resistance : F → Extensions F → Extensions F
  persist_resistance r_mohm s =
      if s.has_db && r_mohm >F decimal 0 0
      then write_resistance (last? (time_series 1 s.resistance)) s
      else s

  unfoldable pub write_efficiency : PwrGateSnapshot F → F → Extensions F → Extensions F
  write_efficiency chg eff s =
      let ts = of_ℕ chg.timestamp in
      let battery_w = chg.bat_v *F chg.bat_a in
      if ts >F s.last_eff_ts +F decimal 3600 0
      then record s {
        efficiency_rows =
            s.efficiency_rows
            ++ (record {
              ts = ts;
              efficiency = eff;
              input_w = battery_w /F eff;
              battery_w = battery_w;
            }
                ∷ []);
        last_eff_ts = ts;
      }
      else s

  unfoldable pub persist_efficiency :
      Option (PwrGateSnapshot F) → Charger F → Extensions F → Extensions F
  persist_efficiency none an s = s
  persist_efficiency (some chg) an s =
      if s.has_db
        && chg.valid
        && an.efficiency_valid
        && an.charger_efficiency >F decimal 0 0
        && an.charger_efficiency <F decimal 1 0
        && chg.bat_a >F decimal 5 1
      then write_efficiency chg an.charger_efficiency s
      else s

  -- The panels' output in full sun, less the clouds.
  unfoldable pub theoretical_w : F → Extensions F → F
  theoretical_w cloud s = s.panel_watts *F s.system_efficiency *F (decimal 1 0 -F cloud)

  -- The guards of `maybe_record_solar_performance`, in order.
  unfoldable pub is_recordable : ℕ → F → PwrGateSnapshot F → Extensions F → Bool
  is_recordable tick cloud chg s =
      s.has_db
      && chg.valid
      && not (s.panel_watts ≤F decimal 0 0)
      && leb solar_perf_interval_sec (tick - s.last_solar_perf_time)
      && not (chg.sol_v <F decimal 5 0 || chg.bat_a <F decimal 5 1)
      && not (cloud <F decimal 0 0)
      && not (theoretical_w cloud s <F decimal 5 0)

  unfoldable pub coefficient : F → F → F
  coefficient actual theoretical =
      let c = actual /F theoretical in if c >F decimal 3 0 then decimal 3 0 else c

  unfoldable pub record_performance :
      ℕ → ℕ → F → BatterySnapshot F → PwrGateSnapshot F → Extensions F → Extensions F
  record_performance wall tick cloud bat chg s =
      let actual = chg.bat_v *F chg.bat_a in
      let theoretical = theoretical_w cloud s in
      let coeff = coefficient actual theoretical in
      record s {
        solar_rows =
            s.solar_rows
            ++ (record {
              ts = wall;
              cloud_cover = cloud;
              actual_w = actual;
              theoretical_w = theoretical;
              coefficient = coeff;
              sol_v = chg.sol_v;
              bat_v = chg.bat_v;
              bat_a = chg.bat_a;
              soc = bat.soc_pct;
            }
                ∷ []);
        latest_solar_coeff = coeff;
        last_solar_perf_time = tick;
      }

  unfoldable pub maybe_record_solar_performance :
      ℕ → ℕ → F → BatterySnapshot F → Option (PwrGateSnapshot F) → Extensions F → Extensions F
  maybe_record_solar_performance wall tick cloud bat none s = s
  maybe_record_solar_performance wall tick cloud bat (some chg) s =
      if is_recordable tick cloud chg s then record_performance wall tick cloud bat chg s else s

  -- The estimator and then the detector, which reads its result.
  unfoldable pub run_detectors :
      ℕ
      → BatterySnapshot F
      → Option (PwrGateSnapshot F)
      → Charger F
      → List (BatterySnapshot F)
      → List (TxEvent F)
      → Extensions F
      → Extensions F
  run_detectors wall bat chg an history tx_events s =
      let resistance = update_resistance history tx_events s.resistance in
      record s {
        resistance = resistance;
        anomaly =
            update_anomalies
              (record {
                now = wall;
                chg = chg;
                charging_stage = an.charging_stage;
                r_internal_mohm = internal_resistance_mohm resistance;
                effective_max_charge_a = s.effective_max_charge_a;
              })
              bat s.anomaly;
      }

  unfoldable pub update :
      ℕ
      → ℕ
      → F
      → BatterySnapshot F
      → Option (PwrGateSnapshot F)
      → Charger F
      → List (BatterySnapshot F)
      → List (TxEvent F)
      → Extensions F
      → Extensions F
  update wall tick cloud bat chg an history tx_events s =
      let seen = run_detectors wall bat chg an history tx_events (track_max chg s) in
      let rows =
        persist_efficiency chg an
          (persist_resistance (internal_resistance_mohm seen.resistance) seen) in
      maybe_record_solar_performance wall tick cloud bat chg rows
