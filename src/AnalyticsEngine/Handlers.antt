-- ===== src/AnalyticsEngine/Handlers.antt =====
-- src/analytics.cpp: compute_extended_analytics, on_battery and on_charger as the composition of their
-- blocks, and the constructor.
pub mod Parts
pub mod Invariant
use limonitor.Common.{
  ℕ, Bool, true, false, not, List, [], ◌∷◌, Option, none, some, String, length, if◌then◌else◌,
}
use limonitor.Common.Int.{ℤ, pos, negsuc}
use limonitor.Double.{Double, ◌+F◌, ◌-F◌, ◌*F◌, ◌<F◌, ◌>F◌, of_ℕ, decimal, neg, fmax}
use limonitor.Battery.{BatterySnapshot, PwrGateSnapshot}
use limonitor.AnalyticsEngine.Rings.Order.{fresh}
use limonitor.AnalyticsEngine.{
  Host, unix_day, local_hour_id, AnalyticsEngine, Shown, Day, Loads, unknown, Charger,
}
use limonitor.AnalyticsEngine.Energy.{
  reset_daily_if_needed, integrate_discharge_wh, note_battery_power, archive_hour, note_soc,
  note_solar, note_runtime, energy_used_week,
}
use limonitor.AnalyticsEngine.Load.{
  load_n, chg_pwr_n, push_load_sample, push_charger_power_sample, recompute_load_stats,
}
use limonitor.AnalyticsEngine.Aging.{minus_one, detect_capacity, track_discharge}
use limonitor.AnalyticsEngine.Stage.{update_charging_stage, note_efficiency, show_solar}
use limonitor.AnalyticsEngine.Regression.{
  voltage_n, no_sample, push_voltage_soc_sample, compute_voltage_trend, compute_soc_trend,
}
use limonitor.AnalyticsEngine.Extended.{show_rate, show_stress, readiness, health_alerts}
use limonitor.AnalyticsEngine.Extended.Windows.{rate_n, note_rate}
use limonitor.AnalyticsEngine.Extended.Warnings.{calm, watch_charger, watch_psu}
use limonitor.AnalyticsEngine.Extended.Runtimes.{estimate_runtime}
use limonitor.AnalyticsEngine.Extended.Status.{next_mode, system_text}
use text.Mathlib.Text.{◌==◌ as str_eq}

module _ {F : Type 0} ⦃d : Double F⦄ where
  unfoldable pub balance_of : F → String
  balance_of dm =
      if dm <F decimal 10 0
      then "Excellent"
      else if dm <F decimal 25 0
      then "Good"
      else if dm <F decimal 50 0
      then "Warning"
      else "Imbalance"

  unfoldable pub temp_name : F → String
  temp_name mx =
      if mx <F decimal 40 0 then "Normal" else if mx <F decimal 50 0 then "Warm" else "Warning"

  unfoldable pub dod_name : F → String
  dod_name dod =
      if dod <F decimal 30 0
      then "Low stress"
      else if dod <F decimal 70 0
      then "Normal"
      else "High stress"

  unfoldable pub show_cells : BatterySnapshot F → Shown F → Shown F
  show_cells snap s =
      let dm = snap.cell_delta_v *F decimal 1000 0 in
      record s { cell_delta_mv = dm; cell_balance_status = balance_of dm }

  -- The second sensor, or the first one where there is no second.
  abbrev pub second_or : F → List F → F
  second_or t [] = t
  second_or t (u ∷ rest) = u

  -- Without a sensor the temperatures and their status stay as they were.
  unfoldable pub show_temps : List F → Shown F → Shown F
  show_temps [] s = record s { temp_valid = false }
  show_temps (t ∷ rest) s =
      let u = second_or t rest in
      record s { temp_valid = true; temp1_c = t; temp2_c = u; temp_status = temp_name (fmax t u) }

  unfoldable pub show_energies : Day F → Shown F → Shown F
  show_energies day s = record s {
    energy_discharged_today_wh = day.energy_discharged_wh;
    energy_charged_today_wh = day.energy_charged_wh;
    net_energy_today_wh = day.energy_charged_wh -F day.energy_discharged_wh;
  }

  unfoldable pub show_depth : Day F → Shown F → Shown F
  show_depth day s =
      let dod = day.max_soc -F day.min_soc in
      record s { depth_of_discharge_pct = dod; dod_status = dod_name dod }

  -- A discharging battery gives a sample of the load.
  unfoldable pub note_battery_load : F → BatterySnapshot F → Loads F → Loads F
  note_battery_load ts snap s =
      if snap.current_a >F decimal 1 1
      then recompute_load_stats (push_load_sample ts snap.power_w s)
      else s

  unfoldable pub charger_load : PwrGateSnapshot F → F
  charger_load snap = snap.bat_v *F neg snap.bat_a

  unfoldable pub draws : PwrGateSnapshot F → Bool
  draws snap = snap.bat_a <F neg (decimal 5 2)

  unfoldable pub note_charger_load : F → PwrGateSnapshot F → Loads F → Loads F
  note_charger_load ts snap s =
      let drawn =
        if draws snap
        then recompute_load_stats (push_load_sample ts (charger_load snap) s)
        else s in
      if snap.bat_a >F decimal 5 2
      then push_charger_power_sample (snap.bat_v *F snap.bat_a) drawn
      else drawn

  -- What on_charger does to the stage and the solar fields.
  unfoldable pub note_stage : PwrGateSnapshot F → Charger F → Charger F
  note_stage snap s =
      let staged = update_charging_stage snap.bat_v snap.target_v snap.bat_a snap.state s in
      show_solar snap (note_efficiency snap (record staged { prev_chg_a = snap.bat_a }))

module _ {F : Type 0} ⦃d : Double F⦄ ⦃host : Host F⦄ where
  unfoldable pub compute_extended_analytics :
      BatterySnapshot F → Option (PwrGateSnapshot F) → AnalyticsEngine F → AnalyticsEngine F
  compute_extended_analytics bat chg s =
      let trend = compute_soc_trend (compute_voltage_trend s.trend) in
      let rates = note_rate bat trend.soc_rate_pct_per_h s.rates in
      let rising = str_eq trend.voltage_trend "up" in
      let charger = watch_psu rising chg (watch_charger chg s.charger) in
      let mode = next_mode bat s.mode in
      let judged = show_stress (show_rate bat s.shown) in
      record s {
        trend = trend;
        rates = rates;
        charger = charger;
        mode = mode;
        runtime = estimate_runtime bat s.day s.loads s.runtime;
        shown = record judged {
          energy_used_week_wh = energy_used_week s.day;
          solar_readiness = readiness chg;
          health_alerts =
              health_alerts judged charger.efficiency_valid charger.charger_efficiency
                trend.voltage_trend bat.soc_pct charger.abnormal_warning charger.psu.warning
                rates.slowdown.warning;
          system_status =
              system_text bat s.capacity.battery_health_pct judged.cell_balance_status
                judged.temp_status mode;
        };
      }

  -- The day's counters after a battery reading.
  unfoldable pub battery_day : BatterySnapshot F → AnalyticsEngine F → Day F
  battery_day snap s =
      let ts = of_ℕ snap.timestamp in
      let today = reset_daily_if_needed (unix_day ts) ts s.day in
      let powered = note_battery_power s.bat_seen s.prev_bat_ts ts snap.power_w today in
      note_soc snap.soc_pct (archive_hour (local_hour_id ts) powered)

  unfoldable pub note_battery : ℤ → BatterySnapshot F → AnalyticsEngine F → AnalyticsEngine F
  note_battery now snap s =
      let ts = of_ℕ snap.timestamp in
      let day = battery_day snap s in
      record s {
        day = day;
        loads = note_battery_load ts snap s.loads;
        capacity = track_discharge now snap (detect_capacity snap.nominal_ah s.capacity);
        trend = push_voltage_soc_sample ts snap.total_voltage_v snap.soc_pct s.trend;
        shown =
            show_depth day
              (show_temps snap.temperatures_c (show_cells snap (show_energies day s.shown)));
      }

  unfoldable pub on_battery :
      ℤ → BatterySnapshot F → Option (PwrGateSnapshot F) → AnalyticsEngine F → AnalyticsEngine F
  on_battery now snap chg s =
      if not snap.valid
      then s
      else record (compute_extended_analytics snap chg (note_battery now snap s)) {
        prev_bat_ts = of_ℕ snap.timestamp;
        bat_seen = true;
      }

  -- The day's counters after a charger reading.
  unfoldable pub charger_day : PwrGateSnapshot F → AnalyticsEngine F → Day F
  charger_day snap s =
      let ts = of_ℕ snap.timestamp in
      let today = reset_daily_if_needed (unix_day ts) ts s.day in
      let solar = note_solar s.chg_seen s.prev_chg_ts ts snap today in
      let drawn =
        if draws snap then integrate_discharge_wh ts (charger_load snap) solar else solar in
      note_runtime (unix_day ts) snap drawn

  unfoldable pub note_charger : PwrGateSnapshot F → AnalyticsEngine F → AnalyticsEngine F
  note_charger snap s =
      let day = charger_day snap s in
      let shown = s.shown in
      record s {
        day = day;
        loads = note_charger_load (of_ℕ snap.timestamp) snap s.loads;
        charger = note_stage snap s.charger;
        shown = record shown {
          solar_energy_today_wh = day.solar_energy_wh;
          charger_runtime_today_sec = day.charger_runtime_sec;
        };
      }

  -- The extended analytics need a battery reading.
  unfoldable pub extend_with :
      PwrGateSnapshot F → Option (BatterySnapshot F) → AnalyticsEngine F → AnalyticsEngine F
  extend_with snap none s = s
  extend_with snap (some bat) s = compute_extended_analytics bat (some snap) s

  unfoldable pub on_charger :
      PwrGateSnapshot F → Option (BatterySnapshot F) → AnalyticsEngine F → AnalyticsEngine F
  on_charger snap bat s =
      if not snap.valid then s else record (extend_with snap bat (note_charger snap s)) {
        prev_chg_ts = of_ℕ snap.timestamp;
        chg_seen = true;
      }
