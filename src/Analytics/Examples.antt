-- ===== src/Analytics/Examples.antt =====
-- The theorems of the analytics at concrete inputs.
use text.Mathlib.Text.{◌==◌ as str_eq}
use limonitor.Common.{
  ◌+◌, ◌≤◌, ◌<◌, ◌≡◌, refl, ◌⊎◌, true, false, none, some, [], ◌∷◌, if◌then◌else◌,
}
use limonitor.Common.Int.{pos}
use limonitor.Double.{Fixed, fixed_double, Fixed-IsOrdered}
use limonitor.Battery.{BatterySnapshot, PwrGateSnapshot}
use limonitor.Battery.Samples.{blank, idle_charger}
use limonitor.Analytics.Anomalies.{
  AnomalyEvent, AnomalyDetector, blank_event, rolling_avg_load, add_anomaly, load_spike_rule,
}
use limonitor.Analytics.Anomalies.Debounce.{is_spike, load_spike_rule_cases}
use limonitor.Battery.{TxEvent}
use limonitor.Analytics.Resistance.{ResistanceEstimator}
use limonitor.AnalyticsEngine.Start.{no_charger}
use limonitor.Analytics.Extensions.{Extensions, maybe_record_solar_performance, is_recordable}
use limonitor.Analytics.Extensions.Parts.{
  Config, Input, configure, tell, forget, new_analytics, run,
}
use limonitor.Analytics.Extensions.Parts.Fresh.{IsKept, run-new_analytics-IsKept}
use limonitor.Weather.{Service}
use limonitor.Analytics.Extensions.Keeps.{IsRecorded, maybe_record_cases}

abbrev spike : AnomalyEvent Fixed
spike = blank_event "load_spike" 1000

abbrev slow : AnomalyEvent Fixed
slow = blank_event "slow_charging" 1000

abbrev detector : AnomalyDetector Fixed
detector = record {
  load_ring = [];
  load_count = 0;
  r_internal_ring = [];
  r_internal_day = [];
  anomalies = spike ∷ slow ∷ [];
}

load_spike_rule_cases_example :
    (str_eq slow.type "load_spike" ≡ true)
      × (1001 < slow.timestamp + 120)
      × (load_spike_rule 1001 (pos 9_000_000) detector ≡ detector)
    ⊎ (str_eq slow.type "load_spike" ≡ true) × (slow.timestamp + 120 ≤ 1001)
    ⊎ (str_eq slow.type "load_spike" ≡ false)
      × (load_spike_rule 1001 (pos 9_000_000) detector ≡ (
          if is_spike (pos 9_000_000) detector
          then add_anomaly
              (record (blank_event "load_spike" 1001) {
                load_w = pos 9_000_000;
                baseline_w = rolling_avg_load detector;
              })
              detector
          else detector))
load_spike_rule_cases_example =
    load_spike_rule_cases 1001 (pos 9_000_000) (spike ∷ []) slow detector refl

abbrev fresh : ResistanceEstimator Fixed
fresh = record { r_ring = []; r_ts = []; processed_end_times = [] }

abbrev burst : TxEvent Fixed
burst = record {
  start_time = pos 100_000_000;
  end_time = pos 110_000_000;
  duration = pos 10_000_000;
  peak_current = pos 5_000_000;
  peak_power = pos 60_000_000;
}

abbrev before : BatterySnapshot Fixed
before = record blank { timestamp = 99; total_voltage_v = pos 13_300_000; valid = true }

abbrev amid : BatterySnapshot Fixed
amid = record blank { timestamp = 105; total_voltage_v = pos 13_200_000; valid = true }

abbrev extended : Extensions Fixed
extended = record {
  anomaly = detector;
  resistance = fresh;
  charge_history = pos 8_000_000 ∷ [];
  effective_max_charge_a = pos 10_000_000;
  has_db = true;
  panel_watts = pos 400_000_000;
  system_efficiency = pos 850_000;
  latest_solar_coeff = pos 0;
  last_solar_perf_time = 0;
  last_persisted_ts = pos 5_000_000_000;
  last_eff_ts = pos 0;
  resistance_rows = record { ts = pos 5_000_000_000; ohm = pos 20_000 } ∷ [];
  efficiency_rows = [];
  solar_rows = [];
}

abbrev sunlit : PwrGateSnapshot Fixed
sunlit = record idle_charger { bat_a = pos 8_000_000; sol_v = pos 18_000_000 }

abbrev config : Config Fixed
config = record {
  solar_enabled = true;
  solar_panel_watts = pos 400_000_000;
  solar_system_efficiency = pos 750_000;
  solar_zip_code = 56 ∷ [];
  weather_api_key = [];
  weather_zip_code = [];
}

abbrev outside : Service Fixed
outside = record {
  scan = λ text. none;
  trunc = λ x. x;
  day_key = λ t. t;
  date = λ t. "";
  hour_minute = λ t. "";
  month = λ t. 1;
}

abbrev told : Input Fixed
told = record {
  wall = 9000;
  tick = 9000;
  bat = blank;
  chg = some sunlit;
  an = no_charger;
  history = before ∷ amid ∷ [];
  tx_events = burst ∷ [];
}

run-new_analytics-IsKept_example :
    IsKept
      (run outside
        (tell told ∷ forget ∷ configure config ∷ tell told ∷ [])
        (new_analytics config true 5000 [] [])).extensions
run-new_analytics-IsKept_example =
    run-new_analytics-IsKept outside config true 5000 [] []
      (tell told ∷ forget ∷ configure config ∷ tell told ∷ [])

maybe_record_cases_example :
    let after =
      maybe_record_solar_performance 9000 9000 (pos 250_000) blank (some sunlit) extended in
    (is_recordable 9000 (pos 250_000) sunlit extended ≡ true) × IsRecorded 9000 extended after
    ⊎ (is_recordable 9000 (pos 250_000) sunlit extended ≡ false) × (after ≡ extended)
maybe_record_cases_example =
    maybe_record_cases Fixed-IsOrdered 9000 9000 (pos 250_000) blank sunlit extended
