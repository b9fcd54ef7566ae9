-- ===== src/AnalyticsEngine/Start.antt =====
-- src/analytics.cpp: the constructor of `AnalyticsEngine`, with the values that src/analytics.hpp gives
-- the members.
use limonitor.Common.{false, [], none}
use limonitor.Common.Int.{negsuc}
use limonitor.Double.{Double, decimal, neg}
use limonitor.AnalyticsEngine.{
  AnalyticsEngine, Day, Loads, Capacity, Trend, Sums, Rates, Charger, Shown, unknown,
}
use limonitor.AnalyticsEngine.Rings.Order.{fresh}
use limonitor.AnalyticsEngine.Load.{load_n, chg_pwr_n}
use limonitor.AnalyticsEngine.Regression.{voltage_n, no_sample}
use limonitor.AnalyticsEngine.Extended.Windows.{rate_n}
use limonitor.AnalyticsEngine.Extended.Warnings.{calm}

module _ {F : Type 0} ⦃d : Double F⦄ where
  abbrev zero_f : F
  zero_f = decimal 0 0

  abbrev minus_one : F
  minus_one = neg (decimal 1 0)

  unfoldable pub first_day : Day F
  first_day = record {
    energy_charged_wh = zero_f;
    energy_discharged_wh = zero_f;
    solar_energy_wh = zero_f;
    current_day = negsuc 0;
    max_soc = zero_f;
    min_soc = decimal 100 0;
    soc_init = false;
    charger_runtime_sec = zero_f;
    charger_runtime_day = negsuc 0;
    prev_chg_minutes = negsuc 0;
    energy_by_day = [];
    days_by_day = [];
    last_discharge_integration_ts = minus_one;
    discharge_wh_this_hour = zero_f;
    last_discharge_hour = negsuc 0;
    discharge_wh_per_hour = [];
    discharge_hour_ts = [];
  }

  unfoldable pub no_loads : Loads F
  no_loads = record {
    load = fresh load_n zero_f;
    last_load_push_ts = minus_one;
    chg_pwr = fresh chg_pwr_n zero_f;
    avg_load_watts = zero_f;
    peak_load_watts = zero_f;
    idle_load_watts = zero_f;
  }

  unfoldable pub first_capacity : F → Capacity F
  first_capacity rated = record {
    rated_capacity_ah = rated;
    rated_override = false;
    purchase_date = [];
    was_discharging = false;
    discharge_start_ah = zero_f;
    best_discharge_ah = zero_f;
    usable_capacity_ah = zero_f;
    shown_capacity_ah = rated;
    capacity_health_pct = minus_one;
    battery_age_years = minus_one;
    battery_health_pct = minus_one;
    years_remaining_low = minus_one;
    years_remaining_high = minus_one;
    battery_replace_warn = false;
  }

  abbrev pub no_point : Sums F
  no_point = record { x = zero_f; y = zero_f; x2 = zero_f; xy = zero_f }

  unfoldable pub no_trend : Trend F
  no_trend = record {
    samples = fresh voltage_n no_sample;
    v_sum = no_point;
    s_sum = no_point;
    voltage_trend = "—";
    soc_trend = "—";
    soc_rate_pct_per_h = zero_f;
  }

  unfoldable pub no_rates : Rates F
  no_rates = record {
    rate = fresh rate_n (zero_f, zero_f);
    recent_smoothed = zero_f;
    baseline_smoothed = zero_f;
    recent_pct_per_h = zero_f;
    baseline_pct_per_h = zero_f;
    slowdown = calm;
  }

  unfoldable pub no_charger : Charger F
  no_charger = record {
    charging_stage = "Idle";
    prev_chg_a = minus_one;
    prev_chg_bat_v = minus_one;
    chg_bat_v_delta_ema = zero_f;
    chg_low_current_count = 0;
    abnormal_warning = none;
    psu_plateau_start_ts = minus_one;
    psu = calm;
    charger_efficiency = minus_one;
    efficiency_valid = false;
    solar_voltage_v = zero_f;
    solar_power_w = zero_f;
    solar_active = false;
  }

  unfoldable pub nothing_shown : Shown F
  nothing_shown = record {
    energy_charged_today_wh = zero_f;
    energy_discharged_today_wh = zero_f;
    solar_energy_today_wh = zero_f;
    net_energy_today_wh = zero_f;
    charger_runtime_today_sec = zero_f;
    cell_delta_mv = zero_f;
    cell_balance_status = "—";
    temp1_c = zero_f;
    temp2_c = zero_f;
    temp_valid = false;
    temp_status = "—";
    depth_of_discharge_pct = zero_f;
    dod_status = "—";
    energy_used_week_wh = zero_f;
    battery_stress = "—";
    solar_readiness = none;
    charge_rate_w = zero_f;
    charge_rate_pct_per_h = zero_f;
    health_alerts = [];
    system_status = unknown;
  }

  unfoldable pub new_engine : F → AnalyticsEngine F
  new_engine rated = record {
    day = first_day;
    loads = no_loads;
    capacity = first_capacity rated;
    trend = no_trend;
    rates = no_rates;
    charger = no_charger;
    mode = record { system_mode = 0; system_mode_confirm = 0 };
    shown = nothing_shown;
    runtime = record {
      from_full_h = zero_f;
      from_current_h = zero_f;
      full_exceeds_cap = false;
      current_exceeds_cap = false;
      from_charger = false;
      avg_discharge_24h_w = zero_f;
    };
    prev_bat_ts = zero_f;
    prev_chg_ts = zero_f;
    bat_seen = false;
    chg_seen = false;
  }
