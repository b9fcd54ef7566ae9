-- ===== src/AnalyticsEngine.antt =====
-- src/analytics.hpp: the state of `AnalyticsEngine`, in groups of fields that change together, and the
-- `AnalyticsSnapshot` it publishes. A bounded array that fills from the front (`energy_by_day_`,
-- `discharge_wh_per_hour_`) is a list whose length is the array's count. What the engine asks of the
-- C library and of the time zone is a `Host`. A formatted text is the constructor of `Text` that holds its
-- numbers, and an empty string that waits for one is `none`.
pub mod Rings
pub mod Energy
pub mod Load
pub mod Aging
pub mod Stage
pub mod Regression
pub mod Extended
pub mod Start
pub mod Handlers
pub mod Samples
mod Examples
use limonitor.Common.{ℕ, ◌+◌, ◌*◌, Bool, List, Option, String}
use limonitor.Common.Int.{ℤ, pos, ◌+ℤ◌, ◌*ℤ◌}
use limonitor.AnalyticsEngine.Rings.{Ring}

-- The fields of `struct tm` that are read.
pub record Tm : Type 0 where
  pub tm_year : ℤ
  pub tm_yday : ℤ
  pub tm_hour : ℤ

-- `localtime` takes the double that the program casts to `time_t`; `mktime` takes year, month and day, as
-- a date writes them; `to_int` is `static_cast<int>(std::round(x))`.
pub record Host (F : Type 0) : Type 0 where
  pub localtime : F → Tm
  pub mktime : ℤ → ℤ → ℤ → ℤ
  pub floor : F → F
  pub ceil : F → F
  pub to_int : F → ℤ

module _ {F : Type 0} ⦃host : Host F⦄ where
  pub unix_day : F → ℤ
  unix_day ts = let tm = host.localtime ts in tm.tm_year *ℤ pos 1000 +ℤ tm.tm_yday

  pub local_hour_id : F → ℤ
  local_hour_id ts =
      let tm = host.localtime ts in
      let day = tm.tm_year *ℤ pos 1000 +ℤ tm.tm_yday in day *ℤ pos 24 +ℤ tm.tm_hour

pub data Text (F : Type 0) : Type 0 where
  literal : String → Text F
  slowed : F → F → Text F
  psu_limited : F → F → ℤ → Text F
  harvesting : F → Text F
  detected : F → Text F

-- The text of `system_status`: mode, battery health, hours left, cell balance and temperature.
pub data SystemText (F : Type 0) : Type 0 where
  unknown : SystemText F
  waiting : SystemText F
  report : String → Option String → Option F → String → String → SystemText F

-- The counters of the day, the archives of completed days and hours, and the extremes of the charge.
pub record Day (F : Type 0) : Type 0 where
  pub energy_charged_wh : F
  pub energy_discharged_wh : F
  pub solar_energy_wh : F
  pub current_day : ℤ
  pub max_soc : F
  pub min_soc : F
  pub soc_init : Bool
  pub charger_runtime_sec : F
  pub charger_runtime_day : ℤ
  pub prev_chg_minutes : ℤ
  pub energy_by_day : List F
  pub days_by_day : List ℤ
  pub last_discharge_integration_ts : F
  pub discharge_wh_this_hour : F
  pub last_discharge_hour : ℤ
  pub discharge_wh_per_hour : List F
  pub discharge_hour_ts : List ℤ

pub record Loads (F : Type 0) : Type 0 where
  pub load : Ring F
  pub last_load_push_ts : F
  pub chg_pwr : Ring F
  pub avg_load_watts : F
  pub peak_load_watts : F
  pub idle_load_watts : F

-- The capacity that is tracked, and the fields of the snapshot that `update_health_and_age` fills.
pub record Capacity (F : Type 0) : Type 0 where
  pub rated_capacity_ah : F
  pub rated_override : Bool
  pub purchase_date : List ℕ
  pub was_discharging : Bool
  pub discharge_start_ah : F
  pub best_discharge_ah : F
  pub usable_capacity_ah : F
  pub shown_capacity_ah : F
  pub capacity_health_pct : F
  pub battery_age_years : F
  pub battery_health_pct : F
  pub years_remaining_low : F
  pub years_remaining_high : F
  pub battery_replace_warn : Bool

-- A cell of the three arrays `voltage_ring_ts_`, `voltage_ring_` and `soc_ring_`.
pub record TrendSample (F : Type 0) : Type 0 where
  pub ts : F
  pub v : F
  pub soc : F

-- `sum_x`, `sum_y`, `sum_x2` and `sum_xy` of one of the two regressions.
pub record Sums (F : Type 0) : Type 0 where
  pub x : F
  pub y : F
  pub x2 : F
  pub xy : F

pub record Trend (F : Type 0) : Type 0 where
  pub samples : Ring (TrendSample F)
  pub v_sum : Sums F
  pub s_sum : Sums F
  pub voltage_trend : String
  pub soc_trend : String
  pub soc_rate_pct_per_h : F

-- A warning of the snapshot with the two counters that debounce it.
pub record Debounced (F : Type 0) : Type 0 where
  pub confirm : ℕ
  pub clear : ℕ
  pub warning : Option (Text F)

-- A cell of `rate_ring_` and `rate_ring_ts_`.
pub record Rates (F : Type 0) : Type 0 where
  pub rate : Ring (F × F)
  pub recent_smoothed : F
  pub baseline_smoothed : F
  pub recent_pct_per_h : F
  pub baseline_pct_per_h : F
  pub slowdown : Debounced F

pub record Charger (F : Type 0) : Type 0 where
  pub charging_stage : String
  pub prev_chg_a : F
  pub prev_chg_bat_v : F
  pub chg_bat_v_delta_ema : F
  pub chg_low_current_count : ℕ
  pub abnormal_warning : Option (Text F)
  pub psu_plateau_start_ts : F
  pub psu : Debounced F
  pub charger_efficiency : F
  pub efficiency_valid : Bool
  pub solar_voltage_v : F
  pub solar_power_w : F
  pub solar_active : Bool

-- `system_mode_` (0 idle, 1 charging, 2 discharging) and its counter.
pub record Mode : Type 0 where
  pub system_mode : ℕ
  pub system_mode_confirm : ℕ

-- The other fields of the snapshot that depend on the last readings alone.
pub record Shown (F : Type 0) : Type 0 where
  pub energy_charged_today_wh : F
  pub energy_discharged_today_wh : F
  pub solar_energy_today_wh : F
  pub net_energy_today_wh : F
  pub charger_runtime_today_sec : F
  pub cell_delta_mv : F
  pub cell_balance_status : String
  pub temp1_c : F
  pub temp2_c : F
  pub temp_valid : Bool
  pub temp_status : String
  pub depth_of_discharge_pct : F
  pub dod_status : String
  pub energy_used_week_wh : F
  pub battery_stress : String
  pub solar_readiness : Option (Text F)
  pub charge_rate_w : F
  pub charge_rate_pct_per_h : F
  pub health_alerts : List (Text F)
  pub system_status : SystemText F

-- What `runtime_*` and `avg_discharge_24h_w` of the snapshot hold.
pub record Runtime (F : Type 0) : Type 0 where
  pub from_full_h : F
  pub from_current_h : F
  pub full_exceeds_cap : Bool
  pub current_exceeds_cap : Bool
  pub from_charger : Bool
  pub avg_discharge_24h_w : F

pub record AnalyticsEngine (F : Type 0) : Type 0 where
  pub day : Day F
  pub loads : Loads F
  pub capacity : Capacity F
  pub trend : Trend F
  pub rates : Rates F
  pub charger : Charger F
  pub mode : Mode
  pub shown : Shown F
  pub runtime : Runtime F
  pub prev_bat_ts : F
  pub prev_chg_ts : F
  pub bat_seen : Bool
  pub chg_seen : Bool
