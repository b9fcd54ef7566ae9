-- ===== src/Analytics/Extensions/Parts.antt =====
-- src/analytics/extensions.cpp: an `AnalyticsExtensions` with the simulator and the forecast that it
-- owns: its constructor, set_config, and the calls that reach them. The times that `update` keeps in
-- static variables start with the process's first object.
pub mod Fresh
use limonitor.Common.{ℕ, Bool, true, false, List, [], ◌∷◌, Option, none, some, if◌then◌else◌}
use limonitor.Common.Int.{ℤ, pos}
use limonitor.Double.{Double, decimal}
use limonitor.Battery.{BatterySnapshot, PwrGateSnapshot, TxEvent}
use limonitor.AnalyticsEngine.{Charger}
use limonitor.Analytics.Anomalies.{AnomalyDetector}
use limonitor.Analytics.Resistance.{ResistanceEstimator}
use limonitor.Analytics.Solar.{SolarSimConfig}
use limonitor.Analytics.Solar.{set_config as set_solar_config}
use limonitor.Analytics.Extensions.{Extensions, update}
use limonitor.Weather.{Service}
use limonitor.Weather.Week.{Plan, is_empty}
use limonitor.Weather.Forecast.{WeatherConfig, WeatherForecast, new_weather, invalidate_cache}
use limonitor.Weather.Forecast.Calls.{current_cloud_cover, get_forecast_week, get_forecast}
use limonitor.Weather.Forecast.{set_config as set_weather_config}

-- The part of the configuration that is read here.
pub record Config (F : Type 0) : Type 0 where
  pub solar_enabled : Bool
  pub solar_panel_watts : F
  pub solar_system_efficiency : F
  pub solar_zip_code : List ℕ
  pub weather_api_key : List ℕ
  pub weather_zip_code : List ℕ

pub record Analytics (F : Type 0) : Type 0 where
  pub extensions : Extensions F
  pub solar_cfg : SolarSimConfig F
  pub weather : WeatherForecast F

pub record Input (F : Type 0) : Type 0 where
  pub wall : ℕ
  pub tick : ℕ
  pub bat : BatterySnapshot F
  pub chg : Option (PwrGateSnapshot F)
  pub an : Charger F
  pub history : List (BatterySnapshot F)
  pub tx_events : List (TxEvent F)

-- The calls that change something, the forecasts with the answers of their requests.
pub data Call (F : Type 0) : Type 0 where
  configure : Config F → Call F
  tell : Input F → Call F
  ask_week : ℕ → List ℕ → List ℕ → Plan F → Call F
  ask_tomorrow : ℕ → ℤ → List ℕ → Plan F → Call F
  forget : Call F

module _ {F : Type 0} where
  unfoldable pub solar_of : Config F → SolarSimConfig F
  solar_of cfg = record {
    enabled = cfg.solar_enabled;
    panel_watts = cfg.solar_panel_watts;
    system_efficiency = cfg.solar_system_efficiency;
    zip_code = cfg.solar_zip_code;
  }

  unfoldable pub weather_of : Config F → WeatherConfig
  weather_of cfg = record {
    api_key = cfg.weather_api_key;
    zip_code = if is_empty cfg.weather_zip_code then cfg.solar_zip_code else cfg.weather_zip_code;
  }

  unfoldable pub set_config : Config F → Analytics F → Analytics F
  set_config cfg p = record {
    extensions = record p.extensions {
      panel_watts = cfg.solar_panel_watts;
      system_efficiency = cfg.solar_system_efficiency;
    };
    solar_cfg = set_solar_config (solar_of cfg) p.solar_cfg;
    weather = set_weather_config (weather_of cfg) p.weather;
  }

  abbrev new_detector : AnomalyDetector F
  new_detector = record {
    load_ring = [];
    load_count = 0;
    r_internal_ring = [];
    r_internal_day = [];
    anomalies = [];
  }

  abbrev new_estimator : ResistanceEstimator F
  new_estimator = record { r_ring = []; r_ts = []; processed_end_times = [] }

module _ {F : Type 0} ⦃d : Double F⦄ where
  -- The constructor, at a time of the steady clock and with the answers that the database kept.
  unfoldable pub new_analytics : Config F → Bool → ℕ → List ℕ → List ℕ → Analytics F
  new_analytics cfg has_db tick json_3h json_daily = record {
    extensions = record {
      anomaly = new_detector;
      resistance = new_estimator;
      charge_history = [];
      effective_max_charge_a = decimal 10 0;
      has_db = has_db;
      panel_watts = cfg.solar_panel_watts;
      system_efficiency = cfg.solar_system_efficiency;
      latest_solar_coeff = decimal 0 0;
      last_solar_perf_time = 0;
      last_persisted_ts = decimal 0 0;
      last_eff_ts = decimal 0 0;
      resistance_rows = [];
      efficiency_rows = [];
      solar_rows = [];
    };
    solar_cfg = solar_of cfg;
    weather = new_weather (weather_of cfg) has_db tick json_3h json_daily;
  }

module _ {F : Type 0} ⦃d : Double F⦄ (service : Service F) where
  -- `update` with the share of clouds that the forecast gives at the time.
  unfoldable pub update_with : Input F → Analytics F → Extensions F
  update_with i p =
      update i.wall i.tick (current_cloud_cover service (pos i.wall) p.weather) i.bat i.chg i.an
        i.history i.tx_events p.extensions

  unfoldable pub act : Call F → Analytics F → Analytics F
  act (configure cfg) p = set_config cfg p
  act (tell i) p = record p { extensions = update_with i p }
  act (ask_week tick fresh fresh_daily plan) p = record p {
    weather = (get_forecast_week service tick fresh fresh_daily plan p.weather).0;
  }
  act (ask_tomorrow tick now fresh plan) p = record p {
    weather = (get_forecast service tick now fresh plan p.weather).0;
  }
  act forget p = record p { weather = invalidate_cache p.weather }

  unfoldable pub run : List (Call F) → Analytics F → Analytics F
  run [] p = p
  run (c ∷ cs) p = run cs (act c p)
