-- ===== src/Weather/Forecast.antt =====
-- src/analytics/weather_forecast.cpp: `WeatherForecast` with its two cached answers. `tick` is the steady
-- clock and `wall` the system clock, in whole seconds; what `fetch_api` and `fetch_daily_api` return at a
-- call is an argument, empty where they fail. The build has libcurl. What goes to the database is kept.
pub mod Nearest
pub mod Totals
pub mod Calls
use limonitor.Common.{
  ◌/◌, ℕ, zero, suc, ◌+◌, ◌-◌, ◌*◌, ◌==◌, Bool, true, false, not, ◌&&◌, ◌||◌, List, [], ◌∷◌, ◌++◌,
  Option, none, some, String, foldl, length, ltb, if◌then◌else◌, map,
}
use limonitor.Common.Int.{ℤ, pos, ◌-ℤ◌, ltb_ℤ, pos_part, neg_part}
use limonitor.Double.{Double, ◌+F◌, ◌-F◌, ◌*F◌, ◌/F◌, ◌<F◌, ◌>F◌, ◌≥F◌, decimal, neg, fmin}
use limonitor.Analytics.Solar.{
  Pack, pack_of, energy_to_full_wh, projection, peak_sun_hours, effective_of,
}
use limonitor.Serial.Lines.{contains}
use limonitor.Weather.{Service, Slot, DailyEntry, Bucket}
use limonitor.Weather.Parse.{parse_forecast_list, parse_cloud_cover, parse_daily_entries}
use limonitor.Weather.Week.{SolarForecastSlot, DailySolarForecast, Plan, WeekAcc, is_empty}
use limonitor.Weather.Week.Days.{slots_of, by_day, day_of, extend_day}

abbrev pub cache_sec : ℕ
cache_sec = 1800

-- "\"cod\":"
abbrev pub cod_key : List ℕ
cod_key = 34 ∷ 99 ∷ 111 ∷ 100 ∷ 34 ∷ 58 ∷ []

-- An answer with a status code of three digits, as a number or as a text.
unfoldable pub has_code : ℕ → ℕ → ℕ → List ℕ → Bool
has_code a b c json =
    contains (cod_key ++ (a ∷ b ∷ c ∷ [])) json
    || contains (cod_key ++ (34 ∷ a ∷ b ∷ c ∷ 34 ∷ [])) json

-- As the daily answer is looked at: as a number alone.
unfoldable pub has_number : ℕ → ℕ → ℕ → List ℕ → Bool
has_number a b c json = contains (cod_key ++ (a ∷ b ∷ c ∷ [])) json

pub record WeatherDailyRow (F : Type 0) : Type 0 where
  pub date : String
  pub cloud_cover : F
  pub kwh_forecast : F
  pub sun_hours : F
  pub source : String

pub record WeatherConfig : Type 0 where
  pub api_key : List ℕ
  pub zip_code : List ℕ

pub record WeatherForecast (F : Type 0) : Type 0 where
  pub cfg : WeatherConfig
  pub has_db : Bool
  pub cached_json : List ℕ
  pub cache_time : ℤ
  pub cached_daily_json : List ℕ
  pub cache_daily_time : ℤ
  pub saved_3h : List (List ℕ)
  pub saved_daily : List (List ℕ)
  pub daily_rows : List (WeatherDailyRow F)

pub record WeekResult (F : Type 0) : Type 0 where
  pub daily : List (DailySolarForecast F)
  pub slots : List (SolarForecastSlot F)
  pub week_total_kwh : F
  pub recovery_wh : F
  pub days_to_full : ℕ
  pub best_day : String
  pub nominal_ah : F
  pub battery_voltage : F
  pub current_soc_pct : F
  pub realistic : Bool

pub record DayResult (F : Type 0) : Type 0 where
  pub tomorrow_generation_wh : F
  pub cloud_cover : F
  pub expected_battery_state : String

unfoldable pub abs_diff : ℤ → ℤ → ℕ
abs_diff a b = let z = a -ℤ b in pos_part z + neg_part z

-- A result, or the error that is shown instead.
pub data Answer {ℓ} (A : Type ℓ) : Type ℓ where
  valid : A → Answer A
  failed : String → Answer A

-- An answer that the database kept counts as half as old as it may be.
unfoldable pub loaded_time : ℕ → List ℕ → ℤ
loaded_time tick json = if is_empty json then pos 0 else pos tick -ℤ pos (cache_sec / 2)

module _ {F : Type 0} where
  -- `fetch_api` and `fetch_daily_api` give up without a key or a zip code.
  unfoldable pub fetched : List ℕ → WeatherForecast F → List ℕ
  fetched answer s = if is_empty s.cfg.api_key || is_empty s.cfg.zip_code then [] else answer

  -- What was fetched replaces the cached answer where it is not empty.
  unfoldable pub keep_answer : ℕ → List ℕ → WeatherForecast F → WeatherForecast F
  keep_answer tick fresh s = if is_empty fresh then s else record s {
    cached_json = fresh;
    cache_time = pos tick;
    saved_3h = if s.has_db then s.saved_3h ++ (fresh ∷ []) else s.saved_3h;
  }

  unfoldable pub refresh : ℕ → List ℕ → WeatherForecast F → WeatherForecast F
  refresh tick answer s =
      if is_empty s.cached_json || ltb_ℤ (pos cache_sec) (pos tick -ℤ s.cache_time)
      then keep_answer tick (fetched answer s) s
      else s

  unfoldable pub refresh_daily : ℕ → List ℕ → WeatherForecast F → WeatherForecast F
  refresh_daily tick answer s =
      let fresh = fetched answer s in
      if ltb_ℤ (pos cache_sec) (pos tick -ℤ s.cache_daily_time)
        && not (is_empty fresh)
        && not (has_number 52 48 49 fresh)
        && not (has_number 52 48 52 fresh)
      then record s {
        cached_daily_json = fresh;
        cache_daily_time = pos tick;
        saved_daily = if s.has_db then s.saved_daily ++ (fresh ∷ []) else s.saved_daily;
      }
      else s

  unfoldable pub set_config : WeatherConfig → WeatherForecast F → WeatherForecast F
  set_config cfg s = record s { cfg = cfg }

  -- The constructor, with what `load_weather_cache` returns for the two answers.
  unfoldable pub new_weather : WeatherConfig → Bool → ℕ → List ℕ → List ℕ → WeatherForecast F
  new_weather cfg has_db tick json_3h json_daily =
      let three_hours = if has_db then json_3h else [] in
      let daily = if has_db then json_daily else [] in
      record {
        cfg = cfg;
        has_db = has_db;
        cached_json = three_hours;
        cache_time = loaded_time tick three_hours;
        cached_daily_json = daily;
        cache_daily_time = loaded_time tick daily;
        saved_3h = [];
        saved_daily = [];
        daily_rows = [];
      }

  unfoldable pub invalidate_cache : WeatherForecast F → WeatherForecast F
  invalidate_cache s = record s {
    cached_json = [];
    cached_daily_json = [];
    cache_time = pos 0;
    cache_daily_time = pos 0;
  }

module _ {F : Type 0} ⦃d : Double F⦄ where
  -- The share of clouds of the slot nearest to now, with how far that is; none before the first slot.
  unfoldable pub nearer : ℤ → Option (ℕ × F) → Slot F → Option (ℕ × F)
  nearer now none t = some (abs_diff t.dt now, t.cloud)
  nearer now (some (best, cloud)) t =
      let diff = abs_diff t.dt now in
      if ltb diff best then some (diff, t.cloud) else some (best, cloud)

  -- -1 where no slot is within two hours.
  unfoldable pub within_two_hours : Option (ℕ × F) → F
  within_two_hours none = neg (decimal 1 0)
  within_two_hours (some (diff, cloud)) = if ltb 7200 diff then neg (decimal 1 0) else cloud

  -- The index of the first day by which the energy is there, counted from 1, or 0.
  unfoldable pub days_until : F → F → ℕ → List (DailySolarForecast F) → ℕ
  days_until needed cumul i [] = 0
  days_until needed cumul i (x ∷ xs) =
      let grown = cumul +F x.max_recovery.wh in
      let rest = days_until needed grown (suc i) xs in if grown ≥F needed then suc i else rest

  unfoldable pub days_to_full : F → F → List (DailySolarForecast F) → ℕ
  days_to_full needed total daily =
      let n = days_until needed (decimal 0 0) 0 daily in
      if n == 0 && total >F decimal 0 0 then length daily else n

  unfoldable pub row_of : DailySolarForecast F → WeatherDailyRow F
  row_of x = record {
    date = x.date;
    cloud_cover = x.cloud_cover;
    kwh_forecast = x.kwh;
    sun_hours = x.sun_hours_effective;
    source = if x.is_extended then "daily" else "3h";
  }
