-- ===== src/Weather/Forecast/Calls.antt =====
-- src/analytics/weather_forecast.cpp: current_cloud_cover, get_forecast_week and get_forecast.
use limonitor.Common.{ℕ, not, ◌&&◌, List, [], ◌++◌, none, foldl, if◌then◌else◌, map}
use limonitor.Common.Int.{ℤ}
use limonitor.Double.{Double, ◌-F◌, ◌*F◌, decimal}
use limonitor.Analytics.Solar.{energy_to_full_wh, projection, peak_sun_hours, effective_of}
use limonitor.Serial.Lines.{contains}
use limonitor.Weather.{Service, Slot, DailyEntry}
use limonitor.Weather.Parse.{parse_forecast_list, parse_cloud_cover, parse_daily_entries}
use limonitor.Weather.Week.{Plan, WeekAcc, is_empty}
use limonitor.Weather.Week.Days.{slots_of, by_day, day_of, extend_day}
use limonitor.Weather.Forecast.{
  days_to_full, Answer, DayResult, WeatherForecast, WeekResult, cod_key, failed, has_code, nearer,
  refresh, refresh_daily, row_of, valid, within_two_hours,
}

module _ {F : Type 0} ⦃d : Double F⦄ (service : Service F) where
  unfoldable pub current_cloud_cover : ℤ → WeatherForecast F → F
  current_cloud_cover now s =
      within_two_hours (foldl (nearer now) none (parse_forecast_list service s.cached_json))

  abbrev start_week : F → WeekAcc F
  start_week soc = record {
    daily = [];
    total_nominal = decimal 0 0;
    total_accepted = decimal 0 0;
    best_day_kwh = decimal 0 0;
    best_day = "";
    soc = soc;
  }

  unfoldable pub week_days : Plan F → List (Slot F) → List (DailyEntry F) → WeekAcc F
  week_days p slots entries =
      foldl (extend_day service p)
        (foldl (day_of service p) (start_week p.current_soc_pct) (by_day service slots)) entries

  unfoldable pub week_of : Plan F → List (Slot F) → List (DailyEntry F) → WeekResult F
  week_of p slots entries =
      let w = week_days p slots entries in
      let realistic = not (is_empty p.profile) in
      record {
        daily = w.daily;
        slots = slots_of service p slots p.current_soc_pct;
        week_total_kwh = w.total_nominal;
        recovery_wh = (if realistic then w.total_accepted else w.total_nominal) *F decimal 1000 0;
        days_to_full =
            days_to_full (energy_to_full_wh p.current_soc_pct p.pack) w.total_nominal w.daily;
        best_day = w.best_day;
        nominal_ah = p.pack.cap_ah;
        battery_voltage = p.pack.v;
        current_soc_pct = p.current_soc_pct;
        realistic = realistic;
      }

  -- The daily entries are empty where no daily answer was ever kept.
  unfoldable pub finish_week :
      ℕ
      → List ℕ
      → Plan F
      → List (Slot F)
      → WeatherForecast F
      → WeatherForecast F × Answer (WeekResult F)
  finish_week tick fresh_daily p slots s =
      let kept = refresh_daily tick fresh_daily s in
      let week = week_of p slots (parse_daily_entries service kept.cached_daily_json) in
      (
        record kept {
          daily_rows =
              if kept.has_db then kept.daily_rows ++ map row_of week.daily else kept.daily_rows;
        },
        valid week,
      )

  unfoldable pub judge_week :
      ℕ → List ℕ → Plan F → WeatherForecast F → WeatherForecast F × Answer (WeekResult F)
  judge_week tick fresh_daily p s =
      let slots = parse_forecast_list service s.cached_json in
      if is_empty s.cached_json
      then (s, failed "Failed to fetch weather")
      else if has_code 52 48 49 s.cached_json
      then (s, failed "Invalid weather API key")
      else if has_code 52 48 52 s.cached_json
      then (s, failed "Zip code not found")
      else if is_empty slots
      then (s, failed "No forecast data")
      else finish_week tick fresh_daily p slots s

  unfoldable pub get_forecast_week :
      ℕ → List ℕ → List ℕ → Plan F → WeatherForecast F → WeatherForecast F × Answer (WeekResult F)
  get_forecast_week tick fresh fresh_daily p s =
      if is_empty s.cfg.api_key
      then (s, failed "Weather API key not configured")
      else judge_week tick fresh_daily p (refresh tick fresh s)

  unfoldable pub tomorrow : ℤ → Plan F → List ℕ → DayResult F
  tomorrow now p json =
      let cloud = parse_cloud_cover service json in
      let psh = peak_sun_hours (service.month now) in
      let wh = p.panel_watts *F psh *F p.efficiency *F (decimal 1 0 -F cloud) in
      let effective = effective_of wh psh p.pack in
      record {
        tomorrow_generation_wh = effective;
        cloud_cover = cloud;
        expected_battery_state =
            projection effective (energy_to_full_wh p.current_soc_pct p.pack) p.current_soc_pct;
      }

  unfoldable pub judge_day : ℤ → Plan F → List ℕ → Answer (DayResult F)
  judge_day now p json =
      if is_empty json
      then failed "Failed to fetch weather (check network/libcurl)"
      else if has_code 52 48 49 json
      then failed "Invalid weather API key"
      else if has_code 52 48 52 json
      then failed "Zip code not found (try weather_zip_code)"
      else if contains cod_key json && not (has_code 50 48 48 json)
      then failed "Weather API error"
      else valid (tomorrow now p json)

  unfoldable pub get_forecast :
      ℕ → ℤ → List ℕ → Plan F → WeatherForecast F → WeatherForecast F × Answer (DayResult F)
  get_forecast tick now fresh p s =
      let kept = refresh tick fresh s in
      if is_empty s.cfg.api_key
      then (s, failed "Weather API key not configured")
      else (kept, judge_day now p kept.cached_json)
