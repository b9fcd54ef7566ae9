-- ===== src/Weather/Examples.antt =====
-- The theorems of the forecasts at concrete inputs, with numbers in `Fixed` and times in UTC.
use limonitor.Common.{
  ℕ, zero, suc, ◌≤◌, ◌≡◌, refl, true, [], ◌∷◌, ◌++◌, List, none, some, length, ◌/◌, All,
}
use limonitor.Common.Int.{pos, pos_part, quot_ℕ}
use limonitor.Double.{Fixed, fixed_double, Fixed-IsOrdered, scale}
use limonitor.AnalyticsEngine.Aging.Date.{scan_int, skip_space, scan_digits, digits_from, signed}
use limonitor.Serial.Lines.{starts_with}
use limonitor.Analytics.Solar.{pack_of}
use limonitor.Weather.{Service, Slot, DailyEntry, project_battery_soc}
use limonitor.Weather.Parse.{
  dt_key, clouds_all_key, slots_from, parse_forecast_list, entries_from, parse_daily_entries,
  clouds_from, cloud_sum, slots_behind, find_at, slot_at, number_within, is_day,
}
use limonitor.Weather.Parse.Entries.{parse_forecast_list-total}
use limonitor.Weather.Week.{Plan}
use limonitor.Weather.Forecast.{WeatherForecast}
use limonitor.Weather.Forecast.Calls.{week_of, current_cloud_cover}
use limonitor.Weather.Forecast.Nearest.{IsCover, current_cloud_cover-IsCover}
use limonitor.Weather.Forecast.Totals.{IsBestDay, total_kwh, week_of-IsSummed}
use limonitor.Weather.Projection.{IsPercent, project_battery_soc-bounds}

-- A scanner of whole numbers, and days as numbers of themselves.
abbrev greenwich : Service Fixed
greenwich = record {
  scan = λ text. elim (scan_int text) [ none ↦ none | some (n, rest) ↦ some (fixed_double.of_ℤ n) ];
  trunc = λ x. quot_ℕ x scale;
  day_key = λ t. quot_ℕ t 86400;
  date = λ t. elim (pos_part t / 86400) [ zero ↦ "1970-01-01" | suc n ↦ "1970-01-02" ];
  hour_minute = λ t. "12:00";
  month = λ t. 1;
}

-- Two slots, of 40 % clouds at 10800 and of 90 % at 21600.
abbrev reply : List ℕ
reply =
    dt_key
    ++ (49 ∷ 48 ∷ 56 ∷ 48 ∷ 48 ∷ 44 ∷ [])
    ++ clouds_all_key
    ++ (52 ∷ 48 ∷ 125 ∷ [])
    ++ dt_key
    ++ (50 ∷ 49 ∷ 54 ∷ 48 ∷ 48 ∷ 44 ∷ [])
    ++ clouds_all_key
    ++ (57 ∷ 48 ∷ 125 ∷ [])

parse_forecast_list-total_example :
    (slots_from greenwich (suc (length reply)) 40 reply
      ≡ some (parse_forecast_list greenwich reply))
    × (entries_from greenwich (suc (length reply)) reply
        ≡ some (parse_daily_entries greenwich reply))
    × (clouds_from greenwich (suc (length reply)) (pos 0) 0 reply
        ≡ some (cloud_sum greenwich reply))
    × (length (parse_forecast_list greenwich reply) ≤ 40)
parse_forecast_list-total_example = parse_forecast_list-total greenwich reply

abbrev cached : WeatherForecast Fixed
cached = record {
  cfg = record { api_key = 107 ∷ []; zip_code = 56 ∷ 48 ∷ [] };
  has_db = true;
  cached_json = reply;
  cache_time = pos 4000;
  cached_daily_json = [];
  cache_daily_time = pos 0;
  saved_3h = [];
  saved_daily = [];
  daily_rows = [];
}

current_cloud_cover-IsCover_example :
    IsCover
      (pos 12000)
      (parse_forecast_list greenwich reply)
      (current_cloud_cover greenwich (pos 12000) cached)
current_cloud_cover-IsCover_example = current_cloud_cover-IsCover greenwich (pos 12000) cached

project_battery_soc-bounds_example :
    let xs =
      project_battery_soc
        (pos 95_000_000)
        (pos 1000_000_000)
        (pos 200_000_000 ∷ pos 0 ∷ [])
        (pos 50_000_000 ∷ pos 100_000_000 ∷ pos 100_000_000 ∷ []) in
    (length xs ≡ 2) × All IsPercent xs
project_battery_soc-bounds_example =
    project_battery_soc-bounds Fixed-IsOrdered refl (pos 95_000_000) (pos 1000_000_000)
      (pos 200_000_000 ∷ pos 0 ∷ []) (pos 50_000_000 ∷ pos 100_000_000 ∷ pos 100_000_000 ∷ [])

abbrev plan : Plan Fixed
plan = record {
  panel_watts = pos 400_000_000;
  efficiency = pos 750_000;
  pack = pack_of (pos 10_000_000) (pos 13_200_000) (pos 100_000_000);
  current_soc_pct = pos 50_000_000;
  profile = [];
}

abbrev sunny : Slot Fixed
sunny = record { dt = pos 43200; cloud = pos 200_000; daytime = true }

abbrev cloudy_day : DailyEntry Fixed
cloudy_day = record {
  dt = pos 129600;
  cloud_cover = pos 800_000;
  daylight_h = pos 12_000_000;
  sunrise = pos 108000;
  sunset = pos 151200;
}

week_of-IsSummed_example :
    let r = week_of greenwich plan (sunny ∷ []) (cloudy_day ∷ []) in
    (r.week_total_kwh ≡ total_kwh r.daily) × IsBestDay r.best_day r.daily
week_of-IsSummed_example =
    week_of-IsSummed Fixed-IsOrdered greenwich plan (sunny ∷ []) (cloudy_day ∷ [])

reply_slots :
    parse_forecast_list greenwich reply
    ≡ record { dt = pos 10800; cloud = pos 400_000; daytime = true }
      ∷ record { dt = pos 21600; cloud = pos 900_000; daytime = true }
      ∷ []
unfolding parse_forecast_list slots_from slots_behind find_at starts_with slot_at number_within
    is_day scan_int skip_space scan_digits digits_from signed
reply_slots = refl
