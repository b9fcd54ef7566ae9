-- ===== src/AnalyticsEngine/Examples.antt =====
-- The theorems of the engine at concrete inputs, with numbers in `Fixed`.
use limonitor.Common.{
  ℕ, ◌≡◌, refl, ◌⊎◌, inr, true, false, [], ◌∷◌, ◌++◌, take, none, some, arith, push_bounded, trim,
  length,
}
use limonitor.Common.Int.{pos, negsuc, eqb_ℤ}
use limonitor.Double.{
  Fixed, fixed_double, Fixed-IsOrdered, Fixed-IsConsistent, Fixed-IsExact, decimal, ◌/F◌, of_ℕ,
}
use limonitor.Battery.{BatterySnapshot}
use limonitor.Battery.Samples.{blank, idle_charger}
use limonitor.AnalyticsEngine.{Day, Loads, Text, literal, Mode, Runtime}
use limonitor.AnalyticsEngine.Samples.{utc}
use limonitor.AnalyticsEngine.Rings.{Ring, IsRing, push, view}
use limonitor.AnalyticsEngine.Rings.Order.{push-view, fresh, fresh-IsRing}
use limonitor.AnalyticsEngine.Energy.{reset_daily_if_needed}
use limonitor.AnalyticsEngine.Energy.Archive.{IsArchived, IsFresh, IsKept, reset_daily_cases}
use limonitor.AnalyticsEngine.Energy.Integral.{draw, hour, day_run, AreRaised, day_run-AreRaised}
use limonitor.AnalyticsEngine.Load.{recompute_load_stats}
use limonitor.AnalyticsEngine.Load.Stats.{total_from, recompute-mean}
use limonitor.AnalyticsEngine.Aging.Bounds.{track_run, track_run-discharge}
use limonitor.AnalyticsEngine.Stage.{charging_stage_of, is_near}
use limonitor.AnalyticsEngine.Stage.Cases.{charging_stage-by_voltage}
use limonitor.AnalyticsEngine.Regression.{push_voltage_soc_sample}
use limonitor.AnalyticsEngine.Regression.Cached.{IsCached, push_voltage_soc_sample-IsCached}
use limonitor.AnalyticsEngine.Extended.{is_charging}
use limonitor.AnalyticsEngine.Extended.Warnings.{calm}
use limonitor.AnalyticsEngine.Extended.Warnings.Hysteresis.{
  debounce_run, repeat, debounce_run-appears,
}
use limonitor.AnalyticsEngine.Extended.Windows.{note_rate}
use limonitor.AnalyticsEngine.Extended.Windows.Latest.{IsSized, history, no_rate, note_rate-history}
use limonitor.AnalyticsEngine.Extended.Runtimes.{estimate_runtime, load_of, usable_energy}
use limonitor.AnalyticsEngine.Extended.Runtimes.Cap.{IsCapped, is_estimable, estimate_runtime_cases}
use limonitor.AnalyticsEngine.Extended.Status.Debounce.{mode_run, mode_run-four}
use limonitor.AnalyticsEngine.Start.{first_day, no_trend, no_rates, new_engine, first_capacity}
use limonitor.AnalyticsEngine.Handlers.Invariant.{
  IsWell, battery, charger, run, run-new_engine-IsWell,
}

abbrev three : Ring ℕ
three = record { cells = 7 ∷ 8 ∷ 9 ∷ []; head = 1; count = 3 }

three-IsRing : IsRing 3 three
three-IsRing = record {
  sized = refl;
  head_lt = omega arith;
  count_le = omega arith;
  filling = inr (omega arith);
}

push-view_example : IsRing 3 (push 3 10 three) × (view 3 (push 3 10 three) ≡ 9 ∷ 7 ∷ 10 ∷ [])
unfolding view push_bounded trim
push-view_example = push-view 3 10 three three-IsRing

abbrev monday : Day Fixed
monday = record (first_day) { current_day = pos 126_010; energy_discharged_wh = pos 5_000_000 }

monday-IsArchived : IsArchived monday
unfolding first_day
monday-IsArchived = record {
  days = omega arith;
  days_paired = refl;
  hours = omega arith;
  hours_paired = refl;
}

reset_daily_cases_example :
    let after = reset_daily_if_needed (pos 126_011) (pos 900_000_000) monday in
    (eqb_ℤ monday.current_day (pos 126_011) ≡ true) × (after ≡ monday)
    ⊎ (eqb_ℤ monday.current_day (pos 126_011) ≡ false)
      × IsFresh (pos 126_011) (pos 900_000_000) after
      × IsKept monday after
reset_daily_cases_example =
    reset_daily_cases (pos 126_011) (pos 900_000_000) monday monday-IsArchived

abbrev evening : Day Fixed
evening = record monday {
  last_discharge_integration_ts = pos 1_000_000;
  last_discharge_hour = pos 5;
}

day_run-AreRaised_example :
    AreRaised evening
      (day_run (draw (pos 61_000_000) (pos 120_000_000) ∷ hour (pos 6) ∷ []) evening)
unfolding first_day
day_run-AreRaised_example =
    day_run-AreRaised Fixed-IsExact (draw (pos 61_000_000) (pos 120_000_000) ∷ hour (pos 6) ∷ [])
      evening (omega arith)

charging_stage-by_voltage_example :
    charging_stage_of (pos 5_000_000) (pos 13_900_000) (pos 14_000_000) (pos 4_000_000) "Charging"
    ≡ "Absorption"
unfolding is_near
charging_stage-by_voltage_example =
    charging_stage-by_voltage Fixed-IsConsistent (pos 5_000_000) (pos 13_900_000) (pos 14_000_000)
      (pos 4_000_000) "Charging"

no_trend-IsCached : IsCached (no_trend {F = Fixed})
unfolding no_trend fresh view
no_trend-IsCached = record { ring = fresh-IsRing 12 _ (omega arith); voltage = refl; charge = refl }

push_voltage_soc_sample-IsCached_example :
    IsCached (push_voltage_soc_sample (pos 3_000_000) (pos 13_000_000) (pos 70_000_000) no_trend)
push_voltage_soc_sample-IsCached_example =
    push_voltage_soc_sample-IsCached Fixed-IsExact (pos 3_000_000) (pos 13_000_000) (pos 70_000_000)
      no_trend no_trend-IsCached

no_rates-IsSized : IsSized (no_rates {F = Fixed}).rate
unfolding no_rates fresh
no_rates-IsSized = record { sized = refl; head_lt = omega arith; count_le = omega arith }

abbrev charging_reading : BatterySnapshot Fixed
charging_reading = record blank { current_a = negsuc 4_999_999; valid = true; timestamp = 60 }

note_rate-history_example :
    let after = (note_rate charging_reading (pos 12_000_000) no_rates).rate in
    IsSized after
    × ((is_charging charging_reading ≡ true)
          × (history after no_rate
              ≡ take 72 ((pos 12_000_000, of_ℕ 60) ∷ history (no_rates {F = Fixed}).rate no_rate))
        ⊎ (is_charging charging_reading ≡ false) × (history after no_rate ≡ []))
note_rate-history_example =
    note_rate-history charging_reading (pos 12_000_000) no_rates no_rates-IsSized

abbrev warning : Text Fixed
warning = literal "slow"

debounce_run-appears_example :
    (debounce_run 4 ((false, warning) ∷ repeat 5 (true, warning)) calm).warning ≡ some warning
unfolding calm
debounce_run-appears_example = debounce_run-appears 4 5 warning warning calm (omega arith) refl

mode_run-four_example :
    let s : Mode = record { system_mode = 0; system_mode_confirm = 0 } in
    ((mode_run (1 ∷ 2 ∷ 1 ∷ []) s).system_mode ≡ 0)
    × (mode_run (1 ∷ 2 ∷ 1 ∷ 2 ∷ []) s ≡ record { system_mode = 2; system_mode_confirm = 0 })
mode_run-four_example =
    mode_run-four 1 2 1 2 (record { system_mode = 0; system_mode_confirm = 0 }) refl (omega arith)
      (omega arith) (omega arith) (omega arith)

abbrev drawing : ℕ → BatterySnapshot Fixed
drawing left = record blank { current_a = pos 5_000_000; remaining_ah = pos left; valid = true }

track_run-discharge_example :
    let after =
      track_run
        (pos 100)
        (drawing 90_000_000 ∷ (drawing 60_000_000 ∷ []) ++ (blank ∷ []))
        (first_capacity (pos 100_000_000)) in
    (after.best_discharge_ah ≡ pos 90_000_000) × (after.was_discharging ≡ false)
unfolding first_capacity
track_run-discharge_example =
    track_run-discharge (pos 100) (drawing 90_000_000) (drawing 60_000_000 ∷ []) blank
      (first_capacity (pos 100_000_000)) refl (refl, refl) ((refl, refl), tt) refl

abbrev one_sample : Loads Fixed
one_sample = record {
  load = push 720 (pos 12_000_000) (fresh 720 (pos 0));
  last_load_push_ts = pos 0;
  chg_pwr = fresh 720 (pos 0);
  avg_load_watts = pos 0;
  peak_load_watts = pos 0;
  idle_load_watts = pos 0;
}

recompute-mean_example :
    (recompute_load_stats one_sample).avg_load_watts
    ≡ total_from (decimal 0 0) (view 720 one_sample.load)
      /F of_ℕ (length (view 720 one_sample.load))
unfolding push fresh
recompute-mean_example =
    recompute-mean Fixed-IsExact one_sample
      (push-view 720 (pos 12_000_000) (fresh 720 (pos 0))
        (fresh-IsRing 720 (pos 0) (omega arith))).0
      (omega arith)

abbrev some_runtime : Runtime Fixed
some_runtime = record {
  from_full_h = pos 0;
  from_current_h = pos 0;
  full_exceeds_cap = true;
  current_exceeds_cap = false;
  from_charger = false;
  avg_discharge_24h_w = pos 0;
}

estimate_runtime_cases_example :
    let r = estimate_runtime (drawing 90_000_000) monday one_sample some_runtime in
    let load_w = load_of monday one_sample in
    (r.avg_discharge_24h_w ≡ load_w)
    × ((is_estimable (drawing 90_000_000) monday one_sample ≡ true)
          × IsCapped
              (usable_energy (drawing 90_000_000) (decimal 100 0) /F load_w)
              r.from_full_h
              r.full_exceeds_cap
          × IsCapped
              (usable_energy (drawing 90_000_000) (pos 0) /F load_w)
              r.from_current_h
              r.current_exceeds_cap
        ⊎ (is_estimable (drawing 90_000_000) monday one_sample ≡ false)
          × (r.from_full_h ≡ decimal 0 0)
          × (r.from_current_h ≡ decimal 0 0)
          × (r.full_exceeds_cap ≡ true)
          × (r.current_exceeds_cap ≡ false))
estimate_runtime_cases_example =
    estimate_runtime_cases Fixed-IsOrdered (drawing 90_000_000) monday one_sample some_runtime

run-new_engine-IsWell_example : IsWell (
    run
      (battery (pos 100) (drawing 90_000_000) none ∷ charger idle_charger (some blank) ∷ [])
      (new_engine (pos 100_000_000)))
run-new_engine-IsWell_example =
    run-new_engine-IsWell
      (battery (pos 100) (drawing 90_000_000) none ∷ charger idle_charger (some blank) ∷ [])
      (pos 100_000_000)
