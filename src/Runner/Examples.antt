-- ===== src/Runner/Examples.antt =====
-- The theorems of the test runner at concrete inputs.
use limonitor.Common.{
  ◌≡◌, refl, ◌⊎◌, inl, true, false, [], ◌∷◌, ◌++◌, none, some, arith, if◌then◌else◌, not, ◌&&◌,
}
use limonitor.Common.Int.{pos}
use limonitor.Double.{Fixed, fixed_double}
use limonitor.Battery.{BatterySnapshot}
use limonitor.Battery.Samples.{blank}
use limonitor.Runner.Types.{battery_capacity, load_spike}
use limonitor.Runner.Steps.{
  abort_interrupted_tests, insert_test_run, World, TestRunner, start_test, valid_only,
}
use limonitor.Runner.Steps.Supervise.{Tick, start, tick, on_telemetry_tick, stop_test, run}
use limonitor.Runner.Steps.Finish.{nothing, opened, IsActive, IsIdle, IsWell}
use limonitor.Runner.Steps.Start.{IsStarted, is_admissible, start_test_cases}
use limonitor.Runner.Steps.Stop.{stop_test-IsWritten}
use limonitor.Runner.Steps.Log.{Extends}
use limonitor.Runner.Lifecycle.{Settings, new_runner, load_limits, setting_or}
use limonitor.Runner.Lifecycle.Fresh.{IsShown, run-new_runner-IsShown}
use text.Mathlib.Text.{◌==◌ as str_eq}
use limonitor.Runner.Steps.Samples.{all_samples, telemetry_rows}
use limonitor.Runner.Steps.Ticks.{is_over, Continues, on_telemetry_tick_cases}
use limonitor.Runner.Schedule.{Tm, Calendar, TestScheduleRow, check_scheduled_tests}
use limonitor.Runner.Schedule.Starts.{Outcome, check_scheduled_tests_cases}

abbrev charged : BatterySnapshot Fixed
charged = record blank {
  timestamp = 1000;
  total_voltage_v = pos 13_300_000;
  current_a = pos 4_000_000;
  soc_pct = pos 90_000_000;
  valid = true;
}

abbrev world : World Fixed
world = record {
  now = 1000;
  latest = some charged;
  is_open = true;
  maintenance_mode = false;
  row_id = pos 7;
}

abbrev ready : TestRunner Fixed
ready = record {
  has_db = true;
  limits = record {
    soc_floor_pct = pos 10_000_000;
    voltage_floor_v = pos 11_000_000;
    max_duration_sec = pos 7200;
    abort_on_overtemp = true;
  };
  running = false;
  current_test_id = pos 0;
  current_test_type = battery_capacity;
  stop_requested = false;
  test_start_ts = 0;
  energy_delivered_wh = pos 0;
  soc_at_start = pos 0;
  voltage_at_start = pos 0;
  min_voltage_seen = pos 0;
  load_sum_wh = pos 0;
  load_sample_count = 0;
  last_v = pos 0;
  last_a = pos 0;
  last_soc = pos 0;
  last_load = pos 0;
  telemetry_buffer = [];
  last_telemetry_ts = 0;
  last_tick_ts = 0;
  writes = [];
}

abbrev under_way : TestRunner Fixed
under_way = record ready {
  running = true;
  current_test_id = pos 7;
  test_start_ts = 1000;
  soc_at_start = pos 90_000_000;
  last_tick_ts = 1000;
  writes = insert_test_run (pos 7) "capacity" 1000 (pos 90_000_000) (pos 13_300_000) ∷ [];
}

abbrev one_tick : Tick Fixed
one_tick = record {
  bat = some charged;
  chg = none;
  load_w = pos 50_000_000;
  tx_active = false;
  tx_power = pos 0;
}

ready-IsIdle : IsIdle ready
ready-IsIdle = (refl, refl, refl, refl, nothing)

under_way-IsActive : IsActive under_way
under_way-IsActive =
    (refl, refl, refl, omega arith, (refl, tt, opened (pos 7) "capacity" 1000 _ _ nothing))

start_test_cases_example :
    (is_admissible world ready ≡ false) × (start_test world battery_capacity ready ≡ (ready, pos 0))
    ⊎ (is_admissible world ready ≡ true)
      × (bat : BatterySnapshot Fixed) × (some charged ≡ some bat)
      × ((start_test world battery_capacity ready).1 ≡ pos 7)
      × IsStarted world battery_capacity bat ready (start_test world battery_capacity ready).0
start_test_cases_example = start_test_cases world battery_capacity ready

stop_test-IsWritten_example :
    IsIdle (stop_test world under_way)
    × (telemetry_rows (stop_test world under_way).writes
        ≡ telemetry_rows under_way.writes ++ under_way.telemetry_buffer)
stop_test-IsWritten_example = stop_test-IsWritten world under_way (inl under_way-IsActive)

-- A database with one setting of its own.
abbrev settings : Settings Fixed
settings = record {
  get_setting = λ key. if str_eq key "test_max_duration_sec" then "600" else "";
  stod = λ text. none;
  stoi = λ text. if str_eq text "600" then some (pos 600) else none;
}

new_runner_limits : (new_runner true true settings).limits.max_duration_sec ≡ pos 600
unfolding new_runner load_limits setting_or
new_runner_limits = refl

run-new_runner-IsShown_example :
    let s =
      run
        ((world, start load_spike) ∷ (world, tick one_tick) ∷ [])
        (new_runner true true settings) in
    IsWell s × IsShown 1002 s × Extends (abort_interrupted_tests ∷ []) s.writes
run-new_runner-IsShown_example =
    run-new_runner-IsShown true true settings
      ((world, start load_spike) ∷ (world, tick one_tick) ∷ []) 1002

on_telemetry_tick_cases_example :
    let after = on_telemetry_tick world one_tick under_way in
    (is_over world one_tick under_way ≡ true)
      × IsIdle after
      × (all_samples after ≡ all_samples under_way)
    ⊎ (is_over world one_tick under_way ≡ false) × Continues world one_tick under_way after
on_telemetry_tick_cases_example =
    on_telemetry_tick_cases world one_tick under_way under_way-IsActive

abbrev midnight : Tm
midnight = record {
  tm_sec = pos 0;
  tm_min = pos 0;
  tm_hour = pos 0;
  tm_mday = pos 1;
  tm_mon = pos 0;
  tm_year = pos 70;
  tm_wday = 4;
}

abbrev always_midnight : Calendar
always_midnight = record { local_time = λ t. midnight; mk_time = λ t. (pos 0, t) }

abbrev nightly : TestScheduleRow
nightly = record {
  id = pos 1;
  test_type = "capacity";
  frequency = "daily";
  run_hour = pos 2;
  run_minute = pos 0;
  day_of_month = pos 1;
  next_run_ts = pos 900;
  enabled = true;
}

check_scheduled_tests_cases_example :
    let after =
      check_scheduled_tests always_midnight (pos 1000) world (λ s. world) (nightly ∷ []) ready in
    ((ready.has_db && (world.is_open && not ready.running) ≡ false)
        ⊎ (valid_only world.latest ≡ none))
      × (after ≡ (ready, []))
    ⊎ (ready.has_db && (world.is_open && not ready.running) ≡ true)
      × Outcome always_midnight (pos 1000) (λ s. world) (nightly ∷ []) ready after
check_scheduled_tests_cases_example =
    check_scheduled_tests_cases always_midnight (pos 1000) (λ s. world) world (nightly ∷ []) ready
