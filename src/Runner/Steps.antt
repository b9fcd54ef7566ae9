-- ===== src/Runner/Steps.antt =====
-- src/testing/runner.cpp: the state of a `TestRunner` and its operations, which run under the mutex.
pub mod Finish
pub mod Start
pub mod Invariant
pub mod Stop
pub mod Log
pub mod Samples
pub mod Ticks
pub mod Supervise
use limonitor.Common.{
  ℕ, suc, ◌+◌, ◌-◌, ◌%◌, ◌^◌, Bool, true, false, not, ◌&&◌, ◌||◌, ◌==◌, List, [], ◌∷◌, ◌++◌, Option,
  none, some, String, ltb, leb, if◌then◌else◌, length,
}
use limonitor.Common.Int.{ℤ, pos, negsuc, ◌-ℤ◌, ltb_ℤ, leb_ℤ}
use limonitor.Double.{Double, ◌+F◌, ◌-F◌, ◌*F◌, ◌/F◌, ◌<F◌, ◌>F◌, of_ℕ, decimal, neg}
use limonitor.Battery.{BatterySnapshot, PwrGateSnapshot}
use limonitor.Battery.Decode.{to_s32}
use limonitor.Runner.Types.{
  TestType, battery_capacity, test_type_str, SafetyLimits, TestTelemetrySample,
  make_telemetry_sample,
}

abbrev pub batch_size : ℕ
batch_size = 50

abbrev pub telemetry_interval_sec : ℕ
telemetry_interval_sec = 2

-- The last arguments of `finish_test` and `update_test_run`.
pub data Metadata (F : Type 0) : Type 0 where
  reason : String → Metadata F
  capacity_report : F → F → F → F → F → Metadata F

-- The calls that write.
pub data Write (F : Type 0) : Type 0 where
  insert_test_run : ℤ → String → ℕ → F → F → Write F
  update_test_run : ℤ → ℕ → ℤ → String → Metadata F → Write F
  insert_telemetry : List (TestTelemetrySample F) → Write F
  abort_interrupted_tests : Write F
  insert_capacity_test : ℕ → F → F → F → F → F → ℤ → Write F

-- What a call reads from outside: the system clock, `store_.latest()`, and of the database whether it
-- is open, whether the setting `maintenance_mode` is "1", and the id that an insertion would give.
pub record World (F : Type 0) : Type 0 where
  pub now : ℕ
  pub latest : Option (BatterySnapshot F)
  pub is_open : Bool
  pub maintenance_mode : Bool
  pub row_id : ℤ

pub record TestRunner (F : Type 0) : Type 0 where
  pub has_db : Bool
  pub limits : SafetyLimits F
  pub running : Bool
  pub current_test_id : ℤ
  pub current_test_type : TestType
  pub stop_requested : Bool
  pub test_start_ts : ℕ
  pub energy_delivered_wh : F
  pub soc_at_start : F
  pub voltage_at_start : F
  pub min_voltage_seen : F
  pub load_sum_wh : F
  pub load_sample_count : ℕ
  pub last_v : F
  pub last_a : F
  pub last_soc : F
  pub last_load : F
  pub telemetry_buffer : List (TestTelemetrySample F)
  pub last_telemetry_ts : ℕ
  pub last_tick_ts : ℕ
  pub writes : List (Write F)

abbrev pub is_zero : ℤ → Bool
is_zero (pos n) = n == 0
is_zero (negsuc n) = false

-- `static_cast<int>` of a difference.
pub to_int : ℤ → ℤ
to_int (pos n) = to_s32 (n % 2 ^ 32)
to_int (negsuc n) = to_s32 (2 ^ 32 - 1 - n % 2 ^ 32)

-- `std::max(1, static_cast<int>(end_ts - start))`
pub duration : ℕ → ℕ → ℤ
duration start end_ts =
    let d = to_int (pos end_ts -ℤ pos start) in if ltb_ℤ (pos 1) d then d else pos 1

pub is_capacity : TestType → Bool
is_capacity battery_capacity = true
is_capacity _ = false

module _ {F : Type 0} ⦃d : Double F⦄ where
  abbrev pub zero_f : F
  zero_f = decimal 0 0

  -- A snapshot that is there and valid.
  abbrev pub valid_only : Option (BatterySnapshot F) → Option (BatterySnapshot F)
  valid_only none = none
  valid_only (some bat) = if bat.valid then some bat else none

  abbrev pub write : Write F → TestRunner F → TestRunner F
  write w s = if s.has_db then record s { writes = s.writes ++ (w ∷ []) } else s

  -- The checks of `start_test` on the latest battery reading.
  pub preflight : SafetyLimits F → BatterySnapshot F → Bool
  preflight limits bat =
      not (bat.soc_pct <F limits.soc_floor_pct +F decimal 5 0)
      && not (bat.total_voltage_v <F limits.voltage_floor_v +F decimal 5 1)

  pub begin_test : TestType → ℤ → BatterySnapshot F → TestRunner F → TestRunner F
  begin_test type id bat s = record s {
    current_test_id = id;
    current_test_type = type;
    running = true;
    stop_requested = false;
    test_start_ts = bat.timestamp;
    energy_delivered_wh = zero_f;
    soc_at_start = bat.soc_pct;
    voltage_at_start = bat.total_voltage_v;
    min_voltage_seen = bat.total_voltage_v;
    load_sum_wh = zero_f;
    load_sample_count = 0;
    last_telemetry_ts = 0;
    last_tick_ts = bat.timestamp;
    last_v = bat.total_voltage_v;
    last_a = bat.current_a;
    last_soc = bat.soc_pct;
    last_load = zero_f;
  }

  -- `start_test` from the point where a valid reading is there.
  pub start_with : World F → TestType → Option (BatterySnapshot F) → TestRunner F → TestRunner F × ℤ
  start_with w type none s = (s, pos 0)
  start_with w type (some bat) s =
      if not (preflight s.limits bat)
      then (s, pos 0)
      else if w.maintenance_mode
      then (s, pos 0)
      else if leb_ℤ w.row_id (pos 0)
      then (s, pos 0)
      else (
        begin_test type w.row_id bat (
            write
              (insert_test_run w.row_id (test_type_str type) bat.timestamp bat.soc_pct
                bat.total_voltage_v)
              s),
        w.row_id,
      )

  pub start_test : World F → TestType → TestRunner F → TestRunner F × ℤ
  start_test w type s =
      if s.running
      then (s, pos 0)
      else if not s.has_db || not w.is_open
      then (s, pos 0)
      else start_with w type (valid_only w.latest) s
