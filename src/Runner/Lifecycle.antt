-- ===== src/Runner/Lifecycle.antt =====
-- src/testing/runner.cpp: what a `TestRunner` does around its tests: the constructor, the limits from the
-- settings, the setter of the limits and the figures of the running test. `Settings` is the database's
-- `get_setting`, empty for a missing key, with `std::stod` and `std::stoi`, none where they throw.
pub mod Fresh
use text.Mathlib.Text.{◌==◌ as str_eq}
use limonitor.Common.{
  ℕ, Bool, true, false, ◌&&◌, ◌||◌, not, [], ◌∷◌, Option, none, some, String, if◌then◌else◌,
}
use limonitor.Common.Int.{ℤ, pos, ◌-ℤ◌}
use limonitor.Double.{Double, decimal}
use limonitor.Runner.Types.{ups_failover, test_type_str, SafetyLimits}
use limonitor.Runner.Steps.{TestRunner, abort_interrupted_tests, is_zero, to_int}

pub record Settings (F : Type 0) : Type 0 where
  pub get_setting : String → String
  pub stod : String → Option F
  pub stoi : String → Option ℤ

pub record ActiveStats (F : Type 0) : Type 0 where
  pub test_id : ℤ
  pub start_time : ℕ
  pub test_type : String
  pub duration_seconds : ℤ
  pub energy_delivered_wh : F
  pub voltage_at_start : F
  pub min_voltage_seen : F
  pub battery_voltage : F
  pub battery_current : F
  pub battery_soc : F
  pub load_power : F

abbrev pub value_or {ℓ} : {A : Type ℓ} → A → Option A → A
value_or old none = old
value_or old (some v) = v

-- A setting that is there and is a number replaces the old value.
unfoldable pub setting_or {ℓ} : {A : Type ℓ} → (String → Option A) → A → String → A
setting_or parse old text = if str_eq text "" then old else value_or old (parse text)

unfoldable pub flag_or : Bool → String → Bool
flag_or old text = if str_eq text "" then old else str_eq text "1" || str_eq text "true"

module _ {F : Type 0} where
  -- The limits after `load_limits_from_db` with a database.
  unfoldable pub load_limits : Settings F → SafetyLimits F → SafetyLimits F
  load_limits db limits = record {
    soc_floor_pct = setting_or db.stod limits.soc_floor_pct (db.get_setting "test_soc_floor_pct");
    voltage_floor_v =
        setting_or db.stod limits.voltage_floor_v (db.get_setting "test_voltage_floor_v");
    max_duration_sec =
        setting_or db.stoi limits.max_duration_sec (db.get_setting "test_max_duration_sec");
    abort_on_overtemp = flag_or limits.abort_on_overtemp (db.get_setting "test_abort_on_overtemp");
  }

  unfoldable pub set_safety_limits : SafetyLimits F → TestRunner F → TestRunner F
  set_safety_limits limits s = record s { limits = limits }

module _ {F : Type 0} ⦃d : Double F⦄ where
  abbrev zero_f : F
  zero_f = decimal 0 0

  unfoldable pub default_limits : SafetyLimits F
  default_limits = record {
    soc_floor_pct = decimal 10 0;
    voltage_floor_v = decimal 11 0;
    max_duration_sec = pos 7200;
    abort_on_overtemp = true;
  }

  -- The members' initial values.
  unfoldable pub blank_runner : Bool → TestRunner F
  blank_runner has_db = record {
    has_db = has_db;
    limits = default_limits;
    running = false;
    current_test_id = pos 0;
    current_test_type = ups_failover;
    stop_requested = false;
    test_start_ts = 0;
    energy_delivered_wh = zero_f;
    soc_at_start = zero_f;
    voltage_at_start = zero_f;
    min_voltage_seen = zero_f;
    load_sum_wh = zero_f;
    load_sample_count = 0;
    last_v = zero_f;
    last_a = zero_f;
    last_soc = zero_f;
    last_load = zero_f;
    telemetry_buffer = [];
    last_telemetry_ts = 0;
    last_tick_ts = 0;
    writes = [];
  }

  -- The constructor: with an open database, interrupted tests are closed and the limits are read.
  unfoldable pub new_runner : Bool → Bool → Settings F → TestRunner F
  new_runner has_db is_open db =
      let s = blank_runner has_db in
      if has_db && is_open
      then record s {
        writes = abort_interrupted_tests ∷ [];
        limits = load_limits db default_limits;
      }
      else s

  unfoldable pub no_stats : ActiveStats F
  no_stats = record {
    test_id = pos 0;
    start_time = 0;
    test_type = "";
    duration_seconds = pos 0;
    energy_delivered_wh = zero_f;
    voltage_at_start = zero_f;
    min_voltage_seen = zero_f;
    battery_voltage = zero_f;
    battery_current = zero_f;
    battery_soc = zero_f;
    load_power = zero_f;
  }

  unfoldable pub active_stats : ℕ → TestRunner F → ActiveStats F
  active_stats now s = if not s.running || is_zero s.current_test_id then no_stats else record {
    test_id = s.current_test_id;
    start_time = s.test_start_ts;
    test_type = test_type_str s.current_test_type;
    duration_seconds = to_int (pos now -ℤ pos s.test_start_ts);
    energy_delivered_wh = s.load_sum_wh;
    voltage_at_start = s.voltage_at_start;
    min_voltage_seen = s.min_voltage_seen;
    battery_voltage = s.last_v;
    battery_current = s.last_a;
    battery_soc = s.last_soc;
    load_power = s.last_load;
  }
