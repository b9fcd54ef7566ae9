-- ===== src/Runner/Types.antt =====
-- src/testing/types.hpp, src/testing/types.cpp: the identifiers of tests and the telemetry samples.
use text.Mathlib.Text.{◌==◌ as str_eq}
use limonitor.Common.{
  ℕ, ◌≡◌, refl, arith, Bool, List, [], ◌∷◌, Option, none, some, String, if◌then◌else◌,
}
use limonitor.Common.Int.{ℤ}
use limonitor.Double.{Double, ◌>F◌, decimal}
use limonitor.Battery.{BatterySnapshot, PwrGateSnapshot}

pub data TestType : Type 0 where
  ups_failover : TestType
  battery_capacity : TestType
  load_spike : TestType
  charger_recovery : TestType
  simulated_outage : TestType

pub test_type_str : TestType → String
test_type_str ups_failover = "ups_failover"
test_type_str battery_capacity = "capacity"
test_type_str load_spike = "load_spike"
test_type_str charger_recovery = "charger_recovery"
test_type_str simulated_outage = "simulated_outage"

-- The null pointer is `none`.
pub parse_test_type : Option String → TestType
parse_test_type none = ups_failover
parse_test_type (some s) =
    if str_eq s "ups_failover"
    then ups_failover
    else if str_eq s "capacity"
    then battery_capacity
    else if str_eq s "load_spike"
    then load_spike
    else if str_eq s "charger_recovery"
    then charger_recovery
    else if str_eq s "simulated_outage"
    then simulated_outage
    else ups_failover

-- The name of a test type leads back to it, so no two types share a name.
pub parse_test_type-test_type_str :
    (type : TestType) → parse_test_type (some (test_type_str type)) ≡ type
unfolding parse_test_type test_type_str
parse_test_type-test_type_str ups_failover = refl
parse_test_type-test_type_str battery_capacity = refl
parse_test_type-test_type_str load_spike = refl
parse_test_type-test_type_str charger_recovery = refl
parse_test_type-test_type_str simulated_outage = refl

pub record SafetyLimits (F : Type 0) : Type 0 where
  pub soc_floor_pct : F
  pub voltage_floor_v : F
  pub max_duration_sec : ℤ
  pub abort_on_overtemp : Bool

pub record TestTelemetrySample (F : Type 0) : Type 0 where
  pub test_id : ℤ
  pub timestamp : ℕ
  pub battery_voltage : F
  pub battery_current : F
  pub battery_soc : F
  pub load_power : F
  pub grid_voltage : F
  pub solar_voltage : F
  pub solar_current : F
  pub charger_state : String
  pub charger_voltage : F
  pub charger_current : F
  pub cell_delta : F
  pub temperature : F
  pub radio_tx_active : Bool
  pub radio_tx_power : F

module _ {F : Type 0} ⦃d : Double F⦄ where
  abbrev zero_f : F
  zero_f = decimal 0 0

  abbrev or_zero : F → F
  or_zero x = if x >F zero_f then x else zero_f

  pub first_temperature : List F → F
  first_temperature [] = zero_f
  first_temperature (t ∷ ts) = t

  pub empty_sample : ℤ → ℕ → Bool → F → TestTelemetrySample F
  empty_sample test_id timestamp tx_active tx_power = record {
    test_id = test_id;
    timestamp = timestamp;
    battery_voltage = zero_f;
    battery_current = zero_f;
    battery_soc = zero_f;
    load_power = zero_f;
    grid_voltage = zero_f;
    solar_voltage = zero_f;
    solar_current = zero_f;
    charger_state = "";
    charger_voltage = zero_f;
    charger_current = zero_f;
    cell_delta = zero_f;
    temperature = zero_f;
    radio_tx_active = tx_active;
    radio_tx_power = tx_power;
  }

  pub with_battery : Option (BatterySnapshot F) → F → TestTelemetrySample F → TestTelemetrySample F
  with_battery none load_w s = s
  with_battery (some bat) load_w s =
      if bat.valid
      then record s {
        battery_voltage = bat.total_voltage_v;
        battery_current = bat.current_a;
        battery_soc = bat.soc_pct;
        load_power = if load_w >F zero_f then load_w else or_zero bat.power_w;
        cell_delta = bat.cell_delta_v;
        temperature = first_temperature bat.temperatures_c;
      }
      else s

  pub with_charger : Option (PwrGateSnapshot F) → TestTelemetrySample F → TestTelemetrySample F
  with_charger none s = s
  with_charger (some chg) s =
      if chg.valid
      then record s {
        grid_voltage = chg.ps_v;
        solar_voltage = chg.sol_v;
        solar_current = or_zero chg.bat_a;
        charger_state = chg.state;
        charger_voltage = chg.bat_v;
        charger_current = chg.bat_a;
      }
      else s

  pub stamp : Option (BatterySnapshot F) → ℕ
  stamp none = 0
  stamp (some bat) = bat.timestamp

  pub make_telemetry_sample :
      ℤ
      → Option (BatterySnapshot F)
      → Option (PwrGateSnapshot F)
      → F
      → Bool
      → F
      → TestTelemetrySample F
  make_telemetry_sample test_id bat chg load_w tx_active tx_power =
      with_charger chg
        (with_battery bat load_w (empty_sample test_id (stamp bat) tx_active tx_power))

  -- A sample carries the id that it was made for.
  pub make_telemetry_sample-test_id :
      (id : ℤ) (bat : Option (BatterySnapshot F)) (chg : Option (PwrGateSnapshot F)) (load_w : F)
      (on : Bool) (power : F)
      → (make_telemetry_sample id bat chg load_w on power).test_id ≡ id
  unfolding make_telemetry_sample with_battery with_charger empty_sample
  make_telemetry_sample-test_id id bat chg load_w on power = ground arith
