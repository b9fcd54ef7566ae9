-- ===== src/Battery.antt =====
-- src/battery_data.hpp, src/pwrgate.hpp, src/tx_events.hpp, src/system_events.hpp: the values that the
-- components hand to each other. A time point is a number of seconds since the epoch, as `to_time_t`
-- gives it; text that is taken from bytes is a list of bytes, other text a `String`.
pub mod Decode
pub mod Extremes
pub mod Samples
use limonitor.Common.{ℕ, List, Bool, ◌||◌, String}
use limonitor.Common.Int.{ℤ}

pub record ProtectionStatus : Type 0 where
  pub cell_overvoltage : Bool
  pub cell_undervoltage : Bool
  pub pack_overvoltage : Bool
  pub pack_undervoltage : Bool
  pub charge_overtemp : Bool
  pub charge_undertemp : Bool
  pub discharge_overtemp : Bool
  pub discharge_undertemp : Bool
  pub charge_overcurrent : Bool
  pub discharge_overcurrent : Bool
  pub short_circuit : Bool
  pub front_end_ic_error : Bool
  pub mosfet_software_lock : Bool

unfoldable pub any : ProtectionStatus → Bool
any p =
    p.cell_overvoltage || p.cell_undervoltage || p.pack_overvoltage || p.pack_undervoltage
    || p.charge_overtemp || p.charge_undertemp || p.discharge_overtemp || p.discharge_undertemp
    || p.charge_overcurrent || p.discharge_overcurrent || p.short_circuit || p.front_end_ic_error
    || p.mosfet_software_lock

pub record BatterySnapshot (F : Type 0) : Type 0 where
  pub timestamp : ℕ
  pub total_voltage_v : F
  pub current_a : F
  pub remaining_ah : F
  pub nominal_ah : F
  pub soc_pct : F
  pub power_w : F
  pub time_remaining_h : F
  pub cycle_count : ℕ
  pub charge_mosfet : Bool
  pub discharge_mosfet : Bool
  pub cell_voltages_v : List F
  pub cell_min_v : F
  pub cell_max_v : F
  pub cell_delta_v : F
  pub temperatures_c : List F
  pub protection : ProtectionStatus
  pub device_name : List ℕ
  pub hw_version : List ℕ
  pub sw_version : List ℕ
  pub ble_address : List ℕ
  pub valid : Bool

pub record PwrGateSnapshot (F : Type 0) : Type 0 where
  pub timestamp : ℕ
  pub valid : Bool
  pub state : String
  pub ps_v : F
  pub bat_v : F
  pub bat_a : F
  pub sol_v : F
  pub minutes : ℤ
  pub pwm : ℤ
  pub adc : ℤ
  pub target_v : F
  pub target_a : F
  pub stop_a : F
  pub temp : ℤ
  pub pss : ℤ

pub record TxEvent (F : Type 0) : Type 0 where
  pub start_time : F
  pub end_time : F
  pub duration : F
  pub peak_current : F
  pub peak_power : F

pub record SystemEvent : Type 0 where
  pub timestamp : ℕ
  pub message : String
