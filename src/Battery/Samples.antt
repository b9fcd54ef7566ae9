-- ===== src/Battery/Samples.antt =====
-- Values of the shared records, for examples.
use limonitor.Common.{[], true, false}
use limonitor.Common.Int.{pos}
use limonitor.Double.{Fixed}
use limonitor.Battery.{ProtectionStatus, BatterySnapshot, PwrGateSnapshot}

abbrev pub no_faults : ProtectionStatus
no_faults = record {
  cell_overvoltage = false;
  cell_undervoltage = false;
  pack_overvoltage = false;
  pack_undervoltage = false;
  charge_overtemp = false;
  charge_undertemp = false;
  discharge_overtemp = false;
  discharge_undertemp = false;
  charge_overcurrent = false;
  discharge_overcurrent = false;
  short_circuit = false;
  front_end_ic_error = false;
  mosfet_software_lock = false;
}

abbrev pub blank : BatterySnapshot Fixed
blank = record {
  timestamp = 0;
  total_voltage_v = pos 0;
  current_a = pos 0;
  remaining_ah = pos 0;
  nominal_ah = pos 0;
  soc_pct = pos 0;
  power_w = pos 0;
  time_remaining_h = pos 0;
  cycle_count = 0;
  charge_mosfet = false;
  discharge_mosfet = false;
  cell_voltages_v = [];
  cell_min_v = pos 0;
  cell_max_v = pos 0;
  cell_delta_v = pos 0;
  temperatures_c = [];
  protection = no_faults;
  device_name = [];
  hw_version = [];
  sw_version = [];
  ble_address = [];
  valid = false;
}

abbrev pub idle_charger : PwrGateSnapshot Fixed
idle_charger = record {
  timestamp = 0;
  valid = true;
  state = "Idle";
  ps_v = pos 0;
  bat_v = pos 13_200_000;
  bat_a = pos 0;
  sol_v = pos 0;
  minutes = pos 0;
  pwm = pos 0;
  adc = pos 0;
  target_v = pos 14_200_000;
  target_a = pos 10_000_000;
  stop_a = pos 0;
  temp = pos 0;
  pss = pos 0;
}
