-- ===== src/Jbd/Apply.antt =====
-- src/jbd_protocol.cpp, `Parser::apply`: a complete payload written into the snapshot.
pub mod Basic
pub mod Cells
pub mod Protection
use limonitor.Common.{
  ℕ, zero, suc, ◌+◌, ◌-◌, ◌*◌, ◌/◌, ◌%◌, ◌^◌, Bool, true, List, [], ◌∷◌, ◌++◌, ltb, ◌==◌,
  if◌then◌else◌, length, get_or, take,
}
use limonitor.Common.Int.{ℤ, pos}
use limonitor.Double.{Double, ◌+F◌, ◌-F◌, ◌*F◌, of_ℕ, decimal}
use limonitor.Battery.{ProtectionStatus, BatterySnapshot}
use limonitor.Battery.Decode.{u16be, to_s16, bit, Extremes, extremes, no_cells, time_left}
use limonitor.Jbd.{Parser}

abbrev pub cmd_basic_info : ℕ
cmd_basic_info = 0x03

abbrev pub cmd_cell_volts : ℕ
cmd_cell_volts = 0x04

abbrev pub cmd_device_info : ℕ
cmd_device_info = 0x05

pub decode_protection : ℕ → ProtectionStatus
decode_protection prot = record {
  cell_overvoltage = bit prot 0;
  cell_undervoltage = bit prot 1;
  pack_overvoltage = bit prot 2;
  pack_undervoltage = bit prot 3;
  charge_overtemp = bit prot 4;
  charge_undertemp = bit prot 5;
  discharge_overtemp = bit prot 6;
  discharge_undertemp = bit prot 7;
  charge_overcurrent = bit prot 8;
  discharge_overcurrent = bit prot 9;
  short_circuit = bit prot 10;
  front_end_ic_error = bit prot 11;
  mosfet_software_lock = bit prot 12;
}

-- "%d" of a number below 16.
nibble_text : ℕ → List ℕ
nibble_text n = if ltb n 10 then (48 + n) ∷ [] else 49 ∷ (38 + n) ∷ []

-- "%d.%d" of the two halves of the version byte.
version_text : ℕ → List ℕ
unfolding nibble_text
version_text b = nibble_text (b / 2 ^ 4) ++ (b'.' ∷ nibble_text (b % 2 ^ 4))

-- The bytes up to the first NUL.
pub until_nul : List ℕ → List ℕ
until_nul [] = []
until_nul (b ∷ bs) = if b == 0 then [] else b ∷ until_nul bs

module _ {F : Type 0} ⦃d : Double F⦄ where
  -- The loop over the temperature sensors, with `left` of them to go.
  pub read_temperatures : List ℕ → ℕ → ℕ → List F
  read_temperatures bytes zero i = []
  read_temperatures bytes (suc left) i =
      let rest = read_temperatures bytes left (i + 1) in
      let off = 23 + i * 2 in
      if ltb (off + 1) (length bytes)
      then (of_ℕ (u16be bytes off) *F decimal 1 1 -F decimal 27315 2) ∷ rest
      else []

  -- The voltages of cells i, i + 1, ..., with `left` of them to go.
  pub read_cells : List ℕ → ℕ → ℕ → List F
  read_cells bytes zero i = []
  read_cells bytes (suc left) i =
      (of_ℕ (u16be bytes (i * 2)) *F decimal 1 3) ∷ read_cells bytes left (i + 1)

  pub apply_basic_info : List ℕ → BatterySnapshot F → BatterySnapshot F
  unfolding version_text
  apply_basic_info bytes snap =
      let n = length bytes in
      let voltage = of_ℕ (u16be bytes 0) *F decimal 1 2 in
      let current = d.of_ℤ (to_s16 (u16be bytes 2)) *F decimal 1 2 in
      let remaining = of_ℕ (u16be bytes 4) *F decimal 1 2 in
      let nominal = of_ℕ (u16be bytes 6) *F decimal 1 2 in
      let fet_status = get_or bytes 20 0 in
      let num_ntc : ℕ = if ltb 22 n then get_or bytes 22 0 else 0 in
      if ltb n 23 then snap else record snap {
        total_voltage_v = voltage;
        current_a = current;
        remaining_ah = remaining;
        nominal_ah = nominal;
        cycle_count = u16be bytes 8;
        protection = decode_protection (u16be bytes 16);
        sw_version = version_text (get_or bytes 18 0);
        soc_pct = of_ℕ (get_or bytes 19 0);
        charge_mosfet = bit fet_status 0;
        discharge_mosfet = bit fet_status 1;
        temperatures_c = read_temperatures bytes num_ntc 0;
        power_w = voltage *F current;
        time_remaining_h = time_left current remaining nominal;
        valid = true;
      }

  pub apply_cell_volts : List ℕ → BatterySnapshot F → BatterySnapshot F
  apply_cell_volts bytes snap =
      let cells = read_cells bytes (length bytes / 2) 0 in
      let m = extremes no_cells cells in
      record snap {
        cell_voltages_v = cells;
        cell_min_v = m.least;
        cell_max_v = m.greatest;
        cell_delta_v = m.greatest -F m.least;
      }

  pub apply_device_info : List ℕ → BatterySnapshot F → BatterySnapshot F
  apply_device_info bytes snap = record snap { device_name = until_nul (take 24 bytes) }

  pub apply_payload : ℕ → List ℕ → BatterySnapshot F → BatterySnapshot F
  apply_payload cmd [] snap = snap
  apply_payload cmd (b ∷ bs) snap =
      if cmd == cmd_basic_info
      then apply_basic_info (b ∷ bs) snap
      else if cmd == cmd_cell_volts
      then apply_cell_volts (b ∷ bs) snap
      else if cmd == cmd_device_info
      then apply_device_info (b ∷ bs) snap
      else snap

  pub apply : Parser → BatterySnapshot F → BatterySnapshot F
  apply p snap = apply_payload p.last_cmd p.payload snap
