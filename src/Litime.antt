-- ===== src/Litime.antt =====
-- src/litime_protocol.cpp: the LiTime request, the packet decoder and the receive buffer.
pub mod Stream
pub mod Packet
pub mod Decode
mod Examples
use limonitor.Common.{
  ℕ, zero, suc, ◌+◌, ◌*◌, ◌%◌, ◌^◌, Bool, true, false, not, List, [], ◌∷◌, ◌++◌, ltb, leb, ◌==◌,
  if◌then◌else◌, length, get_or,
}
use limonitor.Double.{Double, ◌-F◌, ◌*F◌, ◌/F◌, ◌>F◌, of_ℕ, decimal, neg}
use limonitor.Battery.{ProtectionStatus, BatterySnapshot}
use limonitor.Battery.Decode.{
  u16le, u32le, to_s16, to_s32, bit, Extremes, extremes, no_cells, time_left,
}

pub build_request : List ℕ
build_request = 0x00 ∷ 0x00 ∷ 0x04 ∷ 0x01 ∷ 0x13 ∷ 0x55 ∷ 0xAA ∷ 0x17 ∷ []

abbrev pub min_response_len : ℕ
min_response_len = 66

-- The flags at offset 76; the ones that the protocol does not report keep their values.
pub decode_protection : ℕ → ProtectionStatus → ProtectionStatus
decode_protection prot old = record old {
  pack_overvoltage = bit prot 2;
  pack_undervoltage = bit prot 5;
  charge_overcurrent = bit prot 6;
  discharge_overcurrent = bit prot 7;
  charge_overtemp = bit prot 8;
  discharge_overtemp = bit prot 9;
  charge_undertemp = bit prot 10;
  discharge_undertemp = bit prot 11;
  short_circuit = bit prot 14;
}

module _ {F : Type 0} ⦃d : Double F⦄ where
  -- The cells i, i + 1, ..., with `left` of them to go. A zero stands for an absent cell.
  pub read_cells : List ℕ → ℕ → ℕ → List F
  read_cells bytes zero i = []
  read_cells bytes (suc left) i =
      let rest = read_cells bytes left (i + 1) in
      let raw = u16le bytes (16 + i * 2) in
      if raw == 0 then rest else (of_ℕ raw /F decimal 1000 0) ∷ rest

  abbrev has_cells : List F → Bool
  has_cells [] = false
  has_cells (v ∷ vs) = true

  -- The state of charge from the capacities, if the nominal one is known.
  soc_of : F → F → F → F
  soc_of remaining nominal old =
      if nominal >F decimal 0 0 then remaining /F nominal *F decimal 100 0 else old

  -- The part that every packet has.
  pub parse_core : List ℕ → BatterySnapshot F → BatterySnapshot F
  unfolding soc_of
  parse_core bytes snap =
      let voltage = of_ℕ (u32le bytes 12) /F decimal 1000 0 in
      let current = neg (d.of_ℤ (to_s32 (u32le bytes 48)) /F decimal 1000 0) in
      let cells = read_cells bytes 16 0 in
      let m = extremes no_cells cells in
      let remaining = of_ℕ (u16le bytes 62) /F decimal 100 0 in
      let nominal = of_ℕ (u16le bytes 64) /F decimal 100 0 in
      record snap {
        total_voltage_v = voltage;
        current_a = current;
        cell_voltages_v = cells;
        cell_min_v = m.least;
        cell_max_v = m.greatest;
        cell_delta_v = if has_cells cells then m.greatest -F m.least else snap.cell_delta_v;
        temperatures_c = d.of_ℤ (to_s16 (u16le bytes 52)) ∷ d.of_ℤ (to_s16 (u16le bytes 54)) ∷ [];
        remaining_ah = remaining;
        nominal_ah = nominal;
        soc_pct = soc_of remaining nominal snap.soc_pct;
      }

  pub parse_protection : List ℕ → BatterySnapshot F → BatterySnapshot F
  parse_protection bytes snap =
      let prot = u32le bytes 76 in
      if ltb 79 (length bytes)
      then record snap {
        protection = decode_protection prot snap.protection;
        discharge_mosfet = not (bit prot 5);
      }
      else snap

  pub parse_state : List ℕ → BatterySnapshot F → BatterySnapshot F
  parse_state bytes snap =
      let bms_soc = u16le bytes 90 in
      if ltb 91 (length bytes)
      then record snap {
        charge_mosfet = not (bit (u16le bytes 88) 2);
        soc_pct = if ltb 0 bms_soc then of_ℕ bms_soc else snap.soc_pct;
      }
      else snap

  pub parse_cycles : List ℕ → BatterySnapshot F → BatterySnapshot F
  parse_cycles bytes snap =
      if ltb 99 (length bytes) then record snap { cycle_count = u32le bytes 96 % 2 ^ 16 } else snap

  pub parse_derived : BatterySnapshot F → BatterySnapshot F
  parse_derived snap = record snap {
    power_w = snap.total_voltage_v *F snap.current_a;
    time_remaining_h = time_left snap.current_a snap.remaining_ah snap.nominal_ah;
    valid = true;
  }

  -- The result of `parse`, and the snapshot after it.
  pub parse : List ℕ → BatterySnapshot F → Bool × BatterySnapshot F
  parse bytes snap = if ltb (length bytes) min_response_len then (false, snap) else (
    true,
    parse_derived
        (parse_cycles bytes (parse_state bytes (parse_protection bytes (parse_core bytes snap)))),
  )

pub data ParseResult : Type 0 where
  need_more complete error : ParseResult

pub record Parser : Type 0 where
  pub buf : List ℕ

pub reset : Parser → Parser
reset p = record { buf = [] }

pub feed : List ℕ → Parser → Parser × ParseResult
feed bytes p =
    let buf = p.buf ++ bytes in
    (record { buf = buf }, if leb min_response_len (length buf) then complete else need_more)

pub apply : {F : Type 0} ⦃d : Double F⦄ → Parser → BatterySnapshot F → BatterySnapshot F
apply p snap = if leb min_response_len (length p.buf) then (parse p.buf snap).1 else snap
