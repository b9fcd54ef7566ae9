-- ===== src/Litime/Decode.antt =====
-- The LiTime decoder on a whole packet, and its branches on shorter ones.
use limonitor.Common.{
  ℕ, ◌%◌, ◌^◌, ◌≤◌, ◌<◌, ◌≡◌, refl, ap, ap₂, ◌∙◌, true, false, not, List, [], ◌∷◌, arith, ltb,
  length, All, Bool-cases, ◌⊎◌, inl, inr, ltb→lt, ltb→ge,
}
use limonitor.Double.{Double, IsOrdered, ◌/F◌, of_ℕ, decimal, neg}
use limonitor.Battery.{BatterySnapshot}
use limonitor.Battery.Decode.{bit, to_s16, to_s32, no_cells}
use limonitor.Battery.Extremes.{
  IsWithin, extremes-IsWithin, Fits, to_s16-pattern_of, to_s32-pattern_of,
}
use limonitor.Litime.{
  parse, parse_core, parse_protection, parse_state, parse_cycles, parse_derived, read_cells,
  decode_protection, min_response_len,
}
use limonitor.Litime.Packet.{
  Reading, head_of, tail_of, packet_of, present, length-packet_of, read_cells-from, at_voltage,
  at_current, at_cell_temp, at_bms_temp, at_remaining, at_nominal, at_prot, at_state, at_soc,
  at_cycles,
}

module _ {F : Type 0} ⦃d : Double F⦄ where
  abbrev hundredths : ℕ → F
  hundredths v = of_ℕ v /F decimal 100 0

  read_cells-packet_of :
      (r : Reading) → length r.cells ≡ 16 → read_cells {F = F} (packet_of r) 16 0 ≡ present r.cells
  unfolding packet_of
  read_cells-packet_of r sixteen =
      let whole =
        read_cells-from {F = F} (packet_of r) (head_of r) r.cells (tail_of r) 0 refl refl in
      rw sixteen at whole

  -- A packet with given readings is decoded to these readings: voltage, current with its sign
  -- turned, the cells that are present, both temperatures, the capacities, the state of charge that
  -- the BMS reports (which is not zero), the cycle count modulo 2 ^ 16 and the switch states. The
  -- current fits in 32 bits, the temperatures in 16, and there are 16 cell slots.
  pub parse-packet_of :
      (r : Reading) (snap : BatterySnapshot F)
      → length r.cells ≡ 16
      → Fits (2 ^ 31) r.current
      → Fits (2 ^ 15) r.cell_temp
      → Fits (2 ^ 15) r.bms_temp
      → 0 < r.soc
      → let (done, s) = parse (packet_of r) snap in
        (done ≡ true)
        × (s.total_voltage_v ≡ of_ℕ r.voltage /F decimal 1000 0)
        × (s.current_a ≡ neg (d.of_ℤ r.current /F decimal 1000 0))
        × (s.cell_voltages_v ≡ present r.cells)
        × (s.temperatures_c ≡ d.of_ℤ r.cell_temp ∷ d.of_ℤ r.bms_temp ∷ [])
        × (s.remaining_ah ≡ of_ℕ r.remaining /F decimal 100 0)
        × (s.nominal_ah ≡ of_ℕ r.nominal /F decimal 100 0)
        × (s.soc_pct ≡ of_ℕ r.soc)
        × (s.protection ≡ decode_protection r.prot snap.protection)
        × (s.discharge_mosfet ≡ not (bit r.prot 5))
        × (s.charge_mosfet ≡ not (bit r.state 2))
        × (s.cycle_count ≡ r.cycles % 2 ^ 16)
        × (s.valid ≡ true)
  unfolding parse parse_core parse_protection parse_state parse_cycles parse_derived
  parse-packet_of r snap sixteen current_fits cell_fits bms_fits positive =
      rw (length-packet_of r sixteen) (
        refl,
        ap (λ v. of_ℕ v /F decimal 1000 0) (at_voltage r sixteen),
        ap (λ v. neg (d.of_ℤ v /F decimal 1000 0))
            (ap to_s32 (at_current r sixteen) ∙ to_s32-pattern_of r.current current_fits),
        read_cells-packet_of r sixteen,
        ap₂ (λ a b. d.of_ℤ a ∷ d.of_ℤ b ∷ [])
            (ap to_s16 (at_cell_temp r sixteen) ∙ to_s16-pattern_of r.cell_temp cell_fits)
            (ap to_s16 (at_bms_temp r sixteen) ∙ to_s16-pattern_of r.bms_temp bms_fits),
        ap hundredths (at_remaining r sixteen),
        ap hundredths (at_nominal r sixteen),
        rw (at_soc r sixteen) (ground arith),
        ap (λ p. decode_protection p snap.protection) (at_prot r sixteen),
        ap (λ p. not (bit p 5)) (at_prot r sixteen),
        ap (λ p. not (bit p 2)) (at_state r sixteen),
        ap (λ c. c % 2 ^ 16) (at_cycles r sixteen),
        refl,
      )

  -- The reported extremes bound every reported cell.
  abbrev pub AreBounded : BatterySnapshot F → Type 0
  AreBounded s =
      All (IsWithin (record { least = s.cell_min_v; greatest = s.cell_max_v })) s.cell_voltages_v

  later_steps-AreBounded :
      (bytes : List ℕ) (s : BatterySnapshot F)
      → AreBounded s
      → AreBounded (parse_protection bytes s)
        × AreBounded (parse_state bytes s)
        × AreBounded (parse_cycles bytes s)
  unfolding parse_protection parse_state parse_cycles
  later_steps-AreBounded bytes s h = (
    elim (Bool-cases (ltb 79 (length bytes))) [ inl e ↦ rw e h | inr e ↦ rw e h ],
    elim (Bool-cases (ltb 91 (length bytes))) [ inl e ↦ rw e h | inr e ↦ rw e h ],
    elim (Bool-cases (ltb 99 (length bytes))) [ inl e ↦ rw e h | inr e ↦ rw e h ],
  )

  -- `parse` fails exactly on fewer than 66 bytes, and then changes nothing. Otherwise the snapshot
  -- is marked valid and, where the order of numbers is irreflexive and transitive, its cell
  -- extremes bound every cell.
  pub parse_branches :
      IsOrdered F
      → (bytes : List ℕ) (snap : BatterySnapshot F)
      → let (done, s) = parse bytes snap in
        (length bytes < min_response_len) × (done ≡ false) × (s ≡ snap)
        ⊎ (min_response_len ≤ length bytes) × (done ≡ true) × (s.valid ≡ true) × AreBounded s
  unfolding parse parse_core parse_derived
  parse_branches laws bytes snap =
      let core : AreBounded (parse_core bytes snap) =
        extremes-IsWithin laws no_cells (read_cells bytes 16 0) in
      let prot = (later_steps-AreBounded bytes (parse_core bytes snap) core).0 in
      let state = (later_steps-AreBounded bytes _ prot).1 in
      let cycles = (later_steps-AreBounded bytes _ state).2 in
      elim (Bool-cases (ltb (length bytes) min_response_len)) [
        | inl e ↦ rw e (inl (ltb→lt _ _ e, refl, refl))
        | inr e ↦ rw e (inr (ltb→ge _ _ e, refl, refl, cycles))
      ]
