-- ===== src/Jbd/Apply/Basic.antt =====
-- The basic-info payload: what a BMS with given readings sends is read back.
use limonitor.Common.{
  ℕ, ◌+◌, ◌*◌, ◌/◌, ◌%◌, ◌^◌, ◌≤◌, ◌≡◌, refl, ap, ◌∙◌, true, false, List, [], ◌∷◌, ◌++◌, map, arith,
  ltb, if◌then◌else◌, length, get_or, length-append, ge→ltb, lt→ltb, ltb→ge,
}
use limonitor.Common.Int.{ℤ}
use limonitor.Double.{Double, ◌*F◌, of_ℕ, decimal}
use limonitor.Battery.{BatterySnapshot}
use limonitor.Battery.Decode.{u16be, to_s16, bit}
use limonitor.Battery.Extremes.{pattern_of, Fits, to_s16-pattern_of}
use limonitor.Jbd.Apply.{decode_protection, apply_basic_info, read_temperatures}
use limonitor.Jbd.Apply.Cells.{words, kelvin_tenths, read_temperatures-words}

-- What the battery measures, in the units of the protocol.
pub record Reading : Type 0 where
  pub voltage : ℕ
  pub current : ℤ
  pub remaining : ℕ
  pub nominal : ℕ
  pub cycles : ℕ
  pub date : ℕ
  pub balance_low : ℕ
  pub balance_high : ℕ
  pub prot : ℕ
  pub version : ℕ
  pub soc : ℕ
  pub fets : ℕ
  pub cells : ℕ
  pub temperatures : List ℕ

-- The first 23 bytes of the payload.
pub head_of : Reading → List ℕ
head_of r =
    words (
      r.voltage
      ∷ pattern_of 16 r.current
      ∷ r.remaining
      ∷ r.nominal
      ∷ r.cycles
      ∷ r.date
      ∷ r.balance_low
      ∷ r.balance_high
      ∷ r.prot
      ∷ [])
    ++ (r.version ∷ r.soc ∷ r.fets ∷ r.cells ∷ length r.temperatures ∷ [])

pub payload_of : Reading → List ℕ
unfolding head_of
payload_of r = head_of r ++ words r.temperatures

length-head_of : (r : Reading) → length (head_of r) ≡ 23
unfolding head_of words
length-head_of r = refl

long_enough : (r : Reading) (n : ℕ) → n ≤ 23 → ltb (length (payload_of r)) n ≡ false
unfolding payload_of
long_enough r n h =
    ge→ltb _ _ (omega (arith, length-append (head_of r) (words r.temperatures), length-head_of r))

module _ (r : Reading) where
  unfolded_words : (v : ℕ) → v / 2 ^ 8 * 2 ^ 8 + v % 2 ^ 8 ≡ v
  unfolded_words v = omega arith

  at_voltage : u16be (payload_of r) 0 ≡ r.voltage
  unfolding u16be payload_of words
  at_voltage = unfolded_words (r.voltage)

  at_current : u16be (payload_of r) 2 ≡ pattern_of 16 r.current
  unfolding u16be payload_of words
  at_current = unfolded_words (pattern_of 16 r.current)

  at_remaining : u16be (payload_of r) 4 ≡ r.remaining
  unfolding u16be payload_of words
  at_remaining = unfolded_words (r.remaining)

  at_nominal : u16be (payload_of r) 6 ≡ r.nominal
  unfolding u16be payload_of words
  at_nominal = unfolded_words (r.nominal)

  at_cycles : u16be (payload_of r) 8 ≡ r.cycles
  unfolding u16be payload_of words
  at_cycles = unfolded_words (r.cycles)

  at_prot : u16be (payload_of r) 16 ≡ r.prot
  unfolding u16be payload_of words
  at_prot = unfolded_words (r.prot)

  at_soc : get_or (payload_of r) 19 0 ≡ r.soc
  unfolding payload_of words
  at_soc = refl

  at_fets : get_or (payload_of r) 20 0 ≡ r.fets
  unfolding payload_of words
  at_fets = refl

  at_count : get_or (payload_of r) 22 0 ≡ length r.temperatures
  unfolding payload_of words
  at_count = refl

module _ {F : Type 0} ⦃d : Double F⦄ where
  -- The payload of a battery with given readings is decoded to these readings, at the protocol's
  -- scales: voltage, signed current (within 16 bits), charge, cycles, protection word, state of
  -- charge, switches and every temperature sensor. The snapshot is then marked valid.
  pub apply_basic_info-payload_of :
      (r : Reading) (snap : BatterySnapshot F)
      → Fits (2 ^ 15) r.current
      → let s = apply_basic_info (payload_of r) snap in
        (s.total_voltage_v ≡ of_ℕ r.voltage *F decimal 1 2)
        × (s.current_a ≡ d.of_ℤ r.current *F decimal 1 2)
        × (s.remaining_ah ≡ of_ℕ r.remaining *F decimal 1 2)
        × (s.nominal_ah ≡ of_ℕ r.nominal *F decimal 1 2)
        × (s.cycle_count ≡ r.cycles)
        × (s.protection ≡ decode_protection r.prot)
        × (s.soc_pct ≡ of_ℕ r.soc)
        × (s.charge_mosfet ≡ bit r.fets 0)
        × (s.discharge_mosfet ≡ bit r.fets 1)
        × (s.temperatures_c ≡ map kelvin_tenths r.temperatures)
        × (s.valid ≡ true)
  unfolding apply_basic_info
  apply_basic_info-payload_of r snap fits =
      let hundredths : ℕ → F = λ v. of_ℕ v *F decimal 1 2 in
      rw (long_enough r 23 (omega arith)) (
        ap hundredths (at_voltage r),
        ap (λ z. d.of_ℤ z *F decimal 1 2)
            (ap to_s16 (at_current r) ∙ to_s16-pattern_of r.current fits),
        ap hundredths (at_remaining r),
        ap hundredths (at_nominal r),
        at_cycles r,
        ap decode_protection (at_prot r),
        ap of_ℕ (at_soc r),
        ap (λ b. bit b 0) (at_fets r),
        ap (λ b. bit b 1) (at_fets r),
        sensors,
        refl,
      )
    where
      counted :
          (if ltb 22 (length (payload_of r)) then get_or (payload_of r) 22 0 else 0)
          ≡ length r.temperatures
      counted = rw (lt→ltb 22 _ (ltb→ge _ 23 (long_enough r 23 (omega arith)))) (at_count r)

      sensors :
          read_temperatures {F = F}
            (payload_of r)
            (if ltb 22 (length (payload_of r)) then get_or (payload_of r) 22 0 else 0)
            0
          ≡ map kelvin_tenths r.temperatures
      sensors = rw counted (
          unfold payload_of in
          read_temperatures-words (head_of r) r.temperatures (length-head_of r))
