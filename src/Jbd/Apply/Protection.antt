-- ===== src/Jbd/Apply/Protection.antt =====
-- The protection word: what `ProtectionStatus::any` says of it, and which payloads leave a snapshot
-- alone.
use limonitor.Common.{
  ℕ, ◌/◌, ◌%◌, ◌^◌, ◌≤◌, ◌<◌, ◌≡◌, ◌≢◌, ◌⊎◌, inl, inr, refl, ◌↔◌, true, false, List, [], ◌∷◌, arith,
  length, All, Bool-cases,
}
use limonitor.Double.{Double}
use limonitor.Battery.{BatterySnapshot, ProtectionStatus, any}
use limonitor.Battery.Decode.{bit}
use limonitor.Jbd.Apply.{
  decode_protection, apply_payload, apply_basic_info, cmd_basic_info, cmd_cell_volts,
  cmd_device_info, until_nul,
}

abbrev Clear : ProtectionStatus → Type 0
Clear p =
    (p.cell_overvoltage ≡ false)
    × (p.cell_undervoltage ≡ false)
    × (p.pack_overvoltage ≡ false)
    × (p.pack_undervoltage ≡ false)
    × (p.charge_overtemp ≡ false)
    × (p.charge_undertemp ≡ false)
    × (p.discharge_overtemp ≡ false)
    × (p.discharge_undertemp ≡ false)
    × (p.charge_overcurrent ≡ false)
    × (p.discharge_overcurrent ≡ false)
    × (p.short_circuit ≡ false)
    × (p.front_end_ic_error ≡ false)
    × (p.mosfet_software_lock ≡ false)

any-Clear : (p : ProtectionStatus) → any p ≡ false → Clear p
unfolding any
any-Clear p h = ground arith

Clear-any : (p : ProtectionStatus) → Clear p → any p ≡ false
unfolding any
Clear-any p h = ground arith

bit_clear : (n k : ℕ) → bit n k ≡ false → n / 2 ^ k % 2 ≡ 0
unfolding bit
bit_clear n k h = ground arith

clear_bit : (n k : ℕ) → n / 2 ^ k % 2 ≡ 0 → bit n k ≡ false
unfolding bit
clear_bit n k h = ground arith

Clear-mod : (n : ℕ) → Clear (decode_protection n) → n % 2 ^ 13 ≡ 0
unfolding decode_protection
Clear-mod n h = omega (
  arith,
  bit_clear n 0 h.0,
  bit_clear n 1 h.1,
  bit_clear n 2 h.2,
  bit_clear n 3 h.3,
  bit_clear n 4 h.4,
  bit_clear n 5 h.5,
  bit_clear n 6 h.6,
  bit_clear n 7 h.7,
  bit_clear n 8 h.8,
  bit_clear n 9 h.9,
  bit_clear n 10 h.10,
  bit_clear n 11 h.11,
  bit_clear n 12 h.12,
)

mod-Clear : (n : ℕ) → n % 2 ^ 13 ≡ 0 → Clear (decode_protection n)
unfolding decode_protection
mod-Clear n h = (
  clear_bit n 0 (omega arith),
  clear_bit n 1 (omega arith),
  clear_bit n 2 (omega arith),
  clear_bit n 3 (omega arith),
  clear_bit n 4 (omega arith),
  clear_bit n 5 (omega arith),
  clear_bit n 6 (omega arith),
  clear_bit n 7 (omega arith),
  clear_bit n 8 (omega arith),
  clear_bit n 9 (omega arith),
  clear_bit n 10 (omega arith),
  clear_bit n 11 (omega arith),
  clear_bit n 12 (omega arith),
)

-- `any` holds of a decoded protection word exactly when one of its low 13 bits is set.
pub any-decode_protection : (n : ℕ) → (any (decode_protection n) ≡ true) ↔ (n % 2 ^ 13 ≢ 0)
any-decode_protection n = (
  λ h e. cc (Clear-any (decode_protection n) (mod-Clear n e)),
  λ h. elim (Bool-cases (any (decode_protection n))) [
    | inl e ↦ e
    | inr e ↦ absurd (h (Clear-mod n (any-Clear (decode_protection n) e)))
  ],
)

-- Payloads that `apply` takes no reading from.
abbrev pub IsIgnored : ℕ → List ℕ → Type 0
IsIgnored cmd payload =
    (payload ≡ [])
    ⊎ (cmd ≡ cmd_basic_info) × (length payload < 23)
    ⊎ (cmd ≢ cmd_basic_info) × (cmd ≢ cmd_cell_volts) × (cmd ≢ cmd_device_info)

module _ {F : Type 0} ⦃d : Double F⦄ where
  -- An empty payload, a basic-info payload below 23 bytes and an unknown command change nothing of
  -- the snapshot.
  pub apply_payload-IsIgnored :
      (cmd : ℕ) (payload : List ℕ) (snap : BatterySnapshot F)
      → IsIgnored cmd payload
      → apply_payload cmd payload snap ≡ snap
  unfolding apply_payload apply_basic_info
  apply_payload-IsIgnored cmd [] snap h = refl
  apply_payload-IsIgnored cmd (b ∷ bs) snap h = ground arith

abbrev pub IsName : ℕ → Type 0
IsName b = b ≢ 0

-- A device name is what stands before the first NUL, and has at most as many bytes as were looked at.
pub until_nul_lem :
    (bytes : List ℕ) → All IsName (until_nul bytes) × (length (until_nul bytes) ≤ length bytes)
unfolding until_nul
until_nul_lem [] = (tt, omega arith)
until_nul_lem (b ∷ bs) = ground (arith, until_nul_lem bs)
