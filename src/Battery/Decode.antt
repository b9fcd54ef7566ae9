-- ===== src/Battery/Decode.antt =====
-- Byte and bit helpers of src/jbd_protocol.cpp and src/litime_protocol.cpp, and the loop over the cell
-- voltages and the estimate of the time left, which both protocols have.
use limonitor.Common.{
  ℕ, ◌+◌, ◌-◌, ◌*◌, ◌/◌, ◌%◌, ◌^◌, Bool, List, [], ◌∷◌, ltb, ◌==◌, if◌then◌else◌, get_or,
}
use limonitor.Common.Int.{ℤ, pos, negsuc}
use limonitor.Double.{Double, ◌-F◌, ◌/F◌, ◌<F◌, ◌>F◌, decimal, neg}

-- Two bytes at an offset, the high one first.
unfoldable pub u16be : List ℕ → ℕ → ℕ
u16be d i = get_or d i 0 * 2 ^ 8 + get_or d (i + 1) 0

-- Two and four bytes at an offset, the low one first.
unfoldable pub u16le : List ℕ → ℕ → ℕ
u16le d i = get_or d i 0 + get_or d (i + 1) 0 * 2 ^ 8

unfoldable pub u32le : List ℕ → ℕ → ℕ
u32le d i =
    get_or d i 0
    + get_or d (i + 1) 0 * 2 ^ 8
    + get_or d (i + 2) 0 * 2 ^ 16
    + get_or d (i + 3) 0 * 2 ^ 24

-- `static_cast<int16_t>` of a `uint16_t`, and the same at 32 bits.
unfoldable pub to_s16 : ℕ → ℤ
to_s16 n = if ltb n (2 ^ 15) then pos n else negsuc (2 ^ 16 - 1 - n)

unfoldable pub to_s32 : ℕ → ℤ
to_s32 n = if ltb n (2 ^ 31) then pos n else negsuc (2 ^ 32 - 1 - n)

-- `(n >> k) & 1`, as a truth value.
unfoldable pub bit : ℕ → ℕ → Bool
bit n k = n / 2 ^ k % 2 == 1

-- The extremes that a loop over cell voltages keeps.
pub record Extremes (F : Type 0) : Type 0 where
  pub least : F
  pub greatest : F

module _ {F : Type 0} ⦃d : Double F⦄ where
  unfoldable pub widen : Extremes F → F → Extremes F
  widen m v = record {
    least = if v <F m.least then v else m.least;
    greatest = if v >F m.greatest then v else m.greatest;
  }

  unfoldable pub extremes : Extremes F → List F → Extremes F
  extremes m [] = m
  extremes m (v ∷ vs) = extremes (widen m v) vs

  unfoldable pub no_cells : Extremes F
  no_cells = record { least = decimal 9999 0; greatest = decimal 0 0 }

  -- Until empty while the current is positive, until full while it is negative.
  unfoldable pub time_left : F → F → F → F
  time_left current remaining nominal =
      if current >F decimal 1 2
      then remaining /F current
      else if current <F neg (decimal 1 2)
      then (nominal -F remaining) /F neg current
      else decimal 0 0
