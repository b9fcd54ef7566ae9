-- ===== src/Battery/Extremes.antt =====
-- What the cell-voltage loop computes, and two's complement.
use limonitor.Common.{ℕ, ◌-◌, ◌^◌, ◌<◌, ◌≡◌, false, List, [], ◌∷◌, arith, All}
use limonitor.Common.Int.{ℤ, pos, negsuc}
use limonitor.Double.{Double, IsOrdered, ◌<F◌, ◌>F◌}
use limonitor.Battery.Decode.{Extremes, widen, extremes, to_s16, to_s32}

module _ {F : Type 0} ⦃d : Double F⦄ where
  -- v is neither below the least nor above the greatest value.
  abbrev pub IsWithin : Extremes F → F → Type 0
  IsWithin m v = ((v <F m.least) ≡ false) × ((v >F m.greatest) ≡ false)

module _ {F : Type 0} ⦃d : Double F⦄ (laws : IsOrdered F) where
  widen-IsWithin : (m : Extremes F) (v : F) → IsWithin (widen m v) v
  unfolding widen
  widen-IsWithin m v = ground (arith, laws.lt_irrefl v)

  widen-keeps : (m : Extremes F) (u v : F) → IsWithin m u → IsWithin (widen m v) u
  unfolding widen
  widen-keeps m u v h = ground (arith, laws.lt_trans u v m.least, laws.lt_trans m.greatest v u)

  extremes-keeps :
      (m : Extremes F) (u : F) (vs : List F) → IsWithin m u → IsWithin (extremes m vs) u
  unfolding extremes
  extremes-keeps m u [] h = h
  extremes-keeps m u (v ∷ vs) h = extremes-keeps (widen m v) u vs (widen-keeps m u v h)

  pub extremes-IsWithin : (m : Extremes F) (vs : List F) → All (IsWithin (extremes m vs)) vs
  unfolding extremes
  extremes-IsWithin m [] = tt
  extremes-IsWithin m (v ∷ vs) =
      (extremes-keeps (widen m v) v vs (widen-IsWithin m v), extremes-IsWithin (widen m v) vs)

-- The bit pattern of an integer in w bits of two's complement.
abbrev pub pattern_of : ℕ → ℤ → ℕ
pattern_of w (pos n) = n
pattern_of w (negsuc n) = 2 ^ w - 1 - n

abbrev pub Fits : ℕ → ℤ → Type 0
Fits half (pos n) = n < half
Fits half (negsuc n) = n < half

pub to_s16-pattern_of : (z : ℤ) → Fits (2 ^ 15) z → to_s16 (pattern_of 16 z) ≡ z
unfolding to_s16
to_s16-pattern_of (pos n) h = ground arith
to_s16-pattern_of (negsuc n) h = ground arith

pub to_s32-pattern_of : (z : ℤ) → Fits (2 ^ 31) z → to_s32 (pattern_of 32 z) ≡ z
unfolding to_s32
to_s32-pattern_of (pos n) h = ground arith
to_s32-pattern_of (negsuc n) h = ground arith
