-- ===== src/Double.antt =====
-- The type `double` as the program uses it: a type with IEEE operations and comparisons.
use limonitor.Common.{ℕ, ◌+◌, ◌*◌, ◌/◌, ◌^◌, ◌≡◌, Bool, true, false, arith, if◌then◌else◌}
use limonitor.Common.Int.{
  ℤ, pos, negsuc, ◌+ℤ◌, ◌-ℤ◌, ◌*ℤ◌, quot_ℕ, ltb_ℤ, leb_ℤ, +ℤ_assoc, +ℤ_-ℤ, zero_+ℤ,
}

-- `decimal m k` is the literal m / 10 ^ k, and `of_ℤ` the conversion from an integer type.
pub record Double (F : Type 0) : Type 0 where
  pub of_ℤ : ℤ → F
  pub decimal : ℕ → ℕ → F
  pub add : F → F → F
  pub sub : F → F → F
  pub mul : F → F → F
  pub div : F → F → F
  pub neg : F → F
  pub lt : F → F → Bool
  pub le : F → F → Bool

module _ {F : Type 0} ⦃d : Double F⦄ where
  infixl 65 ◌+F◌ ◌-F◌
  infixl 70 ◌*F◌ ◌/F◌
  infix 50 ◌<F◌ ◌>F◌ ◌≤F◌ ◌≥F◌
  abbrev pub ◌+F◌ : F → F → F
  a +F b = d.add a b

  abbrev pub ◌-F◌ : F → F → F
  a -F b = d.sub a b

  abbrev pub ◌*F◌ : F → F → F
  a *F b = d.mul a b

  abbrev pub ◌/F◌ : F → F → F
  a /F b = d.div a b

  abbrev pub ◌<F◌ : F → F → Bool
  a <F b = d.lt a b

  abbrev pub ◌>F◌ : F → F → Bool
  a >F b = d.lt b a

  abbrev pub ◌≤F◌ : F → F → Bool
  a ≤F b = d.le a b

  abbrev pub ◌≥F◌ : F → F → Bool
  a ≥F b = d.le b a

  abbrev pub of_ℕ : ℕ → F
  of_ℕ n = d.of_ℤ (pos n)

  abbrev pub decimal : ℕ → ℕ → F
  decimal = d.decimal

  abbrev pub neg : F → F
  neg = d.neg

  -- `std::max(a, b)` and `std::min(a, b)`, as the standard defines them.
  abbrev pub fmax : F → F → F
  fmax a b = if a <F b then b else a

  abbrev pub fmin : F → F → F
  fmin a b = if b <F a then b else a

-- What the proofs use of the comparisons. It holds of IEEE doubles, NaN included.
pub record IsOrdered (F : Type 0) ⦃d : Double F⦄ : Type 0 where
  pub lt_irrefl : (a : F) → (a <F a) ≡ false
  pub lt_trans : (a b c : F) → (a <F b) ≡ true → (b <F c) ≡ true → (a <F c) ≡ true

-- No number is both at least as large as another and below it. It holds of IEEE doubles, NaN included.
pub record IsConsistent (F : Type 0) ⦃d : Double F⦄ : Type 0 where
  pub le_not_lt : (a b : F) → (a ≤F b) ≡ true → (b <F a) ≡ false

-- Sums without rounding: what a term adds, taking it away again removes.
pub record IsExact (F : Type 0) ⦃d : Double F⦄ : Type 0 where
  pub add_comm : (a b : F) → a +F b ≡ b +F a
  pub add_assoc : (a b c : F) → (a +F b) +F c ≡ a +F (b +F c)
  pub add_sub : (a b : F) → (a +F b) -F b ≡ a
  pub zero_add : (a : F) → d.decimal 0 0 +F a ≡ a

-- Numbers with six decimals, for examples.
abbrev pub Fixed : Type 0
Fixed = ℤ

abbrev pub scale : ℕ
scale = 1_000_000

abbrev pub div_fixed : ℤ → ℤ → ℤ
div_fixed a (pos n) = quot_ℕ (a *ℤ pos scale) n
div_fixed a (negsuc n) = quot_ℕ ((pos 0 -ℤ a) *ℤ pos scale) (n + 1)

instance abbrev pub fixed_double : Double Fixed
fixed_double = record {
  of_ℤ = λ a. a *ℤ pos scale;
  decimal = λ m k. pos (m * scale / 10 ^ k);
  add = ◌+ℤ◌;
  sub = ◌-ℤ◌;
  mul = λ a b. quot_ℕ (a *ℤ b) scale;
  div = div_fixed;
  neg = λ a. pos 0 -ℤ a;
  lt = ltb_ℤ;
  le = leb_ℤ;
}

pub Fixed-IsOrdered : IsOrdered Fixed
Fixed-IsOrdered = record { lt_irrefl = λ a. ground arith; lt_trans = λ a b c h k. ground arith }

pub Fixed-IsConsistent : IsConsistent Fixed
Fixed-IsConsistent = record { le_not_lt = λ a b h. ground arith }

pub Fixed-IsExact : IsExact Fixed
Fixed-IsExact = record {
  add_comm = λ a b. ground arith;
  add_assoc = λ a b c. +ℤ_assoc a b c;
  add_sub = λ a b. +ℤ_-ℤ a b;
  zero_add = λ a. zero_+ℤ a;
}
