-- ===== src/Common/Int.antt =====
-- Signed integers over the native numbers, for the program's `int`, `int32_t` and `int64_t`.
use Prim.Native.Nat.{ℕ, suc, ◌+◌, ◌-◌, ◌*◌, ◌/◌}
use native.Mathlib.Omega.{arith}
use mathlib.Core.Path.{◌≡◌, refl, ap}
use mathlib.Core.Logic.{◌⊎◌, inl, inr}
use mathlib.Core.Bool.{Bool}
use limonitor.Common.Tests.{leb, ltb, ◌==◌, if◌then◌else◌}

-- `negsuc n` is -(n + 1).
pub data ℤ : Type 0 where
  pos : ℕ → ℤ
  negsuc : ℕ → ℤ

abbrev pub pos_part : ℤ → ℕ
pos_part (pos n) = n
pos_part (negsuc n) = 0

abbrev pub neg_part : ℤ → ℕ
neg_part (pos n) = 0
neg_part (negsuc n) = suc n

-- a - b, for a and b not negative.
abbrev pub sub_ℕ : ℕ → ℕ → ℤ
sub_ℕ a b = if leb b a then pos (a - b) else negsuc (b - a - 1)

infixl 65 ◌+ℤ◌ ◌-ℤ◌
infixl 70 ◌*ℤ◌
abbrev pub ◌+ℤ◌ : ℤ → ℤ → ℤ
a +ℤ b = sub_ℕ (pos_part a + pos_part b) (neg_part a + neg_part b)

abbrev pub ◌-ℤ◌ : ℤ → ℤ → ℤ
a -ℤ b = sub_ℕ (pos_part a + neg_part b) (neg_part a + pos_part b)

abbrev pub ◌*ℤ◌ : ℤ → ℤ → ℤ
a *ℤ b =
    sub_ℕ (pos_part a * pos_part b + neg_part a * neg_part b)
      (pos_part a * neg_part b + neg_part a * pos_part b)

-- The quotient by a positive number, towards zero.
abbrev pub quot_ℕ : ℤ → ℕ → ℤ
quot_ℕ a n = sub_ℕ (pos_part a / n) (neg_part a / n)

abbrev pub ltb_ℤ : ℤ → ℤ → Bool
ltb_ℤ a b = ltb (pos_part a + neg_part b) (pos_part b + neg_part a)

abbrev pub leb_ℤ : ℤ → ℤ → Bool
leb_ℤ a b = leb (pos_part a + neg_part b) (pos_part b + neg_part a)

abbrev pub eqb_ℤ : ℤ → ℤ → Bool
eqb_ℤ a b = pos_part a + neg_part b == pos_part b + neg_part a

sub-sub_ℕ : (a b : ℕ) → (pos_part (sub_ℕ a b) ≡ a - b) × (neg_part (sub_ℕ a b) ≡ b - a)
sub-sub_ℕ a b = (ground arith, ground arith)

eq_of_parts : (x y : ℤ) → pos_part x ≡ pos_part y → neg_part x ≡ neg_part y → x ≡ y
eq_of_parts (pos m) (pos n) h k = ap pos h
eq_of_parts (pos m) (negsuc n) h k = absurd (omega (arith, k))
eq_of_parts (negsuc m) (pos n) h k = absurd (omega (arith, k))
eq_of_parts (negsuc m) (negsuc n) h k = ap negsuc (omega (arith, k))

one_part : (x : ℤ) → (pos_part x ≡ 0) ⊎ (neg_part x ≡ 0)
one_part (pos n) = inr refl
one_part (negsuc n) = inl refl

pub +ℤ_assoc : (a b c : ℤ) → a +ℤ b +ℤ c ≡ a +ℤ (b +ℤ c)
+ℤ_assoc a b c =
    let ab = sub-sub_ℕ (pos_part a + pos_part b) (neg_part a + neg_part b) in
    let bc = sub-sub_ℕ (pos_part b + pos_part c) (neg_part b + neg_part c) in
    let abc = sub-sub_ℕ (pos_part (a +ℤ b) + pos_part c) (neg_part (a +ℤ b) + neg_part c) in
    let acb = sub-sub_ℕ (pos_part a + pos_part (b +ℤ c)) (neg_part a + neg_part (b +ℤ c)) in
    eq_of_parts _ _ (omega (arith, ab, bc, abc, acb)) (omega (arith, ab, bc, abc, acb))

pub +ℤ_-ℤ : (a b : ℤ) → a +ℤ b -ℤ b ≡ a
+ℤ_-ℤ a b =
    let ab = sub-sub_ℕ (pos_part a + pos_part b) (neg_part a + neg_part b) in
    let out = sub-sub_ℕ (pos_part (a +ℤ b) + neg_part b) (neg_part (a +ℤ b) + pos_part b) in
    eq_of_parts _ _ (omega (arith, ab, out, one_part a)) (omega (arith, ab, out, one_part a))

pub zero_+ℤ : (a : ℤ) → pos 0 +ℤ a ≡ a
zero_+ℤ a =
    let out = sub-sub_ℕ (0 + pos_part a) (0 + neg_part a) in
    eq_of_parts _ _ (omega (arith, out, one_part a)) (omega (arith, out, one_part a))
