-- ===== src/AnalyticsEngine/Aging/Date.antt =====
-- `std::sscanf(purchase_date, "%d-%d-%d", ...) == 3` of update_health_and_age, on the bytes of the date.
use limonitor.Common.{
  ℕ, ◌+◌, ◌-◌, ◌*◌, ◌==◌, Bool, ◌&&◌, ◌||◌, List, [], ◌∷◌, Option, none, some, leb, if◌then◌else◌,
}
use limonitor.Common.Int.{ℤ, pos, ◌-ℤ◌}

abbrev pub is_digit : ℕ → Bool
is_digit c = leb 48 c && leb c 57

abbrev is_space : ℕ → Bool
is_space c = c == 32 || leb 9 c && leb c 13

unfoldable pub skip_space : List ℕ → List ℕ
skip_space [] = []
skip_space (c ∷ cs) = let rest = skip_space cs in if is_space c then rest else c ∷ cs

unfoldable pub digits_from : ℕ → List ℕ → ℕ × List ℕ
digits_from acc [] = (acc, [])
digits_from acc (c ∷ cs) =
    let rest = digits_from (acc * 10 + (c - 48)) cs in if is_digit c then rest else (acc, c ∷ cs)

unfoldable pub scan_digits : List ℕ → Option (ℕ × List ℕ)
scan_digits [] = none
scan_digits (c ∷ cs) = if is_digit c then some (digits_from 0 (c ∷ cs)) else none

abbrev positive : Option (ℕ × List ℕ) → Option (ℤ × List ℕ)
positive none = none
positive (some (n, rest)) = some (pos n, rest)

abbrev negative : Option (ℕ × List ℕ) → Option (ℤ × List ℕ)
negative none = none
negative (some (n, rest)) = some (pos 0 -ℤ pos n, rest)

unfoldable pub signed : List ℕ → Option (ℤ × List ℕ)
signed [] = none
signed (c ∷ cs) =
    if c == 45
    then negative (scan_digits cs)
    else if c == 43
    then positive (scan_digits cs)
    else positive (scan_digits (c ∷ cs))

-- A `%d`.
unfoldable pub scan_int : List ℕ → Option (ℤ × List ℕ)
scan_int cs = signed (skip_space cs)

-- A '-' of the format.
unfoldable pub dash : List ℕ → Option (List ℕ)
dash [] = none
dash (c ∷ cs) = if c == 45 then some cs else none

infixl 5 ◌>>=◌
abbrev ◌>>=◌ : {A B : Type 0} → Option A → (A → Option B) → Option B
none >>= f = none
some a >>= f = f a

unfoldable pub scan_date : List ℕ → Option (ℤ × ℤ × ℤ)
scan_date cs = scan_int cs >>= λ y. dash y.1 >>= λ cs.
    scan_int cs >>= λ m. dash m.1 >>= λ cs. scan_int cs >>= λ r. some (y.0, m.0, r.0)
