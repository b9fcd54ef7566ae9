-- ===== src/Client/Examples.antt =====
-- An answer of the charger, read field by field.
use limonitor.Common.{◌≡◌, refl, List, ℕ, [], ◌∷◌, none, some, true}
use limonitor.Common.Int.{pos}
use limonitor.Double.{Fixed, fixed_double}
use limonitor.AnalyticsEngine.Aging.Date.{scan_int, skip_space, scan_digits, digits_from, signed}
use limonitor.Serial.Lines.{starts_with, find}
use limonitor.Serial.Gate.{Text, scan_or}
use limonitor.Client.{behind, pattern_of, until_quote, string_field, jval_d, says_valid}

abbrev whole : Text Fixed
whole = record {
  scan = λ s. elim (scan_int s) [ none ↦ none | some (n, rest) ↦ some (fixed_double.of_ℤ n) ];
  to_int = λ x. x;
  to_string = λ s. "";
}

-- {"valid":true,"s": "ab","v":12}
abbrev body : List ℕ
body =
    123 ∷ 34 ∷ 118 ∷ 97 ∷ 108 ∷ 105 ∷ 100 ∷ 34 ∷ 58 ∷ 116 ∷ 114 ∷ 117 ∷ 101 ∷ 44 ∷ 34 ∷ 115 ∷ 34
    ∷ 58 ∷ 32 ∷ 34 ∷ 97 ∷ 98 ∷ 34 ∷ 44 ∷ 34 ∷ 118 ∷ 34 ∷ 58 ∷ 49 ∷ 50 ∷ 125 ∷ []

body_fields :
    (says_valid body ≡ true)
    × (string_field body (115 ∷ []) ≡ some (97 ∷ 98 ∷ []))
    × (jval_d whole body (118 ∷ []) ≡ pos 12_000_000)
    × (jval_d whole body (119 ∷ []) ≡ pos 0)
unfolding says_valid string_field jval_d behind pattern_of until_quote find starts_with scan_or
    scan_int skip_space scan_digits digits_from signed
body_fields = (refl, refl, refl, refl)
