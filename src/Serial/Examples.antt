-- ===== src/Serial/Examples.antt =====
-- The theorems of the serial reader at concrete inputs.
use limonitor.Common.{ℕ, ◌≡◌, refl, true, false, List, [], ◌∷◌, ◌++◌, some, arith}
use limonitor.Common.Int.{pos}
use limonitor.Double.{Fixed, fixed_double}
use limonitor.Battery.Samples.{idle_charger}
use limonitor.Serial.Lines.{find, starts_with, ends_asking, strip_end, prompt_response}
use limonitor.Serial.Gate.{Text, parse}
use limonitor.Serial.Reader.{Reader, feed, session}
use limonitor.Serial.Reader.Pairs.{feed-pair}
use limonitor.Serial.Reader.Settings.{settings_count, IsSound, session-IsSound}

abbrev twelve : Text Fixed
twelve = record { scan = λ s. some (pos 12_000_000); to_int = λ x. x; to_string = λ s. "Float" }

abbrev listening : Reader Fixed
listening = record {
  has_callback = true;
  line_buf = [];
  line_len = 0;
  pending_status = [];
  reconfigure_sent = false;
  sent = [];
  delivered = [];
}

-- "PS=1" and "TargetV=1"
abbrev status_line : List ℕ
status_line = 80 ∷ 83 ∷ 61 ∷ 49 ∷ []

abbrev target_line : List ℕ
target_line = 84 ∷ 97 ∷ 114 ∷ 103 ∷ 101 ∷ 116 ∷ 86 ∷ 61 ∷ 49 ∷ []

feed-pair_example :
    let after =
      feed twelve 7 idle_charger
        (status_line ++ (13 ∷ 10 ∷ target_line ++ (13 ∷ 10 ∷ [])))
        listening in
    (after.delivered ≡ (parse twelve 7 status_line target_line idle_charger).1 ∷ [])
    × (after.pending_status ≡ [])
unfolding find starts_with ends_asking strip_end prompt_response
feed-pair_example =
    feed-pair twelve 7 idle_charger status_line target_line listening
      (((refl, refl), ((refl, refl), ((refl, refl), ((refl, refl), tt)))), omega arith)
      (
        (
          (refl, refl),
          (
            (refl, refl),
            (
              (refl, refl),
              (
                (refl, refl),
                ((refl, refl), ((refl, refl), ((refl, refl), ((refl, refl), ((refl, refl), tt))))),
              ),
            ),
          ),
        ),
        omega arith,
      )
      (refl, refl, refl) (refl, refl) (refl, refl, refl)

session-IsSound_example :
    IsSound
      (session twelve 7 idle_charger (status_line ∷ [] ∷ (13 ∷ 10 ∷ target_line) ∷ []) listening)
unfolding settings_count
session-IsSound_example =
    session-IsSound twelve 7 idle_charger (status_line ∷ [] ∷ (13 ∷ 10 ∷ target_line) ∷ [])
      listening (refl, refl, omega arith)
