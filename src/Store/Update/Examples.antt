-- ===== src/Store/Update/Examples.antt =====
-- The theorems of the whole store at concrete inputs: an engine that counts, and observers that keep
-- what they were told.
use limonitor.Common.{ℕ, suc, ◌≡◌, List, [], ◌∷◌, ◌++◌, none, some, arith, trim}
use limonitor.Double.{Fixed, fixed_double}
use limonitor.Battery.{BatterySnapshot}
use limonitor.Battery.Samples.{blank, idle_charger}
use limonitor.Store.Events.{Status}
use limonitor.Store.Update.{Engine, DataStore, Action, battery, charger, flush, latest, update, run}
use limonitor.Store.Update.Samples.{empty_store}
use limonitor.Store.Update.Rings.{batteries, run-ring, update-latest}

abbrev idle : Status
idle = record { charging_stage = "Idle"; cell_balance_status = "Good"; temp_status = "Normal" }

abbrev counting : Engine Fixed ℕ ℕ (List (BatterySnapshot Fixed))
counting = record {
  on_battery = λ snap pg n. suc n;
  on_charger = λ snap bat n. suc n;
  self_monitor = λ n. n;
  status = λ n. idle;
  rate = λ ah n. n;
  extend = λ snap pg n ring events x. suc x;
  notify = λ snap seen. seen ++ (snap ∷ []);
  blank = blank;
}

abbrev two_slots : DataStore Fixed ℕ ℕ (List (BatterySnapshot Fixed))
two_slots = empty_store 0 none ([] ∷ [])

abbrev at : ℕ → BatterySnapshot Fixed
at t = record blank { timestamp = t }

abbrev calls : List (ℕ × ℕ × Action Fixed)
calls =
    (1, 1, battery (at 1))
    ∷ (2, 2, charger idle_charger)
    ∷ (3, 3, battery (at 3))
    ∷ (4, 4, flush)
    ∷ (5, 5, battery (at 5))
    ∷ []

run-ring_example : (run counting calls two_slots).ring ≡ at 3 ∷ at 5 ∷ []
unfolding batteries trim
run-ring_example = run-ring counting calls two_slots (omega arith)

update-latest_example :
    (latest (update counting 7 7 (at 7) two_slots) ≡ some (at 7))
    × ((update counting 7 7 (at 7) two_slots).last_bms_update ≡ 7)
update-latest_example = update-latest counting 7 7 (at 7) two_slots (omega arith)
