-- ===== src/System/Examples.antt =====
-- The composition at concrete inputs.
use limonitor.Common.{ℕ, suc, List, [], ◌∷◌, none}
use limonitor.Common.Int.{pos}
use limonitor.Double.{Fixed, fixed_double}
use limonitor.Battery.Samples.{blank, idle_charger}
use limonitor.AnalyticsEngine.{AnalyticsEngine}
use limonitor.AnalyticsEngine.Samples.{utc}
use limonitor.AnalyticsEngine.Start.{new_engine}
use limonitor.Store.Update.{DataStore, battery, charger}
use limonitor.Store.Update.Samples.{empty_store}
use limonitor.System.{Outside, Call, store, configure}

abbrev counts : Outside Fixed ℕ ℕ ℕ
counts = record {
  self_monitor = λ n. suc n;
  extend = λ snap pg e ring events x. suc x;
  notify = λ snap n. suc n;
  blank = blank;
}

abbrev begun : DataStore Fixed (AnalyticsEngine Fixed × ℕ) ℕ ℕ
begun = empty_store (new_engine (pos 100_000_000), 0) none (0 ∷ [])

abbrev calls : List (ℕ × ℕ × Call Fixed)
calls =
    (1, 1, store (battery blank))
    ∷ (2, 2, store (charger idle_charger))
    ∷ (3, 3, configure (pos 1_000_000) (pos 90_000_000) (pos 60))
    ∷ (4, 4, store (battery blank))
    ∷ []
