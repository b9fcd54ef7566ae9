-- ===== src/System.antt =====
-- src/data_store.cpp with src/analytics.cpp: the data store whose analytics engine is the modelled one.
-- What update_self_monitor reads of the operating system is a second part of the engine's state (M) that
-- the store's calls hand on. `now` is `std::time(nullptr)`.
mod Examples
use limonitor.Common.{ℕ, last?, ◌≡◌, List, [], ◌∷◌, Option, none, some, if◌then◌else◌}
use limonitor.Common.Int.{ℤ}
use limonitor.Double.{Double}
use limonitor.Battery.{BatterySnapshot, PwrGateSnapshot, TxEvent}
use limonitor.AnalyticsEngine.{Host, AnalyticsEngine}
use limonitor.AnalyticsEngine.Aging.{set_rated_capacity}
use limonitor.AnalyticsEngine.Handlers.{on_battery, on_charger}
use limonitor.AnalyticsEngine.Handlers.Invariant.{IsWell, on_battery-IsWell, on_charger-IsWell}
use limonitor.Store.Events.{Status}
use limonitor.Store.Update.{
  Engine, DataStore, Action, battery, charger, say, flush, loading, set_config, act, run,
}

-- What the operating system, the extensions and the observers do with what they are handed.
pub record Outside (F M X O : Type 0) : Type 0 where
  pub self_monitor : M → M
  pub extend :
      BatterySnapshot F
      → Option (PwrGateSnapshot F)
      → AnalyticsEngine F
      → List (BatterySnapshot F)
      → List (TxEvent F)
      → X
      → X
  pub notify : BatterySnapshot F → O → O
  pub blank : BatterySnapshot F

pub data Call (F : Type 0) : Type 0 where
  store : Action F → Call F
  configure : F → F → ℤ → Call F

abbrev pub Store : (F M X O : Type 0) → Type 0
Store F M X O = DataStore F (AnalyticsEngine F × M) X O

module _ {F M X O : Type 0} ⦃d : Double F⦄ ⦃host : Host F⦄ (now : ℤ) (out : Outside F M X O) where
  -- The engine as the store calls it.
  unfoldable pub analytics : Engine F (AnalyticsEngine F × M) X O
  analytics = record {
    on_battery = λ snap pg e. (on_battery now snap pg e.0, e.1);
    on_charger = λ snap bat e. (on_charger snap bat e.0, e.1);
    self_monitor = λ e. (e.0, out.self_monitor e.1);
    status = λ e. record {
      charging_stage = e.0.charger.charging_stage;
      cell_balance_status = e.0.shown.cell_balance_status;
      temp_status = e.0.shown.temp_status;
    };
    rate = λ ah e. (record (e.0) { capacity = set_rated_capacity now ah e.0.capacity }, e.1);
    extend = λ snap pg e ring events x. out.extend snap pg e.0 ring events x;
    notify = out.notify;
    blank = out.blank;
  }

  -- The calls on the store, with `set_config` by the three fields that it uses.
  unfoldable pub call : ℕ → ℕ → Call F → Store F M X O → Store F M X O
  call wall tick (store a) s = act analytics wall tick a s
  call wall tick (configure threshold rated interval) s =
      set_config analytics threshold rated interval s

  unfoldable pub run_calls : List (ℕ × ℕ × Call F) → Store F M X O → Store F M X O
  run_calls [] s = s
  run_calls ((wall, tick, c) ∷ rest) s = run_calls rest (call wall tick c s)

  -- What the engine is to be told: each reading with the last one of the other kind before it, and each
  -- new rated capacity. `bat` and `chg` are the last readings so far.
  unfoldable pub told :
      Option (BatterySnapshot F)
      → Option (PwrGateSnapshot F)
      → List (ℕ × ℕ × Call F)
      → AnalyticsEngine F
      → AnalyticsEngine F
  told bat chg [] e = e
  told bat chg ((wall, tick, store (battery snap)) ∷ rest) e =
      told (some snap) chg rest (on_battery now snap chg e)
  told bat chg ((wall, tick, store (charger snap)) ∷ rest) e =
      told bat (some snap) rest (on_charger snap bat e)
  told bat chg ((wall, tick, store (say msg)) ∷ rest) e = told bat chg rest e
  told bat chg ((wall, tick, store flush) ∷ rest) e = told bat chg rest e
  told bat chg ((wall, tick, store (loading on)) ∷ rest) e = told bat chg rest e
  told bat chg ((wall, tick, configure threshold rated interval) ∷ rest) e =
      told bat chg rest (record e { capacity = set_rated_capacity now rated e.capacity })

  -- What a state shows of the readings: the engine, the last readings and the size of the rings.
  Sees :
      AnalyticsEngine F
      → Option (BatterySnapshot F)
      → Option (PwrGateSnapshot F)
      → ℕ
      → Store F M X O
      → Type 0
  Sees e bat chg n t =
      (t.analytics.0 ≡ e)
      × (last? t.ring ≡ bat)
      × (last? t.pwrgate_ring ≡ chg)
      × (t.max_history ≡ n)
