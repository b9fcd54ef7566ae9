-- ===== src/Store/Update.antt =====
-- src/data_store.cpp: the `DataStore` itself, which hands every reading to its parts. The analytics
-- engine, the optional extensions and the registered observers are taken by the operations the store
-- calls on them. A call runs under the mutex and reads each clock once: `now` is the system clock and
-- `tick` the steady clock, in whole seconds.
pub mod Rings
pub mod Samples
mod Examples
use limonitor.Common.{
  ℕ, ◌-◌, Bool, true, false, List, [], ◌∷◌, Option, none, some, leb, map, last?, last_n, trim,
  String, if◌then◌else◌, ◌++◌,
}
use limonitor.Common.Int.{ℤ}
use limonitor.Double.{Double}
use limonitor.Battery.{BatterySnapshot, PwrGateSnapshot, TxEvent, SystemEvent}
use limonitor.Store.Tx.{TxState, process_battery, process_charger}
use limonitor.Store.Events.{
  Status, Watch, Log, load_events, push_system_event, process_system_events,
}
use limonitor.Store.Buffer.{Buffers, note_battery, note_charger, flush_db}

-- What the store calls on an `AnalyticsEngine` (E), an `AnalyticsExtensions` (X) and an observer (O).
-- `blank` is a `BatterySnapshot{}`.
pub record Engine (F E X O : Type 0) : Type 0 where
  pub on_battery : BatterySnapshot F → Option (PwrGateSnapshot F) → E → E
  pub on_charger : PwrGateSnapshot F → Option (BatterySnapshot F) → E → E
  pub self_monitor : E → E
  pub status : E → Status
  pub rate : F → E → E
  pub extend :
      BatterySnapshot F
      → Option (PwrGateSnapshot F)
      → E
      → List (BatterySnapshot F)
      → List (TxEvent F)
      → X
      → X
  pub notify : BatterySnapshot F → O → O
  pub blank : BatterySnapshot F

pub record DataStore (F E X O : Type 0) : Type 0 where
  pub ring : List (BatterySnapshot F)
  pub pwrgate_ring : List (PwrGateSnapshot F)
  pub max_history : ℕ
  pub tx : TxState F
  pub tx_threshold : F
  pub watch : Watch
  pub buffers : Buffers F
  pub analytics : E
  pub extensions : Option X
  pub observers : List O
  pub last_bms_update : ℕ
  pub last_charger_update : ℕ
  pub last_self_monitor : ℕ

module _ {F E X O : Type 0} where
  unfoldable pub latest : DataStore F E X O → Option (BatterySnapshot F)
  latest s = last? s.ring

  unfoldable pub latest_pwrgate : DataStore F E X O → Option (PwrGateSnapshot F)
  latest_pwrgate s = last? s.pwrgate_ring

  pub history : ℕ → DataStore F E X O → List (BatterySnapshot F)
  history n s = last_n n s.ring

  pub pwrgate_history : ℕ → DataStore F E X O → List (PwrGateSnapshot F)
  pwrgate_history n s = last_n n s.pwrgate_ring

  pub tx_events : ℕ → DataStore F E X O → List (TxEvent F)
  tx_events n s = last_n n s.tx.events

  pub system_events : ℕ → DataStore F E X O → List SystemEvent
  system_events n s = last_n n s.watch.log.system_events

  pub set_tx_threshold : F → DataStore F E X O → DataStore F E X O
  set_tx_threshold amps s = record s { tx_threshold = amps }

  unfoldable pub set_loading_history : Bool → DataStore F E X O → DataStore F E X O
  set_loading_history loading s =
      let w = s.watch in
      record s { watch = record w { log = record (w.log) { loading_history = loading } } }

  pub set_database : Bool → DataStore F E X O → DataStore F E X O
  set_database has_db s =
      let w = s.watch in
      record s {
        watch = record w { log = record (w.log) { has_db = has_db } };
        buffers = record (s.buffers) { has_db = has_db };
      }

  pub load_system_events_from_db : List SystemEvent → DataStore F E X O → DataStore F E X O
  load_system_events_from_db events s =
      let w = s.watch in
      record s {
        watch = record w {
          log = record (w.log) { system_events = load_events events w.log.system_events };
        };
      }

  pub on_update : O → DataStore F E X O → DataStore F E X O
  on_update obs s = record s { observers = s.observers ++ (obs ∷ []) }

module _ {F E X O : Type 0} ⦃d : Double F⦄ (engine : Engine F E X O) where
  -- `set_config`, by the three fields of a `Config` that it uses.
  unfoldable pub set_config : F → F → ℤ → DataStore F E X O → DataStore F E X O
  set_config threshold rated interval s = record s {
    tx_threshold = threshold;
    analytics = engine.rate rated s.analytics;
    buffers = record (s.buffers) { interval = interval };
  }

  -- The self monitor runs at most once a minute.
  unfoldable pub monitor : ℕ → DataStore F E X O → DataStore F E X O
  monitor tick s =
      if leb 60 (tick - s.last_self_monitor)
      then record s { analytics = engine.self_monitor s.analytics; last_self_monitor = tick }
      else s

  pub extend_with :
      BatterySnapshot F → Option (PwrGateSnapshot F) → DataStore F E X O → Option X → Option X
  extend_with snap pg s none = none
  extend_with snap pg s (some x) = some (engine.extend snap pg s.analytics s.ring s.tx.events x)

  unfoldable pub update : ℕ → ℕ → BatterySnapshot F → DataStore F E X O → DataStore F E X O
  update now tick snap s =
      let pg = latest_pwrgate s in
      let seen : DataStore F E X O = record s {
        tx = process_battery s.tx_threshold snap pg s.tx;
        analytics = engine.on_battery snap pg s.analytics;
      } in
      let checked = monitor tick seen in
      let stored : DataStore F E X O = record checked {
        last_bms_update = snap.timestamp;
        watch = process_system_events now snap pg (engine.status checked.analytics) checked.watch;
        ring = checked.ring ++ (snap ∷ []);
        buffers = note_battery tick s.watch.log.loading_history snap checked.buffers;
      } in
      record stored {
        extensions = extend_with snap pg stored stored.extensions;
        ring = trim s.max_history stored.ring;
        observers = map (engine.notify snap) stored.observers;
      }

  -- The extensions see a charger reading only once there is a battery reading.
  pub extend_charger :
      PwrGateSnapshot F → Option (BatterySnapshot F) → DataStore F E X O → Option X → Option X
  extend_charger snap none s x = x
  extend_charger snap (some bat) s x = extend_with bat (some snap) s x

  pub or_blank : Option (BatterySnapshot F) → BatterySnapshot F
  or_blank none = engine.blank
  or_blank (some bat) = bat

  unfoldable pub update_pwrgate : ℕ → ℕ → PwrGateSnapshot F → DataStore F E X O → DataStore F E X O
  update_pwrgate now tick snap s =
      let bat = latest s in
      let seen : DataStore F E X O = record s {
        tx = process_charger s.tx_threshold snap bat s.tx;
        analytics = engine.on_charger snap bat s.analytics;
        last_charger_update = snap.timestamp;
      } in
      record seen {
        extensions = extend_charger snap bat seen seen.extensions;
        watch =
            process_system_events now (or_blank bat) (some snap) (engine.status seen.analytics)
              seen.watch;
        pwrgate_ring = trim s.max_history (seen.pwrgate_ring ++ (snap ∷ []));
        buffers = note_charger tick s.watch.log.loading_history snap seen.buffers;
      }

-- The calls that change what the store holds, in any order, each with its two clock readings.
pub data Action (F : Type 0) : Type 0 where
  battery : BatterySnapshot F → Action F
  charger : PwrGateSnapshot F → Action F
  say : String → Action F
  flush : Action F
  loading : Bool → Action F

module _ {F E X O : Type 0} ⦃d : Double F⦄ (engine : Engine F E X O) where
  unfoldable pub act : ℕ → ℕ → Action F → DataStore F E X O → DataStore F E X O
  act now tick (battery snap) s = update engine now tick snap s
  act now tick (charger snap) s = update_pwrgate engine now tick snap s
  act now tick (say msg) s =
      let w = s.watch in record s { watch = record w { log = push_system_event now msg w.log } }
  act now tick flush s = record s { buffers = flush_db tick s.buffers }
  act now tick (loading on) s = set_loading_history on s

  unfoldable pub run : List (ℕ × ℕ × Action F) → DataStore F E X O → DataStore F E X O
  run [] s = s
  run ((now, tick, a) ∷ rest) s = run rest (act now tick a s)
