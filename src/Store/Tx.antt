-- ===== src/Store/Tx.antt =====
-- src/data_store.cpp, `run_tx_detection` and its two callers: a radio transmission is an interval in
-- which the discharge current is high.
pub mod Burst
use limonitor.Common.{
  ℕ, Bool, true, false, ◌||◌, List, [], ◌∷◌, ◌++◌, Option, none, some, if◌then◌else◌, push_bounded,
}
use limonitor.Double.{Double, ◌-F◌, ◌*F◌, ◌<F◌, ◌>F◌, of_ℕ, decimal, neg, fmax}
use limonitor.Battery.{BatterySnapshot, PwrGateSnapshot, TxEvent}

abbrev pub tx_events_max : ℕ
tx_events_max = 100

pub record TxState (F : Type 0) : Type 0 where
  pub active : Bool
  pub start_time : F
  pub peak_current : F
  pub peak_power : F
  pub events : List (TxEvent F)

-- The arguments of one call.
pub record Sample (F : Type 0) : Type 0 where
  pub now : F
  pub bat_cur : F
  pub bat_v : F
  pub chg_a : F
  pub chg_v : F

module _ {F : Type 0} ⦃d : Double F⦄ where
  unfoldable pub discharge : Sample F → F
  discharge s = if s.bat_cur >F decimal 0 0 then s.bat_cur else decimal 0 0

  unfoldable pub chg_discharge : Sample F → F
  chg_discharge s = if s.chg_a <F decimal 0 0 then neg s.chg_a else decimal 0 0

  abbrev pub chg_high_a : F
  chg_high_a = decimal 5 0

  unfoldable pub is_above : F → Sample F → Bool
  is_above threshold s =
      discharge s >F threshold || s.chg_a >F chg_high_a || chg_discharge s >F threshold

  unfoldable pub effective_cur : Sample F → F
  effective_cur s =
      fmax (fmax (discharge s) (chg_discharge s))
        (if s.chg_a >F chg_high_a then s.chg_a else decimal 0 0)

  unfoldable pub effective_v : Sample F → F
  effective_v s = if chg_discharge s >F decimal 0 0 then s.chg_v else s.bat_v

  unfoldable pub power : Sample F → F
  power s = effective_cur s *F effective_v s

  abbrev pub closed_event : TxState F → F → TxEvent F
  closed_event t now = record {
    start_time = t.start_time;
    end_time = now;
    duration = now -F t.start_time;
    peak_current = t.peak_current;
    peak_power = t.peak_power;
  }

  pub run_tx_detection : F → Sample F → TxState F → TxState F
  run_tx_detection threshold s t =
      if is_above threshold s
      then if t.active
        then if effective_cur s >F t.peak_current
          then record t { peak_current = effective_cur s; peak_power = power s }
          else t
        else record t {
          active = true;
          start_time = s.now;
          peak_current = effective_cur s;
          peak_power = power s;
        }
      else if t.active
      then record t {
        active = false;
        events = push_bounded tx_events_max t.events (closed_event t s.now);
      }
      else t

  -- `process_tx_detection` of a battery snapshot, with the charger's latest one.
  pub battery_sample : BatterySnapshot F → Option (PwrGateSnapshot F) → Sample F
  battery_sample snap none = record {
    now = of_ℕ snap.timestamp;
    bat_cur = snap.current_a;
    bat_v = snap.total_voltage_v;
    chg_a = decimal 0 0;
    chg_v = snap.total_voltage_v;
  }
  battery_sample snap (some pg) = record {
    now = of_ℕ snap.timestamp;
    bat_cur = snap.current_a;
    bat_v = snap.total_voltage_v;
    chg_a = pg.bat_a;
    chg_v = pg.bat_v;
  }

  pub process_battery : F → BatterySnapshot F → Option (PwrGateSnapshot F) → TxState F → TxState F
  process_battery threshold snap pg t =
      if snap.valid then run_tx_detection threshold (battery_sample snap pg) t else t

  -- `process_tx_detection` of a charger snapshot, with the battery's latest one.
  pub charger_sample : PwrGateSnapshot F → Option (BatterySnapshot F) → Sample F
  charger_sample snap none = record {
    now = of_ℕ snap.timestamp;
    bat_cur = decimal 0 0;
    bat_v = snap.bat_v;
    chg_a = snap.bat_a;
    chg_v = snap.bat_v;
  }
  charger_sample snap (some bat) = record {
    now = of_ℕ snap.timestamp;
    bat_cur = bat.current_a;
    bat_v = bat.total_voltage_v;
    chg_a = snap.bat_a;
    chg_v = snap.bat_v;
  }

  pub process_charger : F → PwrGateSnapshot F → Option (BatterySnapshot F) → TxState F → TxState F
  process_charger threshold snap bat t =
      if snap.valid then run_tx_detection threshold (charger_sample snap bat) t else t

  -- The samples of a stretch of time, in order.
  pub run : F → List (Sample F) → TxState F → TxState F
  run threshold [] t = t
  run threshold (s ∷ ss) t = run threshold ss (run_tx_detection threshold s t)
