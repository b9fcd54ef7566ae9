-- ===== src/AnalyticsEngine/Handlers/Invariant.antt =====
-- What holds of an engine after any sequence of readings.
use limonitor.Common.{
  ◌≤◌, refl, sym, Bool, true, false, not, List, [], ◌∷◌, Option, none, some, arith, subst,
  if◌then◌else◌,
}
use limonitor.Common.Int.{ℤ}
use limonitor.Double.{Double, decimal, of_ℕ}
use limonitor.Battery.{BatterySnapshot, PwrGateSnapshot}
use limonitor.AnalyticsEngine.{Host, AnalyticsEngine, Day, unix_day, local_hour_id}
use limonitor.AnalyticsEngine.Rings.{IsRing}
use limonitor.AnalyticsEngine.Energy.{integrate_discharge_wh}
use limonitor.AnalyticsEngine.Energy.Archive.{IsArchived, reset-IsArchived, archive_hour-IsArchived}
use limonitor.AnalyticsEngine.Extended.Windows.Latest.{IsSized, note_rate-history}
use limonitor.AnalyticsEngine.Handlers.{
  draws, charger_load, compute_extended_analytics, battery_day, note_battery, on_battery,
  charger_day, note_charger, extend_with, on_charger,
}
use limonitor.AnalyticsEngine.Handlers.Parts.{
  same_archive, power_keeps, soc_keeps, solar_keeps, runtime_keeps, integrate_keeps, AreInOrder,
  battery-AreInOrder, charger-AreInOrder, next_mode-bounded, trend-IsRing, trends_keep,
}
use limonitor.AnalyticsEngine.Start.{new_engine, first_day, no_loads, no_trend, no_rates}
use limonitor.AnalyticsEngine.Rings.Order.{fresh, fresh-IsRing, length-replicate}

-- The archives are within their arrays, the rings are in order, and fewer than four readings of another
-- mode are counted.
pub record IsWell {F : Type 0} ⦃d : Double F⦄ (s : AnalyticsEngine F) : Type 0 where
  pub archived : IsArchived s.day
  pub loads : AreInOrder s.loads
  pub samples : IsRing 12 s.trend.samples
  pub rates : IsSized s.rates.rate
  pub mode : s.mode.system_mode_confirm ≤ 3

module _ {F : Type 0} ⦃d : Double F⦄ ⦃host : Host F⦄ where
  battery_day-IsArchived :
      (snap : BatterySnapshot F) (s : AnalyticsEngine F)
      → IsArchived s.day
      → IsArchived (battery_day snap s)
  unfolding battery_day
  battery_day-IsArchived snap s w = same_archive _ _ (soc_keeps snap.soc_pct _) (
      archive_hour-IsArchived (local_hour_id (of_ℕ snap.timestamp)) _ (
        same_archive _ _ (power_keeps s.bat_seen s.prev_bat_ts (of_ℕ snap.timestamp) snap.power_w _)
          (reset-IsArchived (unix_day (of_ℕ snap.timestamp)) (of_ℕ snap.timestamp) s.day w)))

  drawn-IsArchived :
      (draws_now : Bool) (ts w : F) (s : Day F)
      → IsArchived s
      → IsArchived (if draws_now then integrate_discharge_wh ts w s else s)
  drawn-IsArchived true ts w s h = same_archive _ _ (integrate_keeps ts w s) h
  drawn-IsArchived false ts w s h = h

  charger_day-IsArchived :
      (snap : PwrGateSnapshot F) (s : AnalyticsEngine F)
      → IsArchived s.day
      → IsArchived (charger_day snap s)
  unfolding charger_day
  charger_day-IsArchived snap s w =
      let ts = of_ℕ snap.timestamp in
      same_archive _ _ (runtime_keeps (unix_day ts) snap _) (
        drawn-IsArchived (draws snap) ts (charger_load snap) _ (
          same_archive _ _ (solar_keeps s.chg_seen s.prev_chg_ts ts snap _)
            (reset-IsArchived (unix_day ts) ts s.day w)))

  extended-IsWell :
      (bat : BatterySnapshot F) (chg : Option (PwrGateSnapshot F)) (s : AnalyticsEngine F)
      → IsWell s
      → IsWell (compute_extended_analytics bat chg s)
  unfolding compute_extended_analytics
  extended-IsWell bat chg s w = record {
    archived = w.archived;
    loads = w.loads;
    samples = subst (IsRing 12) (sym (trends_keep s.trend)) w.samples;
    rates = (note_rate-history bat _ s.rates w.rates).0;
    mode = next_mode-bounded bat s.mode w.mode;
  }

  note_battery-IsWell :
      (now : ℤ) (snap : BatterySnapshot F) (s : AnalyticsEngine F)
      → IsWell s
      → IsWell (note_battery now snap s)
  unfolding note_battery
  note_battery-IsWell now snap s w = record {
    archived = battery_day-IsArchived snap s w.archived;
    loads = battery-AreInOrder (of_ℕ snap.timestamp) snap s.loads w.loads;
    samples =
        trend-IsRing (of_ℕ snap.timestamp) snap.total_voltage_v snap.soc_pct s.trend w.samples;
    rates = w.rates;
    mode = w.mode;
  }

  note_charger-IsWell :
      (snap : PwrGateSnapshot F) (s : AnalyticsEngine F) → IsWell s → IsWell (note_charger snap s)
  unfolding note_charger
  note_charger-IsWell snap s w = record {
    archived = charger_day-IsArchived snap s w.archived;
    loads = charger-AreInOrder (of_ℕ snap.timestamp) snap s.loads w.loads;
    samples = w.samples;
    rates = w.rates;
    mode = w.mode;
  }

  -- A handler is its body at a valid reading, and nothing at another one.
  guarded :
      (valid : Bool) (s t : AnalyticsEngine F)
      → IsWell s
      → IsWell t
      → IsWell (if not valid then s else t)
  guarded true s t w v = v
  guarded false s t w v = w

  pub on_battery-IsWell :
      (now : ℤ) (snap : BatterySnapshot F) (chg : Option (PwrGateSnapshot F))
      (s : AnalyticsEngine F)
      → IsWell s
      → IsWell (on_battery now snap chg s)
  unfolding on_battery
  on_battery-IsWell now snap chg s w =
      let e =
        extended-IsWell snap chg (note_battery now snap s) (note_battery-IsWell now snap s w) in
      guarded snap.valid s _ w (record {
        archived = e.archived;
        loads = e.loads;
        samples = e.samples;
        rates = e.rates;
        mode = e.mode;
      })

  extend_with-IsWell :
      (snap : PwrGateSnapshot F) (bat : Option (BatterySnapshot F)) (s : AnalyticsEngine F)
      → IsWell s
      → IsWell (extend_with snap bat s)
  unfolding extend_with
  extend_with-IsWell snap none s w = w
  extend_with-IsWell snap (some bat) s w = extended-IsWell bat (some snap) s w

  pub on_charger-IsWell :
      (snap : PwrGateSnapshot F) (bat : Option (BatterySnapshot F)) (s : AnalyticsEngine F)
      → IsWell s
      → IsWell (on_charger snap bat s)
  unfolding on_charger
  on_charger-IsWell snap bat s w =
      let e = extend_with-IsWell snap bat (note_charger snap s) (note_charger-IsWell snap s w) in
      guarded snap.valid s _ w (record {
        archived = e.archived;
        loads = e.loads;
        samples = e.samples;
        rates = e.rates;
        mode = e.mode;
      })

-- The calls of the two handlers, a battery reading with the time at which it is handled.
pub data Reading (F : Type 0) : Type 0 where
  battery : ℤ → BatterySnapshot F → Option (PwrGateSnapshot F) → Reading F
  charger : PwrGateSnapshot F → Option (BatterySnapshot F) → Reading F

module _ {F : Type 0} ⦃d : Double F⦄ ⦃host : Host F⦄ where
  unfoldable pub handle : Reading F → AnalyticsEngine F → AnalyticsEngine F
  handle (battery now snap chg) s = on_battery now snap chg s
  handle (charger snap bat) s = on_charger snap bat s

  unfoldable pub run : List (Reading F) → AnalyticsEngine F → AnalyticsEngine F
  run [] s = s
  run (r ∷ rs) s = run rs (handle r s)

  handle-IsWell : (r : Reading F) (s : AnalyticsEngine F) → IsWell s → IsWell (handle r s)
  unfolding handle
  handle-IsWell (battery now snap chg) s w = on_battery-IsWell now snap chg s w
  handle-IsWell (charger snap bat) s w = on_charger-IsWell snap bat s w

  run_from : (rs : List (Reading F)) (s : AnalyticsEngine F) → IsWell s → IsWell (run rs s)
  unfolding run
  run_from [] s w = w
  run_from (r ∷ rs) s w = run_from rs (handle r s) (handle-IsWell r s w)

  pub new_engine-IsWell : (rated : F) → IsWell (new_engine rated)
  unfolding new_engine first_day no_loads no_trend no_rates fresh
  new_engine-IsWell rated =
      let no_rate : F × F = (decimal 0 0, decimal 0 0) in
      record {
        archived = record {
          days = omega arith;
          days_paired = refl;
          hours = omega arith;
          hours_paired = refl;
        };
        loads = record {
          load = fresh-IsRing 720 _ (omega arith);
          chg_pwr = fresh-IsRing 720 _ (omega arith);
        };
        samples = fresh-IsRing 12 _ (omega arith);
        rates = record {
          sized = length-replicate 72 no_rate;
          head_lt = omega arith;
          count_le = omega arith;
        };
        mode = omega arith;
      }

  -- After any sequence of battery and charger readings, valid or not, a new engine has its archives within
  -- their arrays (8 days, 24 hours, with as many numbers as energies), its four rings in order with head
  -- and count in bounds, and fewer than four readings of another mode counted.
  pub run-new_engine-IsWell :
      (rs : List (Reading F)) (rated : F) → IsWell (run rs (new_engine rated))
  run-new_engine-IsWell rs rated = run_from rs (new_engine rated) (new_engine-IsWell rated)
