-- ===== src/AnalyticsEngine/Handlers/Parts.antt =====
-- What the groups of the engine's state keep through the blocks of its handlers.
use limonitor.Common.{
  ◌≤◌, ◌≡◌, refl, sym, ap, ◌∙◌, inl, inr, Bool, true, false, arith, length, Bool-cases, if_true,
  if_false, subst, if◌then◌else◌, ◌==◌,
}
use limonitor.Common.Int.{ℤ}
use limonitor.Double.{Double, ◌>F◌, decimal}
use limonitor.Battery.{BatterySnapshot, PwrGateSnapshot}
use limonitor.AnalyticsEngine.{Day, Loads, Trend, Mode}
use limonitor.AnalyticsEngine.Rings.{IsRing, push, push-IsRing}
use limonitor.AnalyticsEngine.Energy.{
  integrate_discharge_wh, note_battery_power, note_soc, note_solar, note_runtime, start_runtime,
  add_minutes,
}
use limonitor.AnalyticsEngine.Energy.Archive.{IsArchived}
use limonitor.AnalyticsEngine.Load.{
  is_early, push_load_sample, push_charger_power_sample, recompute_load_stats,
}
use limonitor.AnalyticsEngine.Regression.{
  push_voltage_soc_sample, leave, compute_voltage_trend, compute_soc_trend,
}
use limonitor.AnalyticsEngine.Extended.Status.{next_mode, pending_mode}
use limonitor.AnalyticsEngine.Extended.Status.Debounce.{follow_mode-bounded}
use limonitor.AnalyticsEngine.Handlers.{note_battery_load, note_charger_load, draws, charger_load}

module _ {F : Type 0} ⦃d : Double F⦄ where
  -- Both arrays of an archive are as they were.
  abbrev pub SameArchive : Day F → Day F → Type 0
  SameArchive s t =
      (t.energy_by_day ≡ s.energy_by_day)
      × (t.days_by_day ≡ s.days_by_day)
      × (t.discharge_wh_per_hour ≡ s.discharge_wh_per_hour)
      × (t.discharge_hour_ts ≡ s.discharge_hour_ts)

  pub same_archive : (s t : Day F) → SameArchive s t → IsArchived s → IsArchived t
  same_archive s t (a, b, c, e) w = record {
    days = subst (λ xs. length xs ≤ 8) (sym a) w.days;
    days_paired = ap length b ∙ w.days_paired ∙ sym (ap length a);
    hours = subst (λ xs. length xs ≤ 24) (sym c) w.hours;
    hours_paired = ap length e ∙ w.hours_paired ∙ sym (ap length c);
  }

  pub power_keeps :
      (seen : Bool) (prev ts pwr : F) (s : Day F)
      → SameArchive s (note_battery_power seen prev ts pwr s)
  unfolding note_battery_power integrate_discharge_wh
  power_keeps seen prev ts pwr s = (ground arith, ground arith, ground arith, ground arith)

  pub soc_keeps : (soc : F) (s : Day F) → SameArchive s (note_soc soc s)
  unfolding note_soc
  soc_keeps soc s = (ground arith, ground arith, ground arith, ground arith)

  pub solar_keeps :
      (seen : Bool) (prev ts : F) (snap : PwrGateSnapshot F) (s : Day F)
      → SameArchive s (note_solar seen prev ts snap s)
  unfolding note_solar
  solar_keeps seen prev ts snap s = (ground arith, ground arith, ground arith, ground arith)

  pub runtime_keeps :
      (day : ℤ) (snap : PwrGateSnapshot F) (s : Day F) → SameArchive s (note_runtime day snap s)
  unfolding note_runtime start_runtime add_minutes
  runtime_keeps day snap s = (ground arith, ground arith, ground arith, ground arith)

  pub integrate_keeps : (ts w : F) (s : Day F) → SameArchive s (integrate_discharge_wh ts w s)
  unfolding integrate_discharge_wh
  integrate_keeps ts w s = (refl, refl, refl, refl)

  -- The rings of the loads are in order.
  pub record AreInOrder (s : Loads F) : Type 0 where
    pub load : IsRing 720 s.load
    pub chg_pwr : IsRing 720 s.chg_pwr

  pub push_load-AreInOrder :
      (ts w : F) (s : Loads F) → AreInOrder s → AreInOrder (push_load_sample ts w s)
  unfolding push_load_sample
  push_load-AreInOrder ts w s h = elim (Bool-cases (is_early ts s.last_load_push_ts)) [
    | inl e ↦ subst AreInOrder (sym (if_true _ _ e)) h
    | inr e ↦
        subst AreInOrder (sym (if_false _ _ e))
          (record { load = push-IsRing 720 w s.load h.load; chg_pwr = h.chg_pwr })
  ]

  pub stats-AreInOrder : (s : Loads F) → AreInOrder s → AreInOrder (recompute_load_stats s)
  unfolding recompute_load_stats
  stats-AreInOrder s h = elim (Bool-cases (s.load.count == 0)) [
    | inl e ↦ subst AreInOrder (sym (if_true _ _ e)) h
    | inr e ↦
        subst AreInOrder (sym (if_false _ _ e)) (record { load = h.load; chg_pwr = h.chg_pwr })
  ]

  pub drawn-AreInOrder :
      (ts w : F) (s : Loads F)
      → AreInOrder s
      → AreInOrder (recompute_load_stats (push_load_sample ts w s))
  drawn-AreInOrder ts w s h =
      stats-AreInOrder (push_load_sample ts w s) (push_load-AreInOrder ts w s h)

  pub battery-AreInOrder :
      (ts : F) (snap : BatterySnapshot F) (s : Loads F)
      → AreInOrder s
      → AreInOrder (note_battery_load ts snap s)
  unfolding note_battery_load
  battery-AreInOrder ts snap s h = elim (Bool-cases (snap.current_a >F decimal 1 1)) [
    | inl e ↦ subst AreInOrder (sym (if_true _ _ e)) (drawn-AreInOrder ts snap.power_w s h)
    | inr e ↦ subst AreInOrder (sym (if_false _ _ e)) h
  ]

  pub power-AreInOrder :
      (flows : Bool) (w : F) (s : Loads F)
      → AreInOrder s
      → AreInOrder (if flows then push_charger_power_sample w s else s)
  unfolding push_charger_power_sample
  power-AreInOrder true w s h = record {
    load = h.load;
    chg_pwr = push-IsRing 720 w s.chg_pwr h.chg_pwr;
  }
  power-AreInOrder false w s h = h

  pub charger-AreInOrder :
      (ts : F) (snap : PwrGateSnapshot F) (s : Loads F)
      → AreInOrder s
      → AreInOrder (note_charger_load ts snap s)
  unfolding note_charger_load
  charger-AreInOrder ts snap s h = elim (Bool-cases (draws snap)) [
    | inl e ↦
        power-AreInOrder (snap.bat_a >F decimal 5 2) _ _
          (subst AreInOrder (sym (if_true _ _ e)) (drawn-AreInOrder ts (charger_load snap) s h))
    | inr e ↦
        power-AreInOrder (snap.bat_a >F decimal 5 2) _ _ (subst AreInOrder (sym (if_false _ _ e)) h)
  ]

  pub next_mode-bounded :
      (bat : BatterySnapshot F) (s : Mode)
      → s.system_mode_confirm ≤ 3
      → (next_mode bat s).system_mode_confirm ≤ 3
  unfolding next_mode
  next_mode-bounded bat s h = elim (Bool-cases bat.valid) [
    | inl e ↦
        subst (λ (m : Mode). m.system_mode_confirm ≤ 3) (sym (if_true _ _ e))
          (follow_mode-bounded (pending_mode bat) s h)
    | inr e ↦ subst (λ (m : Mode). m.system_mode_confirm ≤ 3) (sym (if_false _ _ e)) (omega arith)
  ]

  pub trend-IsRing :
      (ts v soc : F) (s : Trend F)
      → IsRing 12 s.samples
      → IsRing 12 (push_voltage_soc_sample ts v soc s).samples
  unfolding push_voltage_soc_sample leave
  trend-IsRing ts v soc s h = elim (Bool-cases (s.samples.count == 12)) [
    | inl e ↦
        subst
          (λ (t : Trend F). IsRing 12 (push 12 (record { ts = ts; v = v; soc = soc }) t.samples))
          (sym (if_true _ _ e)) (push-IsRing 12 _ s.samples h)
    | inr e ↦
        subst
          (λ (t : Trend F). IsRing 12 (push 12 (record { ts = ts; v = v; soc = soc }) t.samples))
          (sym (if_false _ _ e)) (push-IsRing 12 _ s.samples h)
  ]

  pub trends_keep :
      (s : Trend F) → (compute_soc_trend (compute_voltage_trend s)).samples ≡ s.samples
  unfolding compute_soc_trend compute_voltage_trend
  trends_keep s = ground arith
