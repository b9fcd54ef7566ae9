-- ===== src/Analytics/Extensions/Rows.antt =====
-- How often the extensions write rows.
use limonitor.Common.{
  ℕ, ◌≡◌, refl, sym, ap, inl, inr, Bool, true, false, List, [], ◌∷◌, ◌++◌, Option, none, some,
  arith, last?, Bool-cases, if_true, if_false, subst, if◌then◌else◌,
}
use limonitor.Double.{Double, ◌+F◌, ◌*F◌, ◌/F◌, ◌>F◌, of_ℕ, decimal}
use limonitor.Battery.{BatterySnapshot, PwrGateSnapshot, TxEvent}
use limonitor.AnalyticsEngine.{Charger}
use limonitor.Analytics.Resistance.{time_series}
use limonitor.Analytics.Extensions.{
  ResistanceRow, EfficiencyRow, Extensions, recall_max, track_max, write_resistance,
  persist_resistance, write_efficiency, persist_efficiency, record_performance,
  maybe_record_solar_performance, run_detectors, update,
}

module _ {F : Type 0} ⦃d : Double F⦄ where
  -- From one time through others to a last one, each more than an hour after the one before.
  abbrev pub AreSpaced : F → List F → F → Type 0
  AreSpaced from [] last = last ≡ from
  AreSpaced from (t ∷ ts) last = ((t >F from +F decimal 3600 0) ≡ true) × AreSpaced t ts last

  spaced-snoc :
      (from last t : F) (ts : List F)
      → AreSpaced from ts last
      → (t >F last +F decimal 3600 0) ≡ true
      → AreSpaced from (ts ++ (t ∷ [])) t
  spaced-snoc from last t [] e h = (subst (λ l. (t >F l +F decimal 3600 0) ≡ true) e h, refl)
  spaced-snoc from last t (u ∷ us) (k, s) h = (k, spaced-snoc u last t us s h)

  unfoldable pub resistance_times : List (ResistanceRow F) → List F
  resistance_times [] = []
  resistance_times (r ∷ rs) = r.ts ∷ resistance_times rs

  unfoldable pub efficiency_times : List (EfficiencyRow F) → List F
  efficiency_times [] = []
  efficiency_times (r ∷ rs) = r.ts ∷ efficiency_times rs

  resistance_times-snoc :
      (rs : List (ResistanceRow F)) (r : ResistanceRow F)
      → resistance_times (rs ++ (r ∷ [])) ≡ resistance_times rs ++ (r.ts ∷ [])
  unfolding resistance_times
  resistance_times-snoc [] r = refl
  resistance_times-snoc (q ∷ qs) r = ap (◌∷◌ q.ts) (resistance_times-snoc qs r)

  efficiency_times-snoc :
      (rs : List (EfficiencyRow F)) (r : EfficiencyRow F)
      → efficiency_times (rs ++ (r ∷ [])) ≡ efficiency_times rs ++ (r.ts ∷ [])
  unfolding efficiency_times
  efficiency_times-snoc [] r = refl
  efficiency_times-snoc (q ∷ qs) r = ap (◌∷◌ q.ts) (efficiency_times-snoc qs r)

  -- The rows of both kinds are an hour apart, from time 0 to the times that are remembered.
  pub record IsThrottled (s : Extensions F) : Type 0 where
    pub resistance :
        AreSpaced (decimal 0 0) (resistance_times s.resistance_rows) s.last_persisted_ts
    pub efficiency : AreSpaced (decimal 0 0) (efficiency_times s.efficiency_rows) s.last_eff_ts

  -- What the throttled rows depend on is the same.
  same_rows :
      (s t : Extensions F)
      → (t.resistance_rows ≡ s.resistance_rows)
        × (t.last_persisted_ts ≡ s.last_persisted_ts)
        × (t.efficiency_rows ≡ s.efficiency_rows)
        × (t.last_eff_ts ≡ s.last_eff_ts)
      → IsThrottled s
      → IsThrottled t
  same_rows s t (a, b, c, e) w = record {
    resistance =
        subst (λ rs. AreSpaced (decimal 0 0) (resistance_times rs) t.last_persisted_ts) (sym a)
          (subst (AreSpaced (decimal 0 0) (resistance_times s.resistance_rows)) (sym b)
            w.resistance);
    efficiency =
        subst (λ rs. AreSpaced (decimal 0 0) (efficiency_times rs) t.last_eff_ts) (sym c)
          (subst (AreSpaced (decimal 0 0) (efficiency_times s.efficiency_rows)) (sym e)
            w.efficiency);
  }

  write_resistance-IsThrottled :
      (o : Option (F × F)) (s : Extensions F) → IsThrottled s → IsThrottled (write_resistance o s)
  unfolding write_resistance
  write_resistance-IsThrottled none s w = w
  write_resistance-IsThrottled (some (ts, r)) s w =
      elim (Bool-cases (ts >F s.last_persisted_ts +F decimal 3600 0)) [
        | inl e ↦
            let row : ResistanceRow F = record { ts = ts; ohm = r /F decimal 1000 0 } in
            subst IsThrottled (sym (if_true _ _ e)) (record {
              resistance =
                  subst (λ ts'. AreSpaced (decimal 0 0) ts' ts)
                    (sym (resistance_times-snoc s.resistance_rows row))
                    (spaced-snoc (decimal 0 0) s.last_persisted_ts ts
                      (resistance_times s.resistance_rows) w.resistance e);
              efficiency = w.efficiency;
            })
        | inr e ↦ subst IsThrottled (sym (if_false _ _ e)) w
      ]

  write_efficiency-IsThrottled :
      (chg : PwrGateSnapshot F) (eff : F) (s : Extensions F)
      → IsThrottled s
      → IsThrottled (write_efficiency chg eff s)
  unfolding write_efficiency
  write_efficiency-IsThrottled chg eff s w =
      let ts = of_ℕ chg.timestamp in
      let battery_w = chg.bat_v *F chg.bat_a in
      elim (Bool-cases (ts >F s.last_eff_ts +F decimal 3600 0)) [
        | inl e ↦
            let row : EfficiencyRow F = record {
              ts = ts;
              efficiency = eff;
              input_w = battery_w /F eff;
              battery_w = battery_w;
            } in
            subst IsThrottled (sym (if_true _ _ e)) (record {
              resistance = w.resistance;
              efficiency =
                  subst (λ ts'. AreSpaced (decimal 0 0) ts' ts)
                    (sym (efficiency_times-snoc s.efficiency_rows row))
                    (spaced-snoc (decimal 0 0) s.last_eff_ts ts (efficiency_times s.efficiency_rows)
                      w.efficiency e);
            })
        | inr e ↦ subst IsThrottled (sym (if_false _ _ e)) w
      ]

  guarded :
      (b : Bool) (s t : Extensions F)
      → IsThrottled s
      → IsThrottled t
      → IsThrottled (if b then t else s)
  guarded true s t w v = v
  guarded false s t w v = w

  persist_efficiency-IsThrottled :
      (chg : Option (PwrGateSnapshot F)) (an : Charger F) (s : Extensions F)
      → IsThrottled s
      → IsThrottled (persist_efficiency chg an s)
  unfolding persist_efficiency
  persist_efficiency-IsThrottled none an s w = w
  persist_efficiency-IsThrottled (some chg) an s w =
      guarded _ s _ w (write_efficiency-IsThrottled chg an.charger_efficiency s w)

  persist_resistance-IsThrottled :
      (r : F) (s : Extensions F) → IsThrottled s → IsThrottled (persist_resistance r s)
  unfolding persist_resistance
  persist_resistance-IsThrottled r s w =
      guarded _ s _ w (write_resistance-IsThrottled (last? (time_series 1 s.resistance)) s w)

  track_max-IsThrottled :
      (chg : Option (PwrGateSnapshot F)) (s : Extensions F)
      → IsThrottled s
      → IsThrottled (track_max chg s)
  unfolding track_max recall_max
  track_max-IsThrottled none s w =
      same_rows s _ (ground arith, ground arith, ground arith, ground arith) w
  track_max-IsThrottled (some chg) s w =
      same_rows s _ (ground arith, ground arith, ground arith, ground arith) w

  performance-IsThrottled :
      (wall tick : ℕ) (cloud : F) (bat : BatterySnapshot F) (chg : Option (PwrGateSnapshot F))
      (s : Extensions F)
      → IsThrottled s
      → IsThrottled (maybe_record_solar_performance wall tick cloud bat chg s)
  unfolding maybe_record_solar_performance record_performance
  performance-IsThrottled wall tick cloud bat none s w = w
  performance-IsThrottled wall tick cloud bat (some chg) s w =
      same_rows s _ (ground arith, ground arith, ground arith, ground arith) w

  -- If the rows for the resistance and for the charger's efficiency, from time 0 to the last ones written,
  -- are each more than an hour after the one before, they are so after an update.
  pub update-IsThrottled :
      (wall tick : ℕ) (cloud : F) (bat : BatterySnapshot F) (chg : Option (PwrGateSnapshot F))
      (an : Charger F) (history : List (BatterySnapshot F)) (events : List (TxEvent F))
      (s : Extensions F)
      → IsThrottled s
      → IsThrottled (update wall tick cloud bat chg an history events s)
  unfolding update run_detectors
  update-IsThrottled wall tick cloud bat chg an history events s w =
      let tracked = track_max-IsThrottled chg s w in
      performance-IsThrottled wall tick cloud bat chg _ (
        persist_efficiency-IsThrottled chg an _ (
          persist_resistance-IsThrottled _ _
            (record { resistance = tracked.resistance; efficiency = tracked.efficiency })))
