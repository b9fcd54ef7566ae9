-- ===== src/Analytics/Extensions/Keeps.antt =====
-- What the extensions keep: the parts they run, the largest charge current, and the solar rows.
use limonitor.Common.{
  ℕ, ◌-◌, ◌≤◌, ◌≡◌, refl, sym, ap, ◌∙◌, ◌⊎◌, inl, inr, Bool, true, false, ◌&&◌, List, [], ◌∷◌, ◌++◌,
  foldl, All, Option, none, some, arith, ltb, Bool-cases, if_true, if_false, subst, if◌then◌else◌,
  length, push_bounded, length-trim-le,
}
use limonitor.Double.{Double, IsOrdered, ◌*F◌, ◌>F◌, decimal}
use limonitor.Battery.{BatterySnapshot, PwrGateSnapshot, TxEvent}
use limonitor.AnalyticsEngine.{Charger}
use limonitor.Analytics.Anomalies.Debounce.{IsBounded, update-IsBounded}
use limonitor.Analytics.Resistance.Samples.{IsWell, update-IsWell}
use limonitor.Analytics.Extensions.{
  SolarPerfRow, Extensions, hist_max, recall_max, track_max, write_resistance, persist_resistance,
  write_efficiency, persist_efficiency, is_recordable, coefficient, theoretical_w,
  record_performance, maybe_record_solar_performance, run_detectors, update,
}

module _ {F : Type 0} ⦃d : Double F⦄ where
  -- The parts are in order, and at most 72 charge currents are remembered.
  pub record IsSound (s : Extensions F) : Type 0 where
    pub anomaly : IsBounded s.anomaly
    pub resistance : IsWell s.resistance
    pub history : length s.charge_history ≤ 72

  same_parts :
      (s t : Extensions F)
      → (t.anomaly ≡ s.anomaly)
        × (t.resistance ≡ s.resistance)
        × (t.charge_history ≡ s.charge_history)
      → IsSound s
      → IsSound t
  same_parts s t (a, b, c) w = record {
    anomaly = subst IsBounded (sym a) w.anomaly;
    resistance = subst IsWell (sym b) w.resistance;
    history = subst (λ h. length h ≤ 72) (sym c) w.history;
  }

  recall_keeps : (s : Extensions F) → IsSound s → IsSound (recall_max s)
  unfolding recall_max
  recall_keeps s w = same_parts s _ (ground arith, ground arith, ground arith) w

  track_max-IsSound :
      (chg : Option (PwrGateSnapshot F)) (s : Extensions F) → IsSound s → IsSound (track_max chg s)
  unfolding track_max push_bounded
  track_max-IsSound none s w = recall_keeps s w
  track_max-IsSound (some chg) s w = elim (Bool-cases (chg.valid && chg.target_a >F decimal 0 0)) [
    | inl e ↦ subst IsSound (sym (if_true _ _ e)) (record {
      anomaly = w.anomaly;
      resistance = w.resistance;
      history = length-trim-le 72 (s.charge_history ++ (chg.target_a ∷ []));
    })
    | inr e ↦ subst IsSound (sym (if_false _ _ e)) (recall_keeps s w)
  ]

  write_resistance-IsSound :
      (o : Option (F × F)) (s : Extensions F) → IsSound s → IsSound (write_resistance o s)
  unfolding write_resistance
  write_resistance-IsSound none s w = w
  write_resistance-IsSound (some (ts, r)) s w =
      same_parts s _ (ground arith, ground arith, ground arith) w

  guarded : (b : Bool) (s t : Extensions F) → IsSound s → IsSound t → IsSound (if b then t else s)
  guarded true s t w v = v
  guarded false s t w v = w

  write_efficiency-IsSound :
      (chg : PwrGateSnapshot F) (eff : F) (s : Extensions F)
      → IsSound s
      → IsSound (write_efficiency chg eff s)
  unfolding write_efficiency
  write_efficiency-IsSound chg eff s w = same_parts s _ (ground arith, ground arith, ground arith) w

  efficiency-IsSound :
      (chg : Option (PwrGateSnapshot F)) (an : Charger F) (s : Extensions F)
      → IsSound s
      → IsSound (persist_efficiency chg an s)
  unfolding persist_efficiency
  efficiency-IsSound none an s w = w
  efficiency-IsSound (some chg) an s w =
      guarded _ s _ w (write_efficiency-IsSound chg an.charger_efficiency s w)

  performance-IsSound :
      (wall tick : ℕ) (cloud : F) (bat : BatterySnapshot F) (chg : Option (PwrGateSnapshot F))
      (s : Extensions F)
      → IsSound s
      → IsSound (maybe_record_solar_performance wall tick cloud bat chg s)
  unfolding maybe_record_solar_performance record_performance
  performance-IsSound wall tick cloud bat none s w = w
  performance-IsSound wall tick cloud bat (some chg) s w =
      same_parts s _ (ground arith, ground arith, ground arith) w

  -- An update keeps the following true: the detector's windows and the estimator's samples are within
  -- their bounds, and at most 72 charge currents are remembered.
  pub update-IsSound :
      (wall tick : ℕ) (cloud : F) (bat : BatterySnapshot F) (chg : Option (PwrGateSnapshot F))
      (an : Charger F) (history : List (BatterySnapshot F)) (events : List (TxEvent F))
      (s : Extensions F)
      → IsSound s
      → IsSound (update wall tick cloud bat chg an history events s)
  unfolding update run_detectors persist_resistance
  update-IsSound wall tick cloud bat chg an history events s w =
      let tracked = track_max-IsSound chg s w in
      let detected : IsSound (run_detectors wall bat chg an history events (track_max chg s)) =
        record {
          anomaly = update-IsBounded _ bat _ tracked.anomaly;
          resistance = update-IsWell history events _ tracked.resistance;
          history = tracked.history;
        } in
      performance-IsSound wall tick cloud bat chg _ (
        efficiency-IsSound chg an _
          (guarded _ _ _ detected (write_resistance-IsSound _ _ detected)))

  -- One more row, with a coefficient of at most 3 that is also the one shown, at a time when 15 minutes
  -- have passed since the last row.
  abbrev pub IsRecorded : ℕ → Extensions F → Extensions F → Type 0
  IsRecorded tick s after =
      (row : SolarPerfRow F) × (after.solar_rows ≡ s.solar_rows ++ (row ∷ []))
      × (row.coefficient ≡ after.latest_solar_coeff)
      × ((row.coefficient >F decimal 3 0) ≡ false)
      × (900 ≤ tick - s.last_solar_perf_time)
      × (after.last_solar_perf_time ≡ tick)

  capped : (laws : IsOrdered F) (a t : F) → (coefficient a t >F decimal 3 0) ≡ false
  unfolding coefficient
  capped laws a t = ground (arith, laws.lt_irrefl (decimal 3 0))

  waited :
      (tick : ℕ) (cloud : F) (chg : PwrGateSnapshot F) (s : Extensions F)
      → is_recordable tick cloud chg s ≡ true
      → 900 ≤ tick - s.last_solar_perf_time
  unfolding is_recordable
  waited tick cloud chg s e = ground (arith, e)

  -- With an irreflexive order: when all guards pass, one row is written, with a coefficient of at most 3
  -- that is also the one shown, and 15 minutes have passed since the last row; otherwise nothing changes.
  pub maybe_record_cases :
      (laws : IsOrdered F) (wall tick : ℕ) (cloud : F) (bat : BatterySnapshot F)
      (chg : PwrGateSnapshot F) (s : Extensions F)
      → let after = maybe_record_solar_performance wall tick cloud bat (some chg) s in
        (is_recordable tick cloud chg s ≡ true) × IsRecorded tick s after
        ⊎ (is_recordable tick cloud chg s ≡ false) × (after ≡ s)
  unfolding maybe_record_solar_performance record_performance
  maybe_record_cases laws wall tick cloud bat chg s =
      elim (Bool-cases (is_recordable tick cloud chg s)) [
        | inl e ↦ inl (
          e,
          subst (IsRecorded tick s) (sym (if_true _ _ e)) (
            _,
            refl,
            refl,
            capped laws (chg.bat_v *F chg.bat_a) (theoretical_w cloud s),
            waited tick cloud chg s e,
            refl,
          ),
        )
        | inr e ↦ inr (e, if_false _ _ e)
      ]

  over_all :
      (laws : IsOrdered F) (u m : F) (xs : List F)
      → (u >F m) ≡ false
      → (u >F foldl (λ m a. if a >F m then a else m) m xs) ≡ false
  over_all laws u m [] h = h
  over_all laws u m (a ∷ xs) h =
      over_all laws u (if a >F m then a else m) xs
        (ground (arith, h, laws.lt_trans m a u, laws.lt_trans m u a, laws.lt_trans a u m))

  hist_max-over :
      (laws : IsOrdered F) (m : F) (xs : List F)
      → All (λ a. (a >F foldl (λ m a. if a >F m then a else m) m xs) ≡ false) xs
  hist_max-over laws m [] = tt
  hist_max-over laws m (a ∷ xs) = (
    over_all laws a (if a >F m then a else m) xs (ground (arith, laws.lt_irrefl a)),
    hist_max-over laws (if a >F m then a else m) xs,
  )

  recall_over :
      (laws : IsOrdered F) (xs : List F) (s : Extensions F)
      → s.charge_history ≡ xs
      → All (λ a. (a >F (recall_max s).effective_max_charge_a) ≡ false) xs
  unfolding recall_max hist_max
  recall_over laws [] s e = tt
  recall_over laws (x ∷ xs) s e =
      let some_left : ltb 0 (length s.charge_history) ≡ true = ground (arith, ap length e) in
      subst (λ m. All (λ a. (a >F m) ≡ false) (x ∷ xs))
        (sym (
          ap (λ (t : Extensions F). t.effective_max_charge_a) (if_true _ _ some_left)
          ∙ ap (foldl (λ m a. if a >F m then a else m) (decimal 0 0)) e))
        (hist_max-over laws (decimal 0 0) (x ∷ xs))

  recall_history : (s : Extensions F) → (recall_max s).charge_history ≡ s.charge_history
  unfolding recall_max
  recall_history s = ground arith

  -- With an irreflexive and transitive order: a valid charger that asks for current sets the largest
  -- charge current to what it asks for, and its value is remembered; without one, none of the last 72
  -- values is above the largest charge current, if there are any, and they stay as they are.
  pub track_max_cases :
      (laws : IsOrdered F) (chg : PwrGateSnapshot F) (s : Extensions F)
      → let after = track_max (some chg) s in
        ((chg.valid && chg.target_a >F decimal 0 0) ≡ true)
          × (after.effective_max_charge_a ≡ chg.target_a)
          × (after.charge_history ≡ push_bounded 72 s.charge_history chg.target_a)
        ⊎ ((chg.valid && chg.target_a >F decimal 0 0) ≡ false)
          × (after.charge_history ≡ s.charge_history)
          × All (λ a. (a >F after.effective_max_charge_a) ≡ false) s.charge_history
  unfolding track_max
  track_max_cases laws chg s = elim (Bool-cases (chg.valid && chg.target_a >F decimal 0 0)) [
    | inl e ↦ inl (
      e,
      ap (λ (t : Extensions F). t.effective_max_charge_a) (if_true _ _ e),
      ap (λ (t : Extensions F). t.charge_history) (if_true _ _ e),
    )
    | inr e ↦ inr (
      e,
      ap (λ (t : Extensions F). t.charge_history) (if_false _ _ e) ∙ recall_history s,
      subst
          (λ (t : Extensions F).
            All (λ a. (a >F t.effective_max_charge_a) ≡ false) s.charge_history)
          (sym (if_false _ _ e)) (recall_over laws s.charge_history s refl),
    )
  ]
