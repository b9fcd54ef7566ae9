-- ===== src/Analytics/Anomalies/Debounce.antt =====
-- How many anomalies are kept, and when one is reported again.
use text.Mathlib.Text.{◌==◌ as str_eq}
use limonitor.Common.{
  backwards, backwards-snoc, ℕ, ◌+◌, ◌-◌, ◌/◌, ◌≤◌, ◌<◌, ◌≡◌, refl, sym, ap, subst, ◌∙◌, ◌⊎◌, inl,
  inr, Bool, true, false, not, ◌&&◌, List, [], ◌∷◌, ◌++◌, Option, none, some, String, arith, ltb,
  leb, if◌then◌else◌, if_true, if_false, unless_true, unless_false, Bool-cases, length,
  length-append, length-drop, length-trim-le, push_bounded, ltb→ge,
}
use limonitor.Double.{Double, ◌*F◌, ◌>F◌, decimal}
use limonitor.Battery.{BatterySnapshot, PwrGateSnapshot}
use limonitor.Analytics.Anomalies.{
  load_window, r_window, anomalies_max, AnomalyEvent, AnomalyDetector, Context, is_recent,
  rolling_avg_load, note_load, note_resistance, blank_event, recent_in, add_anomaly,
  load_spike_rule, slow_charging_with, resistance_rule, update, run,
}

module _ {F : Type 0} ⦃d : Double F⦄ where
  -- The bounds of the detector's memory.
  abbrev pub IsBounded : AnomalyDetector F → Type 0
  IsBounded s =
      (length s.load_ring ≤ load_window)
      × (s.load_count ≡ length s.load_ring)
      × (length s.r_internal_ring ≤ r_window)
      × (length s.r_internal_day ≡ length s.r_internal_ring)
      × (length s.anomalies ≤ anomalies_max)

  note_load-IsBounded :
      (load_w : F) (s : AnomalyDetector F) → IsBounded s → IsBounded (note_load load_w s)
  unfolding note_load
  note_load-IsBounded load_w s (l, c, r, day, a) =
      let grown = s.load_ring ++ (load_w ∷ []) in
      let more = length-append s.load_ring (load_w ∷ []) in
      let cut = length-drop 1 grown in (ground (arith, more, cut, l), refl, r, day, a)

  note_resistance-IsBounded :
      (now : ℕ) (r : F) (s : AnomalyDetector F) → IsBounded s → IsBounded (note_resistance now r s)
  unfolding note_resistance
  note_resistance-IsBounded now r s (l, c, n, day, a) =
      let ring = s.r_internal_ring ++ (r ∷ []) in
      let days = s.r_internal_day ++ (now / 86400 ∷ []) in
      let more = length-append s.r_internal_ring (r ∷ []) in
      let more_days = length-append s.r_internal_day (now / 86400 ∷ []) in
      let cut = length-drop 1 ring in
      let cut_days = length-drop 1 days in
      elim (Bool-cases (r >F decimal 0 0)) [
        | inr e ↦ subst IsBounded (sym (if_false _ _ e)) (l, c, n, day, a)
        | inl e ↦ elim (Bool-cases (ltb r_window (length ring))) [
          | inl f ↦ subst IsBounded (sym (if_true _ _ e ∙ if_true _ _ f)) (
            l,
            c,
            omega (arith, n, more, cut),
            omega (arith, day, more, cut, more_days, cut_days),
            a,
          )
          | inr f ↦
              subst IsBounded (sym (if_true _ _ e ∙ if_false _ _ f))
                (l, c, ltb→ge _ _ f, omega (arith, day, more, more_days), a)
        ]
      ]

  add_anomaly-IsBounded :
      (ev : AnomalyEvent F) (s : AnomalyDetector F) → IsBounded s → IsBounded (add_anomaly ev s)
  unfolding add_anomaly push_bounded
  add_anomaly-IsBounded ev s (l, c, r, day, a) =
      (l, c, r, day, length-trim-le anomalies_max (s.anomalies ++ (ev ∷ [])))

  -- A rule adds one event or none.
  when-IsBounded :
      (b : Bool) (ev : AnomalyEvent F) (s : AnomalyDetector F)
      → IsBounded s
      → IsBounded (if b then add_anomaly ev s else s)
  when-IsBounded true ev s h = add_anomaly-IsBounded ev s h
  when-IsBounded false ev s h = h

  slow_charging_with-IsBounded :
      (c : Context F) (bat : BatterySnapshot F) (chg : Option (PwrGateSnapshot F))
      (s : AnomalyDetector F)
      → IsBounded s
      → IsBounded (slow_charging_with c bat chg s)
  unfolding slow_charging_with
  slow_charging_with-IsBounded c bat none s h = h
  slow_charging_with-IsBounded c bat (some chg) s h = when-IsBounded _ _ s h

  pub update-IsBounded :
      (c : Context F) (bat : BatterySnapshot F) (s : AnomalyDetector F)
      → IsBounded s
      → IsBounded (update c bat s)
  unfolding update load_spike_rule resistance_rule
  update-IsBounded c bat s h =
      let load_w = if bat.power_w >F decimal 0 0 then bat.power_w else decimal 0 0 in
      elim (Bool-cases bat.valid) [
        | inl e ↦ subst IsBounded (sym (if_true _ _ e)) (
            when-IsBounded _ _ _ (
              slow_charging_with-IsBounded c bat c.chg _ (
                when-IsBounded _ _ _ (
                  note_resistance-IsBounded c.now c.r_internal_mohm _
                    (note_load-IsBounded load_w s h)))))
        | inr e ↦ subst IsBounded (sym (if_false _ _ e)) h
      ]

  -- However long it runs from a state where this is so, the detector keeps at most 360 loads, 3500
  -- resistances, each with its day, and 50 anomalies, and its load count is the number of loads it
  -- averages.
  pub run-IsBounded :
      (readings : List (Context F × BatterySnapshot F)) (s : AnomalyDetector F)
      → IsBounded s
      → IsBounded (run readings s)
  unfolding run
  run-IsBounded [] s h = h
  run-IsBounded ((c, bat) ∷ rest) s h =
      run-IsBounded rest (update c bat s) (update-IsBounded c bat s h)

  -- What the debounce loop says where the latest entry is known.
  recent_in_cases :
      (type : String) (window now : ℕ) (older : List (AnomalyEvent F)) (e : AnomalyEvent F)
      (s : AnomalyDetector F)
      → 0 < window
      → s.anomalies ≡ older ++ (e ∷ [])
      → (str_eq e.type type ≡ true)
          × (now < e.timestamp + window)
          × (recent_in type window now s ≡ true)
        ⊎ (str_eq e.type type ≡ true)
          × (e.timestamp + window ≤ now)
          × (recent_in type window now s ≡ is_recent type window now (backwards older))
        ⊎ (str_eq e.type type ≡ false) × (recent_in type window now s ≡ false)
  unfolding recent_in is_recent
  recent_in_cases type window now older e s positive h =
      let seen : recent_in type window now s ≡ is_recent type window now (e ∷ backwards older) =
        ap (λ a. is_recent type window now (backwards a)) h
        ∙ ap (is_recent type window now) (backwards-snoc older e) in
      elim (Bool-cases (str_eq e.type type)) [
        | inr f ↦ inr (inr (f, seen ∙ unless_false _ _ f))
        | inl f ↦ elim (Bool-cases (ltb (now - e.timestamp) window)) [
          | inl g ↦ inl (f, ground arith, seen ∙ unless_true _ _ f ∙ if_true _ _ g)
          | inr g ↦ inr (inl (f, ground arith, seen ∙ unless_true _ _ f ∙ if_false _ _ g))
        ]
      ]

  -- The conditions of a load spike apart from the debounce.
  abbrev pub is_spike : F → AnomalyDetector F → Bool
  is_spike load_w s =
      leb 72 s.load_count
      && (rolling_avg_load s >F decimal 5 0 && load_w >F rolling_avg_load s *F decimal 18 1)

  -- A load spike is not reported while the latest entry is a load spike less than two minutes old. Where
  -- the latest entry is of another type, a spike is reported at once, whatever stands before that entry,
  -- even a load spike of the same second.
  pub load_spike_rule_cases :
      (now : ℕ) (load_w : F) (older : List (AnomalyEvent F)) (e : AnomalyEvent F)
      (s : AnomalyDetector F)
      → s.anomalies ≡ older ++ (e ∷ [])
      → (str_eq e.type "load_spike" ≡ true)
          × (now < e.timestamp + 120)
          × (load_spike_rule now load_w s ≡ s)
        ⊎ (str_eq e.type "load_spike" ≡ true) × (e.timestamp + 120 ≤ now)
        ⊎ (str_eq e.type "load_spike" ≡ false)
          × (load_spike_rule now load_w s ≡ (
              if is_spike load_w s
              then add_anomaly
                  (record (blank_event "load_spike" now) {
                    load_w = load_w;
                    baseline_w = rolling_avg_load s;
                  })
                  s
              else s))
  unfolding load_spike_rule
  load_spike_rule_cases now load_w older e s h =
      let ev : AnomalyEvent F = record (blank_event "load_spike" now) {
        load_w = load_w;
        baseline_w = rolling_avg_load s;
      } in
      let by : (b : Bool)
          → recent_in "load_spike" 120 now s ≡ b
          → load_spike_rule now load_w s
            ≡ (if not b && is_spike load_w s then add_anomaly ev s else s) =
        λ b k. ap (λ c. if not c && is_spike load_w s then add_anomaly ev s else s) k in
      elim (recent_in_cases "load_spike" 120 now older e s (omega arith) h) [
        | inl (f, soon, k) ↦ inl (f, soon, by true k)
        | inr (inl (f, late, k)) ↦ inr (inl (f, late))
        | inr (inr (f, k)) ↦ inr (inr (f, by false k))
      ]
