-- ===== src/Store/Events/Debounce/Passes.antt =====
-- src/data_store.cpp, `process_system_events`: the charging events of a run of passes.
use text.Mathlib.Text.{◌==◌ as str_eq}
use limonitor.Common.{
  ℕ, ◌-◌, ◌≡◌, refl, sym, ap, ◌∙◌, inl, inr, Bool, true, false, not, ◌&&◌, List, [], ◌∷◌, Option,
  String, arith, leb, subst, if_true, if_false, if◌then◌else◌, Bool-cases,
}
use limonitor.Double.{Double, ◌<F◌, decimal, neg}
use limonitor.Battery.{BatterySnapshot, PwrGateSnapshot}
use limonitor.Store.Events.{
  Watch, Status, say, stage_message, charging_events, solar_events, imbalance_events, temp_events,
  soc_events, is_solar_active, process_system_events,
}
use limonitor.Store.Events.Debounce.{
  AreApart, IsDebounced, charging_times, noted-IsDebounced, push-other,
}

charging_events-IsDebounced :
    (now : ℕ) (charging : Bool) (stage : String) (w : Watch)
    → IsDebounced w
    → IsDebounced (charging_events now charging stage w)
unfolding charging_events
charging_events-IsDebounced now charging stage w h =
    let due = leb 60 (now - w.last_charging_event_time) in
    let changed =
      not (str_eq stage w.prev_charging_stage) && not (str_eq w.prev_charging_stage "") in
    elim (Bool-cases (changed && due)) [
      | inl e ↦
          subst IsDebounced (sym (ap (told charging stage) (if_true _ _ e)))
            (noted-IsDebounced now (stage_message stage) w h (ground (arith, e)))
      | inr e ↦ elim (Bool-cases (not changed && due)) [
        | inr f ↦
            subst IsDebounced (sym (ap (told charging stage) (if_false _ _ e ∙ if_false _ _ f))) h
        | inl f ↦ elim (Bool-cases (charging && not w.prev_charging)) [
          | inl g ↦
              subst IsDebounced
                (sym (ap (told charging stage) (if_false _ _ e ∙ if_true _ _ f ∙ if_true _ _ g)))
                (noted-IsDebounced now "Charging started" w h (ground (arith, f)))
          | inr g ↦ elim (Bool-cases (not charging && w.prev_charging)) [
            | inl k ↦
                subst IsDebounced
                  (sym (
                    ap (told charging stage)
                      (if_false _ _ e ∙ if_true _ _ f ∙ if_false _ _ g ∙ if_true _ _ k)))
                  (noted-IsDebounced now "Charging stopped" w h (ground (arith, f)))
            | inr k ↦
                subst IsDebounced
                  (sym (
                    ap (told charging stage)
                      (if_false _ _ e ∙ if_true _ _ f ∙ if_false _ _ g ∙ if_false _ _ k)))
                  h
          ]
        ]
      ]
    ]
  where
    told : Bool → String → Watch → Watch
    told c st t = record t { prev_charging = c; prev_charging_stage = st }

-- Two states with the same charging events and the same time of the last one.
abbrev SameReports : Watch → Watch → Type 0
SameReports w t =
    (charging_times t.log.db_log ≡ charging_times w.log.db_log)
    × (t.last_charging_event_time ≡ w.last_charging_event_time)

kept : (w t : Watch) → SameReports w t → IsDebounced w → IsDebounced t
kept w t (a, b) h =
    subst (AreApart (charging_times t.log.db_log)) (sym b)
      (subst (λ ts. AreApart ts w.last_charging_event_time) (sym a) h)

either :
    (w : Watch) (b : Bool) (t u : Watch)
    → SameReports w t
    → SameReports w u
    → SameReports w (if b then t else u)
either w true t u h k = h
either w false t u h k = k

solar_events-same :
    (now : ℕ) (active : Bool) (w : Watch) → SameReports w (solar_events now active w)
unfolding solar_events
solar_events-same now active w =
    either w (active && not w.prev_solar_active) (say now "Solar input detected" w)
      (if not active && w.prev_solar_active then say now "Solar input lost" w else w)
      (push-other now "Solar input detected" w.log refl, refl)
      (either w (not active && w.prev_solar_active) (say now "Solar input lost" w) w
        (push-other now "Solar input lost" w.log refl, refl) (refl, refl))

imbalance_events-same :
    (now : ℕ) (status : String) (w : Watch) → SameReports w (imbalance_events now status w)
unfolding imbalance_events
imbalance_events-same now status w =
    either w _ (record (say now "Cell imbalance detected" w) { last_imbalance_event_time = now }) w
      (push-other now "Cell imbalance detected" w.log refl, refl) (refl, refl)

temp_events-same :
    (now : ℕ) (status : String) (w : Watch) → SameReports w (temp_events now status w)
unfolding temp_events
temp_events-same now status w =
    either w _ (record (say now "High temperature warning" w) { last_temp_event_time = now }) w
      (push-other now "High temperature warning" w.log refl, refl) (refl, refl)

module _ {F : Type 0} ⦃d : Double F⦄ where
  soc_events-same : (now : ℕ) (soc : F) (w : Watch) → SameReports w (soc_events now soc w)
  unfolding soc_events
  soc_events-same now soc w =
      either w _ (record (say now "Battery reached 90% charge" w) { soc_90_reported = true })
        (if soc <F decimal 85 0 then record w { soc_90_reported = false } else w)
        (push-other now "Battery reached 90% charge" w.log refl, refl)
        (either w (soc <F decimal 85 0) (record w { soc_90_reported = false }) w (refl, refl)
          (refl, refl))

  process-IsDebounced :
      (now : ℕ) (snap : BatterySnapshot F) (pg : Option (PwrGateSnapshot F)) (an : Status)
      (w : Watch)
      → IsDebounced w
      → IsDebounced (process_system_events now snap pg an w)
  unfolding process_system_events
  process-IsDebounced now snap pg an w h =
      let active = is_solar_active pg in
      let charging = snap.current_a <F neg (decimal 1 1) in
      let s1 = charging_events now charging an.charging_stage w in
      let s2 = solar_events now active s1 in
      let s3 = imbalance_events now an.cell_balance_status s2 in
      let s4 = temp_events now an.temp_status s3 in
      kept s4 (soc_events now snap.soc_pct s4) (soc_events-same now snap.soc_pct s4) (
        kept s3 s4 (temp_events-same now an.temp_status s3) (
          kept s2 s3 (imbalance_events-same now an.cell_balance_status s2) (
            kept s1 s2 (solar_events-same now active s1)
              (charging_events-IsDebounced now charging an.charging_stage w h))))

  -- Passes over readings, each at its time.
  unfoldable pub pass_run :
      List (ℕ × BatterySnapshot F × Option (PwrGateSnapshot F) × Status) → Watch → Watch
  pass_run [] w = w
  pass_run ((now, snap, pg, an) ∷ rest) w = pass_run rest (process_system_events now snap pg an w)

  -- If the charging events in the database are each 60 seconds or more after the one before, the last of
  -- them not after the time that is remembered, they are so after any run of passes, in whatever order
  -- their clocks read. A charging event is one with none of the five messages of the other blocks.
  pub pass_run-IsDebounced :
      (passes : List (ℕ × BatterySnapshot F × Option (PwrGateSnapshot F) × Status)) (w : Watch)
      → IsDebounced w
      → IsDebounced (pass_run passes w)
  unfolding pass_run
  pass_run-IsDebounced [] w h = h
  pass_run-IsDebounced ((now, snap, pg, an) ∷ rest) w h =
      pass_run-IsDebounced rest (process_system_events now snap pg an w)
        (process-IsDebounced now snap pg an w h)
