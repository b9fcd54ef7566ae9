-- ===== src/Analytics/Resistance/Samples.antt =====
-- Which samples the estimator keeps.
use limonitor.Common.{
  ℕ, suc, ◌-◌, ◌≤◌, ◌<◌, ◌≡◌, refl, sym, ap, subst, ◌∙◌, inl, inr, true, false, ◌||◌, List, [], ◌∷◌,
  ◌++◌, Option, none, some, arith, ltb, if◌then◌else◌, if_true, if_false, Bool-cases, length, trim,
  All, length-append, length-drop, length-trim-le, length-trim, trim-room,
}
use limonitor.Double.{Double, IsOrdered, ◌-F◌, ◌<F◌, ◌>F◌, ◌≤F◌, decimal}
use limonitor.Battery.{BatterySnapshot, TxEvent}
use limonitor.Analytics.Resistance.{
  rolling_n, ResistanceEstimator, set_has, set_insert, push_sample, measure_between, measure,
  mark_processed, process_event, process_events, update,
}

module _ {F : Type 0} ⦃d : Double F⦄ where
  -- A resistance that is kept, in milliohms.
  abbrev pub IsPlausible : F → Type 0
  IsPlausible r = (r ≤F decimal 0 0 ≡ false) × (r >F decimal 500 0 ≡ false)

  abbrev pub IsWell : ResistanceEstimator F → Type 0
  IsWell s =
      (length s.r_ring ≤ rolling_n)
      × (length s.r_ts ≡ length s.r_ring)
      × (length s.processed_end_times ≤ 200)
      × All IsPlausible s.r_ring

  All-snoc :
      (xs : List F) (x : F) → All IsPlausible xs → IsPlausible x → All IsPlausible (xs ++ (x ∷ []))
  All-snoc [] x h p = (p, tt)
  All-snoc (y ∷ xs) x (h, hs) p = (h, All-snoc xs x hs p)

  All-trim : (n : ℕ) (xs : List F) → All IsPlausible xs → All IsPlausible (trim n xs)
  unfolding trim
  All-trim n [] h = tt
  All-trim n (x ∷ xs) (h, hs) = elim (Bool-cases (ltb n (suc (length xs)))) [
    | inl e ↦ subst (All IsPlausible) (sym (if_true _ _ e)) (All-trim n xs hs)
    | inr e ↦ subst (All IsPlausible) (sym (if_false _ _ e)) (h, hs)
  ]

  push_sample-IsWell :
      (ts r : F) (s : ResistanceEstimator F) → IsWell s → IsWell (push_sample ts r s)
  unfolding push_sample
  push_sample-IsWell ts r s (n, t, p, a) =
      elim (Bool-cases (r ≤F decimal 0 0 || r >F decimal 500 0)) [
        | inl e ↦ subst IsWell (sym (if_true _ _ e)) (n, t, p, a)
        | inr e ↦
            let grown = s.r_ring ++ (r ∷ []) in
            let times = s.r_ts ++ (ts ∷ []) in
            subst IsWell (sym (if_false _ _ e)) (
              length-trim-le rolling_n grown,
              omega (
                arith,
                t,
                length-append s.r_ring (r ∷ []),
                length-append s.r_ts (ts ∷ []),
                length-drop (length grown - rolling_n) times,
                length-trim rolling_n grown,
              ),
              p,
              All-trim rolling_n grown (All-snoc s.r_ring r a (ground arith, ground arith)),
            )
      ]

  measure-IsWell :
      (ev : TxEvent F) (pre during : Option (BatterySnapshot F)) (s : ResistanceEstimator F)
      → IsWell s
      → IsWell (measure ev pre during s)
  unfolding measure measure_between
  measure-IsWell ev none during s h = h
  measure-IsWell ev (some pre) none s h = h
  measure-IsWell ev (some pre) (some during) s h =
      let i_idle = if pre.current_a >F decimal 0 0 then pre.current_a else decimal 0 0 in
      elim (Bool-cases (ev.peak_current -F i_idle <F decimal 3 1)) [
        | inl e ↦ subst IsWell (sym (if_true _ _ e)) h
        | inr e ↦ subst IsWell (sym (if_false _ _ e)) (push_sample-IsWell _ _ s h)
      ]

  process_event-IsWell :
      (history : List (BatterySnapshot F)) (ev : TxEvent F) (s : ResistanceEstimator F)
      → IsWell s
      → IsWell (process_event history ev s)
  unfolding process_event mark_processed
  process_event-IsWell history ev s (n, t, p, a) =
      elim (Bool-cases (ev.peak_current <F decimal 5 1 || ev.duration <F decimal 5 1)) [
        | inl e ↦ subst IsWell (sym (if_true _ _ e)) (n, t, p, a)
        | inr e ↦ elim (Bool-cases (set_has ev.end_time s.processed_end_times)) [
          | inl f ↦ subst IsWell (sym (if_false _ _ e ∙ if_true _ _ f)) (n, t, p, a)
          | inr f ↦ subst IsWell (sym (if_false _ _ e ∙ if_false _ _ f)) (
              measure-IsWell ev _ _ (mark_processed ev.end_time s)
                (n, t, length-trim-le 200 (set_insert ev.end_time s.processed_end_times), a))
        ]
      ]

  process_events-IsWell :
      (history : List (BatterySnapshot F)) (evs : List (TxEvent F)) (s : ResistanceEstimator F)
      → IsWell s
      → IsWell (process_events history evs s)
  unfolding process_events
  process_events-IsWell history [] s h = h
  process_events-IsWell history (ev ∷ evs) s h =
      process_events-IsWell history evs (process_event history ev s)
        (process_event-IsWell history ev s h)

  -- An update keeps the following true: there are at most 20 resistances, each above 0 and not
  -- above 500 milliohms and with its own time, and at most 200 transmissions are remembered.
  pub update-IsWell :
      (history : List (BatterySnapshot F)) (evs : List (TxEvent F)) (s : ResistanceEstimator F)
      → IsWell s
      → IsWell (update history evs s)
  unfolding update
  update-IsWell [] evs s h = h
  update-IsWell (b ∷ bs) evs s h = process_events-IsWell (b ∷ bs) evs s h

  measure-processed :
      (ev : TxEvent F) (pre during : Option (BatterySnapshot F)) (s : ResistanceEstimator F)
      → (measure ev pre during s).processed_end_times ≡ s.processed_end_times
  unfolding measure measure_between push_sample
  measure-processed ev none during s = refl
  measure-processed ev (some pre) none s = refl
  measure-processed ev (some pre) (some during) s = ground arith

  length-set_insert : (x : F) (xs : List F) → length (set_insert x xs) ≤ suc (length xs)
  unfolding set_insert
  length-set_insert x [] = omega arith
  length-set_insert x (y ∷ ys) = ground (arith, length-set_insert x ys)

  module _ (laws : IsOrdered F) where
    set_has-insert : (x : F) (xs : List F) → set_has x (set_insert x xs) ≡ true
    unfolding set_has set_insert
    set_has-insert x [] = ground (arith, laws.lt_irrefl x)
    set_has-insert x (y ∷ ys) = ground (arith, laws.lt_irrefl x, set_has-insert x ys)

    marked :
        (x : F) (s : ResistanceEstimator F)
        → length s.processed_end_times < 200
        → set_has x (mark_processed x s).processed_end_times ≡ true
    unfolding mark_processed
    marked x s room =
        let fits : length (set_insert x s.processed_end_times) ≤ 200 =
          omega (arith, length-set_insert x s.processed_end_times) in
        ap (set_has x) (trim-room 200 _ fits) ∙ set_has-insert x s.processed_end_times

    -- An event that was processed is not processed again, by whatever history, while fewer than 200
    -- are remembered and where the order of numbers is irreflexive: so each transmission gives at
    -- most one sample.
    pub process_event-twice :
        (history later : List (BatterySnapshot F)) (ev : TxEvent F) (s : ResistanceEstimator F)
        → length s.processed_end_times < 200
        → process_event later ev (process_event history ev s) ≡ process_event history ev s
    unfolding process_event
    process_event-twice history later ev s room =
        let t = process_event history ev s in
        elim (Bool-cases (ev.peak_current <F decimal 5 1 || ev.duration <F decimal 5 1)) [
          | inl e ↦ if_true _ _ e
          | inr e ↦
              let known : set_has ev.end_time t.processed_end_times ≡ true =
                elim (Bool-cases (set_has ev.end_time s.processed_end_times)) [
                  | inl f ↦
                      ap (λ (u : ResistanceEstimator F). set_has ev.end_time u.processed_end_times)
                        (if_false _ _ e ∙ if_true _ _ f)
                      ∙ f
                  | inr f ↦
                      ap (λ (u : ResistanceEstimator F). set_has ev.end_time u.processed_end_times)
                        (if_false _ _ e ∙ if_false _ _ f)
                      ∙ ap (set_has ev.end_time)
                          (measure-processed ev _ _ (mark_processed ev.end_time s))
                      ∙ marked ev.end_time s room
                ] in
              if_false _ _ e ∙ if_true _ _ known
        ]
