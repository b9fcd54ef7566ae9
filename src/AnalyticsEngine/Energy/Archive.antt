-- ===== src/AnalyticsEngine/Energy/Archive.antt =====
-- What the archives of days and hours hold.
use limonitor.Common.{
  min, length-trim, subst, not, ◌&&◌, ℕ, ◌+◌, ◌-◌, ◌≤◌, ◌<◌, ◌≡◌, refl, sym, ap, ◌∙◌, ◌⊎◌, inl, inr,
  true, false, List, [], ◌∷◌, ◌++◌, arith, ltb, length, drop, push_bounded, trim-room, trim-eq-drop,
  length-append, Bool-cases, ltb→lt, ltb→ge, if_true, if_false,
}
use limonitor.Common.Int.{ℤ, pos, leb_ℤ, eqb_ℤ}
use limonitor.Double.{Double}
use limonitor.AnalyticsEngine.{Day}
use limonitor.AnalyticsEngine.Energy.{
  archive_hour, archive, archive_day, start_day, reset_daily_if_needed, zero_f,
}

drop_one :
    {A : Type 0}
    → (xs : List A) (x : A) → 0 < length xs
    → drop 1 (xs ++ (x ∷ [])) ≡ drop 1 xs ++ (x ∷ [])
drop_one [] x h = absurd (omega arith)
drop_one (y ∷ ys) x h = refl

pub archive-push_bounded :
    {A : Type 0}
    → (n : ℕ) (xs : List A) (x : A) → 0 < n
    → length xs ≤ n
    → archive n xs x ≡ push_bounded n xs x
unfolding archive push_bounded
archive-push_bounded n xs x h l = elim (Bool-cases (ltb (length xs) n)) [
  | inl e ↦
      if_true _ _ e
      ∙ sym (trim-room n (xs ++ (x ∷ [])) (omega (arith, length-append xs (x ∷ []), ltb→lt _ _ e)))
  | inr e ↦
      let one : length (xs ++ (x ∷ [])) - n ≡ 1 =
        omega (arith, length-append xs (x ∷ []), ltb→ge _ _ e) in
      if_false _ _ e
      ∙ sym (
          trim-eq-drop n (xs ++ (x ∷ []))
          ∙ ap (λ k. drop k (xs ++ (x ∷ []))) one
          ∙ drop_one xs x (omega (arith, ltb→ge _ _ e)))
]

-- The archives stay within their arrays, and the two arrays of a pair have the same length.
pub record IsArchived {F : Type 0} (s : Day F) : Type 0 where
  pub days : length s.energy_by_day ≤ 8
  pub days_paired : length s.days_by_day ≡ length s.energy_by_day
  pub hours : length s.discharge_wh_per_hour ≤ 24
  pub hours_paired : length s.discharge_hour_ts ≡ length s.discharge_wh_per_hour

length-archive :
    {A : Type 0}
    → (n : ℕ) (xs : List A) (x : A) → 0 < n
    → length xs ≤ n
    → length (archive n xs x) ≡ min n (length xs + 1)
unfolding push_bounded
length-archive n xs x h l =
    ap length (archive-push_bounded n xs x h l)
    ∙ length-trim n (xs ++ (x ∷ []))
    ∙ ap (min n) (length-append xs (x ∷ []))

module _ {F : Type 0} ⦃d : Double F⦄ where
  archive_day-IsArchived : (s : Day F) → IsArchived s → IsArchived (archive_day s)
  unfolding archive_day
  archive_day-IsArchived s w = elim (Bool-cases (leb_ℤ (pos 0) s.current_day)) [
    | inl e ↦
        let wh = length-archive 8 s.energy_by_day s.energy_discharged_wh (omega arith) w.days in
        let ids =
          length-archive 8 s.days_by_day s.current_day (omega arith)
            (omega (arith, w.days, w.days_paired)) in
        subst IsArchived (sym (if_true _ _ e)) (record {
          days = omega (arith, wh);
          days_paired = ids ∙ ap (λ k. min 8 (k + 1)) w.days_paired ∙ sym wh;
          hours = w.hours;
          hours_paired = w.hours_paired;
        })
    | inr e ↦ subst IsArchived (sym (if_false _ _ e)) w
  ]

  start_day-IsArchived :
      (day : ℤ) (ts : F) (s : Day F) → IsArchived s → IsArchived (start_day day ts s)
  unfolding start_day
  start_day-IsArchived day ts s w = record {
    days = w.days;
    days_paired = w.days_paired;
    hours = w.hours;
    hours_paired = w.hours_paired;
  }

  pub reset-IsArchived :
      (day : ℤ) (ts : F) (s : Day F) → IsArchived s → IsArchived (reset_daily_if_needed day ts s)
  unfolding reset_daily_if_needed
  reset-IsArchived day ts s w = elim (Bool-cases (eqb_ℤ s.current_day day)) [
    | inl e ↦ subst IsArchived (sym (if_true _ _ e)) w
    | inr e ↦
        subst IsArchived (sym (if_false _ _ e))
          (start_day-IsArchived day ts (archive_day s) (archive_day-IsArchived s w))
  ]

  pub archive_hour-IsArchived :
      (hour : ℤ) (s : Day F) → IsArchived s → IsArchived (archive_hour hour s)
  unfolding archive_hour
  archive_hour-IsArchived hour s w =
      elim (Bool-cases
        (leb_ℤ (pos 0) s.last_discharge_hour && not (eqb_ℤ hour s.last_discharge_hour))) [
          | inl e ↦
              let wh =
                length-archive 24 s.discharge_wh_per_hour s.discharge_wh_this_hour (omega arith)
                  w.hours in
              let ids =
                length-archive 24 s.discharge_hour_ts s.last_discharge_hour (omega arith)
                  (omega (arith, w.hours, w.hours_paired)) in
              subst IsArchived (sym (if_true _ _ e)) (record {
                days = w.days;
                days_paired = w.days_paired;
                hours = omega (arith, wh);
                hours_paired = ids ∙ ap (λ k. min 24 (k + 1)) w.hours_paired ∙ sym wh;
              })
          | inr e ↦ subst IsArchived (sym (if_false _ _ e)) (record {
            days = w.days;
            days_paired = w.days_paired;
            hours = w.hours;
            hours_paired = w.hours_paired;
          })
        ]

  -- What a reading of another day finds: the counters of a day that has begun.
  pub record IsFresh (day : ℤ) (ts : F) (s : Day F) : Type 0 where
    pub on_day : s.current_day ≡ day
    pub nothing_charged : s.energy_charged_wh ≡ zero_f
    pub nothing_discharged : s.energy_discharged_wh ≡ zero_f
    pub no_solar : s.solar_energy_wh ≡ zero_f
    pub no_runtime : s.charger_runtime_sec ≡ zero_f
    pub no_extremes : s.soc_init ≡ false
    pub integrates_from : s.last_discharge_integration_ts ≡ ts

  -- The archive that a new day finds: with the day before, if there was one.
  abbrev pub IsKept : Day F → Day F → Type 0
  IsKept s after =
      (leb_ℤ (pos 0) s.current_day ≡ true)
        × (after.energy_by_day ≡ push_bounded 8 s.energy_by_day s.energy_discharged_wh)
        × (after.days_by_day ≡ push_bounded 8 s.days_by_day s.current_day)
      ⊎ (leb_ℤ (pos 0) s.current_day ≡ false)
        × (after.energy_by_day ≡ s.energy_by_day)
        × (after.days_by_day ≡ s.days_by_day)

  archive_day-IsKept : (s : Day F) → IsArchived s → IsKept s (archive_day s)
  unfolding archive_day
  archive_day-IsKept s w = elim (Bool-cases (leb_ℤ (pos 0) s.current_day)) [
    | inl e ↦ inl (
      e,
      ap (λ (t : Day F). t.energy_by_day) (if_true _ _ e)
          ∙ archive-push_bounded 8 s.energy_by_day s.energy_discharged_wh (omega arith) w.days,
      ap (λ (t : Day F). t.days_by_day) (if_true _ _ e)
          ∙ archive-push_bounded 8 s.days_by_day s.current_day (omega arith)
              (omega (arith, w.days, w.days_paired)),
    )
    | inr e ↦ inr (
      e,
      ap (λ (t : Day F). t.energy_by_day) (if_false _ _ e),
      ap (λ (t : Day F). t.days_by_day) (if_false _ _ e),
    )
  ]

  start_day-IsKept :
      (day : ℤ) (ts : F) (s t : Day F)
      → IsKept s t
      → IsFresh day ts (start_day day ts t) × IsKept s (start_day day ts t)
  unfolding start_day
  start_day-IsKept day ts s t k = (
    record {
      on_day = refl;
      nothing_charged = refl;
      nothing_discharged = refl;
      no_solar = refl;
      no_runtime = refl;
      no_extremes = refl;
      integrates_from = refl;
    },
    k,
  )

  -- Where the archives are within their arrays, a reading of the current day changes nothing. A reading
  -- of another day starts the counters at zero, once it has archived the energy and the number of the day
  -- before among the last eight days; where there was no day before, the archive stays.
  pub reset_daily_cases :
      (day : ℤ) (ts : F) (s : Day F)
      → IsArchived s
      → let after = reset_daily_if_needed day ts s in
        (eqb_ℤ s.current_day day ≡ true) × (after ≡ s)
        ⊎ (eqb_ℤ s.current_day day ≡ false) × IsFresh day ts after × IsKept s after
  unfolding reset_daily_if_needed
  reset_daily_cases day ts s w = elim (Bool-cases (eqb_ℤ s.current_day day)) [
    | inl e ↦ inl (e, if_true _ _ e)
    | inr e ↦
        let (new, kept) =
          subst (λ t. IsFresh day ts t × IsKept s t) (sym (if_false _ _ e))
            (start_day-IsKept day ts s (archive_day s) (archive_day-IsKept s w)) in
        inr (e, new, kept)
  ]
