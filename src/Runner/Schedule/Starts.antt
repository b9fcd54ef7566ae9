-- ===== src/Runner/Schedule/Starts.antt =====
-- Which test a check of the schedules starts, and what it plans.
use limonitor.Common.{
  ◌≡◌, refl, sym, ap, subst, ◌∙◌, ◌⊎◌, inl, inr, true, false, not, ◌&&◌, ◌||◌, List, [], ◌∷◌, ◌++◌,
  Option, none, some, arith, if◌then◌else◌, if_true, if_false, unless_true, unless_false,
  Bool-cases, Option-cases,
}
use limonitor.Common.Int.{ℤ, pos, ltb_ℤ}
use limonitor.Double.{Double}
use limonitor.Battery.{BatterySnapshot}
use limonitor.Runner.Types.{TestType, parse_test_type}
use limonitor.Runner.Steps.{World, TestRunner, start_test, valid_only}
use limonitor.Runner.Steps.Start.{is_admissible_parts, start_test-accepted}
use limonitor.Runner.Schedule.{
  Calendar, TestScheduleRow, SkipReason, Change, skip, next_run, next_of, is_due, skip_reason,
  decide, start_test_failed, check_rows, check_with, check_scheduled_tests,
}

module _ {F : Type 0} ⦃d : Double F⦄ where
  -- The new times that the changes set.
  unfoldable pub next_runs : List (Change F) → List (ℤ × ℤ)
  next_runs [] = []
  next_runs (skip id now why ∷ cs) = next_runs cs
  next_runs (next_run id at ∷ cs) = (id, at) ∷ next_runs cs

  -- A start that returns no positive id changes nothing.
  start_test-refused :
      (w : World F) (type : TestType) (r : TestRunner F)
      → ltb_ℤ (pos 0) (start_test w type r).1 ≡ false
      → (start_test w type r).0 ≡ r
  start_test-refused w type r h = elim (start_test-accepted w type r) [
    | inl (refused, e) ↦ ap (λ (x : TestRunner F × ℤ). x.0) e
    | inr (granted, bat, l, e) ↦
        let (idle, db, id) = is_admissible_parts w r granted in
        absurd (ground (arith, sym h ∙ ap (λ (x : TestRunner F × ℤ). ltb_ℤ (pos 0) x.1) e ∙ id))
  ]

module _ (cal : Calendar) (now : ℤ) where
  -- The due schedules with their new times.
  unfoldable pub planned : List TestScheduleRow → List (ℤ × ℤ)
  planned [] = []
  planned (s ∷ rows) =
      let rest = planned rows in if is_due now s then (s.id, next_of cal now s) ∷ rest else rest

module _ {F : Type 0} ⦃d : Double F⦄ (cal : Calendar) (now : ℤ)
    (at : TestScheduleRow → World F) where
  -- What a check does to the runner r: it starts nothing and plans every due schedule anew, or it
  -- starts the test of one due schedule and plans anew the due ones up to that.
  abbrev pub Outcome : List TestScheduleRow → TestRunner F → TestRunner F × List (Change F) → Type 0
  Outcome rows r out =
      (out.0 ≡ r) × (next_runs out.1 ≡ planned cal now rows)
      ⊎ (front : List TestScheduleRow) × (s : TestScheduleRow) × (back : List TestScheduleRow)
        × (rows ≡ front ++ (s ∷ back))
        × (is_due now s ≡ true)
        × (ltb_ℤ (pos 0) (start_test (at s) (parse_test_type (some s.test_type)) r).1 ≡ true)
        × (out.0 ≡ (start_test (at s) (parse_test_type (some s.test_type)) r).0)
        × (next_runs out.1 ≡ planned cal now (front ++ (s ∷ [])))

  -- One more schedule before the others.
  Outcome-cons :
      (s : TestScheduleRow) (rows : List TestScheduleRow) (r : TestRunner F)
      (out more : TestRunner F × List (Change F))
      → more.0 ≡ out.0
      → next_runs more.1
        ≡ (if is_due now s then (s.id, next_of cal now s) ∷ next_runs out.1 else next_runs out.1)
      → Outcome rows r out
      → Outcome (s ∷ rows) r more
  unfolding planned
  Outcome-cons s rows r out more same grown h =
      let step = λ (x : List (ℤ × ℤ)). if is_due now s then (s.id, next_of cal now s) ∷ x else x in
      elim h [
        | inl (e, n) ↦ inl (same ∙ e, grown ∙ ap step n)
        | inr (front, t, back, split, due, id, e, n) ↦
            inr (s ∷ front, t, back, ap (◌∷◌ s) split, due, id, same ∙ e, grown ∙ ap step n)
      ]

  -- A due schedule before the others.
  decide-Outcome :
      (bat : BatterySnapshot F) (s : TestScheduleRow) (rows : List TestScheduleRow)
      (r : TestRunner F) (why : Option (SkipReason F))
      → is_due now s ≡ true
      → Outcome rows r (check_rows cal now bat at rows r)
      → let tried = start_test (at s) (parse_test_type (some s.test_type)) r in
        Outcome (s ∷ rows) r (
          decide now s.id
            (next_run s.id (next_of cal now s))
            why
            tried
            (check_rows cal now bat at rows r)
            (check_rows cal now bat at rows tried.0))
  unfolding decide next_runs planned
  decide-Outcome bat s rows r (some why) e h =
      let passed = check_rows cal now bat at rows r in
      let next = next_run s.id (next_of cal now s) in
      Outcome-cons s rows r passed (passed.0, skip s.id now why ∷ next ∷ passed.1) refl
        (sym (if_true ((s.id, next_of cal now s) ∷ next_runs passed.1) (next_runs passed.1) e)) h
  decide-Outcome bat s rows r none e h =
      let tried = start_test (at s) (parse_test_type (some s.test_type)) r in
      let next = next_run s.id (next_of cal now s) in
      let failed = check_rows cal now bat at rows tried.0 in
      elim (Bool-cases (ltb_ℤ (pos 0) tried.1)) [
        | inl p ↦
            let go =
              if_true (tried.0, next ∷ [])
                (failed.0, skip s.id now start_test_failed ∷ next ∷ failed.1) p in
            inr (
              [],
              s,
              rows,
              refl,
              e,
              p,
              ap (λ (x : TestRunner F × List (Change F)). x.0) go,
              ap (λ (x : TestRunner F × List (Change F)). next_runs x.1) go ∙ sym (if_true _ _ e),
            )
        | inr p ↦
            let same = ap (check_rows cal now bat at rows) (start_test-refused (at s) _ r p) in
            subst (Outcome (s ∷ rows) r) (sym (if_false _ _ p)) (
              Outcome-cons s rows r (check_rows cal now bat at rows r)
                (failed.0, skip s.id now start_test_failed ∷ next ∷ failed.1)
                (ap (λ (x : TestRunner F × List (Change F)). x.0) same)
                (ap
                    (λ (x : TestRunner F × List (Change F)).
                      (s.id, next_of cal now s) ∷ next_runs x.1)
                    same
                  ∙ sym (if_true _ _ e))
                h)
      ]

  check_rows-Outcome :
      (bat : BatterySnapshot F) (rows : List TestScheduleRow) (r : TestRunner F)
      → Outcome rows r (check_rows cal now bat at rows r)
  unfolding check_rows next_runs planned
  check_rows-Outcome bat [] r = inl (refl, refl)
  check_rows-Outcome bat (s ∷ rows) r =
      let passed = check_rows cal now bat at rows r in
      let reason = skip_reason r.limits bat (at s).maintenance_mode in
      elim (Bool-cases (is_due now s)) [
        | inr e ↦ subst (Outcome (s ∷ rows) r) (sym (unless_false _ _ e)) (
            Outcome-cons s rows r passed passed refl (sym (if_false _ _ e))
              (check_rows-Outcome bat rows r))
        | inl e ↦
            subst (Outcome (s ∷ rows) r) (sym (unless_true _ _ e))
              (decide-Outcome bat s rows r reason e (check_rows-Outcome bat rows r))
      ]

  -- A check of the schedules does nothing unless the database is open, no test runs and the latest
  -- reading is valid. Otherwise it starts at most one test, that of a due schedule whose start is
  -- granted, and gives a new time to just the due schedules up to that one in their order, or to
  -- all of them where no test starts.
  pub check_scheduled_tests_cases :
      (w : World F) (rows : List TestScheduleRow) (r : TestRunner F)
      → ((r.has_db && (w.is_open && not r.running) ≡ false) ⊎ (valid_only w.latest ≡ none))
          × (check_scheduled_tests cal now w at rows r ≡ (r, []))
        ⊎ (r.has_db && (w.is_open && not r.running) ≡ true)
          × Outcome rows r (check_scheduled_tests cal now w at rows r)
  unfolding check_scheduled_tests check_with
  check_scheduled_tests_cases w rows r =
      elim (Bool-cases (not r.has_db || (not w.is_open || r.running))) [
        | inl e ↦ inl (inl (ground arith), if_true _ _ e)
        | inr e ↦ elim (Option-cases (valid_only w.latest)) [
          | inl n ↦ inl (inr n, if_false _ _ e ∙ ap (λ b. check_with cal now b at rows r) n)
          | inr (bat, n) ↦ inr (
            ground arith,
            subst (Outcome rows r)
                (sym (if_false _ _ e ∙ ap (λ b. check_with cal now b at rows r) n))
                (check_rows-Outcome bat rows r),
          )
        ]
      ]
