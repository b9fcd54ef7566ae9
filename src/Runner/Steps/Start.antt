-- ===== src/Runner/Steps/Start.antt =====
-- When `start_test` starts a test.
use limonitor.Common.{
  sym, subst, [], ◌∷◌, ◌++◌, ◌≡◌, refl, ap, ◌∙◌, ◌⊎◌, inl, inr, Bool, true, false, not, ◌&&◌, ◌||◌,
  Option, none, some, arith, if_true, if_false, unless_true, unless_false, Bool-cases,
}
use limonitor.Common.Int.{ℤ, pos, ltb_ℤ, leb_ℤ}
use limonitor.Double.{Double, ◌+F◌, ◌<F◌, decimal}
use limonitor.Battery.{BatterySnapshot}
use limonitor.Runner.Types.{TestType, SafetyLimits, test_type_str}
use limonitor.Runner.Steps.{
  insert_test_run, World, TestRunner, write, valid_only, begin_test, preflight, start_with,
  start_test,
}

module _ {F : Type 0} ⦃d : Double F⦄ where
  -- Everything that `start_test` asks for.
  pub is_ready : SafetyLimits F → Option (BatterySnapshot F) → Bool
  is_ready limits none = false
  is_ready limits (some bat) =
      bat.valid
      && (not (bat.soc_pct <F limits.soc_floor_pct +F decimal 5 0)
          && not (bat.total_voltage_v <F limits.voltage_floor_v +F decimal 5 1))

  pub is_admissible : World F → TestRunner F → Bool
  is_admissible w s =
      not s.running
      && (s.has_db
          && (w.is_open
              && (is_ready s.limits w.latest
                  && (not w.maintenance_mode && ltb_ℤ (pos 0) w.row_id))))

  pub is_admissible_parts :
      (w : World F) (s : TestRunner F)
      → is_admissible w s ≡ true
      → (s.running ≡ false) × (s.has_db ≡ true) × (ltb_ℤ (pos 0) w.row_id ≡ true)
  unfolding is_admissible
  is_admissible_parts w s h = ground arith

  abbrev pub accepted : World F → TestType → BatterySnapshot F → TestRunner F → TestRunner F
  accepted w type bat s = begin_test type w.row_id bat (
      write
        (insert_test_run w.row_id (test_type_str type) bat.timestamp bat.soc_pct
          bat.total_voltage_v)
        s)

  start_valid_cases :
      (w : World F) (type : TestType) (bat : BatterySnapshot F) (s : TestRunner F)
      → let asked = preflight s.limits bat && (not w.maintenance_mode && ltb_ℤ (pos 0) w.row_id) in
        (asked ≡ false) × (start_with w type (some bat) s ≡ (s, pos 0))
        ⊎ (asked ≡ true) × (start_with w type (some bat) s ≡ (accepted w type bat s, w.row_id))
  unfolding start_with
  start_valid_cases w type bat s = elim (Bool-cases (preflight s.limits bat)) [
    | inr e ↦ inl (ground arith, unless_false _ _ e)
    | inl e ↦ elim (Bool-cases w.maintenance_mode) [
      | inl m ↦ inl (ground arith, unless_true _ _ e ∙ if_true _ _ m)
      | inr m ↦ elim (Bool-cases (leb_ℤ w.row_id (pos 0))) [
        | inl r ↦ inl (ground arith, unless_true _ _ e ∙ if_false _ _ m ∙ if_true _ _ r)
        | inr r ↦ inr (ground arith, unless_true _ _ e ∙ if_false _ _ m ∙ if_false _ _ r)
      ]
    ]
  ]

  latest_cases :
      (w : World F) (type : TestType) (latest : Option (BatterySnapshot F)) (s : TestRunner F)
      → let asked =
          is_ready s.limits latest && (not w.maintenance_mode && ltb_ℤ (pos 0) w.row_id) in
        (asked ≡ false) × (start_with w type (valid_only latest) s ≡ (s, pos 0))
        ⊎ (asked ≡ true)
          × (bat : BatterySnapshot F) × (latest ≡ some bat)
          × (start_with w type (valid_only latest) s ≡ (accepted w type bat s, w.row_id))
  unfolding is_ready preflight
  latest_cases w type none s = inl (refl, unfold start_with in refl)
  latest_cases w type (some bat) s = elim (Bool-cases bat.valid) [
    | inr v ↦
        let skip = ap (λ o. start_with w type o s) (if_false (some bat) none v) in
        inl (ground arith, skip ∙ unfold start_with in refl)
    | inl v ↦
        let keep = ap (λ o. start_with w type o s) (if_true (some bat) none v) in
        elim (start_valid_cases w type bat s) [
          | inl (refused, g) ↦ inl (ground arith, keep ∙ g)
          | inr (granted, g) ↦ inr (ground arith, bat, refl, keep ∙ g)
        ]
  ]

  pub start_test-accepted :
      (w : World F) (type : TestType) (s : TestRunner F)
      → (is_admissible w s ≡ false) × (start_test w type s ≡ (s, pos 0))
        ⊎ (is_admissible w s ≡ true)
          × (bat : BatterySnapshot F) × (w.latest ≡ some bat)
          × (start_test w type s ≡ (accepted w type bat s, w.row_id))
  unfolding start_test is_admissible
  start_test-accepted w type s = elim (Bool-cases s.running) [
    | inl e ↦ inl (ground arith, if_true _ _ e)
    | inr e ↦ elim (Bool-cases (not s.has_db || not w.is_open)) [
      | inl f ↦ inl (ground arith, if_false _ _ e ∙ if_true _ _ f)
      | inr f ↦ elim (latest_cases w type w.latest s) [
        | inl (refused, g) ↦ inl (ground arith, if_false _ _ e ∙ if_false _ _ f ∙ g)
        | inr (granted, bat, l, g) ↦ inr (ground arith, bat, l, if_false _ _ e ∙ if_false _ _ f ∙ g)
      ]
    ]
  ]

  -- A test of a type is under way, from a reading on, and its row is the one that was written last.
  pub record IsStarted (w : World F) (type : TestType) (bat : BatterySnapshot F)
      (s after : TestRunner F) : Type 0 where
    pub running : after.running ≡ true
    pub id : after.current_test_id ≡ w.row_id
    pub type_kept : after.current_test_type ≡ type
    pub no_stop : after.stop_requested ≡ false
    pub from : after.test_start_ts ≡ bat.timestamp
    pub ticked : after.last_tick_ts ≡ bat.timestamp
    pub soc : after.soc_at_start ≡ bat.soc_pct
    pub volts : after.voltage_at_start ≡ bat.total_voltage_v
    pub least_volts : after.min_voltage_seen ≡ bat.total_voltage_v
    pub load : after.load_sum_wh ≡ decimal 0 0
    pub no_sample : after.last_telemetry_ts ≡ 0
    pub samples : after.load_sample_count ≡ 0
    pub written :
        after.writes
        ≡ s.writes
          ++ (insert_test_run w.row_id
                (test_type_str type)
                bat.timestamp
                bat.soc_pct
                bat.total_voltage_v
              ∷ [])
    pub buffer : after.telemetry_buffer ≡ s.telemetry_buffer

  accepted-IsStarted :
      (w : World F) (type : TestType) (bat : BatterySnapshot F) (s : TestRunner F)
      → s.has_db ≡ true
      → IsStarted w type bat s (accepted w type bat s)
  unfolding begin_test
  accepted-IsStarted w type bat s db = record {
    running = refl;
    id = refl;
    type_kept = refl;
    no_stop = refl;
    from = refl;
    ticked = refl;
    soc = refl;
    volts = refl;
    least_volts = refl;
    load = refl;
    no_sample = refl;
    samples = refl;
    written = ap (λ (t : TestRunner F). t.writes) (if_true _ _ db);
    buffer = ap (λ (t : TestRunner F). t.telemetry_buffer) (if_true _ _ db);
  }

  -- A start is granted just when no test runs, the database is open, the latest reading is valid with a
  -- charge of 5 % or more and a voltage of 0.5 V or more above the floors of the limits, maintenance mode is off and the row could be inserted. Then the new id is
  -- returned, a test of that id and type runs from the reading's time, charge and voltage on with no load
  -- counted and no stop asked for, and its row is one more write. Otherwise 0 is returned and nothing
  -- changes.
  pub start_test_cases :
      (w : World F) (type : TestType) (s : TestRunner F)
      → (is_admissible w s ≡ false) × (start_test w type s ≡ (s, pos 0))
        ⊎ (is_admissible w s ≡ true)
          × (bat : BatterySnapshot F) × (w.latest ≡ some bat)
          × ((start_test w type s).1 ≡ w.row_id)
          × IsStarted w type bat s (start_test w type s).0
  start_test_cases w type s = elim (start_test-accepted w type s) [
    | inl (refused, e) ↦ inl (refused, e)
    | inr (granted, bat, l, e) ↦
        let (idle, db, id) = is_admissible_parts w s granted in
        inr (
          granted,
          bat,
          l,
          ap (λ (r : TestRunner F × ℤ). r.1) e,
          subst (IsStarted w type bat s) (sym (ap (λ (r : TestRunner F × ℤ). r.0) e))
              (accepted-IsStarted w type bat s db),
        )
  ]
