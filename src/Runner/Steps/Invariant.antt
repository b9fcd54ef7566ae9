-- ===== src/Runner/Steps/Invariant.antt =====
-- What holds of the runner and of what it wrote, whatever calls come.
use limonitor.Common.{
  ℕ, ◌-◌, ◌≡◌, refl, sym, ap, subst, ◌∙◌, inl, inr, true, false, not, ◌&&◌, ◌||◌, List, [], ◌∷◌,
  ◌++◌, Option, none, some, String, arith, ltb, leb, if◌then◌else◌, if_true, if_false, leb→gt,
  Bool-cases, length,
}
use limonitor.Common.Int.{ℤ, pos, negsuc, ltb_ℤ, leb_ℤ, ◌-ℤ◌}
use limonitor.Double.{Double, ◌>F◌, decimal}
use limonitor.Battery.{BatterySnapshot}
use limonitor.Runner.Types.{
  TestType, test_type_str, TestTelemetrySample, make_telemetry_sample,
  make_telemetry_sample-test_id,
}
use limonitor.Runner.Steps.{
  Metadata, reason, insert_test_run, World, TestRunner, is_zero, write, valid_only, begin_test,
  start_test,
}
use limonitor.Runner.Steps.Supervise.{
  Tick, Action, start, tick, stop, flush_rows, flush_telemetry, finish_test, is_unsafe, tick_time,
  note_live, integrate, push_sample, needs_flush, capture, supervise, on_telemetry_tick, stop_test,
  act, run,
}
use limonitor.Runner.Steps.Finish.{
  Protocol, opened, CarryId, IsActive, IsIdle, IsWell, flush_rows-IsOpen, finish_running-IsIdle,
}
use limonitor.Runner.Steps.Start.{accepted, is_admissible_parts, start_test-accepted}

pub positive-nonzero : (i : ℤ) → ltb_ℤ (pos 0) i ≡ true → is_zero i ≡ false
positive-nonzero (pos n) h = ground arith
positive-nonzero (negsuc n) h = refl

module _ {F : Type 0} ⦃d : Double F⦄ where
  -- A granted start opens a test.
  accepted-IsActive :
      (w : World F) (type : TestType) (bat : BatterySnapshot F) (s : TestRunner F)
      → IsIdle s
      → s.has_db ≡ true
      → ltb_ℤ (pos 0) w.row_id ≡ true
      → IsActive (accepted w type bat s)
  unfolding begin_test
  accepted-IsActive w type bat s (r, q, z, b, p) db id =
      let row =
        insert_test_run w.row_id (test_type_str type) bat.timestamp bat.soc_pct
          bat.total_voltage_v in
      let e : write row s ≡ record s { writes = s.writes ++ (row ∷ []) } = if_true _ _ db in
      let empty : (write row s).telemetry_buffer ≡ [] = ap (λ t. t.telemetry_buffer) e ∙ b in
      (
        refl,
        refl,
        id,
        omega (arith, ap length empty),
        (
          ap (λ t. t.has_db) e ∙ db,
          subst (CarryId w.row_id) (sym empty) tt,
          subst (λ t. Protocol t.writes (some w.row_id)) (sym e) (opened w.row_id _ _ _ _ p),
        ),
      )

  start_test-IsWell :
      (w : World F) (type : TestType) (s : TestRunner F) → IsWell s → IsWell (start_test w type s).0
  start_test-IsWell w type s h = elim (start_test-accepted w type s) [
    | inl (refused, e) ↦ subst IsWell (sym (ap (λ (r : TestRunner F × ℤ). r.0) e)) h
    | inr (granted, bat, l, e) ↦
        let (idle, db, id) = is_admissible_parts w s granted in
        subst IsWell (sym (ap (λ (r : TestRunner F × ℤ). r.0) e)) (elim h [
          | inl (running, _, _, _, _) ↦ absurd (ground (arith, sym running ∙ idle))
          | inr i ↦ inl (accepted-IsActive w type bat s i db id)
        ])
  ]

  pub integrate-keeps :
      (now : ℕ) (bat : Option (BatterySnapshot F)) (s : TestRunner F)
      → IsActive s
      → IsActive (integrate now bat s)
  unfolding integrate
  integrate-keeps now none s h = h
  integrate-keeps now (some bat) s h =
      let dt = if ltb 0 s.last_tick_ts then now - s.last_tick_ts else 0 in
      elim (Bool-cases (bat.current_a >F decimal 1 2 && (ltb 0 dt && ltb dt 30))) [
        | inl e ↦ subst IsActive (sym (if_true _ _ e)) h
        | inr e ↦ subst IsActive (sym (if_false _ _ e)) h
      ]

  pub note_live-keeps :
      (bat : Option (BatterySnapshot F)) (load_w : F) (s : TestRunner F)
      → IsActive s
      → IsActive (note_live bat load_w s)
  unfolding note_live
  note_live-keeps none load_w s h = h
  note_live-keeps (some bat) load_w s h = h

  CarryId-snoc :
      (id : ℤ) (rows : List (TestTelemetrySample F)) (r : TestTelemetrySample F)
      → CarryId id rows
      → r.test_id ≡ id
      → CarryId id (rows ++ (r ∷ []))
  CarryId-snoc id [] r h e = (e, tt)
  CarryId-snoc id (x ∷ rows) r (h, hs) e = (h, CarryId-snoc id rows r hs e)

  pub capture-keeps :
      (now : ℕ) (sample : TestTelemetrySample F) (s : TestRunner F)
      → IsActive s
      → sample.test_id ≡ s.current_test_id
      → IsActive (capture now sample s)
  unfolding capture push_sample needs_flush flush_telemetry
  capture-keeps now sample s (r, q, i, n, (db, own, p)) e =
      let pushed : TestRunner F = push_sample now sample s in
      let id = s.current_test_id in
      let more = CarryId-snoc id s.telemetry_buffer sample own e in
      elim (Bool-cases (leb 2 (now - s.last_telemetry_ts))) [
        | inr k ↦ subst IsActive (sym (if_false _ _ k)) (r, q, i, n, (db, own, p))
        | inl k ↦ elim (Bool-cases (needs_flush pushed)) [
          | inr f ↦
              subst IsActive (sym (if_true _ _ k ∙ if_false _ _ f))
                (r, q, i, leb→gt _ _ f, (db, more, p))
          | inl f ↦
              let (db1, empty, p1, r1, i1, q1) =
                flush_rows-IsOpen id pushed.telemetry_buffer pushed db more p refl in
              let flushed = flush_rows pushed.telemetry_buffer pushed in
              subst IsActive (sym (if_true _ _ k ∙ if_true _ _ f)) (
                r1 ∙ r,
                q1 ∙ q,
                ap (ltb_ℤ (pos 0)) i1 ∙ i,
                omega (arith, ap length empty),
                (
                  db1,
                  subst (CarryId flushed.current_test_id) (sym empty) tt,
                  subst (λ j. Protocol flushed.writes (some j)) (sym i1) p1,
                ),
              )
        ]
      ]

  pub finish_test-IsIdle :
      (w : World F) (result : String) (meta : Metadata F) (s : TestRunner F)
      → IsActive s
      → IsIdle (finish_test w result meta s)
  unfolding finish_test
  finish_test-IsIdle w result meta s (r, q, i, n, live) =
      subst IsIdle (sym (if_true _ _ r)) (finish_running-IsIdle w result meta s live)

  pub note_live-test_id :
      (bat : Option (BatterySnapshot F)) (load_w : F) (s : TestRunner F)
      → (note_live bat load_w s).current_test_id ≡ s.current_test_id
  unfolding note_live
  note_live-test_id none load_w s = refl
  note_live-test_id (some bat) load_w s = refl

  pub integrate-test_id :
      (now : ℕ) (bat : Option (BatterySnapshot F)) (s : TestRunner F)
      → (integrate now bat s).current_test_id ≡ s.current_test_id
  unfolding integrate
  integrate-test_id now none s = refl
  integrate-test_id now (some bat) s = ground arith

  supervise-IsWell :
      (w : World F) (t : Tick F) (s : TestRunner F) → IsActive s → IsWell (supervise w t s)
  unfolding supervise
  supervise-IsWell w t s h =
      let bat = valid_only t.bat in
      let now_ts = tick_time w bat in
      let live = note_live bat t.load_w s in
      let alive = note_live-keeps bat t.load_w s h in
      let sample =
        make_telemetry_sample s.current_test_id t.bat t.chg t.load_w t.tx_active t.tx_power in
      elim (Bool-cases (is_unsafe w bat live)) [
        | inl e ↦ subst IsWell (sym (if_true _ _ e)) (inr (finish_test-IsIdle w _ _ live alive))
        | inr e ↦
            elim (Bool-cases
              (leb_ℤ live.limits.max_duration_sec (pos now_ts -ℤ pos live.test_start_ts))) [
                | inl f ↦
                    subst IsWell (sym (if_false _ _ e ∙ if_true _ _ f))
                      (inr (finish_test-IsIdle w _ _ live alive))
                | inr f ↦
                    let counted = integrate now_ts bat live in
                    let same : sample.test_id ≡ counted.current_test_id =
                      make_telemetry_sample-test_id s.current_test_id t.bat t.chg t.load_w
                        t.tx_active t.tx_power
                      ∙ sym
                          (integrate-test_id now_ts bat live ∙ note_live-test_id bat t.load_w s) in
                    subst IsWell (sym (if_false _ _ e ∙ if_false _ _ f)) (
                      inl (
                        capture-keeps now_ts sample counted (integrate-keeps now_ts bat live alive)
                          same))
              ]
      ]

  on_telemetry_tick-IsWell :
      (w : World F) (t : Tick F) (s : TestRunner F) → IsWell s → IsWell (on_telemetry_tick w t s)
  unfolding on_telemetry_tick
  on_telemetry_tick-IsWell w t s (inl (r, q, i, n, o)) =
      let on : not s.running || is_zero s.current_test_id ≡ false =
        ground (arith, positive-nonzero s.current_test_id i) in
      subst IsWell (sym (if_false _ _ on ∙ if_false _ _ q)) (supervise-IsWell w t s (r, q, i, n, o))
  on_telemetry_tick-IsWell w t s (inr (r, q, z, b, p)) =
      let off : not s.running || is_zero s.current_test_id ≡ true = ground arith in
      subst IsWell (sym (if_true _ _ off)) (inr (r, q, z, b, p))

  -- After a request to stop, in whatever state that the invariant allows it comes, no test runs and none
  -- is open in the database.
  pub stop_test-IsIdle : (w : World F) (s : TestRunner F) → IsWell s → IsIdle (stop_test w s)
  unfolding stop_test on_telemetry_tick finish_test
  stop_test-IsIdle w s (inr (r, q, z, b, p)) = subst IsIdle (sym (if_false _ _ r)) (r, q, z, b, p)
  stop_test-IsIdle w s (inl (r, q, i, n, o)) =
      let asked : TestRunner F = record s { stop_requested = true } in
      let on : not s.running || is_zero s.current_test_id ≡ false =
        ground (arith, positive-nonzero s.current_test_id i) in
      subst IsIdle (sym (if_true _ _ r ∙ if_false _ _ on ∙ if_true _ _ r))
        (finish_running-IsIdle w "aborted" (reason "user_stop") asked o)

  act-IsWell : (w : World F) (a : Action F) (s : TestRunner F) → IsWell s → IsWell (act w a s)
  unfolding act
  act-IsWell w (start type) s h = start_test-IsWell w type s h
  act-IsWell w (tick t) s h = on_telemetry_tick-IsWell w t s h
  act-IsWell w stop s h = inr (stop_test-IsIdle w s h)

  -- The following stays true whatever starts, ticks and stops come: either no test runs, the
  -- current id is 0, no telemetry is held back and every test in the database is closed; or one
  -- test runs under a positive id, it is the only open one in the database, fewer than 50 samples
  -- are held back and each carries its id. No stop request stays pending, and the database got its
  -- writes in the order of `Protocol`.
  pub run-IsWell :
      (calls : List (World F × Action F)) (s : TestRunner F) → IsWell s → IsWell (run calls s)
  unfolding run
  run-IsWell [] s h = h
  run-IsWell ((w, a) ∷ rest) s h = run-IsWell rest (act w a s) (act-IsWell w a s h)
