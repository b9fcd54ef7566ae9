-- ===== src/Runner/Steps/Ticks.antt =====
-- What one tick of a running test does.
use limonitor.Common.{
  ℕ, ◌+◌, ◌-◌, ◌≤◌, ◌<◌, ◌≡◌, refl, sym, ap, ap₂, subst, ◌∙◌, ◌⊎◌, inl, inr, Bool, true, false, not,
  ◌&&◌, ◌||◌, List, [], ◌∷◌, ◌++◌, Option, none, some, String, arith, ltb, leb, if◌then◌else◌,
  if_true, if_false, Bool-cases,
}
use limonitor.Common.Int.{ℤ, pos, leb_ℤ, ◌-ℤ◌}
use limonitor.Double.{Double, ◌>F◌, decimal}
use limonitor.Battery.{BatterySnapshot}
use limonitor.Runner.Types.{
  TestTelemetrySample, make_telemetry_sample, make_telemetry_sample-test_id,
}
use limonitor.Runner.Steps.{reason, World, TestRunner, valid_only, is_zero}
use limonitor.Runner.Steps.Supervise.{
  Tick, flush_rows, flush_telemetry, finish_test, is_unsafe, check_safety_limits, tick_time,
  note_live, integrate, push_sample, needs_flush, capture, supervise, on_telemetry_tick,
}
use limonitor.Runner.Steps.Finish.{IsActive, IsIdle}
use limonitor.Runner.Steps.Invariant.{
  positive-nonzero, finish_test-IsIdle, note_live-keeps, integrate-keeps, capture-keeps,
  integrate-test_id, note_live-test_id,
}
use limonitor.Runner.Steps.Samples.{all_samples, finish_test-samples, capture_cases}

module _ {F : Type 0} ⦃d : Double F⦄ where
  -- The safety limits, and the longest duration by the time of the reading.
  unfoldable pub is_over : World F → Tick F → TestRunner F → Bool
  is_over w t s =
      is_unsafe w (valid_only t.bat) s
      || leb_ℤ s.limits.max_duration_sec
          (pos (tick_time w (valid_only t.bat)) -ℤ pos s.test_start_ts)

  abbrev pub sample_of : Tick F → TestRunner F → TestTelemetrySample F
  sample_of t s =
      make_telemetry_sample s.current_test_id t.bat t.chg t.load_w t.tx_active t.tx_power

  live-same :
      (w : World F) (bat : Option (BatterySnapshot F)) (load_w : F) (s : TestRunner F)
      → let live = note_live bat load_w s in
        (is_unsafe w bat live ≡ is_unsafe w bat s)
        × (live.limits.max_duration_sec ≡ s.limits.max_duration_sec)
        × (live.test_start_ts ≡ s.test_start_ts)
        × (all_samples live ≡ all_samples s)
        × (live.last_telemetry_ts ≡ s.last_telemetry_ts)
        × (live.running ≡ s.running)
        × (live.has_db ≡ s.has_db)
  unfolding note_live is_unsafe check_safety_limits
  live-same w none load_w s = (refl, refl, refl, refl, refl, refl, refl)
  live-same w (some bat) load_w s = (refl, refl, refl, refl, refl, refl, refl)

  integrate-same :
      (now : ℕ) (bat : Option (BatterySnapshot F)) (s : TestRunner F)
      → let counted = integrate now bat s in
        (all_samples counted ≡ all_samples s)
        × (counted.last_telemetry_ts ≡ s.last_telemetry_ts)
        × (counted.has_db ≡ s.has_db)
        × (counted.running ≡ s.running)
  unfolding integrate
  integrate-same now none s = (refl, refl, refl, refl)
  integrate-same now (some bat) s =
      let dt = if ltb 0 s.last_tick_ts then now - s.last_tick_ts else 0 in
      elim (Bool-cases (bat.current_a >F decimal 1 2 && (ltb 0 dt && ltb dt 30))) [
        | inl e ↦
            let go = if_true _ _ e in
            (
              ap all_samples go,
              ap (λ (t : TestRunner F). t.last_telemetry_ts) go,
              ap (λ (t : TestRunner F). t.has_db) go,
              ap (λ (t : TestRunner F). t.running) go,
            )
        | inr e ↦
            let go = if_false _ _ e in
            (
              ap all_samples go,
              ap (λ (t : TestRunner F). t.last_telemetry_ts) go,
              ap (λ (t : TestRunner F). t.has_db) go,
              ap (λ (t : TestRunner F). t.running) go,
            )
      ]

  abbrev id_of : TestRunner F → ℤ
  id_of s = s.current_test_id

  flush_rows-test_id :
      (rows : List (TestTelemetrySample F)) (s : TestRunner F) → id_of (flush_rows rows s) ≡ id_of s
  unfolding flush_rows
  flush_rows-test_id [] s = refl
  flush_rows-test_id (x ∷ xs) s = ground arith

  capture-test_id :
      (now : ℕ) (sample : TestTelemetrySample F) (s : TestRunner F)
      → (capture now sample s).current_test_id ≡ s.current_test_id
  unfolding capture push_sample needs_flush flush_telemetry
  capture-test_id now sample s =
      let pushed : TestRunner F = push_sample now sample s in
      elim (Bool-cases (leb 2 (now - s.last_telemetry_ts))) [
        | inr k ↦ ap id_of (if_false _ _ k)
        | inl k ↦ elim (Bool-cases (needs_flush pushed)) [
          | inr f ↦ ap id_of (if_true _ _ k ∙ if_false _ _ f)
          | inl f ↦
              ap id_of (if_true _ _ k ∙ if_true _ _ f)
              ∙ flush_rows-test_id pushed.telemetry_buffer pushed
        ]
      ]

  -- The same test runs on, and one sample more was taken where the last one is two seconds old.
  abbrev pub Continues : World F → Tick F → TestRunner F → TestRunner F → Type 0
  Continues w t s after =
      let now_ts = tick_time w (valid_only t.bat) in
      (after.running ≡ true)
      × (after.current_test_id ≡ s.current_test_id)
      × ((now_ts < s.last_telemetry_ts + 2) × (all_samples after ≡ all_samples s)
          ⊎ (s.last_telemetry_ts + 2 ≤ now_ts)
            × (all_samples after ≡ all_samples s ++ (sample_of t s ∷ [])))

  -- A tick that goes on.
  continued :
      (w : World F) (t : Tick F) (s : TestRunner F)
      → IsActive s
      → let now_ts = tick_time w (valid_only t.bat) in
        Continues w t s (
          capture now_ts
            (sample_of t s)
            (integrate now_ts (valid_only t.bat) (note_live (valid_only t.bat) t.load_w s)))
  continued w t s h =
      let bat = valid_only t.bat in
      let now_ts = tick_time w bat in
      let live = note_live bat t.load_w s in
      let counted = integrate now_ts bat live in
      let (u, m, b, a1, l1, r1, d1) = live-same w bat t.load_w s in
      let (a2, l2, d2, r2) = integrate-same now_ts bat live in
      let active = integrate-keeps now_ts bat live (note_live-keeps bat t.load_w s h) in
      let same_id = integrate-test_id now_ts bat live ∙ note_live-test_id bat t.load_w s in
      let sample = sample_of t s in
      let named : sample.test_id ≡ counted.current_test_id =
        make_telemetry_sample-test_id s.current_test_id t.bat t.chg t.load_w t.tx_active t.tx_power
        ∙ sym same_id in
      let (still, _, _, _, _) = capture-keeps now_ts sample counted active named in
      (
        still,
        capture-test_id now_ts sample counted ∙ same_id,
        elim (capture_cases now_ts sample counted (d2 ∙ d1 ∙ h.4.0)) [
          | inl (k, e) ↦ inl (omega (arith, l2, l1), e ∙ a2 ∙ a1)
          | inr (k, e) ↦ inr (omega (arith, l2, l1), e ∙ ap (λ r. r ++ (sample ∷ [])) (a2 ∙ a1))
        ],
      )

  -- A tick of a running test, in a state that the invariant allows, ends it just when a safety
  -- limit is broken or its longest duration is reached; otherwise the same test goes on, and one
  -- sample is taken if the last one is two seconds old or older. No sample taken before is lost,
  -- doubled or reordered in either case.
  pub on_telemetry_tick_cases :
      (w : World F) (t : Tick F) (s : TestRunner F)
      → IsActive s
      → let after = on_telemetry_tick w t s in
        (is_over w t s ≡ true) × IsIdle after × (all_samples after ≡ all_samples s)
        ⊎ (is_over w t s ≡ false) × Continues w t s after
  unfolding on_telemetry_tick supervise is_over
  on_telemetry_tick_cases w t s (r, q, i, n, (db, own, p)) =
      let h : IsActive s = (r, q, i, n, (db, own, p)) in
      let bat = valid_only t.bat in
      let live = note_live bat t.load_w s in
      let (u, m, b, a1, l1, r1, d1) = live-same w bat t.load_w s in
      let due = λ (x : TestRunner F).
        leb_ℤ x.limits.max_duration_sec (pos (tick_time w bat) -ℤ pos x.test_start_ts) in
      let same_due : due live ≡ due s = ap₂ (λ k b. leb_ℤ k (pos (tick_time w bat) -ℤ pos b)) m b in
      let on : not s.running || is_zero s.current_test_id ≡ false =
        ground (arith, positive-nonzero s.current_test_id i) in
      let opened : on_telemetry_tick w t s ≡ supervise w t s = if_false _ _ on ∙ if_false _ _ q in
      let alive = note_live-keeps bat t.load_w s h in
      let ended = λ (why : String). finish_test w "aborted" (reason why) live in
      let over : (why : String)
          → on_telemetry_tick w t s ≡ ended why
          → IsIdle (on_telemetry_tick w t s)
            × (all_samples (on_telemetry_tick w t s) ≡ all_samples s) =
        λ why e. (
          subst IsIdle (sym e) (finish_test-IsIdle w "aborted" (reason why) live alive),
          ap all_samples e
              ∙ finish_test-samples w "aborted" (reason why) live (r1 ∙ r) (d1 ∙ db)
              ∙ a1,
        ) in
      elim (Bool-cases (is_unsafe w bat live)) [
        | inl e ↦
            let (x, y) = over "safety_limits" (opened ∙ if_true _ _ e) in
            inl (ap (λ z. z || due s) (sym u ∙ e), x, y)
        | inr e ↦ elim (Bool-cases (due live)) [
          | inl f ↦
              let (x, y) = over "max_duration" (opened ∙ if_false _ _ e ∙ if_true _ _ f) in
              inl (ap₂ ◌||◌ (sym u ∙ e) (sym same_due ∙ f), x, y)
          | inr f ↦
              let go = opened ∙ if_false _ _ e ∙ if_false _ _ f in
              inr (
                ap₂ ◌||◌ (sym u ∙ e) (sym same_due ∙ f),
                subst (Continues w t s) (sym go) (continued w t s h),
              )
        ]
      ]

  -- Where the longest duration is zero or negative, every tick of a running test, in a state that
  -- the invariant allows, ends it, unless the reading is older than the test.
  pub on_telemetry_tick-no_limit :
      (w : World F) (t : Tick F) (s : TestRunner F)
      → IsActive s
      → leb_ℤ s.limits.max_duration_sec (pos 0) ≡ true
      → s.test_start_ts ≤ tick_time w (valid_only t.bat)
      → IsIdle (on_telemetry_tick w t s)
  unfolding is_over
  on_telemetry_tick-no_limit w t s h low later = elim (on_telemetry_tick_cases w t s h) [
    | inl (e, idle, kept) ↦ idle
    | inr (e, go) ↦ absurd (ground (arith, e, low, later))
  ]
