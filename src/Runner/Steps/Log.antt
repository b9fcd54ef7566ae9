-- ===== src/Runner/Steps/Log.antt =====
-- src/testing/runner.cpp: how the writes of a runner follow one another.
use limonitor.Common.{
  ℕ, ◌≡◌, refl, sym, ap, ◌∙◌, inl, inr, Bool, true, false, List, [], ◌∷◌, ◌++◌, Option, none, some,
  String, arith, subst, if◌then◌else◌, append-nil, append_assoc,
}
use limonitor.Common.Int.{ℤ, pos, leb_ℤ, ◌-ℤ◌}
use limonitor.Double.{Double, decimal}
use limonitor.Battery.{BatterySnapshot}
use limonitor.Runner.Types.{TestType, test_type_str, TestTelemetrySample}
use limonitor.Runner.Steps.{
  Metadata, Write, insert_test_run, update_test_run, insert_telemetry, World, TestRunner, write,
  begin_test, start_test, duration, reason, valid_only,
}
use limonitor.Runner.Steps.Supervise.{
  Action, start, tick, stop, Tick, flush_rows, flush_telemetry, conclude, finish_running,
  finish_test, is_unsafe, tick_time, note_live, integrate, push_sample, needs_flush, capture,
  supervise, on_telemetry_tick, stop_test, act, run,
}
use limonitor.Runner.Steps.Finish.{conclude_cases}
use limonitor.Runner.Steps.Start.{accepted, start_test-accepted}

module _ {F : Type 0} ⦃d : Double F⦄ where
  -- Later writes come behind the earlier ones.
  abbrev pub Extends : List (Write F) → List (Write F) → Type 0
  Extends old new = (more : List (Write F)) × (new ≡ old ++ more)

  record Grows (s t : TestRunner F) : Type 0 where
    extends : Extends s.writes t.writes

  same : (s t : TestRunner F) → t.writes ≡ s.writes → Grows s t
  same s t e = record { extends = ([], e ∙ sym (append-nil s.writes)) }

  chain : (s t u : TestRunner F) → Grows s t → Grows t u → Grows s u
  chain s t u g h =
      let (a, e) = g.extends in
      let (b, f) = h.extends in
      record { extends = (a ++ b, f ∙ ap (λ ws. ws ++ b) e ∙ append_assoc s.writes a b) }

  -- From a state with the same writes to another one.
  moved :
      (s s' t t' : TestRunner F)
      → s'.writes ≡ s.writes
      → t.writes ≡ t'.writes
      → Grows s' t'
      → Grows s t
  moved s s' t t' e f g =
      let (more, h) = g.extends in record { extends = (more, f ∙ h ∙ ap (λ ws. ws ++ more) e) }

  grown : (s : TestRunner F) (w : Write F) → Grows s (record s { writes = s.writes ++ (w ∷ []) })
  grown s w = record { extends = (w ∷ [], refl) }

  pick : (b : Bool) (s t u : TestRunner F) → Grows s t → Grows s u → Grows s (if b then t else u)
  pick true s t u g h = g
  pick false s t u g h = h

  write-Grows : (w : Write F) (s : TestRunner F) → Grows s (write w s)
  write-Grows w s = pick s.has_db s _ s (grown s w) (same s s refl)

  flush_rows-Grows :
      (rows : List (TestTelemetrySample F)) (s : TestRunner F) → Grows s (flush_rows rows s)
  unfolding flush_rows
  flush_rows-Grows [] s = same s s refl
  flush_rows-Grows (x ∷ xs) s =
      moved s s (flush_rows (x ∷ xs) s) (write (insert_telemetry (x ∷ xs)) s) refl refl
        (write-Grows (insert_telemetry (x ∷ xs)) s)

  conclude-Grows :
      (w : World F) (meta : Metadata F) (s : TestRunner F) → Grows s (conclude w meta s).0
  conclude-Grows w meta s = elim (conclude_cases w meta s) [
    | inl e ↦ same s (conclude w meta s).0 (ap (λ (t : TestRunner F). t.writes) e)
    | inr (t, wh, from, to, energy, health, e) ↦ subst (Grows s) (sym e) (write-Grows _ s)
  ]

  finish_test-Grows :
      (w : World F) (result : String) (meta : Metadata F) (s : TestRunner F)
      → Grows s (finish_test w result meta s)
  unfolding finish_test finish_running flush_telemetry
  finish_test-Grows w result meta s =
      let halted : TestRunner F = record s { running = false; current_test_id = pos 0 } in
      let flushed = flush_rows s.telemetry_buffer halted in
      let done = conclude w meta flushed in
      let last =
        update_test_run s.current_test_id w.now (duration s.test_start_ts w.now) result done.1 in
      pick s.running s (finish_running w result meta s) s
        (moved s s (finish_running w result meta s) (write last done.0) refl refl (
          chain s done.0 (write last done.0)
            (chain s flushed done.0
              (moved s halted flushed flushed refl refl
                (flush_rows-Grows s.telemetry_buffer halted))
              (conclude-Grows w meta flushed))
            (write-Grows last done.0)))
        (same s s refl)

  capture-Grows :
      (now : ℕ) (sample : TestTelemetrySample F) (s : TestRunner F) → Grows s (capture now sample s)
  unfolding capture push_sample flush_telemetry
  capture-Grows now sample s =
      let pushed : TestRunner F = push_sample now sample s in
      pick _ s (if needs_flush pushed then flush_telemetry pushed else pushed) s
        (pick (needs_flush pushed) s (flush_telemetry pushed) pushed
          (moved s pushed (flush_telemetry pushed) (flush_telemetry pushed) refl refl
            (flush_rows-Grows pushed.telemetry_buffer pushed))
          (same s pushed refl))
        (same s s refl)

  live-writes :
      (bat : Option (BatterySnapshot F)) (load_w : F) (s : TestRunner F)
      → (note_live bat load_w s).writes ≡ s.writes
  unfolding note_live
  live-writes none load_w s = refl
  live-writes (some bat) load_w s = refl

  integrate-writes :
      (now : ℕ) (bat : Option (BatterySnapshot F)) (s : TestRunner F)
      → (integrate now bat s).writes ≡ s.writes
  unfolding integrate
  integrate-writes now none s = refl
  integrate-writes now (some bat) s = ground arith

  supervise-Grows : (w : World F) (t : Tick F) (s : TestRunner F) → Grows s (supervise w t s)
  unfolding supervise
  supervise-Grows w t s =
      let bat = valid_only t.bat in
      let now_ts = tick_time w bat in
      let live = note_live bat t.load_w s in
      let counted = integrate now_ts bat live in
      let lived : Grows s live = same s live (live-writes bat t.load_w s) in
      let ended = λ (why : String).
        chain s live (finish_test w "aborted" (reason why) live) lived
          (finish_test-Grows w "aborted" (reason why) live) in
      pick (is_unsafe w bat live) s _ _ (ended "safety_limits") (
        pick (leb_ℤ live.limits.max_duration_sec (pos now_ts -ℤ pos live.test_start_ts)) s _ _
          (ended "max_duration")
          (chain s counted _
            (same s counted (integrate-writes now_ts bat live ∙ live-writes bat t.load_w s))
            (capture-Grows now_ts _ counted)))

  on_telemetry_tick-Grows :
      (w : World F) (t : Tick F) (s : TestRunner F) → Grows s (on_telemetry_tick w t s)
  unfolding on_telemetry_tick
  on_telemetry_tick-Grows w t s =
      pick _ s s _ (same s s refl)
        (pick s.stop_requested s _ _ (finish_test-Grows w _ _ s) (supervise-Grows w t s))

  stop_test-Grows : (w : World F) (s : TestRunner F) → Grows s (stop_test w s)
  unfolding stop_test
  stop_test-Grows w s =
      let asked : TestRunner F = record s { stop_requested = true } in
      let none_tick : Tick F = record {
        bat = none;
        chg = none;
        load_w = decimal 0 0;
        tx_active = false;
        tx_power = decimal 0 0;
      } in
      let after = on_telemetry_tick w none_tick asked in
      pick s.running s after s
        (moved s asked after after refl refl (on_telemetry_tick-Grows w none_tick asked))
        (same s s refl)

  accepted-Grows :
      (w : World F) (type : TestType) (bat : BatterySnapshot F) (s : TestRunner F)
      → Grows s (accepted w type bat s)
  unfolding begin_test
  accepted-Grows w type bat s =
      let row =
        insert_test_run w.row_id (test_type_str type) bat.timestamp bat.soc_pct
          bat.total_voltage_v in
      moved s s (accepted w type bat s) (write row s) refl refl (write-Grows row s)

  start_test-Grows :
      (w : World F) (type : TestType) (s : TestRunner F) → Grows s (start_test w type s).0
  start_test-Grows w type s = elim (start_test-accepted w type s) [
    | inl (refused, e) ↦
        same s (start_test w type s).0 (ap (λ (r : TestRunner F × ℤ). r.0.writes) e)
    | inr (granted, bat, l, e) ↦
        subst (Grows s) (sym (ap (λ (r : TestRunner F × ℤ). r.0) e)) (accepted-Grows w type bat s)
  ]

  act-Grows : (w : World F) (a : Action F) (s : TestRunner F) → Grows s (act w a s)
  unfolding act
  act-Grows w (start type) s = start_test-Grows w type s
  act-Grows w (tick t) s = on_telemetry_tick-Grows w t s
  act-Grows w stop s = stop_test-Grows w s

  run-Grows : (calls : List (World F × Action F)) (s : TestRunner F) → Grows s (run calls s)
  unfolding run
  run-Grows [] s = same s s refl
  run-Grows ((w, a) ∷ rest) s =
      chain s (act w a s) (run rest (act w a s)) (act-Grows w a s) (run-Grows rest (act w a s))

  -- Whatever starts, ticks and stops come, nothing that was written is lost or changes its place.
  pub run-Extends :
      (calls : List (World F × Action F)) (s : TestRunner F) → Extends s.writes (run calls s).writes
  run-Extends calls s = (run-Grows calls s).extends
