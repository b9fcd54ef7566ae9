-- ===== src/Runner/Steps/Samples.antt =====
-- When a tick ends a test, and what becomes of the telemetry.
use limonitor.Common.{
  ℕ, ◌+◌, ◌-◌, ◌≤◌, ◌<◌, ◌≡◌, refl, sym, ap, ◌∙◌, ◌⊎◌, inl, inr, true, false, List, [], ◌∷◌, ◌++◌,
  String, arith, leb, if_true, if_false, Bool-cases, append-nil, append_assoc,
}
use limonitor.Common.Int.{pos}
use limonitor.Double.{Double}
use limonitor.Runner.Types.{TestTelemetrySample}
use limonitor.Runner.Steps.{
  Metadata, Write, insert_test_run, update_test_run, insert_telemetry, insert_capacity_test,
  abort_interrupted_tests, World, TestRunner, write, duration,
}
use limonitor.Runner.Steps.Supervise.{
  flush_rows, flush_telemetry, conclude, finish_running, finish_test, push_sample, needs_flush,
  capture,
}
use limonitor.Runner.Steps.Finish.{conclude_cases}

module _ {F : Type 0} ⦃d : Double F⦄ where
  abbrev pub rows_of : Write F → List (TestTelemetrySample F)
  rows_of (insert_test_run id type t soc volts) = []
  rows_of (update_test_run id t secs result meta) = []
  rows_of (insert_telemetry rows) = rows
  rows_of abort_interrupted_tests = []
  rows_of (insert_capacity_test t wh from to energy health id) = []

  -- The telemetry rows that were written, in order.
  unfoldable pub telemetry_rows : List (Write F) → List (TestTelemetrySample F)
  telemetry_rows [] = []
  telemetry_rows (w ∷ ws) = rows_of w ++ telemetry_rows ws

  -- The samples written or still held back.
  abbrev pub all_samples : TestRunner F → List (TestTelemetrySample F)
  all_samples s = telemetry_rows s.writes ++ s.telemetry_buffer

  telemetry_rows-snoc :
      (ws : List (Write F)) (w : Write F)
      → telemetry_rows (ws ++ (w ∷ [])) ≡ telemetry_rows ws ++ rows_of w
  unfolding telemetry_rows
  telemetry_rows-snoc [] w = append-nil (rows_of w)
  telemetry_rows-snoc (v ∷ ws) w =
      ap (◌++◌ (rows_of v)) (telemetry_rows-snoc ws w) ∙ sym (append_assoc (rows_of v) _ _)

  -- A write that is no telemetry changes no samples.
  write-samples :
      (w : Write F) (s : TestRunner F) → rows_of w ≡ [] → all_samples (write w s) ≡ all_samples s
  write-samples w s e = elim (Bool-cases s.has_db) [
    | inl db ↦
        ap all_samples (if_true _ _ db)
        ∙ ap (λ r. r ++ s.telemetry_buffer)
            (telemetry_rows-snoc s.writes w ∙ ap (◌++◌ (telemetry_rows s.writes)) e ∙ append-nil _)
    | inr db ↦ ap all_samples (if_false _ _ db)
  ]

  flush_rows-samples :
      (rows : List (TestTelemetrySample F)) (s : TestRunner F)
      → s.has_db ≡ true
      → s.telemetry_buffer ≡ rows
      → all_samples (flush_rows rows s) ≡ all_samples s
  unfolding flush_rows
  flush_rows-samples [] s db e = refl
  flush_rows-samples (x ∷ xs) s db e =
      ap (λ (t : TestRunner F). telemetry_rows t.writes ++ []) (if_true _ _ db)
      ∙ append-nil _
      ∙ telemetry_rows-snoc s.writes (insert_telemetry (x ∷ xs))
      ∙ ap (◌++◌ (telemetry_rows s.writes)) (sym e)

  pub finish_test-samples :
      (w : World F) (result : String) (meta : Metadata F) (s : TestRunner F)
      → s.running ≡ true
      → s.has_db ≡ true
      → all_samples (finish_test w result meta s) ≡ all_samples s
  unfolding finish_test finish_running flush_telemetry
  finish_test-samples w result meta s r db =
      let halted : TestRunner F = record s { running = false; current_test_id = pos 0 } in
      let flushed = flush_rows s.telemetry_buffer halted in
      let done = conclude w meta flushed in
      let last =
        update_test_run s.current_test_id w.now (duration s.test_start_ts w.now) result done.1 in
      let kept : all_samples done.0 ≡ all_samples flushed = elim (conclude_cases w meta flushed) [
        | inl e ↦ ap all_samples e
        | inr (t, wh, from, to, energy, health, e) ↦ ap all_samples e ∙ write-samples _ flushed refl
      ] in
      ap all_samples (if_true _ _ r)
      ∙ write-samples last done.0 refl
      ∙ kept
      ∙ flush_rows-samples s.telemetry_buffer halted db refl

  pub capture_cases :
      (now : ℕ) (sample : TestTelemetrySample F) (s : TestRunner F)
      → s.has_db ≡ true
      → let after = capture now sample s in
        (now < s.last_telemetry_ts + 2) × (all_samples after ≡ all_samples s)
        ⊎ (s.last_telemetry_ts + 2 ≤ now) × (all_samples after ≡ all_samples s ++ (sample ∷ []))
  unfolding capture push_sample needs_flush flush_telemetry
  capture_cases now sample s db =
      let pushed : TestRunner F = push_sample now sample s in
      let grown : all_samples pushed ≡ all_samples s ++ (sample ∷ []) =
        sym (append_assoc (telemetry_rows s.writes) s.telemetry_buffer (sample ∷ [])) in
      elim (Bool-cases (leb 2 (now - s.last_telemetry_ts))) [
        | inr k ↦ inl (ground arith, ap all_samples (if_false _ _ k))
        | inl k ↦ elim (Bool-cases (needs_flush pushed)) [
          | inr f ↦ inr (ground arith, ap all_samples (if_true _ _ k ∙ if_false _ _ f) ∙ grown)
          | inl f ↦ inr (
            ground arith,
            ap all_samples (if_true _ _ k ∙ if_true _ _ f)
                ∙ flush_rows-samples pushed.telemetry_buffer pushed db refl
                ∙ grown,
          )
        ]
      ]
