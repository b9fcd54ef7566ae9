-- ===== src/Runner/Steps/Stop.antt =====
-- src/testing/runner.cpp, `stop_test`: what becomes of the test that ran and of its telemetry.
use limonitor.Common.{
  ◌≡◌, sym, ap, ◌∙◌, inl, inr, ◌++◌, true, false, not, ◌||◌, arith, if_true, if_false, append-nil,
}
use limonitor.Double.{Double}
use limonitor.Runner.Steps.{TestRunner, World, is_zero, reason}
use limonitor.Runner.Steps.Supervise.{on_telemetry_tick, stop_test}
use limonitor.Runner.Steps.Finish.{IsIdle, IsWell}
use limonitor.Runner.Steps.Invariant.{positive-nonzero, stop_test-IsIdle}
use limonitor.Runner.Steps.Samples.{telemetry_rows, all_samples, finish_test-samples}

module _ {F : Type 0} ⦃d : Double F⦄ where
  stop_test-samples :
      (w : World F) (s : TestRunner F) → IsWell s → all_samples (stop_test w s) ≡ all_samples s
  unfolding stop_test on_telemetry_tick
  stop_test-samples w s (inr (r, q, z, b, p)) = ap all_samples (if_false _ _ r)
  stop_test-samples w s (inl (r, q, i, n, (db, own, p))) =
      let asked : TestRunner F = record s { stop_requested = true } in
      let on : not s.running || is_zero s.current_test_id ≡ false =
        ground (arith, positive-nonzero s.current_test_id i) in
      ap all_samples (if_true _ _ r ∙ if_false _ _ on)
      ∙ finish_test-samples w "aborted" (reason "user_stop") asked r db

  -- After a request to stop, in whatever state that the invariant allows it comes: no test runs, none is
  -- open in the database, and the telemetry rows in the database are those that were there, followed by
  -- the samples that were held back, in order and each once.
  pub stop_test-IsWritten :
      (w : World F) (s : TestRunner F)
      → IsWell s
      → IsIdle (stop_test w s)
        × (telemetry_rows (stop_test w s).writes ≡ telemetry_rows s.writes ++ s.telemetry_buffer)
  stop_test-IsWritten w s h =
      let (r, q, z, b, p) = stop_test-IsIdle w s h in
      (
        (r, q, z, b, p),
        sym (append-nil (telemetry_rows (stop_test w s).writes))
            ∙ ap (◌++◌ (telemetry_rows (stop_test w s).writes)) (sym b)
            ∙ stop_test-samples w s h,
      )
