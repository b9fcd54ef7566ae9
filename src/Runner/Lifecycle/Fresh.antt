-- ===== src/Runner/Lifecycle/Fresh.antt =====
-- What a new runner comes to.
use limonitor.Common.{
  ℕ, ◌≡◌, refl, ap, ◌⊎◌, inl, inr, Bool, true, false, not, ◌||◌, List, if_true, if_false, arith,
  ◌&&◌, [], ◌∷◌, subst, if◌then◌else◌,
}
use limonitor.Common.Int.{pos, ltb_ℤ}
use limonitor.Double.{Double}
use limonitor.Runner.Steps.{Write, abort_interrupted_tests, TestRunner, World, is_zero}
use limonitor.Runner.Steps.Supervise.{Action, run}
use limonitor.Runner.Steps.Finish.{nothing, recovered, IsIdle, IsWell}
use limonitor.Runner.Steps.Log.{Extends, run-Extends}
use limonitor.Runner.Steps.Invariant.{run-IsWell, positive-nonzero}
use limonitor.Runner.Lifecycle.{
  Settings, ActiveStats, new_runner, blank_runner, no_stats, active_stats,
}

module _ {F : Type 0} ⦃d : Double F⦄ where
  new_runner-IsIdle :
      (has_db is_open : Bool) (db : Settings F) → IsIdle (new_runner has_db is_open db)
  unfolding new_runner blank_runner
  new_runner-IsIdle true true db = (refl, refl, refl, refl, recovered)
  new_runner-IsIdle true false db = (refl, refl, refl, refl, nothing)
  new_runner-IsIdle false is_open db = (refl, refl, refl, refl, nothing)

  -- What `active_stats` shows of a state: the id of the running test, which is positive, or the default.
  abbrev pub IsShown : ℕ → TestRunner F → Type 0
  IsShown now s =
      (s.running ≡ true)
        × (ltb_ℤ (pos 0) s.current_test_id ≡ true)
        × ((active_stats now s).test_id ≡ s.current_test_id)
      ⊎ (s.running ≡ false) × (active_stats now s ≡ no_stats)

  shown : (now : ℕ) (s : TestRunner F) → IsWell s → IsShown now s
  unfolding active_stats
  shown now s (inl (r, q, i, n, o)) =
      let on : not s.running || is_zero s.current_test_id ≡ false =
        ground (arith, r, positive-nonzero s.current_test_id i) in
      inl (r, i, ap (λ (t : ActiveStats F). t.test_id) (if_false _ _ on))
  shown now s (inr (r, q, i, b, p)) =
      let off : not s.running || is_zero s.current_test_id ≡ true = ground (arith, r) in
      inr (r, if_true _ _ off)

  -- What a constructor has to write: that the interrupted tests are over, where the database is open.
  abbrev pub recovery : Bool → List (Write F)
  recovery is_open = if is_open then abort_interrupted_tests ∷ [] else []

  new_runner-writes :
      (has_db is_open : Bool) (db : Settings F)
      → (new_runner has_db is_open db).writes ≡ recovery (has_db && is_open)
  unfolding new_runner blank_runner
  new_runner-writes true true db = refl
  new_runner-writes true false db = refl
  new_runner-writes false is_open db = refl

  -- Whatever settings and calls come, a new runner keeps the invariant of a runner: one test at most is
  -- open in the database, and the stop requests, the samples held back and the order of the writes are as
  -- it says. If there was a database and it was open at the start, the first of all writes closes the
  -- interrupted tests. The figures of the active test show a positive id while a test runs and their
  -- defaults while none does.
  pub run-new_runner-IsShown :
      (has_db is_open : Bool) (db : Settings F) (calls : List (World F × Action F)) (now : ℕ)
      → let s = run calls (new_runner has_db is_open db) in
        IsWell s × IsShown now s × Extends (recovery (has_db && is_open)) s.writes
  run-new_runner-IsShown has_db is_open db calls now =
      let fresh = new_runner has_db is_open db in
      let well = run-IsWell calls fresh (inr (new_runner-IsIdle has_db is_open db)) in
      (
        well,
        shown now _ well,
        subst (λ ws. Extends ws (run calls fresh).writes) (new_runner-writes has_db is_open db)
            (run-Extends calls fresh),
      )
