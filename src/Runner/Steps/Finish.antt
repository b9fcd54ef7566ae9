-- ===== src/Runner/Steps/Finish.antt =====
-- What the runner writes, and that finishing a test closes it.
use limonitor.Common.{
  ℕ, ◌<◌, ◌≡◌, refl, sym, ap, subst, ◌∙◌, ◌⊎◌, inl, inr, true, false, ◌&&◌, List, [], ◌∷◌, ◌++◌,
  Option, none, some, String, ltb, if_true, if_false, Bool-cases, length, All,
}
use limonitor.Common.Int.{ℤ, pos, ltb_ℤ}
use limonitor.Double.{Double, ◌-F◌, ◌>F◌, decimal}
use limonitor.Runner.Types.{TestTelemetrySample}
use limonitor.Runner.Steps.{
  Metadata, Write, insert_test_run, update_test_run, insert_telemetry, insert_capacity_test,
  abort_interrupted_tests, World, TestRunner, batch_size, write, valid_only, is_capacity, duration,
}
use limonitor.Runner.Steps.Supervise.{
  soc_end_of, flush_rows, flush_telemetry, conclude, finish_running,
}

-- What a sequence of writes may look like, with the test that is open after it: a test is inserted only
-- when none is open, its telemetry carries its id, and it is closed before the next one.
pub data Protocol {F : Type 0} : List (Write F) → Option ℤ → Type 0 where
  nothing : Protocol [] none
  recovered : Protocol (abort_interrupted_tests ∷ []) none
  opened :
      {ws : List (Write F)} (id : ℤ) (type : String) (t : ℕ) (soc volts : F)
      → Protocol ws none
      → Protocol (ws ++ (insert_test_run id type t soc volts ∷ [])) (some id)
  sampled :
      {ws : List (Write F)} (id : ℤ) (rows : List (TestTelemetrySample F))
      → Protocol ws (some id)
      → All (λ r. r.test_id ≡ id) rows
      → Protocol (ws ++ (insert_telemetry rows ∷ [])) (some id)
  measured :
      {ws : List (Write F)} (id : ℤ) (t : ℕ) (wh from to energy health : F)
      → Protocol ws (some id)
      → Protocol (ws ++ (insert_capacity_test t wh from to energy health (pos 0) ∷ [])) (some id)
  closed :
      {ws : List (Write F)} (id : ℤ) (t : ℕ) (secs : ℤ) (result : String) (meta : Metadata F)
      → Protocol ws (some id)
      → Protocol (ws ++ (update_test_run id t secs result meta ∷ [])) none

module _ {F : Type 0} ⦃d : Double F⦄ where
  abbrev pub CarryId : ℤ → List (TestTelemetrySample F) → Type 0
  CarryId id rows = All (λ r. r.test_id ≡ id) rows

  -- A test is under way, apart from the request to stop and the size of the buffer.
  abbrev pub IsOpen : ℤ → TestRunner F → Type 0
  IsOpen id s = (s.has_db ≡ true) × CarryId id s.telemetry_buffer × Protocol s.writes (some id)

  abbrev pub IsActive : TestRunner F → Type 0
  IsActive s =
      (s.running ≡ true)
      × (s.stop_requested ≡ false)
      × (ltb_ℤ (pos 0) s.current_test_id ≡ true)
      × (length s.telemetry_buffer < batch_size)
      × IsOpen s.current_test_id s

  abbrev pub IsIdle : TestRunner F → Type 0
  IsIdle s =
      (s.running ≡ false)
      × (s.stop_requested ≡ false)
      × (s.current_test_id ≡ pos 0)
      × (s.telemetry_buffer ≡ [])
      × Protocol s.writes none

  abbrev pub IsWell : TestRunner F → Type 0
  IsWell s = IsActive s ⊎ IsIdle s

  pub flush_rows-IsOpen :
      (id : ℤ) (rows : List (TestTelemetrySample F)) (s : TestRunner F)
      → s.has_db ≡ true
      → CarryId id rows
      → Protocol s.writes (some id)
      → s.telemetry_buffer ≡ rows
      → let t = flush_rows rows s in
        (t.has_db ≡ true)
        × (t.telemetry_buffer ≡ [])
        × Protocol t.writes (some id)
        × (t.running ≡ s.running)
        × (t.current_test_id ≡ s.current_test_id)
        × (t.stop_requested ≡ s.stop_requested)
  unfolding flush_rows
  flush_rows-IsOpen id [] s db own p e = (db, e, p, refl, refl, refl)
  flush_rows-IsOpen id (x ∷ xs) s db own p e =
      let written : write (insert_telemetry (x ∷ xs)) s
          ≡ record s { writes = s.writes ++ (insert_telemetry (x ∷ xs) ∷ []) } =
        if_true _ _ db in
      (
        ap (λ t. t.has_db) written ∙ db,
        refl,
        subst (λ t. Protocol t.writes (some id)) (sym written) (sampled id (x ∷ xs) p own),
        ap (λ t. t.running) written,
        ap (λ t. t.current_test_id) written,
        ap (λ t. t.stop_requested) written,
      )

  abbrev pub first : TestRunner F × Metadata F → TestRunner F
  first r = r.0

  pub conclude_cases :
      (w : World F) (meta : Metadata F) (s : TestRunner F)
      → ((conclude w meta s).0 ≡ s)
        ⊎ (t : ℕ) × (wh : F) × (from : F) × (to : F) × (energy : F) × (health : F) × ((conclude w
              meta s).0
            ≡ write (insert_capacity_test t wh from to energy health s.current_test_id) s)
  unfolding conclude
  conclude_cases w meta s =
      elim (Bool-cases (is_capacity s.current_test_type && ltb 0 s.load_sample_count)) [
        | inl e ↦
            elim (Bool-cases (s.soc_at_start -F soc_end_of (valid_only w.latest) >F decimal 1 0)) [
              | inl f ↦ inr (w.now, _, _, _, _, _, ap first (if_true _ _ e ∙ if_true _ _ f))
              | inr f ↦ inl (ap first (if_true _ _ e ∙ if_false _ _ f))
            ]
        | inr e ↦ inl (ap first (if_false _ _ e))
      ]

  conclude-IsOpen :
      (id : ℤ) (w : World F) (meta : Metadata F) (s : TestRunner F)
      → s.has_db ≡ true
      → s.current_test_id ≡ pos 0
      → Protocol s.writes (some id)
      → let t = (conclude w meta s).0 in
        (t.has_db ≡ true)
        × (t.current_test_id ≡ pos 0)
        × (t.running ≡ s.running)
        × (t.telemetry_buffer ≡ s.telemetry_buffer)
        × Protocol t.writes (some id)
  conclude-IsOpen id w meta s db z p = elim (conclude_cases w meta s) [
    | inl e ↦
        subst
          (λ t.
            (t.has_db ≡ true)
            × (t.current_test_id ≡ pos 0)
            × (t.running ≡ s.running)
            × (t.telemetry_buffer ≡ s.telemetry_buffer)
            × Protocol t.writes (some id))
          (sym e) (db, z, refl, refl, p)
    | inr (t, wh, from, to, energy, health, e) ↦
        let row = insert_capacity_test t wh from to energy health in
        let grown : Protocol (s.writes ++ (row s.current_test_id ∷ [])) (some id) =
          subst (λ i. Protocol (s.writes ++ (row i ∷ [])) (some id)) (sym z)
            (measured id t wh from to energy health p) in
        subst
          (λ t.
            (t.has_db ≡ true)
            × (t.current_test_id ≡ pos 0)
            × (t.running ≡ s.running)
            × (t.telemetry_buffer ≡ s.telemetry_buffer)
            × Protocol t.writes (some id))
          (sym (e ∙ if_true _ _ db)) (db, z, refl, refl, grown)
  ]

  pub finish_running-IsIdle :
      (w : World F) (result : String) (meta : Metadata F) (s : TestRunner F)
      → IsOpen s.current_test_id s
      → IsIdle (finish_running w result meta s)
  unfolding finish_running flush_telemetry
  finish_running-IsIdle w result meta s (db, own, p) =
      let id = s.current_test_id in
      let halted : TestRunner F = record s { running = false; current_test_id = pos 0 } in
      let (db1, empty, p1, r1, i1, q1) =
        flush_rows-IsOpen id s.telemetry_buffer halted db own p refl in
      let flushed = flush_rows s.telemetry_buffer halted in
      let (db2, i2, r2, b2, p2) = conclude-IsOpen id w meta flushed db1 i1 p1 in
      let done = conclude w meta flushed in
      let last = update_test_run id w.now (duration s.test_start_ts w.now) result done.1 in
      let e : write last done.0 ≡ record (done.0) { writes = done.0.writes ++ (last ∷ []) } =
        if_true _ _ db2 in
      (
        ap (λ t. t.running) e ∙ r2 ∙ r1,
        refl,
        ap (λ t. t.current_test_id) e ∙ i2,
        ap (λ t. t.telemetry_buffer) e ∙ b2 ∙ empty,
        subst (λ t. Protocol t.writes none) (sym e) (closed id _ _ _ _ p2),
      )
