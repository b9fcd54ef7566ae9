-- ===== src/Store/Buffer/Order.antt =====
-- No row is lost, doubled or reordered on its way to the database.
use limonitor.Common.{
  ℕ, ◌-◌, ◌≡◌, refl, sym, ap, ◌∙◌, true, false, List, [], ◌∷◌, ◌++◌, arith, append-nil,
  append_assoc, if◌then◌else◌, if_true, if_false, Bool-cases, ◌⊎◌, inl, inr, ◌||◌,
}
use limonitor.Common.Int.{pos, leb_ℤ}
use limonitor.Battery.{BatterySnapshot, PwrGateSnapshot}
use limonitor.Store.Buffer.{
  Buffers, Call, battery, charger, flush, write_batches, time_to_flush, maybe_flush_db, flush_db,
  note_battery, note_charger, call, run,
}

module _ {F : Type 0} where
  -- All rows, written or still buffered, in the order of the calls.
  abbrev pub battery_rows : Buffers F → List (BatterySnapshot F)
  battery_rows b = b.db_battery ++ b.battery_buffer

  abbrev pub charger_rows : Buffers F → List (PwrGateSnapshot F)
  charger_rows b = b.db_charger ++ b.charger_buffer

  -- The rows that a sequence of calls hands over.
  unfoldable pub batteries : List (ℕ × Call F) → List (BatterySnapshot F)
  batteries [] = []
  batteries ((now, battery snap) ∷ cs) = snap ∷ batteries cs
  batteries ((now, charger snap) ∷ cs) = batteries cs
  batteries ((now, flush) ∷ cs) = batteries cs

  unfoldable pub chargers : List (ℕ × Call F) → List (PwrGateSnapshot F)
  chargers [] = []
  chargers ((now, battery snap) ∷ cs) = chargers cs
  chargers ((now, charger snap) ∷ cs) = snap ∷ chargers cs
  chargers ((now, flush) ∷ cs) = chargers cs

  -- A flush moves rows and keeps their order.
  abbrev SameRows : Buffers F → Buffers F → Type 0
  SameRows b c =
      (battery_rows b ≡ battery_rows c) × (charger_rows b ≡ charger_rows c) × (b.has_db ≡ c.has_db)

  write_batches-SameRows : (now : ℕ) (b : Buffers F) → SameRows (write_batches now b) b
  unfolding write_batches
  write_batches-SameRows now b = (append-nil _, append-nil _, refl)

  maybe_flush_db-SameRows : (now : ℕ) (b : Buffers F) → SameRows (maybe_flush_db now b) b
  unfolding maybe_flush_db
  maybe_flush_db-SameRows now b = ground (arith, write_batches-SameRows now b)

  flush_db-SameRows : (now : ℕ) (b : Buffers F) → SameRows (flush_db now b) b
  unfolding flush_db
  flush_db-SameRows now b = ground (arith, write_batches-SameRows now b)

  call-rows :
      (now : ℕ) (c : Call F) (b : Buffers F)
      → b.has_db ≡ true
      → (battery_rows (call now c b) ≡ battery_rows b ++ batteries ((now, c) ∷ []))
        × (charger_rows (call now c b) ≡ charger_rows b ++ chargers ((now, c) ∷ []))
        × ((call now c b).has_db ≡ true)
  unfolding call note_battery note_charger batteries chargers
  call-rows now (battery snap) b db =
      let more : Buffers F = record b { battery_buffer = b.battery_buffer ++ (snap ∷ []) } in
      let (x, y, z) = maybe_flush_db-SameRows now more in
      let e : note_battery now false snap b ≡ maybe_flush_db now more = if_true _ _ db in
      (
        ap battery_rows e ∙ x ∙ sym (append_assoc b.db_battery b.battery_buffer (snap ∷ [])),
        ap charger_rows e ∙ y ∙ sym (append-nil _),
        ap (λ c. c.has_db) e ∙ z ∙ db,
      )
  call-rows now (charger snap) b db =
      let more : Buffers F = record b { charger_buffer = b.charger_buffer ++ (snap ∷ []) } in
      let (x, y, z) = maybe_flush_db-SameRows now more in
      let e : note_charger now false snap b ≡ maybe_flush_db now more = if_true _ _ db in
      (
        ap battery_rows e ∙ x ∙ sym (append-nil _),
        ap charger_rows e ∙ y ∙ sym (append_assoc b.db_charger b.charger_buffer (snap ∷ [])),
        ap (λ c. c.has_db) e ∙ z ∙ db,
      )
  call-rows now flush b db =
      let (x, y, z) = flush_db-SameRows now b in
      (x ∙ sym (append-nil _), y ∙ sym (append-nil _), z ∙ db)

  -- With a database, the rows written and the rows still buffered are together just those handed over,
  -- in the order of the calls, whatever the times, the write interval and the flushes between.
  pub run-rows :
      (cs : List (ℕ × Call F)) (b : Buffers F)
      → b.has_db ≡ true
      → (battery_rows (run cs b) ≡ battery_rows b ++ batteries cs)
        × (charger_rows (run cs b) ≡ charger_rows b ++ chargers cs)
  unfolding run batteries chargers
  run-rows [] b db = (sym (append-nil _), sym (append-nil _))
  run-rows ((now, c) ∷ cs) b db =
      let (x, y, z) = call-rows now c b db in
      let (xs, ys) = run-rows cs (call now c b) z in
      (
        xs
            ∙ ap (λ r. r ++ batteries cs) x
            ∙ append_assoc _ (batteries ((now, c) ∷ [])) (batteries cs)
            ∙ ap (◌++◌ (battery_rows b)) (batteries-cons now c cs),
        ys
            ∙ ap (λ r. r ++ chargers cs) y
            ∙ append_assoc _ (chargers ((now, c) ∷ [])) (chargers cs)
            ∙ ap (◌++◌ (charger_rows b)) (chargers-cons now c cs),
      )
    where
      batteries-cons :
          (t : ℕ) (k : Call F) (ks : List (ℕ × Call F))
          → batteries ((t, k) ∷ []) ++ batteries ks ≡ batteries ((t, k) ∷ ks)
      batteries-cons t (battery snap) ks = unfold batteries in refl
      batteries-cons t (charger snap) ks = unfold batteries in refl
      batteries-cons t flush ks = unfold batteries in refl

      chargers-cons :
          (t : ℕ) (k : Call F) (ks : List (ℕ × Call F))
          → chargers ((t, k) ∷ []) ++ chargers ks ≡ chargers ((t, k) ∷ ks)
      chargers-cons t (battery snap) ks = unfold chargers in refl
      chargers-cons t (charger snap) ks = unfold chargers in refl
      chargers-cons t flush ks = unfold chargers in refl

  -- A row is written at once when the interval is not positive or has passed since the last write, and
  -- both buffers are then empty; otherwise it waits in the buffer and nothing is written.
  pub note_battery_cases :
      (now : ℕ) (snap : BatterySnapshot F) (b : Buffers F)
      → b.has_db ≡ true
      → let after = note_battery now false snap b in
        let due = leb_ℤ b.interval (pos 0) || leb_ℤ b.interval (pos (now - b.last_db_write)) in
        (due ≡ true)
          × (after.battery_buffer ≡ [])
          × (after.charger_buffer ≡ [])
          × (after.db_battery ≡ b.db_battery ++ (b.battery_buffer ++ (snap ∷ [])))
          × (after.last_db_write ≡ now)
        ⊎ (due ≡ false)
          × (after.battery_buffer ≡ b.battery_buffer ++ (snap ∷ []))
          × (after.db_battery ≡ b.db_battery)
          × (after.last_db_write ≡ b.last_db_write)
  unfolding note_battery maybe_flush_db write_batches time_to_flush
  note_battery_cases now snap b db =
      let more : Buffers F = record b { battery_buffer = b.battery_buffer ++ (snap ∷ []) } in
      let opened : note_battery now false snap b
          ≡ (if time_to_flush now more then write_batches now more else more) =
        if_true _ _ db ∙ if_true _ _ db in
      elim (Bool-cases (time_to_flush now more)) [
        | inl e ↦
            let done = opened ∙ if_true _ _ e in
            inl (
              e,
              ap (λ c. c.battery_buffer) done,
              ap (λ c. c.charger_buffer) done,
              ap (λ c. c.db_battery) done,
              ap (λ c. c.last_db_write) done,
            )
        | inr e ↦
            let done = opened ∙ if_false _ _ e in
            inr (
              e,
              ap (λ c. c.battery_buffer) done,
              ap (λ c. c.db_battery) done,
              ap (λ c. c.last_db_write) done,
            )
      ]
