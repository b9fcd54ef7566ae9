-- ===== src/Store/Update/Rings.antt =====
-- What the store holds after any sequence of calls.
use limonitor.Common.{
  ℕ, zero, suc, ◌≤◌, ◌<◌, ◌≡◌, refl, sym, ap, ap₂, ◌∙◌, ◌⊎◌, inl, inr, true, List, [], ◌∷◌, ◌++◌,
  some, arith, ltb, leb, ltb→lt, lt→ltb, ◌==◌, ◌||◌, last?-trim, if_true, if_false, append-nil,
  append_assoc, Bool-cases, length, last_n, trim, length-trim-le, trim-eq-drop, trim-room,
  length-append, min,
}
use limonitor.Double.{Double}
use limonitor.Battery.{BatterySnapshot, PwrGateSnapshot}
use limonitor.Store.Update.{
  Engine, DataStore, Action, battery, charger, say, flush, loading, latest, history, update,
  update_pwrgate, set_loading_history, monitor, act, run,
}

trim-append : {A : Type 0} → (n : ℕ) (xs ys : List A) → trim n (trim n xs ++ ys) ≡ trim n (xs ++ ys)
unfolding trim
trim-append n [] ys = refl
trim-append n (x ∷ xs) ys = elim (Bool-cases (ltb n (suc (length xs)))) [
  | inl e ↦
      let longer : ltb n (suc (length (xs ++ ys))) ≡ true =
        lt→ltb _ _ (omega (arith, ltb→lt _ _ e, length-append xs ys)) in
      ap (λ r. trim n (r ++ ys)) (if_true _ _ e) ∙ trim-append n xs ys ∙ sym (if_true _ _ longer)
  | inr e ↦ ap (λ r. trim n (r ++ ys)) (if_false _ _ e)
]

chained :
    {A : Type 0}
    → (n : ℕ) (xs ys zs : List A) {all : List A} → ys ++ zs ≡ all
    → trim n (trim n (xs ++ ys) ++ zs) ≡ trim n (xs ++ all)
chained n xs ys zs e =
    trim-append n (xs ++ ys) zs ∙ ap (trim n) (append_assoc xs ys zs ∙ ap (◌++◌ xs) e)

kept : {A : Type 0} → (n : ℕ) (xs : List A) → length xs ≤ n → xs ≡ trim n (xs ++ [])
kept n xs h = sym (ap (trim n) (append-nil xs) ∙ trim-room n xs h)

trim-trim : {A : Type 0} → (n m : ℕ) (xs : List A) → trim n (trim m xs) ≡ trim (min n m) xs
unfolding trim
trim-trim n m [] = refl
trim-trim n m (x ∷ xs) = ground (arith, trim-trim n m xs)

last_n_cases :
    {A : Type 0}
    → (n : ℕ) (xs : List A) → (n ≡ 0) × (last_n n xs ≡ xs) ⊎ (0 < n) × (last_n n xs ≡ trim n xs)
unfolding last_n
last_n_cases zero xs = inl (refl, refl)
last_n_cases (suc n) xs = elim (Bool-cases (suc n == 0 || leb (length xs) (suc n))) [
  | inl e ↦ inr (omega arith, if_true _ _ e ∙ sym (trim-room (suc n) xs (ground (arith, e))))
  | inr e ↦ inr (omega arith, if_false _ _ e ∙ sym (trim-eq-drop (suc n) xs))
]

-- The battery readings of a sequence of calls.
unfoldable pub batteries : {F : Type 0} → List (ℕ × ℕ × Action F) → List (BatterySnapshot F)
batteries [] = []
batteries ((now, tick, battery snap) ∷ rest) = snap ∷ batteries rest
batteries ((now, tick, charger snap) ∷ rest) = batteries rest
batteries ((now, tick, say msg) ∷ rest) = batteries rest
batteries ((now, tick, flush) ∷ rest) = batteries rest
batteries ((now, tick, loading on) ∷ rest) = batteries rest

unfoldable pub chargers : {F : Type 0} → List (ℕ × ℕ × Action F) → List (PwrGateSnapshot F)
chargers [] = []
chargers ((now, tick, battery snap) ∷ rest) = chargers rest
chargers ((now, tick, charger snap) ∷ rest) = snap ∷ chargers rest
chargers ((now, tick, say msg) ∷ rest) = chargers rest
chargers ((now, tick, flush) ∷ rest) = chargers rest
chargers ((now, tick, loading on) ∷ rest) = chargers rest

module _ {F E X O : Type 0} ⦃d : Double F⦄ (engine : Engine F E X O) where
  monitor-keeps :
      (tick : ℕ) (s : DataStore F E X O)
      → ((monitor engine tick s).ring ≡ s.ring)
        × ((monitor engine tick s).pwrgate_ring ≡ s.pwrgate_ring)
        × ((monitor engine tick s).max_history ≡ s.max_history)
  unfolding monitor
  monitor-keeps tick s = ground arith

  act-ring :
      (now tick : ℕ) (a : Action F) (s : DataStore F E X O)
      → length s.ring ≤ s.max_history
      → let after = act engine now tick a s in
        (after.max_history ≡ s.max_history)
        × (after.ring ≡ trim s.max_history (s.ring ++ batteries ((now, tick, a) ∷ [])))
  unfolding act update update_pwrgate batteries set_loading_history
  act-ring now tick (battery snap) s h =
      let (r, p, m) = monitor-keeps tick _ in (m, ap (λ q. trim s.max_history (q ++ (snap ∷ []))) r)
  act-ring now tick (charger snap) s h = (refl, kept s.max_history s.ring h)
  act-ring now tick (say msg) s h = (refl, kept s.max_history s.ring h)
  act-ring now tick flush s h = (refl, kept s.max_history s.ring h)
  act-ring now tick (loading on) s h = (refl, kept s.max_history s.ring h)

  act-pwrgate_ring :
      (now tick : ℕ) (a : Action F) (s : DataStore F E X O)
      → length s.pwrgate_ring ≤ s.max_history
      → let after = act engine now tick a s in
        (after.max_history ≡ s.max_history)
        × (after.pwrgate_ring
            ≡ trim s.max_history (s.pwrgate_ring ++ chargers ((now, tick, a) ∷ [])))
  unfolding act update update_pwrgate chargers set_loading_history
  act-pwrgate_ring now tick (battery snap) s h =
      let (r, p, m) = monitor-keeps tick _ in (m, p ∙ kept s.max_history s.pwrgate_ring h)
  act-pwrgate_ring now tick (charger snap) s h = (refl, refl)
  act-pwrgate_ring now tick (say msg) s h = (refl, kept s.max_history s.pwrgate_ring h)
  act-pwrgate_ring now tick flush s h = (refl, kept s.max_history s.pwrgate_ring h)
  act-pwrgate_ring now tick (loading on) s h = (refl, kept s.max_history s.pwrgate_ring h)

  batteries-cons :
      (now tick : ℕ) (a : Action F) (rest : List (ℕ × ℕ × Action F))
      → batteries ((now, tick, a) ∷ []) ++ batteries rest ≡ batteries ((now, tick, a) ∷ rest)
  unfolding batteries
  batteries-cons now tick (battery snap) rest = refl
  batteries-cons now tick (charger snap) rest = refl
  batteries-cons now tick (say msg) rest = refl
  batteries-cons now tick flush rest = refl
  batteries-cons now tick (loading on) rest = refl

  chargers-cons :
      (now tick : ℕ) (a : Action F) (rest : List (ℕ × ℕ × Action F))
      → chargers ((now, tick, a) ∷ []) ++ chargers rest ≡ chargers ((now, tick, a) ∷ rest)
  unfolding chargers
  chargers-cons now tick (battery snap) rest = refl
  chargers-cons now tick (charger snap) rest = refl
  chargers-cons now tick (say msg) rest = refl
  chargers-cons now tick flush rest = refl
  chargers-cons now tick (loading on) rest = refl

  -- From a ring that is within its size, whatever calls come in whatever order, the battery ring
  -- holds just the latest readings: those held before and those of the calls, in order, without the
  -- oldest beyond `max_history`.
  pub run-ring :
      (calls : List (ℕ × ℕ × Action F)) (s : DataStore F E X O)
      → length s.ring ≤ s.max_history
      → (run engine calls s).ring ≡ trim s.max_history (s.ring ++ batteries calls)
  unfolding run batteries
  run-ring [] s h = kept s.max_history _ h
  run-ring ((now, tick, a) ∷ rest) s h =
      let (m, r) = act-ring now tick a s h in
      let after = act engine now tick a s in
      let fits : length after.ring ≤ after.max_history = omega (
        arith,
        m,
        ap length r,
        length-trim-le s.max_history (s.ring ++ batteries ((now, tick, a) ∷ [])),
      ) in
      run-ring rest after fits
      ∙ ap₂ (λ n q. trim n (q ++ batteries rest)) m r
      ∙ chained s.max_history s.ring _ (batteries rest) (batteries-cons now tick a rest)

  -- From a charger ring that is within its size, the charger ring likewise holds just the latest
  -- charger readings after any calls.
  pub run-pwrgate_ring :
      (calls : List (ℕ × ℕ × Action F)) (s : DataStore F E X O)
      → length s.pwrgate_ring ≤ s.max_history
      → (run engine calls s).pwrgate_ring ≡ trim s.max_history (s.pwrgate_ring ++ chargers calls)
  unfolding run chargers
  run-pwrgate_ring [] s h = kept s.max_history _ h
  run-pwrgate_ring ((now, tick, a) ∷ rest) s h =
      let (m, r) = act-pwrgate_ring now tick a s h in
      let after = act engine now tick a s in
      let fits : length after.pwrgate_ring ≤ after.max_history = omega (
        arith,
        m,
        ap length r,
        length-trim-le s.max_history (s.pwrgate_ring ++ chargers ((now, tick, a) ∷ [])),
      ) in
      run-pwrgate_ring rest after fits
      ∙ ap₂ (λ n q. trim n (q ++ chargers rest)) m r
      ∙ chained s.max_history s.pwrgate_ring _ (chargers rest) (chargers-cons now tick a rest)

  -- A reading of the history after any calls on a ring that is within its size: `history(n)` for a
  -- positive n gives the last n of the readings that the ring keeps, `history(0)` all of them.
  pub run-history :
      (n : ℕ) (calls : List (ℕ × ℕ × Action F)) (s : DataStore F E X O)
      → length s.ring ≤ s.max_history
      → let all = s.ring ++ batteries calls in
        (n ≡ 0) × (history n (run engine calls s) ≡ trim s.max_history all)
        ⊎ (0 < n) × (history n (run engine calls s) ≡ trim (min n s.max_history) all)
  unfolding history
  run-history n calls s h = elim (last_n_cases n (trim s.max_history (s.ring ++ batteries calls))) [
    | inl (z, e) ↦ inl (z, ap (last_n n) (run-ring calls s h) ∙ e)
    | inr (p, e) ↦ inr (
      p,
      ap (last_n n) (run-ring calls s h)
          ∙ e
          ∙ trim-trim n s.max_history (s.ring ++ batteries calls),
    )
  ]

  -- A reading that was just taken is the latest one.
  pub update-latest :
      (now tick : ℕ) (snap : BatterySnapshot F) (s : DataStore F E X O)
      → 0 < s.max_history
      → (latest (update engine now tick snap s) ≡ some snap)
        × ((update engine now tick snap s).last_bms_update ≡ snap.timestamp)
  unfolding update latest
  update-latest now tick snap s h = (last?-trim s.max_history _ snap h, refl)
