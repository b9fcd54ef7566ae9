-- ===== src/AnalyticsEngine/Extended/Warnings/Hysteresis.antt =====
-- What the debounced warnings need to appear and to go.
use limonitor.Common.{
  ℕ, zero, suc, ◌+◌, ◌<◌, ◌≡◌, sym, ap, ◌∙◌, inl, inr, true, false, Bool, List, [], ◌∷◌, arith,
  none, some, leb, Bool-cases, if_true, if_false, leb→gt, if◌then◌else◌,
}
use limonitor.AnalyticsEngine.{Text, Debounced}
use limonitor.AnalyticsEngine.Extended.Warnings.{debounce, quiet_turn}

module _ {F : Type 0} where
  -- Readings with what each says and the text it would show.
  unfoldable pub debounce_run : ℕ → List (Bool × Text F) → Debounced F → Debounced F
  debounce_run n [] s = s
  debounce_run n ((now, msg) ∷ rest) s = debounce_run n rest (debounce n now msg s)

  abbrev pub repeat : ℕ → Bool × Text F → List (Bool × Text F)
  repeat zero r = []
  repeat (suc k) r = r ∷ repeat k r

  reach_shown :
      (n k : ℕ) (msg : Text F) (s : Debounced F)
      → leb n s.confirm ≡ true
      → s.warning ≡ some msg
      → (debounce_run n (repeat k (true, msg)) s).warning ≡ some msg
  unfolding debounce_run debounce
  reach_shown n zero msg s l e = e
  reach_shown n (suc k) msg s l e =
      reach_shown n k msg (debounce n true msg s) (ground arith) (ground arith)

  appears :
      (n k : ℕ) (msg : Text F) (s : Debounced F)
      → s.warning ≡ none
      → s.confirm < n
      → (debounce_run n (repeat k (true, msg)) s).warning
        ≡ (if leb n (s.confirm + k) then some msg else none)
  unfolding debounce_run debounce
  appears n zero msg s e l = ground arith
  appears n (suc k) msg s e l = elim (Bool-cases (leb n (suc s.confirm))) [
    | inl m ↦
        reach_shown n k msg (debounce n true msg s) m (if_true _ _ m)
        ∙ sym (if_true {b = leb n (s.confirm + suc k)} _ _ (ground (arith, m)))
    | inr m ↦
        let counted : suc s.confirm + k ≡ s.confirm + suc k = omega arith in
        appears n k msg (debounce n true msg s) (if_false _ _ m ∙ e) (leb→gt _ _ m)
        ∙ ap (λ c. if leb n c then some msg else none) counted
  ]

  quiet_some :
      (n : ℕ) (msg other : Text F) (s : Debounced F)
      → s.warning ≡ some msg
      → debounce n false other s ≡ record {
        confirm = 0;
        clear = suc s.clear;
        warning = if leb n (suc s.clear) then none else some msg;
      }
  unfolding debounce quiet_turn
  quiet_some n msg other s e = ap (λ w. quiet_turn n w s.clear) e

  stays_clear :
      (n k : ℕ) (other : Text F) (s : Debounced F)
      → s.warning ≡ none
      → (debounce_run n (repeat k (false, other)) s).warning ≡ none
  unfolding debounce_run debounce quiet_turn
  stays_clear n zero other s e = e
  stays_clear n (suc k) other s e =
      stays_clear n k other (debounce n false other s)
        (ap (λ w. (quiet_turn n w s.clear).warning) e)

  goes :
      (n k : ℕ) (msg other : Text F) (s : Debounced F)
      → s.warning ≡ some msg
      → s.clear < n
      → (debounce_run n (repeat k (false, other)) s).warning
        ≡ (if leb n (s.clear + k) then none else some msg)
  unfolding debounce_run
  goes n zero msg other s e l = ground arith
  goes n (suc k) msg other s e l =
      let next = quiet_some n msg other s e in
      let shown = ap (λ (t : Debounced F). t.warning) next in
      let turns = ap (λ (t : Debounced F). t.clear) next in
      elim (Bool-cases (leb n (suc s.clear))) [
        | inl m ↦
            stays_clear n k other (debounce n false other s) (shown ∙ if_true _ _ m)
            ∙ sym (if_true {b = leb n (s.clear + suc k)} _ _ (ground (arith, m)))
        | inr m ↦
            let counted : suc s.clear + k ≡ s.clear + suc k = omega arith in
            goes n k msg other (debounce n false other s) (shown ∙ if_false _ _ m)
              (omega (arith, turns, leb→gt _ _ m))
            ∙ ap (λ c. if leb n (c + k) then none else some msg) turns
            ∙ ap (λ c. if leb n c then none else some msg) counted
      ]

  after_quiet :
      (n : ℕ) (other : Text F) (s : Debounced F)
      → s.warning ≡ none
      → debounce n false other s ≡ record { confirm = 0; clear = 0; warning = none }
  unfolding debounce quiet_turn
  after_quiet n other s e = ap (λ w. quiet_turn n w s.clear) e

  -- While no warning is shown, after a reading that does not ask for one: k readings in a row that do show
  -- it if k is n or more, else nothing is shown. n is above 0.
  pub debounce_run-appears :
      (n k : ℕ) (msg other : Text F) (s : Debounced F)
      → 0 < n
      → s.warning ≡ none
      → (debounce_run n ((false, other) ∷ repeat k (true, msg)) s).warning
        ≡ (if leb n k then some msg else none)
  unfolding debounce_run
  debounce_run-appears n k msg other s h e =
      let quiet = after_quiet n other s e in
      let counted = ap (λ (t : Debounced F). t.confirm) quiet in
      let start : Debounced F = debounce n false other s in
      appears n k msg start (ap (λ (t : Debounced F). t.warning) quiet) (omega (arith, counted))
      ∙ ap (λ c. if leb n c then some msg else none) (omega (arith, counted))

  -- While a warning is shown, after a reading that asks for it: k readings in a row that do not clear it
  -- if k is n or more, else it stays. n is above 0.
  pub debounce_run-goes :
      (n k : ℕ) (msg other shown : Text F) (s : Debounced F)
      → 0 < n
      → (debounce n true msg s).warning ≡ some shown
      → (debounce_run n ((true, msg) ∷ repeat k (false, other)) s).warning
        ≡ (if leb n k then none else some shown)
  unfolding debounce_run debounce
  debounce_run-goes n k msg other shown s h e =
      let none_yet : 0 + k ≡ k = omega arith in
      goes n k shown other (debounce n true msg s) e h
      ∙ ap (λ c. if leb n c then none else some shown) none_yet
