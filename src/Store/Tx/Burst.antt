-- ===== src/Store/Tx/Burst.antt =====
-- What transmissions are recorded, over whole sequences of samples.
use limonitor.Common.{
  ◌≤◌, ◌≡◌, refl, ap, ◌∙◌, ◌⊎◌, inl, inr, true, false, List, [], ◌∷◌, ◌++◌, arith, if◌then◌else◌,
  length, All, push_bounded, length-trim-le, Bool-cases,
}
use limonitor.Double.{Double, IsOrdered, ◌>F◌, ◌-F◌}
use limonitor.Store.Tx.{
  TxState, Sample, is_above, effective_cur, power, closed_event, run_tx_detection, run,
  tx_events_max,
}

-- The highest current of a transmission and the power at that moment.
pub record Peak (F : Type 0) : Type 0 where
  pub current : F
  pub watts : F

module _ {F : Type 0} ⦃d : Double F⦄ where
  abbrev pub raise : Peak F → Sample F → Peak F
  raise p s =
      if effective_cur s >F p.current
      then record { current = effective_cur s; watts = power s }
      else p

  unfoldable pub peak_over : Peak F → List (Sample F) → Peak F
  peak_over p [] = p
  peak_over p (s ∷ ss) = peak_over (raise p s) ss

  abbrev pub first_peak : Sample F → Peak F
  first_peak s = record { current = effective_cur s; watts = power s }

  -- The peak is the current and power of one of the samples.
  abbrev pub Attained : Peak F → List (Sample F) → Type 0
  Attained p [] = ⊥
  Attained p (s ∷ ss) = (p ≡ first_peak s) ⊎ Attained p ss

  raise_cases : (p : Peak F) (s : Sample F) → (raise p s ≡ p) ⊎ (raise p s ≡ first_peak s)
  raise_cases p s = elim (Bool-cases (effective_cur s >F p.current)) [
    | inl e ↦ inr (rw e)
    | inr e ↦ inl (rw e)
  ]

  peak_over-Attained :
      (q p : Peak F) (ss : List (Sample F)) → q ≡ peak_over p ss → (q ≡ p) ⊎ Attained q ss
  unfolding peak_over
  peak_over-Attained q p [] e = inl e
  peak_over-Attained q p (s ∷ ss) e = elim (peak_over-Attained q (raise p s) ss e) [
    | inl f ↦ elim (raise_cases p s) [ inl g ↦ inl (f ∙ g) | inr g ↦ inr (inl (f ∙ g)) ]
    | inr f ↦ inr (inr f)
  ]

  -- A transmission under way with a given start and peak.
  abbrev under_way : TxState F → F → Peak F → TxState F
  under_way t start p = record t {
    active = true;
    start_time = start;
    peak_current = p.current;
    peak_power = p.watts;
  }

  step-under_way :
      (threshold start : F) (p : Peak F) (t : TxState F) (s : Sample F)
      → is_above threshold s ≡ true
      → run_tx_detection threshold s (under_way t start p) ≡ under_way t start (raise p s)
  unfolding run_tx_detection
  step-under_way threshold start p t s e = ground arith

  run-under_way :
      (threshold start : F) (p : Peak F) (t : TxState F) (mids : List (Sample F)) (last : Sample F)
      → All (λ s. is_above threshold s ≡ true) mids
      → is_above threshold last ≡ false
      → let top = peak_over p mids in
        run threshold (mids ++ (last ∷ [])) (under_way t start p) ≡ record (under_way t start top) {
          active = false;
          events =
              push_bounded tx_events_max t.events (closed_event (under_way t start top) last.now);
        }
  unfolding run peak_over
  run-under_way threshold start p t [] last h e = unfold run_tx_detection in rw e
  run-under_way threshold start p t (s ∷ mids) last (h, hs) e =
      ap (run threshold (mids ++ (last ∷ []))) (step-under_way threshold start p t s h)
      ∙ run-under_way threshold start (raise p s) t mids last hs e

  -- A burst of samples above the threshold that a sample below ends, met while no transmission is
  -- active, is recorded as one event: from the first sample to the one that ends it, with the peak
  -- over all samples of the burst. Nothing is active afterwards.
  pub run-burst :
      (threshold : F) (first : Sample F) (mids : List (Sample F)) (last : Sample F) (t : TxState F)
      → t.active ≡ false
      → is_above threshold first ≡ true
      → All (λ s. is_above threshold s ≡ true) mids
      → is_above threshold last ≡ false
      → let top = peak_over (first_peak first) mids in
        let after = run threshold (first ∷ (mids ++ (last ∷ []))) t in
        (after.active ≡ false)
        × (after.events
            ≡ push_bounded tx_events_max t.events (record {
              start_time = first.now;
              end_time = last.now;
              duration = last.now -F first.now;
              peak_current = top.current;
              peak_power = top.watts;
            }))
  unfolding run
  run-burst threshold first mids last t quiet starts stays ends =
      let begun : run_tx_detection threshold first t ≡ under_way t first.now (first_peak first) =
        unfold run_tx_detection in rw (starts, quiet) refl in
      let done = run-under_way threshold first.now (first_peak first) t mids last stays ends in
      let chain = ap (run threshold (mids ++ (last ∷ []))) begun ∙ done in
      (ap (λ a. a.active) chain, ap (λ a. a.events) chain)

  -- Samples below the threshold change nothing while no transmission is active.
  pub run-quiet :
      (threshold : F) (ss : List (Sample F)) (t : TxState F)
      → t.active ≡ false
      → All (λ s. is_above threshold s ≡ false) ss
      → run threshold ss t ≡ t
  unfolding run
  run-quiet threshold [] t quiet h = refl
  run-quiet threshold (s ∷ ss) t quiet (h, hs) =
      let same : run_tx_detection threshold s t ≡ t =
        unfold run_tx_detection in rw (h, quiet) refl in
      ap (run threshold ss) same ∙ run-quiet threshold ss t quiet hs

  step-bounded :
      (threshold : F) (s : Sample F) (t : TxState F)
      → length t.events ≤ tx_events_max
      → length (run_tx_detection threshold s t).events ≤ tx_events_max
  unfolding run_tx_detection push_bounded
  step-bounded threshold s t h =
      ground (arith, length-trim-le tx_events_max (t.events ++ (closed_event t s.now ∷ [])))

  -- However many samples come, no more than 100 events are kept.
  pub run-bounded :
      (threshold : F) (ss : List (Sample F)) (t : TxState F)
      → length t.events ≤ tx_events_max
      → length (run threshold ss t).events ≤ tx_events_max
  unfolding run
  run-bounded threshold [] t h = h
  run-bounded threshold (s ∷ ss) t h =
      run-bounded threshold ss (run_tx_detection threshold s t) (step-bounded threshold s t h)

  module _ (laws : IsOrdered F) where
    raise-keeps :
        (p : Peak F) (c : F) (s : Sample F)
        → (c >F p.current) ≡ false
        → (c >F (raise p s).current) ≡ false
    raise-keeps p c s h = ground (arith, laws.lt_trans p.current (effective_cur s) c)

    raise-covers : (p : Peak F) (s : Sample F) → (effective_cur s >F (raise p s).current) ≡ false
    raise-covers p s = ground (arith, laws.lt_irrefl (effective_cur s))

    peak_over-keeps :
        (p : Peak F) (c : F) (ss : List (Sample F))
        → (c >F p.current) ≡ false
        → (c >F (peak_over p ss).current) ≡ false
    unfolding peak_over
    peak_over-keeps p c [] h = h
    peak_over-keeps p c (s ∷ ss) h = peak_over-keeps (raise p s) c ss (raise-keeps p c s h)

    peak_over-covers :
        (p : Peak F) (ss : List (Sample F))
        → All (λ s. (effective_cur s >F (peak_over p ss).current) ≡ false) ss
    unfolding peak_over
    peak_over-covers p [] = tt
    peak_over-covers p (s ∷ ss) = (
      peak_over-keeps (raise p s) (effective_cur s) ss (raise-covers p s),
      peak_over-covers (raise p s) ss,
    )

    -- The recorded peak is a maximum, where the order of numbers is irreflexive and transitive: no
    -- sample of the burst has a higher current, and it is the current and power of one of them.
    pub peak_over-IsHighest :
        (first : Sample F) (mids : List (Sample F))
        → let top = peak_over (first_peak first) mids in
          All (λ s. (effective_cur s >F top.current) ≡ false) (first ∷ mids)
          × Attained top (first ∷ mids)
    peak_over-IsHighest first mids = (
      (
        peak_over-keeps (first_peak first) (effective_cur first) mids
            (laws.lt_irrefl (effective_cur first)),
        peak_over-covers (first_peak first) mids,
      ),
      peak_over-Attained (peak_over (first_peak first) mids) (first_peak first) mids refl,
    )
