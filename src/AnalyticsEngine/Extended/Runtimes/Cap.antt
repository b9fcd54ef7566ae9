-- ===== src/AnalyticsEngine/Extended/Runtimes/Cap.antt =====
-- What the runtimes that are shown can be.
use limonitor.Common.{
  ◌≡◌, sym, ap, ◌⊎◌, inl, inr, Bool, true, false, ◌&&◌, arith, Bool-cases, subst, if_true, if_false,
}
use limonitor.Double.{Double, IsOrdered, ◌/F◌, ◌>F◌, ◌≥F◌, decimal, fmin}
use limonitor.Battery.{BatterySnapshot}
use limonitor.AnalyticsEngine.{Host, Day, Loads, Runtime}
use limonitor.AnalyticsEngine.Extended.Runtimes.{
  load_of, usable_energy, max_runtime_h, estimate_runtime,
}

module _ {F : Type 0} ⦃d : Double F⦄ ⦃host : Host F⦄ where
  -- There is load, capacity and charge enough for an estimate.
  abbrev pub is_estimable : BatterySnapshot F → Day F → Loads F → Bool
  is_estimable bat day loads =
      load_of day loads ≥F decimal 12 1
      && bat.nominal_ah >F decimal 1 0
      && usable_energy bat bat.soc_pct >F decimal 0 0

  abbrev pub IsCapped : F → F → Bool → Type 0
  IsCapped hours shown exceeds =
      ((shown >F max_runtime_h) ≡ false)
      × ((exceeds ≡ true) × (shown ≡ max_runtime_h) ⊎ (exceeds ≡ false) × (shown ≡ hours))

  fmin-IsCapped :
      (laws : IsOrdered F) (h : F) → IsCapped h (fmin h max_runtime_h) (h >F max_runtime_h)
  fmin-IsCapped laws h = ground (arith, laws.lt_irrefl max_runtime_h)

  -- With an irreflexive order: where there is load, capacity and charge enough, the two runtimes are the
  -- usable energy over the load, cut at 1000 h, and the flags say which ones are cut. Where there is not,
  -- both are 0 and the flags stay as they were. The load is shown either way.
  pub estimate_runtime_cases :
      (laws : IsOrdered F) (bat : BatterySnapshot F) (day : Day F) (loads : Loads F) (s : Runtime F)
      → let r = estimate_runtime bat day loads s in
        let load_w = load_of day loads in
        (r.avg_discharge_24h_w ≡ load_w)
        × ((is_estimable bat day loads ≡ true)
              × IsCapped
                  (usable_energy bat (decimal 100 0) /F load_w)
                  r.from_full_h
                  r.full_exceeds_cap
              × IsCapped
                  (usable_energy bat bat.soc_pct /F load_w)
                  r.from_current_h
                  r.current_exceeds_cap
            ⊎ (is_estimable bat day loads ≡ false)
              × (r.from_full_h ≡ decimal 0 0)
              × (r.from_current_h ≡ decimal 0 0)
              × (r.full_exceeds_cap ≡ s.full_exceeds_cap)
              × (r.current_exceeds_cap ≡ s.current_exceeds_cap))
  unfolding estimate_runtime
  estimate_runtime_cases laws bat day loads s = elim (Bool-cases (is_estimable bat day loads)) [
    | inl e ↦ (
      ap (λ (r : Runtime F). r.avg_discharge_24h_w) (if_true _ _ e),
      inl (
        e,
        subst
            (λ (r : Runtime F).
              IsCapped (usable_energy bat (decimal 100 0) /F load_of day loads) r.from_full_h
                r.full_exceeds_cap)
            (sym (if_true _ _ e))
            (fmin-IsCapped laws (usable_energy bat (decimal 100 0) /F load_of day loads)),
        subst
            (λ (r : Runtime F).
              IsCapped (usable_energy bat bat.soc_pct /F load_of day loads) r.from_current_h
                r.current_exceeds_cap)
            (sym (if_true _ _ e))
            (fmin-IsCapped laws (usable_energy bat bat.soc_pct /F load_of day loads)),
      ),
    )
    | inr e ↦ (
      ap (λ (r : Runtime F). r.avg_discharge_24h_w) (if_false _ _ e),
      inr (
        e,
        ap (λ (r : Runtime F). r.from_full_h) (if_false _ _ e),
        ap (λ (r : Runtime F). r.from_current_h) (if_false _ _ e),
        ap (λ (r : Runtime F). r.full_exceeds_cap) (if_false _ _ e),
        ap (λ (r : Runtime F). r.current_exceeds_cap) (if_false _ _ e),
      ),
    )
  ]
