-- ===== src/AnalyticsEngine/Energy/Depth.antt =====
-- The extremes of the state of charge, from which the depth of discharge is taken.
use limonitor.Common.{◌≡◌, ◌⊎◌, true, false, List, [], ◌∷◌, arith, All}
use limonitor.Double.{Double, IsOrdered, ◌<F◌, ◌>F◌, decimal}
use limonitor.AnalyticsEngine.{Day}
use limonitor.AnalyticsEngine.Energy.{note_soc}

module _ {F : Type 0} ⦃d : Double F⦄ where
  unfoldable pub soc_run : List F → Day F → Day F
  soc_run [] s = s
  soc_run (soc ∷ rest) s = soc_run rest (note_soc soc s)

  -- A reading that does not count, or that lies between the extremes.
  abbrev pub IsCovered : Day F → F → Type 0
  IsCovered s soc =
      ((soc >F decimal 5 1) ≡ false)
      ⊎ (s.soc_init ≡ true) × ((soc <F s.min_soc) ≡ false) × ((soc >F s.max_soc) ≡ false)

module _ {F : Type 0} ⦃d : Double F⦄ (laws : IsOrdered F) where
  covers : (soc : F) (s : Day F) → IsCovered (note_soc soc s) soc
  unfolding note_soc
  covers soc s = ground (arith, laws.lt_irrefl soc)

  keeps : (u soc : F) (s : Day F) → IsCovered s u → IsCovered (note_soc soc s) u
  unfolding note_soc
  keeps u soc s c = ground (arith, c, laws.lt_trans u soc s.min_soc, laws.lt_trans s.max_soc soc u)

  soc_run-keeps : (u : F) (socs : List F) (s : Day F) → IsCovered s u → IsCovered (soc_run socs s) u
  unfolding soc_run
  soc_run-keeps u [] s c = c
  soc_run-keeps u (soc ∷ rest) s c = soc_run-keeps u rest (note_soc soc s) (keeps u soc s c)

  -- Where the comparison is irreflexive and transitive, whatever the readings of a day: each one above
  -- 0.5 % lies between the extremes that are kept, so the depth of discharge spans all of them.
  pub soc_run-IsCovered : (socs : List F) (s : Day F) → All (IsCovered (soc_run socs s)) socs
  unfolding soc_run
  soc_run-IsCovered [] s = tt
  soc_run-IsCovered (soc ∷ rest) s = (
    soc_run-keeps soc rest (note_soc soc s) (covers soc s),
    soc_run-IsCovered rest (note_soc soc s),
  )
