-- ===== src/Weather/Projection.antt =====
-- What the projections of the charge can be.
use limonitor.Common.{
  ◌≡◌, sym, inl, inr, false, List, [], ◌∷◌, arith, length, min, All, Bool-cases, if_true, if_false,
  subst,
}
use limonitor.Double.{Double, IsOrdered, ◌+F◌, ◌-F◌, ◌*F◌, ◌/F◌, ◌<F◌, ◌≤F◌, decimal}
use limonitor.Weather.{clamp_pct, project_from, constant, project_battery_soc}

module _ {F : Type 0} ⦃d : Double F⦄ where
  -- Neither below 0 nor above 100.
  abbrev pub IsPercent : F → Type 0
  IsPercent x = ((x <F decimal 0 0) ≡ false) × ((decimal 100 0 <F x) ≡ false)

module _ {F : Type 0} ⦃d : Double F⦄ (laws : IsOrdered F)
    (apart : ((decimal {F = F} 100 0) <F (decimal 0 0)) ≡ false) where
  clamp-IsPercent : (x : F) → IsPercent (clamp_pct x)
  unfolding clamp_pct
  clamp-IsPercent x =
      ground (arith, laws.lt_irrefl (decimal 0 0), laws.lt_irrefl (decimal 100 0), apart)

  AreProjected : List F → List F → List F → Type 0
  AreProjected gs us xs = (length xs ≡ min (length gs) (length us)) × All IsPercent xs

  constant-AreProjected :
      (x : F) (gs us : List F) → IsPercent x → AreProjected gs us (constant x gs us)
  unfolding constant AreProjected
  constant-AreProjected x [] us h = (omega arith, tt)
  constant-AreProjected x (g ∷ gs) [] h = (omega arith, tt)
  constant-AreProjected x (g ∷ gs) (u ∷ us) h =
      let (n, a) = constant-AreProjected x gs us h in (omega (arith, n), (h, a))

  from-AreProjected :
      (capacity soc : F) (gs us : List F) → AreProjected gs us (project_from capacity soc gs us)
  unfolding project_from AreProjected
  from-AreProjected capacity soc [] us = (omega arith, tt)
  from-AreProjected capacity soc (g ∷ gs) [] = (omega arith, tt)
  from-AreProjected capacity soc (g ∷ gs) (u ∷ us) =
      let next = clamp_pct (soc +F (g -F u) /F capacity *F decimal 100 0) in
      let (n, a) = from-AreProjected capacity next gs us in
      (omega (arith, n), (clamp-IsPercent _, a))

  -- With an irreflexive order in which 100 is not below 0: a projection has one value for each slot that
  -- both lists have, and every value lies between 0 and 100, whatever the capacity, the start and the
  -- energies are.
  pub project_battery_soc-bounds :
      (start capacity : F) (gs us : List F)
      → let xs = project_battery_soc start capacity gs us in
        (length xs ≡ min (length gs) (length us)) × All IsPercent xs
  unfolding project_battery_soc AreProjected
  project_battery_soc-bounds start capacity gs us = elim (Bool-cases (capacity ≤F decimal 0 0)) [
    | inl e ↦
        subst (AreProjected gs us) (sym (if_true _ _ e))
          (constant-AreProjected (clamp_pct start) gs us (clamp-IsPercent start))
    | inr e ↦
        subst (AreProjected gs us) (sym (if_false _ _ e))
          (from-AreProjected capacity (clamp_pct start) gs us)
  ]
