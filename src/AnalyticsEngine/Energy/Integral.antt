-- ===== src/AnalyticsEngine/Energy/Integral.antt =====
-- The discharged energy, which the readings of the battery and of the charger are integrated into.
use limonitor.Common.{
  ℕ, suc, ◌≤◌, ◌<◌, ◌≡◌, refl, sym, ap, ◌∙◌, inl, inr, not, ◌&&◌, List, [], ◌∷◌, ◌++◌, arith, foldl,
  ◌+◌, length-append, Bool-cases, if_true, if_false, if◌then◌else◌, length, subst, lt→ltb,
}
use limonitor.Common.Int.{ℤ, pos, leb_ℤ, eqb_ℤ}
use limonitor.Double.{Double, IsExact, ◌+F◌, ◌*F◌, ◌≥F◌, decimal}
use limonitor.AnalyticsEngine.{Day}
use limonitor.AnalyticsEngine.Energy.{
  integrate_discharge_wh, hours_between, is_step, archive_hour, archive,
}

-- What changes the discharged energy within a day: a reading that draws power, and another hour.
pub data Event (F : Type 0) : Type 0 where
  draw : F → F → Event F
  hour : ℤ → Event F

module _ {F : Type 0} ⦃d : Double F⦄ where
  unfoldable pub day_run : List (Event F) → Day F → Day F
  day_run [] s = s
  day_run (draw ts w ∷ rest) s = day_run rest (integrate_discharge_wh ts w s)
  day_run (hour h ∷ rest) s = day_run rest (archive_hour h s)

  -- The energy of the archived hours and of the hour that is going on.
  abbrev pub hours_total : Day F → F
  hours_total s = foldl ◌+F◌ (decimal 0 0) s.discharge_wh_per_hour +F s.discharge_wh_this_hour

  foldl-snoc : (acc x : F) (xs : List F) → foldl ◌+F◌ acc (xs ++ (x ∷ [])) ≡ foldl ◌+F◌ acc xs +F x
  foldl-snoc acc x [] = refl
  foldl-snoc acc x (y ∷ ys) = foldl-snoc (acc +F y) x ys

  -- The same energy goes into the day's counter and into the hours.
  abbrev pub AreRaised : Day F → Day F → Type 0
  AreRaised s t =
      (x : F) × (t.energy_discharged_wh ≡ s.energy_discharged_wh +F x)
      × (hours_total t ≡ hours_total s +F x)

  abbrev pub hours_in : List (Event F) → ℕ
  hours_in [] = 0
  hours_in (draw ts w ∷ rest) = hours_in rest
  hours_in (hour h ∷ rest) = suc (hours_in rest)

module _ {F : Type 0} ⦃d : Double F⦄ (laws : IsExact F) where
  add_zero : (a : F) → a ≡ a +F decimal 0 0
  add_zero a = sym (laws.add_comm a (decimal 0 0) ∙ laws.zero_add a)

  moved :
      (s : Day F)
      → foldl ◌+F◌ (decimal 0 0) (s.discharge_wh_per_hour ++ (s.discharge_wh_this_hour ∷ []))
          +F decimal 0 0
        ≡ hours_total s +F decimal 0 0
  moved s =
      ap (λ z. z +F decimal 0 0)
        (foldl-snoc (decimal 0 0) s.discharge_wh_this_hour s.discharge_wh_per_hour)

  -- Another hour moves the energy into the archive, while that has room.
  archive_hour-AreRaised :
      (h : ℤ) (s : Day F)
      → length s.discharge_wh_per_hour < 24
      → AreRaised s (archive_hour h s)
        × (length (archive_hour h s).discharge_wh_per_hour ≤ suc (length s.discharge_wh_per_hour))
  unfolding archive_hour archive
  archive_hour-AreRaised h s l =
      let IsAfter : Day F → Type 0 = λ t.
        AreRaised s t × (length t.discharge_wh_per_hour ≤ suc (length s.discharge_wh_per_hour)) in
      elim (Bool-cases
        (leb_ℤ (pos 0) s.last_discharge_hour && not (eqb_ℤ h s.last_discharge_hour))) [
          | inl e ↦
              let grown = if_true _ _ (lt→ltb _ _ l) in
              subst IsAfter (sym (if_true _ _ e)) (
                (
                  decimal 0 0,
                  add_zero s.energy_discharged_wh,
                  ap (λ xs. foldl ◌+F◌ (decimal 0 0) xs +F decimal 0 0) grown ∙ moved s,
                ),
                omega (
                  arith,
                  ap length grown,
                  length-append s.discharge_wh_per_hour (s.discharge_wh_this_hour ∷ []),
                ),
              )
          | inr e ↦ subst IsAfter (sym (if_false _ _ e)) (
            (decimal 0 0, add_zero s.energy_discharged_wh, add_zero (hours_total s)),
            omega arith,
          )
        ]

  integrate-AreRaised :
      (ts w : F) (s : Day F)
      → AreRaised s (integrate_discharge_wh ts w s)
        × ((integrate_discharge_wh ts w s).discharge_wh_per_hour ≡ s.discharge_wh_per_hour)
  unfolding integrate_discharge_wh
  integrate-AreRaised ts w s =
      let from =
        if s.last_discharge_integration_ts ≥F decimal 0 0
        then s.last_discharge_integration_ts
        else ts in
      let x = w *F hours_between from ts in
      elim (Bool-cases (is_step (hours_between from ts))) [
        | inl e ↦ (
          (
            x,
            if_true _ _ e,
            ap (λ z. foldl ◌+F◌ (decimal 0 0) s.discharge_wh_per_hour +F z) (if_true _ _ e)
                ∙ sym (laws.add_assoc _ s.discharge_wh_this_hour x),
          ),
          refl,
        )
        | inr e ↦ (
          (
            decimal 0 0,
            if_false _ _ e ∙ add_zero s.energy_discharged_wh,
            ap (λ z. foldl ◌+F◌ (decimal 0 0) s.discharge_wh_per_hour +F z) (if_false _ _ e)
                ∙ add_zero (hours_total s),
          ),
          refl,
        )
      ]

  chain : (s t u : Day F) → AreRaised s t → AreRaised t u → AreRaised s u
  chain s t u (x, e, f) (y, g, h) = (
    x +F y,
    g ∙ ap (λ z. z +F y) e ∙ laws.add_assoc s.energy_discharged_wh x y,
    h ∙ ap (λ z. z +F y) f ∙ laws.add_assoc (hours_total s) x y,
  )

  -- In arithmetic without rounding, while the archive has room for the hours that pass: over any sequence
  -- of draws and hours the day's discharged energy and the energy of the archived hours with the present
  -- one rise by the same amount, so no energy is lost or counted twice between the two.
  pub day_run-AreRaised :
      (events : List (Event F)) (s : Day F)
      → length s.discharge_wh_per_hour + hours_in events ≤ 24
      → AreRaised s (day_run events s)
  unfolding day_run
  day_run-AreRaised [] s l =
      (decimal 0 0, add_zero s.energy_discharged_wh, add_zero (hours_total s))
  day_run-AreRaised (draw ts w ∷ rest) s l =
      let t : Day F = integrate_discharge_wh ts w s in
      let (first, same) = integrate-AreRaised ts w s in
      chain s t (day_run rest t) first (day_run-AreRaised rest t (omega (arith, l, ap length same)))
  day_run-AreRaised (hour h ∷ rest) s l =
      let t : Day F = archive_hour h s in
      let (first, grown) = archive_hour-AreRaised h s (omega arith) in
      chain s t (day_run rest t) first (day_run-AreRaised rest t (omega (arith, l, grown)))
