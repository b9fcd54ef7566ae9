-- ===== src/AnalyticsEngine/Aging/Bounds.antt =====
-- What one discharge of the battery teaches about its capacity.
use limonitor.Common.{
  ◌≡◌, refl, sym, ap, ◌∙◌, inl, inr, true, false, not, ◌&&◌, List, [], ◌∷◌, ◌++◌, arith, All,
  if◌then◌else◌, if_true, if_false, Bool-cases,
}
use limonitor.Common.Int.{ℤ}
use limonitor.Double.{Double, ◌-F◌, ◌<F◌, ◌>F◌, decimal, neg}
use limonitor.Battery.{BatterySnapshot}
use limonitor.AnalyticsEngine.{Capacity, Host}
use limonitor.AnalyticsEngine.Aging.{
  track_discharge, end_discharge, update_health_and_age, show_capacity, show_age,
}

module _ {F : Type 0} ⦃d : Double F⦄ ⦃host : Host F⦄ where
  unfoldable pub track_run : ℤ → List (BatterySnapshot F) → Capacity F → Capacity F
  track_run now [] s = s
  track_run now (snap ∷ rest) s = track_run now rest (track_discharge now snap s)

  abbrev pub IsDischarging : BatterySnapshot F → Type 0
  IsDischarging snap =
      ((snap.current_a >F decimal 1 1) ≡ true) × ((snap.current_a <F neg (decimal 1 1)) ≡ false)

  -- The capacity seen by a discharge from one charge to another, if it is more than 5 Ah and than the
  -- best one so far.
  abbrev pub best_after : F → F → F → F
  best_after start left best =
      let consumed = start -F left in
      if consumed >F decimal 5 0 && consumed >F best then consumed else best

  update_keeps :
      (now : ℤ) (s : Capacity F)
      → (update_health_and_age now s).best_discharge_ah ≡ s.best_discharge_ah
  unfolding update_health_and_age show_capacity show_age
  update_keeps now s = ground arith

  end_discharge-best :
      (now : ℤ) (left : F) (s : Capacity F)
      → ((end_discharge now left s).best_discharge_ah
          ≡ best_after s.discharge_start_ah left s.best_discharge_ah)
        × ((end_discharge now left s).was_discharging ≡ false)
  unfolding end_discharge
  end_discharge-best now left s =
      let consumed = s.discharge_start_ah -F left in
      elim (Bool-cases (consumed >F decimal 5 0 && consumed >F s.best_discharge_ah)) [
        | inl e ↦ (
          ap (λ (t : Capacity F). t.best_discharge_ah) (if_true _ _ e)
              ∙ update_keeps now (record s { best_discharge_ah = consumed })
              ∙ sym (if_true _ _ e),
          refl,
        )
        | inr e ↦ (
          ap (λ (t : Capacity F). t.best_discharge_ah) (if_false _ _ e) ∙ sym (if_false _ _ e),
          refl,
        )
      ]

  begins :
      (now : ℤ) (snap : BatterySnapshot F) (s : Capacity F)
      → s.was_discharging ≡ false
      → IsDischarging snap
      → track_discharge now snap s
        ≡ record s { discharge_start_ah = snap.remaining_ah; was_discharging = true }
  unfolding track_discharge
  begins now snap s w (h, _) =
      if_true {b = snap.current_a >F decimal 1 1 && not s.was_discharging} _ _
        (ground (arith, w, h))

  goes_on :
      (now : ℤ) (snap : BatterySnapshot F) (s : Capacity F)
      → s.was_discharging ≡ true
      → IsDischarging snap
      → track_discharge now snap s ≡ s
  unfolding track_discharge
  goes_on now snap s w (h, l) =
      if_false {b = snap.current_a >F decimal 1 1 && not s.was_discharging} _ _
        (ground (arith, w, h))
      ∙ if_false {b = not (snap.current_a >F decimal 1 1) && s.was_discharging} _ _
          (ground (arith, w, h))
      ∙ if_false _ _ l

  ends :
      (now : ℤ) (snap : BatterySnapshot F) (s : Capacity F)
      → s.was_discharging ≡ true
      → (snap.current_a >F decimal 1 1) ≡ false
      → track_discharge now snap s ≡ end_discharge now snap.remaining_ah s
  unfolding track_discharge
  ends now snap s w h =
      if_false {b = snap.current_a >F decimal 1 1 && not s.was_discharging} _ _
        (ground (arith, w, h))
      ∙ if_true {b = not (snap.current_a >F decimal 1 1) && s.was_discharging} _ _
          (ground (arith, w, h))

  until_end :
      (now : ℤ) (snaps : List (BatterySnapshot F)) (last : BatterySnapshot F) (s : Capacity F)
      → s.was_discharging ≡ true
      → All IsDischarging snaps
      → (last.current_a >F decimal 1 1) ≡ false
      → track_run now (snaps ++ (last ∷ [])) s ≡ end_discharge now last.remaining_ah s
  unfolding track_run
  until_end now [] last s w a h = ends now last s w h
  until_end now (snap ∷ rest) last s w a h =
      ap (track_run now (rest ++ (last ∷ []))) (goes_on now snap s w a.0)
      ∙ until_end now rest last s w a.1 h

  -- A discharge that begins with one reading, goes on over any others, and ends with a reading that does
  -- not discharge, with no discharge before it: the best capacity is then what went from the first to the
  -- last reading, if that is more than 5 Ah and than the best one before, else the best one before; and no
  -- discharge is going on.
  pub track_run-discharge :
      (now : ℤ) (first : BatterySnapshot F) (snaps : List (BatterySnapshot F))
      (last : BatterySnapshot F) (s : Capacity F)
      → s.was_discharging ≡ false
      → IsDischarging first
      → All IsDischarging snaps
      → (last.current_a >F decimal 1 1) ≡ false
      → let after = track_run now (first ∷ (snaps ++ (last ∷ []))) s in
        (after.best_discharge_ah
          ≡ best_after first.remaining_ah last.remaining_ah s.best_discharge_ah)
        × (after.was_discharging ≡ false)
  unfolding track_run
  track_run-discharge now first snaps last s w f a h =
      let begun : Capacity F = record s {
        discharge_start_ah = first.remaining_ah;
        was_discharging = true;
      } in
      let path =
        ap (track_run now (snaps ++ (last ∷ []))) (begins now first s w f)
        ∙ until_end now snaps last begun refl a h in
      let (best, done) = end_discharge-best now last.remaining_ah begun in
      (
        ap (λ (t : Capacity F). t.best_discharge_ah) path ∙ best,
        ap (λ (t : Capacity F). t.was_discharging) path ∙ done,
      )
