-- ===== src/AnalyticsEngine/Stage/Cases.antt =====
-- The charging stage, described without the current that came before.
use text.Mathlib.Text.{◌==◌ as str_eq}
use limonitor.Common.{◌≡◌, ap, Bool, not, ◌&&◌, ◌||◌, arith, String, if◌then◌else◌}
use limonitor.Double.{Double, IsConsistent, ◌-F◌, ◌<F◌, ◌>F◌, ◌≥F◌, decimal}
use limonitor.AnalyticsEngine.Stage.{is_near, charging_stage_of}

module _ {F : Type 0} ⦃d : Double F⦄ where
  -- A charger that says it floats, or that is at its target with little current.
  abbrev pub floats : F → F → F → String → Bool
  floats bat_v target_v bat_a state =
      str_eq state "Float"
      || target_v >F decimal 0 0 && bat_v ≥F target_v -F decimal 5 2 && bat_a <F decimal 5 1

  abbrev pub stage_by_voltage : F → F → F → String → String
  stage_by_voltage bat_v target_v bat_a state =
      if not (str_eq state "Charging") && not (str_eq state "Float") && not (bat_a >F decimal 5 2)
      then "Idle"
      else if floats bat_v target_v bat_a state
      then "Float"
      else if is_near bat_v target_v
      then "Absorption"
      else "Bulk"

  abbrev by_distance : Bool → F → F → String
  by_distance falling bat_v target_v =
      if is_near bat_v target_v && falling
      then "Absorption"
      else if target_v >F decimal 0 0 && bat_v <F target_v -F decimal 15 2
      then "Bulk"
      else if is_near bat_v target_v
      then "Absorption"
      else "Bulk"

  abbrev near_name : F → F → String
  near_name bat_v target_v = if is_near bat_v target_v then "Absorption" else "Bulk"

  by_distance-near_name :
      (laws : IsConsistent F) (falling : Bool) (bat_v target_v : F)
      → by_distance falling bat_v target_v ≡ near_name bat_v target_v
  unfolding is_near
  by_distance-near_name laws falling bat_v target_v =
      ground (arith, laws.le_not_lt (target_v -F decimal 15 2) bat_v)

  -- Where no number is both at least as large as another and below it: the stage is idle, float, or
  -- absorption within 0.15 V of the target and bulk further away; the current before this reading, which
  -- the code compares with, makes no difference.
  pub charging_stage-by_voltage :
      (laws : IsConsistent F) (prev_chg_a bat_v target_v bat_a : F) (state : String)
      → charging_stage_of prev_chg_a bat_v target_v bat_a state
        ≡ stage_by_voltage bat_v target_v bat_a state
  unfolding charging_stage_of
  charging_stage-by_voltage laws prev_chg_a bat_v target_v bat_a state =
      let falling = prev_chg_a ≥F decimal 0 0 && bat_a <F prev_chg_a -F decimal 5 2 in
      ap
        (λ (far : String).
          if not (str_eq state "Charging")
            && not (str_eq state "Float")
            && not (bat_a >F decimal 5 2)
          then "Idle"
          else if floats bat_v target_v bat_a state
          then "Float"
          else far)
        (by_distance-near_name laws falling bat_v target_v)
