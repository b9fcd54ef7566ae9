-- ===== src/AnalyticsEngine/Stage.antt =====
-- src/analytics.cpp: update_charging_stage and the efficiency and solar fields of on_charger.
pub mod Cases
use text.Mathlib.Text.{◌==◌ as str_eq}
use limonitor.Common.{Bool, true, not, ◌&&◌, ◌||◌, String, if◌then◌else◌}
use limonitor.Double.{Double, ◌-F◌, ◌*F◌, ◌/F◌, ◌<F◌, ◌>F◌, ◌≥F◌, decimal}
use limonitor.Battery.{PwrGateSnapshot}
use limonitor.AnalyticsEngine.{Charger}

module _ {F : Type 0} ⦃d : Double F⦄ where
  unfoldable pub is_near : F → F → Bool
  is_near bat_v target_v = target_v >F decimal 0 0 && bat_v ≥F target_v -F decimal 15 2

  -- The stage that is shown, by the current before this reading.
  unfoldable pub charging_stage_of : F → F → F → F → String → String
  charging_stage_of prev_chg_a bat_v target_v bat_a state =
      let current_flowing = bat_a >F decimal 5 2 in
      let explicitly_idle = not (str_eq state "Charging") && not (str_eq state "Float") in
      let near_target = is_near bat_v target_v in
      let cur_falling = prev_chg_a ≥F decimal 0 0 && bat_a <F prev_chg_a -F decimal 5 2 in
      if explicitly_idle && not current_flowing
      then "Idle"
      else if str_eq state "Float"
          || target_v >F decimal 0 0 && bat_v ≥F target_v -F decimal 5 2 && bat_a <F decimal 5 1
      then "Float"
      else if near_target && cur_falling
      then "Absorption"
      else if target_v >F decimal 0 0 && bat_v <F target_v -F decimal 15 2
      then "Bulk"
      else if near_target
      then "Absorption"
      else "Bulk"

  unfoldable pub update_charging_stage : F → F → F → String → Charger F → Charger F
  update_charging_stage bat_v target_v bat_a state s = record s {
    charging_stage = charging_stage_of s.prev_chg_a bat_v target_v bat_a state;
  }

  unfoldable pub input_voltage : PwrGateSnapshot F → F
  input_voltage snap =
      if snap.ps_v >F decimal 5 1
      then snap.ps_v
      else if snap.sol_v >F decimal 5 1
      then snap.sol_v
      else decimal 0 0

  unfoldable pub note_efficiency : PwrGateSnapshot F → Charger F → Charger F
  note_efficiency snap s =
      let input_v = input_voltage snap in
      if snap.bat_a >F decimal 5 1 && snap.bat_v >F decimal 1 0 && input_v >F snap.bat_v
      then record s { charger_efficiency = snap.bat_v /F input_v; efficiency_valid = true }
      else s

  unfoldable pub show_solar : PwrGateSnapshot F → Charger F → Charger F
  show_solar snap s =
      let active = snap.sol_v >F decimal 1 0 in
      record s {
        solar_voltage_v = snap.sol_v;
        solar_active = active;
        solar_power_w =
            if active && snap.bat_a >F decimal 0 0 then snap.bat_v *F snap.bat_a else decimal 0 0;
      }
