-- ===== src/AnalyticsEngine/Extended/Status.antt =====
-- src/analytics.cpp: compute_system_status.
pub mod Debounce
use limonitor.Common.{
  ℕ, zero, suc, ◌==◌, Bool, ◌&&◌, Option, none, some, String, leb, if◌then◌else◌,
}
use limonitor.Double.{Double, ◌<F◌, ◌>F◌, ◌≥F◌, decimal, neg}
use limonitor.Battery.{BatterySnapshot}
use limonitor.AnalyticsEngine.{Mode, SystemText, waiting, report}

-- A valid reading of another mode counts, and the fourth one in a row switches to its mode.
unfoldable pub follow_mode : ℕ → Mode → Mode
follow_mode pending s =
    if pending == s.system_mode
    then record s { system_mode_confirm = 0 }
    else if leb 4 (suc s.system_mode_confirm)
    then record { system_mode = pending; system_mode_confirm = 0 }
    else record s { system_mode_confirm = suc s.system_mode_confirm }

unfoldable pub mode_name : ℕ → String
mode_name mode =
    if mode == 1 then "Charging normally" else if mode == 2 then "Discharging" else "Idle"

module _ {F : Type 0} ⦃d : Double F⦄ where
  unfoldable pub pending_mode : BatterySnapshot F → ℕ
  pending_mode bat =
      if bat.current_a <F neg (decimal 1 1)
      then 1
      else if bat.current_a >F decimal 1 1
      then 2
      else 0

  unfoldable pub health_name : F → Option String
  health_name health =
      if health ≥F decimal 0 0
      then some (
          if health ≥F decimal 90 0
          then "Good"
          else if health ≥F decimal 70 0
          then "Fair"
          else "Poor")
      else none

  unfoldable pub hours_left : F → Option F
  hours_left h = if h >F decimal 0 0 && h <F decimal 1000 0 then some h else none

  unfoldable pub next_mode : BatterySnapshot F → Mode → Mode
  next_mode bat s =
      if bat.valid then follow_mode (pending_mode bat) s else record s { system_mode_confirm = 0 }

  -- The mode is the one after this reading.
  unfoldable pub system_text : BatterySnapshot F → F → String → String → Mode → SystemText F
  system_text bat health balance temp s =
      if bat.valid
      then report (mode_name s.system_mode) (health_name health) (hours_left bat.time_remaining_h)
          balance temp
      else waiting
