-- ===== src/AnalyticsEngine/Extended.antt =====
-- src/analytics.cpp: compute_extended_analytics up to the alerts, by its blocks. The estimates of the
-- runtime and the status stand in child modules.
pub mod Windows
pub mod Warnings
pub mod Runtimes
pub mod Status
use text.Mathlib.Text.{◌==◌ as str_eq}
use limonitor.Common.{
  ℕ, suc, ◌+◌, ◌-◌, ◌%◌, Bool, true, false, not, ◌&&◌, ◌||◌, List, [], ◌∷◌, ◌++◌, Option, none,
  some, String, ltb, leb, if◌then◌else◌,
}
use limonitor.Common.Int.{ℤ, pos}
use limonitor.Double.{Double, ◌+F◌, ◌-F◌, ◌*F◌, ◌/F◌, ◌<F◌, ◌>F◌, ◌≥F◌, of_ℕ, decimal, neg, fmax}
use limonitor.Battery.{BatterySnapshot, PwrGateSnapshot}
use limonitor.AnalyticsEngine.{Text, literal, harvesting, detected, Shown, Debounced}

module _ {F : Type 0} ⦃d : Double F⦄ where
  -- `std::abs`
  abbrev pub abs : F → F
  abs a = if a <F decimal 0 0 then neg a else a

  unfoldable pub is_charging : BatterySnapshot F → Bool
  is_charging bat = bat.current_a <F neg (decimal 1 1) && bat.valid

  abbrev pub pack_voltage : BatterySnapshot F → F
  pack_voltage bat =
      if bat.total_voltage_v >F decimal 1 0 then bat.total_voltage_v else decimal 512 1

  -- The rate that is shown stays as it was where the capacity is unknown.
  unfoldable pub show_rate : BatterySnapshot F → Shown F → Shown F
  show_rate bat s =
      let w = abs bat.power_w in
      let total_wh = bat.nominal_ah *F pack_voltage bat in
      if is_charging bat
      then record s {
        charge_rate_w = w;
        charge_rate_pct_per_h =
            if bat.nominal_ah >F decimal 1 0 && total_wh >F decimal 0 0
            then w /F total_wh *F decimal 100 0
            else s.charge_rate_pct_per_h;
      }
      else record s { charge_rate_w = decimal 0 0; charge_rate_pct_per_h = decimal 0 0 }

  unfoldable pub stress_of : F → Bool → F → String
  stress_of dod temp_valid max_temp =
      if temp_valid && max_temp ≥F decimal 45 0 || dod ≥F decimal 50 0
      then "high"
      else if dod ≥F decimal 30 0 || temp_valid && max_temp ≥F decimal 40 0
      then "moderate"
      else if dod <F decimal 30 0 && (not temp_valid || max_temp <F decimal 40 0)
      then "low"
      else "—"

  unfoldable pub show_stress : Shown F → Shown F
  show_stress s = record s {
    battery_stress = stress_of s.depth_of_discharge_pct s.temp_valid (fmax s.temp1_c s.temp2_c);
  }

  unfoldable pub readiness : Option (PwrGateSnapshot F) → Option (Text F)
  readiness none = none
  readiness (some chg) =
      if chg.sol_v >F decimal 1 0
      then if chg.bat_a >F decimal 3 1
        then some (harvesting (chg.sol_v *F chg.bat_a))
        else some (detected chg.sol_v)
      else none

  abbrev alert_if : Bool → String → List (Text F)
  alert_if b msg = if b then literal msg ∷ [] else []

  abbrev alert_some : Option (Text F) → List (Text F)
  alert_some none = []
  alert_some (some msg) = msg ∷ []

  -- The alerts, from the fields they read: balance, temperature, efficiency, the voltage's trend, the
  -- charge, and the three warnings.
  unfoldable pub health_alerts :
      Shown F
      → Bool
      → F
      → String
      → F
      → Option (Text F)
      → Option (Text F)
      → Option (Text F)
      → List (Text F)
  health_alerts s eff_valid eff trend soc abnormal psu slowdown =
      alert_if (str_eq s.cell_balance_status "Imbalance" || str_eq s.cell_balance_status "Warning")
        "Cell imbalance warning"
      ++ alert_if (str_eq s.temp_status "Warning" || str_eq s.temp_status "Warm")
          "High battery temperature"
      ++ alert_if (eff_valid && eff ≥F decimal 0 0 && eff <F decimal 75 2) "Low charger efficiency"
      ++ alert_if (str_eq trend "down" && soc <F decimal 20 0) "Abnormal voltage behavior"
      ++ alert_some abnormal
      ++ alert_some psu
      ++ alert_some slowdown
