-- ===== src/AnalyticsEngine/Extended/Warnings.antt =====
-- src/analytics.cpp: the warnings of compute_extended_analytics. The charge slowdown (6 readings) and the
-- limited power supply (4 readings) are debounced by the same code.
pub mod Hysteresis
use text.Mathlib.Text.{◌==◌ as str_eq}
use limonitor.Common.{
  ℕ, suc, ◌+◌, ◌/◌, Bool, true, false, not, ◌&&◌, ◌||◌, Option, none, some, leb, if◌then◌else◌,
}
use limonitor.Common.Int.{ℤ, pos, ◌*ℤ◌, quot_ℕ, ltb_ℤ}
use limonitor.Double.{Double, ◌+F◌, ◌-F◌, ◌*F◌, ◌<F◌, ◌>F◌, ◌≥F◌, of_ℕ, decimal, neg}
use limonitor.Battery.{PwrGateSnapshot}
use limonitor.AnalyticsEngine.{Text, literal, psu_limited, Debounced, Charger}
use limonitor.AnalyticsEngine.Extended.{abs}

module _ {F : Type 0} where
  unfoldable pub calm : Debounced F
  calm = record { confirm = 0; clear = 0; warning = none }

  unfoldable pub quiet_turn : ℕ → Option (Text F) → ℕ → Debounced F
  quiet_turn n none clear = record { confirm = 0; clear = 0; warning = none }
  quiet_turn n (some msg) clear = record {
    confirm = 0;
    clear = suc clear;
    warning = if leb n (suc clear) then none else some msg;
  }

  -- n readings in a row show the warning, and n others in a row clear it.
  unfoldable pub debounce : ℕ → Bool → Text F → Debounced F → Debounced F
  debounce n now msg s =
      if now
      then record {
        confirm = suc s.confirm;
        clear = 0;
        warning = if leb n (suc s.confirm) then some msg else s.warning;
      }
      else quiet_turn n s.warning s.clear

module _ {F : Type 0} ⦃d : Double F⦄ where
  unfoldable pub is_active : PwrGateSnapshot F → Bool
  is_active chg = str_eq chg.state "Charging" || str_eq chg.state "Float"

  unfoldable pub count_low : PwrGateSnapshot F → Charger F → Charger F
  count_low chg s =
      if is_active chg && chg.bat_a <F decimal 3 1 && chg.target_a >F decimal 2 0
      then record s {
        chg_low_current_count = suc s.chg_low_current_count;
        abnormal_warning =
            if leb 3 (suc s.chg_low_current_count)
            then some (literal "Charging but current extremely low")
            else s.abnormal_warning;
      }
      else record s { chg_low_current_count = 0 }

  unfoldable pub follow_voltage : PwrGateSnapshot F → Charger F → Charger F
  follow_voltage chg s =
      let ema =
        s.chg_bat_v_delta_ema *F decimal 8 1
        +F abs (chg.bat_v -F s.prev_chg_bat_v) *F decimal 2 1 in
      if s.prev_chg_bat_v ≥F decimal 0 0 && is_active chg
      then record s {
        chg_bat_v_delta_ema = ema;
        abnormal_warning =
            if ema >F decimal 5 1 then some (literal "Voltage unstable") else s.abnormal_warning;
        prev_chg_bat_v = chg.bat_v;
      }
      else record s { prev_chg_bat_v = chg.bat_v }

  abbrev forget_voltage : Charger F → Charger F
  forget_voltage s = record s {
    prev_chg_bat_v = neg (decimal 1 0);
    chg_bat_v_delta_ema = decimal 0 0;
  }

  unfoldable pub watch_charger : Option (PwrGateSnapshot F) → Charger F → Charger F
  watch_charger none s = forget_voltage (record s { abnormal_warning = none })
  watch_charger (some chg) s =
      let cleared : Charger F = record s { abnormal_warning = none } in
      if chg.valid then follow_voltage chg (count_low chg cleared) else forget_voltage cleared

  -- Full effort without effect. `trend` is the voltage's.
  unfoldable pub is_plateau : Bool → PwrGateSnapshot F → Charger F → Bool
  is_plateau rising chg s =
      str_eq s.charging_stage "Bulk"
      && chg.bat_v <F chg.target_v -F decimal 15 2
      && (ltb_ℤ (pos 800) chg.pwm
          || chg.target_a >F decimal 5 1 && chg.bat_a ≥F chg.target_a *F decimal 85 2)
      && not rising
      && is_active chg

  unfoldable pub plateau_start : F → Charger F → F
  plateau_start ts s = if s.psu_plateau_start_ts <F decimal 0 0 then ts else s.psu_plateau_start_ts

  unfoldable pub judge_psu : Bool → PwrGateSnapshot F → Charger F → Charger F
  judge_psu rising chg s =
      let ts = of_ℕ chg.timestamp in
      let msg = psu_limited chg.bat_v chg.target_v (quot_ℕ (chg.pwm *ℤ pos 100) 1023) in
      let start = plateau_start ts s in
      if is_plateau rising chg s
      then record s {
        psu_plateau_start_ts = start;
        psu = debounce 4 (ts -F start ≥F decimal 900 0) msg s.psu;
      }
      else record s { psu_plateau_start_ts = neg (decimal 1 0); psu = debounce 4 false msg s.psu }

  abbrev forget_psu : Charger F → Charger F
  forget_psu s = record s { psu_plateau_start_ts = neg (decimal 1 0); psu = calm }

  unfoldable pub watch_psu : Bool → Option (PwrGateSnapshot F) → Charger F → Charger F
  watch_psu rising none s = forget_psu s
  watch_psu rising (some chg) s =
      if chg.valid && chg.target_v >F decimal 5 1 then judge_psu rising chg s else forget_psu s
