-- ===== src/AnalyticsEngine/Energy.antt =====
-- src/analytics.cpp: reset_daily_if_needed, integrate_discharge_wh, and the parts of on_battery and
-- on_charger that keep the day's counters.
pub mod Archive
pub mod Integral
pub mod Depth
use text.Mathlib.Text.{◌==◌ as str_eq}
use limonitor.Common.{
  ℕ, Bool, true, false, not, ◌&&◌, ◌||◌, List, [], ◌∷◌, ◌++◌, length, ltb, drop, take, foldl,
  backwards, if◌then◌else◌,
}
use limonitor.Common.Int.{ℤ, pos, negsuc, ◌-ℤ◌, ◌*ℤ◌, leb_ℤ, eqb_ℤ}
use limonitor.Double.{Double, ◌+F◌, ◌-F◌, ◌*F◌, ◌/F◌, ◌<F◌, ◌>F◌, ◌≥F◌, decimal, neg}
use limonitor.Battery.{BatterySnapshot, PwrGateSnapshot}
use limonitor.AnalyticsEngine.{Day}

abbrev pub days_kept : ℕ
days_kept = 8

abbrev pub discharge_hours : ℕ
discharge_hours = 24

-- The arrays of an archive: appended to while there is room, else shifted by one.
unfoldable pub archive {ℓ} : {A : Type ℓ} → ℕ → List A → A → List A
archive n xs x = if ltb (length xs) n then xs ++ (x ∷ []) else drop 1 xs ++ (x ∷ [])

module _ {F : Type 0} ⦃d : Double F⦄ where
  abbrev pub zero_f : F
  zero_f = decimal 0 0

  unfoldable pub archive_day : Day F → Day F
  archive_day s =
      if leb_ℤ (pos 0) s.current_day
      then record s {
        energy_by_day = archive days_kept s.energy_by_day s.energy_discharged_wh;
        days_by_day = archive days_kept s.days_by_day s.current_day;
      }
      else s

  unfoldable pub start_day : ℤ → F → Day F → Day F
  start_day day ts s = record s {
    current_day = day;
    energy_charged_wh = zero_f;
    energy_discharged_wh = zero_f;
    solar_energy_wh = zero_f;
    max_soc = zero_f;
    min_soc = decimal 100 0;
    soc_init = false;
    charger_runtime_sec = zero_f;
    charger_runtime_day = day;
    prev_chg_minutes = negsuc 0;
    last_discharge_integration_ts = ts;
  }

  unfoldable pub reset_daily_if_needed : ℤ → F → Day F → Day F
  reset_daily_if_needed day ts s =
      if eqb_ℤ s.current_day day then s else start_day day ts (archive_day s)

  -- The hours between two readings, and whether they are near enough to integrate over.
  unfoldable pub hours_between : F → F → F
  hours_between from ts = (ts -F from) /F decimal 3600 0

  unfoldable pub is_step : F → Bool
  is_step dt_h = dt_h >F zero_f && dt_h <F (decimal 5 0 /F decimal 60 0)

  unfoldable pub integrate_discharge_wh : F → F → Day F → Day F
  integrate_discharge_wh ts power_w s =
      let ref_ts =
        if s.last_discharge_integration_ts ≥F zero_f then s.last_discharge_integration_ts else ts in
      let dt_h = hours_between ref_ts ts in
      let step = is_step dt_h in
      record s {
        energy_discharged_wh =
            if step then s.energy_discharged_wh +F power_w *F dt_h else s.energy_discharged_wh;
        discharge_wh_this_hour =
            if step then s.discharge_wh_this_hour +F power_w *F dt_h else s.discharge_wh_this_hour;
        last_discharge_integration_ts = ts;
      }

  -- The energy of a battery reading. `seen` and `prev` are `bat_seen_` and `prev_bat_ts_`.
  unfoldable pub note_battery_power : Bool → F → F → F → Day F → Day F
  note_battery_power seen prev ts pwr s =
      let dt_h = hours_between prev ts in
      if seen && ts >F prev && is_step dt_h
      then if pwr >F zero_f
        then integrate_discharge_wh ts pwr s
        else if pwr <F zero_f
        then record s { energy_charged_wh = s.energy_charged_wh +F neg pwr *F dt_h }
        else s
      else s

  unfoldable pub archive_hour : ℤ → Day F → Day F
  archive_hour hour s =
      if leb_ℤ (pos 0) s.last_discharge_hour && not (eqb_ℤ hour s.last_discharge_hour)
      then record s {
        discharge_wh_per_hour =
            archive discharge_hours s.discharge_wh_per_hour s.discharge_wh_this_hour;
        discharge_hour_ts = archive discharge_hours s.discharge_hour_ts s.last_discharge_hour;
        discharge_wh_this_hour = zero_f;
        last_discharge_hour = hour;
      }
      else record s { last_discharge_hour = hour }

  unfoldable pub note_soc : F → Day F → Day F
  note_soc soc s =
      if soc >F decimal 5 1
      then if not s.soc_init
        then record s { max_soc = soc; min_soc = soc; soc_init = true }
        else record s {
          max_soc = if soc >F s.max_soc then soc else s.max_soc;
          min_soc = if soc <F s.min_soc then soc else s.min_soc;
        }
      else s

  -- The solar energy of a charger reading.
  unfoldable pub note_solar : Bool → F → F → PwrGateSnapshot F → Day F → Day F
  note_solar seen prev ts snap s =
      let dt_h = hours_between prev ts in
      if seen && ts >F prev && snap.sol_v >F decimal 1 0 && snap.bat_a >F zero_f && is_step dt_h
      then record s { solar_energy_wh = s.solar_energy_wh +F snap.bat_v *F snap.bat_a *F dt_h }
      else s

  unfoldable pub is_running : PwrGateSnapshot F → Bool
  is_running snap =
      snap.bat_a >F decimal 5 2 || str_eq snap.state "Charging" || str_eq snap.state "Float"

  unfoldable pub start_runtime : ℤ → Day F → Day F
  start_runtime chg_day s = if eqb_ℤ s.charger_runtime_day chg_day then s else record s {
    charger_runtime_sec = zero_f;
    charger_runtime_day = chg_day;
    prev_chg_minutes = negsuc 0;
  }

  unfoldable pub add_minutes : ℤ → Day F → Day F
  add_minutes m s =
      let delta = m -ℤ s.prev_chg_minutes in
      record s {
        charger_runtime_sec =
            if leb_ℤ (pos 0) s.prev_chg_minutes && leb_ℤ (pos 0) delta && leb_ℤ delta (pos 10)
            then s.charger_runtime_sec +F d.of_ℤ (delta *ℤ pos 60)
            else s.charger_runtime_sec;
        prev_chg_minutes = m;
      }

  unfoldable pub note_runtime : ℤ → PwrGateSnapshot F → Day F → Day F
  note_runtime chg_day snap s =
      let today = start_runtime chg_day s in
      if is_running snap
      then add_minutes snap.minutes today
      else record today { prev_chg_minutes = negsuc 0 }

  -- Today and the last six completed days: the loop over `energy_by_day_` from its end.
  unfoldable pub add_back : ℕ → F → List F → F
  add_back n sum days = foldl ◌+F◌ sum (take n (backwards days))

  unfoldable pub energy_used_week : Day F → F
  energy_used_week s = add_back 6 s.energy_discharged_wh s.energy_by_day
