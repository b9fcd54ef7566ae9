-- ===== src/AnalyticsEngine/Aging.antt =====
-- src/analytics.cpp: update_health_and_age, the two setters, and the parts of on_battery that follow the
-- capacity. `now` is `std::time(nullptr)`.
pub mod Date
pub mod Bounds
use limonitor.Common.{
  ℕ, Bool, true, false, not, ◌&&◌, ◌||◌, List, Option, none, some, if◌then◌else◌,
}
use limonitor.Common.Int.{ℤ, pos, negsuc, ◌-ℤ◌, ltb_ℤ, leb_ℤ}
use limonitor.Double.{
  Double, ◌+F◌, ◌-F◌, ◌*F◌, ◌/F◌, ◌<F◌, ◌>F◌, ◌≤F◌, ◌≥F◌, decimal, neg, fmax, fmin,
}
use limonitor.Battery.{BatterySnapshot}
use limonitor.AnalyticsEngine.{Capacity, Host}
use limonitor.AnalyticsEngine.Aging.Date.{scan_date}

module _ {F : Type 0} ⦃d : Double F⦄ where
  abbrev pub minus_one : F
  minus_one = neg (decimal 1 0)

  unfoldable pub show_capacity : Capacity F → Capacity F
  show_capacity s =
      if s.best_discharge_ah >F decimal 1 0 && s.rated_capacity_ah >F decimal 0 0
      then record s {
        usable_capacity_ah = s.best_discharge_ah;
        shown_capacity_ah = s.rated_capacity_ah;
        capacity_health_pct =
            fmin (decimal 100 0) (s.best_discharge_ah /F s.rated_capacity_ah *F decimal 100 0);
      }
      else record s {
        usable_capacity_ah = decimal 0 0;
        shown_capacity_ah = s.rated_capacity_ah;
        capacity_health_pct = minus_one;
      }

  -- The age at a time of purchase, in years.
  unfoldable pub years_since : ℤ → ℤ → F
  years_since now tp =
      if leb_ℤ (pos 0) tp && ltb_ℤ tp now
      then d.of_ℤ (now -ℤ tp) /F (decimal 36525 2 *F decimal 86400 0)
      else decimal 0 0

  unfoldable pub expected_health : F → F → F
  expected_health age capacity_health =
      let aged =
        if age ≥F decimal 0 0
        then fmax (decimal 0 0) (decimal 100 0 -F age *F decimal 25 1)
        else minus_one in
      if capacity_health ≥F decimal 0 0 then capacity_health else aged

  -- The years until the health falls below 80 %, at most until an age of 10 years.
  unfoldable pub years_left : F → F → F
  years_left age health =
      let seen = if age >F decimal 1 1 then (decimal 100 0 -F health) /F age else decimal 25 1 in
      let rate = if seen ≤F decimal 0 0 then decimal 5 1 else seen in
      fmin (fmax (decimal 0 0) ((health -F decimal 80 0) /F rate))
        (fmax (decimal 0 0) (decimal 10 0 -F age))

module _ {F : Type 0} ⦃d : Double F⦄ ⦃host : Host F⦄ where
  unfoldable pub age_at : ℤ → Option (ℤ × ℤ × ℤ) → F
  age_at now none = minus_one
  age_at now (some (yr, mo, dy)) = years_since now (host.mktime yr mo dy)

  unfoldable pub show_age : F → F → Capacity F → Capacity F
  show_age age health s =
      let yrem = years_left age health in
      if age ≥F decimal 0 0 && health ≥F decimal 0 0
      then record s {
        battery_age_years = age;
        battery_health_pct = health;
        years_remaining_low = host.floor (fmax (decimal 0 0) (yrem -F decimal 5 1));
        years_remaining_high = host.ceil (yrem +F decimal 5 1);
        battery_replace_warn = health <F decimal 80 0 || age >F decimal 8 0;
      }
      else record s {
        battery_age_years = age;
        battery_health_pct = health;
        years_remaining_low = minus_one;
        years_remaining_high = minus_one;
        battery_replace_warn = false;
      }

  unfoldable pub update_health_and_age : ℤ → Capacity F → Capacity F
  update_health_and_age now s =
      let shown = show_capacity s in
      let age = age_at now (scan_date s.purchase_date) in
      show_age age (expected_health age shown.capacity_health_pct) shown

  unfoldable pub set_rated_capacity : ℤ → F → Capacity F → Capacity F
  set_rated_capacity now ah s =
      if ah >F decimal 0 0
      then update_health_and_age now
          (record s { rated_capacity_ah = ah; rated_override = true; shown_capacity_ah = ah })
      else s

  unfoldable pub set_purchase_date : ℤ → List ℕ → Capacity F → Capacity F
  set_purchase_date now date s = update_health_and_age now (record s { purchase_date = date })

  -- The rated capacity that a reading gives, unless the user set one.
  unfoldable pub detect_capacity : F → Capacity F → Capacity F
  detect_capacity nominal s =
      if not s.rated_override && nominal >F decimal 1 0
      then record s { rated_capacity_ah = nominal; shown_capacity_ah = nominal }
      else s

  unfoldable pub end_discharge : ℤ → F → Capacity F → Capacity F
  end_discharge now remaining s =
      let consumed = s.discharge_start_ah -F remaining in
      let measured =
        if consumed >F decimal 5 0 && consumed >F s.best_discharge_ah
        then update_health_and_age now (record s { best_discharge_ah = consumed })
        else s in
      record measured { was_discharging = false }

  unfoldable pub track_discharge : ℤ → BatterySnapshot F → Capacity F → Capacity F
  track_discharge now snap s =
      let discharging = snap.current_a >F decimal 1 1 in
      let charging = snap.current_a <F neg (decimal 1 1) in
      if discharging && not s.was_discharging
      then record s { discharge_start_ah = snap.remaining_ah; was_discharging = true }
      else if not discharging && s.was_discharging
      then end_discharge now snap.remaining_ah s
      else if charging
      then record s { was_discharging = false }
      else s
