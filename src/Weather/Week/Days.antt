-- ===== src/Weather/Week/Days.antt =====
-- src/analytics/weather_forecast.cpp: the slots and the days of get_forecast_week, which the time zone and
-- the acceptance of the charge enter.
use limonitor.Common.{
  ℕ, suc, ◌==◌, true, false, ◌&&◌, List, [], ◌∷◌, Option, none, some, String, foldl, if◌then◌else◌,
}
use limonitor.Common.Int.{ℤ, pos, ◌+ℤ◌, ltb_ℤ}
use limonitor.Double.{Double, ◌+F◌, ◌-F◌, ◌*F◌, ◌/F◌, ◌<F◌, ◌>F◌, ◌≥F◌, of_ℕ, decimal, fmax}
use limonitor.Weather.{Service, Slot, DailyEntry, acceptance_at_soc}
use limonitor.Weather.Week.{
  DayAcc, Plan, SolarForecastSlot, WeekAcc, add_day, add_to_day, cap_wh, cloudy_reason, has_date,
  headroom_of, hours_kwh, is_empty, margin_of, or_first, raise_soc, recovery, zero_f,
}

module _ {F : Type 0} ⦃d : Double F⦄ (service : Service F) where
  unfoldable pub accepted_kwh : Plan F → F → F → F
  accepted_kwh p kwh soc = elim p.profile [
    | [] ↦ kwh
    | b ∷ bs ↦ kwh *F acceptance_at_soc service (b ∷ bs) soc
  ]

  unfoldable pub slot_of : Plan F → Slot F → F → SolarForecastSlot F
  slot_of p t soc =
      let margin = margin_of t.cloud in
      let kwh = accepted_kwh p (hours_kwh p (decimal 3 0) t.cloud) soc in
      if t.daytime
      then record {
        timestamp = t.dt;
        kwh = kwh;
        kwh_lo = kwh *F fmax zero_f (decimal 1 0 -F margin);
        kwh_hi = kwh *F (decimal 1 0 +F margin);
        cloud_cover = t.cloud;
        daytime = true;
      }
      else record {
        timestamp = t.dt;
        kwh = zero_f;
        kwh_lo = zero_f;
        kwh_hi = zero_f;
        cloud_cover = t.cloud;
        daytime = false;
      }

  -- The loop over the slots, with the charge that the ones before lead to.
  unfoldable pub slots_of : Plan F → List (Slot F) → F → List (SolarForecastSlot F)
  slots_of p [] soc = []
  slots_of p (t ∷ ts) soc =
      let s = slot_of p t soc in
      s ∷ slots_of p ts (if t.daytime then raise_soc p s.kwh soc else soc)

  unfoldable pub by_day : List (Slot F) → List (ℤ × List (Slot F))
  by_day ts = foldl (λ days t. add_to_day (service.day_key t.dt) t days) [] ts

  unfoldable pub add_slot : Plan F → DayAcc F → Slot F → DayAcc F
  add_slot p a t =
      let kwh = hours_kwh p (decimal 3 0) t.cloud in
      let accepted = accepted_kwh p kwh a.soc in
      let clear = t.cloud <F decimal 5 1 in
      if t.daytime
      then record {
        kwh_nominal = a.kwh_nominal +F kwh;
        kwh_accepted = a.kwh_accepted +F accepted;
        cloud_sum = a.cloud_sum +F t.cloud;
        cloud_n = suc a.cloud_n;
        sun_hours = a.sun_hours +F decimal 3 0 *F (decimal 1 0 -F t.cloud);
        opt_start = if clear then or_first a.opt_start t.dt else a.opt_start;
        opt_end = if clear then some t.dt else a.opt_end;
        soc = raise_soc p accepted a.soc;
      }
      else a

  abbrev start_acc : F → DayAcc F
  start_acc soc = record {
    kwh_nominal = zero_f;
    kwh_accepted = zero_f;
    cloud_sum = zero_f;
    cloud_n = 0;
    sun_hours = zero_f;
    opt_start = none;
    opt_end = none;
    soc = soc;
  }

  -- The clear window of a day: start, end and the reason for a missing one.
  unfoldable pub window : Option ℤ → Option ℤ → F → F → String × String × String
  window none end cloud sun = ("—", "—", cloudy_reason cloud sun)
  window (some s) none cloud sun = ("—", "—", cloudy_reason cloud sun)
  window (some s) (some e) cloud sun =
      (service.hour_minute s, service.hour_minute (e +ℤ pos 10800), "")

  abbrev front_time : List (Slot F) → ℤ
  front_time [] = pos 0
  front_time (t ∷ ts) = t.dt

  unfoldable pub day_of : Plan F → WeekAcc F → ℤ × List (Slot F) → WeekAcc F
  day_of p w (key, slots) =
      let a = foldl (add_slot p) (start_acc w.soc) slots in
      let cloud = if a.cloud_n == 0 then zero_f else a.cloud_sum /F of_ℕ a.cloud_n in
      let used = if is_empty p.profile then a.kwh_nominal else a.kwh_accepted in
      let (start, end, reason) = window a.opt_start a.opt_end cloud a.sun_hours in
      add_day
        (record {
          date = service.date (front_time slots);
          kwh = a.kwh_nominal;
          cloud_cover = cloud;
          optimal_start = start;
          optimal_end = end;
          optimal_reason = reason;
          sun_hours_effective = a.sun_hours;
          max_recovery = recovery p (used *F decimal 1000 0) (headroom_of a.soc) cloud;
          is_extended = false;
        })
        a.kwh_nominal a.kwh_accepted a.soc w

  -- The acceptance of a day of the daily forecast, as the mean over three parts of it.
  unfoldable pub sub_acceptance : Plan F → F → F → ℕ → F
  sub_acceptance p kwh soc ss =
      let at =
        soc +F of_ℕ ss *F kwh *F decimal 1000 0 /F (decimal 3 0 *F cap_wh p) *F decimal 100 0 in
      acceptance_at_soc service p.profile (if at >F decimal 100 0 then decimal 100 0 else at)

  unfoldable pub entry_accepted : Plan F → F → F → F
  entry_accepted p kwh soc =
      if is_empty p.profile
      then kwh
      else kwh
        *F (zero_f
            +F sub_acceptance p kwh soc 0
            +F sub_acceptance p kwh soc 1
            +F sub_acceptance p kwh soc 2)
        /F decimal 3 0

  unfoldable pub entry_window : DailyEntry F → String × String × String
  entry_window e =
      if e.cloud_cover <F decimal 7 1 && ltb_ℤ (pos 0) e.sunrise && ltb_ℤ e.sunrise e.sunset
      then (service.hour_minute e.sunrise, service.hour_minute e.sunset, "")
      else ("—", "—", if e.cloud_cover ≥F decimal 9 1 then "Overcast" else "Mostly cloudy")

  -- An entry whose date is there already is skipped.
  unfoldable pub extend_day : Plan F → WeekAcc F → DailyEntry F → WeekAcc F
  extend_day p w e =
      let cloud = e.cloud_cover in
      let kwh = hours_kwh p e.daylight_h cloud in
      let accepted = entry_accepted p kwh w.soc in
      let used = if is_empty p.profile then kwh else accepted in
      let (start, end, reason) = entry_window e in
      if has_date (service.date e.dt) w.daily
      then w
      else add_day
          (record {
            date = service.date e.dt;
            kwh = kwh;
            cloud_cover = cloud;
            optimal_start = start;
            optimal_end = end;
            optimal_reason = reason;
            sun_hours_effective = e.daylight_h *F (decimal 1 0 -F cloud);
            max_recovery =
                recovery p (used *F decimal 1000 0) (headroom_of p.current_soc_pct) cloud;
            is_extended = true;
          })
          kwh accepted (raise_soc p accepted w.soc) w
