-- ===== src/Weather/Week.antt =====
-- src/analytics/weather_forecast.cpp: the days of get_forecast_week, from the slots of three hours and
-- from the entries of the daily forecast.
pub mod Days
use text.Mathlib.Text.{◌==◌ as str_eq}
use limonitor.Common.{
  ℕ, suc, ◌==◌, Bool, true, false, not, ◌&&◌, List, [], ◌∷◌, ◌++◌, Option, none, some, String,
  foldl, if◌then◌else◌,
}
use limonitor.Common.Int.{ℤ, pos, ◌+ℤ◌, ltb_ℤ, eqb_ℤ}
use limonitor.Double.{Double, ◌+F◌, ◌-F◌, ◌*F◌, ◌/F◌, ◌<F◌, ◌>F◌, ◌≥F◌, of_ℕ, decimal, fmax, fmin}
use limonitor.Analytics.Solar.{Pack, max_charge_w}
use limonitor.Weather.{Service, Slot, DailyEntry, Bucket, acceptance_at_soc}

pub record SolarForecastSlot (F : Type 0) : Type 0 where
  pub timestamp : ℤ
  pub kwh : F
  pub kwh_lo : F
  pub kwh_hi : F
  pub cloud_cover : F
  pub daytime : Bool

-- What can be charged, with the bounds of a 95 % interval.
pub record Recovery (F : Type 0) : Type 0 where
  pub pct : F
  pub pct_lo : F
  pub pct_hi : F
  pub ah : F
  pub ah_lo : F
  pub ah_hi : F
  pub wh : F
  pub wh_lo : F
  pub wh_hi : F

pub record DailySolarForecast (F : Type 0) : Type 0 where
  pub date : String
  pub kwh : F
  pub cloud_cover : F
  pub optimal_start : String
  pub optimal_end : String
  pub optimal_reason : String
  pub sun_hours_effective : F
  pub max_recovery : Recovery F
  pub is_extended : Bool

-- The arguments of the call, with the pack's missing values filled in. An empty profile is none.
pub record Plan (F : Type 0) : Type 0 where
  pub panel_watts : F
  pub efficiency : F
  pub pack : Pack F
  pub current_soc_pct : F
  pub profile : List (Bucket F)

-- The sums over a day's slots, with the projected charge.
pub record DayAcc (F : Type 0) : Type 0 where
  pub kwh_nominal : F
  pub kwh_accepted : F
  pub cloud_sum : F
  pub cloud_n : ℕ
  pub sun_hours : F
  pub opt_start : Option ℤ
  pub opt_end : Option ℤ
  pub soc : F

-- The days so far, and what the week adds up to.
pub record WeekAcc (F : Type 0) : Type 0 where
  pub daily : List (DailySolarForecast F)
  pub total_nominal : F
  pub total_accepted : F
  pub best_day_kwh : F
  pub best_day : String
  pub soc : F

-- `by_day[key].push_back(t)` of a `std::map`, as a list in ascending order of the keys.
unfoldable pub add_to_day {ℓ} : {A : Type ℓ} → ℤ → A → List (ℤ × List A) → List (ℤ × List A)
add_to_day key x [] = (key, x ∷ []) ∷ []
add_to_day key x ((k, xs) ∷ rest) =
    let later = add_to_day key x rest in
    if eqb_ℤ key k
    then (k, xs ++ (x ∷ [])) ∷ rest
    else if ltb_ℤ key k
    then (key, x ∷ []) ∷ (k, xs) ∷ rest
    else (k, xs) ∷ later

abbrev pub or_first : Option ℤ → ℤ → Option ℤ
or_first none t = some t
or_first (some s) t = some s

unfoldable pub is_empty {ℓ} : {A : Type ℓ} → List A → Bool
is_empty [] = true
is_empty (x ∷ xs) = false

module _ {F : Type 0} ⦃d : Double F⦄ where
  abbrev pub zero_f : F
  zero_f = decimal 0 0

  abbrev pub cap_wh : Plan F → F
  cap_wh p = p.pack.cap_ah *F p.pack.v

  unfoldable pub margin_of : F → F
  margin_of cloud = decimal 196 2 *F (decimal 1 1 +F decimal 1 1 *F cloud)

  -- What the panels give in some hours under clouds, at most what the charger takes.
  unfoldable pub hours_kwh : Plan F → F → F → F
  hours_kwh p hours cloud =
      fmin (p.panel_watts *F hours *F p.efficiency *F (decimal 1 0 -F cloud) /F decimal 1000 0)
        (max_charge_w p.pack *F hours /F decimal 1000 0)

  unfoldable pub raise_soc : Plan F → F → F → F
  raise_soc p kwh soc =
      let raised = soc +F kwh *F decimal 1000 0 /F cap_wh p *F decimal 100 0 in
      if not (is_empty p.profile) && cap_wh p >F zero_f
      then if raised >F decimal 100 0 then decimal 100 0 else raised
      else soc

  unfoldable pub recovery : Plan F → F → F → F → Recovery F
  recovery p day_wh headroom cloud =
      let margin = margin_of cloud in
      let lo = fmax zero_f (decimal 1 0 -F margin) in
      let hi = decimal 1 0 +F margin in
      let cap = cap_wh p in
      let has_cap = cap >F zero_f in
      let has_ah = p.pack.cap_ah >F zero_f in
      record {
        wh = day_wh;
        wh_lo = day_wh *F lo;
        wh_hi = day_wh *F hi;
        ah = if has_ah then day_wh /F p.pack.v else zero_f;
        ah_lo = if has_ah then day_wh *F lo /F p.pack.v else zero_f;
        ah_hi = if has_ah then day_wh *F hi /F p.pack.v else zero_f;
        pct = if has_cap then fmin headroom (day_wh /F cap *F decimal 100 0) else zero_f;
        pct_lo =
            if has_cap
            then fmax zero_f (fmin headroom (day_wh *F lo /F cap *F decimal 100 0))
            else zero_f;
        pct_hi = if has_cap then fmin headroom (day_wh *F hi /F cap *F decimal 100 0) else zero_f;
      }

  -- One more day at the end, whatever made it.
  unfoldable pub add_day : DailySolarForecast F → F → F → F → WeekAcc F → WeekAcc F
  add_day day nominal accepted soc w =
      let better = nominal >F w.best_day_kwh in
      record {
        daily = w.daily ++ (day ∷ []);
        total_nominal = w.total_nominal +F nominal;
        total_accepted = w.total_accepted +F accepted;
        best_day_kwh = if better then nominal else w.best_day_kwh;
        best_day = if better then day.date else w.best_day;
        soc = soc;
      }

  unfoldable pub headroom_of : F → F
  headroom_of soc = fmax zero_f (decimal 100 0 -F soc)

  unfoldable pub cloudy_reason : F → F → String
  cloudy_reason cloud sun_hours =
      if cloud ≥F decimal 9 1
      then "Overcast"
      else if cloud ≥F decimal 7 1
      then "Mostly cloudy"
      else if sun_hours <F decimal 5 1
      then "No clear window"
      else "Cloudy all day"

  unfoldable pub has_date : String → List (DailySolarForecast F) → Bool
  has_date date [] = false
  has_date date (x ∷ xs) = let rest = has_date date xs in if str_eq x.date date then true else rest
