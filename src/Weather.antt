-- ===== src/Weather.antt =====
-- src/analytics/weather_forecast.cpp: the projections, and what the forecasts are made from. `Service`
-- holds what the C library and the time zone give: `scan` is `sscanf` of "%lf", `trunc` the conversion to
-- `int`, and the others are made of `localtime_r` of a time in seconds.
pub mod Parse
pub mod Week
pub mod Forecast
pub mod Projection
mod Examples
use limonitor.Common.{
  ℕ, zero, suc, ◌+◌, ◌-◌, Bool, true, false, ◌&&◌, ◌||◌, List, [], ◌∷◌, ◌++◌, Option, none, some,
  String, map, if◌then◌else◌, get_or,
}
use limonitor.Common.Int.{ℤ, pos, negsuc, ◌+ℤ◌, ◌-ℤ◌, ltb_ℤ, leb_ℤ, pos_part}
use limonitor.Double.{Double, ◌+F◌, ◌-F◌, ◌*F◌, ◌/F◌, ◌<F◌, ◌>F◌, ◌≤F◌, of_ℕ, decimal}

pub record Service (F : Type 0) : Type 0 where
  pub scan : List ℕ → Option F
  pub trunc : F → ℤ
  pub day_key : ℤ → ℤ
  pub date : ℤ → String
  pub hour_minute : ℤ → String
  pub month : ℤ → ℕ

-- A slot of three hours: its time, the share of clouds and whether it is day.
pub record Slot (F : Type 0) : Type 0 where
  pub dt : ℤ
  pub cloud : F
  pub daytime : Bool

pub record DailyEntry (F : Type 0) : Type 0 where
  pub dt : ℤ
  pub cloud_cover : F
  pub daylight_h : F
  pub sunrise : ℤ
  pub sunset : ℤ

-- The fields of a `ChargeAcceptanceBucket` that are read.
pub record Bucket (F : Type 0) : Type 0 where
  pub acceptance_ratio : F
  pub sample_count : ℤ

unfoldable pub bucket_of : ℤ → ℤ
bucket_of b = if ltb_ℤ b (pos 0) then pos 0 else if ltb_ℤ (pos 9) b then pos 9 else b

module _ {F : Type 0} ⦃d : Double F⦄ where
  -- `std::clamp(x, 0.0, 100.0)`
  unfoldable pub clamp_pct : F → F
  clamp_pct x =
      if x <F decimal 0 0 then decimal 0 0 else if decimal 100 0 <F x then decimal 100 0 else x

  -- The loop of `project_battery_soc` from a charge on.
  unfoldable pub project_from : F → F → List F → List F → List F
  project_from capacity_wh soc [] usage = []
  project_from capacity_wh soc (g ∷ gs) [] = []
  project_from capacity_wh soc (g ∷ gs) (u ∷ us) =
      let next = clamp_pct (soc +F (g -F u) /F capacity_wh *F decimal 100 0) in
      next ∷ project_from capacity_wh next gs us

  -- `result.resize(n, x)` for the shorter length of the two lists.
  unfoldable pub constant : F → List F → List F → List F
  constant x [] usage = []
  constant x (g ∷ gs) [] = []
  constant x (g ∷ gs) (u ∷ us) = x ∷ constant x gs us

  unfoldable pub project_battery_soc : F → F → List F → List F → List F
  project_battery_soc start_soc_pct capacity_wh generation_wh usage_wh =
      let soc = clamp_pct start_soc_pct in
      if capacity_wh ≤F decimal 0 0
      then constant soc generation_wh usage_wh
      else project_from capacity_wh soc generation_wh usage_wh

  unfoldable pub estimate_runtime_h : F → F → F → F → F
  estimate_runtime_h capacity_wh soc_pct cutoff_pct load_w =
      if capacity_wh ≤F decimal 0 0 || load_w ≤F decimal 0 0 || soc_pct ≤F cutoff_pct
      then decimal 0 0
      else capacity_wh *F (soc_pct -F cutoff_pct) /F decimal 100 0 /F load_w

  -- The weighted sum of the loop in `scale_usage_profile`, and the number of samples.
  unfoldable pub weighted : List F → List ℤ → F → ℤ → F × ℤ
  weighted [] counts sum n = (sum, n)
  weighted (w ∷ ws) [] sum n = (sum, n)
  weighted (w ∷ ws) (c ∷ cs) sum n = weighted ws cs (sum +F w *F d.of_ℤ c) (n +ℤ c)

  unfoldable pub profile_avg : List F → List ℤ → F
  profile_avg avg counts =
      let (sum, n) = weighted avg counts (decimal 0 0) (pos 0) in
      if ltb_ℤ (pos 0) n then sum /F d.of_ℤ n else decimal 0 0

  abbrev pub scaled : F → List F → List F
  scaled k ws = map (λ w. w *F k) ws

  -- The two profiles after the call, and the factor it returns.
  unfoldable pub scale_usage_profile : List F → List F → List ℤ → F → List F × List F × F
  scale_usage_profile avg stddev counts measured_avg_w =
      let profile = profile_avg avg counts in
      let scale = measured_avg_w /F profile in
      if measured_avg_w ≤F decimal 5 1 || profile ≤F decimal 5 1
      then (avg, stddev, decimal 1 0)
      else (scaled scale avg, scaled scale stddev, scale)

  abbrev empty_bucket : Bucket F
  empty_bucket = record { acceptance_ratio = decimal 1 0; sample_count = pos 0 }

  unfoldable pub has_data : List (Bucket F) → ℕ → Bool
  has_data profile i = leb_ℤ (pos 3) (get_or profile i empty_bucket).sample_count

  -- The neighbours of a bucket, nearest first and the lower one before the upper one.
  unfoldable pub nearest : List (Bucket F) → ℤ → ℕ → ℕ → F
  nearest profile bucket delta zero = decimal 1 0
  nearest profile bucket delta (suc left) =
      let rest = nearest profile bucket (suc delta) left in
      let below = bucket -ℤ pos delta in
      let above = bucket +ℤ pos delta in
      if leb_ℤ (pos 0) below && has_data profile (pos_part below)
      then (get_or profile (pos_part below) empty_bucket).acceptance_ratio
      else if leb_ℤ above (pos 9) && has_data profile (pos_part above)
      then (get_or profile (pos_part above) empty_bucket).acceptance_ratio
      else rest

module _ {F : Type 0} ⦃d : Double F⦄ (service : Service F) where
  -- A profile has ten buckets, or is empty.
  unfoldable pub acceptance_at_soc : List (Bucket F) → F → F
  acceptance_at_soc [] soc_pct = decimal 1 0
  acceptance_at_soc (b ∷ bs) soc_pct =
      let bucket = bucket_of (service.trunc (soc_pct /F decimal 10 0)) in
      if has_data (b ∷ bs) (pos_part bucket)
      then (get_or (b ∷ bs) (pos_part bucket) empty_bucket).acceptance_ratio
      else nearest (b ∷ bs) bucket 1 4
