-- ===== src/AnalyticsEngine/Regression.antt =====
-- src/analytics.cpp: push_voltage_soc_sample, compute_voltage_trend and compute_soc_trend, which keep the
-- sums of two linear regressions over the last twelve samples.
pub mod Cached
use limonitor.Common.{ℕ, Bool, ◌==◌, ltb, if◌then◌else◌, String, get_or}
use limonitor.Double.{Double, ◌+F◌, ◌-F◌, ◌*F◌, ◌/F◌, ◌<F◌, ◌>F◌, of_ℕ, decimal, neg}
use limonitor.AnalyticsEngine.Rings.{push}
use limonitor.AnalyticsEngine.{Trend, TrendSample, Sums}

abbrev pub voltage_n : ℕ
voltage_n = 12

module _ {F : Type 0} ⦃d : Double F⦄ where
  abbrev pub no_sample : TrendSample F
  no_sample = record { ts = decimal 0 0; v = decimal 0 0; soc = decimal 0 0 }

  unfoldable pub add_point : F → F → Sums F → Sums F
  add_point x y s = record { x = s.x +F x; y = s.y +F y; x2 = s.x2 +F x *F x; xy = s.xy +F x *F y }

  unfoldable pub take_point : F → F → Sums F → Sums F
  take_point x y s = record { x = s.x -F x; y = s.y -F y; x2 = s.x2 -F x *F x; xy = s.xy -F x *F y }

  -- The sums without the sample that a full ring is about to overwrite.
  unfoldable pub leave : Trend F → Trend F
  leave s =
      let old = get_or s.samples.cells s.samples.head no_sample in
      if s.samples.count == voltage_n
      then record s {
        v_sum = take_point old.ts old.v s.v_sum;
        s_sum = take_point old.ts old.soc s.s_sum;
      }
      else s

  unfoldable pub push_voltage_soc_sample : F → F → F → Trend F → Trend F
  push_voltage_soc_sample ts v soc s =
      let left = leave s in
      record left {
        samples = push voltage_n (record { ts = ts; v = v; soc = soc }) left.samples;
        v_sum = add_point ts v left.v_sum;
        s_sum = add_point ts soc left.s_sum;
      }

  unfoldable pub denominator : ℕ → Sums F → F
  denominator count s = of_ℕ count *F s.x2 -F s.x *F s.x

  unfoldable pub slope : ℕ → Sums F → F
  slope count s = (of_ℕ count *F s.xy -F s.x *F s.y) /F denominator count s

  unfoldable pub is_flat : ℕ → Sums F → Bool
  is_flat count s = denominator count s <F decimal 1 6

  -- The name of a slope whose noise lies within `eps`.
  unfoldable pub name_slope : F → F → String
  name_slope eps k = if k >F eps then "up" else if k <F neg eps then "down" else "stable"

  unfoldable pub compute_voltage_trend : Trend F → Trend F
  compute_voltage_trend s =
      let n = s.samples.count in
      if ltb n 6
      then record s { voltage_trend = "—" }
      else if is_flat n s.v_sum
      then record s { voltage_trend = "stable" }
      else record s { voltage_trend = name_slope (decimal 1 6) (slope n s.v_sum) }

  unfoldable pub compute_soc_trend : Trend F → Trend F
  compute_soc_trend s =
      let n = s.samples.count in
      let k = slope n s.s_sum in
      if ltb n 6
      then record s { soc_trend = "—"; soc_rate_pct_per_h = decimal 0 0 }
      else if is_flat n s.s_sum
      then record s { soc_trend = "stable"; soc_rate_pct_per_h = decimal 0 0 }
      else record s {
        soc_trend = name_slope (decimal 1 5) k;
        soc_rate_pct_per_h = k *F decimal 3600 0;
      }
