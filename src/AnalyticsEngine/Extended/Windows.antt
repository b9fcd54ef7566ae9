-- ===== src/AnalyticsEngine/Extended/Windows.antt =====
-- src/analytics.cpp: the charge rate history of compute_extended_analytics.
pub mod Latest
use limonitor.Common.{
  ℕ, zero, suc, ◌+◌, ◌-◌, ◌%◌, Bool, ◌&&◌, Option, none, some, ltb, leb, get_or, if◌then◌else◌,
}
use limonitor.Double.{Double, ◌+F◌, ◌*F◌, ◌/F◌, ◌<F◌, ◌>F◌, of_ℕ, decimal}
use limonitor.Battery.{BatterySnapshot}
use limonitor.AnalyticsEngine.Rings.{Ring, push}
use limonitor.AnalyticsEngine.{Text, slowed, Debounced, Rates}
use limonitor.AnalyticsEngine.Extended.{is_charging}
use limonitor.AnalyticsEngine.Extended.Warnings.{debounce, calm}

abbrev pub rate_n : ℕ
rate_n = 72

pub record WindowSums (F : Type 0) : Type 0 where
  pub recent_sum : F
  pub recent_n : ℕ
  pub baseline_sum : F
  pub baseline_n : ℕ

-- The cell that was written i pushes before the latest one.
unfoldable pub newest {ℓ} : {A : Type ℓ} → ℕ → Ring A → ℕ → A → A
newest n r i x = get_or r.cells ((r.head + n - 1 - i) % n) x

module _ {F : Type 0} ⦃d : Double F⦄ where
  abbrev pub no_sums : WindowSums F
  no_sums = record {
    recent_sum = decimal 0 0;
    recent_n = 0;
    baseline_sum = decimal 0 0;
    baseline_n = 0;
  }

  -- The latest 18 rates, and 18 more from 36 rates before.
  unfoldable pub add_rate : ℕ → F → WindowSums F → WindowSums F
  add_rate i rate s =
      if ltb i 18
      then record s { recent_sum = s.recent_sum +F rate; recent_n = suc s.recent_n }
      else if leb 36 i && ltb i 54
      then record s { baseline_sum = s.baseline_sum +F rate; baseline_n = suc s.baseline_n }
      else s

  -- The loop from i on, with `left` turns to go.
  unfoldable pub window_sums : ℕ → ℕ → Ring (F × F) → WindowSums F → WindowSums F
  window_sums zero i r s = s
  window_sums (suc left) i r s =
      window_sums left (suc i) r (add_rate i (newest rate_n r i (decimal 0 0, decimal 0 0)).0 s)

  unfoldable pub mean : F → ℕ → F
  mean sum n = if ltb 0 n then sum /F of_ℕ n else decimal 0 0

  unfoldable pub is_slower : F → F → Bool
  is_slower recent baseline = baseline >F decimal 5 2 && recent <F baseline *F decimal 5 1

  abbrev smooth : F → F → F
  smooth old new = decimal 75 2 *F old +F decimal 25 2 *F new

  unfoldable pub compare_rates : Rates F → Rates F
  compare_rates s =
      let sums = window_sums s.rate.count 0 s.rate no_sums in
      let recent = mean sums.recent_sum sums.recent_n in
      let baseline = mean sums.baseline_sum sums.baseline_n in
      let recent_smoothed = smooth s.recent_smoothed recent in
      let baseline_smoothed = smooth s.baseline_smoothed baseline in
      record s {
        recent_smoothed = recent_smoothed;
        baseline_smoothed = baseline_smoothed;
        recent_pct_per_h = recent_smoothed;
        baseline_pct_per_h = baseline_smoothed;
        slowdown = debounce 6 (is_slower recent baseline) (slowed recent baseline) s.slowdown;
      }

  unfoldable pub push_rate : F → F → Rates F → Rates F
  push_rate ts rate s = record s {
    rate = push rate_n (rate, ts) s.rate;
    recent_pct_per_h = decimal 0 0;
    baseline_pct_per_h = decimal 0 0;
  }

  -- `soc_rate` is `soc_rate_pct_per_h` of the snapshot.
  unfoldable pub note_rate : BatterySnapshot F → F → Rates F → Rates F
  note_rate bat soc_rate s =
      let pushed = push_rate (of_ℕ bat.timestamp) soc_rate s in
      let ring = s.rate in
      if is_charging bat
      then if leb 54 pushed.rate.count then compare_rates pushed else pushed
      else record s {
        rate = record ring { count = 0 };
        recent_smoothed = decimal 0 0;
        baseline_smoothed = decimal 0 0;
        recent_pct_per_h = decimal 0 0;
        baseline_pct_per_h = decimal 0 0;
        slowdown = calm;
      }
