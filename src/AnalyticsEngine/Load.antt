-- ===== src/AnalyticsEngine/Load.antt =====
-- src/analytics.cpp: push_load_sample, recompute_load_stats, push_charger_power_sample and
-- avg_charger_power_w.
pub mod Stats
use limonitor.Common.{ℕ, suc, ◌==◌, Bool, ◌&&◌, List, [], ◌∷◌, take, foldl, ltb, if◌then◌else◌}
use limonitor.Double.{Double, ◌+F◌, ◌-F◌, ◌/F◌, ◌<F◌, ◌>F◌, ◌≥F◌, of_ℕ, decimal}
use limonitor.AnalyticsEngine.Rings.{push}
use limonitor.AnalyticsEngine.{Loads}

abbrev pub load_n : ℕ
load_n = 720

abbrev pub chg_pwr_n : ℕ
chg_pwr_n = 720

-- The sums of the loop in `recompute_load_stats`.
pub record LoadSums (F : Type 0) : Type 0 where
  pub sum : F
  pub peak : F
  pub idle_sum : F
  pub idle_n : ℕ

module _ {F : Type 0} ⦃d : Double F⦄ where
  unfoldable pub push_charger_power_sample : F → Loads F → Loads F
  push_charger_power_sample watts s = record s { chg_pwr = push chg_pwr_n watts s.chg_pwr }

  unfoldable pub avg_charger_power_w : Loads F → F
  avg_charger_power_w s =
      let ring = s.chg_pwr in
      if ring.count == 0
      then decimal 0 0
      else foldl ◌+F◌ (decimal 0 0) (take ring.count ring.cells) /F of_ℕ ring.count

  -- A sample within 2.5 s of the last one is left out.
  unfoldable pub is_early : F → F → Bool
  is_early ts last = last ≥F decimal 0 0 && ts -F last <F decimal 25 1

  unfoldable pub push_load_sample : F → F → Loads F → Loads F
  push_load_sample ts watts s =
      if is_early ts s.last_load_push_ts
      then s
      else record s { last_load_push_ts = ts; load = push load_n watts s.load }

  unfoldable pub add_load : LoadSums F → F → LoadSums F
  add_load s w =
      let idle = w <F decimal 15 0 in
      record {
        sum = s.sum +F w;
        peak = if w >F s.peak then w else s.peak;
        idle_sum = if idle then s.idle_sum +F w else s.idle_sum;
        idle_n = if idle then suc s.idle_n else s.idle_n;
      }

  unfoldable pub load_sums : List F → LoadSums F
  load_sums ws =
      foldl add_load
        (record { sum = decimal 0 0; peak = decimal 0 0; idle_sum = decimal 0 0; idle_n = 0 }) ws

  unfoldable pub recompute_load_stats : Loads F → Loads F
  recompute_load_stats s =
      let n = s.load.count in
      let sums = load_sums (take n s.load.cells) in
      let avg = sums.sum /F of_ℕ n in
      if n == 0 then s else record s {
        avg_load_watts = avg;
        peak_load_watts = sums.peak;
        idle_load_watts = if ltb 0 sums.idle_n then sums.idle_sum /F of_ℕ sums.idle_n else avg;
      }
