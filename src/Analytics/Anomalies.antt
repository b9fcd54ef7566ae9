-- ===== src/Analytics/Anomalies.antt =====
-- src/analytics/anomaly_detection.cpp: the detector of unusual load, charging and internal resistance.
-- `now` is the system clock in whole seconds. The text of an event, which is made of its numbers, is left
-- out.
pub mod Debounce
use text.Mathlib.Text.{◌==◌ as str_eq}
use limonitor.Common.{
  ℕ, zero, suc, ◌+◌, ◌-◌, ◌*◌, ◌/◌, Bool, true, false, not, ◌&&◌, ◌||◌, ◌==◌, List, [], ◌∷◌, ◌++◌,
  Option, none, some, String, ltb, leb, if◌then◌else◌, length, take, drop, push_bounded, foldl,
  backwards,
}
use limonitor.Double.{Double, ◌+F◌, ◌-F◌, ◌*F◌, ◌/F◌, ◌<F◌, ◌>F◌, ◌≤F◌, of_ℕ, decimal, neg}
use limonitor.Battery.{BatterySnapshot, PwrGateSnapshot}

abbrev pub load_window : ℕ
load_window = 360

abbrev pub r_window : ℕ
r_window = 35 * 100

abbrev pub anomalies_max : ℕ
anomalies_max = 50

pub record AnomalyEvent (F : Type 0) : Type 0 where
  pub type : String
  pub timestamp : ℕ
  pub load_w : F
  pub baseline_w : F
  pub charge_current : F
  pub expected_current : F
  pub r_internal_today : F
  pub r_internal_30day_avg : F

pub record AnomalyDetector (F : Type 0) : Type 0 where
  pub load_ring : List F
  pub load_count : ℕ
  pub r_internal_ring : List F
  pub r_internal_day : List ℕ
  pub anomalies : List (AnomalyEvent F)

module _ {F : Type 0} where
  -- The debounce loops. An entry of another type ends them.
  unfoldable pub is_recent : String → ℕ → ℕ → List (AnomalyEvent F) → Bool
  is_recent type window now [] = false
  is_recent type window now (e ∷ es) =
      let rest = is_recent type window now es in
      if not (str_eq e.type type)
      then false
      else if ltb (now - e.timestamp) window
      then true
      else rest

module _ {F : Type 0} ⦃d : Double F⦄ where
  abbrev zero_f : F
  zero_f = decimal 0 0

  pub sum : List F → F
  sum xs = foldl ◌+F◌ zero_f xs

  pub rolling_avg_load : AnomalyDetector F → F
  rolling_avg_load s =
      if s.load_count == 0 then zero_f else sum (take s.load_count s.load_ring) /F of_ℕ s.load_count

  pub note_load : F → AnomalyDetector F → AnomalyDetector F
  note_load load_w s =
      let grown = s.load_ring ++ (load_w ∷ []) in
      let ring =
        if load_w >F decimal 1 1
        then if ltb load_window (length grown) then drop 1 grown else grown
        else s.load_ring in
      record s { load_ring = ring; load_count = length ring }

  pub note_resistance : ℕ → F → AnomalyDetector F → AnomalyDetector F
  note_resistance now r s =
      let ring = s.r_internal_ring ++ (r ∷ []) in
      let days = s.r_internal_day ++ (now / 86400 ∷ []) in
      if r >F zero_f
      then if ltb r_window (length ring)
        then record s { r_internal_ring = drop 1 ring; r_internal_day = drop 1 days }
        else record s { r_internal_ring = ring; r_internal_day = days }
      else s

-- The sums and counts of `r_internal_avgs`.
pub record Averages (F : Type 0) : Type 0 where
  pub sum_30d : F
  pub n_30d : ℕ
  pub sum_today : F
  pub n_today : ℕ

-- What the rules read besides the battery's snapshot.
pub record Context (F : Type 0) : Type 0 where
  pub now : ℕ
  pub chg : Option (PwrGateSnapshot F)
  pub charging_stage : String
  pub r_internal_mohm : F
  pub effective_max_charge_a : F

module _ {F : Type 0} ⦃d : Double F⦄ where
  pub add_day : ℕ → F → ℕ → Averages F → Averages F
  add_day today r day a =
      let month = leb today (day + 30) in
      let same = day == today in
      if r ≤F zero_f then a else record {
        sum_30d = if month then a.sum_30d +F r else a.sum_30d;
        n_30d = if month then suc a.n_30d else a.n_30d;
        sum_today = if same then a.sum_today +F r else a.sum_today;
        n_today = if same then suc a.n_today else a.n_today;
      }

  pub sum_days : ℕ → List F → List ℕ → Averages F → Averages F
  sum_days today [] days a = a
  sum_days today (r ∷ rs) [] a = a
  sum_days today (r ∷ rs) (day ∷ days) a = sum_days today rs days (add_day today r day a)

  pub mean : F → ℕ → F
  mean total n = if ltb 0 n then total /F of_ℕ n else zero_f

  -- The average of thirty days, and that of today.
  pub r_internal_avgs : ℕ → AnomalyDetector F → F × F
  r_internal_avgs now s =
      let a =
        sum_days (now / 86400) s.r_internal_ring s.r_internal_day
          (record { sum_30d = zero_f; n_30d = 0; sum_today = zero_f; n_today = 0 }) in
      (mean a.sum_30d a.n_30d, mean a.sum_today a.n_today)

  pub blank_event : String → ℕ → AnomalyEvent F
  blank_event type now = record {
    type = type;
    timestamp = now;
    load_w = zero_f;
    baseline_w = zero_f;
    charge_current = zero_f;
    expected_current = zero_f;
    r_internal_today = zero_f;
    r_internal_30day_avg = zero_f;
  }

  -- Whether `anomalies_` has an entry of the type, as its debounce loop finds it.
  pub recent_in : String → ℕ → ℕ → AnomalyDetector F → Bool
  recent_in type window now s = is_recent type window now (backwards s.anomalies)

  pub add_anomaly : AnomalyEvent F → AnomalyDetector F → AnomalyDetector F
  add_anomaly ev s = record s { anomalies = push_bounded anomalies_max s.anomalies ev }

  pub load_spike_rule : ℕ → F → AnomalyDetector F → AnomalyDetector F
  load_spike_rule now load_w s =
      let baseline = rolling_avg_load s in
      if not (recent_in "load_spike" 120 now s)
        && (leb 72 s.load_count && (baseline >F decimal 5 0 && load_w >F baseline *F decimal 18 1))
      then add_anomaly
          (record (blank_event "load_spike" now) { load_w = load_w; baseline_w = baseline }) s
      else s

  pub expected_current : BatterySnapshot F → PwrGateSnapshot F → F → F
  expected_current bat chg effective =
      let soc = bat.soc_pct /F decimal 100 0 in
      let max_a = if chg.target_a >F zero_f then chg.target_a else effective in
      let expected = max_a *F (decimal 1 0 -F soc) in
      if expected <F decimal 5 1 then decimal 5 1 else expected

  -- `std::abs` of a double.
  abbrev pub fabs : F → F
  fabs x = if x <F zero_f then neg x else x

  pub slow_charging_with :
      Context F
      → BatterySnapshot F
      → Option (PwrGateSnapshot F)
      → AnomalyDetector F
      → AnomalyDetector F
  slow_charging_with c bat none s = s
  slow_charging_with c bat (some chg) s =
      let expected = expected_current bat chg c.effective_max_charge_a in
      let actual = fabs chg.bat_a in
      if not (recent_in "slow_charging" 900 c.now s)
        && (chg.valid && (str_eq c.charging_stage "Bulk" && actual <F expected *F decimal 6 1))
      then add_anomaly
          (record (blank_event "slow_charging" c.now) {
            charge_current = actual;
            expected_current = expected;
          })
          s
      else s

  pub resistance_rule : ℕ → AnomalyDetector F → AnomalyDetector F
  resistance_rule now s =
      let avgs = r_internal_avgs now s in
      let r_30d = avgs.0 in
      let r_today = avgs.1 in
      if not (recent_in "resistance_increase" 86400 now s)
        && (r_today >F zero_f && (r_30d >F zero_f && r_today >F r_30d *F decimal 15 1))
      then add_anomaly
          (record (blank_event "resistance_increase" now) {
            r_internal_today = r_today;
            r_internal_30day_avg = r_30d;
          })
          s
      else s

  pub update : Context F → BatterySnapshot F → AnomalyDetector F → AnomalyDetector F
  update c bat s =
      let load_w = if bat.power_w >F zero_f then bat.power_w else zero_f in
      if bat.valid
      then resistance_rule c.now (
          slow_charging_with c bat c.chg (
            load_spike_rule c.now load_w
              (note_resistance c.now c.r_internal_mohm (note_load load_w s))))
      else s

  -- A stretch of updates.
  pub run : List (Context F × BatterySnapshot F) → AnomalyDetector F → AnomalyDetector F
  run [] s = s
  run ((c, bat) ∷ rest) s = run rest (update c bat s)
