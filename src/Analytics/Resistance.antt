-- ===== src/Analytics/Resistance.antt =====
-- src/analytics/resistance_estimator.cpp: the internal resistance from the voltage drop of transmissions.
-- The `std::set` of processed times is its elements in ascending order.
pub mod Samples
use limonitor.Common.{
  ℕ, zero, suc, ◌+◌, ◌-◌, ◌*◌, ◌/◌, Bool, true, false, not, ◌&&◌, ◌||◌, ◌==◌, List, [], ◌∷◌, ◌++◌,
  Option, none, some, String, ltb, if◌then◌else◌, length, take, drop, trim, foldl,
}
use limonitor.Double.{Double, ◌+F◌, ◌-F◌, ◌*F◌, ◌/F◌, ◌<F◌, ◌>F◌, ◌≤F◌, ◌≥F◌, of_ℕ, decimal, neg}
use limonitor.Battery.{BatterySnapshot, TxEvent}

abbrev pub rolling_n : ℕ
rolling_n = 20

pub record ResistanceEstimator (F : Type 0) : Type 0 where
  pub r_ring : List F
  pub r_ts : List F
  pub processed_end_times : List F

module _ {F : Type 0} ⦃d : Double F⦄ where
  abbrev zero_f : F
  zero_f = decimal 0 0

  -- `count(x) > 0` and `insert(x)` of a `std::set<double>`.
  pub set_has : F → List F → Bool
  set_has x [] = false
  set_has x (y ∷ ys) = let rest = set_has x ys in if x <F y || y <F x then rest else true

  pub set_insert : F → List F → List F
  set_insert x [] = x ∷ []
  set_insert x (y ∷ ys) =
      let rest = set_insert x ys in
      if x <F y then x ∷ y ∷ ys else if y <F x then y ∷ rest else y ∷ ys

  pub push_sample : F → F → ResistanceEstimator F → ResistanceEstimator F
  push_sample ts r_mohm s = if r_mohm ≤F zero_f || r_mohm >F decimal 500 0 then s else record s {
    r_ring = trim rolling_n (s.r_ring ++ (r_mohm ∷ []));
    r_ts = drop (length (s.r_ring ++ (r_mohm ∷ [])) - rolling_n) (s.r_ts ++ (ts ∷ []));
  }

  abbrev pub time_of : BatterySnapshot F → F
  time_of s = of_ℕ s.timestamp

  -- The latest valid snapshot up to the start of a transmission.
  pub pick_pre : F → Option (BatterySnapshot F) → BatterySnapshot F → Option (BatterySnapshot F)
  pick_pre start_ts none s = if s.valid && time_of s ≤F start_ts then some s else none
  pick_pre start_ts (some pre) s =
      if s.valid && (time_of s ≤F start_ts && time_of s >F time_of pre) then some s else some pre

  -- The earliest valid snapshot within it.
  pub pick_during :
      F → F → Option (BatterySnapshot F) → BatterySnapshot F → Option (BatterySnapshot F)
  pick_during start_ts end_ts none s =
      if s.valid && (time_of s ≥F start_ts && time_of s ≤F end_ts) then some s else none
  pick_during start_ts end_ts (some during) s =
      if s.valid && (time_of s ≥F start_ts && (time_of s ≤F end_ts && time_of s <F time_of during))
      then some s
      else some during

  pub measure_between :
      TxEvent F
      → BatterySnapshot F
      → BatterySnapshot F
      → ResistanceEstimator F
      → ResistanceEstimator F
  measure_between ev pre during s =
      let i_idle = if pre.current_a >F zero_f then pre.current_a else zero_f in
      let drop_v = pre.total_voltage_v -F during.total_voltage_v in
      let rise_i = ev.peak_current -F i_idle in
      if rise_i <F decimal 3 1
      then s
      else push_sample ev.end_time (drop_v /F rise_i *F decimal 1000 0) s

  pub measure :
      TxEvent F
      → Option (BatterySnapshot F)
      → Option (BatterySnapshot F)
      → ResistanceEstimator F
      → ResistanceEstimator F
  measure ev none during s = s
  measure ev (some pre) none s = s
  measure ev (some pre) (some during) s = measure_between ev pre during s

  pub mark_processed : F → ResistanceEstimator F → ResistanceEstimator F
  mark_processed end_time s = record s {
    processed_end_times = trim 200 (set_insert end_time s.processed_end_times);
  }

  -- One pass of the loop over the events.
  pub process_event :
      List (BatterySnapshot F) → TxEvent F → ResistanceEstimator F → ResistanceEstimator F
  process_event history ev s =
      if ev.peak_current <F decimal 5 1 || ev.duration <F decimal 5 1
      then s
      else if set_has ev.end_time s.processed_end_times
      then s
      else measure ev (foldl (pick_pre ev.start_time) none history)
          (foldl (pick_during ev.start_time ev.end_time) none history)
          (mark_processed ev.end_time s)

  pub process_events :
      List (BatterySnapshot F) → List (TxEvent F) → ResistanceEstimator F → ResistanceEstimator F
  process_events history [] s = s
  process_events history (ev ∷ evs) s = process_events history evs (process_event history ev s)

  pub update :
      List (BatterySnapshot F) → List (TxEvent F) → ResistanceEstimator F → ResistanceEstimator F
  update [] tx_events s = s
  update (b ∷ bs) tx_events s = process_events (b ∷ bs) tx_events s

  pub sum : List F → F
  sum xs = foldl ◌+F◌ zero_f xs

  pub internal_resistance_mohm : ResistanceEstimator F → F
  internal_resistance_mohm s =
      if length s.r_ring == 0 then zero_f else sum s.r_ring /F of_ℕ (length s.r_ring)

  pub trend_of : F → F → String
  trend_of first_half second_half =
      let base = if first_half >F zero_f then first_half else decimal 1 0 in
      let pct = (second_half -F first_half) /F base in
      if pct >F decimal 1 1
      then "increasing"
      else if pct <F neg (decimal 1 1)
      then "decreasing"
      else "stable"

  pub trend : ResistanceEstimator F → String
  trend s =
      let n = length s.r_ring in
      let half = n / 2 in
      if n == 0
      then "—"
      else if ltb n 6
      then "collecting"
      else trend_of (sum (take half s.r_ring) /F of_ℕ half)
          (sum (drop half s.r_ring) /F of_ℕ (n - half))

  pub zip : List F → List F → List (F × F)
  zip [] rs = []
  zip (t ∷ ts) [] = []
  zip (t ∷ ts) (r ∷ rs) = (t, r) ∷ zip ts rs

  pub time_series : ℕ → ResistanceEstimator F → List (F × F)
  time_series n s =
      let len = length s.r_ring in
      let start = if ltb n len then len - n else 0 in zip (drop start s.r_ts) (drop start s.r_ring)
