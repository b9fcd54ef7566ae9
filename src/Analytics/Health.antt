-- ===== src/Analytics/Health.antt =====
-- src/analytics/health_score.cpp: the health score. `anomalies` of the result is the number that the text
-- "%zu detected" is made of; the text is "none" where it is 0.
use limonitor.Common.{
  ℕ, ◌+◌, ◌-◌, ◌≤◌, ◌<◌, ◌≡◌, ap, ◌∙◌, Bool, ◌&&◌, String, arith, ltb, if◌then◌else◌,
}
use limonitor.Common.Int.{ℤ, pos, ◌-ℤ◌, ltb_ℤ}
use limonitor.Double.{Double, ◌>F◌, ◌≥F◌, decimal, fmax}

-- The fields of an `AnalyticsSnapshot` that the score reads.
pub record Measures (F : Type 0) : Type 0 where
  pub battery_health_pct : F
  pub capacity_health_pct : F
  pub cell_delta_mv : F
  pub efficiency_valid : Bool
  pub charger_efficiency : F
  pub temp_valid : Bool
  pub temp1_c : F
  pub temp2_c : F

pub record HealthScoreResult : Type 0 where
  pub score : ℤ
  pub battery : String
  pub cells : String
  pub charging : String
  pub temperature : String
  pub anomalies : ℕ

pub anomaly_penalty : ℕ → ℕ
anomaly_penalty count = if ltb 0 count then 15 else 0

-- `std::max(0, std::min(100, score))`
pub clamp : ℤ → ℤ
clamp score =
    let low = if ltb_ℤ score (pos 100) then score else pos 100 in
    if ltb_ℤ (pos 0) low then low else pos 0

sub_pos : (m n : ℕ) → n ≤ m → pos m -ℤ pos n ≡ pos (m - n)
sub_pos m n h = ground arith

clamp-pos : (n : ℕ) → n ≤ 100 → clamp (pos n) ≡ pos n
unfolding clamp
clamp-pos n h = ground arith

less_all :
    (b c e t a : ℕ)
    → b + c + e + t + a ≤ 100
    → pos 100 -ℤ pos b -ℤ pos c -ℤ pos e -ℤ pos t -ℤ pos a ≡ pos (100 - (b + c + e + t + a))
less_all b c e t a h =
    ap (λ z. z -ℤ pos c -ℤ pos e -ℤ pos t -ℤ pos a) (sub_pos 100 b (omega arith))
    ∙ ap (λ z. z -ℤ pos e -ℤ pos t -ℤ pos a) (sub_pos (100 - b) c (omega arith))
    ∙ ap (λ z. z -ℤ pos t -ℤ pos a) (sub_pos (100 - b - c) e (omega arith))
    ∙ ap (λ z. z -ℤ pos a) (sub_pos (100 - b - c - e) t (omega arith))
    ∙ sub_pos (100 - b - c - e - t) a (omega arith)
    ∙ ap pos (omega arith)

module _ {F : Type 0} ⦃d : Double F⦄ where
  -- A verdict and what it takes off the score.
  pub judge_battery : Measures F → String × ℕ
  judge_battery an =
      let health =
        if an.battery_health_pct ≥F decimal 0 0
        then an.battery_health_pct
        else an.capacity_health_pct in
      if health ≥F decimal 0 0
      then if health ≥F decimal 90 0
        then ("excellent", 0)
        else if health ≥F decimal 80 0
        then ("good", 5)
        else if health ≥F decimal 70 0
        then ("fair", 15)
        else ("poor", 25)
      else ("unknown", 0)

  pub judge_cells : Measures F → String × ℕ
  judge_cells an =
      if an.cell_delta_mv >F decimal 50 0
      then ("imbalanced", 20)
      else if an.cell_delta_mv >F decimal 25 0
      then ("warning", 10)
      else if an.cell_delta_mv >F decimal 10 0
      then ("balanced", 5)
      else ("balanced", 0)

  pub judge_charging : Measures F → String × ℕ
  judge_charging an =
      if an.efficiency_valid && an.charger_efficiency ≥F decimal 0 0
      then if an.charger_efficiency ≥F decimal 9 1
        then ("optimal", 0)
        else if an.charger_efficiency ≥F decimal 8 1
        then ("degraded", 10)
        else ("poor", 20)
      else ("—", 0)

  pub judge_temperature : Measures F → String × ℕ
  judge_temperature an =
      let max_temp = fmax an.temp1_c an.temp2_c in
      if an.temp_valid
      then if max_temp ≥F decimal 50 0
        then ("critical", 20)
        else if max_temp ≥F decimal 40 0
        then ("warm", 10)
        else ("normal", 0)
      else ("—", 0)

  pub compute : Measures F → ℕ → HealthScoreResult
  compute an count =
      let b = judge_battery an in
      let c = judge_cells an in
      let e = judge_charging an in
      let t = judge_temperature an in
      record {
        score =
            clamp
              (pos 100 -ℤ pos b.1 -ℤ pos c.1 -ℤ pos e.1 -ℤ pos t.1 -ℤ pos (anomaly_penalty count));
        battery = b.0;
        cells = c.0;
        charging = e.0;
        temperature = t.0;
        anomalies = count;
      }

  -- What the judgements take off at the most.
  penalties-le :
      (an : Measures F) (count : ℕ)
      → ((judge_battery an).1 ≤ 25)
        × ((judge_cells an).1 ≤ 20)
        × ((judge_charging an).1 ≤ 20)
        × ((judge_temperature an).1 ≤ 20)
        × (anomaly_penalty count ≤ 15)
  unfolding judge_battery judge_cells judge_charging judge_temperature anomaly_penalty
  penalties-le an count = (ground arith, ground arith, ground arith, ground arith, ground arith)

  -- The score is 100 less the sum of the penalties, which is never above 100: it lies between 0 and 100
  -- before it is clamped, and the clamp changes nothing.
  pub compute-score :
      (an : Measures F) (count : ℕ)
      → let taken =
          (judge_battery an).1
          + (judge_cells an).1
          + (judge_charging an).1
          + (judge_temperature an).1
          + anomaly_penalty count in
        (taken ≤ 100) × ((compute an count).score ≡ pos (100 - taken))
  unfolding compute
  compute-score an count =
      let (b, c, e, t, a) = penalties-le an count in
      let within : (judge_battery an).1
            + (judge_cells an).1
            + (judge_charging an).1
            + (judge_temperature an).1
            + anomaly_penalty count
          ≤ 100 =
        omega (arith, b, c, e, t, a) in
      (
        within,
        ap clamp (
              less_all (judge_battery an).1 (judge_cells an).1 (judge_charging an).1
                (judge_temperature an).1 (anomaly_penalty count) within)
            ∙ clamp-pos _ (omega arith),
      )

  -- Anomalies cost 15 points, however many there are.
  pub compute-anomalies :
      (an : Measures F) (count : ℕ)
      → 0 < count
      → (n : ℕ) × ((compute an count).score ≡ pos n) × ((compute an 0).score ≡ pos (n + 15))
  unfolding anomaly_penalty
  compute-anomalies an count h =
      let (w, e) = compute-score an count in
      let (v, f) = compute-score an 0 in
      let p : anomaly_penalty count ≡ 15 = ground arith in (_, e, f ∙ ap pos (omega (arith, w, p)))
