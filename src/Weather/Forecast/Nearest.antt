-- ===== src/Weather/Forecast/Nearest.antt =====
-- Which slot the present share of clouds is taken from.
use limonitor.Common.{
  ℕ, ◌≤◌, ◌<◌, ◌≡◌, refl, sym, ap, ◌∙◌, ◌⊎◌, inl, inr, List, [], ◌∷◌, Option, none, some, arith,
  foldl, All, ltb, ltb→lt, ltb→ge, Bool-cases, if_true, if_false, subst,
}
use limonitor.Common.Int.{ℤ}
use limonitor.Double.{Double, neg, decimal}
use limonitor.Weather.{Service, Slot}
use limonitor.Weather.Parse.{parse_forecast_list}
use limonitor.Weather.Forecast.{WeatherForecast, abs_diff, nearer, within_two_hours}
use limonitor.Weather.Forecast.Calls.{current_cloud_cover}

-- Some entry of a list satisfies P.
abbrev pub Has : {F : Type 0} → (Slot F → Type 0) → List (Slot F) → Type 0
Has P [] = ⊥
Has P (t ∷ ts) = P t ⊎ Has P ts

module _ {F : Type 0} ⦃d : Double F⦄ where
  -- A slot at a distance from now, with a share of clouds.
  abbrev pub IsAt : ℤ → ℕ × F → Slot F → Type 0
  IsAt now (diff, cloud) t = (abs_diff t.dt now ≡ diff) × (t.cloud ≡ cloud)

  -- From a best one so far: one that is as near, is not farther than any slot, and is the best one so far
  -- or that of a slot.
  abbrev Improves : ℤ → ℕ × F → List (Slot F) → Option (ℕ × F) → Type 0
  Improves now old ts found =
      (best : ℕ × F) × (found ≡ some best)
      × (best.0 ≤ old.0)
      × All (λ t. best.0 ≤ abs_diff t.dt now) ts
      × ((best ≡ old) ⊎ Has (IsAt now best) ts)

  nearer_step :
      (now : ℤ) (old : ℕ × F) (t : Slot F)
      → (best : ℕ × F) × (nearer now (some old) t ≡ some best)
        × (best.0 ≤ old.0)
        × (best.0 ≤ abs_diff t.dt now)
        × ((best ≡ old) ⊎ IsAt now best t)
  unfolding nearer
  nearer_step now (diff, cloud) t = elim (Bool-cases (ltb (abs_diff t.dt now) diff)) [
    | inl e ↦ (
      (abs_diff t.dt now, t.cloud),
      if_true _ _ e,
      omega (arith, ltb→lt _ _ e),
      omega arith,
      inr (refl, refl),
    )
    | inr e ↦ ((diff, cloud), if_false _ _ e, omega arith, ltb→ge _ _ e, inl refl)
  ]

  merge :
      (now : ℤ) (best mid old : ℕ × F) (t : Slot F) (ts : List (Slot F))
      → (best ≡ mid) ⊎ Has (IsAt now best) ts
      → (mid ≡ old) ⊎ IsAt now mid t
      → (best ≡ old) ⊎ Has (IsAt now best) (t ∷ ts)
  merge now best mid old t ts (inr h) o = inr (inr h)
  merge now best mid old t ts (inl e) (inl g) = inl (e ∙ g)
  merge now best mid old t ts (inl e) (inr g) = inr (inl (subst (λ b. IsAt now b t) (sym e) g))

  fold-Improves :
      (now : ℤ) (old : ℕ × F) (ts : List (Slot F))
      → Improves now old ts (foldl (nearer now) (some old) ts)
  fold-Improves now old [] = (old, refl, omega arith, tt, inl refl)
  fold-Improves now old (t ∷ ts) =
      let (mid, e, le, lt, o) = nearer_step now old t in
      let (best, f, le', a, p) = fold-Improves now mid ts in
      (
        best,
        ap (λ m. foldl (nearer now) m ts) e ∙ f,
        omega (arith, le, le'),
        (omega (arith, lt, le'), a),
        merge now best mid old t ts p o,
      )

  -- The share of clouds that the slots give at a time.
  abbrev pub IsCover : ℤ → List (Slot F) → F → Type 0
  IsCover now slots cover =
      (slots ≡ []) × (cover ≡ neg (decimal 1 0))
      ⊎ (best : ℕ × F) × Has (IsAt now best) slots
        × All (λ t. best.0 ≤ abs_diff t.dt now) slots
        × ((7200 < best.0) × (cover ≡ neg (decimal 1 0)) ⊎ (best.0 ≤ 7200) × (cover ≡ best.1))

  cut_off :
      (best : ℕ × F) (found : Option (ℕ × F))
      → found ≡ some best
      → (7200 < best.0) × (within_two_hours found ≡ neg (decimal 1 0))
        ⊎ (best.0 ≤ 7200) × (within_two_hours found ≡ best.1)
  unfolding within_two_hours
  cut_off (diff, cloud) found e = elim (Bool-cases (ltb 7200 diff)) [
    | inl h ↦ inl (ltb→lt _ _ h, ap within_two_hours e ∙ if_true _ _ h)
    | inr h ↦ inr (ltb→ge _ _ h, ap within_two_hours e ∙ if_false _ _ h)
  ]

  found_first :
      (now : ℤ) (t : Slot F) (ts : List (Slot F)) (best : ℕ × F)
      → (best ≡ (abs_diff t.dt now, t.cloud)) ⊎ Has (IsAt now best) ts
      → Has (IsAt now best) (t ∷ ts)
  found_first now t ts best (inl e) =
      inl (sym (ap (λ (b : ℕ × F). b.0) e), sym (ap (λ (b : ℕ × F). b.1) e))
  found_first now t ts best (inr h) = inr h

  fold-IsCover :
      (now : ℤ) (slots : List (Slot F))
      → IsCover now slots (within_two_hours (foldl (nearer now) none slots))
  unfolding nearer within_two_hours
  fold-IsCover now [] = inl (refl, refl)
  fold-IsCover now (t ∷ ts) =
      let first : ℕ × F = (abs_diff t.dt now, t.cloud) in
      let (best, e, le, a, p) = fold-Improves now first ts in
      inr (best, found_first now t ts best p, (le, a), cut_off best _ e)

  -- The present share of clouds is that of a slot than which none is nearer, if that is within two hours;
  -- it is -1 if the nearest one is farther away, or there is no slot in the cached answer.
  pub current_cloud_cover-IsCover :
      (service : Service F) (now : ℤ) (s : WeatherForecast F)
      → IsCover now (parse_forecast_list service s.cached_json) (current_cloud_cover service now s)
  unfolding current_cloud_cover
  current_cloud_cover-IsCover service now s =
      fold-IsCover now (parse_forecast_list service s.cached_json)
