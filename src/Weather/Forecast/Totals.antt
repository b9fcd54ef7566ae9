-- ===== src/Weather/Forecast/Totals.antt =====
-- What the week's totals say of its days.
use limonitor.Common.{
  ◌⊎◌, Bool, true, String, ◌≡◌, refl, sym, ap, ◌∙◌, inl, inr, false, List, [], ◌∷◌, ◌++◌, arith,
  foldl, All, All-append, Bool-cases, if_true, if_false, if◌then◌else◌, subst,
}
use limonitor.Common.Int.{ℤ}
use limonitor.Double.{Double, IsOrdered, ◌+F◌, ◌>F◌, decimal}
use limonitor.Weather.{Service, Slot, DailyEntry}
use limonitor.Weather.Week.{DailySolarForecast, Plan, WeekAcc, add_day, has_date}
use limonitor.Weather.Week.Days.{day_of, extend_day, by_day}
use limonitor.Weather.Forecast.Calls.{week_days, week_of}

module _ {F : Type 0} ⦃d : Double F⦄ where
  -- The sum of the days' energies, in order.
  abbrev pub total_kwh : List (DailySolarForecast F) → F
  total_kwh xs = foldl (λ acc x. acc +F x.kwh) (decimal 0 0) xs

  -- Some day of a list satisfies P.
  abbrev pub HasDay : (DailySolarForecast F → Type 0) → List (DailySolarForecast F) → Type 0
  HasDay P [] = ⊥
  HasDay P (x ∷ xs) = P x ⊎ HasDay P xs

  HasDay-left :
      (P : DailySolarForecast F → Type 0) (xs ys : List (DailySolarForecast F))
      → HasDay P xs
      → HasDay P (xs ++ ys)
  HasDay-left P [] ys h = elim h [ ]
  HasDay-left P (x ∷ xs) ys (inl h) = inl h
  HasDay-left P (x ∷ xs) ys (inr h) = inr (HasDay-left P xs ys h)

  HasDay-right :
      (P : DailySolarForecast F → Type 0) (xs ys : List (DailySolarForecast F))
      → HasDay P ys
      → HasDay P (xs ++ ys)
  HasDay-right P [] ys h = h
  HasDay-right P (x ∷ xs) ys h = inr (HasDay-right P xs ys h)

  -- A day of this date and energy.
  abbrev IsDay : String → F → DailySolarForecast F → Type 0
  IsDay date kwh x = (x.date ≡ date) × (x.kwh ≡ kwh)

  -- The best energy and its date are those of a day, or are still the ones of the start.
  abbrev IsNamed : String → F → List (DailySolarForecast F) → Type 0
  IsNamed date kwh xs = (date ≡ "") × (kwh ≡ decimal 0 0) ⊎ HasDay (IsDay date kwh) xs

  -- What the result names as the best day, of the days that it lists.
  abbrev pub IsBestDay : String → List (DailySolarForecast F) → Type 0
  IsBestDay date xs =
      (date ≡ "") × All (λ y. (y.kwh >F decimal 0 0) ≡ false) xs
      ⊎ HasDay (λ x. (x.date ≡ date) × All (λ y. (y.kwh >F x.kwh) ≡ false) xs) xs

  HasDay-map :
      (P Q : DailySolarForecast F → Type 0) (xs : List (DailySolarForecast F))
      → ((x : DailySolarForecast F) → P x → Q x)
      → HasDay P xs
      → HasDay Q xs
  HasDay-map P Q [] f h = elim h [ ]
  HasDay-map P Q (x ∷ xs) f (inl h) = inl (f x h)
  HasDay-map P Q (x ∷ xs) f (inr h) = inr (HasDay-map P Q xs f h)

  named-IsBestDay :
      (date : String) (best : F) (xs : List (DailySolarForecast F))
      → All (λ y. (y.kwh >F best) ≡ false) xs
      → IsNamed date best xs
      → IsBestDay date xs
  named-IsBestDay date best xs top (inl (e, z)) =
      inl (e, subst (λ b. All (λ y. (y.kwh >F b) ≡ false) xs) z top)
  named-IsBestDay date best xs top (inr h) = inr (
      HasDay-map _ _ xs
        (λ x k. (k.0, subst (λ b. All (λ y. (y.kwh >F b) ≡ false) xs) (sym k.1) top)) h)

  -- The total is that of the days, no day gives more than the best energy, and the best day is named.
  pub record IsSummed (w : WeekAcc F) : Type 0 where
    pub total : w.total_nominal ≡ total_kwh w.daily
    pub best : All (λ x. (x.kwh >F w.best_day_kwh) ≡ false) w.daily
    pub named : IsNamed w.best_day w.best_day_kwh w.daily

  foldl-snoc :
      (acc : F) (xs : List (DailySolarForecast F)) (x : DailySolarForecast F)
      → foldl (λ acc x. acc +F x.kwh) acc (xs ++ (x ∷ []))
        ≡ foldl (λ acc x. acc +F x.kwh) acc xs +F x.kwh
  foldl-snoc acc [] x = refl
  foldl-snoc acc (y ∷ ys) x = foldl-snoc (acc +F y.kwh) ys x

module _ {F : Type 0} ⦃d : Double F⦄ (laws : IsOrdered F) where
  still_below :
      (best new : F) (xs : List (DailySolarForecast F))
      → All (λ x. (x.kwh >F best) ≡ false) xs
      → All (λ x. (x.kwh >F (if new >F best then new else best)) ≡ false) xs
  still_below best new [] h = tt
  still_below best new (x ∷ xs) (h, hs) =
      (ground (arith, h, laws.lt_trans best new x.kwh), still_below best new xs hs)

  best_step :
      (day : DailySolarForecast F) (name : String) (best : F) (xs : List (DailySolarForecast F))
      → IsNamed name best xs
      → let better = day.kwh >F best in
        IsNamed
          (if better then day.date else name)
          (if better then day.kwh else best)
          (xs ++ (day ∷ []))
  best_step day name best xs h = keep (day.kwh >F best) h
    where
      keep :
          (b : Bool)
          → IsNamed name best xs
          → IsNamed (if b then day.date else name) (if b then day.kwh else best) (xs ++ (day ∷ []))
      keep true h = inr (HasDay-right (IsDay day.date day.kwh) xs (day ∷ []) (inl (refl, refl)))
      keep false (inl h) = inl h
      keep false (inr h) = inr (HasDay-left (IsDay name best) xs (day ∷ []) h)

  add_day-IsSummed :
      (day : DailySolarForecast F) (accepted soc : F) (w : WeekAcc F)
      → IsSummed w
      → IsSummed (add_day day day.kwh accepted soc w)
  unfolding add_day
  add_day-IsSummed day accepted soc w s =
      let best = if day.kwh >F w.best_day_kwh then day.kwh else w.best_day_kwh in
      record {
        total = ap (λ t. t +F day.kwh) s.total ∙ sym (foldl-snoc (decimal 0 0) w.daily day);
        best =
            All-append (λ x. (x.kwh >F best) ≡ false) w.daily (day ∷ [])
              (still_below w.best_day_kwh day.kwh w.daily s.best)
              (ground (arith, laws.lt_irrefl day.kwh), tt);
        named = best_step day w.best_day w.best_day_kwh w.daily s.named;
      }

  days-IsSummed :
      (service : Service F) (p : Plan F) (days : List (ℤ × List (Slot F))) (w : WeekAcc F)
      → IsSummed w
      → IsSummed (foldl (day_of service p) w days)
  unfolding day_of
  days-IsSummed service p [] w s = s
  days-IsSummed service p ((k, slots) ∷ rest) w s =
      days-IsSummed service p rest (day_of service p w (k, slots)) (add_day-IsSummed _ _ _ w s)

  extend_day-IsSummed :
      (service : Service F) (p : Plan F) (e : DailyEntry F) (w : WeekAcc F)
      → IsSummed w
      → IsSummed (extend_day service p w e)
  unfolding extend_day
  extend_day-IsSummed service p e w s = elim (Bool-cases (has_date (service.date e.dt) w.daily)) [
    | inl h ↦ subst IsSummed (sym (if_true _ _ h)) s
    | inr h ↦ subst IsSummed (sym (if_false _ _ h)) (add_day-IsSummed _ _ _ w s)
  ]

  entries-IsSummed :
      (service : Service F) (p : Plan F) (entries : List (DailyEntry F)) (w : WeekAcc F)
      → IsSummed w
      → IsSummed (foldl (extend_day service p) w entries)
  entries-IsSummed service p [] w s = s
  entries-IsSummed service p (e ∷ es) w s =
      entries-IsSummed service p es (extend_day service p w e) (extend_day-IsSummed service p e w s)

  week_days-IsSummed :
      (service : Service F) (p : Plan F) (slots : List (Slot F)) (entries : List (DailyEntry F))
      → IsSummed (week_days service p slots entries)
  unfolding week_days
  week_days-IsSummed service p slots entries = entries-IsSummed service p entries _ (
      days-IsSummed service p (by_day service slots) _
        (record { total = refl; best = tt; named = inl (refl, refl) }))

  -- With an irreflexive and transitive order, whatever the slots and the daily entries are: the week's
  -- total is the sum of the energies of the days it lists, and the best day is the date of a listed day
  -- than which none gives more, or empty when no day gives more than 0.
  pub week_of-IsSummed :
      (service : Service F) (p : Plan F) (slots : List (Slot F)) (entries : List (DailyEntry F))
      → let r = week_of service p slots entries in
        (r.week_total_kwh ≡ total_kwh r.daily) × IsBestDay r.best_day r.daily
  unfolding week_of
  week_of-IsSummed service p slots entries =
      let w = week_days service p slots entries in
      let s = week_days-IsSummed service p slots entries in
      (s.total, named-IsBestDay w.best_day w.best_day_kwh w.daily s.best s.named)
