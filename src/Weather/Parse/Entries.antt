-- ===== src/Weather/Parse/Entries.antt =====
-- The loops over the text of an answer: enough fuel, and at most 40 slots.
use limonitor.Common.{
  ◌∙◌, sym, ℕ, zero, suc, ◌≤◌, ◌<◌, ◌≡◌, refl, ap, Bool, true, false, List, [], ◌∷◌, Option, none,
  some, arith, length, drop, leb, length-drop, if◌then◌else◌,
}
use limonitor.Common.Int.{ℤ}
use limonitor.Double.{Double, ◌+F◌, ◌/F◌, decimal}
use limonitor.AnalyticsEngine.Aging.Date.{scan_int}
use limonitor.Serial.Lines.{starts_with}
use limonitor.Weather.{Service, Slot, DailyEntry}
use limonitor.Weather.Parse.{
  dt_key, clouds_all_key, clouds_read, clouds_behind, clouds_from, step, find_at, or_skip, put,
  or_else, cloud_sum, slot_at, slots_behind, slots_from, parse_forecast_list, entry_at,
  entries_behind, entries_from, parse_daily_entries,
}

-- What is left from a match on is at most n bytes long.
abbrev Fits : ℕ → Option (ℕ × List ℕ) → Type 0
Fits n none = Unit
Fits n (some (at, found)) = length found ≤ n

step-Fits : (n : ℕ) (m : Option (ℕ × List ℕ)) → Fits n m → Fits (suc n) (step m)
step-Fits n none h = tt
step-Fits n (some (at, found)) h = omega arith

pick-Fits :
    (b : Bool) (n : ℕ) (whole : List ℕ) (m : Option (ℕ × List ℕ))
    → length whole ≤ n
    → Fits n m
    → Fits n (if b then some (0, whole) else m)
pick-Fits true n whole m l h = l
pick-Fits false n whole m l h = h

find_at-Fits : (key text : List ℕ) → Fits (length text) (find_at key text)
unfolding find_at
find_at-Fits key [] = pick-Fits (starts_with key []) 0 [] none (omega arith) tt
find_at-Fits key (c ∷ cs) =
    pick-Fits (starts_with key (c ∷ cs)) (suc (length cs)) (c ∷ cs) (step (find_at key cs))
      (omega arith) (step-Fits (length cs) (find_at key cs) (find_at-Fits key cs))

-- The text behind a match and one byte more is shorter than the text.
behind-lt : (n : ℕ) (found : List ℕ) → length found ≤ suc n → length (drop 1 (drop 5 found)) ≤ n
behind-lt n found h = omega (arith, length-drop 1 (drop 5 found), length-drop 5 found)

-- A loop that came to its end, with what it found.
abbrev Ended {ℓ} : {A : Type ℓ} → Option A → Type ℓ
Ended {A = A} o = (x : A) × (o ≡ some x)

module _ {F : Type 0} ⦃d : Double F⦄ (service : Service F) where
  -- At most so many slots were found, at the end of a loop.
  abbrev Holds : ℕ → Option (List (Slot F)) → Type 0
  Holds n o = (xs : List (Slot F)) × (o ≡ some xs) × (length xs ≤ n)

  skip-Holds :
      (o : Option (ℤ × List ℕ)) (left : ℕ) (f : ℤ → Slot F) (more same : Option (List (Slot F)))
      → Holds left more
      → Holds (suc left) same
      → Holds (suc left) (or_skip o (λ dt. put (f dt) more) same)
  skip-Holds none left f more same h k = k
  skip-Holds (some (dt, _)) left f more same (xs, e, l) k =
      (f dt ∷ xs, ap (put (f dt)) e, omega (arith, l))

  slots_behind-Holds :
      (n left : ℕ) (m : Option (ℕ × List ℕ)) (f : ℕ → List ℕ → Option (List (Slot F)))
      → Fits (suc n) m
      → ((l : ℕ) (t : List ℕ) → length t ≤ n → Holds l (f l t))
      → Holds left (slots_behind service f left m)
  unfolding slots_behind
  slots_behind-Holds n left none f h e = ([], refl, omega arith)
  slots_behind-Holds n zero (some m) f h e = ([], refl, omega arith)
  slots_behind-Holds n (suc left) (some (at, found)) f h e =
      let rest = drop 5 found in
      let l = behind-lt n found h in
      skip-Holds (scan_int rest) left (λ dt. slot_at service dt rest) (f left (drop 1 rest))
        (f (suc left) (drop 1 rest)) (e left (drop 1 rest) l) (e (suc left) (drop 1 rest) l)

  slots_from-Holds :
      (fuel left : ℕ) (text : List ℕ)
      → length text < fuel
      → Holds left (slots_from service fuel left text)
  unfolding slots_from find_at slots_behind starts_with
  slots_from-Holds zero left text h = absurd (omega arith)
  slots_from-Holds (suc fuel) left [] h = ([], refl, omega arith)
  slots_from-Holds (suc fuel) left (c ∷ cs) h =
      slots_behind-Holds (length cs) left (find_at dt_key (c ∷ cs)) _ (find_at-Fits dt_key (c ∷ cs))
        (λ l t s. slots_from-Holds fuel l t (omega arith))

  skip-Ended :
      (o : Option (ℤ × List ℕ)) (f : ℤ → DailyEntry F) (more : Option (List (DailyEntry F)))
      → Ended more
      → Ended (or_skip o (λ dt. put (f dt) more) more)
  skip-Ended none f more h = h
  skip-Ended (some (dt, _)) f more (xs, e) = (f dt ∷ xs, ap (put (f dt)) e)

  entries_behind-Ended :
      (n : ℕ) (m : Option (ℕ × List ℕ)) (f : List ℕ → Option (List (DailyEntry F)))
      → Fits (suc n) m
      → ((t : List ℕ) → length t ≤ n → Ended (f t))
      → Ended (entries_behind service f m)
  unfolding entries_behind
  entries_behind-Ended n none f h e = ([], refl)
  entries_behind-Ended n (some (at, found)) f h e =
      let rest = drop 5 found in
      skip-Ended (scan_int rest) (λ dt. entry_at service dt rest) (f (drop 1 rest))
        (e (drop 1 rest) (behind-lt n found h))

  entries_from-Ended :
      (fuel : ℕ) (text : List ℕ) → length text < fuel → Ended (entries_from service fuel text)
  unfolding entries_from find_at entries_behind starts_with
  entries_from-Ended zero text h = absurd (omega arith)
  entries_from-Ended (suc fuel) [] h = ([], refl)
  entries_from-Ended (suc fuel) (c ∷ cs) h =
      entries_behind-Ended (length cs) (find_at dt_key (c ∷ cs)) _ (find_at-Fits dt_key (c ∷ cs))
        (λ t s. entries_from-Ended fuel t (omega arith))

  either-Ended :
      (b : Bool) (r : F × ℕ) (o : Option (F × ℕ)) → Ended o → Ended (if b then some r else o)
  either-Ended true r o h = (r, refl)
  either-Ended false r o h = h

  clouds_read-Ended :
      (o : Option F) (sum : F) (n : ℕ) (t : List ℕ) (f : F → ℕ → List ℕ → Option (F × ℕ))
      → ((s : F) (m : ℕ) → Ended (f s m t))
      → Ended (clouds_read service f sum n t o)
  unfolding clouds_read
  clouds_read-Ended none sum n t f e = either-Ended (leb 8 n) (sum, n) (f sum n t) (e sum n)
  clouds_read-Ended (some v) sum n t f e =
      let grown = sum +F v /F decimal 100 0 in
      either-Ended (leb 8 (suc n)) (grown, suc n) (f grown (suc n) t) (e grown (suc n))

  clouds_behind-Ended :
      (n : ℕ) (sum : F) (k : ℕ) (m : Option (ℕ × List ℕ)) (f : F → ℕ → List ℕ → Option (F × ℕ))
      → Fits (suc n) m
      → ((s : F) (l : ℕ) (t : List ℕ) → length t ≤ n → Ended (f s l t))
      → Ended (clouds_behind service f sum k m)
  unfolding clouds_behind
  clouds_behind-Ended n sum k none f h e = ((sum, k), refl)
  clouds_behind-Ended n sum k (some (at, found)) f h e =
      let rest = drop 16 found in
      clouds_read-Ended (service.scan rest) sum k (drop 1 rest) f
        (λ s l. e s l (drop 1 rest) (omega (arith, length-drop 1 rest, length-drop 16 found)))

  clouds_from-Ended :
      (fuel : ℕ) (sum : F) (n : ℕ) (text : List ℕ)
      → length text < fuel
      → Ended (clouds_from service fuel sum n text)
  unfolding clouds_from find_at clouds_behind starts_with
  clouds_from-Ended zero sum n text h = absurd (omega arith)
  clouds_from-Ended (suc fuel) sum n [] h = ((sum, n), refl)
  clouds_from-Ended (suc fuel) sum n (c ∷ cs) h =
      clouds_behind-Ended (length cs) sum n (find_at clouds_all_key (c ∷ cs)) _
        (find_at-Fits clouds_all_key (c ∷ cs))
        (λ s l t b. clouds_from-Ended fuel s l t (omega arith))

  -- The three loops over an answer of any length come to their end within the fuel that is given to
  -- them, the answer's length and one more: none of them uses it up, and what the parsers return is what
  -- the loops found. At most 40 slots are found.
  pub parse_forecast_list-total :
      (json : List ℕ)
      → (slots_from service (suc (length json)) 40 json ≡ some (parse_forecast_list service json))
        × (entries_from service (suc (length json)) json ≡ some (parse_daily_entries service json))
        × (clouds_from service (suc (length json)) (decimal 0 0) 0 json
            ≡ some (cloud_sum service json))
        × (length (parse_forecast_list service json) ≤ 40)
  unfolding parse_forecast_list parse_daily_entries cloud_sum
  parse_forecast_list-total json =
      let all : length json < suc (length json) = omega arith in
      let (slots, e, l) = slots_from-Holds (suc (length json)) 40 json all in
      let (entries, f) = entries_from-Ended (suc (length json)) json all in
      let (sums, g) = clouds_from-Ended (suc (length json)) (decimal 0 0) 0 json all in
      (
        e ∙ ap (λ o. some (or_else [] o)) (sym e),
        f ∙ ap (λ o. some (or_else [] o)) (sym f),
        g ∙ ap (λ o. some (or_else (decimal 0 0, 0) o)) (sym g),
        omega (arith, l, ap (λ o. length (or_else [] o)) e),
      )
