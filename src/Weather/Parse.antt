-- ===== src/Weather/Parse.antt =====
-- src/analytics/weather_forecast.cpp: the searches in the text of an answer. A text is a list of bytes, a
-- position in it the rest of the text from there on. Every loop takes fuel, of which the length of the text
-- and one more is enough, since every turn moves on.
pub mod Entries
use limonitor.Common.{
  ℕ, zero, suc, ◌+◌, ◌-◌, ◌==◌, Bool, true, false, ◌&&◌, ◌||◌, List, [], ◌∷◌, ◌++◌, Option, none,
  some, length, drop, ltb, leb, if◌then◌else◌,
}
use limonitor.Common.Int.{ℤ, pos, ◌-ℤ◌, ltb_ℤ}
use limonitor.Double.{Double, ◌+F◌, ◌-F◌, ◌/F◌, ◌<F◌, ◌>F◌, of_ℕ, decimal}
use limonitor.AnalyticsEngine.Aging.Date.{scan_int}
use limonitor.Serial.Lines.{starts_with}
use limonitor.Weather.{Service, Slot, DailyEntry}

-- "\"dt\":"
abbrev pub dt_key : List ℕ
dt_key = 34 ∷ 100 ∷ 116 ∷ 34 ∷ 58 ∷ []

-- "\"clouds\":"
abbrev pub clouds_key : List ℕ
clouds_key = 34 ∷ 99 ∷ 108 ∷ 111 ∷ 117 ∷ 100 ∷ 115 ∷ 34 ∷ 58 ∷ []

-- "\"all\":"
abbrev pub all_key : List ℕ
all_key = 34 ∷ 97 ∷ 108 ∷ 108 ∷ 34 ∷ 58 ∷ []

-- "\"clouds\":{\"all\":"
abbrev pub clouds_all_key : List ℕ
clouds_all_key = clouds_key ++ 123 ∷ all_key

-- "\"pod\":\""
abbrev pub pod_key : List ℕ
pod_key = 34 ∷ 112 ∷ 111 ∷ 100 ∷ 34 ∷ 58 ∷ 34 ∷ []

-- "\"sunrise\":"
abbrev pub sunrise_key : List ℕ
sunrise_key = 34 ∷ 115 ∷ 117 ∷ 110 ∷ 114 ∷ 105 ∷ 115 ∷ 101 ∷ 34 ∷ 58 ∷ []

-- "\"sunset\":"
abbrev pub sunset_key : List ℕ
sunset_key = 34 ∷ 115 ∷ 117 ∷ 110 ∷ 115 ∷ 101 ∷ 116 ∷ 34 ∷ 58 ∷ []

abbrev pub step : Option (ℕ × List ℕ) → Option (ℕ × List ℕ)
step none = none
step (some (n, rest)) = some (suc n, rest)

-- `find`: how far the first match is, and the text from it on.
unfoldable pub find_at : List ℕ → List ℕ → Option (ℕ × List ℕ)
find_at key [] = if starts_with key [] then some (0, []) else none
find_at key (c ∷ cs) =
    let rest = find_at key cs in if starts_with key (c ∷ cs) then some (0, c ∷ cs) else step rest

abbrev pub or_skip {ℓ} : {A : Type ℓ} → Option (ℤ × List ℕ) → (ℤ → A) → A → A
or_skip none f skip = skip
or_skip (some (dt, _)) f skip = f dt

abbrev pub put {ℓ} : {A : Type ℓ} → A → Option (List A) → Option (List A)
put x none = none
put x (some xs) = some (x ∷ xs)

-- The result of a loop, with a value that takes its place where the fuel was used up.
abbrev pub or_else {ℓ} : {A : Type ℓ} → A → Option A → A
or_else old none = old
or_else old (some x) = x

module _ {F : Type 0} ⦃d : Double F⦄ (service : Service F) where
  abbrev pub scan_or : F → List ℕ → F
  scan_or old text = elim (service.scan text) [ none ↦ old | some v ↦ v ]

  -- The number behind a key of n bytes, if the key stands within `limit` bytes.
  unfoldable pub number_within : ℕ → ℕ → Option (ℕ × List ℕ) → F
  number_within limit n none = decimal 0 0
  number_within limit n (some (at, rest)) =
      if ltb at limit then scan_or (decimal 0 0) (drop n rest) else decimal 0 0

  abbrev pub starts_d : List ℕ → Bool
  starts_d [] = false
  starts_d (c ∷ cs) = c == 100

  unfoldable pub is_day : Option (ℕ × List ℕ) → Bool
  is_day none = true
  is_day (some (at, rest)) = if ltb at 600 then starts_d (drop 7 rest) else true

  unfoldable pub slot_at : ℤ → List ℕ → Slot F
  slot_at dt rest = record {
    dt = dt;
    cloud = number_within 500 16 (find_at clouds_all_key rest) /F decimal 100 0;
    daytime = is_day (find_at pod_key rest);
  }

  -- What stands at a match of "dt", with `next` for the rest of the loop; `left` more slots fit. A loop
  -- gives none where its fuel is used up.
  unfoldable pub slots_behind :
      (ℕ → List ℕ → Option (List (Slot F))) → ℕ → Option (ℕ × List ℕ) → Option (List (Slot F))
  slots_behind next left none = some []
  slots_behind next zero (some m) = some []
  slots_behind next (suc left) (some (at, found)) =
      let rest = drop 5 found in
      or_skip (scan_int rest) (λ dt. put (slot_at dt rest) (next left (drop 1 rest)))
        (next (suc left) (drop 1 rest))

  unfoldable pub slots_from : ℕ → ℕ → List ℕ → Option (List (Slot F))
  slots_from zero left text = none
  slots_from (suc fuel) left text =
      slots_behind (λ l t. slots_from fuel l t) left (find_at dt_key text)

  unfoldable pub parse_forecast_list : List ℕ → List (Slot F)
  parse_forecast_list json = or_else [] (slots_from (suc (length json)) 40 json)

  -- A number that cannot be read does not count; eight are enough.
  unfoldable pub clouds_read :
      (F → ℕ → List ℕ → Option (F × ℕ)) → F → ℕ → List ℕ → Option F → Option (F × ℕ)
  clouds_read next sum n behind none =
      let r = next sum n behind in if leb 8 n then some (sum, n) else r
  clouds_read next sum n behind (some v) =
      let grown = sum +F v /F decimal 100 0 in
      let r = next grown (suc n) behind in if leb 8 (suc n) then some (grown, suc n) else r

  -- What stands at a match of the key for clouds, with `next` for the rest of the loop.
  unfoldable pub clouds_behind :
      (F → ℕ → List ℕ → Option (F × ℕ)) → F → ℕ → Option (ℕ × List ℕ) → Option (F × ℕ)
  clouds_behind next sum n none = some (sum, n)
  clouds_behind next sum n (some (at, found)) =
      let rest = drop 16 found in clouds_read next sum n (drop 1 rest) (service.scan rest)

  unfoldable pub clouds_from : ℕ → F → ℕ → List ℕ → Option (F × ℕ)
  clouds_from zero sum n text = none
  clouds_from (suc fuel) sum n text =
      clouds_behind (λ s m t. clouds_from fuel s m t) sum n (find_at clouds_all_key text)

  unfoldable pub cloud_sum : List ℕ → F × ℕ
  cloud_sum json = or_else (decimal 0 0, 0) (clouds_from (suc (length json)) (decimal 0 0) 0 json)

  unfoldable pub parse_cloud_cover : List ℕ → F
  parse_cloud_cover json =
      let (sum, n) = cloud_sum json in if ltb 0 n then sum /F of_ℕ n else decimal 0 0

  -- A share behind "clouds", plain or as an object with "all", else the old one.
  abbrev share_or : F → Option F → F
  share_or old none = old
  share_or old (some v) = v /F decimal 100 0

  unfoldable pub all_share : F → Option (ℕ × List ℕ) → F
  all_share old none = old
  all_share old (some (at, rest)) =
      if ltb at 30 then share_or old (service.scan (drop 6 rest)) else old

  unfoldable pub share_at : F → List ℕ → F
  share_at old [] = old
  share_at old (c ∷ cs) =
      if c == 123
      then all_share old (find_at all_key (c ∷ cs))
      else share_or old (service.scan (c ∷ cs))

  unfoldable pub skip_blank : List ℕ → List ℕ
  skip_blank [] = []
  skip_blank (c ∷ cs) = let rest = skip_blank cs in if c == 32 || c == 9 then rest else c ∷ cs

  unfoldable pub share_within : ℕ → Option (ℕ × List ℕ) → F
  share_within end none = decimal 5 1
  share_within end (some (at, rest)) =
      if ltb at end then share_at (decimal 5 1) (skip_blank (drop 9 rest)) else decimal 5 1

  abbrev read_time : List ℕ → ℤ
  read_time text = or_skip (scan_int text) (λ t. t) (pos 0)

  -- Hours of daylight, between 4 and 18, where sunrise and sunset make sense.
  unfoldable pub daylight : ℤ → ℤ → F
  daylight sunrise sunset =
      let h = d.of_ℤ (sunset -ℤ sunrise) /F decimal 3600 0 in
      let least = if h >F decimal 18 0 then decimal 18 0 else h in
      if ltb_ℤ (pos 0) sunrise && ltb_ℤ sunrise sunset
      then if least <F decimal 4 0 then decimal 4 0 else least
      else decimal 12 0

  -- Sunrise and sunset of an entry, 0 where they do not both stand before its end.
  unfoldable pub sun_within : ℕ → Option (ℕ × List ℕ) → Option (ℕ × List ℕ) → ℤ × ℤ
  sun_within end none ss = (pos 0, pos 0)
  sun_within end (some r) none = (pos 0, pos 0)
  sun_within end (some (sr, rise)) (some (ss, set)) =
      if ltb sr end && ltb ss end
      then (read_time (drop 10 rise), read_time (drop 9 set))
      else (pos 0, pos 0)

  abbrev end_of : List ℕ → ℕ
  end_of rest = elim (find_at dt_key rest) [ none ↦ length rest | some (n, _) ↦ n ]

  unfoldable pub entry_at : ℤ → List ℕ → DailyEntry F
  entry_at dt rest =
      let end = end_of rest in
      let (rise, set) = sun_within end (find_at sunrise_key rest) (find_at sunset_key rest) in
      record {
        dt = dt;
        cloud_cover = share_within end (find_at clouds_key rest);
        daylight_h = daylight rise set;
        sunrise = rise;
        sunset = set;
      }

  unfoldable pub entries_behind :
      (List ℕ → Option (List (DailyEntry F))) → Option (ℕ × List ℕ) → Option (List (DailyEntry F))
  entries_behind next none = some []
  entries_behind next (some (at, found)) =
      let rest = drop 5 found in
      let more = next (drop 1 rest) in
      or_skip (scan_int rest) (λ dt. put (entry_at dt rest) more) more

  unfoldable pub entries_from : ℕ → List ℕ → Option (List (DailyEntry F))
  entries_from zero text = none
  entries_from (suc fuel) text = entries_behind (λ t. entries_from fuel t) (find_at dt_key text)

  unfoldable pub parse_daily_entries : List ℕ → List (DailyEntry F)
  parse_daily_entries json = or_else [] (entries_from (suc (length json)) json)
