-- ===== src/AnalyticsEngine/Extended/Windows/Latest.antt =====
-- The history of charge rates as the list that the ring stands for, latest first. Its count goes back to 0
-- when the charge ends while the head stays, so the list is read back from the head.
use limonitor.Common.{
  ℕ, zero, suc, ◌+◌, ◌-◌, ◌%◌, ◌≤◌, ◌<◌, ◌≡◌, ◌≢◌, refl, sym, ap, ap₂, ◌∙◌, ◌⊎◌, inl, inr, true,
  false, List, [], ◌∷◌, arith, length, min, take, get_or, leb, if◌then◌else◌, Bool-cases, if_true,
  if_false, subst,
}
use limonitor.Double.{Double, of_ℕ, decimal}
use limonitor.Battery.{BatterySnapshot}
use limonitor.AnalyticsEngine.Rings.{Ring, set, push}
use limonitor.AnalyticsEngine.{Rates}
use limonitor.AnalyticsEngine.Extended.{is_charging}
use limonitor.AnalyticsEngine.Extended.Windows.{
  newest, WindowSums, add_rate, window_sums, compare_rates, push_rate, note_rate,
}

-- The 72 cells are there, and the head and the count are within them.
pub record IsSized {A : Type 0} (r : Ring A) : Type 0 where
  pub sized : length r.cells ≡ 72
  pub head_lt : r.head < 72
  pub count_le : r.count ≤ 72

-- The k entries from the i-th latest one on.
unfoldable pub entries : {A : Type 0} → Ring A → A → ℕ → ℕ → List A
entries r y i zero = []
entries r y i (suc k) = newest 72 r i y ∷ entries r y (suc i) k

unfoldable pub history : {A : Type 0} → Ring A → A → List A
history r y = entries r y 0 r.count

length-set : {A : Type 0} → (xs : List A) (i : ℕ) (x : A) → length (set xs i x) ≡ length xs
length-set [] i x = refl
length-set (y ∷ ys) zero x = refl
length-set (y ∷ ys) (suc i) x = ap suc (length-set ys i x)

push-count :
    {A : Type 0} → (x : A) (r : Ring A) → IsSized r → (push 72 x r).count ≡ suc (min 71 r.count)
unfolding push
push-count x r w = ground (arith, w.count_le)

get_or-set_self :
    {A : Type 0} → (xs : List A) (i : ℕ) (x y : A) → i < length xs → get_or (set xs i x) i y ≡ x
get_or-set_self [] i x y h = absurd (omega arith)
get_or-set_self (z ∷ zs) zero x y h = refl
get_or-set_self (z ∷ zs) (suc i) x y h = get_or-set_self zs i x y (omega arith)

get_or-set_other :
    {A : Type 0}
    → (xs : List A) (i j : ℕ) (x y : A) → j ≢ i
    → get_or (set xs i x) j y ≡ get_or xs j y
get_or-set_other [] i j x y h = refl
get_or-set_other (z ∷ zs) zero zero x y h = absurd (h refl)
get_or-set_other (z ∷ zs) zero (suc j) x y h = refl
get_or-set_other (z ∷ zs) (suc i) zero x y h = refl
get_or-set_other (z ∷ zs) (suc i) (suc j) x y h = get_or-set_other zs i j x y (omega arith)

at_head : (h : ℕ) → h < 72 → ((h + 1) % 72 + 72 - 1 - 0) % 72 ≡ h
at_head h l = omega arith

one_back :
    (h i : ℕ) → h < 72 → i < 71 → ((h + 1) % 72 + 72 - 1 - suc i) % 72 ≡ (h + 72 - 1 - i) % 72
one_back h i l m = omega arith

not_head : (h i : ℕ) → h < 72 → i < 71 → (h + 72 - 1 - i) % 72 ≢ h
not_head h i l m = omega arith

newest-push : {A : Type 0} → (x y : A) (r : Ring A) → IsSized r → newest 72 (push 72 x r) 0 y ≡ x
unfolding newest push
newest-push x y r w =
    ap (λ k. get_or (set r.cells r.head x) k y) (at_head r.head w.head_lt)
    ∙ get_or-set_self r.cells r.head x y (omega (arith, w.sized, w.head_lt))

older-push :
    {A : Type 0}
    → (x y : A) (r : Ring A) (i : ℕ) → IsSized r
    → i < 71
    → newest 72 (push 72 x r) (suc i) y ≡ newest 72 r i y
unfolding newest push
older-push x y r i w l =
    ap (λ k. get_or (set r.cells r.head x) k y) (one_back r.head i w.head_lt l)
    ∙ get_or-set_other r.cells r.head _ x y (not_head r.head i w.head_lt l)

entries-push :
    {A : Type 0}
    → (x y : A) (r : Ring A) (i k : ℕ) → IsSized r
    → i + k ≤ 71
    → entries (push 72 x r) y (suc i) k ≡ entries r y i k
unfolding entries
entries-push x y r i zero w l = refl
entries-push x y r i (suc k) w l =
    ap₂ ◌∷◌ (older-push x y r i w (omega arith)) (entries-push x y r (suc i) k w (omega arith))

take-entries :
    {A : Type 0}
    → (r : Ring A) (y : A) (n i k : ℕ) → take n (entries r y i k) ≡ entries r y i (min n k)
unfolding entries
take-entries r y zero i k =
    let none_left : 0 ≡ min 0 k = omega arith in ap (entries r y i) none_left
take-entries r y (suc n) i zero =
    let none_left : 0 ≡ min (suc n) 0 = omega arith in ap (entries r y i) none_left
take-entries r y (suc n) i (suc k) =
    let least : suc (min n k) ≡ min (suc n) (suc k) = omega arith in
    ap (◌∷◌ (newest 72 r i y)) (take-entries r y n (suc i) k) ∙ ap (entries r y i) least

push-IsSized : {A : Type 0} → (x : A) (r : Ring A) → IsSized r → IsSized (push 72 x r)
unfolding push
push-IsSized x r w = record {
  sized = length-set r.cells r.head x ∙ w.sized;
  head_lt = omega arith;
  count_le = ground (arith, w.count_le);
}

-- A push puts the entry in front, and the list keeps its first 72 entries.
history-push :
    {A : Type 0}
    → (x y : A) (r : Ring A) → IsSized r
    → history (push 72 x r) y ≡ take 72 (x ∷ history r y)
unfolding history entries
history-push x y r w =
    let m = min 71 r.count in
    let grown : (push 72 x r).count ≡ suc m = push-count x r w in
    ap (entries (push 72 x r) y 0) grown
    ∙ ap₂ ◌∷◌ (newest-push x y r w) (entries-push x y r 0 m w (omega arith))
    ∙ ap (◌∷◌ x) (sym (take-entries r y 71 0 r.count))

module _ {F : Type 0} ⦃d : Double F⦄ where
  abbrev pub no_rate : F × F
  no_rate = (decimal 0 0, decimal 0 0)

  -- The window sums, taken over a list of rates from the i-th on.
  unfoldable pub fold_windows : ℕ → List (F × F) → WindowSums F → WindowSums F
  fold_windows i [] s = s
  fold_windows i (e ∷ es) s = fold_windows (suc i) es (add_rate i e.0 s)

  window_sums-entries :
      (left i : ℕ) (r : Ring (F × F)) (s : WindowSums F)
      → window_sums left i r s ≡ fold_windows i (entries r no_rate i left) s
  unfolding window_sums fold_windows entries
  window_sums-entries zero i r s = refl
  window_sums-entries (suc left) i r s =
      window_sums-entries left (suc i) r (add_rate i (newest 72 r i no_rate).0 s)

  -- The loop over the ring is the fold over the history, latest rate first.
  pub window_sums-history :
      (r : Ring (F × F)) (s : WindowSums F)
      → window_sums r.count 0 r s ≡ fold_windows 0 (history r no_rate) s
  unfolding history
  window_sums-history r s = window_sums-entries r.count 0 r s

  compared : (s : Rates F) → (if leb 54 s.rate.count then compare_rates s else s).rate ≡ s.rate
  unfolding compare_rates
  compared s = elim (Bool-cases (leb 54 s.rate.count)) [
    | inl e ↦ ap (λ (r : Rates F). r.rate) (if_true _ _ e)
    | inr e ↦ ap (λ (r : Rates F). r.rate) (if_false _ _ e)
  ]

  -- The ring after a reading, in its two cases.
  note_rate-ring :
      (bat : BatterySnapshot F) (soc_rate : F) (s : Rates F)
      → (is_charging bat ≡ true)
          × ((note_rate bat soc_rate s).rate ≡ push 72 (soc_rate, of_ℕ bat.timestamp) s.rate)
        ⊎ (is_charging bat ≡ false)
          × ((note_rate bat soc_rate s).rate ≡ record (s.rate) { count = 0 })
  unfolding note_rate push_rate compare_rates
  note_rate-ring bat soc_rate s = elim (Bool-cases (is_charging bat)) [
    | inl e ↦ inl (
      e,
      ap (λ (r : Rates F). r.rate) (if_true _ _ e)
          ∙ compared (push_rate (of_ℕ bat.timestamp) soc_rate s),
    )
    | inr e ↦ inr (e, ap (λ (r : Rates F). r.rate) (if_false _ _ e))
  ]

  -- Where the ring's sizes are right: while the battery charges, a reading puts its rate in front of the
  -- history, which keeps the latest 72; a reading that does not charge empties it. The sizes stay right.
  pub note_rate-history :
      (bat : BatterySnapshot F) (soc_rate : F) (s : Rates F)
      → IsSized s.rate
      → let after = (note_rate bat soc_rate s).rate in
        IsSized after
        × ((is_charging bat ≡ true)
              × (history after no_rate
                  ≡ take 72 ((soc_rate, of_ℕ bat.timestamp) ∷ history s.rate no_rate))
            ⊎ (is_charging bat ≡ false) × (history after no_rate ≡ []))
  unfolding history entries
  note_rate-history bat soc_rate s w =
      let IsAfter : Ring (F × F) → Type 0 = λ after.
        IsSized after
        × ((is_charging bat ≡ true)
              × (history after no_rate
                  ≡ take 72 ((soc_rate, of_ℕ bat.timestamp) ∷ history s.rate no_rate))
            ⊎ (is_charging bat ≡ false) × (history after no_rate ≡ [])) in
      elim (note_rate-ring bat soc_rate s) [
        | inl (e, same) ↦
            let entry : F × F = (soc_rate, of_ℕ bat.timestamp) in
            subst IsAfter (sym same)
              (push-IsSized entry s.rate w, inl (e, history-push entry no_rate s.rate w))
        | inr (e, same) ↦
            let emptied : IsSized (record (s.rate) { count = 0 }) = record {
              sized = w.sized;
              head_lt = w.head_lt;
              count_le = omega arith;
            } in
            subst IsAfter (sym same) (emptied, inr (e, refl))
      ]
