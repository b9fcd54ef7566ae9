-- ===== src/Common/Bounded.antt =====
-- The bounded queues of the program: `while (q.size() > n) q.pop_front()` after a `push_back`, and the
-- readers that return the last n entries.
use limonitor.Common.Tests.{ltb, leb, ◌==◌, if◌then◌else◌, Bool-cases, ltb→lt, ltb→ge}
use limonitor.Common.Lists.{length, drop, last?, last?-append, length-drop}
use Prim.Native.Nat.{ℕ, suc, ◌-◌, ◌≤◌, ◌<◌, min}
use mathlib.Core.Path.{◌≡◌, ◌∙◌, ap}
use mathlib.Core.Bool.{◌||◌}
use mathlib.Core.Logic.{inl, inr}
use mathlib.Core.Option.{some}
use mathlib.Core.List.{List, [], ◌∷◌, ◌++◌}
use native.Mathlib.Omega.{arith}

module _ {ℓ} {A : Type ℓ} where
  unfoldable pub trim : ℕ → List A → List A
  trim n [] = []
  trim n (x ∷ xs) = if ltb n (suc (length xs)) then trim n xs else x ∷ xs

  unfoldable pub push_bounded : ℕ → List A → A → List A
  push_bounded n xs x = trim n (xs ++ x ∷ [])

  -- The last n entries; 0 asks for all of them.
  unfoldable pub last_n : ℕ → List A → List A
  last_n n xs = if n == 0 || leb (length xs) n then xs else drop (length xs - n) xs

  pub length-trim-le : (n : ℕ) (xs : List A) → length (trim n xs) ≤ n
  unfolding trim
  length-trim-le n [] = omega arith
  length-trim-le n (x ∷ xs) = ground (arith, length-trim-le n xs)

  -- Exactly the oldest entries beyond the bound go.
  pub trim-eq-drop : (n : ℕ) (xs : List A) → trim n xs ≡ drop (length xs - n) xs
  unfolding trim
  trim-eq-drop n [] = let e : 0 - n ≡ 0 = omega arith in rw e
  trim-eq-drop n (x ∷ xs) = elim (Bool-cases (ltb n (suc (length xs)))) [
    | inl e ↦
        let one : suc (length xs) - n ≡ suc (length xs - n) = omega (arith, ltb→lt _ _ e) in
        rw (e, one) (trim-eq-drop n xs)
    | inr e ↦
        let none_over : suc (length xs) - n ≡ 0 = omega (arith, ltb→ge _ _ e) in rw (e, none_over)
  ]

  -- While there is room nothing goes.
  pub trim-room : (n : ℕ) (xs : List A) → length xs ≤ n → trim n xs ≡ xs
  trim-room n xs h =
      let e : length xs - n ≡ 0 = omega arith in trim-eq-drop n xs ∙ ap (λ k. drop k xs) e

  pub length-trim : (n : ℕ) (xs : List A) → length (trim n xs) ≡ min n (length xs)
  length-trim n xs = omega (arith, ap length (trim-eq-drop n xs), length-drop (length xs - n) xs)

-- The entry that was just pushed stays.
pub last?-trim {ℓ} :
    {A : Type ℓ} (n : ℕ) (xs : List A) (x : A) → 0 < n → last? (trim n (xs ++ (x ∷ []))) ≡ some x
unfolding trim
last?-trim n [] x h = ground arith
last?-trim n (y ∷ xs) x h = elim (Bool-cases (ltb n (suc (length (xs ++ (x ∷ [])))))) [
  | inl e ↦ rw e (last?-trim n xs x h)
  | inr e ↦ rw e (last?-append (y ∷ xs) x)
]
