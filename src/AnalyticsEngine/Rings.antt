-- ===== src/AnalyticsEngine/Rings.antt =====
-- src/analytics.cpp: the ring buffers of the engine, an array with a head and a count.
pub mod Order
use native.Mathlib.Nat.{mod-eq_of_lt, mod_self}
use limonitor.Common.{
  ℕ, zero, suc, ◌+◌, ◌-◌, ◌%◌, ◌≤◌, ◌<◌, ◌≡◌, ◌⊎◌, refl, sym, ap, ap₂, ◌∙◌, inl, inr, List, [], ◌∷◌,
  ◌++◌, arith, ltb, if◌then◌else◌, length, take, drop, get_or, push_bounded, trim-room,
  trim-eq-drop, length-append, length-take, length-drop, Bool-cases, ltb→lt, ltb→ge, if_true,
  if_false, subst, append_assoc, append-nil, lt→ltb, ge→ltb,
}

pub record Ring {ℓ} (A : Type ℓ) : Type ℓ where
  pub cells : List A
  pub head : ℕ
  pub count : ℕ

abbrev pub set {ℓ} : {A : Type ℓ} → List A → ℕ → A → List A
set [] i x = []
set (y ∷ ys) zero x = x ∷ ys
set (y ∷ ys) (suc i) x = y ∷ set ys i x

abbrev pub replicate {ℓ} : {A : Type ℓ} → ℕ → A → List A
replicate zero x = []
replicate (suc n) x = x ∷ replicate n x

pub wrap : (h n : ℕ) → h < n → ((h + 1) % n ≡ h + 1) × (h + 1 < n) ⊎ ((h + 1) % n ≡ 0) × (h + 1 ≡ n)
wrap h n l = elim (Bool-cases (ltb (h + 1) n)) [
  | inl e ↦ inl (mod-eq_of_lt (ltb→lt _ _ e), ltb→lt _ _ e)
  | inr e ↦
      let full : h + 1 ≡ n = omega (arith, ltb→ge _ _ e) in
      inr (ap (λ k. k % n) full ∙ mod_self n, full)
]

module _ {ℓ} {A : Type ℓ} where
  -- `ring[head] = x; head = (head + 1) % n; if (count < n) ++count;`
  unfoldable pub push : ℕ → A → Ring A → Ring A
  push n x r = record {
    cells = set r.cells r.head x;
    head = (r.head + 1) % n;
    count = if ltb r.count n then r.count + 1 else r.count;
  }

  -- What a ring of n cells holds, oldest first.
  unfoldable pub view : ℕ → Ring A → List A
  view n r =
      if ltb r.count n then take r.count r.cells else drop r.head r.cells ++ take r.head r.cells

  -- The sizes agree, and the head follows the count until the ring is full.
  pub record IsRing (n : ℕ) (r : Ring A) : Type 0 where
    pub sized : length r.cells ≡ n
    pub head_lt : r.head < n
    pub count_le : r.count ≤ n
    pub filling : (r.head ≡ r.count) ⊎ (n ≤ r.count)

  pub length-set : (xs : List A) (i : ℕ) (x : A) → length (set xs i x) ≡ length xs
  length-set [] i x = refl
  length-set (y ∷ ys) zero x = refl
  length-set (y ∷ ys) (suc i) x = ap suc (length-set ys i x)

  pub take-set :
      (xs : List A) (i : ℕ) (x : A)
      → i < length xs
      → take (suc i) (set xs i x) ≡ take i xs ++ (x ∷ [])
  take-set [] i x h = absurd (omega arith)
  take-set (y ∷ ys) zero x h = refl
  take-set (y ∷ ys) (suc i) x h = ap (◌∷◌ y) (take-set ys i x (omega arith))

  pub drop-set : (xs : List A) (i : ℕ) (x : A) → drop (suc i) (set xs i x) ≡ drop (suc i) xs
  drop-set [] i x = refl
  drop-set (y ∷ ys) zero x = refl
  drop-set (y ∷ ys) (suc i) x = drop-set ys i x

  pub drop-all : (n : ℕ) (xs : List A) → length xs ≤ n → drop n xs ≡ []
  drop-all zero [] h = refl
  drop-all zero (x ∷ xs) h = absurd (omega arith)
  drop-all (suc n) [] h = refl
  drop-all (suc n) (x ∷ xs) h = drop-all n xs (omega arith)

  pub take-all : (n : ℕ) (xs : List A) → length xs ≤ n → take n xs ≡ xs
  take-all zero [] h = refl
  take-all zero (x ∷ xs) h = absurd (omega arith)
  take-all (suc n) [] h = refl
  take-all (suc n) (x ∷ xs) h = ap (◌∷◌ x) (take-all n xs (omega arith))

  pub drop-drop_one :
      (i : ℕ) (xs ys : List A) → i < length xs → drop 1 (drop i xs ++ ys) ≡ drop (suc i) xs ++ ys
  drop-drop_one i [] ys h = absurd (omega arith)
  drop-drop_one zero (x ∷ xs) ys h = refl
  drop-drop_one (suc i) (x ∷ xs) ys h = drop-drop_one i xs ys (omega arith)

  pub view_filling : (n : ℕ) (r : Ring A) → r.count < n → view n r ≡ take r.count r.cells
  unfolding view
  view_filling n r l = if_true _ _ (lt→ltb _ _ l)

  pub view_full :
      (n : ℕ) (r : Ring A) → n ≤ r.count → view n r ≡ drop r.head r.cells ++ take r.head r.cells
  unfolding view
  view_full n r l = if_false _ _ (ge→ltb _ _ l)

  pub length-view : (n : ℕ) (r : Ring A) → IsRing n r → length (view n r) ≡ r.count
  length-view n r w = elim (Bool-cases (ltb r.count n)) [
    | inl e ↦
        ap length (view_filling n r (ltb→lt _ _ e))
        ∙ length-take r.count r.cells
        ∙ omega (arith, w.sized, ltb→lt _ _ e)
    | inr e ↦
        ap length (view_full n r (ltb→ge _ _ e))
        ∙ length-append (drop r.head r.cells) (take r.head r.cells)
        ∙ omega (
          arith,
          length-drop r.head r.cells,
          length-take r.head r.cells,
          w.sized,
          w.head_lt,
          w.count_le,
          ltb→ge _ _ e,
        )
  ]

  pub push-IsRing : (n : ℕ) (x : A) (r : Ring A) → IsRing n r → IsRing n (push n x r)
  unfolding push
  push-IsRing n x r w = elim (wrap r.head n w.head_lt) [
    | inl (e, l) ↦ record {
      sized = length-set r.cells r.head x ∙ w.sized;
      head_lt = subst (λ k. k < n) (sym e) l;
      count_le = ground (arith, w.count_le);
      filling = ground (arith, w.filling, w.count_le, e, l);
    }
    | inr (e, l) ↦ record {
      sized = length-set r.cells r.head x ∙ w.sized;
      head_lt = subst (λ k. k < n) (sym e) (omega arith);
      count_le = ground (arith, w.count_le);
      filling = ground (arith, w.filling, w.count_le, e, l);
    }
  ]
