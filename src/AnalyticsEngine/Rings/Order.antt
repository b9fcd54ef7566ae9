-- ===== src/AnalyticsEngine/Rings/Order.antt =====
-- src/analytics.cpp: a ring read in order, the oldest cell first.
use limonitor.Common.{
  ℕ, zero, suc, ◌+◌, ◌-◌, ◌%◌, ◌≤◌, ◌<◌, ◌≡◌, refl, sym, ap, ap₂, ◌∙◌, inl, inr, List, [], ◌∷◌,
  ◌++◌, arith, ltb, length, take, drop, get_or, push_bounded, trim-room, trim-eq-drop,
  length-append, Bool-cases, ltb→lt, ltb→ge, append_assoc, append-nil,
}
use limonitor.AnalyticsEngine.Rings.{
  IsRing, Ring, drop-all, drop-drop_one, drop-set, length-set, length-view, push, push-IsRing,
  replicate, set, take-all, take-set, view, view_filling, view_full, wrap,
}

module _ {ℓ} {A : Type ℓ} where
  -- The cells up to the head, once the new sample is in them.
  take-push :
      (n : ℕ) (x : A) (r : Ring A)
      → IsRing n r
      → take (suc r.head) (set r.cells r.head x) ≡ take r.head r.cells ++ (x ∷ [])
  take-push n x r w = take-set r.cells r.head x (omega (arith, w.sized, w.head_lt))

  -- The cells of a ring whose head has just gone around.
  whole :
      (n : ℕ) (x : A) (r : Ring A)
      → IsRing n r
      → r.head + 1 ≡ n
      → set r.cells r.head x ++ [] ≡ take r.head r.cells ++ (x ∷ [])
  whole n x r w l =
      append-nil (set r.cells r.head x)
      ∙ sym (
          take-all (suc r.head) (set r.cells r.head x)
            (omega (arith, length-set r.cells r.head x, w.sized)))
      ∙ take-push n x r w

  -- A push onto a ring whose head wraps leaves it full, with the new cells in order.
  view-push_wrap :
      (n : ℕ) (x : A) (r : Ring A)
      → IsRing n r
      → r.head + 1 ≡ n
      → (r.head + 1) % n ≡ 0
      → view n (push n x r) ≡ take r.head r.cells ++ (x ∷ [])
  unfolding push
  view-push_wrap n x r w l e =
      view_full n (push n x r) (ground (arith, w.filling, w.count_le))
      ∙ ap (λ h. drop h (set r.cells r.head x) ++ take h (set r.cells r.head x)) e
      ∙ whole n x r w l

  view-push_step :
      (n : ℕ) (x : A) (r : Ring A)
      → IsRing n r
      → n ≤ r.count
      → (r.head + 1) % n ≡ r.head + 1
      → view n (push n x r) ≡ drop (suc r.head) r.cells ++ (take r.head r.cells ++ (x ∷ []))
  unfolding push
  view-push_step n x r w l e =
      let at : r.head + 1 ≡ suc r.head = omega arith in
      view_full n (push n x r) (ground (arith, w.count_le))
      ∙ ap (λ h. drop h (set r.cells r.head x) ++ take h (set r.cells r.head x)) (e ∙ at)
      ∙ ap₂ ◌++◌ (drop-set r.cells r.head x) (take-push n x r w)

  view-push_grow :
      (n : ℕ) (x : A) (r : Ring A)
      → IsRing n r
      → r.count + 1 < n
      → view n (push n x r) ≡ view n r ++ (x ∷ [])
  unfolding push
  view-push_grow n x r w l =
      let at : r.head ≡ r.count = omega (arith, w.filling, l) in
      let grown : (push n x r).count ≡ suc r.head = ground (arith, at) in
      view_filling n (push n x r) (omega (arith, grown, at))
      ∙ ap (λ k. take k (set r.cells r.head x)) grown
      ∙ take-push n x r w
      ∙ ap (λ k. take k r.cells ++ (x ∷ [])) at
      ∙ ap (λ l. l ++ (x ∷ [])) (sym (view_filling n r (omega arith)))

  -- One more than a full ring: the oldest cell goes.
  drop_oldest :
      (n : ℕ) (x : A) (r : Ring A)
      → IsRing n r
      → n ≤ r.count
      → push_bounded n (view n r) x ≡ drop (suc r.head) r.cells ++ (take r.head r.cells ++ (x ∷ []))
  unfolding push_bounded
  drop_oldest n x r w l =
      let one : length (view n r ++ (x ∷ [])) - n ≡ 1 =
        omega (arith, length-append (view n r) (x ∷ []), length-view n r w, w.count_le) in
      trim-eq-drop n (view n r ++ (x ∷ []))
      ∙ ap (λ k. drop k (view n r ++ (x ∷ []))) one
      ∙ ap (λ v. drop 1 (v ++ (x ∷ []))) (view_full n r l)
      ∙ ap (drop 1) (append_assoc (drop r.head r.cells) (take r.head r.cells) (x ∷ []))
      ∙ drop-drop_one r.head r.cells (take r.head r.cells ++ (x ∷ []))
          (omega (arith, w.sized, w.head_lt))

  pub view-push_room :
      (n : ℕ) (x : A) (r : Ring A)
      → IsRing n r
      → r.count < n
      → view n (push n x r) ≡ view n r ++ (x ∷ [])
  view-push_room n x r w l =
      let at : r.head ≡ r.count = omega (arith, w.filling, l) in
      elim (wrap r.head n w.head_lt) [
        | inl (e, m) ↦ view-push_grow n x r w (omega (arith, at, m))
        | inr (e, m) ↦
            view-push_wrap n x r w m e
            ∙ ap (λ k. take k r.cells ++ (x ∷ [])) at
            ∙ ap (λ l. l ++ (x ∷ [])) (sym (view_filling n r l))
      ]

  in_room :
      (n : ℕ) (x : A) (xs : List A)
      → length (xs ++ (x ∷ [])) ≤ n
      → push_bounded n xs x ≡ xs ++ (x ∷ [])
  unfolding push_bounded
  in_room n x xs h = trim-room n (xs ++ (x ∷ [])) h

  -- A ring holds what a queue of n entries holds that drops its oldest one when it is full: pushing onto
  -- a ring whose sizes agree is pushing onto its view, and the sizes agree again.
  pub push-view :
      (n : ℕ) (x : A) (r : Ring A)
      → IsRing n r
      → IsRing n (push n x r) × (view n (push n x r) ≡ push_bounded n (view n r) x)
  push-view n x r w = (
    push-IsRing n x r w,
    elim (Bool-cases (ltb r.count n)) [
      | inl e ↦
          let room : length (view n r ++ (x ∷ [])) ≤ n =
            omega (arith, length-append (view n r) (x ∷ []), length-view n r w, ltb→lt _ _ e) in
          view-push_room n x r w (ltb→lt _ _ e) ∙ sym (in_room n x (view n r) room)
      | inr e ↦ elim (wrap r.head n w.head_lt) [
        | inl (at, m) ↦
            view-push_step n x r w (ltb→ge _ _ e) at ∙ sym (drop_oldest n x r w (ltb→ge _ _ e))
        | inr (at, m) ↦
            let none_left : drop (suc r.head) r.cells ≡ [] =
              drop-all (suc r.head) r.cells (omega (arith, w.sized)) in
            view-push_wrap n x r w m at
            ∙ sym (
                drop_oldest n x r w (ltb→ge _ _ e)
                ∙ ap (λ l. l ++ (take r.head r.cells ++ (x ∷ []))) none_left)
      ]
    ],
  )

  -- `double ring[n]{}` with head and count 0.
  unfoldable pub fresh : ℕ → A → Ring A
  fresh n x = record { cells = replicate n x; head = 0; count = 0 }

  pub length-replicate : (n : ℕ) (x : A) → length (replicate n x) ≡ n
  length-replicate zero x = refl
  length-replicate (suc n) x = ap suc (length-replicate n x)

  pub fresh-IsRing : (n : ℕ) (x : A) → 0 < n → IsRing n (fresh n x)
  unfolding fresh
  fresh-IsRing n x h = record {
    sized = length-replicate n x;
    head_lt = h;
    count_le = omega arith;
    filling = inl refl;
  }

  drop-get_or :
      (i : ℕ) (xs : List A) (y : A) → i < length xs → drop i xs ≡ get_or xs i y ∷ drop (suc i) xs
  drop-get_or i [] y h = absurd (omega arith)
  drop-get_or zero (x ∷ xs) y h = refl
  drop-get_or (suc i) (x ∷ xs) y h = drop-get_or i xs y (omega arith)

  -- The cells of a full ring without its oldest one, oldest first.
  abbrev pub later : Ring A → List A
  later r = drop (suc r.head) r.cells ++ take r.head r.cells

  -- The cell at the head of a full ring is its oldest one, and a push drops it.
  pub full_view :
      (n : ℕ) (x y : A) (r : Ring A)
      → IsRing n r
      → n ≤ r.count
      → (view n r ≡ get_or r.cells r.head y ∷ later r) × (view n (push n x r) ≡ later r ++ (x ∷ []))
  full_view n x y r w l = (
    view_full n r l
        ∙ ap (λ c. c ++ take r.head r.cells)
            (drop-get_or r.head r.cells y (omega (arith, w.sized, w.head_lt))),
    (push-view n x r w).1
        ∙ drop_oldest n x r w l
        ∙ sym (append_assoc (drop (suc r.head) r.cells) (take r.head r.cells) (x ∷ [])),
  )
