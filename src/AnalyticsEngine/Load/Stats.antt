-- ===== src/AnalyticsEngine/Load/Stats.antt =====
-- What the statistics of the load say of the samples.
use limonitor.Common.{
  ◌<◌, ◌==◌, ◌≡◌, refl, sym, ap, ap₂, ◌∙◌, inl, inr, false, List, [], ◌∷◌, ◌++◌, arith, foldl, take,
  drop, ltb, All, Bool-cases, if_false, take-append-drop, ltb→lt, ltb→ge, length, subst,
}
use limonitor.Double.{Double, IsExact, IsOrdered, ◌+F◌, ◌/F◌, ◌>F◌, of_ℕ, decimal}
use limonitor.AnalyticsEngine.Rings.{
  Ring, IsRing, view, length-view, view_filling, view_full, take-all,
}
use limonitor.AnalyticsEngine.{Loads}
use limonitor.AnalyticsEngine.Load.{LoadSums, add_load, load_sums, recompute_load_stats}

module _ {F : Type 0} ⦃d : Double F⦄ where
  abbrev pub total_from : F → List F → F
  total_from acc xs = foldl ◌+F◌ acc xs

  sums_total : (ws : List F) (s : LoadSums F) → (foldl add_load s ws).sum ≡ total_from s.sum ws
  unfolding add_load
  sums_total [] s = refl
  sums_total (w ∷ ws) s = sums_total ws (add_load s w)

  foldl-append :
      (acc : F) (xs ys : List F) → total_from acc (xs ++ ys) ≡ total_from (total_from acc xs) ys
  foldl-append acc [] ys = refl
  foldl-append acc (x ∷ xs) ys = foldl-append (acc +F x) xs ys

module _ {F : Type 0} ⦃d : Double F⦄ (laws : IsExact F) where
  total-add : (a b : F) (xs : List F) → total_from (a +F b) xs ≡ total_from a xs +F b
  total-add a b [] = refl
  total-add a b (x ∷ xs) =
      ap (λ z. total_from z xs)
        (laws.add_assoc a b x ∙ ap (λ z. a +F z) (laws.add_comm b x) ∙ sym (laws.add_assoc a x b))
      ∙ total-add (a +F x) b xs

  -- A sum from any start is the start and the sum.
  total-start : (a : F) (xs : List F) → total_from a xs ≡ total_from (decimal 0 0) xs +F a
  total-start a xs =
      ap (λ z. total_from z xs) (sym (laws.zero_add a)) ∙ total-add (decimal 0 0) a xs

  total-swap :
      (xs ys : List F) → total_from (decimal 0 0) (xs ++ ys) ≡ total_from (decimal 0 0) (ys ++ xs)
  total-swap xs ys =
      foldl-append (decimal 0 0) xs ys
      ∙ total-start (total_from (decimal 0 0) xs) ys
      ∙ laws.add_comm (total_from (decimal 0 0) ys) (total_from (decimal 0 0) xs)
      ∙ sym (total-start (total_from (decimal 0 0) ys) xs)
      ∙ sym (foldl-append (decimal 0 0) ys xs)

  -- The cells that the loop visits have the sum of the samples that the ring holds.
  cells_total :
      (r : Ring F)
      → IsRing 720 r
      → total_from (decimal 0 0) (take r.count r.cells) ≡ total_from (decimal 0 0) (view 720 r)
  cells_total r w = elim (Bool-cases (ltb r.count 720)) [
    | inl e ↦ ap (total_from (decimal 0 0)) (sym (view_filling 720 r (ltb→lt _ _ e)))
    | inr e ↦
        let h = r.head in
        ap (total_from (decimal 0 0)) (
          take-all r.count r.cells (omega (arith, w.sized, ltb→ge _ _ e))
          ∙ sym (take-append-drop h r.cells))
        ∙ total-swap (take h r.cells) (drop h r.cells)
        ∙ ap (total_from (decimal 0 0)) (sym (view_full 720 r (ltb→ge _ _ e)))
  ]

  -- In arithmetic without rounding, with the ring in order and not empty: the average load is the mean of
  -- the samples that the ring holds, however the ring is turned.
  pub recompute-mean :
      (s : Loads F)
      → IsRing 720 s.load
      → 0 < s.load.count
      → (recompute_load_stats s).avg_load_watts
        ≡ total_from (decimal 0 0) (view 720 s.load) /F of_ℕ (length (view 720 s.load))
  unfolding recompute_load_stats load_sums
  recompute-mean s w h =
      let some_left : (s.load.count == 0) ≡ false = ground arith in
      ap (λ (t : Loads F). t.avg_load_watts) (if_false _ _ some_left)
      ∙ ap₂ (λ a n. a /F of_ℕ n)
          (sums_total (take s.load.count s.load.cells) _ ∙ cells_total s.load w)
          (sym (length-view 720 s.load w))

module _ {F : Type 0} ⦃d : Double F⦄ (laws : IsOrdered F) where
  peak_over :
      (u : F) (ws : List F) (s : LoadSums F)
      → (u >F s.peak) ≡ false
      → (u >F (foldl add_load s ws).peak) ≡ false
  unfolding add_load
  peak_over u [] s h = h
  peak_over u (w ∷ ws) s h = peak_over u ws (add_load s w) (
      ground
        (arith, h, laws.lt_trans s.peak w u, laws.lt_trans s.peak u w, laws.lt_trans w u s.peak))

  load_sums-peak :
      (ws : List F) (s : LoadSums F) → All (λ w. (w >F (foldl add_load s ws).peak) ≡ false) ws
  unfolding add_load
  load_sums-peak [] s = tt
  load_sums-peak (w ∷ ws) s = (
    peak_over w ws (add_load s w) (ground (arith, laws.lt_irrefl w)),
    load_sums-peak ws (add_load s w),
  )

  -- With an irreflexive and transitive order, and samples in the ring: none of the samples that the loop
  -- visits is above the peak load.
  pub recompute-peak :
      (s : Loads F)
      → 0 < s.load.count
      → All
          (λ w. (w >F (recompute_load_stats s).peak_load_watts) ≡ false)
          (take s.load.count s.load.cells)
  unfolding recompute_load_stats load_sums
  recompute-peak s h =
      let some_left : (s.load.count == 0) ≡ false = ground arith in
      subst
        (λ (t : Loads F).
          All (λ w. (w >F t.peak_load_watts) ≡ false) (take s.load.count s.load.cells))
        (sym (if_false _ _ some_left)) (load_sums-peak (take s.load.count s.load.cells) _)
