-- ===== src/AnalyticsEngine/Regression/Cached.antt =====
-- The sums that the trends are computed from, against the samples they stand for.
use limonitor.Common.{
  ◌≤◌, ◌<◌, ◌==◌, ◌≡◌, refl, sym, ap, ◌∙◌, inl, inr, List, [], ◌∷◌, ◌++◌, arith, foldl, Bool-cases,
  if_true, if_false, get_or, subst,
}
use limonitor.Double.{Double, IsExact, ◌+F◌, ◌-F◌, ◌*F◌, decimal}
use limonitor.AnalyticsEngine.Rings.{Ring, IsRing, push, view}
use limonitor.AnalyticsEngine.Rings.Order.{later, push-view, view-push_room, full_view}
use limonitor.AnalyticsEngine.{Trend, TrendSample, Sums}
use limonitor.AnalyticsEngine.Regression.{
  no_sample, add_point, take_point, leave, push_voltage_soc_sample,
}

module _ {F : Type 0} ⦃d : Double F⦄ where
  -- The sum of f over the samples, oldest first.
  abbrev pub total : (TrendSample F → F) → List (TrendSample F) → F
  total f xs = foldl (λ acc p. acc +F f p) (decimal 0 0) xs

  -- The sums of a regression of `y` on the time, computed from the samples.
  abbrev pub sums_of : (TrendSample F → F) → List (TrendSample F) → Sums F
  sums_of y xs = record {
    x = total (λ p. p.ts) xs;
    y = total y xs;
    x2 = total (λ p. p.ts *F p.ts) xs;
    xy = total (λ p. p.ts *F y p) xs;
  }

  -- The ring is in order, and the cached sums are those of the samples it holds.
  pub record IsCached (s : Trend F) : Type 0 where
    pub ring : IsRing 12 s.samples
    pub voltage : s.v_sum ≡ sums_of (λ p. p.v) (view 12 s.samples)
    pub charge : s.s_sum ≡ sums_of (λ p. p.soc) (view 12 s.samples)

  foldl-snoc :
      (f : TrendSample F → F) (acc : F) (xs : List (TrendSample F)) (p : TrendSample F)
      → foldl (λ acc p. acc +F f p) acc (xs ++ (p ∷ [])) ≡ foldl (λ acc p. acc +F f p) acc xs +F f p
  foldl-snoc f acc [] p = refl
  foldl-snoc f acc (x ∷ xs) p = foldl-snoc f (acc +F f x) xs p

  sums_of-snoc :
      (y : TrendSample F → F) (xs : List (TrendSample F)) (p : TrendSample F)
      → sums_of y (xs ++ (p ∷ [])) ≡ add_point p.ts (y p) (sums_of y xs)
  unfolding add_point
  sums_of-snoc y xs p i = record {
    x = foldl-snoc (λ p. p.ts) (decimal 0 0) xs p i;
    y = foldl-snoc y (decimal 0 0) xs p i;
    x2 = foldl-snoc (λ p. p.ts *F p.ts) (decimal 0 0) xs p i;
    xy = foldl-snoc (λ p. p.ts *F y p) (decimal 0 0) xs p i;
  }

module _ {F : Type 0} ⦃d : Double F⦄ (laws : IsExact F) where
  foldl-add :
      (f : TrendSample F → F) (a b : F) (xs : List (TrendSample F))
      → foldl (λ acc p. acc +F f p) (a +F b) xs ≡ foldl (λ acc p. acc +F f p) a xs +F b
  foldl-add f a b [] = refl
  foldl-add f a b (x ∷ xs) =
      ap (λ z. foldl (λ acc p. acc +F f p) z xs)
        (laws.add_assoc a b (f x)
          ∙ ap (λ z. a +F z) (laws.add_comm b (f x))
          ∙ sym (laws.add_assoc a (f x) b))
      ∙ foldl-add f (a +F f x) b xs

  -- Taking the oldest term away leaves the sum of the others.
  total-oldest :
      (f : TrendSample F → F) (o : TrendSample F) (xs : List (TrendSample F))
      → total f (o ∷ xs) -F f o ≡ total f xs
  total-oldest f o xs =
      ap (λ z. z -F f o) (foldl-add f (decimal 0 0) (f o) xs) ∙ laws.add_sub (total f xs) (f o)

  sums_of-oldest :
      (y : TrendSample F → F) (o : TrendSample F) (xs : List (TrendSample F))
      → take_point o.ts (y o) (sums_of y (o ∷ xs)) ≡ sums_of y xs
  unfolding take_point
  sums_of-oldest y o xs i = record {
    x = total-oldest (λ p. p.ts) o xs i;
    y = total-oldest y o xs i;
    x2 = total-oldest (λ p. p.ts *F p.ts) o xs i;
    xy = total-oldest (λ p. p.ts *F y p) o xs i;
  }

  -- One of the two regressions, when the ring has room and when it is full.
  room_sums :
      (y : TrendSample F → F) (r : Ring (TrendSample F)) (p : TrendSample F) (s : Sums F)
      → IsRing 12 r
      → r.count < 12
      → s ≡ sums_of y (view 12 r)
      → add_point p.ts (y p) s ≡ sums_of y (view 12 (push 12 p r))
  room_sums y r p s w l e =
      ap (add_point p.ts (y p)) e
      ∙ sym (sums_of-snoc y (view 12 r) p)
      ∙ ap (sums_of y) (sym (view-push_room 12 p r w l))

  full_sums :
      (y : TrendSample F → F) (r : Ring (TrendSample F)) (p : TrendSample F) (s : Sums F)
      → IsRing 12 r
      → 12 ≤ r.count
      → s ≡ sums_of y (view 12 r)
      → let old = get_or r.cells r.head no_sample in
        add_point p.ts (y p) (take_point old.ts (y old) s) ≡ sums_of y (view 12 (push 12 p r))
  full_sums y r p s w l e =
      let old = get_or r.cells r.head no_sample in
      let (before, after) = full_view 12 p no_sample r w l in
      ap (λ t. add_point p.ts (y p) (take_point old.ts (y old) t)) (e ∙ ap (sums_of y) before)
      ∙ ap (add_point p.ts (y p)) (sums_of-oldest y old (later r))
      ∙ sym (sums_of-snoc y (later r) p)
      ∙ ap (sums_of y) (sym after)

  -- In arithmetic without rounding: where the cached sums are those of the samples in the ring, they are
  -- so after another sample, which drops the oldest one when the ring is full.
  pub push_voltage_soc_sample-IsCached :
      (ts v soc : F) (s : Trend F) → IsCached s → IsCached (push_voltage_soc_sample ts v soc s)
  unfolding push_voltage_soc_sample leave
  push_voltage_soc_sample-IsCached ts v soc s w =
      let p : TrendSample F = record { ts = ts; v = v; soc = soc } in
      elim (Bool-cases (s.samples.count == 12)) [
        | inl e ↦
            let full : 12 ≤ s.samples.count = ground (arith, e) in
            subst
              (λ (t : Trend F). IsCached (record t {
                samples = push 12 p t.samples;
                v_sum = add_point ts v t.v_sum;
                s_sum = add_point ts soc t.s_sum;
              }))
              (sym (if_true _ _ e))
              (record {
                ring = (push-view 12 p s.samples w.ring).0;
                voltage = full_sums (λ q. q.v) s.samples p s.v_sum w.ring full w.voltage;
                charge = full_sums (λ q. q.soc) s.samples p s.s_sum w.ring full w.charge;
              })
        | inr e ↦
            let room : s.samples.count < 12 = ground (arith, e, w.ring.count_le) in
            subst
              (λ (t : Trend F). IsCached (record t {
                samples = push 12 p t.samples;
                v_sum = add_point ts v t.v_sum;
                s_sum = add_point ts soc t.s_sum;
              }))
              (sym (if_false _ _ e))
              (record {
                ring = (push-view 12 p s.samples w.ring).0;
                voltage = room_sums (λ q. q.v) s.samples p s.v_sum w.ring room w.voltage;
                charge = room_sums (λ q. q.soc) s.samples p s.s_sum w.ring room w.charge;
              })
      ]
