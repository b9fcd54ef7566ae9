-- ===== src/Jbd/View.antt =====
-- One pass of `try_parse`: what it skips, when it waits, and that bytes that come later change none of
-- its decisions.
use limonitor.Common.{
  ℕ, zero, suc, ◌+◌, ◌≤◌, ◌<◌, ◌≡◌, refl, ap, ◌≢◌, ◌⊎◌, inl, inr, List, [], ◌∷◌, ◌++◌, arith, tests,
  ltb, ◌==◌, length, get_or, All, Bool-cases, ==_iff,
}
use limonitor.Jbd.{start_byte, Parser, done, need_more, skip_to_start, pass_on, check_frame}
use limonitor.Jbd.Frame.{raw_frame}

-- What is left after skipping is empty or begins with a start byte.
abbrev pub IsAligned : List ℕ → Type 0
IsAligned buf = (buf ≡ []) ⊎ ((tail : List ℕ) × (buf ≡ start_byte ∷ tail))

abbrev pub IsJunk : List ℕ → Type 0
IsJunk = All (λ b. b ≢ start_byte)

pub skip_to_start-IsAligned : (buf : List ℕ) → IsAligned (skip_to_start buf)
unfolding skip_to_start
skip_to_start-IsAligned [] = inl refl
skip_to_start-IsAligned (b ∷ bs) = elim (Bool-cases (b == start_byte)) [
  | inl e ↦ rw e (inr (bs, ap (λ x. x ∷ bs) ((==_iff b start_byte).0 e)))
  | inr e ↦ rw e (skip_to_start-IsAligned bs)
]

pub skip_to_start_split :
    (buf : List ℕ) → (junk : List ℕ) × IsJunk junk × (buf ≡ junk ++ skip_to_start buf)
unfolding skip_to_start
skip_to_start_split [] = ([], tt, refl)
skip_to_start_split (b ∷ bs) = elim (Bool-cases (b == start_byte)) [
  | inl e ↦ rw e ([], tt, refl)
  | inr e ↦
      let (junk, clean, split) = skip_to_start_split bs in
      rw e (b ∷ junk, (ground arith, clean), ap (◌∷◌ b) split)
]

pub skip_to_start-junk :
    (junk buf : List ℕ) → IsJunk junk → skip_to_start (junk ++ buf) ≡ skip_to_start buf
unfolding skip_to_start
skip_to_start-junk [] buf h = refl
skip_to_start-junk (b ∷ bs) buf (h, hs) = ground (arith, skip_to_start-junk bs buf hs)

-- Skipping first and taking in more bytes after comes to the same.
pub skip_to_start-append :
    (xs ys : List ℕ) → skip_to_start (xs ++ ys) ≡ skip_to_start (skip_to_start xs ++ ys)
unfolding skip_to_start
skip_to_start-append [] ys = refl
skip_to_start-append (x ∷ xs) ys = elim (Bool-cases (x == start_byte)) [
  | inl e ↦ rw (e, skip_to_start) (rw e)
  | inr e ↦ rw e (skip_to_start-append xs ys)
]

pub length-skip_to_start-le : (xs : List ℕ) → length (skip_to_start xs) ≤ length xs
unfolding skip_to_start
length-skip_to_start-le [] = omega arith
length-skip_to_start-le (x ∷ xs) = ground (arith, length-skip_to_start-le xs)

-- The frame that begins the buffer is not all there yet.
abbrev pub IsPartial : List ℕ → Type 0
IsPartial buf = (length buf < 4) ⊎ (length buf < 4 + get_or buf 3 0 + 2 + 1)

-- A list with n + 3 elements at least, cut after n.
Cut : ℕ → List ℕ → Type 0
Cut n bs =
    (xs : List ℕ) × (hi : ℕ) × (lo : ℕ) × (last : ℕ) × (rest : List ℕ) × (bs
      ≡ xs ++ (hi ∷ lo ∷ last ∷ rest))
    × (length xs ≡ n)

cut : (n : ℕ) (bs : List ℕ) → n + 3 ≤ length bs → Cut n bs
unfolding Cut
cut zero (hi ∷ lo ∷ last ∷ rest) h = ([], hi, lo, last, rest, refl, refl)
cut zero (a ∷ b ∷ []) h = absurd (omega arith)
cut zero (a ∷ []) h = absurd (omega arith)
cut zero [] h = absurd (omega arith)
cut (suc n) [] h = absurd (omega arith)
cut (suc n) (x ∷ bs) h =
    let (xs, hi, lo, last, rest, e, k) = cut n bs (omega arith) in
    (x ∷ xs, hi, lo, last, rest, ap (◌∷◌ x) e, ap suc k)

-- Either the pass waits, or the buffer begins with all the bytes of a candidate frame.
pub data View (p : Parser) (buf : List ℕ) : Type 0 where
  partial : IsPartial buf → pass_on p buf ≡ done (record p { buf = buf }) need_more → View p buf
  whole :
      (cmd status : ℕ) (payload : List ℕ) (hi lo last : ℕ) (rest : List ℕ)
      → buf ≡ raw_frame cmd status payload hi lo last rest
      → pass_on p buf ≡ check_frame p buf
      → View p buf

view_tail :
    (p : Parser) (cmd status n : ℕ) (bs : List ℕ)
    → n + 3 ≤ length bs
    → View p (start_byte ∷ cmd ∷ status ∷ n ∷ bs)
unfolding pass_on Cut
view_tail p cmd status n bs h =
    let (xs, hi, lo, last, rest, e, k) = cut n bs h in
    whole cmd status xs hi lo last rest (ground arith) (ground arith)

view_aligned : (p : Parser) (tail : List ℕ) → View p (start_byte ∷ tail)
unfolding pass_on
view_aligned p [] = partial (inl (omega arith)) refl
view_aligned p (a ∷ []) = partial (inl (omega arith)) refl
view_aligned p (a ∷ b ∷ []) = partial (inl (omega arith)) refl
view_aligned p (cmd ∷ status ∷ n ∷ bs) = elim (Bool-cases (ltb (length bs) (n + 3))) [
  | inl e ↦ partial (inr (omega tests)) (ground arith)
  | inr e ↦ view_tail p cmd status n bs (omega tests)
]

pub view : (p : Parser) (buf : List ℕ) → IsAligned buf → View p buf
unfolding pass_on
view p buf (inl e) = rw e (partial (inl (omega arith)) refl)
view p buf (inr (tail, e)) = rw e (view_aligned p tail)
