-- ===== src/Jbd/Stream.antt =====
-- `feed` over a byte stream: it always returns, and how the stream is cut into calls does not matter.
use limonitor.Common.{
  ℕ, zero, suc, ◌<◌, ◌≡◌, refl, sym, ap, ◌∙◌, ◌⊎◌, inl, inr, List, ◌∷◌, ◌++◌, Option, some, arith,
  length, length-append, append_assoc,
}
use limonitor.Jbd.{
  Parser, ParseResult, Pass, done, again, need_more, complete, error, skip_to_start, pass_on,
  check_frame, parse_once, try_parse, feed,
}
use limonitor.Jbd.Frame.{raw_frame, check_frame-raw_frame}
use limonitor.Jbd.View.{
  View, partial, whole, view, skip_to_start-IsAligned, skip_to_start-append,
  length-skip_to_start-le,
}

-- More bytes at the end of the buffer.
abbrev pub plus : Parser → List ℕ → Parser
plus p bytes = record p { buf = p.buf ++ bytes }

-- What a pass comes to when `bytes` were in the buffer already.
abbrev extend : List ℕ → Pass → Pass
extend bytes (done q need_more) = parse_once (plus q bytes)
extend bytes (done q complete) = done (plus q bytes) complete
extend bytes (done q error) = done (plus q bytes) error
extend bytes (again q) = again (plus q bytes)

check_frame-append :
    (p : Parser) (cmd status : ℕ) (payload : List ℕ) (hi lo last : ℕ) (rest bytes : List ℕ)
    → check_frame (plus p bytes) (raw_frame cmd status payload hi lo last rest ++ bytes)
      ≡ extend bytes (check_frame p (raw_frame cmd status payload hi lo last rest))
check_frame-append p cmd status payload hi lo last rest bytes =
    rw
      (
        append_assoc payload (hi ∷ lo ∷ last ∷ rest) bytes,
        check_frame-raw_frame p cmd status payload hi lo last rest,
        check_frame-raw_frame (plus p bytes) cmd status payload hi lo last (rest ++ bytes),
      )
      (ground (arith, append_assoc payload (hi ∷ lo ∷ last ∷ rest) bytes))

-- A pass writes the buffer anew, so only the other fields of the parser count.
pass_on-buf : (p : Parser) (old buf : List ℕ) → pass_on (record p { buf = old }) buf ≡ pass_on p buf
unfolding pass_on check_frame
pass_on-buf p old buf = refl

pub pass_on-raw_frame :
    (p : Parser) (cmd status : ℕ) (payload : List ℕ) (hi lo last : ℕ) (rest : List ℕ)
    → pass_on p (raw_frame cmd status payload hi lo last rest)
      ≡ check_frame p (raw_frame cmd status payload hi lo last rest)
unfolding pass_on
pass_on-raw_frame p cmd status payload hi lo last rest =
    ground (arith, length-append payload (hi ∷ lo ∷ last ∷ rest))

parse_once-View :
    (p : Parser) (bytes buf : List ℕ)
    → skip_to_start p.buf ≡ buf
    → View p buf
    → pass_on (plus p bytes) (skip_to_start (buf ++ bytes)) ≡ extend bytes (pass_on p buf)
unfolding parse_once skip_to_start
parse_once-View p bytes buf s (partial _ e) =
    rw e (sym (pass_on-buf (plus p bytes) (buf ++ bytes) _))
parse_once-View p bytes buf s (whole cmd status payload hi lo last rest e _) =
    rw
      (
        e,
        pass_on-raw_frame p cmd status payload hi lo last rest,
        ← check_frame-append p cmd status payload hi lo last rest bytes,
        append_assoc payload (hi ∷ lo ∷ last ∷ rest) bytes,
      )
      (pass_on-raw_frame (plus p bytes) cmd status payload hi lo last (rest ++ bytes))

-- A pass decides the same when more bytes follow, unless it was waiting for them.
pub parse_once-plus :
    (p : Parser) (bytes : List ℕ) → parse_once (plus p bytes) ≡ extend bytes (parse_once p)
unfolding parse_once
parse_once-plus p bytes = rw skip_to_start-append (
    parse_once-View p bytes (skip_to_start p.buf) refl
      (view p (skip_to_start p.buf) (skip_to_start-IsAligned p.buf)))

-- A pass that calls `try_parse` again has taken at least the start byte off.
abbrev Shrinks : ℕ → Pass → Type 0
Shrinks n (done q r) = Unit {0}
Shrinks n (again q) = length q.buf < n

pass_on-Shrinks : (p : Parser) (buf : List ℕ) → View p buf → Shrinks (length buf) (pass_on p buf)
pass_on-Shrinks p buf (partial _ e) = rw e tt
pass_on-Shrinks p buf (whole cmd status payload hi lo last rest e _) =
    rw
      (
        e,
        pass_on-raw_frame p cmd status payload hi lo last rest,
        check_frame-raw_frame p cmd status payload hi lo last rest,
      )
      (ground arith)

parse_once-shrinks : (p q : Parser) → parse_once p ≡ again q → length q.buf < length p.buf
unfolding parse_once
parse_once-shrinks p q e =
    let shrinks =
      pass_on-Shrinks p (skip_to_start p.buf) (view p _ (skip_to_start-IsAligned p.buf)) in
    omega (arith, length-skip_to_start-le p.buf, rw e at shrinks)

pub Pass-cases :
    (s : Pass)
    → ((q : Parser) × (r : ParseResult) × (s ≡ done q r)) ⊎ ((q : Parser) × (s ≡ again q))
Pass-cases (done q r) = inl (q, r, refl)
Pass-cases (again q) = inr (q, refl)

pub try_parse-done :
    (fuel : ℕ) (p q : Parser) (r : ParseResult)
    → parse_once p ≡ done q r
    → try_parse (suc fuel) p ≡ some (q, r)
unfolding try_parse
try_parse-done fuel p q r e = rw (e, try_parse)

pub try_parse-again :
    (fuel : ℕ) (p q : Parser) → parse_once p ≡ again q → try_parse (suc fuel) p ≡ try_parse fuel q
unfolding try_parse
try_parse-again fuel p q e = rw (e, try_parse)

-- With fuel above the length of the buffer `try_parse` returns.
pub try_parse_total :
    (fuel : ℕ) (p : Parser)
    → length p.buf < fuel
    → (q : Parser) × (r : ParseResult) × (try_parse fuel p ≡ some (q, r))
try_parse_total zero p h = absurd (omega arith)
try_parse_total (suc fuel) p h = elim (Pass-cases (parse_once p)) [
  | inl (q, r, e) ↦ (q, r, try_parse-done fuel p q r e)
  | inr (q, e) ↦
      let (s, r, k) = try_parse_total fuel q (omega (arith, parse_once-shrinks p q e)) in
      (s, r, try_parse-again fuel p q e ∙ k)
]

-- Two calls that begin with the same pass agree, if both have fuel enough.
pub try_parse-congr :
    (fuel more : ℕ) (p q : Parser)
    → parse_once p ≡ parse_once q
    → length p.buf < fuel
    → length q.buf < more
    → try_parse fuel p ≡ try_parse more q
try_parse-congr zero more p q e h k = absurd (omega arith)
try_parse-congr (suc fuel) zero p q e h k = absurd (omega arith)
try_parse-congr (suc fuel) (suc more) p q e h k = elim (Pass-cases (parse_once q)) [
  | inl (s, r, f) ↦ try_parse-done fuel p s r (e ∙ f) ∙ sym (try_parse-done more q s r f)
  | inr (s, f) ↦
      let rest =
        try_parse-congr fuel more s s refl (omega (arith, parse_once-shrinks p s (e ∙ f)))
          (omega (arith, parse_once-shrinks q s f)) in
      try_parse-again fuel p s (e ∙ f) ∙ rest ∙ sym (try_parse-again more q s f)
]

-- Every call of `feed` returns: the recursion of `try_parse` ends.
pub feed_total :
    (bytes : List ℕ) (p : Parser) → (q : Parser) × (r : ParseResult) × (feed bytes p ≡ some (q, r))
unfolding feed
feed_total bytes p = try_parse_total (suc (length (p.buf ++ bytes))) (plus p bytes) (omega arith)

abbrev Resumes : List ℕ → Parser → ParseResult → Option (Parser × ParseResult) → Type 0
Resumes bytes q need_more s =
    (fuel : ℕ) → length (q.buf ++ bytes) < fuel → s ≡ try_parse fuel (plus q bytes)
Resumes bytes q complete s = s ≡ some (plus q bytes, complete)
Resumes bytes q error s = s ≡ some (plus q bytes, error)

Resumes-done :
    (more : ℕ) (p q : Parser) (r : ParseResult) (bytes : List ℕ)
    → parse_once p ≡ done q r
    → length (p.buf ++ bytes) < suc more
    → Resumes bytes q r (try_parse (suc more) (plus p bytes))
Resumes-done more p q need_more bytes e h = λ fuel k.
    try_parse-congr (suc more) fuel (plus p bytes) (plus q bytes)
      (parse_once-plus p bytes ∙ ap (extend bytes) e) h k
Resumes-done more p q complete bytes e h =
    try_parse-done more _ _ complete (parse_once-plus p bytes ∙ ap (extend bytes) e)
Resumes-done more p q error bytes e h =
    try_parse-done more _ _ error (parse_once-plus p bytes ∙ ap (extend bytes) e)

try_parse-plus :
    (fuel more : ℕ) (p q : Parser) (r : ParseResult) (bytes : List ℕ)
    → try_parse fuel p ≡ some (q, r)
    → length (p.buf ++ bytes) < more
    → Resumes bytes q r (try_parse more (plus p bytes))
try_parse-plus zero more p q r bytes e h = unfold try_parse in cc
try_parse-plus (suc fuel) zero p q r bytes e h = absurd (omega arith)
try_parse-plus (suc fuel) (suc more) p q r bytes e h = elim (Pass-cases (parse_once p)) [
  | inl (s, t, f) ↦ Resumes-done more p q r bytes (f ∙ cc (try_parse-done fuel p s t f)) h
  | inr (s, f) ↦
      let g = parse_once-plus p bytes ∙ ap (extend bytes) f in
      let rest =
        try_parse-plus fuel more s q r bytes (sym (try_parse-again fuel p s f) ∙ e)
          (omega (arith, parse_once-shrinks (plus p bytes) (plus s bytes) g)) in
      rw (try_parse-again more (plus p bytes) (plus s bytes) g) rest
]

-- Feeding a stream in two calls comes to feeding it in one, if the first call asked for more.
pub feed-append :
    (xs ys : List ℕ) (p q : Parser)
    → feed xs p ≡ some (q, need_more)
    → feed ys q ≡ feed (xs ++ ys) p
unfolding feed
feed-append xs ys p q e =
    let n = suc (length (p.buf ++ (xs ++ ys))) in
    let resumed = try_parse-plus _ n (plus p xs) q need_more ys e (rw append_assoc (omega arith)) in
    sym (rw append_assoc at (resumed (suc (length (q.buf ++ ys))) (omega arith)))

-- A frame that is complete is delivered the same when more bytes came with it; those are kept.
pub feed-append_complete :
    (xs ys : List ℕ) (p q : Parser)
    → feed xs p ≡ some (q, complete)
    → feed (xs ++ ys) p ≡ some (plus q ys, complete)
unfolding feed
feed-append_complete xs ys p q e =
    let n = suc (length (p.buf ++ (xs ++ ys))) in
    let resumed = try_parse-plus _ n (plus p xs) q complete ys e (rw append_assoc (omega arith)) in
    rw append_assoc at resumed
