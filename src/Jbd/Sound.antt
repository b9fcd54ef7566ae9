-- ===== src/Jbd/Sound.antt =====
-- What `feed` delivers, by the frames that the bytes contain: soundness and bounds.
pub mod Resync
use limonitor.Common.{
  ℕ, zero, suc, ◌+◌, ◌*◌, ◌/◌, ◌%◌, ◌^◌, ◌<◌, ◌≡◌, refl, sym, ap, subst, ◌∙◌, ◌≢◌, inl, inr, false,
  List, [], ◌∷◌, ◌++◌, some, arith, ◌!=◌, length, All, if◌then◌else◌, All-append, All-append_right,
  append_assoc, Bool-cases,
}
use limonitor.Jbd.{
  start_byte, end_byte, checksum, Parser, ParseResult, Pass, done, again, need_more, complete,
  error, skip_to_start, pass_on, check_frame, parse_once, try_parse, feed,
}
use limonitor.Jbd.Frame.{raw_frame, checked, frame, check_frame-raw_frame}
use limonitor.Jbd.View.{
  View, partial, whole, view, IsPartial, IsJunk, skip_to_start-IsAligned, skip_to_start_split,
  skip_to_start-junk,
}
use limonitor.Jbd.Stream.{plus, pass_on-raw_frame, Pass-cases, try_parse-done, try_parse-again}

abbrev pub IsByte : ℕ → Type 0
IsByte b = b < 256

-- How a result comes from the buffer: some bytes are dropped, then a frame is taken off, or the start
-- of one is left.
abbrev pub Explains : List ℕ → Parser → Parser → ParseResult → Type 0
Explains buf p q need_more =
    ((dropped : List ℕ) × (buf ≡ dropped ++ q.buf))
    × IsPartial q.buf
    × (q.payload ≡ p.payload)
    × (q.last_cmd ≡ p.last_cmd)
Explains buf p q complete =
    (dropped : List ℕ) × (buf ≡ dropped ++ (frame q.last_cmd 0 q.payload ++ q.buf))
Explains buf p q error =
    ((dropped : List ℕ) × (cmd : ℕ) × (status : ℕ) × (payload : List ℕ) × (status ≢ 0)
      × (buf ≡ dropped ++ (frame cmd status payload ++ q.buf)))
    × (q.payload ≡ p.payload)
    × (q.last_cmd ≡ p.last_cmd)

-- More bytes in front are dropped as well.
Explains-drop :
    (more buf : List ℕ) (p q : Parser) (r : ParseResult)
    → Explains buf p q r
    → Explains (more ++ buf) p q r
Explains-drop more buf p q need_more ((dropped, e), part, same, cmd) =
    ((more ++ dropped, ap (◌++◌ more) e ∙ sym (append_assoc more dropped _)), part, same, cmd)
Explains-drop more buf p q complete (dropped, e) =
    (more ++ dropped, ap (◌++◌ more) e ∙ sym (append_assoc more dropped _))
Explains-drop more buf p q error ((dropped, cmd, status, payload, bad, e), same, last) = (
  (
    more ++ dropped,
    cmd,
    status,
    payload,
    bad,
    ap (◌++◌ more) e ∙ sym (append_assoc more dropped _),
  ),
  same,
  last,
)

abbrev ExplainsPass : List ℕ → Parser → Pass → Type 0
ExplainsPass buf p (done q r) = Explains buf p q r
ExplainsPass buf p (again q) =
    ((dropped : List ℕ) × (buf ≡ dropped ++ q.buf))
    × (q.payload ≡ p.payload)
    × (q.last_cmd ≡ p.last_cmd)

pub frame-append :
    (cmd status : ℕ) (payload rest : List ℕ)
    → let ck = checksum (checked cmd status payload) in
      frame cmd status payload ++ rest
      ≡ raw_frame cmd status payload (ck / 2 ^ 8) (ck % 2 ^ 8) end_byte rest
unfolding frame
frame-append cmd status payload rest = rw append_assoc

-- The bytes that pass the tests are a frame.
raw_frame-eq-frame :
    (cmd status : ℕ) (payload : List ℕ) (hi lo last : ℕ) (rest : List ℕ)
    → IsByte lo
    → (last != end_byte) ≡ false
    → (hi * 2 ^ 8 + lo != checksum (checked cmd status payload)) ≡ false
    → raw_frame cmd status payload hi lo last rest ≡ frame cmd status payload ++ rest
raw_frame-eq-frame cmd status payload hi lo last rest small ends sums =
    let ck = checksum (checked cmd status payload) in
    let e : last ≡ end_byte = ground arith in
    let f : hi * 2 ^ 8 + lo ≡ ck = ground arith in
    let g : hi ≡ ck / 2 ^ 8 = omega arith in
    let h : lo ≡ ck % 2 ^ 8 = omega arith in rw (frame-append cmd status payload rest, e, g, h)

check_frame-ExplainsPass :
    (p : Parser) (cmd status : ℕ) (payload : List ℕ) (hi lo last : ℕ) (rest : List ℕ)
    → IsByte lo
    → let buf = raw_frame cmd status payload hi lo last rest in
      ExplainsPass buf p (check_frame p buf)
check_frame-ExplainsPass p cmd status payload hi lo last rest small =
    let buf = raw_frame cmd status payload hi lo last rest in
    let sums = hi * 2 ^ 8 + lo != checksum (checked cmd status payload) in
    rw (check_frame-raw_frame p cmd status payload hi lo last rest)
      (elim (Bool-cases (last != end_byte)) [
        | inl e ↦ rw e ((start_byte ∷ [], refl), refl, refl)
        | inr e ↦ elim (Bool-cases sums) [
          | inl f ↦ rw (e, f) ((start_byte ∷ [], refl), refl, refl)
          | inr f ↦
              let framed = raw_frame-eq-frame cmd status payload hi lo last rest small e f in
              elim (Bool-cases (status != 0)) [
                | inl g ↦
                    rw (e, f, g) (([], cmd, status, payload, ground arith, framed), refl, refl)
                | inr g ↦
                    rw (e, f, g) ([], framed ∙ ap (λ s. frame cmd s payload ++ rest) (ground arith))
              ]
        ]
      ])

pass_on-ExplainsPass :
    (p : Parser) (buf : List ℕ) → View p buf → All IsByte buf → ExplainsPass buf p (pass_on p buf)
pass_on-ExplainsPass p buf (partial part e) bytes = rw e (([], refl), part, refl, refl)
pass_on-ExplainsPass p buf (whole cmd status payload hi lo last rest e f) bytes =
    let tail = All-append_right IsByte payload (hi ∷ lo ∷ last ∷ rest) (rw e at bytes).1.1.1.1 in
    rw (f, e) (check_frame-ExplainsPass p cmd status payload hi lo last rest tail.1.0)

ExplainsPass-drop :
    (more buf : List ℕ) (p : Parser) (s : Pass)
    → ExplainsPass buf p s
    → ExplainsPass (more ++ buf) p s
ExplainsPass-drop more buf p (done q r) h = Explains-drop more buf p q r h
ExplainsPass-drop more buf p (again q) ((dropped, e), same, cmd) =
    ((more ++ dropped, ap (◌++◌ more) e ∙ sym (append_assoc more dropped _)), same, cmd)

parse_once-ExplainsPass : (p : Parser) → All IsByte p.buf → ExplainsPass p.buf p (parse_once p)
unfolding parse_once
parse_once-ExplainsPass p bytes =
    let buf = skip_to_start p.buf in
    let (junk, _, e) = skip_to_start_split p.buf in
    let part = All-append_right IsByte junk buf (subst (All IsByte) e bytes) in
    subst (λ b. ExplainsPass b p (pass_on p buf)) (sym e)
      (ExplainsPass-drop junk buf p (pass_on p buf)
        (pass_on-ExplainsPass p buf (view p buf (skip_to_start-IsAligned p.buf)) part))

-- The parser that a pass hands on keeps payload and command.
Explains-congr :
    (buf : List ℕ) (p q s : Parser) (r : ParseResult)
    → q.payload ≡ p.payload
    → q.last_cmd ≡ p.last_cmd
    → Explains buf q s r
    → Explains buf p s r
Explains-congr buf p q s need_more e f (from, part, g, h) = (from, part, g ∙ e, h ∙ f)
Explains-congr buf p q s complete e f h = h
Explains-congr buf p q s error e f (from, g, h) = (from, g ∙ e, h ∙ f)

try_parse-Explains :
    (fuel : ℕ) (p q : Parser) (r : ParseResult)
    → All IsByte p.buf
    → try_parse fuel p ≡ some (q, r)
    → Explains p.buf p q r
try_parse-Explains zero p q r bytes e = unfold try_parse in cc
try_parse-Explains (suc fuel) p q r bytes e =
    let pass = parse_once-ExplainsPass p bytes in
    elim (Pass-cases (parse_once p)) [
      | inl (s, t, f) ↦
          let g : parse_once p ≡ done q r = f ∙ cc (try_parse-done fuel p s t f) in
          subst (ExplainsPass p.buf p) g pass
      | inr (s, f) ↦
          let ((dropped, g), same, cmd) = subst (ExplainsPass p.buf p) f pass in
          let part = All-append_right IsByte dropped s.buf (subst (All IsByte) g bytes) in
          let rest = try_parse-Explains fuel s q r part (sym (try_parse-again fuel p s f) ∙ e) in
          subst (λ b. Explains b p q r) (sym g)
            (Explains-drop dropped s.buf p q r (Explains-congr s.buf p s q r same cmd rest))
    ]

-- Soundness of `feed`, for bytes below 256. `complete` is reported only with a valid frame of status 0
-- in the stream, whose command and payload are stored; `error` only with a valid frame of another
-- status. The buffer keeps just what follows that frame, and `need_more` leaves an unfinished frame.
pub feed-Explains :
    (bytes : List ℕ) (p q : Parser) (r : ParseResult)
    → All IsByte p.buf
    → All IsByte bytes
    → feed bytes p ≡ some (q, r)
    → Explains (p.buf ++ bytes) p q r
unfolding feed
feed-Explains bytes p q r old new e =
    try_parse-Explains (suc (length (p.buf ++ bytes))) (plus p bytes) q r
      (All-append IsByte p.buf bytes old new) e

partial-small : (buf : List ℕ) → All IsByte buf → IsPartial buf → length buf < 262
partial-small [] bytes part = omega arith
partial-small (a ∷ []) bytes part = omega arith
partial-small (a ∷ b ∷ []) bytes part = omega arith
partial-small (a ∷ b ∷ c ∷ []) bytes part = omega arith
partial-small (a ∷ b ∷ c ∷ d ∷ rest) (_, (_, (_, (small, _)))) part = omega arith

-- A parser that asks for more holds fewer than 262 bytes, the size of the largest frame: its buffer
-- does not grow without bound, whatever bytes come in.
pub feed_bounded :
    (bytes : List ℕ) (p q : Parser)
    → All IsByte p.buf
    → All IsByte bytes
    → feed bytes p ≡ some (q, need_more)
    → (length q.buf < 262) × All IsByte q.buf
feed_bounded bytes p q old new e =
    let ((dropped, f), part, _, _) = feed-Explains bytes p q need_more old new e in
    let all = All-append IsByte p.buf bytes old new in
    let kept = All-append_right IsByte dropped q.buf (subst (All IsByte) f all) in
    (partial-small q.buf kept part, kept)
