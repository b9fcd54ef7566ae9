-- ===== src/Ops.antt =====
-- src/ops_util.cpp, `escape_json_str`: a text, as a list of bytes, as a JSON string.
mod Examples
use limonitor.Common.{
  ℕ, ◌≡◌, refl, ap, false, ◌∙◌, sym, inl, inr, arith, List, [], ◌∷◌, ◌++◌, Option, none, some, ◌==◌,
  ◌||◌, ◌&&◌, Bool, true, ltb, leb, ap₂, if◌then◌else◌, if_true, if_false, Bool-cases, append_assoc,
  ==_iff,
}

-- The quote is 34, the backslash 92, the line feed 10 and the letter n 110.
pub escape_byte : ℕ → List ℕ
escape_byte c =
    if c == 34
    then 92 ∷ 34 ∷ []
    else if c == 92
    then 92 ∷ 92 ∷ []
    else if c == 10
    then 92 ∷ 110 ∷ []
    else c ∷ []

pub escape_bytes : List ℕ → List ℕ
escape_bytes [] = []
escape_bytes (c ∷ cs) = escape_byte c ++ escape_bytes cs

pub escape_json_str : List ℕ → List ℕ
escape_json_str s = 34 ∷ (escape_bytes s ++ (34 ∷ []))

-- What a reader of JSON makes of the byte after a backslash; `\u` with its four digits is not read.
pub unescape_byte : ℕ → Option ℕ
unescape_byte c =
    if c == 34 || c == 92 || c == 47
    then some c
    else if c == 98
    then some 8
    else if c == 102
    then some 12
    else if c == 110
    then some 10
    else if c == 114
    then some 13
    else if c == 116
    then some 9
    else none

abbrev pub prepend : ℕ → Option (List ℕ × List ℕ) → Option (List ℕ × List ℕ)
prepend c none = none
prepend c (some (text, rest)) = some (c ∷ text, rest)

abbrev pub prepend_escaped : Option ℕ → Option (List ℕ × List ℕ) → Option (List ℕ × List ℕ)
prepend_escaped none r = none
prepend_escaped (some c) r = prepend c r

-- A byte that stands for itself, where JSON allows it.
pub read_plain : ℕ → Option (List ℕ × List ℕ) → Option (List ℕ × List ℕ)
read_plain c r = if ltb c 32 then none else prepend c r

-- The text up to the closing quote, and what follows it. JSON allows no byte below 32 in it.
pub read_body : List ℕ → Option (List ℕ × List ℕ)
read_body [] = none
read_body (c ∷ []) = if c == 34 then some ([], []) else none
read_body (c ∷ b ∷ bs) =
    let plain = read_body (b ∷ bs) in
    let escaped = read_body bs in
    if c == 34
    then some ([], b ∷ bs)
    else if c == 92
    then prepend_escaped (unescape_byte b) escaped
    else read_plain c plain

pub read_string : List ℕ → Option (List ℕ × List ℕ)
read_string [] = none
read_string (c ∷ cs) = let body = read_body cs in if c == 34 then body else none

-- The line feed, or a byte that is no control character.
abbrev pub is_readable : ℕ → Bool
is_readable c = c == 10 || leb 32 c

abbrev pub all_readable : List ℕ → Bool
all_readable [] = true
all_readable (c ∷ cs) = is_readable c && all_readable cs

-- What is read back of a text, if anything is.
abbrev pub read_back : Bool → List ℕ → List ℕ → Option (List ℕ × List ℕ)
read_back b text rest = if b then some (text, rest) else none

read_body-plain :
    (c : ℕ) (bs : List ℕ)
    → c == 34 ≡ false
    → c == 92 ≡ false
    → read_body (c ∷ bs) ≡ read_plain c (read_body bs)
unfolding read_body read_plain
read_body-plain c [] q e = ground arith
read_body-plain c (b ∷ bs) q e = if_false _ _ q ∙ if_false _ _ e

read_back-plain :
    (c : ℕ) (b : Bool) (text rest : List ℕ)
    → c == 10 ≡ false
    → read_plain c (read_back b text rest) ≡ read_back (is_readable c && b) (c ∷ text) rest
unfolding read_plain
read_back-plain c b text rest n = ground (arith, n)

read_back-kept :
    (c : ℕ) (b : Bool) (text rest : List ℕ)
    → is_readable c ≡ true
    → prepend c (read_back b text rest) ≡ read_back (is_readable c && b) (c ∷ text) rest
read_back-kept c b text rest n = ground (arith, n)

read_body-escape_byte :
    (c : ℕ) (bs text rest : List ℕ) (b : Bool)
    → read_body bs ≡ read_back b text rest
    → read_body (escape_byte c ++ bs) ≡ read_back (is_readable c && b) (c ∷ text) rest
unfolding escape_byte unescape_byte read_body
read_body-escape_byte c bs text rest b h =
    let read = λ (e : List ℕ). read_body (e ++ bs) in
    let escaped : (k : ℕ)
        → k ≡ c
        → is_readable c ≡ true
        → prepend k (read_body bs) ≡ read_back (is_readable c && b) (c ∷ text) rest =
      λ k e r. ap₂ prepend e h ∙ read_back-kept c b text rest r in
    elim (Bool-cases (c == 34)) [
      | inl q ↦ ap read (if_true _ _ q) ∙ escaped 34 (sym ((==_iff c 34).0 q)) (ground (arith, q))
      | inr q ↦ elim (Bool-cases (c == 92)) [
        | inl e ↦
            ap read (if_false _ _ q ∙ if_true _ _ e)
            ∙ escaped 92 (sym ((==_iff c 92).0 e)) (ground (arith, e))
        | inr e ↦ elim (Bool-cases (c == 10)) [
          | inl n ↦
              ap read (if_false _ _ q ∙ if_false _ _ e ∙ if_true _ _ n)
              ∙ escaped 10 (sym ((==_iff c 10).0 n)) (ground (arith, n))
          | inr n ↦
              ap read (if_false _ _ q ∙ if_false _ _ e ∙ if_false _ _ n)
              ∙ read_body-plain c bs q e
              ∙ ap (read_plain c) h
              ∙ read_back-plain c b text rest n
        ]
      ]
    ]

read_body-quote : (rest : List ℕ) → read_body (34 ∷ rest) ≡ some ([], rest)
unfolding read_body
read_body-quote [] = refl
read_body-quote (b ∷ bs) = refl

read_body-escape_bytes :
    (s rest : List ℕ)
    → read_body (escape_bytes s ++ (34 ∷ rest)) ≡ read_back (all_readable s) s rest
unfolding escape_bytes
read_body-escape_bytes [] rest = read_body-quote rest
read_body-escape_bytes (c ∷ s) rest =
    ap read_body (append_assoc (escape_byte c) (escape_bytes s) (34 ∷ rest))
    ∙ read_body-escape_byte c (escape_bytes s ++ (34 ∷ rest)) s rest (all_readable s)
        (read_body-escape_bytes s rest)

-- A reader of JSON strings, which takes no byte below 32, gets back just the text that was escaped and
-- stops at its end, whatever follows, if every byte of the text is a line feed or at least 32; it refuses
-- what became of any other text.
pub read_string-escape_json_str :
    (s rest : List ℕ)
    → read_string (escape_json_str s ++ rest) ≡ (if all_readable s then some (s, rest) else none)
unfolding read_string escape_json_str
read_string-escape_json_str s rest =
    ap read_body (append_assoc (escape_bytes s) (34 ∷ []) rest) ∙ read_body-escape_bytes s rest
