-- ===== src/Client.antt =====
-- src/pwrgate_client.cpp: the charger's answer over HTTP as a `PwrGateSnapshot`. A text is a list of bytes;
-- `Text` is that of the serial reader. The body that `http_get` returns is an argument.
mod Examples
use limonitor.Common.{
  ℕ, ◌≡◌, Bool, true, false, ◌&&◌, ◌||◌, not, ◌==◌, List, [], ◌∷◌, ◌++◌, Option, none, some, String,
  length, drop, map, if◌then◌else◌, All, arith, Bool-cases, if_true, if_false, sym, subst, inl, inr,
}
use limonitor.Common.Int.{ℤ}
use limonitor.Double.{Double, decimal}
use limonitor.Battery.{PwrGateSnapshot}
use limonitor.Serial.Lines.{find, contains, is_empty}
use limonitor.Serial.Gate.{Text, scan_or}

-- "\"key\":" with a closing part, which the key's bytes are put in.
unfoldable pub pattern_of : List ℕ → List ℕ → List ℕ
pattern_of key closing = 34 ∷ key ++ (34 ∷ 58 ∷ closing)

-- What stands behind the first match of a pattern.
unfoldable pub behind : List ℕ → List ℕ → Option (List ℕ)
behind pattern body = elim (find pattern body) [
  | none ↦ none
  | some rest ↦ some (drop (length pattern) rest)
]

abbrev pub prepend : ℕ → Option (List ℕ) → Option (List ℕ)
prepend c none = none
prepend c (some cs) = some (c ∷ cs)

-- The bytes before the next quote, if there is one.
unfoldable pub until_quote : List ℕ → Option (List ℕ)
until_quote [] = none
until_quote (c ∷ cs) = let rest = until_quote cs in if c == 34 then some [] else prepend c rest

-- The first of two ways to write a field that gives something.
abbrev pub or_else {ℓ} : {A : Type ℓ} → Option A → Option A → Option A
or_else none other = other
or_else (some x) other = some x

abbrev pub then_until {ℓ} : {A : Type ℓ} → (List ℕ → Option A) → Option (List ℕ) → Option A
then_until f none = none
then_until f (some rest) = f rest

-- With a blank behind the colon, and without.
unfoldable pub string_field : List ℕ → List ℕ → Option (List ℕ)
string_field body key =
    or_else (then_until until_quote (behind (pattern_of key (32 ∷ 34 ∷ [])) body))
      (then_until until_quote (behind (pattern_of key (34 ∷ [])) body))

-- "valid"
abbrev pub valid_key : List ℕ
valid_key = 118 ∷ 97 ∷ 108 ∷ 105 ∷ 100 ∷ []

-- "true"
abbrev pub true_text : List ℕ
true_text = 116 ∷ 114 ∷ 117 ∷ 101 ∷ []

unfoldable pub says_valid : List ℕ → Bool
says_valid body =
    contains (pattern_of valid_key (32 ∷ true_text)) body
    || contains (pattern_of valid_key true_text) body

module _ {F : Type 0} ⦃d : Double F⦄ (text : Text F) where
  abbrev number_behind : Option (List ℕ) → F
  number_behind none = decimal 0 0
  number_behind (some rest) = scan_or text (decimal 0 0) rest

  unfoldable pub jval_d : List ℕ → List ℕ → F
  jval_d body key =
      number_behind
        (or_else (behind (pattern_of key (32 ∷ [])) body) (behind (pattern_of key []) body))

  unfoldable pub jval_i : List ℕ → List ℕ → ℤ
  jval_i body key = text.to_int (jval_d body key)

  unfoldable pub jval_s : List ℕ → List ℕ → String
  jval_s body key = elim (string_field body key) [ none ↦ "" | some s ↦ text.to_string s ]

  -- The answer's fields, at a time of the system clock; the ADC value is not among them.
  unfoldable pub read_fields : ℕ → List ℕ → PwrGateSnapshot F → PwrGateSnapshot F
  read_fields now body snap = record snap {
    state = jval_s body (115 ∷ 116 ∷ 97 ∷ 116 ∷ 101 ∷ []);
    ps_v = jval_d body (112 ∷ 115 ∷ 95 ∷ 118 ∷ []);
    bat_v = jval_d body (98 ∷ 97 ∷ 116 ∷ 95 ∷ 118 ∷ []);
    bat_a = jval_d body (98 ∷ 97 ∷ 116 ∷ 95 ∷ 97 ∷ []);
    sol_v = jval_d body (115 ∷ 111 ∷ 108 ∷ 95 ∷ 118 ∷ []);
    target_v = jval_d body (116 ∷ 97 ∷ 114 ∷ 103 ∷ 101 ∷ 116 ∷ 95 ∷ 118 ∷ []);
    target_a = jval_d body (116 ∷ 97 ∷ 114 ∷ 103 ∷ 101 ∷ 116 ∷ 95 ∷ 97 ∷ []);
    stop_a = jval_d body (115 ∷ 116 ∷ 111 ∷ 112 ∷ 95 ∷ 97 ∷ []);
    minutes = jval_i body (109 ∷ 105 ∷ 110 ∷ 117 ∷ 116 ∷ 101 ∷ 115 ∷ []);
    pwm = jval_i body (112 ∷ 119 ∷ 109 ∷ []);
    temp = jval_i body (116 ∷ 101 ∷ 109 ∷ 112 ∷ []);
    pss = jval_i body (112 ∷ 115 ∷ 115 ∷ []);
    timestamp = now;
    valid = true;
  }

  -- The snapshot after a successful call; none where it returns false and leaves it alone.
  unfoldable pub parse_json : ℕ → List ℕ → PwrGateSnapshot F → Option (PwrGateSnapshot F)
  parse_json now body snap =
      if is_empty body
      then none
      else if not (says_valid body)
      then none
      else some (read_fields now body snap)

-- No byte is a quote.
abbrev IsUnquoted : Option (List ℕ) → Type 0
IsUnquoted none = Unit
IsUnquoted (some cs) = All (λ c. (c == 34) ≡ false) cs

IsUnquoted-cons :
    (c : ℕ) (rest : Option (List ℕ))
    → IsUnquoted rest
    → IsUnquoted (if c == 34 then some [] else prepend c rest)
IsUnquoted-cons c none h = elim (Bool-cases (c == 34)) [
  | inl e ↦ subst IsUnquoted (sym (if_true _ _ e)) tt
  | inr e ↦ subst IsUnquoted (sym (if_false _ _ e)) tt
]
IsUnquoted-cons c (some cs) h = elim (Bool-cases (c == 34)) [
  | inl e ↦ subst IsUnquoted (sym (if_true _ _ e)) tt
  | inr e ↦ subst IsUnquoted (sym (if_false _ _ e)) (e, h)
]

until_quote-IsUnquoted : (cs : List ℕ) → IsUnquoted (until_quote cs)
unfolding until_quote
until_quote-IsUnquoted [] = tt
until_quote-IsUnquoted (c ∷ cs) = IsUnquoted-cons c (until_quote cs) (until_quote-IsUnquoted cs)

behind-IsUnquoted : (o : Option (List ℕ)) → IsUnquoted (then_until until_quote o)
behind-IsUnquoted none = tt
behind-IsUnquoted (some rest) = until_quote-IsUnquoted rest

either-IsUnquoted : (a b : Option (List ℕ)) → IsUnquoted a → IsUnquoted b → IsUnquoted (or_else a b)
either-IsUnquoted none b h k = k
either-IsUnquoted (some x) b h k = h

-- Whatever the answer is, the text of a field ends before the first quote in it.
pub string_field-IsUnquoted : (body key : List ℕ) → IsUnquoted (string_field body key)
unfolding string_field
string_field-IsUnquoted body key =
    either-IsUnquoted (then_until until_quote (behind (pattern_of key (32 ∷ 34 ∷ [])) body))
      (then_until until_quote (behind (pattern_of key (34 ∷ [])) body)) (behind-IsUnquoted _)
      (behind-IsUnquoted _)
