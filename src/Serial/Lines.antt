-- ===== src/Serial/Lines.antt =====
-- src/serial_reader.cpp, `prompt_response` and `is_unterminated_prompt`, and the searches in text that
-- src/pwrgate.cpp shares. A text is a list of bytes.
use limonitor.Common.{
  ℕ, ◌≡◌, arith, Bool, true, false, ◌&&◌, ◌||◌, ◌==◌, List, [], ◌∷◌, Option, none, some,
  if◌then◌else◌,
}

-- "PS="
abbrev pub ps_key : List ℕ
ps_key = 80 ∷ 83 ∷ 61 ∷ []

-- "TargetV="
abbrev pub target_key : List ℕ
target_key = 84 ∷ 97 ∷ 114 ∷ 103 ∷ 101 ∷ 116 ∷ 86 ∷ 61 ∷ []

-- "Max charge current"
abbrev pub max_charge_text : List ℕ
max_charge_text =
    77 ∷ 97 ∷ 120 ∷ 32 ∷ 99 ∷ 104 ∷ 97 ∷ 114 ∷ 103 ∷ 101 ∷ 32 ∷ 99 ∷ 117 ∷ 114 ∷ 114 ∷ 101 ∷ 110
    ∷ 116 ∷ []

-- "Reset to default"
abbrev pub reset_text : List ℕ
reset_text =
    82 ∷ 101 ∷ 115 ∷ 101 ∷ 116 ∷ 32 ∷ 116 ∷ 111 ∷ 32 ∷ 100 ∷ 101 ∷ 102 ∷ 97 ∷ 117 ∷ 108 ∷ 116 ∷ []

-- "Battery Save Mode"
abbrev pub save_mode_text : List ℕ
save_mode_text =
    66 ∷ 97 ∷ 116 ∷ 116 ∷ 101 ∷ 114 ∷ 121 ∷ 32 ∷ 83 ∷ 97 ∷ 118 ∷ 101 ∷ 32 ∷ 77 ∷ 111 ∷ 100 ∷ 101
    ∷ []

abbrev pub is_blank : ℕ → Bool
is_blank c = c == 32 || c == 9

unfoldable pub starts_with : List ℕ → List ℕ → Bool
starts_with [] line = true
starts_with (p ∷ ps) [] = false
starts_with (p ∷ ps) (c ∷ cs) = let rest = starts_with ps cs in if p == c then rest else false

-- `line.find(pat)`, as the part of the line from the match on.
unfoldable pub find : List ℕ → List ℕ → Option (List ℕ)
find pat [] = if starts_with pat [] then some [] else none
find pat (c ∷ cs) =
    let rest = find pat cs in if starts_with pat (c ∷ cs) then some (c ∷ cs) else rest

abbrev pub is_some {ℓ} : {A : Type ℓ} → Option A → Bool
is_some none = false
is_some (some x) = true

abbrev pub contains : List ℕ → List ℕ → Bool
contains pat line = is_some (find pat line)

abbrev pub is_empty : List ℕ → Bool
is_empty [] = true
is_empty (c ∷ cs) = false

-- The loop that takes blanks off the end.
unfoldable pub strip_end : List ℕ → List ℕ
strip_end [] = []
strip_end (c ∷ cs) = let rest = strip_end cs in if is_blank c && is_empty rest then [] else c ∷ rest

-- The last byte is ':' or '?'.
abbrev pub asks : ℕ → Bool
asks c = c == 58 || c == 63

unfoldable pub ends_asking : List ℕ → Bool
ends_asking [] = false
ends_asking (c ∷ []) = asks c
ends_asking (c ∷ b ∷ bs) = ends_asking (b ∷ bs)

-- "10\r", "N\r" and "\r".
abbrev pub answer : List ℕ → List ℕ
answer line =
    if contains max_charge_text line
    then 49 ∷ 48 ∷ 13 ∷ []
    else if contains reset_text line
    then 78 ∷ 13 ∷ []
    else if contains save_mode_text line
    then 78 ∷ 13 ∷ []
    else 13 ∷ []

-- `none` is the null pointer.
unfoldable pub prompt_response : List ℕ → Option (List ℕ)
prompt_response line = if ends_asking (strip_end line) then some (answer line) else none

-- The last two bytes are '>' and ':' or '?'.
unfoldable pub ends_with_default : List ℕ → Bool
ends_with_default [] = false
ends_with_default (c ∷ []) = false
ends_with_default (p ∷ c ∷ []) = p == 62 && asks c
ends_with_default (p ∷ c ∷ b ∷ bs) = ends_with_default (c ∷ b ∷ bs)

unfoldable pub is_unterminated_prompt : List ℕ → Bool
is_unterminated_prompt partial = ends_with_default (strip_end partial)

-- What waits for a reply in the buffer is a prompt, so it gets one.
pub ends_with_default-asking :
    (line : List ℕ) → ends_with_default line ≡ true → ends_asking line ≡ true
unfolding ends_with_default ends_asking
ends_with_default-asking [] h = ground arith
ends_with_default-asking (c ∷ []) h = ground arith
ends_with_default-asking (p ∷ c ∷ []) h = ground arith
ends_with_default-asking (p ∷ c ∷ b ∷ bs) h = ends_with_default-asking (c ∷ b ∷ bs) h
