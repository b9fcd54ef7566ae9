-- ===== src/Jbd/Frame.antt =====
-- A response frame of the JBD protocol, written out, and what `check_frame` does with one.
use limonitor.Common.{
  ℕ, suc, ◌+◌, ◌-◌, ◌*◌, ◌/◌, ◌%◌, ◌^◌, ◌≡◌, ap, ◌∙◌, List, [], ◌∷◌, ◌++◌, arith, ◌!=◌,
  if◌then◌else◌, length, get_or, take, drop, get_or-length_append, take-length_append,
  drop-length_append_add,
}
use native.Mathlib.Nat.{add-zero}
use limonitor.Jbd.{
  start_byte, end_byte, checksum, Parser, done, again, complete, error, check_frame,
}

-- The bytes that the checksum covers.
abbrev pub checked : ℕ → ℕ → List ℕ → List ℕ
checked cmd status payload = cmd ∷ status ∷ length payload ∷ payload

abbrev pub raw_frame : ℕ → ℕ → List ℕ → ℕ → ℕ → ℕ → List ℕ → List ℕ
raw_frame cmd status payload hi lo last rest =
    start_byte ∷ cmd ∷ status ∷ length payload ∷ (payload ++ (hi ∷ lo ∷ last ∷ rest))

-- DD cmd status len payload ck_hi ck_lo 77
unfoldable pub frame : ℕ → ℕ → List ℕ → List ℕ
frame cmd status payload =
    let ck = checksum (checked cmd status payload) in
    raw_frame cmd status payload (ck / 2 ^ 8) (ck % 2 ^ 8) end_byte []

module _ {ℓ} {A : Type ℓ} (a b c e : A) (xs : List A) where
  get_or-four : (n : ℕ) (d : A) → get_or (a ∷ b ∷ c ∷ e ∷ xs) (4 + n) d ≡ get_or xs n d
  get_or-four n d = let four : 4 + n ≡ suc (suc (suc (suc n))) = omega arith in rw four

  drop-four : (n : ℕ) → drop (4 + n) (a ∷ b ∷ c ∷ e ∷ xs) ≡ drop n xs
  drop-four n = let four : 4 + n ≡ suc (suc (suc (suc n))) = omega arith in rw four

take-three {ℓ} :
    {A : Type ℓ} (a b c : A) (xs : List A) (n : ℕ)
    → take (3 + n) (a ∷ b ∷ c ∷ xs) ≡ a ∷ b ∷ c ∷ take n xs
take-three a b c xs n = let three : 3 + n ≡ suc (suc (suc n)) = omega arith in rw three

module _ (p : Parser) (cmd status : ℕ) (payload : List ℕ) (hi lo last : ℕ) (rest : List ℕ) where
  abbrev tail_of : List ℕ
  tail_of = payload ++ (hi ∷ lo ∷ last ∷ rest)

  abbrev whole : List ℕ
  whole = raw_frame cmd status payload hi lo last rest

  get_or-hi : get_or whole (4 + length payload) 0 ≡ hi
  get_or-hi =
      get_or-four start_byte cmd status (length payload) tail_of (length payload) 0
      ∙ rw (← add-zero (length payload)) (get_or-length_append payload _ 0 0)

  get_or-lo : get_or whole (5 + length payload) 0 ≡ lo
  get_or-lo =
      let e : 5 + length payload ≡ 4 + (length payload + 1) = omega arith in
      rw e (
        get_or-four start_byte cmd status (length payload) tail_of (length payload + 1) 0
        ∙ get_or-length_append payload _ 1 0)

  get_or-last : get_or whole (4 + length payload + 2 + 1 - 1) 0 ≡ last
  get_or-last =
      let e : 4 + length payload + 2 + 1 - 1 ≡ 4 + (length payload + 2) = omega arith in
      rw e (
        get_or-four start_byte cmd status (length payload) tail_of (length payload + 2) 0
        ∙ get_or-length_append payload _ 2 0)

  take-checked : take (3 + length payload) (drop 1 whole) ≡ checked cmd status payload
  take-checked =
      take-three cmd status (length payload) tail_of (length payload)
      ∙ ap (λ xs. cmd ∷ status ∷ length payload ∷ xs) (take-length_append payload _)

  drop-total : drop (4 + length payload + 2 + 1) whole ≡ rest
  drop-total =
      let e : 4 + length payload + 2 + 1 ≡ 4 + (length payload + 3) = omega arith in
      rw e (
        drop-four start_byte cmd status (length payload) tail_of (length payload + 3)
        ∙ drop-length_append_add payload _ 3)

  -- The tests of `check_frame` in the order of the code, on a buffer cut into the frame's parts.
  pub check_frame-raw_frame : check_frame p (raw_frame cmd status payload hi lo last rest) ≡ (
      if last != end_byte
      then again
          (record p { buf = cmd ∷ status ∷ length payload ∷ (payload ++ (hi ∷ lo ∷ last ∷ rest)) })
      else if hi * 2 ^ 8 + lo != checksum (checked cmd status payload)
      then again
          (record p { buf = cmd ∷ status ∷ length payload ∷ (payload ++ (hi ∷ lo ∷ last ∷ rest)) })
      else if status != 0
      then done (record p { buf = rest }) error
      else done (record { buf = rest; payload = payload; last_cmd = cmd }) complete)
  unfolding check_frame
  check_frame-raw_frame =
      rw (get_or-last, get_or-hi, get_or-lo, take-checked, drop-total, take-length_append payload _)
