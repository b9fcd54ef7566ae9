-- ===== src/Serial/Gate.antt =====
-- src/pwrgate.cpp: a pair of status lines as a `PwrGateSnapshot`. What the C library gives stands in
-- `Text`: `sscanf` of "%lf", the conversion to `int`, and a text as a `std::string`.
use limonitor.Common.{
  ℕ, ◌≡◌, ap, ap₂, ◌∙◌, ◌⊎◌, inl, inr, Bool-cases, unless_true, unless_false, Bool, true, false,
  not, ◌&&◌, ◌==◌, List, [], ◌∷◌, Option, none, some, String, length, drop, if◌then◌else◌,
}
use limonitor.Common.Int.{ℤ}
use limonitor.Double.{Double, ◌-F◌, ◌>F◌, ◌≥F◌, decimal}
use limonitor.Battery.{PwrGateSnapshot}
use limonitor.Serial.Lines.{ps_key, target_key, is_blank, find, contains, is_empty}

-- `scan` is `none` where no number stands.
pub record Text (F : Type 0) : Type 0 where
  pub scan : List ℕ → Option F
  pub to_int : F → ℤ
  pub to_string : List ℕ → String

pub skip_spaces : List ℕ → List ℕ
skip_spaces [] = []
skip_spaces (c ∷ cs) = let rest = skip_spaces cs in if c == 32 then rest else c ∷ cs

pub skip_blanks : List ℕ → List ℕ
skip_blanks [] = []
skip_blanks (c ∷ cs) = let rest = skip_blanks cs in if is_blank c then rest else c ∷ cs

pub until_blank : List ℕ → List ℕ
until_blank [] = []
until_blank (c ∷ cs) = let rest = until_blank cs in if is_blank c then [] else c ∷ rest

pub first_word : List ℕ → List ℕ
first_word s = until_blank (skip_blanks s)

module _ {F : Type 0} ⦃d : Double F⦄ (text : Text F) where
  -- `sscanf` leaves the variable alone where it reads no number.
  unfoldable pub scan_or : F → List ℕ → F
  scan_or old s = elim (text.scan s) [ none ↦ old | some v ↦ v ]

  pub extract_from : ℕ → Option (List ℕ) → F
  extract_from n none = decimal 0 0
  extract_from n (some rest) = scan_or (decimal 0 0) (skip_spaces (drop n rest))

  -- The key is given with its '='.
  pub extract_d : List ℕ → List ℕ → F
  extract_d line key = extract_from (length key) (find key line)

  pub extract_i : List ℕ → List ℕ → ℤ
  extract_i line key = text.to_int (extract_d line key)

  pub current_after : Option (List ℕ) → F → F
  current_after none old = old
  current_after (some rest) old = scan_or old (drop 1 rest)

  -- "Bat=13.08V,  5.36A"
  pub parse_bat : Option (List ℕ) → PwrGateSnapshot F → PwrGateSnapshot F
  parse_bat none snap = snap
  parse_bat (some rest) snap = record snap {
    bat_v = scan_or snap.bat_v (drop 4 rest);
    bat_a = current_after (find (44 ∷ []) rest) snap.bat_a;
  }

  pub infer_state : PwrGateSnapshot F → String
  infer_state snap =
      if snap.bat_a >F decimal 5 2
      then if snap.bat_v ≥F snap.target_v -F decimal 1 1 then "Float" else "Charging"
      else "Idle"

  pub state_of : List ℕ → PwrGateSnapshot F → String
  state_of fw snap =
      if not (contains (61 ∷ []) fw) && not (is_empty fw)
      then text.to_string fw
      else infer_state snap

  pub read_status : List ℕ → PwrGateSnapshot F → PwrGateSnapshot F
  read_status s1 snap = record snap {
    ps_v = extract_d s1 ps_key;
    sol_v = extract_d s1 (83 ∷ 111 ∷ 108 ∷ 61 ∷ []);
    minutes = extract_i s1 (77 ∷ 105 ∷ 110 ∷ 61 ∷ []);
    pwm = extract_i s1 (80 ∷ 61 ∷ []);
    adc = extract_i s1 (97 ∷ 100 ∷ 99 ∷ 61 ∷ []);
  }

  pub read_target : List ℕ → PwrGateSnapshot F → PwrGateSnapshot F
  read_target s2 snap = record snap {
    target_v = extract_d s2 target_key;
    target_a = extract_d s2 (84 ∷ 97 ∷ 114 ∷ 103 ∷ 101 ∷ 116 ∷ 73 ∷ 61 ∷ []);
    stop_a = extract_d s2 (83 ∷ 116 ∷ 111 ∷ 112 ∷ 61 ∷ []);
    temp = extract_i s2 (84 ∷ 101 ∷ 109 ∷ 112 ∷ 61 ∷ []);
    pss = extract_i s2 (80 ∷ 83 ∷ 83 ∷ 61 ∷ []);
  }

  -- The result of `parse` and the snapshot after it; `now` is the system clock.
  pub parse : ℕ → List ℕ → List ℕ → PwrGateSnapshot F → Bool × PwrGateSnapshot F
  parse now s1 s2 snap =
      let read =
        read_target s2 (parse_bat (find (66 ∷ 97 ∷ 116 ∷ 61 ∷ []) s1) (read_status s1 snap)) in
      if not (contains ps_key s1)
      then (false, snap)
      else if not (contains target_key s2)
      then (false, snap)
      else (
        true,
        record read { state = state_of (first_word s1) read; timestamp = now; valid = true },
      )

  -- A pair of lines is refused, and the snapshot left alone, unless the first has "PS=" and the second
  -- "TargetV="; otherwise the snapshot is valid and has the time of the call.
  pub parse_cases :
      (now : ℕ) (s1 s2 : List ℕ) (snap : PwrGateSnapshot F)
      → (contains ps_key s1 && contains target_key s2 ≡ false)
          × (parse now s1 s2 snap ≡ (false, snap))
        ⊎ (contains ps_key s1 && contains target_key s2 ≡ true)
          × ((parse now s1 s2 snap).0 ≡ true)
          × ((parse now s1 s2 snap).1.valid ≡ true)
          × ((parse now s1 s2 snap).1.timestamp ≡ now)
  unfolding parse
  parse_cases now s1 s2 snap = elim (Bool-cases (contains ps_key s1)) [
    | inr e ↦ inl (ap (λ b. b && contains target_key s2) e, unless_false _ _ e)
    | inl e ↦ elim (Bool-cases (contains target_key s2)) [
      | inr f ↦ inl (ap₂ ◌&&◌ e f, unless_true _ _ e ∙ unless_false _ _ f)
      | inl f ↦
          let go = unless_true _ _ e ∙ unless_true _ _ f in
          inr (
            ap₂ ◌&&◌ e f,
            ap (λ (r : Bool × PwrGateSnapshot F). r.0) go,
            ap (λ (r : Bool × PwrGateSnapshot F). r.1.valid) go,
            ap (λ (r : Bool × PwrGateSnapshot F). r.1.timestamp) go,
          )
    ]
  ]
