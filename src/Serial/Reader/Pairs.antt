-- ===== src/Serial/Reader/Pairs.antt =====
-- Lines out of bytes, and snapshots out of lines.
use limonitor.Common.{
  ℕ, suc, ◌+◌, ◌≤◌, ◌<◌, ◌≡◌, refl, sym, ap, ap₂, ◌∙◌, inl, inr, Bool, true, false, not, ◌&&◌, ◌==◌,
  List, [], ◌∷◌, ◌++◌, none, arith, if_true, if_false, Bool-cases, length, All, append-nil,
  append_assoc, lt→ltb,
}
use limonitor.Double.{Double}
use limonitor.Battery.{PwrGateSnapshot}
use limonitor.Serial.Lines.{
  ps_key, target_key, contains, find, starts_with, is_empty, prompt_response,
}
use limonitor.Serial.Gate.{Text, parse, parse_cases}
use limonitor.Serial.Reader.{
  max_line, Reader, reconfigure, needs_reconfigure, deliver, take_data, handle_line, take_line,
  keep_byte, take_byte, feed,
}

-- A byte that does not end a line.
abbrev pub IsText : ℕ → Type 0
IsText c = (c == 13 ≡ false) × (c == 10 ≡ false)

module _ {F : Type 0} ⦃d : Double F⦄ (text : Text F) (now : ℕ) (blank : PwrGateSnapshot F) where
  -- However a stream of bytes is cut into reads, the outcome is the same.
  pub feed-concat :
      (xs ys : List ℕ) (s : Reader F)
      → feed text now blank (xs ++ ys) s ≡ feed text now blank ys (feed text now blank xs s)
  unfolding feed
  feed-concat [] ys s = refl
  feed-concat (x ∷ xs) ys s = feed-concat xs ys (take_byte text now blank x s)

  abbrev buffered : List ℕ → ℕ → Reader F → Reader F
  buffered line len s = record s { line_buf = line; line_len = len }

  take_text :
      (c : ℕ) (s : Reader F)
      → IsText c
      → s.line_len < max_line
      → take_byte text now blank c s ≡ buffered (s.line_buf ++ (c ∷ [])) (suc s.line_len) s
  unfolding take_byte keep_byte
  take_text c s (not_cr, not_lf) h =
      if_false _ _ not_cr ∙ if_false _ _ not_lf ∙ if_true _ _ (lt→ltb _ _ h)

  feed_text :
      (line : List ℕ) (s : Reader F)
      → All IsText line
      → s.line_len + length line ≤ max_line
      → feed text now blank line s ≡ buffered (s.line_buf ++ line) (s.line_len + length line) s
  unfolding feed
  feed_text [] s h n = sym (ap₂ (λ l k. buffered l k s) (append-nil s.line_buf) (omega arith))
  feed_text (c ∷ line) s (h, hs) n =
      ap (feed text now blank line) (take_text c s h (omega arith))
      ∙ feed_text line (buffered (s.line_buf ++ (c ∷ [])) (suc s.line_len) s) hs (omega arith)
      ∙ ap₂ (λ l k. buffered l k s) (append_assoc s.line_buf (c ∷ []) line) (omega arith)

  ended :
      (line : List ℕ) (len : ℕ) (s : Reader F)
      → feed text now blank (13 ∷ 10 ∷ []) (buffered line len s)
        ≡ take_line text now blank line (buffered [] 0 s)
  unfolding feed take_byte
  ended line len s = refl

  -- A line of up to 1024 bytes, none of them a carriage return or a line feed, that comes with
  -- "\r\n" at its end while nothing is buffered reaches the handler whole, and the buffer is empty
  -- after it.
  pub feed-line :
      (line : List ℕ) (s : Reader F)
      → All IsText line
      → length line ≤ max_line
      → s.line_buf ≡ []
      → s.line_len ≡ 0
      → feed text now blank (line ++ (13 ∷ 10 ∷ [])) s ≡ take_line text now blank line s
  feed-line line s h n empty zero_len =
      feed-concat line (13 ∷ 10 ∷ []) s
      ∙ ap (feed text now blank (13 ∷ 10 ∷ [])) (feed_text line s h (omega arith))
      ∙ ended (s.line_buf ++ line) (s.line_len + length line) s
      ∙ ap (λ b. take_line text now blank (b ++ line) (buffered [] 0 s)) empty
      ∙ ap (take_line text now blank line) (sym (ap₂ (λ b k. buffered b k s) empty zero_len))

  nonempty : (line : List ℕ) → contains ps_key line ≡ true → is_empty line ≡ false
  unfolding find starts_with
  nonempty [] h = ground (arith, h)
  nonempty (c ∷ line) h = refl

  take_status :
      (line : List ℕ) (s : Reader F)
      → prompt_response line ≡ none
      → contains ps_key line ≡ true
      → take_line text now blank line s ≡ record s { pending_status = line }
  unfolding take_line handle_line take_data
  take_status line s p k = ap (λ r. handle_line text now blank r line s) p ∙ if_true _ _ k

  take_target :
      (line : List ℕ) (s : Reader F)
      → prompt_response line ≡ none
      → contains ps_key line ≡ false
      → contains target_key line ≡ true
      → is_empty s.pending_status ≡ false
      → take_line text now blank line s
        ≡ record (deliver (parse text now s.pending_status line blank) s) { pending_status = [] }
  unfolding take_line handle_line take_data
  take_target line s p k t e =
      let both : not (is_empty s.pending_status) && contains target_key line ≡ true =
        ground (arith, e, t) in
      ap (λ r. handle_line text now blank r line s) p ∙ if_false _ _ k ∙ if_true _ _ both

  deliver-delivered :
      (r : Bool × PwrGateSnapshot F) (s : Reader F)
      → r.0 ≡ true
      → s.has_callback ≡ true
      → (deliver r s).delivered ≡ s.delivered ++ (r.1 ∷ [])
  unfolding deliver reconfigure
  deliver-delivered (ok, snap) s e cb =
      let both : ok && s.has_callback ≡ true = ground (arith, e, cb) in
      let given : Reader F = record s { delivered = s.delivered ++ (snap ∷ []) } in
      ap (λ (t : Reader F). t.delivered) (if_true _ _ both)
      ∙ elim (Bool-cases (not s.reconfigure_sent && needs_reconfigure snap.target_a)) [
        | inl f ↦ ap (λ (t : Reader F). t.delivered) (if_true _ _ f)
        | inr f ↦ ap (λ (t : Reader F). t.delivered) (if_false _ given f)
      ]

  parse-ok :
      (s1 s2 : List ℕ)
      → contains ps_key s1 ≡ true
      → contains target_key s2 ≡ true
      → (parse text now s1 s2 blank).0 ≡ true
  parse-ok s1 s2 e f = elim (parse_cases text now s1 s2 blank) [
    | inl (g, _) ↦ absurd (ground (arith, e, f, g))
    | inr (_, ok, _, _) ↦ ok
  ]

  -- A status line with "PS=" and the target line with "TargetV=" after it, neither of them a prompt
  -- or longer than 1024 bytes and the second without "PS=", that come while nothing is buffered,
  -- give the callback that is set just one snapshot, which is what `parse` makes of the two. No
  -- status line waits after that.
  pub feed-pair :
      (status target : List ℕ) (s : Reader F)
      → All IsText status × (length status ≤ max_line)
      → All IsText target × (length target ≤ max_line)
      → (s.line_buf ≡ []) × (s.line_len ≡ 0) × (s.has_callback ≡ true)
      → (prompt_response status ≡ none) × (contains ps_key status ≡ true)
      → (prompt_response target ≡ none)
        × (contains ps_key target ≡ false)
        × (contains target_key target ≡ true)
      → let after = feed text now blank (status ++ (13 ∷ 10 ∷ target ++ (13 ∷ 10 ∷ []))) s in
        (after.delivered ≡ s.delivered ++ ((parse text now status target blank).1 ∷ []))
        × (after.pending_status ≡ [])
  feed-pair status target s (h1, n1) (h2, n2) (empty, len, cb) (p1, k1) (p2, k2, k3) =
      let rest = target ++ (13 ∷ 10 ∷ []) in
      let noted : Reader F = record s { pending_status = status } in
      let pair = parse text now status target blank in
      let first : feed text now blank (status ++ (13 ∷ 10 ∷ rest)) s
          ≡ feed text now blank rest noted =
        ap (λ l. feed text now blank l s) (sym (append_assoc status (13 ∷ 10 ∷ []) rest))
        ∙ feed-concat (status ++ (13 ∷ 10 ∷ [])) rest s
        ∙ ap (feed text now blank rest)
            (feed-line status s h1 n1 empty len ∙ take_status status s p1 k1) in
      let second =
        feed-line target noted h2 n2 empty len
        ∙ take_target target noted p2 k2 k3 (nonempty status k1) in
      let whole = first ∙ second in
      (
        ap (λ (t : Reader F). t.delivered) whole
            ∙ deliver-delivered pair noted (parse-ok status target k1 k3) cb,
        ap (λ (t : Reader F). t.pending_status) whole,
      )
