-- ===== src/Serial/Reader/Settings.antt =====
-- What the reader keeps bounded, and how often it opens the settings menu.
use limonitor.Common.{
  ℕ, suc, ◌≤◌, ◌≡◌, refl, sym, ap, subst, ◌∙◌, inl, inr, Bool, true, false, not, ◌&&◌, ◌==◌, List,
  [], ◌∷◌, ◌++◌, Option, none, some, arith, ltb, if_true, if_false, Bool-cases, length,
  length-append, ltb→lt,
}
use limonitor.Double.{Double}
use limonitor.Battery.{PwrGateSnapshot}
use limonitor.Serial.Lines.{
  ps_key, target_key, contains, is_empty, prompt_response, is_unterminated_prompt,
}
use limonitor.Serial.Gate.{Text, parse}
use limonitor.Serial.Reader.{
  max_line, Sent, reply, settings, Reader, reconfigure, needs_reconfigure, deliver, take_data,
  handle_line, take_line, keep_byte, take_byte, feed, reply_now, idle, session,
}

unfoldable pub settings_count : List Sent → ℕ
settings_count [] = 0
settings_count (reply r ∷ rest) = settings_count rest
settings_count (settings ∷ rest) = suc (settings_count rest)

count_reply :
    (xs : List Sent) (r : List ℕ) → settings_count (xs ++ (reply r ∷ [])) ≡ settings_count xs
unfolding settings_count
count_reply [] r = refl
count_reply (reply q ∷ xs) r = count_reply xs r
count_reply (settings ∷ xs) r = ap suc (count_reply xs r)

count_settings : (xs : List Sent) → settings_count (xs ++ (settings ∷ [])) ≡ suc (settings_count xs)
unfolding settings_count
count_settings [] = refl
count_settings (reply q ∷ xs) = count_settings xs
count_settings (settings ∷ xs) = ap suc (count_settings xs)

-- How often the menu was opened, by the flag.
abbrev pub times : Bool → ℕ
times true = 1
times false = 0

unsent : (a b : Bool) → not a && b ≡ true → times a ≡ 0
unsent true b h = ground (arith, h)
unsent false b h = refl

module _ {F : Type 0} ⦃d : Double F⦄ where
  -- The menu was opened once if the flag is set, and else never; the line in the buffer is not too long.
  abbrev pub IsSound : Reader F → Type 0
  IsSound s =
      (settings_count s.sent ≡ times s.reconfigure_sent)
      × (s.line_len ≡ length s.line_buf)
      × (length s.line_buf ≤ max_line)

  reconfigure-IsSound :
      (snap : PwrGateSnapshot F) (s : Reader F) → IsSound s → IsSound (reconfigure snap s)
  unfolding reconfigure
  reconfigure-IsSound snap s (n, l, b) =
      elim (Bool-cases (not s.reconfigure_sent && needs_reconfigure snap.target_a)) [
        | inl e ↦
            subst IsSound (sym (if_true _ _ e))
              (count_settings s.sent ∙ ap suc (n ∙ unsent s.reconfigure_sent _ e), l, b)
        | inr e ↦ subst IsSound (sym (if_false _ _ e)) (n, l, b)
      ]

  deliver-IsSound :
      (r : Bool × PwrGateSnapshot F) (s : Reader F) → IsSound s → IsSound (deliver r s)
  unfolding deliver
  deliver-IsSound (ok, snap) s h = elim (Bool-cases (ok && s.has_callback)) [
    | inl e ↦
        subst IsSound (sym (if_true _ _ e))
          (reconfigure-IsSound snap (record s { delivered = s.delivered ++ (snap ∷ []) }) h)
    | inr e ↦ subst IsSound (sym (if_false _ _ e)) h
  ]

  reply_now-IsSound : (p : Option (List ℕ)) (s : Reader F) → IsSound s → IsSound (reply_now p s)
  unfolding reply_now
  reply_now-IsSound none s h = h
  reply_now-IsSound (some r) s (n, l, b) = (count_reply s.sent r ∙ n, refl, omega arith)

  idle-IsSound : (s : Reader F) → IsSound s → IsSound (idle s)
  unfolding idle
  idle-IsSound s h =
      elim (Bool-cases (not (is_empty s.line_buf) && is_unterminated_prompt s.line_buf)) [
        | inl e ↦
            subst IsSound (sym (if_true _ _ e)) (reply_now-IsSound (prompt_response s.line_buf) s h)
        | inr e ↦ subst IsSound (sym (if_false _ _ e)) h
      ]

  module _ (text : Text F) (now : ℕ) (blank : PwrGateSnapshot F) where
    take_data-IsSound :
        (line : List ℕ) (s : Reader F) → IsSound s → IsSound (take_data text now blank line s)
    unfolding take_data
    take_data-IsSound line s h = elim (Bool-cases (contains ps_key line)) [
      | inl e ↦ subst IsSound (sym (if_true _ _ e)) h
      | inr e ↦ elim (Bool-cases (not (is_empty s.pending_status) && contains target_key line)) [
        | inl f ↦
            subst IsSound (sym (if_false _ _ e ∙ if_true _ _ f))
              (deliver-IsSound (parse text now s.pending_status line blank) s h)
        | inr f ↦ subst IsSound (sym (if_false _ _ e ∙ if_false _ _ f)) h
      ]
    ]

    handle_line-IsSound :
        (p : Option (List ℕ)) (line : List ℕ) (s : Reader F)
        → IsSound s
        → IsSound (handle_line text now blank p line s)
    unfolding handle_line
    handle_line-IsSound none line s h = take_data-IsSound line s h
    handle_line-IsSound (some r) line s (n, l, b) = (count_reply s.sent r ∙ n, l, b)

    take_byte-IsSound : (c : ℕ) (s : Reader F) → IsSound s → IsSound (take_byte text now blank c s)
    unfolding take_byte take_line keep_byte
    take_byte-IsSound c s (n, l, b) = elim (Bool-cases (c == 13)) [
      | inl e ↦ subst IsSound (sym (if_true _ _ e)) (n, l, b)
      | inr e ↦ elim (Bool-cases (c == 10)) [
        | inl f ↦ subst IsSound (sym (if_false _ _ e ∙ if_true _ _ f)) (
            handle_line-IsSound (prompt_response s.line_buf) s.line_buf
              (record s { line_buf = []; line_len = 0 }) (n, refl, omega arith))
        | inr f ↦ elim (Bool-cases (ltb s.line_len max_line)) [
          | inl g ↦ subst IsSound (sym (if_false _ _ e ∙ if_false _ _ f ∙ if_true _ _ g)) (
            n,
            omega (arith, l, length-append s.line_buf (c ∷ [])),
            omega (arith, l, ltb→lt _ _ g, length-append s.line_buf (c ∷ [])),
          )
          | inr g ↦ subst IsSound (sym (if_false _ _ e ∙ if_false _ _ f ∙ if_false _ _ g)) (n, l, b)
        ]
      ]
    ]

    feed-IsSound :
        (bytes : List ℕ) (s : Reader F) → IsSound s → IsSound (feed text now blank bytes s)
    unfolding feed
    feed-IsSound [] s h = h
    feed-IsSound (c ∷ cs) s h =
        feed-IsSound cs (take_byte text now blank c s) (take_byte-IsSound c s h)

    -- Whatever the reads give, this stays true: the settings menu was opened at most once in the
    -- session, just when the flag says so, and the line that is collected never has more than 1024
    -- bytes.
    pub session-IsSound :
        (reads : List (List ℕ)) (s : Reader F)
        → IsSound s
        → IsSound (session text now blank reads s)
    unfolding session
    session-IsSound [] s h = h
    session-IsSound ([] ∷ reads) s h = session-IsSound reads (idle s) (idle-IsSound s h)
    session-IsSound ((c ∷ cs) ∷ reads) s h =
        session-IsSound reads (feed text now blank (c ∷ cs) s) (feed-IsSound (c ∷ cs) s h)
