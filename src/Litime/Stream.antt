-- ===== src/Litime/Stream.antt =====
-- The receive buffer of the LiTime parser: when it reports a packet, and what later bytes do to one.
use limonitor.Common.{
  ℕ, zero, suc, ◌+◌, ◌*◌, ◌≤◌, ◌<◌, ◌≡◌, refl, ap, ap₂, List, ◌∷◌, ◌++◌, arith, leb, if◌then◌else◌,
  length, length-append, get_or-append_left, append_assoc, ◌⊎◌, inl, inr, Bool-cases, leb→le,
  leb→gt, lt→ltb, ◌==◌,
}
use limonitor.Double.{Double, ◌/F◌, of_ℕ, decimal}
use limonitor.Battery.{BatterySnapshot}
use limonitor.Battery.Decode.{u16le, u32le}
use limonitor.Litime.{
  Parser, need_more, complete, feed, apply, parse, parse_core, parse_protection, parse_state,
  parse_cycles, parse_derived, read_cells, min_response_len,
}

-- How the bytes are cut into notifications does not matter: feeding two parts comes to feeding them
-- as one, in the buffer and in the result of the last call.
pub feed-feed : (xs ys : List ℕ) (p : Parser) → feed ys (feed xs p).0 ≡ feed (xs ++ ys) p
unfolding feed
feed-feed xs ys p = rw append_assoc

-- `complete` is reported exactly when 66 bytes have come, `need_more` otherwise, and then `apply`
-- leaves the snapshot alone.
pub feed_branches :
    {F : Type 0} ⦃d : Double F⦄ (bytes : List ℕ) (p : Parser) (snap : BatterySnapshot F)
    → let (q, r) = feed bytes p in
      let n = length p.buf + length bytes in
      (min_response_len ≤ n) × (r ≡ complete)
      ⊎ (n < min_response_len) × (r ≡ need_more) × (apply q snap ≡ snap)
unfolding feed apply
feed_branches bytes p snap =
    let n = length-append p.buf bytes in
    elim (Bool-cases (leb min_response_len (length (p.buf ++ bytes)))) [
      | inl e ↦ rw e (inl (omega (arith, n, leb→le _ _ e), refl))
      | inr e ↦ rw e (inr (omega (arith, n, leb→gt _ _ e), refl, refl))
    ]

u16le-append : (xs ys : List ℕ) (i : ℕ) → i + 1 < length xs → u16le (xs ++ ys) i ≡ u16le xs i
unfolding u16le
u16le-append xs ys i h =
    rw (get_or-append_left xs ys i 0 (omega arith), get_or-append_left xs ys (i + 1) 0 h)

u32le-append : (xs ys : List ℕ) (i : ℕ) → i + 3 < length xs → u32le (xs ++ ys) i ≡ u32le xs i
unfolding u32le
u32le-append xs ys i h = rw (
  get_or-append_left xs ys i 0 (omega arith),
  get_or-append_left xs ys (i + 1) 0 (omega arith),
  get_or-append_left xs ys (i + 2) 0 (omega arith),
  get_or-append_left xs ys (i + 3) 0 h,
)

module _ {F : Type 0} ⦃d : Double F⦄ where
  read_cells-append :
      (xs ys : List ℕ) (left i : ℕ)
      → 16 + (i + left) * 2 ≤ length xs
      → read_cells {F = F} (xs ++ ys) left i ≡ read_cells xs left i
  unfolding read_cells
  read_cells-append xs ys zero i h = refl
  read_cells-append xs ys (suc left) i h =
      ap₂ {A = ℕ}
        (λ raw (rest : List F). if raw == 0 then rest else (of_ℕ raw /F decimal 1000 0) ∷ rest)
        (u16le-append xs ys (16 + i * 2) (omega arith))
        (read_cells-append xs ys left (i + 1) (omega arith))

  module _ (xs ys : List ℕ) (h : 100 ≤ length xs) (snap : BatterySnapshot F) where
    parse_core-append : parse_core (xs ++ ys) snap ≡ parse_core xs snap
    unfolding parse_core
    parse_core-append = rw (
      u32le-append xs ys 12 (omega arith),
      u32le-append xs ys 48 (omega arith),
      u16le-append xs ys 52 (omega arith),
      u16le-append xs ys 54 (omega arith),
      u16le-append xs ys 62 (omega arith),
      u16le-append xs ys 64 (omega arith),
      read_cells-append xs ys 16 0 (omega arith),
    )

    later_fields-append :
        (parse_protection (xs ++ ys) snap ≡ parse_protection xs snap)
        × (parse_state (xs ++ ys) snap ≡ parse_state xs snap)
        × (parse_cycles (xs ++ ys) snap ≡ parse_cycles xs snap)
    unfolding parse_protection parse_state parse_cycles
    later_fields-append = (
      rw (
        u32le-append xs ys 76 (omega arith),
        lt→ltb 79 (length (xs ++ ys)) (omega (arith, length-append xs ys)),
        lt→ltb 79 (length xs) (omega arith),
      ),
      rw (
        u16le-append xs ys 88 (omega arith),
        u16le-append xs ys 90 (omega arith),
        lt→ltb 91 (length (xs ++ ys)) (omega (arith, length-append xs ys)),
        lt→ltb 91 (length xs) (omega arith),
      ),
      rw (
        u32le-append xs ys 96 (omega arith),
        lt→ltb 99 (length (xs ++ ys)) (omega (arith, length-append xs ys)),
        lt→ltb 99 (length xs) (omega arith),
      ),
    )

  -- Once 100 bytes are in the buffer, bytes that are fed without a `reset` change nothing: `apply`
  -- keeps decoding the packet at the head of the buffer.
  pub apply-feed_stale :
      (bytes : List ℕ) (p : Parser) (snap : BatterySnapshot F)
      → 100 ≤ length p.buf
      → apply (feed bytes p).0 snap ≡ apply p snap
  unfolding feed apply parse
  apply-feed_stale bytes p snap h =
      let xs = p.buf in
      let core = parse_core-append xs bytes h snap in
      let s1 = parse_core xs snap in
      let s2 = parse_protection xs s1 in
      let s3 = parse_state xs s2 in
      let chain : parse_cycles (xs ++ bytes) (
            parse_state (xs ++ bytes)
              (parse_protection (xs ++ bytes) (parse_core (xs ++ bytes) snap)))
          ≡ parse_cycles xs s3 =
        rw (core, (later_fields-append xs bytes h s1).0, (later_fields-append xs bytes h s2).1)
          (later_fields-append xs bytes h s3).2 in
      ground (arith, ap parse_derived chain, length-append xs bytes)
