-- ===== src/Litime/Packet.antt =====
-- A LiTime packet of 100 bytes with given readings is decoded to these readings.
use limonitor.Common.{
  ℕ, zero, suc, ◌+◌, ◌*◌, ◌/◌, ◌%◌, ◌^◌, ◌≡◌, refl, sym, ap₂, ◌∙◌, List, [], ◌∷◌, ◌++◌, arith, ◌==◌,
  if◌then◌else◌, length, get_or, length-append, append_assoc, get_or-length_append,
}
use limonitor.Common.Int.{ℤ}
use limonitor.Double.{Double, ◌/F◌, of_ℕ, decimal}
use limonitor.Battery.Decode.{u16le, u32le}
use limonitor.Battery.Extremes.{pattern_of}
use limonitor.Litime.{read_cells}

-- Little-endian bytes of a 16-bit and of a 32-bit number, and of a list of 16-bit numbers.
abbrev pub le16 : ℕ → List ℕ → List ℕ
le16 v rest = v % 2 ^ 8 ∷ v / 2 ^ 8 ∷ rest

abbrev pub le32 : ℕ → List ℕ → List ℕ
le32 v rest = v % 2 ^ 8 ∷ v / 2 ^ 8 % 2 ^ 8 ∷ v / 2 ^ 16 % 2 ^ 8 ∷ v / 2 ^ 24 ∷ rest

abbrev pub zeros : ℕ → List ℕ → List ℕ
zeros zero rest = rest
zeros (suc n) rest = 0 ∷ zeros n rest

unfoldable pub le_words : List ℕ → List ℕ
le_words [] = []
le_words (v ∷ vs) = le16 v (le_words vs)

length-le_words : (vs : List ℕ) → length (le_words vs) ≡ 2 * length vs
unfolding le_words
length-le_words [] = refl
length-le_words (v ∷ vs) = omega (arith, length-le_words vs)

pub record Reading : Type 0 where
  pub voltage : ℕ
  pub cells : List ℕ
  pub current : ℤ
  pub cell_temp : ℤ
  pub bms_temp : ℤ
  pub remaining : ℕ
  pub nominal : ℕ
  pub prot : ℕ
  pub state : ℕ
  pub soc : ℕ
  pub cycles : ℕ

-- The bytes before the cells, and those from offset 48 on.
abbrev pub head_of : Reading → List ℕ
head_of r = zeros 12 (le32 r.voltage [])

abbrev pub tail_of : Reading → List ℕ
tail_of r = le32 (pattern_of 32 r.current) (
    le16 (pattern_of 16 r.cell_temp) (
      le16 (pattern_of 16 r.bms_temp) (
        zeros 6 (
          le16 r.remaining (
            le16 r.nominal (
              zeros 10 (
                le32 r.prot
                  (zeros 8 (le16 r.state (le16 r.soc (zeros 4 (le32 r.cycles []))))))))))))

unfoldable pub packet_of : Reading → List ℕ
packet_of r = head_of r ++ (le_words r.cells ++ tail_of r)

pair_lem : (v : ℕ) → v % 2 ^ 8 + v / 2 ^ 8 * 2 ^ 8 ≡ v
pair_lem v = omega arith

quad_lem :
    (v : ℕ)
    → v % 2 ^ 8 + v / 2 ^ 8 % 2 ^ 8 * 2 ^ 8 + v / 2 ^ 16 % 2 ^ 8 * 2 ^ 16 + v / 2 ^ 24 * 2 ^ 24 ≡ v
quad_lem v = omega arith

module _ {F : Type 0} ⦃d : Double F⦄ where
  abbrev pub add_cell : ℕ → List F → List F
  add_cell raw rest = if raw == 0 then rest else (of_ℕ raw /F decimal 1000 0) ∷ rest

  -- The voltages of the cells that are there, in order.
  pub present : List ℕ → List F
  present [] = []
  present (v ∷ vs) = add_cell v (present vs)

  pub read_cells-from :
      (bytes front vs rest : List ℕ) (i : ℕ)
      → bytes ≡ front ++ (le_words vs ++ rest)
      → length front ≡ 16 + i * 2
      → read_cells bytes (length vs) i ≡ present vs
  unfolding read_cells present le_words
  read_cells-from bytes front [] rest i e k = refl
  read_cells-from bytes front (v ∷ vs) rest i e k =
      let added = v % 2 ^ 8 ∷ v / 2 ^ 8 ∷ [] in
      let low : get_or bytes (16 + i * 2) 0 ≡ v % 2 ^ 8 =
        let at : 16 + i * 2 ≡ length front + 0 = omega arith in
        rw (e, at) (get_or-length_append front _ 0 0) in
      let high : get_or bytes (16 + i * 2 + 1) 0 ≡ v / 2 ^ 8 =
        let at : 16 + i * 2 + 1 ≡ length front + 1 = omega arith in
        rw (e, at) (get_or-length_append front _ 1 0) in
      let here : u16le bytes (16 + i * 2) ≡ v = unfold u16le in omega (arith, low, high) in
      ap₂ add_cell here (
        read_cells-from bytes (front ++ added) vs rest (i + 1)
          (e ∙ sym (append_assoc front added (le_words vs ++ rest)))
          (omega (arith, length-append front added)))

module _ (r : Reading) (sixteen : length r.cells ≡ 16) where
  at_tail : (k : ℕ) → get_or (packet_of r) (48 + k) 0 ≡ get_or (tail_of r) k 0
  unfolding packet_of
  at_tail k =
      let front = head_of r ++ le_words r.cells in
      let at : 48 + k ≡ length front + k =
        omega (arith, length-append (head_of r) (le_words r.cells), length-le_words r.cells) in
      rw (at, ← append_assoc (head_of r) (le_words r.cells) (tail_of r))
        (get_or-length_append front (tail_of r) k 0)

  pub length-packet_of : length (packet_of r) ≡ 100
  unfolding packet_of
  length-packet_of = omega (
    arith,
    length-append (head_of r) (le_words r.cells ++ tail_of r),
    length-append (le_words r.cells) (tail_of r),
    length-le_words r.cells,
  )

  word_at : (k : ℕ) → u16le (packet_of r) (48 + k) ≡ u16le (tail_of r) k
  unfolding u16le
  word_at k = let e : 48 + k + 1 ≡ 48 + (k + 1) = omega arith in rw (e, at_tail k, at_tail (k + 1))

  long_at : (k : ℕ) → u32le (packet_of r) (48 + k) ≡ u32le (tail_of r) k
  unfolding u32le
  long_at k =
      let e1 : 48 + k + 1 ≡ 48 + (k + 1) = omega arith in
      let e2 : 48 + k + 2 ≡ 48 + (k + 2) = omega arith in
      let e3 : 48 + k + 3 ≡ 48 + (k + 3) = omega arith in
      rw (e1, e2, e3, at_tail k, at_tail (k + 1), at_tail (k + 2), at_tail (k + 3))

  pub at_voltage : u32le (packet_of r) 12 ≡ r.voltage
  unfolding u32le packet_of
  at_voltage = quad_lem r.voltage

  pub at_current : u32le (packet_of r) 48 ≡ pattern_of 32 r.current
  at_current = long_at 0 ∙ unfold u32le in quad_lem (pattern_of 32 r.current)

  pub at_cell_temp : u16le (packet_of r) 52 ≡ pattern_of 16 r.cell_temp
  at_cell_temp = word_at 4 ∙ unfold u16le in pair_lem (pattern_of 16 r.cell_temp)

  pub at_bms_temp : u16le (packet_of r) 54 ≡ pattern_of 16 r.bms_temp
  at_bms_temp = word_at 6 ∙ unfold u16le in pair_lem (pattern_of 16 r.bms_temp)

  pub at_remaining : u16le (packet_of r) 62 ≡ r.remaining
  at_remaining = word_at 14 ∙ unfold u16le in pair_lem r.remaining

  pub at_nominal : u16le (packet_of r) 64 ≡ r.nominal
  at_nominal = word_at 16 ∙ unfold u16le in pair_lem r.nominal

  pub at_prot : u32le (packet_of r) 76 ≡ r.prot
  at_prot = long_at 28 ∙ unfold u32le in quad_lem r.prot

  pub at_state : u16le (packet_of r) 88 ≡ r.state
  at_state = word_at 40 ∙ unfold u16le in pair_lem r.state

  pub at_soc : u16le (packet_of r) 90 ≡ r.soc
  at_soc = word_at 42 ∙ unfold u16le in pair_lem r.soc

  pub at_cycles : u32le (packet_of r) 96 ≡ r.cycles
  at_cycles = long_at 48 ∙ unfold u32le in quad_lem r.cycles
