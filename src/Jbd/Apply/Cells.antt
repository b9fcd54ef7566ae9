-- ===== src/Jbd/Apply/Cells.antt =====
-- Cell voltages and temperatures: a list of 16-bit readings, written high byte first, is read back.
use limonitor.Common.{
  ℕ, ◌+◌, ◌*◌, ◌/◌, ◌%◌, ◌^◌, ◌≡◌, refl, ap₂, true, ◌∙◌, List, [], ◌∷◌, ◌++◌, map, arith, ltb,
  length, get_or, All, length-append, append_assoc, get_or-length_append, lt→ltb,
}
use limonitor.Double.{Double, IsOrdered, ◌-F◌, ◌*F◌, of_ℕ, decimal}
use limonitor.Battery.{BatterySnapshot}
use limonitor.Battery.Decode.{u16be, Extremes, no_cells}
use limonitor.Battery.Extremes.{IsWithin, extremes-IsWithin}
use limonitor.Jbd.Apply.{read_temperatures, read_cells, apply_cell_volts}

-- Big-endian bytes of a list of readings.
unfoldable pub words : List ℕ → List ℕ
words [] = []
words (v ∷ vs) = v / 2 ^ 8 ∷ v % 2 ^ 8 ∷ words vs

pub length-words : (vs : List ℕ) → length (words vs) ≡ 2 * length vs
unfolding words
length-words [] = refl
length-words (v ∷ vs) = omega (arith, length-words vs)

pub u16be-words :
    (front : List ℕ) (i v : ℕ) (rest : List ℕ)
    → i ≡ length front
    → u16be (front ++ (v / 2 ^ 8 ∷ v % 2 ^ 8 ∷ rest)) i ≡ v
unfolding u16be
u16be-words front i v rest e =
    let bytes = v / 2 ^ 8 ∷ v % 2 ^ 8 ∷ rest in
    let here : i ≡ length front + 0 = omega arith in
    let high : get_or (front ++ bytes) i 0 ≡ v / 2 ^ 8 =
      rw here (get_or-length_append front bytes 0 0) in
    let low : get_or (front ++ bytes) (i + 1) 0 ≡ v % 2 ^ 8 =
      rw e (get_or-length_append front bytes 1 0) in
    omega (arith, high, low)

u16be-head :
    (front : List ℕ) (i v : ℕ) (vs : List ℕ)
    → i ≡ length front
    → u16be (front ++ words (v ∷ vs)) i ≡ v
unfolding words
u16be-head front i v vs e = u16be-words front i v (words vs) e

two_more :
    (front : List ℕ) (v : ℕ) (vs : List ℕ)
    → front ++ words (v ∷ vs) ≡ (front ++ (v / 2 ^ 8 ∷ v % 2 ^ 8 ∷ [])) ++ words vs
unfolding words
two_more front v vs = rw append_assoc

module _ {F : Type 0} ⦃d : Double F⦄ where
  abbrev pub kelvin_tenths : ℕ → F
  kelvin_tenths raw = of_ℕ raw *F decimal 1 1 -F decimal 27315 2

  abbrev pub millivolts : ℕ → F
  millivolts raw = of_ℕ raw *F decimal 1 3

  read_temperatures-from :
      (bytes front vs : List ℕ) (i : ℕ)
      → bytes ≡ front ++ words vs
      → length front ≡ 23 + i * 2
      → read_temperatures bytes (length vs) i ≡ map kelvin_tenths vs
  unfolding read_temperatures
  read_temperatures-from bytes front [] i e k = refl
  read_temperatures-from bytes front (v ∷ vs) i e k =
      let added = v / 2 ^ 8 ∷ v % 2 ^ 8 ∷ [] in
      let inside : ltb (23 + i * 2 + 1) (length bytes) ≡ true =
        rw e (
          lt→ltb _ _
            (omega (arith, length-append front (words (v ∷ vs)), length-words (v ∷ vs)))) in
      let here : u16be bytes (23 + i * 2) ≡ v =
        rw e (u16be-head front (23 + i * 2) v vs (omega arith)) in
      let rest =
        read_temperatures-from bytes (front ++ added) vs (i + 1) (e ∙ two_more front v vs)
          (omega (arith, length-append front added)) in
      rw inside (ap₂ (λ x xs. kelvin_tenths x ∷ xs) here rest)

  pub read_temperatures-words :
      (front vs : List ℕ)
      → length front ≡ 23
      → read_temperatures (front ++ words vs) (length vs) 0 ≡ map kelvin_tenths vs
  read_temperatures-words front vs k = read_temperatures-from _ front vs 0 refl k

  read_cells-from :
      (bytes front vs : List ℕ) (i : ℕ)
      → bytes ≡ front ++ words vs
      → length front ≡ i * 2
      → read_cells bytes (length vs) i ≡ map millivolts vs
  unfolding read_cells
  read_cells-from bytes front [] i e k = refl
  read_cells-from bytes front (v ∷ vs) i e k =
      let added = v / 2 ^ 8 ∷ v % 2 ^ 8 ∷ [] in
      let here : u16be bytes (i * 2) ≡ v = rw e (u16be-head front (i * 2) v vs (omega arith)) in
      let rest =
        read_cells-from bytes (front ++ added) vs (i + 1) (e ∙ two_more front v vs)
          (omega (arith, length-append front added)) in
      ap₂ (λ x xs. millivolts x ∷ xs) here rest

  -- A cell-voltage payload is read back cell by cell, in millivolts, and the reported minimum and
  -- maximum bound every cell where the order of numbers is irreflexive and transitive.
  pub apply_cell_volts-words :
      IsOrdered F
      → (vs : List ℕ) (snap : BatterySnapshot F)
      → let after = apply_cell_volts (words vs) snap in
        let m : Extremes F = record { least = after.cell_min_v; greatest = after.cell_max_v } in
        (after.cell_voltages_v ≡ map millivolts vs)
        × All (λ v. IsWithin m v) after.cell_voltages_v
        × (after.cell_delta_v ≡ after.cell_max_v -F after.cell_min_v)
  unfolding apply_cell_volts
  apply_cell_volts-words laws vs snap =
      let half : length (words vs) / 2 ≡ length vs = omega (arith, length-words vs) in
      (
        rw half (read_cells-from (words vs) [] vs 0 refl refl),
        extremes-IsWithin laws no_cells (read_cells (words vs) (length (words vs) / 2) 0),
        refl,
      )
