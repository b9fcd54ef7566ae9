-- ===== src/Store/Events/Debounce/Hysteresis.antt =====
-- src/data_store.cpp, `process_system_events`: runs of readings as the blocks for the charge and for the
-- cell balance see them.
use text.Mathlib.Text.{◌==◌ as str_eq}
use limonitor.Common.{
  ℕ, ◌+◌, ◌<◌, ◌≡◌, refl, ap, ◌∙◌, true, false, ◌||◌, List, [], ◌∷◌, String, arith, All,
}
use limonitor.Double.{Double, ◌<F◌, decimal}
use limonitor.Store.Events.{Watch, imbalance_events, soc_events}

module _ {F : Type 0} ⦃d : Double F⦄ where
  -- A run of battery readings, as the last block of a pass sees them.
  pub soc_run : List (ℕ × F) → Watch → Watch
  soc_run [] w = w
  soc_run ((now, soc) ∷ rest) w = soc_run rest (soc_events now soc w)

  -- Once a charge of 90 % was reported, nothing is reported again while no reading is below 85 %.
  pub soc_run-hysteresis :
      (readings : List (ℕ × F)) (w : Watch)
      → w.soc_90_reported ≡ true
      → All (λ r. (r.1 <F decimal 85 0) ≡ false) readings
      → soc_run readings w ≡ w
  unfolding soc_run
  soc_run-hysteresis [] w h all = refl
  soc_run-hysteresis ((now, soc) ∷ rest) w h (high, all) =
      let same : soc_events now soc w ≡ w = unfold soc_events in ground arith in
      ap (soc_run rest) same ∙ soc_run-hysteresis rest w h all

-- Cell-balance states, as one block of a pass sees them.
pub imbalance_run : List (ℕ × String) → Watch → Watch
imbalance_run [] w = w
imbalance_run ((now, status) ∷ rest) w = imbalance_run rest (imbalance_events now status w)

-- While an imbalance that was reported persists, nothing is reported for an hour.
pub imbalance_run-quiet :
    (readings : List (ℕ × String)) (w : Watch)
    → w.prev_cell_imbalance ≡ true
    → All
        (λ r.
          (str_eq r.1 "Imbalance" || str_eq r.1 "Warning" ≡ true)
          × (r.0 < w.last_imbalance_event_time + 3600))
        readings
    → imbalance_run readings w ≡ w
unfolding imbalance_run
imbalance_run-quiet [] w h all = refl
imbalance_run-quiet ((now, status) ∷ rest) w h ((bad, soon), all) =
    let same : imbalance_events now status w ≡ w = unfold imbalance_events in ground arith in
    ap (imbalance_run rest) same ∙ imbalance_run-quiet rest w h all
