-- ===== src/AnalyticsEngine/Extended/Status/Debounce.antt =====
-- When the mode of the status switches.
use limonitor.Common.{ℕ, suc, ◌+◌, ◌≤◌, ◌<◌, ◌≡◌, ◌≢◌, refl, ◌∙◌, ◌⊎◌, List, [], ◌∷◌, arith, length}
use limonitor.AnalyticsEngine.{Mode}
use limonitor.AnalyticsEngine.Extended.Status.{follow_mode}

unfoldable pub mode_run : List ℕ → Mode → Mode
mode_run [] s = s
mode_run (p ∷ ps) s = mode_run ps (follow_mode p s)

-- A single reading of the mode that is shown starts the count again.
pub follow_mode-same :
    (s : Mode) → follow_mode s.system_mode s ≡ record s { system_mode_confirm = 0 }
unfolding follow_mode
follow_mode-same s = ground arith

-- The counter of a debounced mode is at most 3.
pub follow_mode-bounded :
    (p : ℕ) (s : Mode) → s.system_mode_confirm ≤ 3 → (follow_mode p s).system_mode_confirm ≤ 3
unfolding follow_mode
follow_mode-bounded p s h = ground arith

-- What a reading does, with the counter at most 3: the mode stays, or the reading is of another mode and
-- the counter was 3.
pub follow_mode_cases :
    (p : ℕ) (s : Mode)
    → ((follow_mode p s).system_mode ≡ s.system_mode)
      ⊎ (p ≢ s.system_mode) × (3 ≤ s.system_mode_confirm) × ((follow_mode p s).system_mode ≡ p)
unfolding follow_mode
follow_mode_cases p s = ground arith

-- With no reading counted yet, four readings in a row of other modes than the one that is shown switch to
-- the mode of the fourth, whatever the first three were; after the first three the mode is the old one.
pub mode_run-four :
    (a b c e : ℕ) (s : Mode)
    → s.system_mode_confirm ≡ 0
    → a ≢ s.system_mode
    → b ≢ s.system_mode
    → c ≢ s.system_mode
    → e ≢ s.system_mode
    → ((mode_run (a ∷ b ∷ c ∷ []) s).system_mode ≡ s.system_mode)
      × (mode_run (a ∷ b ∷ c ∷ e ∷ []) s ≡ record { system_mode = e; system_mode_confirm = 0 })
unfolding mode_run follow_mode
mode_run-four a b c e s z ha hb hc he = ground arith

steady_step :
    (p : ℕ) (s : Mode)
    → s.system_mode_confirm < 3
    → ((follow_mode p s).system_mode ≡ s.system_mode)
      × ((follow_mode p s).system_mode_confirm ≤ suc s.system_mode_confirm)
unfolding follow_mode
steady_step p s h = ground arith

-- Readings that are fewer than four, together with those counted before, never change the mode.
pub mode_run-steady :
    (ps : List ℕ) (s : Mode)
    → length ps + s.system_mode_confirm < 4
    → (mode_run ps s).system_mode ≡ s.system_mode
unfolding mode_run
mode_run-steady [] s l = refl
mode_run-steady (p ∷ ps) s l =
    let (same, grown) = steady_step p s (omega arith) in
    mode_run-steady ps (follow_mode p s) (omega (arith, grown)) ∙ same
