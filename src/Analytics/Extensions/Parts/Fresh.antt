-- ===== src/Analytics/Extensions/Parts/Fresh.antt =====
-- What the extensions come to from their constructor on.
use limonitor.Common.{ℕ, refl, Bool, List, [], ◌∷◌, arith}
use limonitor.Double.{Double}
use limonitor.Analytics.Extensions.{Extensions}
use limonitor.Analytics.Extensions.Rows.{
  IsThrottled, resistance_times, efficiency_times, update-IsThrottled,
}
use limonitor.Analytics.Extensions.Keeps.{IsSound, update-IsSound}
use limonitor.Analytics.Extensions.Parts.{
  Config, Analytics, Call, configure, tell, ask_week, ask_tomorrow, forget, set_config,
  new_analytics, update_with, act, run,
}
use limonitor.Weather.{Service}

module _ {F : Type 0} ⦃d : Double F⦄ where
  abbrev pub IsKept : Extensions F → Type 0
  IsKept s = IsSound s × IsThrottled s

  new_analytics-IsKept :
      (cfg : Config F) (has_db : Bool) (tick : ℕ) (json_3h json_daily : List ℕ)
      → IsKept (new_analytics cfg has_db tick json_3h json_daily).extensions
  unfolding new_analytics resistance_times efficiency_times
  new_analytics-IsKept cfg has_db tick json_3h json_daily = (
    record {
      anomaly = (omega arith, refl, omega arith, refl, omega arith);
      resistance = (omega arith, refl, omega arith, tt);
      history = omega arith;
    },
    record { resistance = refl; efficiency = refl },
  )

  configured :
      (cfg : Config F) (p : Analytics F)
      → IsKept p.extensions
      → IsKept (set_config cfg p).extensions
  unfolding set_config
  configured cfg p (sound, spaced) = (
    record { anomaly = sound.anomaly; resistance = sound.resistance; history = sound.history },
    record { resistance = spaced.resistance; efficiency = spaced.efficiency },
  )

  act-IsKept :
      (service : Service F) (c : Call F) (p : Analytics F)
      → IsKept p.extensions
      → IsKept (act service c p).extensions
  unfolding act update_with
  act-IsKept service (configure cfg) p k = configured cfg p k
  act-IsKept service (tell i) p (sound, spaced) = (
    update-IsSound _ _ _ _ _ _ _ _ p.extensions sound,
    update-IsThrottled _ _ _ _ _ _ _ _ p.extensions spaced,
  )
  act-IsKept service (ask_week tick fresh fresh_daily plan) p k = k
  act-IsKept service (ask_tomorrow tick now fresh plan) p k = k
  act-IsKept service forget p k = k

  run-IsKept :
      (service : Service F) (cs : List (Call F)) (p : Analytics F)
      → IsKept p.extensions
      → IsKept (run service cs p).extensions
  unfolding run
  run-IsKept service [] p k = k
  run-IsKept service (c ∷ cs) p k =
      run-IsKept service cs (act service c p) (act-IsKept service c p k)

  -- From the constructor on, whatever updates, new configurations and requests for forecasts come: the
  -- detector's windows and the estimator's samples are within their bounds, at most 72 charge currents are
  -- remembered, and the rows written for the resistance and for the charger's efficiency are each more than
  -- an hour after the one before, the first more than an hour after time 0.
  pub run-new_analytics-IsKept :
      (service : Service F) (cfg : Config F) (has_db : Bool) (tick : ℕ)
      (json_3h json_daily : List ℕ) (cs : List (Call F))
      → IsKept (run service cs (new_analytics cfg has_db tick json_3h json_daily)).extensions
  run-new_analytics-IsKept service cfg has_db tick json_3h json_daily cs =
      run-IsKept service cs _ (new_analytics-IsKept cfg has_db tick json_3h json_daily)
