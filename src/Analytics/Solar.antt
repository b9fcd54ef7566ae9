-- ===== src/Analytics/Solar.antt =====
-- src/analytics/solar_simulation.cpp: what the panels are expected to give, and where that takes the
-- charge. `month` is `tm_mon + 1` of the local time at which `compute` runs.
use limonitor.Common.{
  ℕ, ◌-◌, Bool, not, ◌&&◌, ◌||◌, List, [], ◌∷◌, leb, String, get_or, if◌then◌else◌,
}
use limonitor.Double.{Double, ◌-F◌, ◌*F◌, ◌/F◌, ◌>F◌, ◌≤F◌, ◌≥F◌, decimal, fmin}

pub record SolarSimConfig (F : Type 0) : Type 0 where
  pub enabled : Bool
  pub panel_watts : F
  pub system_efficiency : F
  pub zip_code : List ℕ

pub record SolarSimResult (F : Type 0) : Type 0 where
  pub panel_watts : F
  pub expected_today_wh : F
  pub battery_projection : String
  pub cloud_adjusted_wh : F

-- The battery that a projection is made for, with the values that stand in for missing ones.
pub record Pack (F : Type 0) : Type 0 where
  pub max_a : F
  pub v : F
  pub cap_ah : F

-- The state of a simulator is its configuration.
unfoldable pub set_config : {F : Type 0} → SolarSimConfig F → SolarSimConfig F → SolarSimConfig F
set_config cfg old = cfg

module _ {F : Type 0} ⦃d : Double F⦄ where
  -- Months count from 1.
  unfoldable pub peak_sun_hours : ℕ → F
  peak_sun_hours month =
      let psh =
        decimal 45 1
        ∷ decimal 50 1
        ∷ decimal 58 1
        ∷ decimal 62 1
        ∷ decimal 65 1
        ∷ decimal 70 1
        ∷ decimal 68 1
        ∷ decimal 65 1
        ∷ decimal 60 1
        ∷ decimal 52 1
        ∷ decimal 45 1
        ∷ decimal 42 1
        ∷ [] in
      if leb 1 month && leb month 12 then get_or psh (month - 1) (decimal 55 1) else decimal 55 1

  unfoldable pub pack_of : F → F → F → Pack F
  pack_of max_charge_a battery_voltage nominal_ah = record {
    max_a = if max_charge_a >F decimal 0 0 then max_charge_a else decimal 10 0;
    v = if battery_voltage >F decimal 1 0 then battery_voltage else decimal 512 1;
    cap_ah = if nominal_ah >F decimal 0 0 then nominal_ah else decimal 100 0;
  }

  unfoldable pub max_charge_w : Pack F → F
  max_charge_w p = p.max_a *F p.v

  unfoldable pub energy_to_full_wh : F → Pack F → F
  energy_to_full_wh soc p = (decimal 100 0 -F soc) /F decimal 100 0 *F p.cap_ah *F p.v

  -- The name of the charge that an energy reaches.
  unfoldable pub projection : F → F → F → String
  projection effective_wh to_full soc =
      if effective_wh ≥F to_full && soc >F decimal 20 0
      then "100%"
      else if effective_wh ≥F to_full *F decimal 8 1
      then "90–100%"
      else if effective_wh ≥F to_full *F decimal 5 1 || effective_wh >F decimal 1000 0
      then "70–90%"
      else if effective_wh >F decimal 500 0
      then "50–70%"
      else "<50%"

  unfoldable pub expected_wh : SolarSimConfig F → ℕ → F → F
  expected_wh cfg month cloud =
      let wh = cfg.panel_watts *F peak_sun_hours month *F cfg.system_efficiency in
      if cloud ≥F decimal 0 0 && cloud ≤F decimal 1 0 then wh *F (decimal 1 0 -F cloud) else wh

  unfoldable pub effective_of : F → F → Pack F → F
  effective_of wh psh p = fmin wh (max_charge_w p *F psh)

  unfoldable pub compute : SolarSimConfig F → ℕ → F → F → F → F → F → SolarSimResult F
  compute cfg month soc cloud max_charge_a battery_voltage nominal_ah =
      let p = pack_of max_charge_a battery_voltage nominal_ah in
      let wh = expected_wh cfg month cloud in
      if not cfg.enabled
      then record {
        panel_watts = cfg.panel_watts;
        expected_today_wh = decimal 0 0;
        battery_projection = "—";
        cloud_adjusted_wh = decimal 0 0;
      }
      else record {
        panel_watts = cfg.panel_watts;
        expected_today_wh = wh;
        battery_projection =
            projection (effective_of wh (peak_sun_hours month) p) (energy_to_full_wh soc p) soc;
        cloud_adjusted_wh = wh;
      }
