-- ===== src/AnalyticsEngine/Extended/Runtimes.antt =====
-- src/analytics.cpp: the load that compute_extended_analytics goes by, and the runtimes it gives.
pub mod Cap
use limonitor.Common.{
  ℕ, ◌-◌, ◌+◌, Bool, true, false, ◌&&◌, ◌≤◌, List, foldl, length, ltb, leb, get_or, if◌then◌else◌,
}
use limonitor.Common.Int.{ℤ, pos, ◌+ℤ◌, ◌-ℤ◌, ltb_ℤ}
use limonitor.Double.{Double, ◌+F◌, ◌-F◌, ◌*F◌, ◌/F◌, ◌<F◌, ◌>F◌, ◌≥F◌, decimal, fmin}
use limonitor.Battery.{BatterySnapshot}
use limonitor.AnalyticsEngine.{Day, Loads, Runtime, Host}
use limonitor.AnalyticsEngine.Extended.{pack_voltage}

abbrev max_ℤ : ℤ → ℤ → ℤ
max_ℤ a b = if ltb_ℤ a b then b else a

-- The hours from the first archived hour to the last one.
unfoldable pub hour_span : List ℤ → ℤ
hour_span hours =
    let n = length hours in
    if ltb 1 n
    then max_ℤ (pos 1) (get_or hours (n - 1) (pos 0) -ℤ get_or hours 0 (pos 0) +ℤ pos 1)
    else pos n

module _ {F : Type 0} ⦃d : Double F⦄ where
  -- The average over the archived hours, of which there have to be six.
  unfoldable pub archived_load : Day F → F
  archived_load s =
      if leb 6 (length s.discharge_wh_per_hour)
      then foldl ◌+F◌ (decimal 0 0) s.discharge_wh_per_hour
        /F d.of_ℤ (hour_span s.discharge_hour_ts)
      else decimal 0 0

  -- The load of the last hour where the archive gives none.
  unfoldable pub load_of : Day F → Loads F → F
  load_of day loads =
      let archived = archived_load day in
      if archived <F decimal 1 2 && leb 36 loads.load.count && loads.avg_load_watts ≥F decimal 1 2
      then loads.avg_load_watts
      else archived

module _ {F : Type 0} ⦃d : Double F⦄ ⦃host : Host F⦄ where
  -- The energy of a full pack, at 3.2 V for each of the cells that the voltage suggests.
  unfoldable pub total_energy : BatterySnapshot F → F
  total_energy bat =
      let cells = max_ℤ (pos 1) (host.to_int (pack_voltage bat /F decimal 33 1)) in
      bat.nominal_ah *F (d.of_ℤ cells *F decimal 32 1)

  unfoldable pub usable_energy : BatterySnapshot F → F → F
  usable_energy bat pct = total_energy bat *F (pct -F decimal 10 0) /F decimal 100 0

  abbrev pub max_runtime_h : F
  max_runtime_h = decimal 1000 0

  unfoldable pub estimate_runtime : BatterySnapshot F → Day F → Loads F → Runtime F → Runtime F
  estimate_runtime bat day loads s =
      let load_w = load_of day loads in
      let usable_now = usable_energy bat bat.soc_pct in
      let rf = usable_energy bat (decimal 100 0) /F load_w in
      let rn = usable_now /F load_w in
      let unknown : Runtime F = record s {
        from_full_h = decimal 0 0;
        from_current_h = decimal 0 0;
        from_charger = false;
        avg_discharge_24h_w = load_w;
      } in
      if load_w ≥F decimal 12 1 && bat.nominal_ah >F decimal 1 0 && usable_now >F decimal 0 0
      then record unknown {
        full_exceeds_cap = rf >F max_runtime_h;
        current_exceeds_cap = rn >F max_runtime_h;
        from_full_h = fmin rf max_runtime_h;
        from_current_h = fmin rn max_runtime_h;
      }
      else unknown
