-- ===== src/Runner/Steps/Supervise.antt =====
-- src/testing/runner.cpp and src/testing/telemetry.hpp: what a runner does while a test runs and when it
-- ends: on_telemetry_tick, stop_test and finish_test.
use limonitor.Common.{
  ℕ, suc, ◌-◌, Bool, true, false, not, ◌&&◌, ◌||◌, List, [], ◌∷◌, ◌++◌, Option, none, some, String,
  ltb, leb, if◌then◌else◌, length,
}
use limonitor.Common.Int.{pos, ◌-ℤ◌, ltb_ℤ, leb_ℤ}
use limonitor.Double.{Double, ◌+F◌, ◌-F◌, ◌*F◌, ◌/F◌, ◌<F◌, ◌>F◌, of_ℕ, decimal, neg}
use limonitor.Battery.{BatterySnapshot, PwrGateSnapshot}
use limonitor.Runner.Types.{TestType, TestTelemetrySample, make_telemetry_sample}
use limonitor.Runner.Steps.{
  Metadata, TestRunner, World, batch_size, capacity_report, duration, insert_capacity_test,
  insert_telemetry, is_capacity, is_zero, reason, start_test, telemetry_interval_sec,
  update_test_run, valid_only, write, zero_f,
}

module _ {F : Type 0} ⦃d : Double F⦄ where
  -- An empty batch is not written.
  unfoldable pub flush_rows : List (TestTelemetrySample F) → TestRunner F → TestRunner F
  flush_rows [] s = s
  flush_rows (x ∷ xs) s = record (write (insert_telemetry (x ∷ xs)) s) { telemetry_buffer = [] }

  unfoldable pub flush_telemetry : TestRunner F → TestRunner F
  flush_telemetry s = flush_rows s.telemetry_buffer s

  unfoldable pub soc_end_of : Option (BatterySnapshot F) → F
  soc_end_of none = zero_f
  soc_end_of (some bat) = bat.soc_pct

  -- The health in per cent, or -1 where the pack's rated energy is not known.
  unfoldable pub health_pct : Option (BatterySnapshot F) → F → F
  health_pct none measured = neg (decimal 1 0)
  health_pct (some bat) measured =
      let pack_v = if bat.total_voltage_v >F zero_f then bat.total_voltage_v else decimal 13 0 in
      let rated_wh = bat.nominal_ah *F pack_v in
      if bat.nominal_ah >F zero_f && rated_wh >F zero_f
      then decimal 100 0 *F (measured /F rated_wh)
      else neg (decimal 1 0)

  -- The block of `finish_test` for capacity tests, and the metadata that follow from it.
  unfoldable pub conclude : World F → Metadata F → TestRunner F → TestRunner F × Metadata F
  conclude w meta s =
      let bat = valid_only w.latest in
      let soc_end = soc_end_of bat in
      let soc_drop = s.soc_at_start -F soc_end in
      let measured = s.load_sum_wh /F (soc_drop /F decimal 100 0) in
      let health = health_pct bat measured in
      if is_capacity s.current_test_type && ltb 0 s.load_sample_count
      then if soc_drop >F decimal 1 0
        then (
          write
              (insert_capacity_test w.now measured s.soc_at_start soc_end s.load_sum_wh health
                s.current_test_id)
              s,
          capacity_report s.load_sum_wh s.soc_at_start soc_end measured health,
        )
        else (s, capacity_report s.load_sum_wh s.soc_at_start soc_end zero_f (neg (decimal 1 0)))
      else (s, meta)

  unfoldable pub finish_running : World F → String → Metadata F → TestRunner F → TestRunner F
  finish_running w result metadata s =
      let id_for_log = s.current_test_id in
      let halted : TestRunner F = record s { running = false; current_test_id = pos 0 } in
      let (concluded, meta) = conclude w metadata (flush_telemetry halted) in
      record (write (update_test_run id_for_log w.now (duration s.test_start_ts w.now) result meta)
        concluded) { stop_requested = false }

  unfoldable pub finish_test : World F → String → Metadata F → TestRunner F → TestRunner F
  finish_test w result metadata s = if s.running then finish_running w result metadata s else s

  unfoldable pub check_safety_limits : World F → BatterySnapshot F → TestRunner F → Bool
  check_safety_limits w bat s =
      bat.soc_pct <F s.limits.soc_floor_pct
      || bat.total_voltage_v <F s.limits.voltage_floor_v
      || ltb_ℤ (pos 0) s.limits.max_duration_sec
        && leb_ℤ s.limits.max_duration_sec (pos w.now -ℤ pos s.test_start_ts)
      || s.limits.abort_on_overtemp
        && (bat.protection.charge_overtemp || bat.protection.discharge_overtemp)

  unfoldable pub is_unsafe : World F → Option (BatterySnapshot F) → TestRunner F → Bool
  is_unsafe w none s = false
  is_unsafe w (some bat) s = check_safety_limits w bat s

  -- `now_ts`: the reading's own time where there is a valid one.
  unfoldable pub tick_time : World F → Option (BatterySnapshot F) → ℕ
  tick_time w none = w.now
  tick_time w (some bat) = bat.timestamp

  unfoldable pub note_live : Option (BatterySnapshot F) → F → TestRunner F → TestRunner F
  note_live none load_w s = s
  note_live (some bat) load_w s = record s {
    last_v = bat.total_voltage_v;
    last_a = bat.current_a;
    last_soc = bat.soc_pct;
    last_load = load_w;
    min_voltage_seen =
        if bat.total_voltage_v >F zero_f && bat.total_voltage_v <F s.min_voltage_seen
        then bat.total_voltage_v
        else s.min_voltage_seen;
  }

  unfoldable pub integrate : ℕ → Option (BatterySnapshot F) → TestRunner F → TestRunner F
  integrate now_ts none s = record s { last_tick_ts = now_ts }
  integrate now_ts (some bat) s =
      let pwr =
        if bat.power_w >F zero_f then bat.power_w else bat.total_voltage_v *F bat.current_a in
      let dt = if ltb 0 s.last_tick_ts then now_ts - s.last_tick_ts else 0 in
      if bat.current_a >F decimal 1 2 && (ltb 0 dt && ltb dt 30)
      then record s {
        last_tick_ts = now_ts;
        load_sum_wh = s.load_sum_wh +F pwr *F (of_ℕ dt /F decimal 3600 0);
        load_sample_count = suc s.load_sample_count;
      }
      else record s { last_tick_ts = now_ts }

  unfoldable pub push_sample : ℕ → TestTelemetrySample F → TestRunner F → TestRunner F
  push_sample now_ts sample s = record s {
    last_telemetry_ts = now_ts;
    telemetry_buffer = s.telemetry_buffer ++ (sample ∷ []);
  }

  unfoldable pub needs_flush : TestRunner F → Bool
  needs_flush s = leb batch_size (length s.telemetry_buffer)

  unfoldable pub capture : ℕ → TestTelemetrySample F → TestRunner F → TestRunner F
  capture now_ts sample s =
      let pushed = push_sample now_ts sample s in
      if leb telemetry_interval_sec (now_ts - s.last_telemetry_ts)
      then if needs_flush pushed then flush_telemetry pushed else pushed
      else s

-- The arguments of one `on_telemetry_tick`.
pub record Tick (F : Type 0) : Type 0 where
  pub bat : Option (BatterySnapshot F)
  pub chg : Option (PwrGateSnapshot F)
  pub load_w : F
  pub tx_active : Bool
  pub tx_power : F

module _ {F : Type 0} ⦃d : Double F⦄ where
  -- The body of a tick of a running test that nobody stopped.
  unfoldable pub supervise : World F → Tick F → TestRunner F → TestRunner F
  supervise w t s =
      let bat = valid_only t.bat in
      let now_ts = tick_time w bat in
      let live = note_live bat t.load_w s in
      if is_unsafe w bat live
      then finish_test w "aborted" (reason "safety_limits") live
      else if leb_ℤ live.limits.max_duration_sec (pos now_ts -ℤ pos live.test_start_ts)
      then finish_test w "aborted" (reason "max_duration") live
      else capture now_ts
          (make_telemetry_sample s.current_test_id t.bat t.chg t.load_w t.tx_active t.tx_power)
          (integrate now_ts bat live)

  unfoldable pub on_telemetry_tick : World F → Tick F → TestRunner F → TestRunner F
  on_telemetry_tick w t s =
      if not s.running || is_zero s.current_test_id
      then s
      else if s.stop_requested
      then finish_test w "aborted" (reason "user_stop") s
      else supervise w t s

  unfoldable pub stop_test : World F → TestRunner F → TestRunner F
  stop_test w s =
      if s.running
      then on_telemetry_tick w
          (record { bat = none; chg = none; load_w = zero_f; tx_active = false; tx_power = zero_f })
          (record s { stop_requested = true })
      else s

-- The calls on a runner, each with what it reads from outside.
pub data Action (F : Type 0) : Type 0 where
  start : TestType → Action F
  tick : Tick F → Action F
  stop : Action F

module _ {F : Type 0} ⦃d : Double F⦄ where
  unfoldable pub act : World F → Action F → TestRunner F → TestRunner F
  act w (start type) s = (start_test w type s).0
  act w (tick t) s = on_telemetry_tick w t s
  act w stop s = stop_test w s

  unfoldable pub run : List (World F × Action F) → TestRunner F → TestRunner F
  run [] s = s
  run ((w, a) ∷ rest) s = run rest (act w a s)
