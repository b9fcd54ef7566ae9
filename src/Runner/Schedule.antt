-- ===== src/Runner/Schedule.antt =====
-- src/testing/runner.cpp, `check_scheduled_tests` and `compute_next_run`. `localtime_r` and `mktime` of
-- the C library stand in a `Calendar`; `mktime` gives the normalised broken-down time too. The calls that
-- change a schedule are kept in order as values of `Change`, with the reason of a skip as a value.
pub mod Starts
use text.Mathlib.Text.{◌==◌ as str_eq}
use limonitor.Common.{
  ℕ, ◌+◌, ◌-◌, ◌%◌, Bool, true, false, not, ◌&&◌, ◌||◌, ◌==◌, List, [], ◌∷◌, ◌++◌, Option, none,
  some, String, ltb, leb, if◌then◌else◌,
}
use limonitor.Common.Int.{ℤ, pos, negsuc, ◌+ℤ◌, ◌-ℤ◌, ltb_ℤ, leb_ℤ}
use limonitor.Double.{Double, ◌+F◌, ◌<F◌, decimal}
use limonitor.Battery.{BatterySnapshot}
use limonitor.Runner.Types.{SafetyLimits, parse_test_type}
use limonitor.Runner.Steps.{World, TestRunner, start_test, valid_only}

-- The fields of a `struct tm` that the code uses.
pub record Tm : Type 0 where
  pub tm_sec : ℤ
  pub tm_min : ℤ
  pub tm_hour : ℤ
  pub tm_mday : ℤ
  pub tm_mon : ℤ
  pub tm_year : ℤ
  pub tm_wday : ℕ

pub record Calendar : Type 0 where
  pub local_time : ℤ → Tm
  pub mk_time : Tm → ℤ × Tm

pub record TestScheduleRow : Type 0 where
  pub id : ℤ
  pub test_type : String
  pub frequency : String
  pub run_hour : ℤ
  pub run_minute : ℤ
  pub day_of_month : ℤ
  pub next_run_ts : ℤ
  pub enabled : Bool

pub data SkipReason (F : Type 0) : Type 0 where
  soc_too_low : F → SkipReason F
  voltage_too_low : F → SkipReason F
  maintenance_mode_active : SkipReason F
  start_test_failed : SkipReason F

pub data Change (F : Type 0) : Type 0 where
  skip : ℤ → ℤ → SkipReason F → Change F
  next_run : ℤ → ℤ → Change F

abbrev between : ℤ → ℕ → ℕ → Bool
between x low high = leb_ℤ (pos low) x && leb_ℤ x (pos high)

-- A value of 0 to 6, as a number.
abbrev weekday : ℤ → ℕ
weekday (pos n) = if leb n 6 then n else 0
weekday (negsuc n) = 0

pub next_daily : Calendar → ℤ → Tm → ℤ
next_daily cal now t =
    let cand = (cal.mk_time t).0 in if leb_ℤ cand now then cand +ℤ pos 86400 else cand

pub next_weekly : Calendar → ℤ → Tm → ℤ
next_weekly cal day t =
    let delta = (weekday day + 7 - t.tm_wday) % 7 in
    let ahead = if delta == 0 then 7 else delta in
    (cal.mk_time (record t { tm_mday = t.tm_mday +ℤ pos ahead })).0

pub next_monthly : Calendar → ℤ → ℤ → Tm → ℤ
next_monthly cal now day t =
    let made = cal.mk_time (record t { tm_mday = if between day 1 28 then day else pos 1 }) in
    let month_on : Tm = record (made.1) { tm_mon = made.1.tm_mon +ℤ pos 1 } in
    if leb_ℤ made.0 now then (cal.mk_time month_on).0 else made.0

pub compute_next_run : Calendar → ℤ → String → ℤ → ℤ → ℤ → ℤ
compute_next_run cal now freq hour min day =
    let t : Tm = record (cal.local_time now) { tm_sec = pos 0; tm_min = min; tm_hour = hour } in
    if str_eq freq "daily"
    then next_daily cal now t
    else if str_eq freq "weekly"
    then next_weekly cal day t
    else if str_eq freq "monthly"
    then next_monthly cal now day t
    else now +ℤ pos 86400

abbrev pub next_of : Calendar → ℤ → TestScheduleRow → ℤ
next_of cal now s = compute_next_run cal now s.frequency s.run_hour s.run_minute s.day_of_month

pub is_due : ℤ → TestScheduleRow → Bool
is_due now s = s.enabled && not (ltb_ℤ now s.next_run_ts)

module _ {F : Type 0} ⦃d : Double F⦄ where
  pub skip_reason : SafetyLimits F → BatterySnapshot F → Bool → Option (SkipReason F)
  skip_reason lim bat maintenance =
      if bat.soc_pct <F lim.soc_floor_pct +F decimal 5 0
      then some (soc_too_low bat.soc_pct)
      else if bat.total_voltage_v <F lim.voltage_floor_v +F decimal 5 1
      then some (voltage_too_low bat.total_voltage_v)
      else if maintenance
      then some maintenance_mode_active
      else none

  -- The end of one pass: a skip, or a start that was `tried`. `passed` and `failed` are what the rest of
  -- the loop gives where the schedule was passed over, and where the start failed.
  pub decide :
      ℤ
      → ℤ
      → Change F
      → Option (SkipReason F)
      → TestRunner F × ℤ
      → TestRunner F × List (Change F)
      → TestRunner F × List (Change F)
      → TestRunner F × List (Change F)
  decide now id next (some why) tried passed failed = (passed.0, skip id now why ∷ next ∷ passed.1)
  decide now id next none tried passed failed =
      if ltb_ℤ (pos 0) tried.1
      then (tried.0, next ∷ [])
      else (failed.0, skip id now start_test_failed ∷ next ∷ failed.1)

  -- The loop over the schedules. `at` is what a start for a schedule reads from outside.
  pub check_rows :
      Calendar
      → ℤ
      → BatterySnapshot F
      → (TestScheduleRow → World F)
      → List TestScheduleRow
      → TestRunner F
      → TestRunner F × List (Change F)
  check_rows cal now bat at [] r = (r, [])
  check_rows cal now bat at (s ∷ rows) r =
      let next = next_run s.id (next_of cal now s) in
      let (tried, id) = start_test (at s) (parse_test_type (some s.test_type)) r in
      let passed = check_rows cal now bat at rows r in
      let failed = check_rows cal now bat at rows tried in
      if not (is_due now s)
      then passed
      else decide now s.id next (skip_reason r.limits bat (at s).maintenance_mode) (tried, id)
          passed failed

  pub check_with :
      Calendar
      → ℤ
      → Option (BatterySnapshot F)
      → (TestScheduleRow → World F)
      → List TestScheduleRow
      → TestRunner F
      → TestRunner F × List (Change F)
  check_with cal now none at rows r = (r, [])
  check_with cal now (some bat) at rows r = check_rows cal now bat at rows r

  pub check_scheduled_tests :
      Calendar
      → ℤ
      → World F
      → (TestScheduleRow → World F)
      → List TestScheduleRow
      → TestRunner F
      → TestRunner F × List (Change F)
  check_scheduled_tests cal now w at rows r =
      if not r.has_db || (not w.is_open || r.running)
      then (r, [])
      else check_with cal now (valid_only w.latest) at rows r
