-- ===== src/Store/Events.antt =====
-- src/data_store.cpp: `push_system_event` and `process_system_events`. One call reads the system clock
-- as `now`, in whole seconds; a time that lies ahead counts as no time passed. `db_log` holds what
-- `insert_system_event` was called with, in order.
pub mod Bounds
pub mod Debounce
use text.Mathlib.Text.{◌==◌ as str_eq}
use Prim.Native.String.{◌++◌ as str_append}
use limonitor.Common.{
  ℕ, ◌-◌, ◌<◌, Bool, true, false, not, ◌&&◌, ◌||◌, List, [], ◌∷◌, ◌++◌, Option, none, some, String,
  ltb, leb, if◌then◌else◌, last?, length, push_bounded,
}
use limonitor.Double.{Double, ◌<F◌, ◌>F◌, ◌≥F◌, decimal, neg}
use limonitor.Battery.{BatterySnapshot, PwrGateSnapshot, SystemEvent}

abbrev pub system_events_max : ℕ
system_events_max = 200

pub record Log : Type 0 where
  pub system_events : List SystemEvent
  pub loading_history : Bool
  pub has_db : Bool
  pub db_log : List SystemEvent

-- The last event has the same text and is less than an hour old.
unfoldable pub is_repeat : Option SystemEvent → String → ℕ → Bool
is_repeat none msg now = false
is_repeat (some last) msg now = str_eq last.message msg && ltb (now - last.timestamp) 3600

pub push_system_event : ℕ → String → Log → Log
push_system_event now msg l =
    if l.loading_history || str_eq msg ""
    then l
    else if is_repeat (last? l.system_events) msg now
    then l
    else let ev : SystemEvent = record { timestamp = now; message = msg } in
      record l {
        system_events = push_bounded system_events_max l.system_events ev;
        db_log = if l.has_db then l.db_log ++ (ev ∷ []) else l.db_log;
      }

-- `load_system_events_from_db`, on the events of the database.
pub load_events : List SystemEvent → List SystemEvent → List SystemEvent
load_events [] have = have
load_events (e ∷ es) have =
    let rest = load_events es (have ++ (e ∷ [])) in
    if leb system_events_max (length (have ++ (e ∷ []))) then have ++ (e ∷ []) else rest

-- The fields of an `AnalyticsSnapshot` that events are made of.
pub record Status : Type 0 where
  pub charging_stage : String
  pub cell_balance_status : String
  pub temp_status : String

-- The previous state for event detection.
pub record Watch : Type 0 where
  pub prev_solar_active : Bool
  pub prev_charging_stage : String
  pub prev_charging : Bool
  pub last_charging_event_time : ℕ
  pub last_imbalance_event_time : ℕ
  pub last_temp_event_time : ℕ
  pub soc_90_reported : Bool
  pub prev_cell_imbalance : Bool
  pub prev_high_temp : Bool
  pub log : Log

abbrev pub say : ℕ → String → Watch → Watch
say now msg w = record w { log = push_system_event now msg w.log }

pub stage_message : String → String
stage_message stage =
    if str_eq stage "Bulk" || str_eq stage "Float"
    then "Charging started"
    else if str_eq stage "Idle"
    then "Charging stopped"
    else str_append "Charger entered " stage

pub charging_events : ℕ → Bool → String → Watch → Watch
charging_events now charging stage w =
    let stage_changed =
      not (str_eq stage w.prev_charging_stage) && not (str_eq w.prev_charging_stage "") in
    let due = leb 60 (now - w.last_charging_event_time) in
    let noted = λ (msg : String). record (say now msg w) { last_charging_event_time = now } in
    let told : Watch =
      if stage_changed && due
      then noted (stage_message stage)
      else if not stage_changed && due
      then if charging && not w.prev_charging
        then noted "Charging started"
        else if not charging && w.prev_charging
        then noted "Charging stopped"
        else w
      else w in
    record told { prev_charging = charging; prev_charging_stage = stage }

pub solar_events : ℕ → Bool → Watch → Watch
solar_events now active w =
    let told : Watch =
      if active && not w.prev_solar_active
      then say now "Solar input detected" w
      else if not active && w.prev_solar_active
      then say now "Solar input lost" w
      else w in
    record told { prev_solar_active = active }

pub imbalance_events : ℕ → String → Watch → Watch
imbalance_events now status w =
    let imbalance = str_eq status "Imbalance" || str_eq status "Warning" in
    let due = not w.prev_cell_imbalance || leb 3600 (now - w.last_imbalance_event_time) in
    let told : Watch =
      if imbalance && due
      then record (say now "Cell imbalance detected" w) { last_imbalance_event_time = now }
      else w in
    record told { prev_cell_imbalance = imbalance }

pub temp_events : ℕ → String → Watch → Watch
temp_events now status w =
    let high = str_eq status "Warning" || str_eq status "Warm" in
    let due = not w.prev_high_temp || leb 3600 (now - w.last_temp_event_time) in
    let told : Watch =
      if high && due
      then record (say now "High temperature warning" w) { last_temp_event_time = now }
      else w in
    record told { prev_high_temp = high }

module _ {F : Type 0} ⦃d : Double F⦄ where
  pub soc_events : ℕ → F → Watch → Watch
  soc_events now soc w =
      if soc ≥F decimal 90 0 && not w.soc_90_reported
      then record (say now "Battery reached 90% charge" w) { soc_90_reported = true }
      else if soc <F decimal 85 0
      then record w { soc_90_reported = false }
      else w

  pub is_solar_active : Option (PwrGateSnapshot F) → Bool
  is_solar_active none = false
  is_solar_active (some pg) = pg.sol_v >F decimal 1 0

  pub process_system_events :
      ℕ → BatterySnapshot F → Option (PwrGateSnapshot F) → Status → Watch → Watch
  process_system_events now snap pg an w = soc_events now snap.soc_pct (
      temp_events now an.temp_status (
        imbalance_events now an.cell_balance_status (
          solar_events now (is_solar_active pg)
            (charging_events now (snap.current_a <F neg (decimal 1 1)) an.charging_stage w))))
