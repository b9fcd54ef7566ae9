-- ===== src/Store/Examples.antt =====
-- The theorems of the store's parts at concrete inputs, with readings in `Fixed`.
use limonitor.Common.{none, ℕ, ◌≡◌, refl, true, false, [], ◌∷◌, some, push_bounded, trim}
use limonitor.Common.Int.{pos}
use limonitor.Double.{Fixed, fixed_double}
use limonitor.Battery.Samples.{blank, idle_charger}
use limonitor.Store.Tx.{
  TxState, Sample, discharge, chg_discharge, is_above, effective_cur, effective_v, power, run,
}
use limonitor.Store.Tx.Burst.{peak_over, run-burst}
use limonitor.Store.Events.{Log, Status, Watch, process_system_events}
use limonitor.Store.Events.Bounds.{IsPersisted, process-IsPersisted, process-loading}
use limonitor.Store.Events.Debounce.{IsDebounced, charging_times}
use limonitor.Store.Events.Debounce.Passes.{pass_run, pass_run-IsDebounced}
use limonitor.Store.Buffer.{Buffers, battery, charger}
use limonitor.Store.Buffer.{run as run_calls}
use limonitor.Store.Buffer.Order.{battery_rows, charger_rows, batteries, chargers, run-rows}

abbrev reading : ℕ → ℕ → Sample Fixed
reading now amps = record {
  now = pos now;
  bat_cur = pos amps;
  bat_v = pos 13_000_000;
  chg_a = pos 0;
  chg_v = pos 13_000_000;
}

abbrev quiet_state : TxState Fixed
quiet_state = record {
  active = false;
  start_time = pos 0;
  peak_current = pos 0;
  peak_power = pos 0;
  events = [];
}

run-burst_example :
    (run
      (pos 2_000_000)
      (reading 10 5_000_000 ∷ reading 20 8_000_000 ∷ reading 30 6_000_000 ∷ reading 40 0 ∷ [])
      quiet_state).events
    ≡ record {
      start_time = pos 10;
      end_time = pos 40;
      duration = pos 30;
      peak_current = pos 8_000_000;
      peak_power = pos 104_000_000;
    }
      ∷ []
unfolding is_above discharge chg_discharge peak_over effective_cur effective_v power push_bounded
    trim
run-burst_example =
    (run-burst (pos 2_000_000) (reading 10 5_000_000)
      (reading 20 8_000_000 ∷ reading 30 6_000_000 ∷ []) (reading 40 0) quiet_state refl refl
      (refl, (refl, tt)) refl).1

abbrev empty_log : Log
empty_log = record { system_events = []; loading_history = false; has_db = true; db_log = [] }

abbrev watch : Watch
watch = record {
  prev_solar_active = false;
  prev_charging_stage = "Idle";
  prev_charging = false;
  last_charging_event_time = 0;
  last_imbalance_event_time = 0;
  last_temp_event_time = 0;
  soc_90_reported = false;
  prev_cell_imbalance = false;
  prev_high_temp = false;
  log = empty_log;
}

abbrev bulk : Status
bulk = record { charging_stage = "Bulk"; cell_balance_status = "Imbalance"; temp_status = "Normal" }

process-IsPersisted_example :
    IsPersisted (process_system_events 100 blank (some idle_charger) bulk watch).log
process-IsPersisted_example =
    process-IsPersisted 100 blank (some idle_charger) bulk watch (refl, ([], refl))

abbrev loading : Watch
loading = record watch { log = record empty_log { loading_history = true } }

process-loading_example :
    (process_system_events 100 blank (some idle_charger) bulk loading).log ≡ loading.log
process-loading_example = process-loading 100 blank (some idle_charger) bulk loading refl

pass_run-IsDebounced_example : IsDebounced (
    pass_run
      ((100, blank, some idle_charger, bulk)
        ∷ (130, blank, none, bulk)
        ∷ (170, blank, none, record bulk { charging_stage = "Idle" })
        ∷ [])
      watch)
unfolding charging_times
pass_run-IsDebounced_example =
    pass_run-IsDebounced
      ((100, blank, some idle_charger, bulk)
        ∷ (130, blank, none, bulk)
        ∷ (170, blank, none, record bulk { charging_stage = "Idle" })
        ∷ [])
      watch tt

abbrev buffers : Buffers Fixed
buffers = record {
  has_db = true;
  interval = pos 60;
  battery_buffer = [];
  charger_buffer = [];
  last_db_write = 0;
  db_battery = [];
  db_charger = [];
}

run-rows_example :
    let after =
      run_calls
        ((10, battery blank) ∷ (20, charger idle_charger) ∷ (90, battery blank) ∷ [])
        buffers in
    (battery_rows after ≡ blank ∷ blank ∷ []) × (charger_rows after ≡ idle_charger ∷ [])
unfolding batteries chargers
run-rows_example =
    run-rows ((10, battery blank) ∷ (20, charger idle_charger) ∷ (90, battery blank) ∷ []) buffers
      refl
