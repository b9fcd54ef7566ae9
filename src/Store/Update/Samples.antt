-- ===== src/Store/Update/Samples.antt =====
-- A store that holds two readings of each kind, for examples.
use limonitor.Common.{false, Option, List, []}
use limonitor.Common.Int.{pos}
use limonitor.Double.{Fixed, fixed_double}
use limonitor.Store.Update.{DataStore}

abbrev pub empty_store : {E X O : Type 0} → E → Option X → List O → DataStore Fixed E X O
empty_store engine extensions observers = record {
  ring = [];
  pwrgate_ring = [];
  max_history = 2;
  tx = record {
    active = false;
    start_time = pos 0;
    peak_current = pos 0;
    peak_power = pos 0;
    events = [];
  };
  tx_threshold = pos 1_000_000;
  watch = record {
    prev_solar_active = false;
    prev_charging_stage = "";
    prev_charging = false;
    last_charging_event_time = 0;
    last_imbalance_event_time = 0;
    last_temp_event_time = 0;
    soc_90_reported = false;
    prev_cell_imbalance = false;
    prev_high_temp = false;
    log = record { system_events = []; loading_history = false; has_db = false; db_log = [] };
  };
  buffers = record {
    has_db = false;
    interval = pos 60;
    battery_buffer = [];
    charger_buffer = [];
    last_db_write = 0;
    db_battery = [];
    db_charger = [];
  };
  analytics = engine;
  extensions = extensions;
  observers = observers;
  last_bms_update = 0;
  last_charger_update = 0;
  last_self_monitor = 0;
}
