-- ===== src/Store/Buffer.antt =====
-- src/data_store.cpp, `maybe_flush_db` and `flush_db`: rows are collected and written in batches.
-- `now` is the steady clock in whole seconds; the rows that the database was given stand in order in
-- `db_battery` and `db_charger`.
pub mod Order
use limonitor.Common.{
  ℕ, zero, suc, ◌+◌, ◌-◌, Bool, true, false, ◌||◌, List, [], ◌∷◌, ◌++◌, leb, if◌then◌else◌,
}
use limonitor.Common.Int.{ℤ, pos, leb_ℤ}
use limonitor.Battery.{BatterySnapshot, PwrGateSnapshot}

pub record Buffers (F : Type 0) : Type 0 where
  pub has_db : Bool
  pub interval : ℤ
  pub battery_buffer : List (BatterySnapshot F)
  pub charger_buffer : List (PwrGateSnapshot F)
  pub last_db_write : ℕ
  pub db_battery : List (BatterySnapshot F)
  pub db_charger : List (PwrGateSnapshot F)

module _ {F : Type 0} where
  -- The two batches are written and the buffers cleared. An empty batch writes no row.
  pub write_batches : ℕ → Buffers F → Buffers F
  write_batches now b = record b {
    db_battery = b.db_battery ++ b.battery_buffer;
    battery_buffer = [];
    db_charger = b.db_charger ++ b.charger_buffer;
    charger_buffer = [];
    last_db_write = now;
  }

  pub time_to_flush : ℕ → Buffers F → Bool
  time_to_flush now b = leb_ℤ b.interval (pos 0) || leb_ℤ b.interval (pos (now - b.last_db_write))

  pub maybe_flush_db : ℕ → Buffers F → Buffers F
  maybe_flush_db now b =
      if b.has_db then if time_to_flush now b then write_batches now b else b else b

  pub flush_db : ℕ → Buffers F → Buffers F
  flush_db now b = if b.has_db then write_batches now b else b

  -- `update` and `update_pwrgate` hand a row on unless history is being loaded.
  pub note_battery : ℕ → Bool → BatterySnapshot F → Buffers F → Buffers F
  note_battery now loading snap b =
      if b.has_db
      then if loading
        then b
        else maybe_flush_db now (record b { battery_buffer = b.battery_buffer ++ (snap ∷ []) })
      else b

  pub note_charger : ℕ → Bool → PwrGateSnapshot F → Buffers F → Buffers F
  note_charger now loading snap b =
      if b.has_db
      then if loading
        then b
        else maybe_flush_db now (record b { charger_buffer = b.charger_buffer ++ (snap ∷ []) })
      else b

-- One call that reaches the buffers, with the time it is made.
pub data Call (F : Type 0) : Type 0 where
  battery : BatterySnapshot F → Call F
  charger : PwrGateSnapshot F → Call F
  flush : Call F

module _ {F : Type 0} where
  pub call : ℕ → Call F → Buffers F → Buffers F
  call now (battery snap) b = note_battery now false snap b
  call now (charger snap) b = note_charger now false snap b
  call now flush b = flush_db now b

  pub run : List (ℕ × Call F) → Buffers F → Buffers F
  run [] b = b
  run ((now, c) ∷ cs) b = run cs (call now c b)
