-- ===== src/Store/Events/Bounds.antt =====
-- What every call leaves true of the event log.
use text.Mathlib.Text.{◌==◌ as str_eq}
use text.Mathlib.TextPositions.{eq_refl}
use limonitor.Common.{
  ℕ, suc, ◌+◌, ◌-◌, ◌≤◌, ◌<◌, ◌≡◌, refl, ap, sym, ◌∙◌, inl, inr, Bool, true, false, ◌||◌, List, [],
  ◌∷◌, ◌++◌, Option, String, arith, ltb, leb, last?, length, take, take-append-drop, append_assoc,
  append-nil, take-nil, trim, push_bounded, length-trim-le, length-append, last?-trim, Bool-cases,
  lt→ltb, leb→le, leb→gt, trim-eq-drop,
}
use limonitor.Double.{Double}
use limonitor.Battery.{BatterySnapshot, PwrGateSnapshot, SystemEvent}
use limonitor.Store.Events.{
  Log, Watch, Status, system_events_max, is_repeat, push_system_event, charging_events,
  solar_events, imbalance_events, temp_events, soc_events, process_system_events, load_events,
}

-- What each push keeps, the whole of `process_system_events` keeps.
module _ {ℓ} (P : Log → Type ℓ)
    (keep : (now : ℕ) (msg : String) (l : Log) → P l → P (push_system_event now msg l)) where
  charging_events-keeps :
      (now : ℕ) (charging : Bool) (stage : String) (w : Watch)
      → P w.log
      → P (charging_events now charging stage w).log
  unfolding charging_events
  charging_events-keeps now charging stage w h = grind (arith, keep)

  solar_events-keeps :
      (now : ℕ) (active : Bool) (w : Watch) → P w.log → P (solar_events now active w).log
  unfolding solar_events
  solar_events-keeps now active w h = grind (arith, keep)

  imbalance_events-keeps :
      (now : ℕ) (status : String) (w : Watch) → P w.log → P (imbalance_events now status w).log
  unfolding imbalance_events
  imbalance_events-keeps now status w h = grind (arith, keep)

  temp_events-keeps :
      (now : ℕ) (status : String) (w : Watch) → P w.log → P (temp_events now status w).log
  unfolding temp_events
  temp_events-keeps now status w h = grind (arith, keep)

  module _ {F : Type 0} ⦃d : Double F⦄ where
    soc_events-keeps : (now : ℕ) (soc : F) (w : Watch) → P w.log → P (soc_events now soc w).log
    unfolding soc_events
    soc_events-keeps now soc w h = grind (arith, keep)

    pub process-keeps :
        (now : ℕ) (snap : BatterySnapshot F) (pg : Option (PwrGateSnapshot F)) (an : Status)
        (w : Watch)
        → P w.log
        → P (process_system_events now snap pg an w).log
    unfolding process_system_events
    process-keeps now snap pg an w h = soc_events-keeps now snap.soc_pct _ (
        temp_events-keeps now an.temp_status _ (
          imbalance_events-keeps now an.cell_balance_status _
            (solar_events-keeps now _ _ (charging_events-keeps now _ an.charging_stage w h))))

push-IsBounded :
    (now : ℕ) (msg : String) (l : Log)
    → length l.system_events ≤ system_events_max
    → length (push_system_event now msg l).system_events ≤ system_events_max
unfolding push_system_event push_bounded
push-IsBounded now msg l h = ground (
  arith,
  length-trim-le system_events_max
      (l.system_events ++ (record { timestamp = now; message = msg } ∷ [])),
)

-- While history is loaded nothing is logged.
push-loading :
    (now : ℕ) (msg : String) (l : Log) → l.loading_history ≡ true → push_system_event now msg l ≡ l
unfolding push_system_event
push-loading now msg l h = rw h

-- The events in memory are the latest of those written to the database, in the same order.
abbrev pub IsPersisted : Log → Type 0
IsPersisted l =
    (l.has_db ≡ true) × ((older : List SystemEvent) × (l.db_log ≡ older ++ l.system_events))

persisted_push :
    (older events : List SystemEvent) (n : ℕ) (ev : SystemEvent)
    → (more : List SystemEvent) × ((older ++ events) ++ (ev ∷ [])
        ≡ more ++ push_bounded n events ev)
unfolding push_bounded
persisted_push older events n ev =
    let all = events ++ (ev ∷ []) in
    let k = length all - n in
    (
      older ++ take k all,
      append_assoc older events (ev ∷ [])
          ∙ ap (◌++◌ older)
              (sym (take-append-drop k all) ∙ ap (◌++◌ (take k all)) (sym (trim-eq-drop n all)))
          ∙ sym (append_assoc older (take k all) (trim n all)),
    )

push-IsPersisted :
    (now : ℕ) (msg : String) (l : Log) → IsPersisted l → IsPersisted (push_system_event now msg l)
unfolding push_system_event
push-IsPersisted now msg l (db, (older, e)) =
    let ev : SystemEvent = record { timestamp = now; message = msg } in
    let (more, grown) = persisted_push older l.system_events system_events_max ev in
    elim (Bool-cases (l.loading_history || str_eq msg "")) [
      | inl f ↦ rw f (db, (older, e))
      | inr f ↦ elim (Bool-cases (is_repeat (last? l.system_events) msg now)) [
        | inl g ↦ rw (f, g) (db, (older, e))
        | inr g ↦ rw (f, g, db) (refl, (more, ap (λ xs. xs ++ (ev ∷ [])) e ∙ grown))
      ]
    ]

module _ {F : Type 0} ⦃d : Double F⦄ (now : ℕ) (snap : BatterySnapshot F)
    (pg : Option (PwrGateSnapshot F)) (an : Status) (w : Watch) where
  -- One pass over a snapshot keeps at most 200 events in memory.
  pub process-IsBounded :
      length w.log.system_events ≤ system_events_max
      → length (process_system_events now snap pg an w).log.system_events ≤ system_events_max
  process-IsBounded h =
      process-keeps (λ l. length l.system_events ≤ system_events_max) push-IsBounded now snap pg an
        w h

  -- With a database, the events in memory stay the latest part of those written to it, in order: a
  -- pass writes every event that it logs, and drops only the oldest ones from memory.
  pub process-IsPersisted :
      IsPersisted w.log → IsPersisted (process_system_events now snap pg an w).log
  process-IsPersisted h = process-keeps IsPersisted push-IsPersisted now snap pg an w h

  -- While history is loaded a pass logs nothing.
  pub process-loading :
      w.log.loading_history ≡ true → (process_system_events now snap pg an w).log ≡ w.log
  process-loading h =
      process-keeps (λ l. l ≡ w.log)
        (λ t msg l e. ap (push_system_event t msg) e ∙ push-loading t msg w.log h) now snap pg an w
        refl

-- A message that was just logged is not logged again within an hour.
pub push_system_event-twice :
    (now later : ℕ) (msg : String) (l : Log)
    → is_repeat (last? l.system_events) msg now ≡ false
    → later < now + 3600
    → push_system_event later msg (push_system_event now msg l) ≡ push_system_event now msg l
unfolding push_system_event push_bounded is_repeat
push_system_event-twice now later msg l fresh soon =
    let ev : SystemEvent = record { timestamp = now; message = msg } in
    let kept = last?-trim system_events_max l.system_events ev (omega arith) in
    let close : ltb (later - now) 3600 ≡ true = lt→ltb _ _ (omega arith) in
    elim (Bool-cases (l.loading_history || str_eq msg "")) [
      | inl f ↦ rw (f, f)
      | inr f ↦ rw (f, fresh) (rw (f, kept) (rw (eq_refl msg, close)))
    ]

load_events-from :
    (es front : List SystemEvent)
    → length front < system_events_max
    → load_events es front ≡ front ++ take (system_events_max - length front) es
unfolding load_events
load_events-from [] front h = rw (take-nil, append-nil)
load_events-from (e ∷ es) front h =
    let more = front ++ (e ∷ []) in
    let grown = length-append front (e ∷ []) in
    elim (Bool-cases (leb system_events_max (length more))) [
      | inl f ↦
          let last_one : system_events_max - length front ≡ 1 =
            omega (arith, grown, leb→le _ _ f) in
          rw (f, last_one)
      | inr f ↦
          let still : system_events_max - length front ≡ suc (system_events_max - length more) =
            omega (arith, grown, leb→gt _ _ f) in
          rw (f, still)
            (load_events-from es more (leb→gt _ _ f)
              ∙ append_assoc front (e ∷ []) (take (system_events_max - length more) es))
    ]

-- At startup the first 200 events of the database are taken into memory, in order.
pub load_events-take : (es : List SystemEvent) → load_events es [] ≡ take system_events_max es
load_events-take es = load_events-from es [] (omega arith)
