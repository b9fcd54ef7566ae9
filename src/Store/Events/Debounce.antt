-- ===== src/Store/Events/Debounce.antt =====
-- src/data_store.cpp: the charging events among the rows of system events, and their times.
pub mod Hysteresis
pub mod Passes
use text.Mathlib.Text.{◌==◌ as str_eq}
use limonitor.Common.{
  ℕ, ◌+◌, ◌-◌, ◌≤◌, ◌<◌, ◌≡◌, refl, sym, ap, ◌∙◌, ◌⊎◌, inl, inr, Bool, true, false, not, ◌&&◌, ◌||◌,
  List, [], ◌∷◌, ◌++◌, Option, String, arith, All, leb, last?, subst, if_true, if_false,
  if◌then◌else◌, Bool-cases,
}
use limonitor.Double.{Double, ◌<F◌, decimal, neg}
use limonitor.Battery.{BatterySnapshot, PwrGateSnapshot, SystemEvent}
use limonitor.Store.Events.{
  Log, Watch, Status, say, is_repeat, stage_message, push_system_event, charging_events,
  solar_events, imbalance_events, temp_events, soc_events, is_solar_active, process_system_events,
}

-- The message of another block of a pass than the one for charging.
abbrev pub is_other : String → Bool
is_other msg =
    str_eq msg "Solar input detected"
    || str_eq msg "Solar input lost"
    || str_eq msg "Cell imbalance detected"
    || str_eq msg "High temperature warning"
    || str_eq msg "Battery reached 90% charge"

-- When the charging events of a log were reported.
unfoldable pub charging_times : List SystemEvent → List ℕ
charging_times [] = []
charging_times (e ∷ es) =
    let rest = charging_times es in if is_other e.message then rest else e.timestamp ∷ rest

-- Times that are each 60 seconds or more after the one before, up to a last one.
abbrev pub AreApart : List ℕ → ℕ → Type 0
AreApart [] last = Unit
AreApart (t ∷ []) last = t ≤ last
AreApart (t ∷ u ∷ ts) last = (t + 60 ≤ u) × AreApart (u ∷ ts) last

AreApart-snoc :
    (ts : List ℕ) (last now : ℕ)
    → AreApart ts last
    → last + 60 ≤ now
    → AreApart (ts ++ (now ∷ [])) now
AreApart-snoc [] last now h due = omega arith
AreApart-snoc (t ∷ []) last now h due = (omega arith, omega arith)
AreApart-snoc (t ∷ u ∷ ts) last now (a, h) due = (a, AreApart-snoc (u ∷ ts) last now h due)

AreApart-later : (ts : List ℕ) (last now : ℕ) → AreApart ts last → last ≤ now → AreApart ts now
AreApart-later [] last now h l = tt
AreApart-later (t ∷ []) last now h l = omega arith
AreApart-later (t ∷ u ∷ ts) last now (a, h) l = (a, AreApart-later (u ∷ ts) last now h l)

-- The charging events in the database are apart, up to the time of the last one that is remembered.
abbrev pub IsDebounced : Watch → Type 0
IsDebounced w = AreApart (charging_times w.log.db_log) w.last_charging_event_time

abbrev grown : Bool → ℕ → List ℕ → List ℕ
grown other now ts = if other then ts else ts ++ (now ∷ [])

charging_times-snoc :
    (es : List SystemEvent) (e : SystemEvent)
    → charging_times (es ++ (e ∷ [])) ≡ grown (is_other e.message) e.timestamp (charging_times es)
unfolding charging_times
charging_times-snoc [] e = refl
charging_times-snoc (x ∷ xs) e =
    ap (λ rest. if is_other x.message then rest else x.timestamp ∷ rest) (charging_times-snoc xs e)
    ∙ swap (is_other x.message) (is_other e.message)
  where
    swap :
        (b c : Bool)
        → (if b
            then grown c e.timestamp (charging_times xs)
            else x.timestamp ∷ grown c e.timestamp (charging_times xs))
          ≡ grown c e.timestamp (if b then charging_times xs else x.timestamp ∷ charging_times xs)
    swap true c = refl
    swap false true = refl
    swap false false = refl

-- What a push does to the charging events in the database: nothing, or one more at the end.
push_cases :
    (now : ℕ) (msg : String) (l : Log)
    → let ts = charging_times (push_system_event now msg l).db_log in
      (ts ≡ charging_times l.db_log) ⊎ (ts ≡ grown (is_other msg) now (charging_times l.db_log))
unfolding push_system_event
push_cases now msg l =
    let ev : SystemEvent = record { timestamp = now; message = msg } in
    elim (Bool-cases (l.loading_history || str_eq msg "")) [
      | inl f ↦ inl (ap times (if_true _ _ f))
      | inr f ↦ elim (Bool-cases (is_repeat (last? l.system_events) msg now)) [
        | inl g ↦ inl (ap times (if_false _ _ f ∙ if_true _ _ g))
        | inr g ↦ elim (Bool-cases l.has_db) [
          | inl db ↦ inr (
              ap times (if_false _ _ f ∙ if_false _ _ g)
              ∙ ap charging_times (if_true _ _ db)
              ∙ charging_times-snoc l.db_log ev)
          | inr db ↦
              inl (ap times (if_false _ _ f ∙ if_false _ _ g) ∙ ap charging_times (if_false _ _ db))
        ]
      ]
    ]
  where
    times : Log → List ℕ
    times k = charging_times k.db_log

-- Another block's message is no charging event.
pub push-other :
    (now : ℕ) (msg : String) (l : Log)
    → is_other msg ≡ true
    → charging_times (push_system_event now msg l).db_log ≡ charging_times l.db_log
push-other now msg l o = elim (push_cases now msg l) [ inl e ↦ e | inr e ↦ e ∙ if_true _ _ o ]

push-due :
    (now last : ℕ) (msg : String) (l : Log)
    → AreApart (charging_times l.db_log) last
    → last + 60 ≤ now
    → AreApart (charging_times (push_system_event now msg l).db_log) now
push-due now last msg l h due =
    let ts = charging_times l.db_log in
    elim (push_cases now msg l) [
      | inl e ↦ subst (λ t. AreApart t now) (sym e) (AreApart-later ts last now h (omega arith))
      | inr e ↦ subst (λ t. AreApart t now) (sym e) (both (is_other msg))
    ]
  where
    both : (b : Bool) → AreApart (grown b now (charging_times l.db_log)) now
    both true = AreApart-later (charging_times l.db_log) last now h (omega arith)
    both false = AreApart-snoc (charging_times l.db_log) last now h due

-- A message, noted at a time when one is due.
pub noted-IsDebounced :
    (now : ℕ) (msg : String) (w : Watch)
    → IsDebounced w
    → leb 60 (now - w.last_charging_event_time) ≡ true
    → IsDebounced (record (say now msg w) { last_charging_event_time = now })
noted-IsDebounced now msg w h due =
    push-due now w.last_charging_event_time msg w.log h (ground (arith, due))
