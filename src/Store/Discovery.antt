-- ===== src/Store/Discovery.antt =====
-- src/data_store.cpp, `upsert_discovered`, `clear_discovered`: the Bluetooth devices found by a scan
-- (src/ble_types.hpp). `now` is the steady clock in whole seconds, which never runs backwards.
use text.Mathlib.Text.{◌==◌ as str_eq}
use text.Mathlib.TextEquality.{eq_iff}
use limonitor.Common.{
  ℕ, ◌+◌, ◌-◌, ◌≤◌, ◌<◌, ◌≡◌, refl, sym, ap, subst, ◌∙◌, ◌⊎◌, inl, inr, Bool, true, false, List, [],
  ◌∷◌, ◌++◌, String, arith, leb, if◌then◌else◌, if_true, if_false, Bool-cases, map,
}
use limonitor.Common.Int.{ℤ}

pub record DiscoveredDevice : Type 0 where
  pub id : String
  pub name : String
  pub rssi : ℤ
  pub has_target_service : Bool
  pub last_seen : ℕ

abbrev pub discovery_update_interval_s : ℕ
discovery_update_interval_s = 7

-- The loop over the known devices; what follows it adds a new one.
pub upsert_discovered : ℕ → DiscoveredDevice → List DiscoveredDevice → List DiscoveredDevice
upsert_discovered now dev [] = record dev { last_seen = now } ∷ []
upsert_discovered now dev (d ∷ ds) =
    let rest = upsert_discovered now dev ds in
    if str_eq d.id dev.id
    then if leb discovery_update_interval_s (now - d.last_seen)
      then record dev { last_seen = now } ∷ ds
      else d ∷ ds
    else d ∷ rest

abbrev pub clear_discovered : List DiscoveredDevice → List DiscoveredDevice
clear_discovered ds = []

abbrev pub ids : List DiscoveredDevice → List String
ids ds = map (λ d. d.id) ds

unfoldable pub contains : String → List String → Bool
contains i [] = false
contains i (j ∷ js) = if str_eq j i then true else contains i js

-- The ids are all different.
abbrev pub AreDistinct : List String → Type 0
AreDistinct [] = Unit
AreDistinct (i ∷ is) = (contains i is ≡ false) × AreDistinct is

updated-ids :
    (now : ℕ) (dev d : DiscoveredDevice) (ds : List DiscoveredDevice)
    → d.id ≡ dev.id
    → ids (
        if leb discovery_update_interval_s (now - d.last_seen)
        then record dev { last_seen = now } ∷ ds
        else d ∷ ds)
      ≡ ids (d ∷ ds)
updated-ids now dev d ds e = ground (arith, e)

-- A scan result either belongs to a known device, and the list keeps its ids in their order, or it is
-- appended as a new device with the time of the scan.
pub upsert_discovered-ids :
    (now : ℕ) (dev : DiscoveredDevice) (ds : List DiscoveredDevice)
    → (contains dev.id (ids ds) ≡ true) × (ids (upsert_discovered now dev ds) ≡ ids ds)
      ⊎ (contains dev.id (ids ds) ≡ false)
        × (upsert_discovered now dev ds ≡ ds ++ (record dev { last_seen = now } ∷ []))
unfolding upsert_discovered contains
upsert_discovered-ids now dev [] = inr (refl, refl)
upsert_discovered-ids now dev (d ∷ ds) = elim (Bool-cases (str_eq d.id dev.id)) [
  | inl e ↦
      let same : d.id ≡ dev.id = (eq_iff d.id dev.id).0 e in
      inl (if_true _ _ e, ap ids (if_true _ _ e) ∙ updated-ids now dev d ds same)
  | inr e ↦ elim (upsert_discovered-ids now dev ds) [
    | inl (k, f) ↦ inl (if_false _ _ e ∙ k, ap ids (if_false _ _ e) ∙ ap (◌∷◌ d.id) f)
    | inr (k, f) ↦ inr (if_false _ _ e ∙ k, if_false _ _ e ∙ ap (◌∷◌ d) f)
  ]
]

contains-snoc :
    (i j : String) (is : List String)
    → contains i is ≡ false
    → str_eq j i ≡ false
    → contains i (is ++ (j ∷ [])) ≡ false
unfolding contains
contains-snoc i j [] h e = rw e
contains-snoc i j (k ∷ is) h e = ground (arith, contains-snoc i j is)

AreDistinct-snoc :
    (i : String) (is : List String)
    → AreDistinct is
    → contains i is ≡ false
    → AreDistinct (is ++ (i ∷ []))
unfolding contains
AreDistinct-snoc i [] h e = (refl, tt)
AreDistinct-snoc i (j ∷ is) (h, hs) e = elim (Bool-cases (str_eq j i)) [
  | inl f ↦ absurd (ground (arith, sym (if_true _ _ f) ∙ e))
  | inr f ↦
      let different : str_eq i j ≡ false = ground (arith, eq_iff i j, eq_iff j i) in
      (contains-snoc j i is h different, AreDistinct-snoc i is hs (sym (if_false _ _ f) ∙ e))
]

ids-append : (ds es : List DiscoveredDevice) → ids (ds ++ es) ≡ ids ds ++ ids es
ids-append [] es = refl
ids-append (d ∷ ds) es = ap (◌∷◌ d.id) (ids-append ds es)

-- The devices of the list stay different under any scan result.
pub upsert_discovered-AreDistinct :
    (now : ℕ) (dev : DiscoveredDevice) (ds : List DiscoveredDevice)
    → AreDistinct (ids ds)
    → AreDistinct (ids (upsert_discovered now dev ds))
upsert_discovered-AreDistinct now dev ds h = elim (upsert_discovered-ids now dev ds) [
  | inl (k, e) ↦ subst AreDistinct (sym e) h
  | inr (k, e) ↦
      subst AreDistinct (sym (ap ids e ∙ ids-append ds _)) (AreDistinct-snoc dev.id (ids ds) h k)
]

-- A result for a known device is dropped within seven seconds of the last one that was taken, so the
-- list does not change; after that it replaces the entry.
pub upsert_discovered-throttle :
    (now : ℕ) (dev d : DiscoveredDevice) (front back : List DiscoveredDevice)
    → contains dev.id (ids front) ≡ false
    → d.id ≡ dev.id
    → let after = upsert_discovered now dev (front ++ (d ∷ back)) in
      (now < d.last_seen + 7) × (after ≡ front ++ (d ∷ back))
      ⊎ (d.last_seen + 7 ≤ now) × (after ≡ front ++ (record dev { last_seen = now } ∷ back))
unfolding upsert_discovered contains
upsert_discovered-throttle now dev d [] back h e = ground (arith, eq_iff d.id dev.id)
upsert_discovered-throttle now dev d (f ∷ front) back h e = elim (Bool-cases (str_eq f.id dev.id)) [
  | inl g ↦ absurd (ground (arith, sym (if_true _ _ g) ∙ h))
  | inr g ↦ elim (upsert_discovered-throttle now dev d front back (sym (if_false _ _ g) ∙ h) e) [
    | inl (k, r) ↦ inl (k, if_false _ _ g ∙ ap (◌∷◌ f) r)
    | inr (k, r) ↦ inr (k, if_false _ _ g ∙ ap (◌∷◌ f) r)
  ]
]
