-- ===== src/Detect/Thresholds.antt =====
-- The counters and alarms of detect.go.
use xdauth.Detect.{
  EventKind, wrong_code, repeated_start, consumed_replay, identity_mismatch, suspected_abuse,
  SecurityEvent, CounterEntry, Detector, threshold_for, map_key, get_counter, put_counter,
  running_entry, observe,
}
use xdauth.Prelude.{
  ℕ, suc, ◌+◌, ◌≤◌, ◌<◌, ◌≡◌, ◌≢◌, refl, ap, ◌∙◌, inl, inr, Bool, true, false, ◌&&◌, List, [], ◌∷◌,
  Option, none, some, arith, ltb, leb, ◌==◌, if◌then◌else◌, any, Bool-cases,
}
use xdauth.Session.{Time}
use xdauth.Text.{Text, text_eq}
use xdauth.Text.Laws.{text_eq_iff, text_eq_sound, text_eq_refl}

get_counter-put :
    (k j : Text) (e : CounterEntry) (m : List (Text × CounterEntry))
    → get_counter j (put_counter k e m) ≡ (if text_eq k j then some e else get_counter j m)
unfolding get_counter put_counter
get_counter-put k j e [] = refl
get_counter-put k j e ((i, d) ∷ m) =
    ground (arith, text_eq_iff k j, text_eq_iff i k, text_eq_iff i j, get_counter-put k j e m)

abbrev pub first_byte : Text → ℕ
first_byte [] = 0
first_byte (c ∷ t) = c

-- Whether an observation raised the alarm.
abbrev pub is_alarm : SecurityEvent → Bool
is_alarm e = elim e.kind [ suspected_abuse ↦ true | _ ↦ false ]

abbrev pub alarms : List SecurityEvent → Bool
alarms = any is_alarm

abbrev pub counter : Detector → EventKind → Text → Option CounterEntry
counter d kind key = get_counter (map_key kind key) d.counts

-- One observation: the counter of its kind and key goes up by one within a running window and
-- starts again at one otherwise, and the alarm is raised exactly at the threshold.
observe_counts :
    (d : Detector) (kind : EventKind) (key session_id : Text) (now : Time)
    → kind ≢ suspected_abuse
    → 0 < threshold_for d.thresholds kind
    → let e = running_entry (counter d kind key) now d.thresholds.window in
      (counter (observe d kind key session_id now).0 kind key
        ≡ some (record e { count = e.count + 1 }))
      × (alarms (observe d kind key session_id now).1
          ≡ (e.count + 1 == threshold_for d.thresholds kind))
      × ((observe d kind key session_id now).0.thresholds ≡ d.thresholds)
unfolding observe
observe_counts d kind key sid now h t =
    let k = map_key kind key in
    let e = running_entry (counter d kind key) now d.thresholds.window in
    let e' : CounterEntry = record e { count = e.count + 1 } in
    ground (arith, get_counter-put k k e' d.counts, text_eq_refl k)

-- Kinds hold no bar, so that no two sources share a counter.
map_key_injective : (k l : EventKind) (x y : Text) → map_key k x ≡ map_key l y → (k ≡ l) × (x ≡ y)
unfolding map_key
map_key_injective wrong_code wrong_code x y h = (refl, cc)
map_key_injective repeated_start repeated_start x y h = (refl, cc)
map_key_injective consumed_replay consumed_replay x y h = (refl, cc)
map_key_injective identity_mismatch identity_mismatch x y h = (refl, cc)
map_key_injective suspected_abuse suspected_abuse x y h = (refl, cc)
map_key_injective wrong_code _ x y h = absurd (omega (arith, ap first_byte h))
map_key_injective repeated_start _ x y h = absurd (omega (arith, ap first_byte h))
map_key_injective consumed_replay _ x y h = absurd (omega (arith, ap first_byte h))
map_key_injective identity_mismatch _ x y h = absurd (omega (arith, ap first_byte h))
map_key_injective suspected_abuse _ x y h = absurd (omega (arith, ap first_byte h))

-- A call of `Observe`.
pub record Observation : Type 0 where
  pub kind : EventKind
  pub key : Text
  pub session_id : Text
  pub at : Time

abbrev pub observe_one : Detector → Observation → Detector × List SecurityEvent
observe_one d o = observe d o.kind o.key o.session_id o.at

-- Whether the call is one for this counter.
abbrev pub is_for : EventKind → Text → Observation → Bool
is_for kind key o = text_eq (map_key o.kind o.key) (map_key kind key)

-- An observation of another source leaves the counter as it is.
observe_other :
    (d : Detector) (o : Observation) (kind : EventKind) (key : Text)
    → is_for kind key o ≡ false
    → counter (observe_one d o).0 kind key ≡ counter d kind key
unfolding observe
observe_other d o kind key h =
    let e = running_entry (counter d o.kind o.key) o.at d.thresholds.window in
    let e' : CounterEntry = record e { count = e.count + 1 } in
    ground (arith, get_counter-put (map_key o.kind o.key) (map_key kind key) e' d.counts)

observe-thresholds :
    (d : Detector) (o : Observation) → (observe_one d o).0.thresholds ≡ d.thresholds
unfolding observe
observe-thresholds d o = ground arith

-- Of a list of calls, oldest first: those for the counter, and the alarms that they raise.
pub calls_for : EventKind → Text → List Observation → ℕ
calls_for kind key [] = 0
calls_for kind key (o ∷ os) =
    let rest = calls_for kind key os in if is_for kind key o then suc rest else rest

pub alarms_for : EventKind → Text → Detector → List Observation → ℕ
alarms_for kind key d [] = 0
alarms_for kind key d (o ∷ os) =
    let rest = alarms_for kind key (observe_one d o).0 os in
    if is_for kind key o && alarms (observe_one d o).1 then suc rest else rest

-- The calls for the counter are made before `w`.
abbrev pub InWindow : EventKind → Text → Time → List Observation → Type 0
InWindow kind key w [] = Unit
InWindow kind key w (o ∷ os) = (is_for kind key o ≡ true → o.at ≤ w) × InWindow kind key w os

-- The step for a call of this source, in a window that runs until `w`.
observe_running :
    (d : Detector) (kind : EventKind) (key session_id : Text) (now w : Time) (c : ℕ)
    → kind ≢ suspected_abuse
    → counter d kind key ≡ some (record { count = c; window_end = w })
    → now ≤ w
    → 0 < threshold_for d.thresholds kind
    → (counter (observe d kind key session_id now).0 kind key
        ≡ some (record { count = c + 1; window_end = w }))
      × (alarms (observe d kind key session_id now).1 ≡ (c + 1 == threshold_for d.thresholds kind))
observe_running d kind key sid now w c h e late t =
    ground (arith, observe_counts d kind key sid now h t)

module _ (kind : EventKind) (key : Text) (h : kind ≢ suspected_abuse) where
  observe_same :
      (w : Time) (d : Detector) (o : Observation) (c : ℕ)
      → counter d kind key ≡ some (record { count = c; window_end = w })
      → is_for kind key o ≡ true
      → o.at ≤ w
      → 0 < threshold_for d.thresholds kind
      → (counter (observe_one d o).0 kind key ≡ some (record { count = c + 1; window_end = w }))
        × (alarms (observe_one d o).1 ≡ (c + 1 == threshold_for d.thresholds kind))
  observe_same w d o c e same late t =
      let (k, x) =
        map_key_injective o.kind kind o.key key
          (text_eq_sound (map_key o.kind o.key) (map_key kind key) same) in
      rw (k, x) (observe_running d kind key o.session_id o.at w c h e late t)

  alarms_once :
      (w : Time) (th c : ℕ) (d : Detector) (os : List Observation)
      → counter d kind key ≡ some (record { count = c; window_end = w })
      → threshold_for d.thresholds kind ≡ th
      → 0 < th
      → InWindow kind key w os
      → alarms_for kind key d os ≡ (if ltb c th && leb th (c + calls_for kind key os) then 1 else 0)
  unfolding alarms_for calls_for
  alarms_once w th c d [] e t p i = ground arith
  alarms_once w th c d (o ∷ os) e t p i =
      let d' : Detector = (observe_one d o).0 in
      let t' : threshold_for d'.thresholds kind ≡ th =
        ap (λ x. threshold_for x kind) (observe-thresholds d o) ∙ t in
      elim (Bool-cases (is_for kind key o)) [
        | inl same ↦
            let (e', a) = observe_same w d o c e same (i.0 same) (rw t p) in
            ground (arith, alarms_once w th (c + 1) d' os e' t' p i.1)
        | inr other ↦
            ground (arith, alarms_once w th c d' os (observe_other d o kind key other ∙ e) t' p i.1)
      ]

  observe_first :
      (d : Detector) (o : Observation)
      → counter d kind key ≡ none
      → is_for kind key o ≡ true
      → 0 < threshold_for d.thresholds kind
      → (counter (observe_one d o).0 kind key
          ≡ some (record { count = 1; window_end = o.at + d.thresholds.window }))
        × (alarms (observe_one d o).1 ≡ (1 == threshold_for d.thresholds kind))
  observe_first d o e same t =
      let (k, x) =
        map_key_injective o.kind kind o.key key
          (text_eq_sound (map_key o.kind o.key) (map_key kind key) same) in
      let first = observe_counts d kind key o.session_id o.at h t in
      rw (k, x) (ground (arith, first))

  -- A source, that is a kind with a threshold and a key, that the detector has not seen: its first
  -- call opens a window. Of that call and those that follow, in any order with calls of other
  -- sources, as long as this source's are made within the window, one raises the alarm if they are
  -- at least as many as the threshold, and none if they are fewer.
  pub alarms_for-window :
      (d : Detector) (o : Observation) (os : List Observation)
      → counter d kind key ≡ none
      → 0 < threshold_for d.thresholds kind
      → is_for kind key o ≡ true
      → InWindow kind key (o.at + d.thresholds.window) os
      → alarms_for kind key d (o ∷ os)
        ≡ (if leb (threshold_for d.thresholds kind) (calls_for kind key (o ∷ os)) then 1 else 0)
  unfolding alarms_for calls_for
  alarms_for-window d o os e t same i =
      let (e', a) = observe_first d o e same t in
      let th = threshold_for d.thresholds kind in
      let t' : threshold_for (observe_one d o).0.thresholds kind ≡ th =
        ap (λ x. threshold_for x kind) (observe-thresholds d o) in
      ground (arith, alarms_once (o.at + d.thresholds.window) th 1 (observe_one d o).0 os e' t' t i)
