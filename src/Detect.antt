-- ===== src/Detect.antt =====
-- internal/broker/detect.go: the abuse detector. Its webhook is an effect of the broker.
pub mod Thresholds
pub mod Webhook
use xdauth.Prelude.{
  ℕ, suc, ◌+◌, ◌*◌, Bool, true, false, ◌&&◌, ◌||◌, List, [], ◌∷◌, ◌++◌, Option, none, some, ltb,
  leb, ◌==◌, if◌then◌else◌,
}
use xdauth.Session.{Time, Duration}
use xdauth.Text.{Text, bytes, text_eq}

pub data EventKind : Type 0 where
  wrong_code repeated_start consumed_replay identity_mismatch suspected_abuse : EventKind

abbrev pub kind_text : EventKind → Text
kind_text wrong_code = bytes "wrong_code"
kind_text repeated_start = bytes "repeated_start"
kind_text consumed_replay = bytes "consumed_replay"
kind_text identity_mismatch = bytes "identity_mismatch"
kind_text suspected_abuse = bytes "suspected_abuse"

pub record SecurityEvent : Type 0 where
  pub kind : EventKind
  pub session_id : Text
  pub key : Text
  pub at : Time

-- The thresholds are at least 0 here; a negative one counts as 0 in `Observe`.
pub record AbuseThresholds : Type 0 where
  pub wrong_code : ℕ
  pub repeated_start : ℕ
  pub identity_mismatch : ℕ
  pub window : Duration

abbrev pub second : Duration
second = 1000000000

abbrev pub default_abuse_thresholds : AbuseThresholds
default_abuse_thresholds = record {
  wrong_code = 3;
  repeated_start = 5;
  identity_mismatch = 3;
  window = 300 * second;
}

pub record CounterEntry : Type 0 where
  pub count : ℕ
  pub window_end : Time

-- The map of counters, and the thresholds; `onEvent` is what `observe` returns.
pub record Detector : Type 0 where
  pub counts : List (Text × CounterEntry)
  pub thresholds : AbuseThresholds

unfoldable pub new_detector : AbuseThresholds → Detector
new_detector t = record { counts = []; thresholds = t }

unfoldable pub threshold_for : AbuseThresholds → EventKind → ℕ
threshold_for t wrong_code = t.wrong_code
threshold_for t repeated_start = t.repeated_start
threshold_for t identity_mismatch = t.identity_mismatch
threshold_for t _ = 0

unfoldable pub map_key : EventKind → Text → Text
map_key kind key = kind_text kind ++ 124 ∷ key

unfoldable pub get_counter : Text → List (Text × CounterEntry) → Option CounterEntry
get_counter k [] = none
get_counter k ((j, e) ∷ m) = if text_eq j k then some e else get_counter k m

unfoldable pub put_counter :
    Text → CounterEntry → List (Text × CounterEntry) → List (Text × CounterEntry)
put_counter k e [] = (k, e) ∷ []
put_counter k e ((j, d) ∷ m) =
    let rest = put_counter k e m in if text_eq j k then (k, e) ∷ m else (j, d) ∷ rest

-- The entry that `tripped` counts in: the running one, or a new one where none runs.
abbrev pub running_entry : Option CounterEntry → Time → Duration → CounterEntry
running_entry none now window = record { count = 0; window_end = now + window }
running_entry (some e) now window =
    if ltb e.window_end now then record { count = 0; window_end = now + window } else e

tripped : Detector → EventKind → Text → ℕ → Time → Detector × Bool
tripped d kind key threshold now =
    let k = map_key kind key in
    let e = running_entry (get_counter k d.counts) now d.thresholds.window in
    let e' : CounterEntry = record e { count = e.count + 1 } in
    (record d { counts = put_counter k e' d.counts }, e'.count == threshold)

abbrev pub security_event : EventKind → Text → Text → Time → SecurityEvent
security_event kind session_id key now = record {
  kind = kind;
  session_id = session_id;
  key = key;
  at = now;
}

-- `Observe` of a detector with a sink: the new detector, and the events that the sink gets.
unfoldable pub observe : Detector → EventKind → Text → Text → Time → Detector × List SecurityEvent
unfolding threshold_for tripped
observe d kind key session_id now =
    let first = security_event kind session_id key now in
    let threshold = threshold_for d.thresholds kind in
    if threshold == 0
    then (d, first ∷ [])
    else let (d', trip) = tripped d kind key threshold now in
      if trip
      then (
        d',
        first ∷ security_event suspected_abuse session_id (kind_text kind ++ 58 ∷ key) now ∷ [],
      )
      else (d', first ∷ [])
