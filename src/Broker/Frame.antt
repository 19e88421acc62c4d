-- ===== src/Broker/Frame.antt =====
-- What observing an abuse signal leaves alone (broker.go, detect.go).
use xdauth.Broker.{Broker, on_security_event, on_security_events, observe_event}
use xdauth.Detect.{EventKind, SecurityEvent, observe}
use xdauth.Prelude.{◌≡◌, refl, ◌∙◌, ◌⊎◌, inl, inr, List, [], ◌∷◌, arith}
use xdauth.RateLimit.{Limiting}
use xdauth.Session.{Time, Session}
use xdauth.Store.{Store, StoreError, Fetched, found, missing}
use xdauth.Text.{Text}

pub Fetched-cases :
    (x : Fetched) → ((e : StoreError) × (x ≡ missing e)) ⊎ ((s : Session) × (x ≡ found s))
Fetched-cases (missing e) = inl (e, refl)
Fetched-cases (found s) = inr (s, refl)

module _ (L : Limiting) (S : Store) where
  -- The configuration and the store are those of before.
  pub record SameStore (b b' : Broker L S) : Type 1 where
    pub same_db : b'.db ≡ b.db
    pub same_cfg : b'.cfg ≡ b.cfg

  on_security_event-SameStore :
      (b : Broker L S) (e : SecurityEvent) → SameStore b (on_security_event L S b e)
  unfolding on_security_event
  on_security_event-SameStore b e = record { same_db = ground arith; same_cfg = ground arith }

  on_security_events-SameStore :
      (b : Broker L S) (es : List SecurityEvent) → SameStore b (on_security_events L S b es)
  unfolding on_security_events
  on_security_events-SameStore b [] = record { same_db = refl; same_cfg = refl }
  on_security_events-SameStore b (e ∷ es) =
      let one = on_security_event-SameStore b e in
      let rest = on_security_events-SameStore (on_security_event L S b e) es in
      record { same_db = rest.same_db ∙ one.same_db; same_cfg = rest.same_cfg ∙ one.same_cfg }

  pub observe_event-SameStore :
      (b : Broker L S) (k : EventKind) (key sid : Text) (now : Time)
      → SameStore b (observe_event L S b k key sid now)
  unfolding observe_event
  observe_event-SameStore b k key sid now =
      let (d, events) = observe b.detector k key sid now in
      let rest = on_security_events-SameStore (record b { detector = d }) events in
      record { same_db = rest.same_db; same_cfg = rest.same_cfg }
