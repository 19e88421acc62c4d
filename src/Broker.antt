-- ===== src/Broker.antt =====
-- internal/broker/broker.go, log.go and idp.go: the configuration, the state of a broker, and what
-- its handlers share.
pub mod Cookies
pub mod Frame
pub mod Fixed
pub mod Race
pub mod Start
pub mod Verify
pub mod IdpResponse
pub mod Approve
pub mod Poll
pub mod Router
use xdauth.Config.{Config, apply_defaults}
use xdauth.ClientAuth.{ClientAuthenticator}
use xdauth.Detect.{
  EventKind, suspected_abuse, SecurityEvent, Detector, kind_text, observe, new_detector,
  default_abuse_thresholds,
}
use xdauth.Http.{Request, Cookie}
use xdauth.Json.{Fields}
use xdauth.Machine.{PollStatus, Artifact}
use xdauth.Prelude.{
  ℕ, ◌*◌, Bool, true, false, List, [], ◌∷◌, ◌++◌, Option, none, some, is_empty, if◌then◌else◌,
}
use xdauth.Prelude.Int.{pos_part}
use xdauth.RateLimit.{Limiting, KeyedLimiter, new_keyed_limiter}
use xdauth.Session.{Time, Identity, Session}
use xdauth.Store.{Store}
use xdauth.Text.{Text, bytes}

-- `IdentityProvider`: `begin_login` stores correlation values on the session and gives the URL of the
-- redirect, from fresh random texts; `complete_login` gives the identity of a response. A `none` is
-- an error.
pub record IdentityProvider : Type 0 where
  pub begin_login : List Text → Session → Session × Option Text
  pub complete_login : Request → Session → Option Identity

-- A line of the log: the session, the event, and further attributes.
pub record LogLine : Type 0 where
  pub session_id : Text
  pub event : Text
  pub attrs : List (Text × Text)

-- What a handler does outside the process.
pub data Effect : Type 0 where
  logged : LogLine → Effect
  webhook : SecurityEvent → Effect

-- `approvePage`; the start time is formatted by the page.
pub record ApprovePage : Type 0 where
  pub identity : Text
  pub client_host : Text
  pub client_kind : Text
  pub client_ip : Text
  pub verified_client : Text
  pub started_at : Time
  pub csrf_token : Text
  pub approve_action : Text

pub record StartResponse : Type 0 where
  pub session_id : Text
  pub verification_uri : Text
  pub user_code : Text
  pub expires_in : ℕ
  pub interval : ℕ

pub data Body : Type 0 where
  json_start : StartResponse → Body
  json_poll : PollStatus → Option Artifact → Body
  -- `writeJSONError`: a code and a message
  json_error : Text → Text → Body
  -- `renderResult`: a title and a message
  result_page : Text → Text → Body
  approve_page : ApprovePage → Body
  -- the target of a redirect
  redirect : Text → Body
  -- nothing is written, as after a panic
  no_body : Body

pub record Response : Type 0 where
  pub status : ℕ
  pub body : Body
  pub set_cookies : List Cookie

abbrev pub respond : ℕ → Body → Response
respond status body = record { status = status; body = body; set_cookies = [] }

-- `renderApprove`
abbrev pub identity_value : Option Identity → Text
identity_value none = []
identity_value (some i) = i.value

abbrev pub approve_page_of : Session → Text → ApprovePage
approve_page_of s base_url = record {
  identity = identity_value s.identity;
  client_host = s.client_host;
  client_kind = s.client_kind;
  client_ip = s.client_ip;
  verified_client = s.verified_client;
  started_at = s.created_at;
  csrf_token = s.csrf_token;
  approve_action = base_url ++ bytes "/auth/approve";
}

module _ (L : Limiting) (S : Store) where
  pub record Broker : Type 0 where
    pub cfg : Config L
    pub db : S.Db
    pub ip_limiter : KeyedLimiter L
    pub hint_limiter : KeyedLimiter L
    pub detector : Detector
    -- newest first
    pub effects : List Effect

  -- `New`
  unfoldable pub new : Config L → S.Db → Broker
  unfolding new_keyed_limiter new_detector apply_defaults
  new c db =
      let cfg = apply_defaults L c in
      let idle_ttl = pos_part cfg.session_ttl * 4 in
      let limiter = new_keyed_limiter L cfg.start_rate cfg.start_burst idle_ttl in
      record {
        cfg = cfg;
        db = db;
        ip_limiter = limiter;
        hint_limiter = limiter;
        detector = new_detector default_abuse_thresholds;
        effects = [];
      }

  -- `logTransition`
  abbrev pub log_transition : Broker → Text → Text → List (Text × Text) → Broker
  log_transition b session_id event attrs = record b {
    effects = logged (record { session_id = session_id; event = event; attrs = attrs }) ∷ b.effects;
  }

  abbrev pub is_abuse : EventKind → Bool
  is_abuse suspected_abuse = true
  is_abuse _ = false

  -- `onSecurityEvent`
  pub on_security_event : Broker → SecurityEvent → Broker
  on_security_event b evt =
      let line =
        log_transition b evt.session_id (kind_text evt.kind)
          ((bytes "severity", bytes "warn") ∷ (bytes "key", evt.key) ∷ []) in
      elim (is_abuse evt.kind) [
        | false ↦ line
        | true ↦
            if is_empty b.cfg.abuse_webhook_url
            then line
            else record line { effects = webhook evt ∷ line.effects }
      ]

  pub on_security_events : Broker → List SecurityEvent → Broker
  unfolding on_security_event
  on_security_events b [] = b
  on_security_events b (e ∷ es) = on_security_events (on_security_event b e) es

  -- `b.detector.Observe`
  unfoldable pub observe_event : Broker → EventKind → Text → Text → Time → Broker
  unfolding on_security_events
  observe_event b kind key session_id now =
      let (d, events) = observe b.detector kind key session_id now in
      on_security_events (record b { detector = d }) events
