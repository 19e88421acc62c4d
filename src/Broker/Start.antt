-- ===== src/Broker/Start.antt =====
-- `handleStart` of internal/broker/handlers.go. A handler reads the clock once, and takes the random
-- bytes that it draws as arguments.
pub mod Guards
pub mod Answer
use xdauth.Broker.{
  Broker, Response, respond, json_start, json_error, StartResponse, log_transition, observe_event,
}
use xdauth.ClientAuth.{
  ClientAuthenticator, open_to_all, static_tokens, mtls, authenticate_static, authenticate_mtls,
}
use xdauth.ClientIp.{resolve_client_ip, is_allowed_client}
use xdauth.Detect.{repeated_start, second}
use xdauth.Http.{Request}
use xdauth.Machine.{StartParams, new_session}
use xdauth.Platform.{Platform}
use xdauth.Prelude.{
  ℕ, ◌/◌, Bool, true, false, not, ◌&&◌, ◌||◌, [], ◌∷◌, ◌++◌, Option, none, some, is_empty,
  if◌then◌else◌,
}
use xdauth.Prelude.Int.{pos_part}
use xdauth.RateLimit.{Limiting, allow}
use xdauth.Session.{Time, Session}
use xdauth.Store.{Store}
use xdauth.Text.{Text, bytes, text_eq}

pub record StartRequest : Type 0 where
  pub login_hint : Text
  pub code_challenge : Text
  pub code_challenge_method : Text
  pub client_kind : Text
  pub client_host : Text

-- The verified client, empty where no authenticator is set; `none` for a refused caller.
unfoldable pub authenticate : ClientAuthenticator → Request → Option Text
unfolding authenticate_static authenticate_mtls
authenticate open_to_all r = some []
authenticate (static_tokens a) r = authenticate_static a r
authenticate mtls r = authenticate_mtls r

abbrev pub lacks_field : StartRequest → Bool
lacks_field req = is_empty req.login_hint || is_empty req.code_challenge

abbrev pub bad_method : StartRequest → Bool
bad_method req =
    not (is_empty req.code_challenge_method)
    && not (text_eq req.code_challenge_method (bytes "S256"))

module _ ⦃sys : Platform⦄ (L : Limiting) (S : Store) where
  -- `b.ipLimiter.Allow(ip) && b.hintLimiter.Allow(hint)`; the second is asked only after the first.
  pub allow_start : Broker L S → Text → Text → Time → Broker L S × Bool
  allow_start b ip hint now =
      let (il, ip_ok) = allow L b.ip_limiter ip now in
      let b' : Broker L S = record b { ip_limiter = il } in
      if not ip_ok
      then (b', false)
      else let (hl, hint_ok) = allow L b.hint_limiter hint now in
        (record b' { hint_limiter = hl }, hint_ok)

  abbrev pub start_params : StartRequest → Text → Text → StartParams
  start_params req ip verified = record {
    login_hint = req.login_hint;
    code_challenge = req.code_challenge;
    client_kind = req.client_kind;
    client_host = req.client_host;
    client_ip = ip;
    verified_client = verified;
  }

  abbrev pub start_response : Broker L S → Session → StartResponse
  start_response b s = record {
    session_id = s.id;
    verification_uri = b.cfg.base_url ++ bytes "/auth/verify/" ++ s.id;
    user_code = s.user_code;
    expires_in = pos_part b.cfg.session_ttl / second;
    interval = pos_part b.cfg.poll_interval / second;
  }

  -- From `b.store.Create` on.
  unfoldable pub persist_session : Broker L S → Session → Time → Broker L S × Response
  persist_session b s now =
      let (db, err) = S.create b.db now s in
      elim err [
        | some _ ↦ (
          record b { db = db },
          respond 500 (json_error (bytes "server_error") (bytes "could not persist session")),
        )
        | none ↦ (
          log_transition L S (record b { db = db }) s.id (bytes "session_started")
              ((bytes "severity", bytes "info")
                ∷ (bytes "client_host", s.client_host)
                ∷ (bytes "client_kind", s.client_kind)
                ∷ (bytes "client_ip", s.client_ip)
                ∷ []),
          respond 200 (json_start (start_response b s)),
        )
      ]

  -- From `newSession` on.
  unfoldable pub create_session :
      Broker L S → StartParams → Time → Option Text → Option Text → Broker L S × Response
  unfolding persist_session
  create_session b p now id_bytes code_bytes =
      elim (new_session p (pos_part b.cfg.session_ttl) (pos_part b.cfg.poll_interval) now id_bytes
        code_bytes) [
          | none ↦ (
            b,
            respond 500 (json_error (bytes "server_error") (bytes "could not create session")),
          )
          | some s ↦ persist_session b s now
        ]

  -- From `resolveClientIP` on.
  unfoldable pub admit_start :
      Broker L S
      → Request
      → StartRequest
      → Text
      → Time
      → Option Text
      → Option Text
      → Broker L S × Response
  unfolding allow_start create_session
  admit_start b r req verified now id_bytes code_bytes =
      let ip = resolve_client_ip r b.cfg.trusted_proxies in
      if not (is_allowed_client ip b.cfg.allowed_client_cidrs)
      then (
        b,
        respond 403 (
            json_error (bytes "network_not_allowed")
              (bytes "this network is not permitted to start sign-ins")),
      )
      else let (b', ok) = allow_start b ip req.login_hint now in
        if not ok
        then (
          b',
          respond 429 (
              json_error (bytes "rate_limited") (bytes "too many session starts; try again later")),
        )
        else create_session b' (start_params req ip verified) now id_bytes code_bytes

  -- From the decoding of the body on; `none` is a body that is no such JSON.
  unfoldable pub start_request :
      Broker L S
      → Request
      → Option StartRequest
      → Text
      → Time
      → Option Text
      → Option Text
      → Broker L S × Response
  unfolding admit_start
  start_request b r none verified now id_bytes code_bytes =
      (b, respond 400 (json_error (bytes "invalid_request") (bytes "malformed JSON body")))
  start_request b r (some req) verified now id_bytes code_bytes =
      if lacks_field req
      then (
        b,
        respond 400 (
            json_error (bytes "invalid_request")
              (bytes "login_hint and code_challenge are required")),
      )
      else if bad_method req
      then (
        b,
        respond 400 (
            json_error (bytes "invalid_request")
              (bytes "only S256 code_challenge_method is supported")),
      )
      else admit_start (observe_event L S b repeated_start req.login_hint [] now) r req verified now
          id_bytes code_bytes

  unfoldable pub handle_start :
      Broker L S
      → Request
      → Option StartRequest
      → Time
      → Option Text
      → Option Text
      → Broker L S × Response
  unfolding start_request
  handle_start b r body now id_bytes code_bytes = elim (authenticate b.cfg.client_authenticator r) [
    | none ↦ (
      b,
      respond 401 (json_error (bytes "invalid_client") (bytes "client authentication failed")),
    )
    | some verified ↦ start_request b r body verified now id_bytes code_bytes
  ]
