-- ===== src/Broker/Poll.antt =====
-- `handlePoll` of internal/broker/handlers.go.
pub mod Laws
use xdauth.Broker.{
  Broker, Body, Response, respond, json_poll, json_error, no_body, log_transition, observe_event,
}
use xdauth.Broker.Verify.{update_quietly}
use xdauth.ClientIp.{resolve_client_ip}
use xdauth.Detect.{consumed_replay}
use xdauth.Http.{Request}
use xdauth.Machine.{
  Error, err_invalid_verifier, PollStatus, poll_approved, poll_expired, PollReply, PollResult,
  Artifact, result, refused, nil_identity, poll,
}
use xdauth.Platform.{Platform}
use xdauth.Prelude.{
  ℕ, Bool, true, false, ◌&&◌, List, [], ◌∷◌, Option, none, some, is_empty, if◌then◌else◌,
}
use xdauth.Prelude.Int.{pos_part}
use xdauth.RateLimit.{Limiting}
use xdauth.Session.{Time, Session}
use xdauth.Store.{Store, found, missing}
use xdauth.Text.{Text, bytes}

pub record PollRequest : Type 0 where
  pub session_id : Text
  pub code_verifier : Text

abbrev pub malformed_poll : Response
malformed_poll = respond 400 (json_error (bytes "invalid_request") (bytes "malformed JSON body"))

-- `result.Status == PollExpired`, of a result that may be the zero one of an error
abbrev pub is_expired_reply : PollReply → Bool
is_expired_reply (result r) = elim r.status [ poll_expired ↦ true | _ ↦ false ]
is_expired_reply _ = false

abbrev pub is_panic : PollReply → Bool
is_panic nil_identity = true
is_panic _ = false

-- Whether this body holds an artifact.
abbrev pub hands_out : Body → Bool
hands_out (json_poll _ (some _)) = true
hands_out _ = false

module _ ⦃sys : Platform⦄ (L : Limiting) (S : Store) where
  -- The artifact is passed on only with the status "approved".
  unfoldable pub poll_response :
      Broker L S → Session → PollStatus → Option Artifact → Broker L S × Response
  poll_response b s poll_approved (some a) = (
    log_transition L S b s.id (bytes "consumed") ((bytes "severity", bytes "info") ∷ []),
    respond 200 (json_poll poll_approved (some a)),
  )
  poll_response b s status _ = (b, respond 200 (json_poll status none))

  -- What is answered for the outcome of `poll`.
  unfoldable pub after_poll : Broker L S → Session → PollReply → Broker L S × Response
  unfolding poll_response
  after_poll b s (result r) = poll_response b s r.status r.artifact
  after_poll b s (refused err_invalid_verifier) = (
    log_transition L S b s.id (bytes "poll_invalid_verifier")
        ((bytes "severity", bytes "warn") ∷ []),
    respond 403 (json_error (bytes "invalid_verifier") (bytes "code_verifier does not match")),
  )
  after_poll b s (refused _) =
      (b, respond 500 (json_error (bytes "server_error") (bytes "could not evaluate session")))
  after_poll b s nil_identity = (b, respond 500 no_body)

  -- A replay of a consumed session is reported.
  unfoldable pub note_replay : Broker L S → Request → Session → Bool → PollReply → Time → Broker L S
  note_replay b r s was_consumed reply now =
      if was_consumed && is_expired_reply reply
      then observe_event L S b consumed_replay (resolve_client_ip r b.cfg.trusted_proxies) s.id now
      else b

  -- Once the session is found. A panic of `poll` leaves the store as it was.
  unfoldable pub poll_session :
      Broker L S → Request → PollRequest → Session → Time → Broker L S × Response
  unfolding after_poll note_replay
  poll_session b r req s now =
      let (s', reply) = poll s req.code_verifier now (pos_part b.cfg.artifact_ttl) in
      if is_panic reply
      then (b, respond 500 no_body)
      else after_poll (note_replay (update_quietly L S b now s') r s' s.consumed reply now) s' reply

  unfoldable pub poll_request : Broker L S → Request → PollRequest → Time → Broker L S × Response
  unfolding poll_session
  poll_request b r req now =
      if is_empty req.session_id
      then (b, malformed_poll)
      else elim (S.get b.db now req.session_id) [
        | missing _ ↦ (b, respond 200 (json_poll poll_expired none))
        | found s ↦ poll_session b r req s now
      ]

  unfoldable pub handle_poll :
      Broker L S → Request → Option PollRequest → Time → Broker L S × Response
  unfolding poll_request
  handle_poll b r none now = (b, malformed_poll)
  handle_poll b r (some req) now = poll_request b r req now
