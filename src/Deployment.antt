-- ===== src/Deployment.antt =====
-- The client library against this broker: what of the broker's answers the client decodes
-- (internal/broker/handlers.go, pkg/client/client.go), and the calls of one client among all calls.
pub mod Origin
pub mod Granted
pub mod Programs
use xdauth.Broker.{
  Broker, IdentityProvider, Response, Body, StartResponse, json_start, json_poll, json_error,
}
use xdauth.Broker.Poll.{PollRequest, handle_poll}
use xdauth.Broker.Start as broker
use xdauth.Broker.Start.{handle_start}
use xdauth.Client.{
  StartRequest, Session, StartWireRequest, StartWireResponse, PollWireResponse, new_pkce_pair,
  wire_request,
}
use xdauth.Http.{Request}
use xdauth.Machine.{
  PollStatus, poll_pending, poll_approved, poll_denied, poll_expired, poll_slow_down,
}
use xdauth.Platform.{Platform}
use xdauth.Prelude.{ℕ, ◌≡◌, ◌⊎◌, List, [], ◌∷◌, ◌++◌, Option, none, some, All}
use xdauth.Prelude.Int.{pos}
use xdauth.RateLimit.{Limiting}
use xdauth.Session.{Time}
use xdauth.Store.{Store}
use xdauth.System.{Call, start_call, poll_call, History}
use xdauth.Text.{Text, bytes, trim_right}
use xdauth.Tools.{World, start_in}

unfoldable pub wire_status : PollStatus → Text
wire_status poll_pending = bytes "pending"
wire_status poll_approved = bytes "approved"
wire_status poll_denied = bytes "denied"
wire_status poll_expired = bytes "expired"
wire_status poll_slow_down = bytes "slow_down"

-- The text of `writeJSONError`.
abbrev pub wire_error : Text → Text → Text
wire_error code message = code ++ bytes ": " ++ message

-- What the client decodes of the body of an answer to a poll; a page is no JSON. The fields that the
-- body lacks are empty.
unfoldable pub decode_poll : Body → Option PollWireResponse
unfolding wire_status
decode_poll (json_poll st artifact) =
    some (record { status = wire_status st; artifact = artifact; error = [] })
decode_poll (json_error code message) =
    some (record { status = bytes "error"; artifact = none; error = wire_error code message })
decode_poll (json_start reply) = some (record { status = []; artifact = none; error = [] })
decode_poll _ = none

abbrev pub wire_poll : Response → ℕ × Option PollWireResponse
wire_poll answer = (answer.status, decode_poll answer.body)

abbrev pub wire_reply : StartResponse → StartWireResponse
wire_reply reply = record {
  session_id = reply.session_id;
  verification_uri = reply.verification_uri;
  user_code = reply.user_code;
  expires_in = pos reply.expires_in;
  interval = pos reply.interval;
  error = [];
}

-- A start's answer that has none of the fields but the error.
abbrev pub wire_failure : Text → StartWireResponse
wire_failure error = record {
  session_id = [];
  verification_uri = [];
  user_code = [];
  expires_in = pos 0;
  interval = pos 0;
  error = error;
}

-- What the client decodes of the body of an answer to a start.
unfoldable pub decode_start : Body → Option StartWireResponse
decode_start (json_start reply) = some (wire_reply reply)
decode_start (json_error code message) = some (wire_failure (wire_error code message))
decode_start (json_poll st artifact) = some (wire_failure [])
decode_start _ = none

abbrev pub wire_start : Response → ℕ × Option StartWireResponse
wire_start answer = (answer.status, decode_start answer.body)

-- What the broker decodes of the client's requests.
abbrev pub start_body : StartWireRequest → broker.StartRequest
start_body wire = record {
  login_hint = wire.login_hint;
  code_challenge = wire.code_challenge;
  code_challenge_method = wire.code_challenge_method;
  client_kind = wire.client_kind;
  client_host = wire.client_host;
}

abbrev pub poll_body : Session → PollRequest
poll_body sess = record { session_id = sess.id; code_verifier = sess.verifier }

-- What the calls were at some time before.
pub data Earlier (cs : List Call) : List Call → Type 0 where
  now : Earlier cs cs
  before : {ds : List Call} (c : Call) → Earlier cs ds → Earlier cs (c ∷ ds)

module _ ⦃sys : Platform⦄ (L : Limiting) (S : Store) (idp : IdentityProvider) where
  -- This answer, if there is one, is the broker's to a poll for the session, one of the calls.
  pub data PollAnswer (start : Broker L S) (cs : List Call) (sess : Session)
      : Option (ℕ × Option PollWireResponse) → Type 1 where
    unanswered : PollAnswer start cs sess none
    answered :
        {ds : List Call} {b : Broker L S} (r : Request) (t : Time)
        → History L S idp start ds b
        → Earlier (poll_call r (some (poll_body sess)) t ∷ ds) cs
        → PollAnswer start cs sess
            (some (wire_poll (handle_poll L S b r (some (poll_body sess)) t).1))

  -- This answer, if there is one, is the broker's to this start, one of the calls.
  pub data StartAnswer (start : Broker L S) (cs : List Call) (wire : StartWireRequest)
      : Option (ℕ × Option StartWireResponse) → Type 1 where
    unanswered : StartAnswer start cs wire none
    answered :
        {ds : List Call} {b : Broker L S} (r : Request) (t : Time) (ib cb : Option Text)
        → History L S idp start ds b
        → Earlier (start_call r (some (start_body wire)) t ib cb ∷ ds) cs
        → StartAnswer start cs wire
            (some (wire_start (handle_start L S b r (some (start_body wire)) t ib cb).1))

  -- The world of a client whose broker is this one, and has served these calls.
  pub record Connected (start : Broker L S) (cs : List Call) (w : World) (req : StartRequest)
      : Type 1 where
    pub starts :
        (verifier challenge : Text)
        → new_pkce_pair w.random ≡ some (verifier, challenge)
        → StartAnswer start cs (wire_request req challenge) (
            w.send
              (trim_right req.broker_url 47 ++ bytes "/auth/start")
              (wire_request req challenge))
    pub polls :
        (sess : Session) → start_in w req ≡ some sess → All (PollAnswer start cs sess) w.answers
