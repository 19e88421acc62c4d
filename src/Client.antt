-- ===== src/Client.antt =====
-- pkg/client/client.go: the Go client. The HTTP exchange with the broker is a parameter, or its
-- answers in their order; the contexts of `Poll` end when the answers do.
pub mod Laws
pub mod Waits
use xdauth.Detect.{second}
use xdauth.Http.{or_empty}
use xdauth.Machine.{Artifact}
use xdauth.Pkce.{challenge_of}
use xdauth.Platform.{Platform}
use xdauth.Prelude.{
  ℕ, suc, ◌+◌, ◌-◌, ◌*◌, ◌/◌, Bool, not, ◌||◌, List, [], ◌∷◌, ◌++◌, Option, none, some, ◌==◌,
  is_empty, if◌then◌else◌,
}
use xdauth.Prelude.Int.{ℤ, pos, negsuc, is_nonpos, wrap_int64}
use xdauth.Text.{Text, bytes, text_eq, trim_right}
use xdauth.Text.Encoding.{base64}

pub record StartRequest : Type 0 where
  pub broker_url : Text
  pub login_hint : Text
  pub client_kind : Text
  pub client_host : Text

-- Durations in nanoseconds; the broker's numbers may be negative.
pub record Session : Type 0 where
  pub id : Text
  pub verification_uri : Text
  pub user_code : Text
  pub expires_in : ℤ
  pub interval : ℤ
  pub broker_url : Text
  pub verifier : Text

pub record StartWireRequest : Type 0 where
  pub login_hint : Text
  pub code_challenge : Text
  pub code_challenge_method : Text
  pub client_kind : Text
  pub client_host : Text

pub record StartWireResponse : Type 0 where
  pub session_id : Text
  pub verification_uri : Text
  pub user_code : Text
  pub expires_in : ℤ
  pub interval : ℤ
  pub error : Text

-- `time.Duration(n) * time.Second`, which is an `int64`
abbrev pub in_seconds : ℤ → ℤ
in_seconds (pos n) = wrap_int64 (pos (n * second))
in_seconds (negsuc n) = wrap_int64 (negsuc (n * second + (second - 1)))

pub record PollWireResponse : Type 0 where
  pub status : Text
  pub artifact : Option Artifact
  pub error : Text

pub record Result : Type 0 where
  pub status : Text
  pub artifact : Option Artifact

-- What `Poll` returns: a result, an error of a poll, a status that it does not know, or the error
-- of the context.
pub data Outcome : Type 0 where
  finished : Result → Outcome
  poll_failed : Outcome
  unexpected : Text → Outcome
  context_done : Outcome

-- The pair is of the verifier and the challenge.
module _ ⦃sys : Platform⦄ where
  unfoldable pub new_pkce_pair : Option Text → Option (Text × Text)
  new_pkce_pair none = none
  new_pkce_pair (some raw) = let verifier = base64 raw in some (verifier, challenge_of verifier)

  abbrev pub wire_request : StartRequest → Text → StartWireRequest
  wire_request req challenge = record {
    login_hint = req.login_hint;
    code_challenge = challenge;
    code_challenge_method = bytes "S256";
    client_kind = req.client_kind;
    client_host = req.client_host;
  }

  abbrev pub session_of : StartRequest → Text → StartWireResponse → Session
  session_of req verifier wire = record {
    id = wire.session_id;
    verification_uri = wire.verification_uri;
    user_code = wire.user_code;
    expires_in = in_seconds wire.expires_in;
    interval = in_seconds wire.interval;
    broker_url = trim_right req.broker_url 47;
    verifier = verifier;
  }

  -- Once the broker has answered: with a status code, and a body where it decodes.
  unfoldable pub read_start :
      StartRequest → Text → Option (ℕ × Option StartWireResponse) → Option Session
  read_start req verifier (some (status, some wire)) =
      if not (status == 200) then none else some (session_of req verifier wire)
  read_start req verifier _ = none

  -- `Start`; `none` is an error. `send` posts a request to a URL.
  unfoldable pub start :
      (Text → StartWireRequest → Option (ℕ × Option StartWireResponse))
      → StartRequest
      → Option Text
      → Option Session
  unfolding new_pkce_pair read_start
  start send req raw =
      if is_empty req.broker_url || is_empty req.login_hint
      then none
      else elim (new_pkce_pair raw) [
        | none ↦ none
        | some (verifier, challenge) ↦ read_start req verifier (
            send (trim_right req.broker_url 47 ++ bytes "/auth/start") (wire_request req challenge))
      ]

-- `pollOnce`, of the broker's answer; `none` is an error.
unfoldable pub poll_once : Option (ℕ × Option PollWireResponse) → Option (Text × Option Artifact)
poll_once (some (status, some wire)) =
    if not (status == 200) then none else some (wire.status, wire.artifact)
poll_once _ = none

abbrev pub is_final : Text → Bool
is_final st =
    text_eq st (bytes "approved") || text_eq st (bytes "denied") || text_eq st (bytes "expired")

-- `interval += interval / 2`: the half is rounded towards zero, and the sum is an `int64`.
abbrev pub slower : ℤ → ℤ
slower (pos n) = wrap_int64 (pos (n + n / 2))
slower (negsuc n) = wrap_int64 (negsuc (n + suc n / 2))

-- The loop of `Poll` over the answers: the durations to which it sets the timer between the polls,
-- which fires at once for one that is not positive, and what it returns.
unfoldable pub poll_loop : ℤ → List (Option (ℕ × Option PollWireResponse)) → List ℤ × Outcome
unfolding poll_once
poll_loop interval [] = ([], context_done)
poll_loop interval (answer ∷ answers) =
    let longer = slower interval in
    let rest = poll_loop interval answers in
    let rest_slower = poll_loop longer answers in
    elim (poll_once answer) [
      | none ↦ ([], poll_failed)
      | some (st, artifact) ↦
          if text_eq st (bytes "pending")
          then (interval ∷ rest.0, rest.1)
          else if text_eq st (bytes "slow_down")
          then (longer ∷ rest_slower.0, rest_slower.1)
          else if is_final st
          then ([], finished (record { status = st; artifact = artifact }))
          else ([], unexpected st)
    ]

abbrev pub interval_of : ℤ → ℤ
interval_of i = if is_nonpos i then pos (3 * second) else i

unfoldable pub poll : Session → List (Option (ℕ × Option PollWireResponse)) → List ℤ × Outcome
unfolding poll_loop
poll sess answers = poll_loop (interval_of sess.interval) answers
