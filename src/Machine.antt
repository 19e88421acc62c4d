-- ===== src/Machine.antt =====
-- internal/broker/session.go: the session state machine. A function that mutates `*store.Session`
-- returns the new session; random bytes are arguments, `none` for an error of `rand.Read`.
pub mod Steps
pub mod Trace
pub mod Flow
use xdauth.Prelude.{
  ℕ, suc, ◌+◌, Bool, true, false, not, ◌&&◌, ◌||◌, [], Option, none, some, ltb, leb, ◌==◌,
  if◌then◌else◌, is_empty,
}
use xdauth.Json.{Fields, end}
use xdauth.Pkce.{hash_binding, verify_client_pkce}
use xdauth.Platform.{Platform}
use xdauth.Session.{
  Time, Duration, State, pending, awaiting_approval, approved, denied, expired, Identity, Session,
}
use xdauth.Text.{Text, text_eq, constant_time_compare}
use xdauth.Text.Case.{to_lower, trim_space}
use xdauth.Text.Encoding.{hex}
use xdauth.UserCode.{generate_user_code, codes_equal}

-- The package's errors, then those made where they are returned.
pub data Error : Type 0 where
  err_expired err_consumed err_wrong_state err_invalid_verifier : Error
  err_identity_mismatch err_approval_not_bound : Error
  too_many_codes incorrect_code no_entropy : Error

abbrev pub Normalizer : Type 0
Normalizer = Text → Text

pub record StartParams : Type 0 where
  pub login_hint : Text
  pub code_challenge : Text
  pub client_kind : Text
  pub client_host : Text
  pub client_ip : Text
  pub verified_client : Text

abbrev pub state_eq : State → State → Bool
state_eq pending pending = true
state_eq awaiting_approval awaiting_approval = true
state_eq approved approved = true
state_eq denied denied = true
state_eq expired expired = true
state_eq _ _ = false

unfoldable pub is_terminal : State → Bool
is_terminal approved = true
is_terminal denied = true
is_terminal expired = true
is_terminal _ = false

is_expired : Session → Time → Bool
is_expired s now = ltb s.expires_at now

-- The session, and whether it is expired.
unfoldable pub expire_if_needed : Session → Time → Session × Bool
unfolding is_terminal is_expired
expire_if_needed s now =
    if state_eq s.state expired
    then (s, true)
    else if is_terminal s.state
    then (s, false)
    else if is_expired s now
    then (record s { state = expired }, true)
    else (s, false)

-- `newSessionID`, `newCSRFToken` and `newApprovalSecret` differ in the number of bytes they ask for.
unfoldable pub new_session_id : Option Text → Option Text
new_session_id none = none
new_session_id (some b) = some (hex b)

unfoldable pub new_csrf_token : Option Text → Option Text
new_csrf_token none = none
new_csrf_token (some b) = some (hex b)

unfoldable pub new_approval_secret : Option Text → Option Text
new_approval_secret none = none
new_approval_secret (some b) = some (hex b)

-- The record that `newSession` fills in once it has an id and a code.
unfoldable pub fresh_session : Text → Text → StartParams → Duration → Duration → Time → Session
fresh_session id code p ttl interval now = record {
  id = id;
  login_hint = p.login_hint;
  code_challenge = p.code_challenge;
  client_kind = p.client_kind;
  client_host = p.client_host;
  client_ip = p.client_ip;
  verified_client = p.verified_client;
  interval = interval;
  created_at = now;
  expires_at = now + ttl;
  user_code = code;
  protocol = [];
  idp_state = [];
  idp_nonce = [];
  idp_pkce_verifier = [];
  saml_request_id = [];
  identity = none;
  identity_at = 0;
  approve_attempts = 0;
  csrf_token = [];
  approval_binding_hash = [];
  last_poll_at = 0;
  state = pending;
  consumed = false;
}

unfoldable pub new_session :
    StartParams → Duration → Duration → Time → Option Text → Option Text → Option Session
unfolding new_session_id fresh_session
new_session p ttl interval now id_bytes code_bytes = elim (new_session_id id_bytes) [
  | none ↦ none
  | some id ↦ elim (generate_user_code code_bytes) [
    | none ↦ none
    | some code ↦ some (fresh_session id code p ttl interval now)
  ]
]

abbrev pub max_approve_attempts : ℕ
max_approve_attempts = 5

pub data PollStatus : Type 0 where
  poll_pending poll_approved poll_denied poll_expired poll_slow_down : PollStatus

pub record Artifact : Type 0 where
  pub subject : Text
  pub identity : Text
  pub claims : Fields
  pub approved_at : Time
  pub expires_at : Time

pub record PollResult : Type 0 where
  pub status : PollStatus
  pub artifact : Option Artifact

-- What `poll` returns: a result, an error, or the panic of a nil `s.Identity`.
pub data PollReply : Type 0 where
  result : PollResult → PollReply
  refused : Error → PollReply
  nil_identity : PollReply

abbrev pub status_only : PollStatus → PollReply
status_only st = result (record { status = st; artifact = none })

-- The artifact for an identity that was bound at `t`.
abbrev pub artifact_of : Identity → Time → Duration → Artifact
artifact_of i t ttl = record {
  subject = i.subject;
  identity = i.value;
  claims = i.claims;
  approved_at = t;
  expires_at = t + ttl;
}

-- The last `switch` of `poll`.
abbrev pub status_of : State → PollStatus
status_of denied = poll_denied
status_of expired = poll_expired
status_of _ = poll_pending

-- `!LastPollAt.IsZero() && now.Sub(LastPollAt) < Interval`
abbrev pub polls_too_soon : Session → Time → Bool
polls_too_soon s now = not (s.last_poll_at == 0) && ltb now (s.last_poll_at + s.interval)

module _ ⦃sys : Platform⦄ where
  unfoldable pub default_normalizer : Normalizer
  default_normalizer s = to_lower (trim_space s)

  -- A nil `Normalizer` is the default one.
  unfoldable pub normalizer_of : Option Normalizer → Normalizer
  normalizer_of none = default_normalizer
  normalizer_of (some f) = f

  -- `bindIdentity` from its third test on.
  bind_pending :
      Session → Identity → Normalizer → Time → Text → Option Text → Session × Option Error
  bind_pending s ident normalize now binding_hash csrf_bytes =
      let s' = record s { identity = some ident; identity_at = now } in
      if text_eq (normalize ident.value) (normalize s.login_hint)
      then elim (new_csrf_token csrf_bytes) [
        | none ↦ (s', some no_entropy)
        | some token ↦ (
          record s' {
            csrf_token = token;
            approval_binding_hash = binding_hash;
            state = awaiting_approval;
          },
          none,
        )
      ]
      else (record s' { state = denied }, some err_identity_mismatch)

  unfoldable pub bind_identity :
      Session → Identity → Option Normalizer → Time → Text → Option Text → Session × Option Error
  unfolding expire_if_needed bind_pending
  bind_identity s ident normalize now binding_hash csrf_bytes =
      let (s', late) = expire_if_needed s now in
      if late
      then (s', some err_expired)
      else if state_eq s'.state pending
      then bind_pending s' ident (normalizer_of normalize) now binding_hash csrf_bytes
      else (s', some err_wrong_state)

  abbrev pub binding_matches : Session → Text → Bool
  binding_matches s presented =
      not (is_empty s.approval_binding_hash)
      && constant_time_compare (hash_binding presented) s.approval_binding_hash == 1

  -- `approve` after its guards: a deny, the right code, or one more wrong code.
  judge_code : Session → Text → Bool → Session × Option Error
  judge_code s submitted_code decision_approve =
      if not decision_approve
      then (record s { state = denied }, none)
      else if codes_equal submitted_code s.user_code
      then (record s { state = approved }, none)
      else let n = s.approve_attempts + 1 in
        if leb max_approve_attempts n
        then (record s { approve_attempts = n; state = denied }, some too_many_codes)
        else (record s { approve_attempts = n }, some incorrect_code)

  unfoldable pub approve : Session → Text → Bool → Time → Text → Session × Option Error
  unfolding expire_if_needed judge_code
  approve s submitted_code decision_approve now presented_binding =
      let (s', late) = expire_if_needed s now in
      if late
      then (s', some err_expired)
      else if not (state_eq s'.state awaiting_approval)
      then (s', some err_wrong_state)
      else if not (binding_matches s' presented_binding)
      then (s', some err_approval_not_bound)
      else judge_code s' submitted_code decision_approve

  -- `poll` in the state `approved`.
  poll_approved_session : Session → Text → Duration → Session × PollReply
  poll_approved_session s code_verifier artifact_ttl =
      if s.consumed
      then (s, status_only poll_expired)
      else if not (verify_client_pkce code_verifier s.code_challenge)
      then (s, refused err_invalid_verifier)
      else let s' = record s { consumed = true } in
        elim s.identity [
          | none ↦ (s', nil_identity)
          | some i ↦ (
            s',
            result (record {
              status = poll_approved;
              artifact = some (artifact_of i s.identity_at artifact_ttl);
            }),
          )
        ]

  -- `poll` in every other state.
  poll_other_session : Session → Text → Time → Session × PollReply
  poll_other_session s code_verifier now =
      if not (verify_client_pkce code_verifier s.code_challenge)
      then (s, refused err_invalid_verifier)
      else if polls_too_soon s now
      then (s, status_only poll_slow_down)
      else (record s { last_poll_at = now }, status_only (status_of s.state))

  unfoldable pub poll : Session → Text → Time → Duration → Session × PollReply
  unfolding expire_if_needed poll_approved_session poll_other_session
  poll s code_verifier now artifact_ttl =
      let (s', late) = expire_if_needed s now in
      if late
      then (s', status_only poll_expired)
      else if state_eq s'.state approved
      then poll_approved_session s' code_verifier artifact_ttl
      else poll_other_session s' code_verifier now
