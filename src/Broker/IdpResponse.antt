-- ===== src/Broker/IdpResponse.antt =====
-- `handleIdPResponse` of internal/broker/handlers.go, for both protocols.
pub mod Laws
use xdauth.Broker.{
  Broker, IdentityProvider, Response, respond, result_page, approve_page, approve_page_of,
  log_transition, observe_event,
}
use xdauth.Broker.Cookies.{read_session_cookie, approval_cookie}
use xdauth.Broker.Verify.{link_not_found, link_expired, update_quietly}
use xdauth.Detect.{identity_mismatch}
use xdauth.Http.{Request}
use xdauth.Machine.{
  Error, err_identity_mismatch, new_approval_secret, expire_if_needed, bind_identity, state_eq,
}
use xdauth.Pkce.{hash_binding}
use xdauth.Platform.{Platform}
use xdauth.Prelude.{ℕ, Bool, true, false, not, List, [], ◌∷◌, Option, none, some, if◌then◌else◌}
use xdauth.RateLimit.{Limiting}
use xdauth.Session.{Time, State, pending, Identity, Session}
use xdauth.Store.{Store, found, missing}
use xdauth.Text.{Text, bytes}

abbrev pub missing_cookie : Response
missing_cookie =
    respond 400 (
      result_page (bytes "Error") (bytes "Missing sign-in cookie; please restart from the client."))

abbrev pub could_not_complete : ℕ → Response
could_not_complete status =
    respond status
      (result_page (bytes "Error") (bytes "This sign-in request could not be completed."))

module _ ⦃sys : Platform⦄ (L : Limiting) (S : Store) (idp : IdentityProvider) where
  -- What is answered for the outcome of `bindIdentity`.
  unfoldable pub after_bind :
      Broker L S → Request → Session → Option Error → Text → Time → Broker L S × Response
  after_bind b r s none secret now = (
    log_transition L S b s.id (bytes "identity_bound") ((bytes "severity", bytes "info") ∷ []),
    record {
      status = 200;
      body = approve_page (approve_page_of s b.cfg.base_url);
      set_cookies = approval_cookie r secret ∷ [];
    },
  )
  after_bind b r s (some err_identity_mismatch) secret now = (
    observe_event L S b identity_mismatch s.login_hint s.id now,
    respond 403 (
        result_page (bytes "Identity mismatch") (
          bytes
            "You are signed in as a different account than the one this request is for. The request has been denied.")),
  )
  after_bind b r s (some _) secret now = (b, could_not_complete 409)

  -- From `newApprovalSecret` on.
  unfoldable pub bind_login :
      Broker L S
      → Request
      → Session
      → Identity
      → Time
      → Option Text
      → Option Text
      → Broker L S × Response
  unfolding after_bind
  bind_login b r s ident now secret_bytes csrf_bytes = elim (new_approval_secret secret_bytes) [
    | none ↦ (b, could_not_complete 500)
    | some secret ↦
        let (s', err) =
          bind_identity s ident b.cfg.identity_normalizer now (hash_binding secret) csrf_bytes in
        after_bind (update_quietly L S b now s') r s' err secret now
  ]

  -- Once the session is found and is not expired.
  unfoldable pub complete_pending :
      Broker L S → Request → Session → Time → Option Text → Option Text → Broker L S × Response
  unfolding bind_login
  complete_pending b r s now secret_bytes csrf_bytes =
      if not (state_eq s.state pending)
      then (
        b,
        respond 409 (
            result_page (bytes "Already in progress")
              (bytes "This sign-in request was already completed.")),
      )
      else elim (idp.complete_login r s) [
        | none ↦ (
          log_transition L S b s.id (bytes "callback_exchange_failed")
              ((bytes "severity", bytes "warn") ∷ []),
          respond 502 (
              result_page (bytes "Sign-in failed")
                (bytes "The identity provider rejected this sign-in attempt.")),
        )
        | some ident ↦ bind_login b r s ident now secret_bytes csrf_bytes
      ]

  -- Once the cookie is read.
  unfoldable pub complete_session :
      Broker L S → Request → Text → Time → Option Text → Option Text → Broker L S × Response
  unfolding complete_pending
  complete_session b r id now secret_bytes csrf_bytes = elim (S.get b.db now id) [
    | missing _ ↦ (b, link_not_found)
    | found s ↦
        let (s', late) = expire_if_needed s now in
        if late
        then (update_quietly L S b now s', link_expired)
        else complete_pending b r s' now secret_bytes csrf_bytes
  ]

  unfoldable pub handle_idp_response :
      Broker L S → Request → Time → Option Text → Option Text → Broker L S × Response
  unfolding complete_session
  handle_idp_response b r now secret_bytes csrf_bytes = elim (read_session_cookie r) [
    | none ↦ (b, missing_cookie)
    | some id ↦ complete_session b r id now secret_bytes csrf_bytes
  ]
