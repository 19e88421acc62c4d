-- ===== src/Broker/Approve.antt =====
-- `handleApprove` of internal/broker/handlers.go.
pub mod Laws
use xdauth.Broker.{
  Broker, Response, respond, result_page, approve_page, approve_page_of, log_transition,
  observe_event,
}
use xdauth.Broker.Cookies.{read_session_cookie, read_approval_cookie, constant_time_string_equal}
use xdauth.Broker.IdpResponse.{missing_cookie}
use xdauth.Broker.Verify.{link_not_found, continue_elsewhere, update_quietly}
use xdauth.ClientIp.{resolve_client_ip}
use xdauth.Detect.{wrong_code}
use xdauth.Http.{Request, form_value, or_empty}
use xdauth.Machine.{Error, err_expired, err_approval_not_bound, approve, state_eq}
use xdauth.Platform.{Platform}
use xdauth.Prelude.{
  ℕ, Bool, true, false, not, ◌&&◌, List, [], ◌∷◌, Option, none, some, if◌then◌else◌,
}
use xdauth.RateLimit.{Limiting}
use xdauth.Session.{Time, State, approved, denied, Session}
use xdauth.Store.{Store, found, missing}
use xdauth.Text.{Text, bytes, text_eq}

pub record ApproveRequest : Type 0 where
  pub session_id : Text
  pub user_code : Text
  pub csrf_token : Text
  pub approve : Bool

abbrev pub approve_request : Request → Text → ApproveRequest
approve_request r session_id = record {
  session_id = session_id;
  user_code = form_value r (bytes "user_code");
  csrf_token = form_value r (bytes "csrf_token");
  approve = text_eq (form_value r (bytes "decision")) (bytes "approve");
}

abbrev pub is_error : Option Error → Bool
is_error none = false
is_error (some _) = true

abbrev pub is_err_expired : Option Error → Bool
is_err_expired (some err_expired) = true
is_err_expired _ = false

abbrev pub is_err_not_bound : Option Error → Bool
is_err_not_bound (some err_approval_not_bound) = true
is_err_not_bound _ = false

module _ ⦃sys : Platform⦄ (L : Limiting) (S : Store) where
  -- The `switch` on the outcome of `approve`.
  unfoldable pub after_approve :
      Broker L S → Request → Session → Option Error → Time → Broker L S × Response
  after_approve b r s err now =
      if not (is_error err) && state_eq s.state approved
      then (
        log_transition L S b s.id (bytes "approved") ((bytes "severity", bytes "info") ∷ []),
        respond 200 (
            result_page (bytes "Approved")
              (bytes "Sign-in approved. Return to the client to continue.")),
      )
      else if state_eq s.state denied
      then (
        log_transition L S b s.id (bytes "denied") ((bytes "severity", bytes "info") ∷ []),
        respond 200 (result_page (bytes "Denied") (bytes "Sign-in denied.")),
      )
      else if is_err_expired err
      then (
        b,
        respond 410 (result_page (bytes "Expired") (bytes "This sign-in request has expired.")),
      )
      else if is_err_not_bound err
      then (
        log_transition L S b s.id (bytes "approval_not_bound")
            ((bytes "severity", bytes "warn") ∷ []),
        continue_elsewhere,
      )
      else if is_error err
      then (
        observe_event L S b wrong_code (resolve_client_ip r b.cfg.trusted_proxies) s.id now,
        respond 200 (approve_page (approve_page_of s b.cfg.base_url)),
      )
      else (b, respond 200 (result_page (bytes "Done") (bytes "This request has been processed.")))

  -- Once the session is found.
  unfoldable pub approve_session :
      Broker L S → Request → ApproveRequest → Session → Time → Broker L S × Response
  unfolding after_approve constant_time_string_equal
  approve_session b r req s now =
      if not (constant_time_string_equal req.csrf_token s.csrf_token)
      then (
        b,
        respond 403 (
            result_page (bytes "Error")
              (bytes "Invalid form submission; please reload the page and try again.")),
      )
      else let secret = or_empty (read_approval_cookie r) in
        let (s', err) = approve s req.user_code req.approve now secret in
        after_approve (update_quietly L S b now s') r s' err now

  approve_form :
      Broker L S → Request → Option (List (Text × Text)) → Text → Time → Broker L S × Response
  unfolding approve_session
  approve_form b r none id now =
      (b, respond 400 (result_page (bytes "Error") (bytes "Malformed request.")))
  approve_form b r (some _) id now =
      let req = approve_request r id in
      elim (S.get b.db now req.session_id) [
        | missing _ ↦ (b, link_not_found)
        | found s ↦ approve_session b r req s now
      ]

  unfoldable pub handle_approve : Broker L S → Request → Time → Broker L S × Response
  unfolding approve_form
  handle_approve b r now = elim (read_session_cookie r) [
    | none ↦ (b, missing_cookie)
    | some id ↦ approve_form b r r.form id now
  ]
