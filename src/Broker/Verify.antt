-- ===== src/Broker/Verify.antt =====
-- `handleVerify` of internal/broker/handlers.go.
pub mod Laws
use xdauth.Broker.{
  Broker, IdentityProvider, Response, respond, result_page, approve_page, redirect, approve_page_of,
}
use xdauth.Broker.Cookies.{session_cookies, approval_binding_matches}
use xdauth.Http.{Request}
use xdauth.Machine.{expire_if_needed}
use xdauth.Platform.{Platform}
use xdauth.Prelude.{ℕ, Bool, true, false, not, List, [], ◌∷◌, Option, none, some, if◌then◌else◌}
use xdauth.RateLimit.{Limiting}
use xdauth.Session.{Time, State, pending, awaiting_approval, approved, denied, expired, Session}
use xdauth.Store.{Store, found, missing}
use xdauth.Text.{Text, bytes}

abbrev pub link_not_found : Response
link_not_found = respond 404 (
    result_page (bytes "Link not found")
      (bytes "This sign-in link is invalid or has already been used."))

abbrev pub link_expired : Response
link_expired = respond 410 (
    result_page (bytes "Link expired")
      (bytes "This sign-in request has expired. Go back to the client and try again."))

abbrev pub continue_elsewhere : Response
continue_elsewhere = respond 403 (
    result_page (bytes "Continue on your device") (
      bytes
        "This sign-in is waiting for approval on the browser where you signed in. Please continue there."))

abbrev pub could_not_start : Response
could_not_start =
    respond 500 (result_page (bytes "Error") (bytes "Could not start sign-in. Please try again."))

module _ (L : Limiting) (S : Store) where
  -- `_ = b.store.Update(...)`: the error is dropped.
  abbrev pub update_quietly : Broker L S → Time → Session → Broker L S
  update_quietly b now s = record b { db = (S.update b.db now s).0 }

module _ ⦃sys : Platform⦄ (L : Limiting) (S : Store) (idp : IdentityProvider) where
  -- From `b.idp.BeginLogin` on.
  unfoldable pub start_idp_leg :
      Broker L S → Request → Session → Time → List Text → Broker L S × Response
  start_idp_leg b r s now fresh =
      let (s', target) = idp.begin_login fresh s in
      elim target [
        | none ↦ (b, could_not_start)
        | some url ↦
            let (db, err) = S.update b.db now s' in
            elim err [
              | some _ ↦ (record b { db = db }, could_not_start)
              | none ↦ (
                record b { db = db },
                record { status = 302; body = redirect url; set_cookies = session_cookies r s'.id },
              )
            ]
      ]

  -- The page of a session that waits for approval.
  show_approval : Broker L S → Request → Session → Response
  show_approval b r s = if not (approval_binding_matches r s) then continue_elsewhere else record {
    status = 200;
    body = approve_page (approve_page_of s b.cfg.base_url);
    set_cookies = session_cookies r s.id;
  }

  -- The `switch` on the state.
  unfoldable pub verify_state :
      State → Broker L S → Request → Session → Time → List Text → Broker L S × Response
  unfolding start_idp_leg show_approval
  verify_state awaiting_approval b r s now fresh = (b, show_approval b r s)
  verify_state denied b r s now fresh = (
    b,
    respond 200
        (result_page (bytes "Sign-in denied") (bytes "This sign-in request was already denied.")),
  )
  verify_state approved b r s now fresh = (
    b,
    respond 200 (
        result_page (bytes "Already approved")
          (bytes "This sign-in request was already approved.")),
  )
  verify_state pending b r s now fresh = start_idp_leg b r s now fresh
  verify_state expired b r s now fresh = (
    b,
    respond 200
        (result_page (bytes "Unavailable") (bytes "This sign-in request is no longer available.")),
  )

  unfoldable pub handle_verify :
      Broker L S → Request → Text → Time → List Text → Broker L S × Response
  unfolding verify_state
  handle_verify b r id now fresh = elim (S.get b.db now id) [
    | missing _ ↦ (b, link_not_found)
    | found s ↦
        let (s', late) = expire_if_needed s now in
        if late
        then (update_quietly L S b now s', link_expired)
        else verify_state s'.state b r s' now fresh
  ]
