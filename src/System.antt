-- ===== src/System.antt =====
-- The broker as a whole: HTTP calls in the order in which they are served, and what they leave in
-- the store (internal/broker/broker.go, handlers.go). Each call is served before the next one;
-- `Broker.Race` is about calls that overlap.
pub mod Provenance
pub mod Invariant
pub mod Grants
pub mod Touch
pub mod Single
pub mod Honest
use xdauth.Broker.{Broker, IdentityProvider, Response}
use xdauth.Broker.Approve.{handle_approve}
use xdauth.Broker.IdpResponse.{handle_idp_response}
use xdauth.Broker.Poll.{PollRequest, handle_poll}
use xdauth.Broker.Start.{StartRequest, handle_start}
use xdauth.Broker.Verify.{handle_verify}
use xdauth.Http.{Request}
use xdauth.Machine.Trace.{begin_login}
use xdauth.Platform.{Platform}
use xdauth.Prelude.{◌≡◌, List, [], ◌∷◌, Option}
use xdauth.RateLimit.{Limiting}
use xdauth.Session.{Time, Session}
use xdauth.Store.{Store, found}
use xdauth.Text.{Text}

-- The routes of `Router`, with the time and the random bytes of the call. A provider has one of the
-- two callback routes, `/auth/callback` and `/auth/saml/acs`, which have one handler.
pub data Call : Type 0 where
  start_call : Request → Option StartRequest → Time → Option Text → Option Text → Call
  verify_call : Request → Text → Time → List Text → Call
  callback_call : Request → Time → Option Text → Option Text → Call
  approve_call : Request → Time → Call
  poll_call : Request → Option PollRequest → Time → Call

-- What the broker relies on in `BeginLogin`: of the session it writes the correlation values only.
pub record IdpLaws (idp : IdentityProvider) : Type 0 where
  pub begins :
      (fresh : List Text) (s : Session)
      → (protocol : Text) × (state : Text) × (nonce : Text) × (pkce : Text) × (request_id : Text)
        × ((idp.begin_login fresh s).0 ≡ begin_login s protocol state nonce pkce request_id)

module _ ⦃sys : Platform⦄ (L : Limiting) (S : Store) (idp : IdentityProvider) where
  unfoldable pub serve : Broker L S → Call → Broker L S × Response
  serve b (start_call r body now ib cb) = handle_start L S b r body now ib cb
  serve b (verify_call r id now fresh) = handle_verify L S idp b r id now fresh
  serve b (callback_call r now sb cb) = handle_idp_response L S idp b r now sb cb
  serve b (approve_call r now) = handle_approve L S b r now
  serve b (poll_call r body now) = handle_poll L S b r body now

  -- Every session that `new` holds, `old` holds.
  abbrev pub Within : S.Db → S.Db → Type 0
  Within new old =
      (now : Time) (id : Text) (s : Session)
      → S.get new now id ≡ found s
      → S.get old now id ≡ found s

  -- The broker after some calls, newest first. Between calls the store may drop sessions, as the
  -- sweeper of `Memory` does.
  pub data History (start : Broker L S) : List Call → Broker L S → Type 1 where
    started : History start [] start
    served :
        {cs : List Call} {b : Broker L S} (c : Call)
        → History start cs b
        → History start (c ∷ cs) (serve b c).0
    evicted :
        {cs : List Call} {b : Broker L S} (db : S.Db)
        → Within db b.db
        → History start cs b
        → History start cs (record b { db = db })
