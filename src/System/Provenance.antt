-- ===== src/System/Provenance.antt =====
-- Where the calls on a session of the store come from: the HTTP calls that made them.
use xdauth.Broker.{IdentityProvider}
use xdauth.Broker.Approve.{approve_request}
use xdauth.Broker.Cookies.{read_session_cookie, read_approval_cookie}
use xdauth.Broker.Poll.{PollRequest}
use xdauth.Broker.Start.{StartRequest, authenticate, lacks_field, bad_method}
use xdauth.Broker.Start.Guards.{session_of, from_allowed_network}
use xdauth.Config.{Config}
use xdauth.Http.{Request, or_empty}
use xdauth.Machine.{new_approval_secret}
use xdauth.Machine.Trace.{Event, begins, expires, binds, submits, polls, run}
use xdauth.Pkce.{hash_binding}
use xdauth.Platform.{Platform}
use xdauth.Prelude.{◌≡◌, true, false, List, [], ◌∷◌, Option, some, is_empty}
use xdauth.Prelude.Int.{pos_part}
use xdauth.RateLimit.{Limiting}
use xdauth.Session.{Time, Identity, Session, pending}
use xdauth.Store.{Store}
use xdauth.System.{Call, start_call, verify_call, callback_call, approve_call, poll_call}
use xdauth.Text.{Text}

module _ ⦃sys : Platform⦄ (L : Limiting) (S : Store) (idp : IdentityProvider) (cfg : Config L) where
  abbrev pub run_here : Session → List Event → Session
  run_here s₀ es = run cfg.identity_normalizer (pos_part cfg.artifact_ttl) s₀ es

  -- A call of `handleStart` that passed its guards and made this session.
  pub data StartedBy (s₀ : Session) : Call → Type 0 where
    started_by :
        {r : Request} {req : StartRequest} {now : Time} {ib cb : Option Text} (verified : Text)
        → authenticate cfg.client_authenticator r ≡ some verified
        → lacks_field req ≡ false
        → bad_method req ≡ false
        → from_allowed_network L S cfg r ≡ true
        → session_of L S cfg r req verified now ib cb ≡ some s₀
        → StartedBy s₀ (start_call r (some req) now ib cb)

  -- The calls on a session, each made by one of the HTTP calls, in their order. A callback names the
  -- session by its cookie, the provider vouches for the identity, and the secret of the binding is
  -- fresh; a form names it by its cookie and has its CSRF token; a poll names it in its body.
  pub data Made (s₀ : Session) : List Call → List Event → Type 0 where
    began : {c : Call} {cs : List Call} → StartedBy s₀ c → Made s₀ (c ∷ cs) []
    elsewhere : {cs : List Call} {es : List Event} (c : Call) → Made s₀ cs es → Made s₀ (c ∷ cs) es
    expired_by :
        {cs : List Call} {es : List Event} (c : Call) (now : Time)
        → Made s₀ cs es
        → Made s₀ (c ∷ cs) (expires now ∷ es)
    begun_by :
        {cs : List Call} {es : List Event} {r : Request} {now : Time} {fresh : List Text}
        (protocol state nonce pkce request_id : Text)
        → Made s₀ cs es
        → Made s₀
            (verify_call r s₀.id now fresh ∷ cs)
            (begins protocol state nonce pkce request_id ∷ es)
    bound_by :
        {cs : List Call} {es : List Event} {r : Request} {now : Time} {sb cb : Option Text}
        (i : Identity) (secret : Text)
        → read_session_cookie r ≡ some s₀.id
        → idp.complete_login r (run_here s₀ es) ≡ some i
        → new_approval_secret sb ≡ some secret
        → Made s₀ cs es
        → Made s₀ (callback_call r now sb cb ∷ cs) (binds i now (hash_binding secret) cb ∷ es)
    submitted_by :
        {cs : List Call} {es : List Event} {r : Request} {now : Time}
        → read_session_cookie r ≡ some s₀.id
        → (approve_request r s₀.id).csrf_token ≡ (run_here s₀ es).csrf_token
        → is_empty (run_here s₀ es).csrf_token ≡ false
        → Made s₀ cs es
        → Made s₀ (approve_call r now ∷ cs) (
            submits
              (approve_request r s₀.id).user_code
              (approve_request r s₀.id).approve
              now
              (or_empty (read_approval_cookie r))
            ∷ es)
    polled_by :
        {cs : List Call} {es : List Event} {r : Request} {req : PollRequest} {now : Time}
        → req.session_id ≡ s₀.id
        → Made s₀ cs es
        → Made s₀ (poll_call r (some req) now ∷ cs) (polls req.code_verifier now ∷ es)

  -- A session that came about by the calls: a pending one that was started, and what was made of it.
  pub record Traced (cs : List Call) (s : Session) : Type 0 where
    pub origin : Session
    pub events : List Event
    pub was_pending : origin.state ≡ pending
    pub made : Made origin cs events
    pub is_run : s ≡ run_here origin events

  pub Traced-elsewhere : {cs : List Call} {s : Session} (c : Call) → Traced cs s → Traced (c ∷ cs) s
  Traced-elsewhere c t = record {
    origin = t.origin;
    events = t.events;
    was_pending = t.was_pending;
    made = elsewhere c t.made;
    is_run = t.is_run;
  }
