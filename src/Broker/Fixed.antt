-- ===== src/Broker/Fixed.antt =====
-- The configuration of the broker through the handlers of handlers.go.
use xdauth.Broker.{Broker, IdentityProvider, observe_event}
use xdauth.Broker.Approve.{
  ApproveRequest, approve_request, handle_approve, approve_session, after_approve,
}
use xdauth.Broker.Cookies.{read_approval_cookie, read_session_cookie}
use xdauth.Broker.Frame.{Fetched-cases, observe_event-SameStore}
use xdauth.Broker.IdpResponse.{
  handle_idp_response, complete_session, complete_pending, bind_login, after_bind,
}
use xdauth.Broker.Poll.{
  PollRequest, handle_poll, poll_request, poll_session, after_poll, note_replay,
}
use xdauth.Broker.Start.{
  StartRequest, authenticate, start_params, handle_start, start_request, admit_start,
  create_session, allow_start, persist_session,
}
use xdauth.Broker.Approve.Laws.{handle_approve-step}
use xdauth.Broker.Start.Guards.{allow_start-SameStore}
use xdauth.Broker.Verify.{handle_verify, verify_state, start_idp_leg, update_quietly}
use xdauth.ClientIp.{resolve_client_ip}
use xdauth.Detect.{consumed_replay, wrong_code, identity_mismatch, repeated_start}
use xdauth.Http.{Request, or_empty}
use xdauth.Machine.{
  Error, PollReply, StartParams, new_session, poll, approve, bind_identity, expire_if_needed,
  new_approval_secret,
}
use xdauth.Pkce.{hash_binding}
use xdauth.Platform.{Platform}
use xdauth.Prelude.{
  ◌≡◌, refl, Bool, List, [], Option, none, some, arith, Bool-cases, Option-cases, inl, inr,
  is_empty,
}
use xdauth.Prelude.Int.{pos_part}
use xdauth.RateLimit.{Limiting}
use xdauth.Session.{Time, State, pending, Identity, Session}
use xdauth.Store.{Store}
use xdauth.Text.{Text}

module _ ⦃sys : Platform⦄ (L : Limiting) (S : Store) where
  note_replay-cfg :
      (b : Broker L S) (r : Request) (s : Session) (c : Bool) (x : PollReply) (now : Time)
      → (note_replay L S b r s c x now).cfg ≡ b.cfg
  unfolding note_replay
  note_replay-cfg b r s c x now =
      let ip = resolve_client_ip r b.cfg.trusted_proxies in
      let o = observe_event-SameStore L S b consumed_replay ip s.id now in
      ground (arith, o.same_cfg)

  after_poll-cfg :
      (b : Broker L S) (s : Session) (x : PollReply) → (after_poll L S b s x).0.cfg ≡ b.cfg
  unfolding after_poll
  after_poll-cfg b s x = ground arith

  pub poll_session-cfg :
      (b : Broker L S) (r : Request) (req : PollRequest) (s : Session) (now : Time)
      → (poll_session L S b r req s now).0.cfg ≡ b.cfg
  unfolding poll_session
  poll_session-cfg b r req s now =
      let (s', reply) = poll s req.code_verifier now (pos_part b.cfg.artifact_ttl) in
      let b₁ = update_quietly L S b now s' in
      let b₂ = note_replay L S b₁ r s' s.consumed reply now in
      ground (arith, after_poll-cfg b₂ s' reply, note_replay-cfg b₁ r s' s.consumed reply now)

  pub handle_poll-cfg :
      (b : Broker L S) (r : Request) (body : Option PollRequest) (now : Time)
      → (handle_poll L S b r body now).0.cfg ≡ b.cfg
  unfolding poll_request handle_poll
  handle_poll-cfg b r none now = refl
  handle_poll-cfg b r (some req) now = elim (Bool-cases (is_empty req.session_id)) [
    | inl e ↦ rw e
    | inr e ↦ elim (Fetched-cases (S.get b.db now req.session_id)) [
      | inl (x, g) ↦ ground arith
      | inr (s, g) ↦ rw (e, g, handle_poll, poll_request) (poll_session-cfg b r req s now)
    ]
  ]

  after_approve-cfg :
      (b : Broker L S) (r : Request) (s : Session) (e : Option Error) (now : Time)
      → (after_approve L S b r s e now).0.cfg ≡ b.cfg
  unfolding after_approve
  after_approve-cfg b r s e now =
      let ip = resolve_client_ip r b.cfg.trusted_proxies in
      let o = observe_event-SameStore L S b wrong_code ip s.id now in ground (arith, o.same_cfg)

  pub approve_session-cfg :
      (b : Broker L S) (r : Request) (req : ApproveRequest) (s : Session) (now : Time)
      → (approve_session L S b r req s now).0.cfg ≡ b.cfg
  unfolding approve_session
  approve_session-cfg b r req s now =
      let (s', err) = approve s req.user_code req.approve now (or_empty (read_approval_cookie r)) in
      ground (arith, after_approve-cfg (update_quietly L S b now s') r s' err now)

  pub handle_approve-cfg :
      (b : Broker L S) (r : Request) (now : Time) → (handle_approve L S b r now).0.cfg ≡ b.cfg
  unfolding handle_approve
  handle_approve-cfg b r now = elim (Option-cases (read_session_cookie r)) [
    | inl c ↦ rw (c, handle_approve)
    | inr (id, c) ↦ elim (Option-cases r.form) [
      | inl f ↦ ground arith
      | inr (m, f) ↦ elim (Fetched-cases (S.get b.db now id)) [
        | inl (x, g) ↦ ground arith
        | inr (s, g) ↦
            rw (handle_approve-step L S b r now id m s c f g)
              (approve_session-cfg b r (approve_request r id) s now)
      ]
    ]
  ]

  persist_session-cfg :
      (b : Broker L S) (s : Session) (now : Time) → (persist_session L S b s now).0.cfg ≡ b.cfg
  unfolding persist_session
  persist_session-cfg b s now = ground arith

  create_session-cfg :
      (b : Broker L S) (p : StartParams) (now : Time) (ib cb : Option Text)
      → (create_session L S b p now ib cb).0.cfg ≡ b.cfg
  unfolding create_session
  create_session-cfg b p now ib cb =
      elim (Option-cases
        (new_session p (pos_part b.cfg.session_ttl) (pos_part b.cfg.poll_interval) now ib cb)) [
          | inl e ↦ rw (e, create_session)
          | inr (s, e) ↦ rw (e, create_session) (persist_session-cfg b s now)
        ]

  admit_start-cfg :
      (b : Broker L S) (r : Request) (req : StartRequest) (v : Text) (now : Time)
      (ib cb : Option Text)
      → (admit_start L S b r req v now ib cb).0.cfg ≡ b.cfg
  unfolding admit_start
  admit_start-cfg b r req v now ib cb =
      let ip = resolve_client_ip r b.cfg.trusted_proxies in
      let b₁ = (allow_start L S b ip req.login_hint now).0 in
      let k = allow_start-SameStore L S b ip req.login_hint now in
      ground (arith, k.same_cfg, create_session-cfg b₁ (start_params L S req ip v) now ib cb)

  start_request-cfg :
      (b : Broker L S) (r : Request) (body : Option StartRequest) (v : Text) (now : Time)
      (ib cb : Option Text)
      → (start_request L S b r body v now ib cb).0.cfg ≡ b.cfg
  unfolding start_request
  start_request-cfg b r none v now ib cb = refl
  start_request-cfg b r (some req) v now ib cb =
      let b₁ = observe_event L S b repeated_start req.login_hint [] now in
      let k = observe_event-SameStore L S b repeated_start req.login_hint [] now in
      ground (arith, k.same_cfg, admit_start-cfg b₁ r req v now ib cb)

  pub handle_start-cfg :
      (b : Broker L S) (r : Request) (body : Option StartRequest) (now : Time) (ib cb : Option Text)
      → (handle_start L S b r body now ib cb).0.cfg ≡ b.cfg
  unfolding handle_start
  handle_start-cfg b r body now ib cb =
      elim (Option-cases (authenticate b.cfg.client_authenticator r)) [
        | inl c ↦ rw (c, handle_start)
        | inr (v, c) ↦ rw (c, handle_start) (start_request-cfg b r body v now ib cb)
      ]

module _ ⦃sys : Platform⦄ (L : Limiting) (S : Store) (idp : IdentityProvider) where
  start_idp_leg-cfg :
      (b : Broker L S) (r : Request) (s : Session) (now : Time) (fresh : List Text)
      → (start_idp_leg L S idp b r s now fresh).0.cfg ≡ b.cfg
  unfolding start_idp_leg
  start_idp_leg-cfg b r s now fresh = elim (Option-cases (idp.begin_login fresh s).1) [
    | inl e ↦ rw (e, start_idp_leg)
    | inr (url, e) ↦ ground arith
  ]

  verify_state-cfg :
      (st : State) (b : Broker L S) (r : Request) (s : Session) (now : Time) (fresh : List Text)
      → (verify_state L S idp st b r s now fresh).0.cfg ≡ b.cfg
  unfolding verify_state
  verify_state-cfg pending b r s now fresh = start_idp_leg-cfg b r s now fresh
  verify_state-cfg _ b r s now fresh = refl

  pub handle_verify-cfg :
      (b : Broker L S) (r : Request) (id : Text) (now : Time) (fresh : List Text)
      → (handle_verify L S idp b r id now fresh).0.cfg ≡ b.cfg
  unfolding handle_verify
  handle_verify-cfg b r id now fresh = elim (Fetched-cases (S.get b.db now id)) [
    | inl (x, g) ↦ ground arith
    | inr (s, g) ↦
        let t = (expire_if_needed s now).0 in
        ground (arith, g, verify_state-cfg t.state b r t now fresh)
  ]

  after_bind-cfg :
      (b : Broker L S) (r : Request) (s : Session) (e : Option Error) (secret : Text) (now : Time)
      → (after_bind L S idp b r s e secret now).0.cfg ≡ b.cfg
  unfolding after_bind
  after_bind-cfg b r s e secret now =
      let o = observe_event-SameStore L S b identity_mismatch s.login_hint s.id now in
      ground (arith, o.same_cfg)

  bind_login-cfg :
      (b : Broker L S) (r : Request) (s : Session) (i : Identity) (now : Time) (sb cb : Option Text)
      → (bind_login L S idp b r s i now sb cb).0.cfg ≡ b.cfg
  unfolding bind_login
  bind_login-cfg b r s i now sb cb = elim (Option-cases (new_approval_secret sb)) [
    | inl n ↦ rw (n, bind_login)
    | inr (secret, n) ↦
        let (x, err) = bind_identity s i b.cfg.identity_normalizer now (hash_binding secret) cb in
        rw (n, bind_login) (after_bind-cfg (update_quietly L S b now x) r x err secret now)
  ]

  complete_pending-cfg :
      (b : Broker L S) (r : Request) (s : Session) (now : Time) (sb cb : Option Text)
      → (complete_pending L S idp b r s now sb cb).0.cfg ≡ b.cfg
  unfolding complete_pending
  complete_pending-cfg b r s now sb cb = elim (Option-cases (idp.complete_login r s)) [
    | inl c ↦ ground arith
    | inr (i, c) ↦ ground (arith, bind_login-cfg b r s i now sb cb)
  ]

  pub handle_idp_response-cfg :
      (b : Broker L S) (r : Request) (now : Time) (sb cb : Option Text)
      → (handle_idp_response L S idp b r now sb cb).0.cfg ≡ b.cfg
  unfolding handle_idp_response complete_session
  handle_idp_response-cfg b r now sb cb = elim (Option-cases (read_session_cookie r)) [
    | inl c ↦ rw (c, handle_idp_response)
    | inr (id, c) ↦ elim (Fetched-cases (S.get b.db now id)) [
      | inl (x, g) ↦ ground arith
      | inr (s, g) ↦
          let t = (expire_if_needed s now).0 in
          ground (arith, g, complete_pending-cfg b r t now sb cb)
    ]
  ]
