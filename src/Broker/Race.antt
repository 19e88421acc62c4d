-- ===== src/Broker/Race.antt =====
-- Calls on one session that overlap: in handlers.go each reads the session with `store.Get` and later
-- writes it with `store.Update`, and the store holds no lock between the two. `poll_session` and
-- `approve_session` are what a call does once it has read the session.
use xdauth.Broker.{Broker, respond, json_poll}
use xdauth.Broker.Approve.{ApproveRequest, approve_session}
use xdauth.Broker.Approve.Laws.{approved_by, after_approve-db}
use xdauth.Broker.Cookies.{read_approval_cookie, constant_time_string_equal}
use xdauth.Broker.Fixed.{handle_poll-cfg}
use xdauth.Broker.Poll.{PollRequest, poll_session, handle_poll, note_replay}
use xdauth.Broker.Poll.Laws.{poll_step, artifact_ttl_of, after_poll-db, note_replay-db}
use xdauth.Broker.Verify.{update_quietly}
use xdauth.Http.{Request, or_empty}
use xdauth.Machine.{
  Artifact, artifact_of, poll, poll_approved, poll_expired, result, approve, incorrect_code,
}
use xdauth.Machine.Steps.{approve-Frozen}
use xdauth.Pkce.{verify_client_pkce}
use xdauth.Platform.{Platform}
use xdauth.Prelude.{
  ℕ, ◌+◌, ◌≡◌, ap, sym, subst, is_empty, ◌∙◌, Bool, true, false, some, none, arith,
}
use xdauth.Prelude.Int.{pos_part}
use xdauth.RateLimit.{Limiting}
use xdauth.Session.{Time, Identity, Session, approved}
use xdauth.Store.{Store, StoreLaws, Durable, found}
use xdauth.Text.{Text}

module _ ⦃sys : Platform⦄ (L : Limiting) (S : Store) where
  poll_released :
      (s : Session) (v : Text) (now : Time) (ttl : ℕ) (i : Identity)
      → s.state ≡ approved
      → s.consumed ≡ false
      → s.identity ≡ some i
      → verify_client_pkce v s.code_challenge ≡ true
      → (poll s v now ttl).1
        ≡ result
            (record { status = poll_approved; artifact = some (artifact_of i s.identity_at ttl) })
  unfolding poll
  poll_released s v now ttl i a c e p = ground arith

  pub poll_session_released :
      (b : Broker L S) (r : Request) (req : PollRequest) (s : Session) (now : Time) (a : Artifact)
      → (poll s req.code_verifier now (artifact_ttl_of L S b)).1
        ≡ result (record { status = poll_approved; artifact = some a })
      → (poll_session L S b r req s now).1 ≡ respond 200 (json_poll poll_approved (some a))
  unfolding poll_session
  poll_session_released b r req s now a h = ground arith

  poll_consumes :
      (s : Session) (v : Text) (now : Time) (ttl : ℕ)
      → s.state ≡ approved
      → s.consumed ≡ false
      → verify_client_pkce v s.code_challenge ≡ true
      → let t = (poll s v now ttl).0 in (t.state ≡ approved) × (t.consumed ≡ true) × (t.id ≡ s.id)
  unfolding poll
  poll_consumes s v now ttl a c p = ground arith

  poll_used :
      (s : Session) (v : Text) (now : Time) (ttl : ℕ)
      → s.state ≡ approved
      → s.consumed ≡ true
      → (poll s v now ttl).1 ≡ result (record { status = poll_expired; artifact = none })
  unfolding poll
  poll_used s v now ttl a c = ground arith

  poll_session_refused :
      (b : Broker L S) (r : Request) (req : PollRequest) (s : Session) (now : Time)
      → (poll s req.code_verifier now (artifact_ttl_of L S b)).1
        ≡ result (record { status = poll_expired; artifact = none })
      → (poll_session L S b r req s now).1 ≡ respond 200 (json_poll poll_expired none)
  unfolding poll_session
  poll_session_refused b r req s now h = ground arith

  poll_session_writes :
      (b : Broker L S) (r : Request) (req : PollRequest) (s : Session) (now : Time) (a : Artifact)
      → let (s', reply) = poll s req.code_verifier now (artifact_ttl_of L S b) in
        reply ≡ result (record { status = poll_approved; artifact = some a })
        → (poll_session L S b r req s now).0.db ≡ (S.update b.db now s').0
  unfolding poll_session
  poll_session_writes b r req s now a h =
      let (s', reply) = poll s req.code_verifier now (artifact_ttl_of L S b) in
      let b₁ = update_quietly L S b now s' in
      let b₂ = note_replay L S b₁ r s' s.consumed reply now in
      ground (arith, after_poll-db L S b₂ s' reply, note_replay-db L S b₁ r s' s.consumed reply now)

  -- Of two polls with fitting verifiers, over a store that does not fail, the first reads a session
  -- that is approved and unused, and is answered with the artifact. If the second reads the store
  -- after the first has written it, it is answered "expired", without the artifact; but if it has
  -- read the same session before, it is answered with the artifact as well.
  pub overlapping_polls :
      (durable : Durable S) (b : Broker L S) (r q : Request) (first second : PollRequest)
      (s : Session) (i : Identity) (now later : Time)
      → first.session_id ≡ s.id
      → second.session_id ≡ s.id
      → is_empty s.id ≡ false
      → S.get b.db now s.id ≡ found s
      → s.state ≡ approved
      → s.consumed ≡ false
      → s.identity ≡ some i
      → verify_client_pkce first.code_verifier s.code_challenge ≡ true
      → verify_client_pkce second.code_verifier s.code_challenge ≡ true
      → let a = artifact_of i s.identity_at (artifact_ttl_of L S b) in
        let (b', answer) = handle_poll L S b r (some first) now in
        (answer ≡ respond 200 (json_poll poll_approved (some a)))
        × ((handle_poll L S b' q (some second) later).1 ≡ respond 200 (json_poll poll_expired none))
        × ((poll_session L S b' q second s later).1
            ≡ respond 200 (json_poll poll_approved (some a)))
  overlapping_polls durable b r q x y s i now later xi yi ne g st c e p p' =
      let ttl = artifact_ttl_of L S b in
      let a = artifact_of i s.identity_at ttl in
      let b' = (handle_poll L S b r (some x) now).0 in
      let t = (poll s x.code_verifier now ttl).0 in
      let (t_st, t_c, t_id) = poll_consumes s x.code_verifier now ttl st c p in
      let step : handle_poll L S b r (some x) now ≡ poll_session L S b r x s now =
        poll_step L S b r x s now (rw xi ne) (rw xi g) in
      let reply = poll_released s x.code_verifier now ttl i st c e p in
      let wrote : b'.db ≡ (S.update b.db now t).0 =
        ap (λ z. z.0.db) step ∙ poll_session_writes b r x s now a reply in
      let g' : S.get b'.db later y.session_id ≡ found t =
        ap (λ d. S.get d later y.session_id) wrote
        ∙ subst (λ k. S.get (S.update b.db now t).0 later k ≡ found t) (t_id ∙ sym yi)
            (durable.kept b.db now later t s
              (subst (λ k. S.get b.db now k ≡ found s) (sym t_id) g)) in
      let ttl_same : artifact_ttl_of L S b' ≡ ttl =
        ap (λ k. pos_part k.artifact_ttl) (handle_poll-cfg L S b r (some x) now) in
      (
        ap (λ z. z.1) step ∙ poll_session_released b r x s now a reply,
        ap (λ z. z.1) (poll_step L S b' q y t later (rw yi ne) g')
            ∙ poll_session_refused b' q y t later
                (poll_used t y.code_verifier later (artifact_ttl_of L S b') t_st t_c),
        poll_session_released b' q y s later a (
            poll_released s y.code_verifier later (artifact_ttl_of L S b') i st c e p'
            ∙ ap
                (λ n. result (record {
                  status = poll_approved;
                  artifact = some (artifact_of i s.identity_at n);
                }))
                ttl_same),
      )

  incorrect_code_counts :
      (s : Session) (code : Text) (d : Bool) (now : Time) (p : Text)
      → (approve s code d now p).1 ≡ some incorrect_code
      → (approve s code d now p).0.approve_attempts ≡ s.approve_attempts + 1
  unfolding approve
  incorrect_code_counts s code d now p h = ground arith

  pub approve_session-written :
      (b : Broker L S) (r : Request) (req : ApproveRequest) (s : Session) (now : Time)
      → constant_time_string_equal req.csrf_token s.csrf_token ≡ true
      → (approve_session L S b r req s now).0.db
        ≡ (S.update b.db now (approved_by L S r req s now)).0
  unfolding approve_session
  approve_session-written b r req s now e =
      let (s', err) = approve s req.user_code req.approve now (or_empty (read_approval_cookie r)) in
      rw (e, approve_session) (after_approve-db L S (update_quietly L S b now s') r s' err now)

  -- Two forms with wrong codes that both read a session are counted as one: where the store takes the
  -- second one's write, it then holds the session with one more wrong code than before.
  pub overlapping_codes :
      (laws : StoreLaws S) (b : Broker L S) (r q : Request) (first second : ApproveRequest)
      (s : Session) (now later : Time)
      → (approve s first.user_code first.approve now (or_empty (read_approval_cookie r))).1
        ≡ some incorrect_code
      → (approve s second.user_code second.approve later (or_empty (read_approval_cookie q))).1
        ≡ some incorrect_code
      → constant_time_string_equal second.csrf_token s.csrf_token ≡ true
      → let b' = (approve_session L S b r first s now).0 in
        (S.update b'.db later (approved_by L S q second s later)).1 ≡ none
        → (t : Session) × (S.get (approve_session L S b' q second s later).0.db later s.id
            ≡ found t)
          × (t.approve_attempts ≡ s.approve_attempts + 1)
  overlapping_codes laws b r q x y s now later wrong wrong' token done =
      let b' = (approve_session L S b r x s now).0 in
      let t = approved_by L S q y s later in
      let p = or_empty (read_approval_cookie q) in
      (
        t,
        ap (λ d. S.get d later s.id) (approve_session-written b' q y s later token)
            ∙ ap (λ i. S.get (S.update b'.db later t).0 later i)
                (sym (approve-Frozen s y.user_code y.approve later p).same_id)
            ∙ laws.get-update b'.db later t done,
        incorrect_code_counts s y.user_code y.approve later p wrong',
      )
