-- ===== src/Broker/Poll/Laws.antt =====
-- What `handlePoll` stores and answers.
use xdauth.Broker.{Broker, json_poll}
use xdauth.Broker.Frame.{observe_event-SameStore, Fetched-cases}
use xdauth.Broker.Poll.{PollRequest, hands_out, handle_poll, poll_session, after_poll, note_replay}
use xdauth.Broker.Verify.{update_quietly}
use xdauth.ClientIp.{resolve_client_ip}
use xdauth.Detect.{consumed_replay}
use xdauth.Http.{Request}
use xdauth.Machine.{poll_approved, PollReply, Artifact, result, poll}
use xdauth.Machine.Trace.{is_release}
use xdauth.Platform.{Platform}
use xdauth.Prelude.{
  ℕ, ◌≡◌, refl, ◌⊎◌, inl, inr, Bool, true, false, Option, none, some, arith, is_empty, Bool-cases,
}
use xdauth.Prelude.Int.{pos_part}
use xdauth.RateLimit.{Limiting}
use xdauth.Session.{Time, Session}
use xdauth.Store.{Store, found}

module _ ⦃sys : Platform⦄ (L : Limiting) (S : Store) where
  abbrev pub artifact_ttl_of : Broker L S → ℕ
  artifact_ttl_of b = pos_part b.cfg.artifact_ttl

  pub note_replay-db :
      (b : Broker L S) (r : Request) (s : Session) (c : Bool) (x : PollReply) (now : Time)
      → (note_replay L S b r s c x now).db ≡ b.db
  unfolding note_replay
  note_replay-db b r s c x now =
      let ip = resolve_client_ip r b.cfg.trusted_proxies in
      let o = observe_event-SameStore L S b consumed_replay ip s.id now in ground (arith, o.same_db)

  pub after_poll-db :
      (b : Broker L S) (s : Session) (x : PollReply) → (after_poll L S b s x).0.db ≡ b.db
  unfolding after_poll
  after_poll-db b s x = ground arith

  poll_session-db :
      (b : Broker L S) (r : Request) (req : PollRequest) (s : Session) (now : Time)
      → let b' = (poll_session L S b r req s now).0 in
        (b'.db ≡ b.db)
        ⊎ (b'.db ≡ (S.update b.db now (poll s req.code_verifier now (artifact_ttl_of b)).0).0)
  unfolding poll_session
  poll_session-db b r req s now =
      let (s', reply) = poll s req.code_verifier now (artifact_ttl_of b) in
      let b₁ = update_quietly L S b now s' in
      let b₂ = note_replay L S b₁ r s' s.consumed reply now in
      ground (arith, after_poll-db b₂ s' reply, note_replay-db b₁ r s' s.consumed reply now)

  -- A poll writes nothing, or the session that it found as `poll` leaves it.
  pub handle_poll-db :
      (b : Broker L S) (r : Request) (body : Option PollRequest) (now : Time)
      → let b' = (handle_poll L S b r body now).0 in
        (b'.db ≡ b.db)
        ⊎ ((req : PollRequest) × (s : Session) × (body ≡ some req)
            × (S.get b.db now req.session_id ≡ found s)
            × (b'.db ≡ (S.update b.db now (poll s req.code_verifier now (artifact_ttl_of b)).0).0))
  unfolding handle_poll
  handle_poll-db b r none now = inl refl
  handle_poll-db b r (some req) now = elim (Bool-cases (is_empty req.session_id)) [
    | inl e ↦ inl (rw e)
    | inr e ↦ elim (Fetched-cases (S.get b.db now req.session_id)) [
      | inl (x, g) ↦ inl (ground arith)
      | inr (s, g) ↦ elim (poll_session-db b r req s now) [
        | inl same ↦ inl (rw (e, g, handle_poll) same)
        | inr new ↦ inr (req, s, refl, g, rw (e, g, handle_poll) new)
      ]
    ]
  ]

  poll_session-artifact :
      (b : Broker L S) (r : Request) (req : PollRequest) (s : Session) (now : Time) (a : Artifact)
      → (poll_session L S b r req s now).1.body ≡ json_poll poll_approved (some a)
      → (poll s req.code_verifier now (artifact_ttl_of b)).1
        ≡ result (record { status = poll_approved; artifact = some a })
  unfolding poll_session
  poll_session-artifact b r req s now a h = ground arith

  -- An answer with an artifact is that of `poll` on the session that was found.
  pub handle_poll-artifact :
      (b : Broker L S) (r : Request) (body : Option PollRequest) (now : Time) (a : Artifact)
      → (handle_poll L S b r body now).1.body ≡ json_poll poll_approved (some a)
      → (req : PollRequest) × (s : Session) × (body ≡ some req)
        × (S.get b.db now req.session_id ≡ found s)
        × ((poll s req.code_verifier now (artifact_ttl_of b)).1
            ≡ result (record { status = poll_approved; artifact = some a }))
  unfolding handle_poll
  handle_poll-artifact b r none now a h = absurd (ground arith)
  handle_poll-artifact b r (some req) now a h = elim (Bool-cases (is_empty req.session_id)) [
    | inl e ↦ absurd (ground arith)
    | inr e ↦ elim (Fetched-cases (S.get b.db now req.session_id)) [
      | inl (x, g) ↦ absurd (ground arith)
      | inr (s, g) ↦
          (req, s, refl, g, poll_session-artifact b r req s now a (rw (e, g, handle_poll) at h))
    ]
  ]

  poll_session-handed :
      (b : Broker L S) (r : Request) (req : PollRequest) (s : Session) (now : Time)
      → let (b', answer) = poll_session L S b r req s now in
        let (s', reply) = poll s req.code_verifier now (artifact_ttl_of b) in
        hands_out answer.body ≡ true
        → (is_release reply ≡ true) × (b'.db ≡ (S.update b.db now s').0)
  unfolding poll_session
  poll_session-handed b r req s now h =
      let (s', reply) = poll s req.code_verifier now (artifact_ttl_of b) in
      let b₁ = update_quietly L S b now s' in
      let b₂ = note_replay L S b₁ r s' s.consumed reply now in
      (
        ground arith,
        ground (arith, after_poll-db b₂ s' reply, note_replay-db b₁ r s' s.consumed reply now),
      )

  -- A poll that is answered with an artifact has found the session, for which `poll` says "approved",
  -- and writes it as `poll` leaves it.
  pub handle_poll-handed :
      (b : Broker L S) (r : Request) (body : Option PollRequest) (now : Time)
      → let (b', answer) = handle_poll L S b r body now in
        hands_out answer.body ≡ true
        → (req : PollRequest) × (s : Session) × (body ≡ some req)
          × (S.get b.db now req.session_id ≡ found s)
          × (is_release (poll s req.code_verifier now (artifact_ttl_of b)).1 ≡ true)
          × (b'.db ≡ (S.update b.db now (poll s req.code_verifier now (artifact_ttl_of b)).0).0)
  unfolding handle_poll
  handle_poll-handed b r none now h = absurd (ground arith)
  handle_poll-handed b r (some req) now h = elim (Bool-cases (is_empty req.session_id)) [
    | inl e ↦ absurd (ground arith)
    | inr e ↦ elim (Fetched-cases (S.get b.db now req.session_id)) [
      | inl (x, g) ↦ absurd (ground arith)
      | inr (s, g) ↦
          let (p, q) = poll_session-handed b r req s now (rw (e, g, handle_poll) at h) in
          (req, s, refl, g, p, rw (e, g, handle_poll) q)
    ]
  ]

  poll_session-filled :
      (b : Broker L S) (r : Request) (req : PollRequest) (s : Session) (now : Time)
      (o : Option Artifact)
      → (poll_session L S b r req s now).1.body ≡ json_poll poll_approved o
      → (a : Artifact) × (o ≡ some a)
  unfolding poll_session poll
  poll_session-filled b r req s now (some a) h = (a, refl)
  poll_session-filled b r req s now none h = absurd (ground arith)

  -- An answer "approved" has an artifact.
  pub handle_poll-filled :
      (b : Broker L S) (r : Request) (body : Option PollRequest) (now : Time) (o : Option Artifact)
      → (handle_poll L S b r body now).1.body ≡ json_poll poll_approved o
      → (a : Artifact) × (o ≡ some a)
  unfolding handle_poll
  handle_poll-filled b r none now o h = absurd (ground arith)
  handle_poll-filled b r (some req) now o h = elim (Bool-cases (is_empty req.session_id)) [
    | inl e ↦ absurd (ground arith)
    | inr e ↦ elim (Fetched-cases (S.get b.db now req.session_id)) [
      | inl (x, g) ↦ absurd (ground arith)
      | inr (s, g) ↦ poll_session-filled b r req s now o (rw (e, g, handle_poll) at h)
    ]
  ]

  pub poll_step :
      (b : Broker L S) (r : Request) (req : PollRequest) (s : Session) (now : Time)
      → is_empty req.session_id ≡ false
      → S.get b.db now req.session_id ≡ found s
      → handle_poll L S b r (some req) now ≡ poll_session L S b r req s now
  unfolding handle_poll
  poll_step b r req s now e g = ground arith
