-- ===== src/Broker/Start/Guards.antt =====
-- What `handleStart` lets through, and what it stores.
use xdauth.Broker.{Broker, observe_event}
use xdauth.Broker.Frame.{SameStore, observe_event-SameStore}
use xdauth.Broker.Start.{
  StartRequest, authenticate, lacks_field, bad_method, allow_start, start_params, persist_session,
  create_session, admit_start, start_request, handle_start,
}
use xdauth.ClientIp.{resolve_client_ip, is_allowed_client}
use xdauth.Config.{Config}
use xdauth.Detect.{repeated_start}
use xdauth.Http.{Request}
use xdauth.Machine.{StartParams, new_session}
use xdauth.Platform.{Platform}
use xdauth.Prelude.{
  ◌≡◌, refl, ◌∙◌, ◌⊎◌, inl, inr, Bool, true, false, [], Option, none, some, arith, Bool-cases,
  Option-cases, ap, sym, subst,
}
use xdauth.Prelude.Int.{pos_part}
use xdauth.RateLimit.{Limiting}
use xdauth.Session.{Time, Session}
use xdauth.Store.{Store}
use xdauth.Text.{Text}

module _ ⦃sys : Platform⦄ (L : Limiting) (S : Store) where
  -- The new session of a start of this configuration.
  abbrev pub session_of :
      Config L → Request → StartRequest → Text → Time → Option Text → Option Text → Option Session
  session_of cfg r req verified now ib cb =
      new_session (start_params L S req (resolve_client_ip r cfg.trusted_proxies) verified)
        (pos_part cfg.session_ttl) (pos_part cfg.poll_interval) now ib cb

  abbrev pub from_allowed_network : Config L → Request → Bool
  from_allowed_network cfg r =
      is_allowed_client (resolve_client_ip r cfg.trusted_proxies) cfg.allowed_client_cidrs

  -- What a start with this request writes.
  abbrev Wrote :
      Config L
      → S.Db
      → Request
      → StartRequest
      → Text
      → Time
      → Option Text
      → Option Text
      → S.Db
      → Type 0
  Wrote cfg db r req verified now ib cb db' =
      (db' ≡ db)
      ⊎ ((s : Session) × (from_allowed_network cfg r ≡ true)
          × (session_of cfg r req verified now ib cb ≡ some s)
          × (db' ≡ (S.create db now s).0))

  persist_session-db :
      (b : Broker L S) (s : Session) (now : Time)
      → (persist_session L S b s now).0.db ≡ (S.create b.db now s).0
  unfolding persist_session
  persist_session-db b s now = ground arith

  create_session-db :
      (b : Broker L S) (p : StartParams) (now : Time) (ib cb : Option Text)
      → let b' = (create_session L S b p now ib cb).0 in
        (b'.db ≡ b.db)
        ⊎ ((s : Session) × (new_session p
                (pos_part b.cfg.session_ttl)
                (pos_part b.cfg.poll_interval)
                now
                ib
                cb
              ≡ some s)
            × (b'.db ≡ (S.create b.db now s).0))
  unfolding create_session
  create_session-db b p now ib cb =
      elim (Option-cases
        (new_session p (pos_part b.cfg.session_ttl) (pos_part b.cfg.poll_interval) now ib cb)) [
          | inl e ↦ inl (rw (e, create_session))
          | inr (s, e) ↦ inr (s, e, rw (e, create_session) (persist_session-db b s now))
        ]

  pub allow_start-SameStore :
      (b : Broker L S) (ip hint : Text) (now : Time)
      → SameStore L S b (allow_start L S b ip hint now).0
  unfolding allow_start
  allow_start-SameStore b ip hint now = record { same_db = ground arith; same_cfg = ground arith }

  pub admit_start-step :
      (b : Broker L S) (r : Request) (req : StartRequest) (v : Text) (now : Time)
      (ib cb : Option Text)
      → let ip = resolve_client_ip r b.cfg.trusted_proxies in
        from_allowed_network b.cfg r ≡ true
        → (allow_start L S b ip req.login_hint now).1 ≡ true
        → admit_start L S b r req v now ib cb
          ≡ create_session L S
              (allow_start L S b ip req.login_hint now).0
              (start_params L S req ip v)
              now
              ib
              cb
  unfolding admit_start
  admit_start-step b r req v now ib cb n a = ground arith

  admit_start-db :
      (b : Broker L S) (r : Request) (req : StartRequest) (v : Text) (now : Time)
      (ib cb : Option Text)
      → Wrote b.cfg b.db r req v now ib cb (admit_start L S b r req v now ib cb).0.db
  unfolding admit_start
  admit_start-db b r req v now ib cb =
      let ip = resolve_client_ip r b.cfg.trusted_proxies in
      let b₁ = (allow_start L S b ip req.login_hint now).0 in
      let k = allow_start-SameStore b ip req.login_hint now in
      elim (Bool-cases (from_allowed_network b.cfg r)) [
        | inr n ↦ inl (ground arith)
        | inl n ↦ elim (Bool-cases (allow_start L S b ip req.login_hint now).1) [
          | inr a ↦ inl (ground (arith, k.same_db))
          | inl a ↦
              let step = admit_start-step b r req v now ib cb n a in
              elim (create_session-db b₁ (start_params L S req ip v) now ib cb) [
                | inl same ↦ inl (ap (λ y. y.0.db) step ∙ same ∙ k.same_db)
                | inr (s, made, new) ↦ inr (
                  s,
                  n,
                  rw k.same_cfg at made,
                  ap (λ y. y.0.db) step ∙ new ∙ ap (λ d. (S.create d now s).0) k.same_db,
                )
              ]
        ]
      ]

  Wrote-SameStore :
      (b₁ b : Broker L S) (r : Request) (req : StartRequest) (v : Text) (now : Time)
      (ib cb : Option Text) (db : S.Db)
      → b₁.cfg ≡ b.cfg
      → b₁.db ≡ b.db
      → Wrote b₁.cfg b₁.db r req v now ib cb db
      → Wrote b.cfg b.db r req v now ib cb db
  Wrote-SameStore b₁ b r req v now ib cb db c d w =
      subst (λ x. Wrote x b.db r req v now ib cb db) c
        (subst (λ x. Wrote b₁.cfg x r req v now ib cb db) d w)

  pub start_request-step :
      (b : Broker L S) (r : Request) (req : StartRequest) (v : Text) (now : Time)
      (ib cb : Option Text)
      → lacks_field req ≡ false
      → bad_method req ≡ false
      → start_request L S b r (some req) v now ib cb
        ≡ admit_start L S
            (observe_event L S b repeated_start req.login_hint [] now)
            r
            req
            v
            now
            ib
            cb
  unfolding start_request
  start_request-step b r req v now ib cb p q = ground arith

  start_request-db :
      (b : Broker L S) (r : Request) (req : StartRequest) (v : Text) (now : Time)
      (ib cb : Option Text)
      → let b' = (start_request L S b r (some req) v now ib cb).0 in
        (b'.db ≡ b.db)
        ⊎ ((lacks_field req ≡ false)
            × (bad_method req ≡ false)
            × Wrote b.cfg b.db r req v now ib cb b'.db)
  unfolding start_request
  start_request-db b r req v now ib cb =
      let b₁ = observe_event L S b repeated_start req.login_hint [] now in
      let k = observe_event-SameStore L S b repeated_start req.login_hint [] now in
      elim (Bool-cases (lacks_field req)) [
        | inl p ↦ inl (ground arith)
        | inr p ↦ elim (Bool-cases (bad_method req)) [
          | inl q ↦ inl (ground arith)
          | inr q ↦ inr (
            p,
            q,
            subst (λ y. Wrote b.cfg b.db r req v now ib cb y.0.db)
                (sym (start_request-step b r req v now ib cb p q))
                (Wrote-SameStore b₁ b r req v now ib cb _ k.same_cfg k.same_db
                  (admit_start-db b₁ r req v now ib cb)),
          )
        ]
      ]

  -- A start writes nothing, or one new session under its id; and then only for a caller that the
  -- authenticator let through, with a login hint and a challenge by S256, from an allowed network.
  -- The session is `newSession`'s for this request, the resolved address and the verified caller.
  pub handle_start-db :
      (b : Broker L S) (r : Request) (body : Option StartRequest) (now : Time) (ib cb : Option Text)
      → let b' = (handle_start L S b r body now ib cb).0 in
        (b'.db ≡ b.db)
        ⊎ ((req : StartRequest) × (verified : Text) × (s : Session) × (authenticate
                b.cfg.client_authenticator r
              ≡ some verified)
            × (body ≡ some req)
            × (lacks_field req ≡ false)
            × (bad_method req ≡ false)
            × (from_allowed_network b.cfg r ≡ true)
            × (session_of b.cfg r req verified now ib cb ≡ some s)
            × (b'.db ≡ (S.create b.db now s).0))
  unfolding handle_start
  handle_start-db b r none now ib cb = inl (ground arith)
  handle_start-db b r (some req) now ib cb =
      elim (Option-cases (authenticate b.cfg.client_authenticator r)) [
        | inl c ↦ inl (rw (c, handle_start))
        | inr (v, c) ↦ elim (start_request-db b r req v now ib cb) [
          | inl same ↦ inl (rw (c, handle_start) same)
          | inr (p, q, inl same) ↦ inl (rw (c, handle_start) same)
          | inr (p, q, inr (s, n, made, new)) ↦
              inr (req, v, s, c, refl, p, q, n, made, rw (c, handle_start) new)
        ]
      ]
