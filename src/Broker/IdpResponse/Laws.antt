-- ===== src/Broker/IdpResponse/Laws.antt =====
-- What `handleIdPResponse` stores.
use xdauth.Broker.{Broker, IdentityProvider}
use xdauth.Broker.Cookies.{read_session_cookie}
use xdauth.Broker.Frame.{observe_event-SameStore, Fetched-cases}
use xdauth.Broker.IdpResponse.{
  handle_idp_response, complete_session, complete_pending, bind_login, after_bind,
}
use xdauth.Broker.Verify.{update_quietly}
use xdauth.Detect.{identity_mismatch}
use xdauth.Http.{Request}
use xdauth.Machine.{Error, expire_if_needed, bind_identity, new_approval_secret, state_eq}
use xdauth.Machine.Steps.{expire_kept}
use xdauth.Pkce.{hash_binding}
use xdauth.Platform.{Platform}
use xdauth.Prelude.{
  ◌≡◌, refl, ◌∙◌, ◌⊎◌, inl, inr, true, false, Option, some, arith, Bool-cases, Option-cases, ap,
  sym, subst,
}
use xdauth.RateLimit.{Limiting}
use xdauth.Session.{Time, Identity, Session, pending}
use xdauth.Store.{Store, found}
use xdauth.Text.{Text}

module _ ⦃sys : Platform⦄ (L : Limiting) (S : Store) (idp : IdentityProvider) where
  pub after_bind-db :
      (b : Broker L S) (r : Request) (s : Session) (e : Option Error) (secret : Text) (now : Time)
      → (after_bind L S idp b r s e secret now).0.db ≡ b.db
  unfolding after_bind
  after_bind-db b r s e secret now =
      let o = observe_event-SameStore L S b identity_mismatch s.login_hint s.id now in
      ground (arith, o.same_db)

  -- What a callback may write over a session: the session expired, or the identity that the
  -- provider vouches for bound under a fresh secret.
  pub data Written (b : Broker L S) (r : Request) (now : Time) (s : Session) (sb cb : Option Text)
      (x : Session) : Type 0 where
    expired_by : x ≡ (expire_if_needed s now).0 → Written b r now s sb cb x
    bound_by :
        (i : Identity) (secret : Text)
        → idp.complete_login r s ≡ some i
        → new_approval_secret sb ≡ some secret
        → x ≡ (bind_identity s i b.cfg.identity_normalizer now (hash_binding secret) cb).0
        → Written b r now s sb cb x

  -- The broker's store holds what it held, or `x` was written over a session `s` that was found.
  abbrev Wrote : Broker L S → Request → Time → Session → Option Text → Option Text → S.Db → Type 0
  Wrote b r now s sb cb db =
      (db ≡ b.db) ⊎ ((x : Session) × Written b r now s sb cb x × (db ≡ (S.update b.db now x).0))

  bind_login-db :
      (b : Broker L S) (r : Request) (s : Session) (i : Identity) (now : Time) (sb cb : Option Text)
      → idp.complete_login r s ≡ some i
      → Wrote b r now s sb cb (bind_login L S idp b r s i now sb cb).0.db
  unfolding bind_login
  bind_login-db b r s i now sb cb c = elim (Option-cases (new_approval_secret sb)) [
    | inl n ↦ inl (rw (n, bind_login))
    | inr (secret, n) ↦
        let (x, err) = bind_identity s i b.cfg.identity_normalizer now (hash_binding secret) cb in
        inr (
          x,
          bound_by i secret c n refl,
          rw (n, bind_login) (after_bind-db (update_quietly L S b now x) r x err secret now),
        )
  ]

  pub complete_pending-step :
      (b : Broker L S) (r : Request) (s : Session) (i : Identity) (now : Time) (sb cb : Option Text)
      → state_eq s.state pending ≡ true
      → idp.complete_login r s ≡ some i
      → complete_pending L S idp b r s now sb cb ≡ bind_login L S idp b r s i now sb cb
  unfolding complete_pending
  complete_pending-step b r s i now sb cb p c = ground arith

  complete_pending-db :
      (b : Broker L S) (r : Request) (s : Session) (now : Time) (sb cb : Option Text)
      → Wrote b r now s sb cb (complete_pending L S idp b r s now sb cb).0.db
  unfolding complete_pending
  complete_pending-db b r s now sb cb = elim (Bool-cases (state_eq s.state pending)) [
    | inr p ↦ inl (rw (p, complete_pending))
    | inl p ↦ elim (Option-cases (idp.complete_login r s)) [
      | inl c ↦ inl (ground arith)
      | inr (i, c) ↦
          subst (λ y. Wrote b r now s sb cb y.0.db)
            (sym (complete_pending-step b r s i now sb cb p c)) (bind_login-db b r s i now sb cb c)
    ]
  ]

  pub complete_session-step :
      (b : Broker L S) (r : Request) (id : Text) (s : Session) (now : Time) (sb cb : Option Text)
      → S.get b.db now id ≡ found s
      → (expire_if_needed s now).1 ≡ false
      → complete_session L S idp b r id now sb cb
        ≡ complete_pending L S idp b r (expire_if_needed s now).0 now sb cb
  unfolding complete_session
  complete_session-step b r id s now sb cb g l = ground arith

  complete_session-db :
      (b : Broker L S) (r : Request) (id : Text) (s : Session) (now : Time) (sb cb : Option Text)
      → S.get b.db now id ≡ found s
      → Wrote b r now s sb cb (complete_session L S idp b r id now sb cb).0.db
  unfolding complete_session
  complete_session-db b r id s now sb cb g = elim (Bool-cases (expire_if_needed s now).1) [
    | inl late ↦ inr ((expire_if_needed s now).0, expired_by refl, ground arith)
    | inr fresh ↦
        subst (λ y. Wrote b r now s sb cb y.0.db)
          (sym (
            complete_session-step b r id s now sb cb g fresh
            ∙ ap (λ t. complete_pending L S idp b r t now sb cb) (expire_kept s now fresh)))
          (complete_pending-db b r s now sb cb)
  ]

  -- A callback writes nothing, or over the session of its cookie: that the session is expired, or
  -- the identity that the provider vouches for, bound under a fresh secret.
  pub handle_idp_response-db :
      (b : Broker L S) (r : Request) (now : Time) (sb cb : Option Text)
      → let b' = (handle_idp_response L S idp b r now sb cb).0 in
        (b'.db ≡ b.db)
        ⊎ ((id : Text) × (s : Session) × (x : Session) × (read_session_cookie r ≡ some id)
            × (S.get b.db now id ≡ found s)
            × Written b r now s sb cb x
            × (b'.db ≡ (S.update b.db now x).0))
  unfolding handle_idp_response
  handle_idp_response-db b r now sb cb = elim (Option-cases (read_session_cookie r)) [
    | inl c ↦ inl (rw (c, handle_idp_response))
    | inr (id, c) ↦ elim (Fetched-cases (S.get b.db now id)) [
      | inl (x, g) ↦ inl (ground arith)
      | inr (s, g) ↦ elim (complete_session-db b r id s now sb cb g) [
        | inl same ↦ inl (rw (c, handle_idp_response) same)
        | inr (x, w, new) ↦ inr (id, s, x, c, g, w, rw (c, handle_idp_response) new)
      ]
    ]
  ]
