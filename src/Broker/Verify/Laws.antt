-- ===== src/Broker/Verify/Laws.antt =====
-- What `handleVerify` stores.
use xdauth.Broker.{Broker, IdentityProvider}
use xdauth.Broker.Frame.{Fetched-cases}
use xdauth.Broker.Verify.{handle_verify, verify_state, start_idp_leg}
use xdauth.Http.{Request}
use xdauth.Machine.{expire_if_needed}
use xdauth.Machine.Steps.{expire_kept}
use xdauth.Platform.{Platform}
use xdauth.Prelude.{
  ◌≡◌, refl, ◌∙◌, ◌⊎◌, inl, inr, false, List, arith, Bool-cases, Option-cases, ap, sym, subst,
}
use xdauth.RateLimit.{Limiting}
use xdauth.Session.{Time, State, pending, Session}
use xdauth.Store.{Store, found}
use xdauth.Text.{Text}

module _ ⦃sys : Platform⦄ (L : Limiting) (S : Store) (idp : IdentityProvider) where
  -- What the page of the link may write over a session: that it is expired, or what `BeginLogin`
  -- stores on a pending one.
  pub data Written (now : Time) (s : Session) (fresh : List Text) (x : Session) : Type 0 where
    expired_by : x ≡ (expire_if_needed s now).0 → Written now s fresh x
    begun_by : s.state ≡ pending → x ≡ (idp.begin_login fresh s).0 → Written now s fresh x

  abbrev Wrote : Broker L S → Time → Session → List Text → S.Db → Type 0
  Wrote b now s fresh db =
      (db ≡ b.db) ⊎ ((x : Session) × Written now s fresh x × (db ≡ (S.update b.db now x).0))

  start_idp_leg-db :
      (b : Broker L S) (r : Request) (s : Session) (now : Time) (fresh : List Text)
      → s.state ≡ pending
      → Wrote b now s fresh (start_idp_leg L S idp b r s now fresh).0.db
  unfolding start_idp_leg
  start_idp_leg-db b r s now fresh p = elim (Option-cases (idp.begin_login fresh s).1) [
    | inl e ↦ inl (rw (e, start_idp_leg))
    | inr (url, e) ↦ inr ((idp.begin_login fresh s).0, begun_by p refl, ground arith)
  ]

  verify_state-db :
      (st : State) (b : Broker L S) (r : Request) (s : Session) (now : Time) (fresh : List Text)
      → s.state ≡ st
      → Wrote b now s fresh (verify_state L S idp st b r s now fresh).0.db
  unfolding verify_state
  verify_state-db pending b r s now fresh e = start_idp_leg-db b r s now fresh e
  verify_state-db _ b r s now fresh e = inl refl

  pub handle_verify-step :
      (b : Broker L S) (r : Request) (id : Text) (now : Time) (fresh : List Text) (s : Session)
      → S.get b.db now id ≡ found s
      → (expire_if_needed s now).1 ≡ false
      → handle_verify L S idp b r id now fresh
        ≡ verify_state L S idp
            (expire_if_needed s now).0.state
            b
            r
            (expire_if_needed s now).0
            now
            fresh
  unfolding handle_verify
  handle_verify-step b r id now fresh s g l = ground arith

  handle_verify-found :
      (b : Broker L S) (r : Request) (id : Text) (now : Time) (fresh : List Text) (s : Session)
      → S.get b.db now id ≡ found s
      → Wrote b now s fresh (handle_verify L S idp b r id now fresh).0.db
  unfolding handle_verify
  handle_verify-found b r id now fresh s g = elim (Bool-cases (expire_if_needed s now).1) [
    | inl late ↦ inr ((expire_if_needed s now).0, expired_by refl, ground arith)
    | inr on_time ↦
        subst (λ y. Wrote b now s fresh y.0.db)
          (sym (
            handle_verify-step b r id now fresh s g on_time
            ∙ ap (λ t. verify_state L S idp t.state b r t now fresh) (expire_kept s now on_time)))
          (verify_state-db s.state b r s now fresh refl)
  ]

  -- The page of a link writes nothing, or over the session of the link: that the session is expired,
  -- or what `BeginLogin` stores on a pending session.
  pub handle_verify-db :
      (b : Broker L S) (r : Request) (id : Text) (now : Time) (fresh : List Text)
      → let b' = (handle_verify L S idp b r id now fresh).0 in
        (b'.db ≡ b.db)
        ⊎ ((s : Session) × (x : Session) × (S.get b.db now id ≡ found s)
            × Written now s fresh x
            × (b'.db ≡ (S.update b.db now x).0))
  unfolding handle_verify
  handle_verify-db b r id now fresh = elim (Fetched-cases (S.get b.db now id)) [
    | inl (x, g) ↦ inl (ground arith)
    | inr (s, g) ↦ elim (handle_verify-found b r id now fresh s g) [
      | inl same ↦ inl same
      | inr (x, w, new) ↦ inr (s, x, g, w, new)
    ]
  ]
