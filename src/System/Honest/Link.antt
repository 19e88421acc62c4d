-- ===== src/System/Honest/Link.antt =====
-- The honest login from the link on: `handleVerify`, then the calls of `Honest`.
use xdauth.Broker.{Broker, IdentityProvider, respond, json_poll}
use xdauth.Broker.Approve.{approve_request}
use xdauth.Broker.Cookies.{read_session_cookie, read_approval_cookie}
use xdauth.Broker.Fixed.{handle_verify-cfg}
use xdauth.Broker.Verify.{handle_verify, verify_state, start_idp_leg}
use xdauth.Broker.Verify.Laws.{handle_verify-step}
use xdauth.Http.{Request}
use xdauth.Machine.{artifact_of, poll_approved, normalizer_of}
use xdauth.Machine.Steps.{expire_kept}
use xdauth.Machine.Trace.{begin_login}
use xdauth.Pkce.{verify_client_pkce}
use xdauth.Platform.{Platform}
use xdauth.Prelude.{◌≤◌, ◌≡◌, sym, ap, ◌∙◌, subst, true, false, List, some, arith, is_empty}
use xdauth.Prelude.Int.{pos_part}
use xdauth.RateLimit.{Limiting}
use xdauth.Session.{Time, pending, Identity, Session}
use xdauth.Store.{Store, Durable, found}
use xdauth.System.{IdpLaws, verify_call, callback_call, approve_call, poll_call, serve}
use xdauth.System.Honest.{fresh_is_not_expired, honest_calls}
use xdauth.Text.{Text}
use xdauth.Text.Encoding.{hex}

module _ ⦃sys : Platform⦄ (L : Limiting) (S : Store) (idp : IdentityProvider) where
  leg_begins :
      (b : Broker L S) (r : Request) (s : Session) (now : Time) (fresh : List Text) (url : Text)
      → (idp.begin_login fresh s).1 ≡ some url
      → (start_idp_leg L S idp b r s now fresh).0.db
        ≡ (S.update b.db now (idp.begin_login fresh s).0).0
  unfolding start_idp_leg
  leg_begins b r s now fresh url e = ground arith

  link_begins :
      (b : Broker L S) (r : Request) (s : Session) (now : Time) (fresh : List Text) (url : Text)
      → S.get b.db now s.id ≡ found s
      → s.state ≡ pending
      → now ≤ s.expires_at
      → (idp.begin_login fresh s).1 ≡ some url
      → (handle_verify L S idp b r s.id now fresh).0.db
        ≡ (S.update b.db now (idp.begin_login fresh s).0).0
  unfolding verify_state
  link_begins b r s now fresh url g p l e =
      let on_time = fresh_is_not_expired s now p l in
      ap (λ y. y.0.db)
        (handle_verify-step L S idp b r s.id now fresh s g on_time
          ∙ ap (λ t. verify_state L S idp t.state b r t now fresh) (expire_kept s now on_time)
          ∙ ap (λ st. verify_state L S idp st b r s now fresh) p)
      ∙ leg_begins b r s now fresh url e

  -- Over a store that does not fail, a pending session, unused: if before the expiry its link is
  -- opened, and the provider takes the login up, signs the user in at the callback with an identity
  -- that matches the login hint, and the same browser sends the form, with the session's code, the
  -- token of the page and the decision "approve", then a poll with a verifier that fits the
  -- challenge is answered with the artifact.
  pub honest_link :
      (laws : IdpLaws idp) (durable : Durable S) (b : Broker L S) (s : Session) (i : Identity)
      (sb cb v url : Text) (fresh : List Text) (opened callback form asked : Request)
      (m : List (Text × Text)) (t₀ t₁ t₂ t₃ : Time)
      → S.get b.db t₀ s.id ≡ found s
      → s.state ≡ pending
      → s.consumed ≡ false
      → t₀ ≤ s.expires_at
      → t₁ ≤ s.expires_at
      → t₂ ≤ s.expires_at
      → (idp.begin_login fresh s).1 ≡ some url
      → read_session_cookie callback ≡ some s.id
      → idp.complete_login callback (idp.begin_login fresh s).0 ≡ some i
      → normalizer_of b.cfg.identity_normalizer i.value
        ≡ normalizer_of b.cfg.identity_normalizer s.login_hint
      → read_session_cookie form ≡ some s.id
      → read_approval_cookie form ≡ some (hex sb)
      → form.form ≡ some m
      → approve_request form s.id
        ≡ record { session_id = s.id; user_code = s.user_code; csrf_token = hex cb; approve = true }
      → is_empty cb ≡ false
      → verify_client_pkce v s.code_challenge ≡ true
      → let b₀ = (serve L S idp b (verify_call opened s.id t₀ fresh)).0 in
        let b₁ = (serve L S idp b₀ (callback_call callback t₁ (some sb) (some cb))).0 in
        let b₂ = (serve L S idp b₁ (approve_call form t₂)).0 in
        (serve L S idp b₂
          (poll_call asked (some (record { session_id = s.id; code_verifier = v })) t₃)).1
        ≡ respond 200
            (json_poll poll_approved (some (artifact_of i t₁ (pos_part b.cfg.artifact_ttl))))
  unfolding serve
  honest_link laws durable b s i sb cb v url fresh ro rc rf rp m t₀ t₁ t₂ t₃ g p c l₀ l₁ l₂ begins
        ck li same cf af ff rq full w =
      let b₀ = (handle_verify L S idp b ro s.id t₀ fresh).0 in
      let cfg : b₀.cfg ≡ b.cfg = handle_verify-cfg L S idp b ro s.id t₀ fresh in
      let (pr, st, nc, pk, ri, e) = laws.begins fresh s in
      let x = begin_login s pr st nc pk ri in
      let wrote : b₀.db ≡ (S.update b.db t₀ x).0 =
        link_begins b ro s t₀ fresh url g p l₀ begins ∙ ap (λ y. (S.update b.db t₀ y).0) e in
      let g₁ : S.get b₀.db t₁ s.id ≡ found x =
        ap (λ d. S.get d t₁ s.id) wrote ∙ durable.kept b.db t₀ t₁ x s g in
      honest_calls L S idp durable b₀ x i sb cb v rc rf rp m t₁ t₂ t₃ g₁ p c l₁ l₂ ck
        (subst (λ y. idp.complete_login rc y ≡ some i) e li)
        (subst
          (λ k.
            normalizer_of k.identity_normalizer i.value
            ≡ normalizer_of k.identity_normalizer s.login_hint)
          (sym cfg) same)
        cf af ff rq full w
      ∙ ap
          (λ k.
            respond 200
              (json_poll poll_approved (some (artifact_of i t₁ (pos_part k.artifact_ttl)))))
          cfg
