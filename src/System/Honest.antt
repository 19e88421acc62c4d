-- ===== src/System/Honest.antt =====
-- The honest login through handlers.go: the callback, the form and the poll of one session, over a
-- store that does not fail.
pub mod Link
pub mod Start
use xdauth.Broker.{Broker, IdentityProvider, respond, json_poll}
use xdauth.Broker.Approve.{ApproveRequest, approve_request, approve_session, handle_approve}
use xdauth.Broker.Approve.Laws.{handle_approve-step, constant_time_string_equal_refl}
use xdauth.Broker.Cookies.{read_session_cookie, read_approval_cookie, constant_time_string_equal}
use xdauth.Broker.Fixed.{handle_idp_response-cfg, handle_approve-cfg}
use xdauth.Broker.IdpResponse.{handle_idp_response, bind_login, complete_session, complete_pending}
use xdauth.Broker.IdpResponse.Laws.{after_bind-db, complete_pending-step, complete_session-step}
use xdauth.Broker.Poll.Laws.{poll_step}
use xdauth.Broker.Poll.{PollRequest, handle_poll, poll_session}
use xdauth.Broker.Race.{poll_session_released, approve_session-written}
use xdauth.Broker.Verify.{update_quietly}
use xdauth.Http.{Request, or_empty}
use xdauth.Machine.{
  artifact_of, poll_approved, normalizer_of, bind_identity, approve, poll, result, expire_if_needed,
  new_approval_secret, new_csrf_token, state_eq,
}
use xdauth.Machine.Flow.{honest_login}
use xdauth.Machine.Steps.{bind_identity-Frozen, approve-Frozen, expire_kept}
use xdauth.Machine.Trace.{step, run}
use xdauth.Pkce.{hash_binding, verify_client_pkce}
use xdauth.Platform.{Platform}
use xdauth.Prelude.{
  ◌≤◌, ◌≡◌, refl, sym, ap, ◌∙◌, subst, true, false, List, [], ◌∷◌, Option, some, arith, is_empty,
}
use xdauth.Prelude.Int.{pos_part}
use xdauth.RateLimit.{Limiting}
use xdauth.Session.{Time, pending, Identity, Session}
use xdauth.Store.{Store, Durable, found}
use xdauth.System.{callback_call, approve_call, poll_call, serve}
use xdauth.Text.{Text}
use xdauth.Text.Encoding.{hex}
use xdauth.Text.Laws.{text_eq_iff}

hex_nonempty : (t : Text) → is_empty t ≡ false → is_empty (hex t) ≡ false
unfolding hex
hex_nonempty [] e = e
hex_nonempty (c ∷ t) e = refl

-- The session id of a cookie is not empty.
read_session_cookie_nonempty :
    (r : Request) (id : Text) → read_session_cookie r ≡ some id → is_empty id ≡ false
unfolding read_session_cookie
read_session_cookie_nonempty r id h = ground arith

pub fresh_is_not_expired :
    (s : Session) (now : Time)
    → s.state ≡ pending
    → now ≤ s.expires_at
    → (expire_if_needed s now).1 ≡ false
unfolding expire_if_needed
fresh_is_not_expired s now p l = ground arith

module _ ⦃sys : Platform⦄ where
  -- The token of the form that is rendered after a matching identity is bound.
  bind_identity-csrf_token :
      (s : Session) (i : Identity) (f : Option (Text → Text)) (now : Time) (h b : Text)
      → s.state ≡ pending
      → now ≤ s.expires_at
      → normalizer_of f i.value ≡ normalizer_of f s.login_hint
      → (bind_identity s i f now h (some b)).0.csrf_token ≡ hex b
  unfolding bind_identity new_csrf_token
  bind_identity-csrf_token s i f now h b p l e =
      ground (arith, text_eq_iff (normalizer_of f i.value) (normalizer_of f s.login_hint))

module _ ⦃sys : Platform⦄ (L : Limiting) (S : Store) (idp : IdentityProvider) where
  bind_login-bound :
      (b : Broker L S) (r : Request) (s : Session) (i : Identity) (now : Time) (sb cb : Text)
      → (bind_login L S idp b r s i now (some sb) (some cb)).0.db
        ≡ (S.update b.db now
            (bind_identity s i b.cfg.identity_normalizer now (hash_binding (hex sb)) (some cb)).0).0
  unfolding bind_login new_approval_secret
  bind_login-bound b r s i now sb cb =
      let (x, e) =
        bind_identity s i b.cfg.identity_normalizer now (hash_binding (hex sb)) (some cb) in
      after_bind-db L S idp (update_quietly L S b now x) r x e (hex sb) now

  callback_binds :
      (b : Broker L S) (r : Request) (s : Session) (i : Identity) (now : Time) (sb cb : Text)
      → read_session_cookie r ≡ some s.id
      → S.get b.db now s.id ≡ found s
      → s.state ≡ pending
      → now ≤ s.expires_at
      → idp.complete_login r s ≡ some i
      → (handle_idp_response L S idp b r now (some sb) (some cb)).0.db
        ≡ (S.update b.db now
            (bind_identity s i b.cfg.identity_normalizer now (hash_binding (hex sb)) (some cb)).0).0
  unfolding handle_idp_response
  callback_binds b r s i now sb cb c g p l v =
      let fresh = fresh_is_not_expired s now p l in
      let done : complete_session L S idp b r s.id now (some sb) (some cb)
          ≡ bind_login L S idp b r s i now (some sb) (some cb) =
        complete_session-step L S idp b r s.id s now (some sb) (some cb) g fresh
        ∙ ap (λ t. complete_pending L S idp b r t now (some sb) (some cb)) (expire_kept s now fresh)
        ∙ complete_pending-step L S idp b r s i now (some sb) (some cb)
            (ap (λ t. state_eq t pending) p) v in
      rw (c, handle_idp_response) (ap (λ y. y.0.db) done ∙ bind_login-bound b r s i now sb cb)

  form_approves :
      (b : Broker L S) (r : Request) (s : Session) (now : Time) (id : Text) (m : List (Text × Text))
      (secret code token : Text)
      → read_session_cookie r ≡ some id
      → read_approval_cookie r ≡ some secret
      → r.form ≡ some m
      → approve_request r id
        ≡ record { session_id = id; user_code = code; csrf_token = token; approve = true }
      → S.get b.db now id ≡ found s
      → constant_time_string_equal token s.csrf_token ≡ true
      → (handle_approve L S b r now).0.db ≡ (S.update b.db now (approve s code true now secret).0).0
  form_approves b r s now id m secret code token c a f q g e =
      let req : ApproveRequest = record {
        session_id = id;
        user_code = code;
        csrf_token = token;
        approve = true;
      } in
      ap (λ y. y.0.db)
        (handle_approve-step L S b r now id m s c f g ∙ ap (λ z. approve_session L S b r z s now) q)
      ∙ approve_session-written L S b r req s now e
      ∙ ap (λ z. (S.update b.db now (approve s code true now (or_empty z)).0).0) a

  -- Over a store that does not fail, a pending session, unused: if a callback before the expiry
  -- signs in a user whose identity matches the login hint, and the browser that it gave the secret
  -- sends the form before the expiry, with the session's code, the token of the page and the
  -- decision "approve", then a poll with a verifier that fits the challenge is answered with the
  -- artifact.
  pub honest_calls :
      (durable : Durable S) (b : Broker L S) (s : Session) (i : Identity) (sb cb v : Text)
      (callback form asked : Request) (m : List (Text × Text)) (t₁ t₂ t₃ : Time)
      → S.get b.db t₁ s.id ≡ found s
      → s.state ≡ pending
      → s.consumed ≡ false
      → t₁ ≤ s.expires_at
      → t₂ ≤ s.expires_at
      → read_session_cookie callback ≡ some s.id
      → idp.complete_login callback s ≡ some i
      → normalizer_of b.cfg.identity_normalizer i.value
        ≡ normalizer_of b.cfg.identity_normalizer s.login_hint
      → read_session_cookie form ≡ some s.id
      → read_approval_cookie form ≡ some (hex sb)
      → form.form ≡ some m
      → approve_request form s.id
        ≡ record { session_id = s.id; user_code = s.user_code; csrf_token = hex cb; approve = true }
      → is_empty cb ≡ false
      → verify_client_pkce v s.code_challenge ≡ true
      → let b₁ = (serve L S idp b (callback_call callback t₁ (some sb) (some cb))).0 in
        let b₂ = (serve L S idp b₁ (approve_call form t₂)).0 in
        (serve L S idp b₂
          (poll_call asked (some (record { session_id = s.id; code_verifier = v })) t₃)).1
        ≡ respond 200
            (json_poll poll_approved (some (artifact_of i t₁ (pos_part b.cfg.artifact_ttl))))
  unfolding serve run step
  honest_calls durable b s i sb cb v rc rf rp m t₁ t₂ t₃ g p c l₁ l₂ ck li same cf af ff rq full w =
      let f = b.cfg.identity_normalizer in
      let h = hash_binding (hex sb) in
      let ttl = pos_part b.cfg.artifact_ttl in
      let x = (bind_identity s i f t₁ h (some cb)).0 in
      let fx = bind_identity-Frozen s i f t₁ h (some cb) in
      let b₁ = (handle_idp_response L S idp b rc t₁ (some sb) (some cb)).0 in
      let y = (approve x s.user_code true t₂ (hex sb)).0 in
      let fy = approve-Frozen x s.user_code true t₂ (hex sb) in
      let b₂ = (handle_approve L S b₁ rf t₂).0 in
      let req : PollRequest = record { session_id = s.id; code_verifier = v } in
      let g₁ : S.get b₁.db t₂ s.id ≡ found x =
        ap (λ d. S.get d t₂ s.id) (callback_binds b rc s i t₁ sb cb ck g p l₁ li)
        ∙ subst (λ k. S.get (S.update b.db t₁ x).0 t₂ k ≡ found x) fx.same_id
            (durable.kept b.db t₁ t₂ x s
              (subst (λ k. S.get b.db t₁ k ≡ found s) (sym fx.same_id) g)) in
      let token : constant_time_string_equal (hex cb) x.csrf_token ≡ true =
        rw (bind_identity-csrf_token s i f t₁ h cb p l₁ same)
          (constant_time_string_equal_refl (hex cb) (hex_nonempty cb full)) in
      let wrote : b₂.db ≡ (S.update b₁.db t₂ y).0 =
        form_approves b₁ rf x t₂ s.id m (hex sb) s.user_code (hex cb) cf af ff rq g₁ token in
      let g₂ : S.get b₂.db t₃ s.id ≡ found y =
        ap (λ d. S.get d t₃ s.id) wrote
        ∙ subst (λ k. S.get (S.update b₁.db t₂ y).0 t₃ k ≡ found y) (fy.same_id ∙ fx.same_id)
            (durable.kept b₁.db t₂ t₃ y x
              (subst (λ k. S.get b₁.db t₂ k ≡ found x) (sym (fy.same_id ∙ fx.same_id)) g₁)) in
      let cfg : b₂.cfg ≡ b.cfg =
        handle_approve-cfg L S b₁ rf t₂
        ∙ handle_idp_response-cfg L S idp b rc t₁ (some sb) (some cb) in
      ap (λ z. z.1) (poll_step L S b₂ rp req y t₃ (read_session_cookie_nonempty rf s.id cf) g₂)
      ∙ poll_session_released L S b₂ rp req y t₃ (artifact_of i t₁ ttl) (
          subst
            (λ n.
              (poll y v t₃ n).1
              ≡ result (record { status = poll_approved; artifact = some (artifact_of i t₁ ttl) }))
            (sym (ap (λ k. pos_part k.artifact_ttl) cfg))
            (honest_login s f ttl i (hex sb) cb v t₁ t₂ t₃ p c l₁ l₂ same w))
