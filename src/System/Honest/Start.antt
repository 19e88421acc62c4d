-- ===== src/System/Honest/Start.antt =====
-- The whole honest login: `handleStart`, then the calls of `Honest.Link`.
use xdauth.Broker.{Broker, IdentityProvider, StartResponse, respond, json_start, json_poll}
use xdauth.Broker.Approve.{approve_request}
use xdauth.Broker.Cookies.{read_session_cookie, read_approval_cookie}
use xdauth.Broker.Fixed.{handle_start-cfg}
use xdauth.Broker.Start.{StartRequest, authenticate, handle_start}
use xdauth.Broker.Start.Answer.{handle_start-Opened}
use xdauth.Broker.Start.Guards.{session_of}
use xdauth.Http.{Request}
use xdauth.Machine.{artifact_of, poll_approved, normalizer_of}
use xdauth.Machine.Steps.{new_session-Fresh, new_session-expires_at}
use xdauth.Pkce.{verify_client_pkce}
use xdauth.Platform.{Platform}
use xdauth.Prelude.{◌+◌, ◌≤◌, ◌≡◌, sym, ap, ◌∙◌, subst, true, false, List, Option, some, is_empty}
use xdauth.Prelude.Int.{pos_part}
use xdauth.RateLimit.{Limiting}
use xdauth.Session.{Time, Identity, Session}
use xdauth.Store.{Store, Durable, found}
use xdauth.System.{IdpLaws, start_call, verify_call, callback_call, approve_call, poll_call, serve}
use xdauth.System.Honest.Link.{honest_link}
use xdauth.Text.{Text}
use xdauth.Text.Encoding.{hex}

some_injective : {A : Type 0} {x y : A} → some x ≡ some y → x ≡ y
some_injective e = cc

module _ ⦃sys : Platform⦄ (L : Limiting) (S : Store) where
  -- What a client is told of a session.
  abbrev pub Tells : StartResponse → Session → Type 0
  Tells reply s = (reply.session_id ≡ s.id) × (reply.user_code ≡ s.user_code)

  -- A start that is answered with 200 has made its session, and the store finds it.
  start_opens :
      (durable : Durable S) (b : Broker L S) (r : Request) (req : StartRequest) (verified : Text)
      (s : Session) (now later : Time) (ib cb : Option Text)
      → authenticate b.cfg.client_authenticator r ≡ some verified
      → session_of L S b.cfg r req verified now ib cb ≡ some s
      → let (b', answer) = handle_start L S b r (some req) now ib cb in
        answer.status ≡ 200
        → ((reply : StartResponse) × (answer.body ≡ json_start reply) × Tells reply s)
          × (S.get b'.db later s.id ≡ found s)
  start_opens durable b r req verified s now later ib cb au made ok =
      let (v, c, o) = handle_start-Opened L S b r req now ib cb ok in
      let v_same : v ≡ verified = some_injective (sym c ∙ au) in
      let same : o.new ≡ s =
        some_injective
          (sym o.is_new ∙ ap (λ u. session_of L S b.cfg r req u now ib cb) v_same ∙ made) in
      (
        (
          o.reply,
          o.is_reply,
          (o.tells_id ∙ ap (λ x. x.id) same, o.tells_code ∙ ap (λ x. x.user_code) same),
        ),
        ap (λ d. S.get d later s.id) o.stored
            ∙ subst (λ x. S.get (S.create b.db now o.new).0 later x.id ≡ found x) same
                (durable.created b.db now later o.new o.taken),
      )

  -- Over a store that does not fail: a start that is answered with 200 tells the client the id and
  -- the code of the session `s` that `newSession` makes of it. If before the session's end its link
  -- is opened, the provider takes the login up and signs the user in at the callback with an
  -- identity that matches the login hint, and the same browser sends the form, with the code, the
  -- token of the page and the decision "approve", then a poll with a verifier that fits the
  -- challenge of the start is answered with the artifact.
  pub honest_start :
      (idp : IdentityProvider) (laws : IdpLaws idp) (durable : Durable S) (b : Broker L S)
      (req : StartRequest) (verified : Text) (s : Session) (ib cb : Option Text) (i : Identity)
      (secret token v url : Text) (fresh : List Text)
      (starting opened callback form asked : Request) (m : List (Text × Text))
      (now t₀ t₁ t₂ t₃ : Time)
      → authenticate b.cfg.client_authenticator starting ≡ some verified
      → session_of L S b.cfg starting req verified now ib cb ≡ some s
      → let (b', answer) = serve L S idp b (start_call starting (some req) now ib cb) in
        answer.status ≡ 200
        → t₀ ≤ now + pos_part b.cfg.session_ttl
        → t₁ ≤ now + pos_part b.cfg.session_ttl
        → t₂ ≤ now + pos_part b.cfg.session_ttl
        → (idp.begin_login fresh s).1 ≡ some url
        → read_session_cookie callback ≡ some s.id
        → idp.complete_login callback (idp.begin_login fresh s).0 ≡ some i
        → normalizer_of b.cfg.identity_normalizer i.value
          ≡ normalizer_of b.cfg.identity_normalizer req.login_hint
        → read_session_cookie form ≡ some s.id
        → read_approval_cookie form ≡ some (hex secret)
        → form.form ≡ some m
        → approve_request form s.id ≡ record {
          session_id = s.id;
          user_code = s.user_code;
          csrf_token = hex token;
          approve = true;
        }
        → is_empty token ≡ false
        → verify_client_pkce v req.code_challenge ≡ true
        → let b₀ = (serve L S idp b' (verify_call opened s.id t₀ fresh)).0 in
          let b₁ = (serve L S idp b₀ (callback_call callback t₁ (some secret) (some token))).0 in
          let b₂ = (serve L S idp b₁ (approve_call form t₂)).0 in
          ((reply : StartResponse) × (answer.body ≡ json_start reply) × Tells reply s)
          × ((serve L S idp b₂
                (poll_call asked (some (record { session_id = s.id; code_verifier = v })) t₃)).1
              ≡ respond 200
                  (json_poll poll_approved (some (artifact_of i t₁ (pos_part b.cfg.artifact_ttl)))))
  unfolding serve
  honest_start idp laws durable b req verified s ib cb i secret token v url fresh rs ro rc rf rp m
        now t₀ t₁ t₂ t₃ au made ok l₀ l₁ l₂ begins ck li match cf af ff rq full w =
      let b' = (handle_start L S b rs (some req) now ib cb).0 in
      let (told, g) = start_opens durable b rs req verified s now t₀ ib cb au made ok in
      let n = new_session-Fresh _ _ _ now ib cb s made in
      let end = new_session-expires_at _ _ _ now ib cb s made in
      let cfg : b'.cfg ≡ b.cfg = handle_start-cfg L S b rs (some req) now ib cb in
      (
        told,
        honest_link L S idp laws durable b' s i secret token v url fresh ro rc rf rp m t₀ t₁ t₂ t₃ g
              n.is_pending n.is_unused (rw end l₀) (rw end l₁) (rw end l₂) begins ck li
              (rw (cfg, n.hint) match) cf af ff rq full (rw n.challenge w)
            ∙ ap
                (λ k.
                  respond 200
                    (json_poll poll_approved (some (artifact_of i t₁ (pos_part k.artifact_ttl)))))
                cfg,
      )
