-- ===== src/Broker/Start/Answer.antt =====
-- What `handleStart` answers.
use xdauth.Broker.{Broker, Response, StartResponse, json_start, observe_event}
use xdauth.Broker.Frame.{SameStore, observe_event-SameStore}
use xdauth.Broker.Start.{
  StartRequest, authenticate, lacks_field, bad_method, allow_start, start_params, start_response,
  persist_session, create_session, admit_start, start_request, handle_start,
}
use xdauth.Broker.Start.Guards.{
  allow_start-SameStore, admit_start-step, start_request-step, from_allowed_network,
}
use xdauth.Config.{Config}
use xdauth.ClientIp.{resolve_client_ip}
use xdauth.Detect.{repeated_start}
use xdauth.Http.{Request}
use xdauth.Machine.{StartParams, new_session, new_session_id}
use xdauth.Machine.Steps.{new_session-Fresh}
use xdauth.Platform.{Platform}
use xdauth.Prelude.{
  ◌++◌, ◌≡◌, refl, ap, sym, subst, ◌∙◌, inl, inr, [], Option, none, some, arith, Bool-cases,
  Option-cases,
}
use xdauth.Prelude.Int.{pos_part}
use xdauth.RateLimit.{Limiting}
use xdauth.Session.{Time, Session}
use xdauth.Store.{Store}
use xdauth.Text.{Text, bytes}
use xdauth.UserCode.{generate_user_code}

-- An answer with an id and a code that come of these random bytes, and the link of that id.
pub record Drawn (base_url : Text) (ib cb : Option Text) (answer : Response) : Type 0 where
  pub reply : StartResponse
  pub is_reply : answer.body ≡ json_start reply
  pub id_drawn : new_session_id ib ≡ some reply.session_id
  pub code_drawn : generate_user_code cb ≡ some reply.user_code
  pub link : reply.verification_uri ≡ base_url ++ bytes "/auth/verify/" ++ reply.session_id

module _ ⦃sys : Platform⦄ (L : Limiting) (S : Store) where
  -- A new session of these parameters that the store has taken, and an answer that tells of it.
  pub record Opened (cfg : Config L) (db : S.Db) (p : StartParams) (now : Time)
      (ib cb : Option Text) (out : Broker L S × Response) : Type 0 where
    pub new : Session
    pub is_new :
        new_session p (pos_part cfg.session_ttl) (pos_part cfg.poll_interval) now ib cb ≡ some new
    pub taken : (S.create db now new).1 ≡ none
    pub stored : out.0.db ≡ (S.create db now new).0
    pub reply : StartResponse
    pub is_reply : out.1.body ≡ json_start reply
    pub tells_id : reply.session_id ≡ new.id
    pub tells_code : reply.user_code ≡ new.user_code
    pub link : reply.verification_uri ≡ cfg.base_url ++ bytes "/auth/verify/" ++ new.id

  Opened-same :
      {cfg : Config L} {db : S.Db} {p : StartParams} {now : Time} {ib cb : Option Text}
      {x y : Broker L S × Response}
      → x ≡ y
      → Opened cfg db p now ib cb y
      → Opened cfg db p now ib cb x
  Opened-same {cfg = cfg} {db = db} {p = p} {now = now} {ib = ib} {cb = cb} e o =
      subst (λ z. Opened cfg db p now ib cb z) (sym e) o

  Opened-SameStore :
      {b b₁ : Broker L S} {p : StartParams} {now : Time} {ib cb : Option Text}
      {out : Broker L S × Response}
      → SameStore L S b b₁
      → Opened b₁.cfg b₁.db p now ib cb out
      → Opened b.cfg b.db p now ib cb out
  Opened-SameStore {b = b} {b₁ = b₁} {p = p} {now = now} {ib = ib} {cb = cb} {out = out} k o =
      subst (λ c. Opened c b.db p now ib cb out) k.same_cfg
        (subst (λ d. Opened b₁.cfg d p now ib cb out) k.same_db o)

  create_session-Opened :
      (b : Broker L S) (p : StartParams) (now : Time) (ib cb : Option Text)
      → (create_session L S b p now ib cb).1.status ≡ 200
      → Opened b.cfg b.db p now ib cb (create_session L S b p now ib cb)
  unfolding create_session persist_session
  create_session-Opened b p now ib cb h =
      elim (Option-cases
        (new_session p (pos_part b.cfg.session_ttl) (pos_part b.cfg.poll_interval) now ib cb)) [
          | inl e ↦ absurd (ground arith)
          | inr (s, e) ↦ elim (Option-cases (S.create b.db now s).1) [
            | inr (x, k) ↦ absurd (ground arith)
            | inl k ↦ record {
              new = s;
              is_new = e;
              taken = k;
              stored = ground arith;
              reply = start_response L S b s;
              is_reply = ground arith;
              tells_id = refl;
              tells_code = refl;
              link = refl;
            }
          ]
        ]

  admit_start-Opened :
      (b : Broker L S) (r : Request) (req : StartRequest) (v : Text) (now : Time)
      (ib cb : Option Text)
      → let p = start_params L S req (resolve_client_ip r b.cfg.trusted_proxies) v in
        (admit_start L S b r req v now ib cb).1.status ≡ 200
        → Opened b.cfg b.db p now ib cb (admit_start L S b r req v now ib cb)
  unfolding admit_start
  admit_start-Opened b r req v now ib cb h =
      let ip = resolve_client_ip r b.cfg.trusted_proxies in
      elim (Bool-cases (from_allowed_network L S b.cfg r)) [
        | inr n ↦ absurd (ground arith)
        | inl n ↦ elim (Bool-cases (allow_start L S b ip req.login_hint now).1) [
          | inr a ↦ absurd (ground arith)
          | inl a ↦
              let same = admit_start-step L S b r req v now ib cb n a in
              let b₁ = (allow_start L S b ip req.login_hint now).0 in
              Opened-same same (
                Opened-SameStore (allow_start-SameStore L S b ip req.login_hint now) (
                  create_session-Opened b₁ (start_params L S req ip v) now ib cb
                    (sym (ap (λ y. y.1.status) same) ∙ h)))
        ]
      ]

  start_request-Opened :
      (b : Broker L S) (r : Request) (req : StartRequest) (v : Text) (now : Time)
      (ib cb : Option Text)
      → let p = start_params L S req (resolve_client_ip r b.cfg.trusted_proxies) v in
        (start_request L S b r (some req) v now ib cb).1.status ≡ 200
        → Opened b.cfg b.db p now ib cb (start_request L S b r (some req) v now ib cb)
  unfolding start_request
  start_request-Opened b r req v now ib cb h = elim (Bool-cases (lacks_field req)) [
    | inl p ↦ absurd (ground arith)
    | inr p ↦ elim (Bool-cases (bad_method req)) [
      | inl q ↦ absurd (ground arith)
      | inr q ↦
          let b₁ = observe_event L S b repeated_start req.login_hint [] now in
          let same = start_request-step L S b r req v now ib cb p q in
          let k = observe_event-SameStore L S b repeated_start req.login_hint [] now in
          Opened-same same (
            Opened-SameStore k (
              subst
                (λ c.
                  Opened b₁.cfg b₁.db
                    (start_params L S req (resolve_client_ip r c.trusted_proxies) v) now ib cb
                    (admit_start L S b₁ r req v now ib cb))
                k.same_cfg
                (admit_start-Opened b₁ r req v now ib cb (sym (ap (λ y. y.1.status) same) ∙ h))))
    ]
  ]

  -- A start that is answered with 200 has stored a new session of the request, and tells the client
  -- of it.
  pub handle_start-Opened :
      (b : Broker L S) (r : Request) (req : StartRequest) (now : Time) (ib cb : Option Text)
      → (handle_start L S b r (some req) now ib cb).1.status ≡ 200
      → (v : Text) × (authenticate b.cfg.client_authenticator r ≡ some v)
        × Opened b.cfg b.db
            (start_params L S req (resolve_client_ip r b.cfg.trusted_proxies) v)
            now
            ib
            cb
            (handle_start L S b r (some req) now ib cb)
  unfolding handle_start
  handle_start-Opened b r req now ib cb h =
      elim (Option-cases (authenticate b.cfg.client_authenticator r)) [
        | inl c ↦ absurd (ground arith)
        | inr (v, c) ↦ (
          v,
          c,
          rw (c, handle_start)
              (start_request-Opened b r req v now ib cb (rw (c, handle_start) at h)),
        )
      ]

  -- A start that is answered with 200 tells the client an id and a code that come of its random bytes.
  pub handle_start-Drawn :
      (b : Broker L S) (r : Request) (body : Option StartRequest) (now : Time) (ib cb : Option Text)
      → (handle_start L S b r body now ib cb).1.status ≡ 200
      → Drawn b.cfg.base_url ib cb (handle_start L S b r body now ib cb).1
  unfolding handle_start
  handle_start-Drawn b r none now ib cb h = absurd (ground arith)
  handle_start-Drawn b r (some req) now ib cb h =
      let (v, a, o) = handle_start-Opened b r req now ib cb h in
      let n = new_session-Fresh _ _ _ now ib cb o.new o.is_new in
      record {
        reply = o.reply;
        is_reply = o.is_reply;
        id_drawn = n.id_drawn ∙ ap some (sym o.tells_id);
        code_drawn = n.code_drawn ∙ ap some (sym o.tells_code);
        link = o.link ∙ ap (λ x. b.cfg.base_url ++ bytes "/auth/verify/" ++ x) (sym o.tells_id);
      }
