-- ===== src/System/Invariant/Calls.antt =====
-- The invariant of the store through each of the HTTP calls.
use xdauth.Broker.{Broker, IdentityProvider}
use xdauth.Broker.Approve.{approve_request}
use xdauth.Broker.Approve.Laws.{handle_approve-db}
use xdauth.Broker.Cookies.{read_session_cookie, read_approval_cookie}
use xdauth.Broker.Fixed.{
  handle_poll-cfg, handle_approve-cfg, handle_start-cfg, handle_verify-cfg, handle_idp_response-cfg,
}
use xdauth.Broker.IdpResponse.Laws as callback
use xdauth.Broker.Poll.{PollRequest}
use xdauth.Broker.Poll.Laws.{handle_poll-db}
use xdauth.Broker.Start.{StartRequest}
use xdauth.Broker.Start.Guards.{handle_start-db}
use xdauth.Broker.Verify.Laws as link
use xdauth.Config.{Config}
use xdauth.Http.{Request, or_empty}
use xdauth.Machine.{bind_identity, poll}
use xdauth.Machine.Steps.{new_session-Fresh}
use xdauth.Machine.Trace.{Event, begins, expires, binds, submits, polls, step, run}
use xdauth.Pkce.{hash_binding}
use xdauth.Platform.{Platform}
use xdauth.Prelude.{
  ◌≡◌, ◌≢◌, refl, sym, ap, subst, ◌∙◌, inl, inr, false, List, [], ◌∷◌, Option, some, is_empty,
}
use xdauth.Prelude.Int.{pos_part}
use xdauth.RateLimit.{Limiting}
use xdauth.Session.{Time, Session}
use xdauth.Store.{Store, StoreLaws, found}
use xdauth.System.{
  Call, start_call, verify_call, callback_call, approve_call, poll_call, IdpLaws, serve, History,
  started, served, evicted,
}
use xdauth.System.Provenance.{
  StartedBy, started_by, Made, began, expired_by, begun_by, bound_by, submitted_by, polled_by,
  Traced,
}
use xdauth.Text.{Text}
use xdauth.System.Invariant.{
  Sound, Sound-unchanged, Sound-update, Sound-create, Traced-step, origin_id,
}

module _ ⦃sys : Platform⦄ (L : Limiting) (S : Store) (laws : StoreLaws S) (idp : IdentityProvider)
    (idp_laws : IdpLaws idp) (cfg : Config L) where
  link_came_about :
      {cs : List Call} (r : Request) (id : Text) (now : Time) (fresh : List Text) (s x : Session)
      → id ≡ s.id
      → Traced L S idp cfg cs s
      → link.Written L S idp now s fresh x
      → Traced L S idp cfg (verify_call r id now fresh ∷ cs) x
  unfolding step
  link_came_about r id now fresh s x same t (link.expired_by e) =
      Traced-step L S laws idp idp_laws cfg (verify_call r id now fresh) (expires now) x t e
        (expired_by (verify_call r id now fresh) now t.made)
  link_came_about {cs = cs} r id now fresh s x same t (link.begun_by p e) =
      let (protocol, state, nonce, pkce, request_id, q) = idp_laws.begins fresh s in
      let ev : Event = begins protocol state nonce pkce request_id in
      Traced-step L S laws idp idp_laws cfg (verify_call r id now fresh) ev x t (e ∙ q) (
        subst (λ i. Made L S idp cfg t.origin (verify_call r i now fresh ∷ cs) (ev ∷ t.events))
          (sym (same ∙ origin_id L S laws idp idp_laws cfg t))
          (begun_by protocol state nonce pkce request_id t.made))

  callback_came_about :
      {cs : List Call} (b : Broker L S) (fixed : b.cfg ≡ cfg) (r : Request) (now : Time)
      (sb cb : Option Text) (s x : Session)
      → read_session_cookie r ≡ some s.id
      → Traced L S idp cfg cs s
      → callback.Written L S idp b r now s sb cb x
      → Traced L S idp cfg (callback_call r now sb cb ∷ cs) x
  unfolding step
  callback_came_about b fixed r now sb cb s x cookie t (callback.expired_by e) =
      Traced-step L S laws idp idp_laws cfg (callback_call r now sb cb) (expires now) x t e
        (expired_by (callback_call r now sb cb) now t.made)
  callback_came_about b fixed r now sb cb s x cookie t
        (callback.bound_by i secret vouched fresh e) =
      Traced-step L S laws idp idp_laws cfg (callback_call r now sb cb)
        (binds i now (hash_binding secret) cb) x t
        (e
          ∙ ap (λ k. (bind_identity s i k.identity_normalizer now (hash_binding secret) cb).0)
              fixed)
        (bound_by i secret (cookie ∙ ap some (origin_id L S laws idp idp_laws cfg t))
          (ap (idp.complete_login r) (sym t.is_run) ∙ vouched) fresh t.made)

  Sound-poll :
      {cs : List Call} {b : Broker L S} (r : Request) (body : Option PollRequest) (now : Time)
      → Sound L S laws idp idp_laws cfg cs b
      → Sound L S laws idp idp_laws cfg
          (poll_call r body now ∷ cs)
          (serve L S idp b (poll_call r body now)).0
  unfolding serve step
  Sound-poll {cs = cs} {b = b} r body now v =
      let c = poll_call r body now in
      let fixed = handle_poll-cfg L S b r body now in
      elim (handle_poll-db L S b r body now) [
        | inl same ↦ Sound-unchanged L S laws idp idp_laws cfg c v fixed same
        | inr (req, s, e, g, new) ↦
            let (id, t) = v.traced now req.session_id s g in
            Sound-update L S laws idp idp_laws cfg c now _ v fixed new (
              Traced-step L S laws idp idp_laws cfg c (polls req.code_verifier now) _ t
                (ap (λ k. (poll s req.code_verifier now (pos_part k.artifact_ttl)).0) v.same_cfg)
                (subst
                  (λ o.
                    Made L S idp cfg t.origin (poll_call r o now ∷ cs)
                      (polls req.code_verifier now ∷ t.events))
                  (sym e) (polled_by (sym id ∙ origin_id L S laws idp idp_laws cfg t) t.made)))
      ]

  Sound-approve :
      {cs : List Call} {b : Broker L S} (r : Request) (now : Time)
      → Sound L S laws idp idp_laws cfg cs b
      → Sound L S laws idp idp_laws cfg
          (approve_call r now ∷ cs)
          (serve L S idp b (approve_call r now)).0
  unfolding serve step
  Sound-approve {b = b} r now v =
      let c = approve_call r now in
      let fixed = handle_approve-cfg L S b r now in
      elim (handle_approve-db L S b r now) [
        | inl same ↦ Sound-unchanged L S laws idp idp_laws cfg c v fixed same
        | inr (id, s, (cookie, g, token, full, new)) ↦
            let (same, t) = v.traced now id s g in
            let here : id ≡ t.origin.id = sym same ∙ origin_id L S laws idp idp_laws cfg t in
            Sound-update L S laws idp idp_laws cfg c now _ v fixed new (
              Traced-step L S laws idp idp_laws cfg c
                (submits (approve_request r t.origin.id).user_code
                  (approve_request r t.origin.id).approve now (or_empty (read_approval_cookie r)))
                _ t refl
                (submitted_by (cookie ∙ ap some here) (token ∙ ap (λ x. x.csrf_token) t.is_run)
                  (subst (λ x. is_empty x.csrf_token ≡ false) t.is_run full) t.made))
      ]

  Sound-start :
      {cs : List Call} {b : Broker L S} (r : Request) (body : Option StartRequest) (now : Time)
      (ib cb : Option Text)
      → Sound L S laws idp idp_laws cfg cs b
      → Sound L S laws idp idp_laws cfg
          (start_call r body now ib cb ∷ cs)
          (serve L S idp b (start_call r body now ib cb)).0
  unfolding serve run
  Sound-start {cs = cs} {b = b} r body now ib cb v =
      let c = start_call r body now ib cb in
      let fixed = handle_start-cfg L S b r body now ib cb in
      elim (handle_start-db L S b r body now ib cb) [
        | inl same ↦ Sound-unchanged L S laws idp idp_laws cfg c v fixed same
        | inr (req, verified, s, client, e, fields, method, network, fresh, new) ↦
            let by : StartedBy L S idp b.cfg s (start_call r (some req) now ib cb) =
              started_by verified client fields method network fresh in
            Sound-create L S laws idp idp_laws cfg c now s v fixed new (record {
              origin = s;
              events = [];
              was_pending = (new_session-Fresh _ _ _ now ib cb s fresh).is_pending;
              made =
                  subst (λ o. Made L S idp cfg s (start_call r o now ib cb ∷ cs) []) (sym e)
                    (began (
                      subst (λ k. StartedBy L S idp k s (start_call r (some req) now ib cb))
                        v.same_cfg by));
              is_run = refl;
            })
      ]

  Sound-verify :
      {cs : List Call} {b : Broker L S} (r : Request) (id : Text) (now : Time) (fresh : List Text)
      → Sound L S laws idp idp_laws cfg cs b
      → Sound L S laws idp idp_laws cfg
          (verify_call r id now fresh ∷ cs)
          (serve L S idp b (verify_call r id now fresh)).0
  unfolding serve
  Sound-verify {cs = cs} {b = b} r id now fresh v =
      let c = verify_call r id now fresh in
      let fixed = handle_verify-cfg L S idp b r id now fresh in
      elim (link.handle_verify-db L S idp b r id now fresh) [
        | inl same ↦ Sound-unchanged L S laws idp idp_laws cfg c v fixed same
        | inr (s, x, g, w, new) ↦
            let (same, t) = v.traced now id s g in
            Sound-update L S laws idp idp_laws cfg c now x v fixed new
              (link_came_about r id now fresh s x (sym same) t w)
      ]

  Sound-callback :
      {cs : List Call} {b : Broker L S} (r : Request) (now : Time) (sb cb : Option Text)
      → Sound L S laws idp idp_laws cfg cs b
      → Sound L S laws idp idp_laws cfg
          (callback_call r now sb cb ∷ cs)
          (serve L S idp b (callback_call r now sb cb)).0
  unfolding serve
  Sound-callback {cs = cs} {b = b} r now sb cb v =
      let c = callback_call r now sb cb in
      let fixed = handle_idp_response-cfg L S idp b r now sb cb in
      elim (callback.handle_idp_response-db L S idp b r now sb cb) [
        | inl same ↦ Sound-unchanged L S laws idp idp_laws cfg c v fixed same
        | inr (id, s, x, cookie, g, w, new) ↦
            let (same, t) = v.traced now id s g in
            Sound-update L S laws idp idp_laws cfg c now x v fixed new
              (callback_came_about b v.same_cfg r now sb cb s x (cookie ∙ ap some (sym same)) t w)
      ]

  -- Of calls that are served one after the other, from a store without sessions on: the
  -- configuration never changes, and every session that the store holds is found under its id and
  -- came about by these calls.
  pub History-Sound :
      {start : Broker L S} {cs : List Call} {b : Broker L S}
      → start.cfg ≡ cfg
      → ((later : Time) (id : Text) (x : Session) → S.get start.db later id ≢ found x)
      → History L S idp start cs b
      → Sound L S laws idp idp_laws cfg cs b
  History-Sound p none_yet started = record {
    same_cfg = p;
    traced = λ later id x g. absurd (none_yet later id x g);
  }
  History-Sound p none_yet (served (start_call r body now ib cb) h) =
      Sound-start r body now ib cb (History-Sound p none_yet h)
  History-Sound p none_yet (served (verify_call r id now fresh) h) =
      Sound-verify r id now fresh (History-Sound p none_yet h)
  History-Sound p none_yet (served (callback_call r now sb cb) h) =
      Sound-callback r now sb cb (History-Sound p none_yet h)
  History-Sound p none_yet (served (approve_call r now) h) =
      Sound-approve r now (History-Sound p none_yet h)
  History-Sound p none_yet (served (poll_call r body now) h) =
      Sound-poll r body now (History-Sound p none_yet h)
  History-Sound p none_yet (evicted db w h) =
      let v = History-Sound p none_yet h in
      record {
        same_cfg = v.same_cfg;
        traced = λ later id x g. v.traced later id x (w later id x g);
      }
