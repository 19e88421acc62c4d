-- ===== src/System/Touch.antt =====
-- What one HTTP call does to the store: nothing, one step of a session that is there, or a new session.
use xdauth.Broker.{Broker, IdentityProvider}
use xdauth.Broker.Approve.{approve_request}
use xdauth.Broker.Approve.Laws.{handle_approve-db}
use xdauth.Broker.IdpResponse.Laws as callback
use xdauth.Broker.Poll.Laws.{handle_poll-db}
use xdauth.Broker.Start.Guards.{handle_start-db}
use xdauth.Broker.Verify.Laws as link
use xdauth.Http.{or_empty}
use xdauth.Machine.{new_session_id}
use xdauth.Broker.Cookies.{read_approval_cookie}
use xdauth.Machine.Steps.{new_session-Fresh}
use xdauth.Machine.Trace.{Event, begins, expires, binds, submits, polls, step}
use xdauth.Pkce.{hash_binding}
use xdauth.Platform.{Platform}
use xdauth.Prelude.{◌≡◌, ap, ◌∙◌, inl, inr, Bool, true, false, none, some, arith}
use xdauth.Prelude.Int.{pos_part}
use xdauth.RateLimit.{Limiting}
use xdauth.Session.{Time, Session}
use xdauth.Store.{Store, found}
use xdauth.System.{
  Call, start_call, verify_call, callback_call, approve_call, poll_call, IdpLaws, serve,
}
use xdauth.Text.{Text, text_eq}
use xdauth.Text.Laws.{text_eq_refl}

-- Whether this call is a start that would make a session of this id.
unfoldable pub makes : Text → Call → Bool
makes id (start_call r body now ib cb) = elim (new_session_id ib) [
  | none ↦ false
  | some i ↦ text_eq i id
]
makes id _ = false

module _ ⦃sys : Platform⦄ (L : Limiting) (S : Store) (idp : IdentityProvider)
    (idp_laws : IdpLaws idp) where
  pub data Touch (b : Broker L S) (c : Call) (db : S.Db) : Type 0 where
    untouched : db ≡ b.db → Touch b c db
    stepped :
        (now : Time) (id : Text) (s : Session) (e : Event)
        → S.get b.db now id ≡ found s
        → db
          ≡ (S.update b.db now (step b.cfg.identity_normalizer (pos_part b.cfg.artifact_ttl) s e)).0
        → Touch b c db
    made :
        (now : Time) (s : Session)
        → makes s.id c ≡ true
        → db ≡ (S.create b.db now s).0
        → Touch b c db

  pub serve-Touch : (b : Broker L S) (c : Call) → Touch b c (serve L S idp b c).0.db
  unfolding serve step makes
  serve-Touch b (poll_call r body now) = elim (handle_poll-db L S b r body now) [
    | inl same ↦ untouched same
    | inr (req, s, e, g, new) ↦ stepped now req.session_id s (polls req.code_verifier now) g new
  ]
  serve-Touch b (approve_call r now) = elim (handle_approve-db L S b r now) [
    | inl same ↦ untouched same
    | inr (id, s, (cookie, g, token, full, new)) ↦
        stepped now id s
          (submits (approve_request r id).user_code (approve_request r id).approve now
            (or_empty (read_approval_cookie r)))
          g new
  ]
  serve-Touch b (verify_call r id now fresh) =
      elim (link.handle_verify-db L S idp b r id now fresh) [
        | inl same ↦ untouched same
        | inr (s, x, g, link.expired_by e, new) ↦
            stepped now id s (expires now) g (new ∙ ap (λ y. (S.update b.db now y).0) e)
        | inr (s, x, g, link.begun_by p e, new) ↦
            let (protocol, state, nonce, pkce, request_id, q) = idp_laws.begins fresh s in
            stepped now id s (begins protocol state nonce pkce request_id) g
              (new ∙ ap (λ y. (S.update b.db now y).0) (e ∙ q))
      ]
  serve-Touch b (callback_call r now sb cb) =
      elim (callback.handle_idp_response-db L S idp b r now sb cb) [
        | inl same ↦ untouched same
        | inr (id, s, x, cookie, g, callback.expired_by e, new) ↦
            stepped now id s (expires now) g (new ∙ ap (λ y. (S.update b.db now y).0) e)
        | inr (id, s, x, cookie, g, callback.bound_by i secret vouched fresh e, new) ↦
            stepped now id s (binds i now (hash_binding secret) cb) g
              (new ∙ ap (λ y. (S.update b.db now y).0) e)
      ]
  serve-Touch b (start_call r body now ib cb) = elim (handle_start-db L S b r body now ib cb) [
    | inl same ↦ untouched same
    | inr (req, verified, s, client, e, fields, method, network, fresh, new) ↦
        let n = new_session-Fresh _ _ _ now ib cb s fresh in
        made now s (ground (arith, n.id_drawn, text_eq_refl s.id)) new
  ]
