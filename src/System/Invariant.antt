-- ===== src/System/Invariant.antt =====
-- The invariant of the store: which sessions it holds, and what one write does to that. `Calls` goes
-- through the calls.
pub mod Calls
use xdauth.Broker.{Broker, IdentityProvider}
use xdauth.Broker.Approve.{approve_request}
use xdauth.Broker.Approve.Laws.{handle_approve-db}
use xdauth.Broker.Cookies.{read_session_cookie, read_approval_cookie}
use xdauth.Broker.Fixed.{
  handle_poll-cfg, handle_approve-cfg, handle_start-cfg, handle_verify-cfg, handle_idp_response-cfg,
}
use xdauth.Broker.IdpResponse.Laws as callback
use xdauth.Broker.Poll.{PollRequest}
use xdauth.Broker.Poll.Laws.{handle_poll-db}
use xdauth.Broker.Start.{StartRequest}
use xdauth.Broker.Start.Guards.{handle_start-db}
use xdauth.Broker.Verify.Laws as link
use xdauth.Config.{Config}
use xdauth.Http.{Request, or_empty}
use xdauth.Machine.{StartParams, new_session, fresh_session, new_session_id, bind_identity, poll}
use xdauth.Machine.Trace.{Event, begins, expires, binds, submits, polls, step, run}
use xdauth.Machine.Trace.Evidence.{run-Frozen}
use xdauth.Pkce.{hash_binding}
use xdauth.Platform.{Platform}
use xdauth.Prelude.{
  ◌≡◌, ◌≢◌, refl, sym, ap, subst, ◌∙◌, inl, inr, false, List, [], ◌∷◌, Option, some, arith,
  is_empty, Option-cases,
}
use xdauth.Prelude.Int.{pos_part}
use xdauth.RateLimit.{Limiting}
use xdauth.Session.{Time, Duration, Session, pending}
use xdauth.Store.{Store, StoreLaws, found}
use xdauth.System.{
  Call, start_call, verify_call, callback_call, approve_call, poll_call, IdpLaws, serve, History,
  started, served, evicted,
}
use xdauth.System.Provenance.{
  StartedBy, started_by, Made, began, expired_by, begun_by, bound_by, submitted_by, polled_by,
  Traced, Traced-elsewhere,
}
use xdauth.Text.{Text}
use xdauth.UserCode.{generate_user_code}

module _ ⦃sys : Platform⦄ (L : Limiting) (S : Store) (laws : StoreLaws S) (idp : IdentityProvider)
    (idp_laws : IdpLaws idp) (cfg : Config L) where
  -- The configuration is that of the beginning, and each session that is found is found under its
  -- id and came about by the calls.
  pub record Sound (cs : List Call) (b : Broker L S) : Type 1 where
    pub same_cfg : b.cfg ≡ cfg
    pub traced :
        (later : Time) (id : Text) (x : Session)
        → S.get b.db later id ≡ found x
        → (x.id ≡ id) × Traced L S idp cfg cs x

  -- A session that came about has the id of its origin.
  pub origin_id : {cs : List Call} {s : Session} (t : Traced L S idp cfg cs s) → s.id ≡ t.origin.id
  origin_id t =
      ap (λ s. s.id) t.is_run
      ∙ (run-Frozen cfg.identity_normalizer t.origin (pos_part cfg.artifact_ttl) t.events
          t.was_pending).same_id

  pub Sound-unchanged :
      {cs : List Call} {b b' : Broker L S} (c : Call)
      → Sound cs b
      → b'.cfg ≡ b.cfg
      → b'.db ≡ b.db
      → Sound (c ∷ cs) b'
  Sound-unchanged c v p q = record {
    same_cfg = p ∙ v.same_cfg;
    traced = λ later id x g.
        let (same, t) = v.traced later id x (ap (λ d. S.get d later id) (sym q) ∙ g) in
        (same, Traced-elsewhere L S idp cfg c t);
  }

  pub Sound-update :
      {cs : List Call} {b b' : Broker L S} (c : Call) (now : Time) (y : Session)
      → Sound cs b
      → b'.cfg ≡ b.cfg
      → b'.db ≡ (S.update b.db now y).0
      → Traced L S idp cfg (c ∷ cs) y
      → Sound (c ∷ cs) b'
  Sound-update {cs = cs} {b = b} c now y v p q t = record {
    same_cfg = p ∙ v.same_cfg;
    traced = λ later id x g.
        elim (laws.found-update b.db now later y x id (ap (λ d. S.get d later id) (sym q) ∙ g)) [
          | inl (same, new) ↦
              (ap (λ s. s.id) new ∙ same, subst (λ s. Traced L S idp cfg (c ∷ cs) s) (sym new) t)
          | inr old ↦
              let (same, u) = v.traced later id x old in (same, Traced-elsewhere L S idp cfg c u)
        ];
  }

  pub Sound-create :
      {cs : List Call} {b b' : Broker L S} (c : Call) (now : Time) (y : Session)
      → Sound cs b
      → b'.cfg ≡ b.cfg
      → b'.db ≡ (S.create b.db now y).0
      → Traced L S idp cfg (c ∷ cs) y
      → Sound (c ∷ cs) b'
  Sound-create {cs = cs} {b = b} c now y v p q t = record {
    same_cfg = p ∙ v.same_cfg;
    traced = λ later id x g.
        elim (laws.found-create b.db now later y x id (ap (λ d. S.get d later id) (sym q) ∙ g)) [
          | inl (same, new) ↦
              (ap (λ s. s.id) new ∙ same, subst (λ s. Traced L S idp cfg (c ∷ cs) s) (sym new) t)
          | inr old ↦
              let (same, u) = v.traced later id x old in (same, Traced-elsewhere L S idp cfg c u)
        ];
  }

  -- One more call on the session.
  pub Traced-step :
      {cs : List Call} {s : Session} (c : Call) (e : Event) (y : Session)
      → (t : Traced L S idp cfg cs s)
      → (y ≡ step cfg.identity_normalizer (pos_part cfg.artifact_ttl) s e)
      → Made L S idp cfg t.origin (c ∷ cs) (e ∷ t.events)
      → Traced L S idp cfg (c ∷ cs) y
  unfolding run
  Traced-step c e y t q m = record {
    origin = t.origin;
    events = e ∷ t.events;
    was_pending = t.was_pending;
    made = m;
    is_run = q ∙ ap (λ s. step cfg.identity_normalizer (pos_part cfg.artifact_ttl) s e) t.is_run;
  }
