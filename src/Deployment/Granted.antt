-- ===== src/Deployment/Granted.antt =====
-- What stands behind a client that is told "approved" by this broker.
use xdauth.Broker.{
  Broker, IdentityProvider, StartResponse, Body, json_start, json_poll, json_error, result_page,
  approve_page, redirect, no_body,
}
use xdauth.Broker.Poll.{PollRequest, handle_poll}
use xdauth.Broker.Poll.Laws.{handle_poll-filled}
use xdauth.Broker.Start.{handle_start}
use xdauth.Broker.Start.Answer.{handle_start-Drawn}
use xdauth.Client as client
use xdauth.Client.{
  StartWireRequest, StartWireResponse, PollWireResponse, finished, poll_once, poll_loop, is_final,
}
use xdauth.Client.Laws.{start_inv, poll_met}
use xdauth.Config.{Config}
use xdauth.Deployment.{
  wire_status, decode_poll, decode_start, poll_body, start_body, Earlier, PollAnswer, StartAnswer,
  Connected, unanswered, answered,
}
use xdauth.Deployment.Origin.{
  Called, same_call, Earlier-Called, hint_in, code_in, Started-Birth, Earlier-ApprovedBy,
  ApprovedBy-Started, ApprovedBy-matches,
}
use xdauth.Machine.{
  Artifact, artifact_of, normalizer_of, PollStatus, poll_pending, poll_approved, poll_denied,
  poll_expired, poll_slow_down,
}
use xdauth.Platform.{Platform}
use xdauth.Prelude.{
  ℕ, ◌≤◌, ◌≡◌, ◌≢◌, refl, sym, ap, subst, ◌∙◌, inl, inr, true, List, ◌∷◌, Option, some, arith,
  Option-cases,
}
use xdauth.Prelude.Int.{pos_part}
use xdauth.RateLimit.{Limiting}
use xdauth.Session.{Time, Identity, Session}
use xdauth.Store.{Store, StoreLaws, found}
use xdauth.System.{Call, start_call, poll_call, IdpLaws}
use xdauth.System.Grants.{ApprovedBy, approved_by_before, Grant, artifact_needs_calls}
use xdauth.System.Single.{made_in}
use xdauth.System.Touch.{makes}
use xdauth.Text.{Text, bytes}
use xdauth.Text.Laws.{text_eq_refl}
use xdauth.Tools.{World}
use xdauth.Tools.Laws.{approved_result, Approves}

wire_status-approved : (st : PollStatus) → wire_status st ≡ bytes "approved" → st ≡ poll_approved
unfolding wire_status
wire_status-approved poll_approved h = refl
wire_status-approved poll_pending h = absurd (ground arith)
wire_status-approved poll_denied h = absurd (ground arith)
wire_status-approved poll_expired h = absurd (ground arith)
wire_status-approved poll_slow_down h = absurd (ground arith)

decode_poll-approved :
    (b : Body) (wire : PollWireResponse)
    → decode_poll b ≡ some wire
    → wire.status ≡ bytes "approved"
    → b ≡ json_poll poll_approved wire.artifact
unfolding decode_poll
decode_poll-approved (json_poll st a) wire h e = ground (arith, wire_status-approved st)
decode_poll-approved (json_error code message) wire h e = absurd (ground arith)
decode_poll-approved (json_start reply) wire h e = absurd (ground arith)
decode_poll-approved (result_page t m) wire h e = absurd (ground arith)
decode_poll-approved (approve_page p) wire h e = absurd (ground arith)
decode_poll-approved (redirect u) wire h e = absurd (ground arith)
decode_poll-approved no_body wire h e = absurd (ground arith)

decode_start-reply :
    (reply : StartResponse) (wire : StartWireResponse)
    → decode_start (json_start reply) ≡ some wire
    → (wire.session_id ≡ reply.session_id) × (wire.user_code ≡ reply.user_code)
unfolding decode_start
decode_start-reply reply wire h = (ground arith, ground arith)

module _ ⦃sys : Platform⦄ (L : Limiting) (S : Store) (idp : IdentityProvider) where
  -- The start of the client's session is among the calls.
  record Own (cs : List Call) (wr : StartWireRequest) (wire : StartWireResponse) : Type 0 where
    call : Call
    is_called : Called call cs
    makes_it : makes wire.session_id call ≡ true
    hint : hint_in call ≡ some wr.login_hint
    code : code_in call ≡ some wire.user_code

  StartAnswer-Own :
      {start : Broker L S} {cs : List Call} {wr : StartWireRequest}
      {x : Option (ℕ × Option StartWireResponse)} (wire : StartWireResponse)
      → StartAnswer L S idp start cs wr x
      → x ≡ some (200, some wire)
      → Own cs wr wire
  unfolding makes
  StartAnswer-Own wire unanswered h = absurd (ground arith)
  StartAnswer-Own {wr = wr} wire (answered {b = b} r t ib cb history e) h =
      let answer = (handle_start L S b r (some (start_body wr)) t ib cb).1 in
      let ok : answer.status ≡ 200 = ground arith in
      let d = handle_start-Drawn L S b r (some (start_body wr)) t ib cb ok in
      let decoded : decode_start answer.body ≡ some wire = ground arith in
      let (i, c) = decode_start-reply d.reply wire (ap decode_start (sym d.is_reply) ∙ decoded) in
      record {
        call = start_call r (some (start_body wr)) t ib cb;
        is_called = Earlier-Called e;
        makes_it = ground (arith, d.id_drawn, i, text_eq_refl wire.session_id);
        hint = refl;
        code = d.code_drawn ∙ ap some (sym c);
      }

module _ ⦃sys : Platform⦄ (L : Limiting) (S : Store) (laws : StoreLaws S) (idp : IdentityProvider)
    (idp_laws : IdpLaws idp) (cfg : Config L) where
  -- What stands behind an artifact that a client gets for a session which it has started: its session
  -- is the one that was approved, the identity is its user's, and the artifact is of that identity.
  pub record Backed (cs : List Call) (hint : Text) (sess : client.Session) (a : Artifact)
      : Type 0 where
    pub origin : Session
    pub identity : Identity
    pub signed_in_at : Time
    pub binding_hash : Text
    pub same_id : origin.id ≡ sess.id
    pub same_code : origin.user_code ≡ sess.user_code
    pub same_hint : origin.login_hint ≡ hint
    pub is_user :
        normalizer_of cfg.identity_normalizer identity.value
        ≡ normalizer_of cfg.identity_normalizer hint
    pub approval : ApprovedBy L S idp cfg origin identity signed_in_at binding_hash cs
    pub content : a ≡ artifact_of identity signed_in_at (pos_part cfg.artifact_ttl)

  -- A poll that the client reads as "approved" has an artifact, and a grant.
  PollAnswer-Grant :
      {start : Broker L S} {cs : List Call} {sess : client.Session}
      {x : Option (ℕ × Option PollWireResponse)} (o : Option Artifact)
      → start.cfg ≡ cfg
      → ((later : Time) (id : Text) (x : Session) → S.get start.db later id ≢ found x)
      → PollAnswer L S idp start cs sess x
      → poll_once x ≡ some (bytes "approved", o)
      → (a : Artifact) × (ds : List Call) × (c : Call) × (o ≡ some a)
        × Earlier (c ∷ ds) cs
        × Grant L S laws idp idp_laws cfg ds (poll_body sess) a
  unfolding poll_once
  PollAnswer-Grant o same none_yet unanswered h = absurd (ground arith)
  PollAnswer-Grant {start = start} {sess = sess} o same none_yet
        (answered {ds = ds} {b = b} r t history e) h =
      let answer = (handle_poll L S b r (some (poll_body sess)) t).1 in
      elim (Option-cases (decode_poll answer.body)) [
        | inl d ↦ absurd (ground arith)
        | inr (wire, d) ↦
            let says : wire.status ≡ bytes "approved" = ground arith in
            let full : wire.artifact ≡ o = ground arith in
            let body = decode_poll-approved answer.body wire d says in
            let (a, is_a) =
              handle_poll-filled L S b r (some (poll_body sess)) t wire.artifact body in
            let (q, same_q, g) =
              artifact_needs_calls L S laws idp idp_laws cfg r (some (poll_body sess)) t a same
                none_yet history (body ∙ ap (json_poll poll_approved) is_a) in
            (
              a,
              ds,
              poll_call r (some (poll_body sess)) t,
              sym full ∙ is_a,
              e,
              subst (λ k. Grant L S laws idp idp_laws cfg ds k a) (sym (some_request same_q)) g,
            )
      ]
    where
      some_request : {p q : PollRequest} → some p ≡ some q → p ≡ q
      some_request k = cc

  -- The grant is of the session that the client has started.
  Grant-Backed :
      {cs ds : List Call} {c : Call} {wr : StartWireRequest} {wire : StartWireResponse}
      {a : Artifact} (sess : client.Session)
      → Earlier (c ∷ ds) cs
      → Own L S idp cs wr wire
      → wire.session_id ≡ sess.id
      → wire.user_code ≡ sess.user_code
      → made_in sess.id cs ≤ 1
      → Grant L S laws idp idp_laws cfg ds (poll_body sess) a
      → Backed cs wr.login_hint sess a
  Grant-Backed {wr = wr} sess e own i c once g =
      let approval = Earlier-ApprovedBy L S idp cfg e (approved_by_before g.approval) in
      let birth = Started-Birth L S idp cfg (ApprovedBy-Started L S idp cfg approval) in
      let one : birth.call ≡ own.call =
        same_call sess.id birth.is_called own.is_called
          (subst (λ k. makes k birth.call ≡ true) g.names_origin birth.makes_it)
          (subst (λ k. makes k own.call ≡ true) i own.makes_it) once in
      let hint : some g.origin.login_hint ≡ some wr.login_hint =
        sym birth.hint ∙ ap hint_in one ∙ own.hint in
      let code : some g.origin.user_code ≡ some sess.user_code =
        sym birth.code ∙ ap code_in one ∙ own.code ∙ ap some c in
      let same_hint = some_text hint in
      record {
        origin = g.origin;
        identity = g.identity;
        signed_in_at = g.signed_in_at;
        binding_hash = g.binding_hash;
        same_id = g.names_origin;
        same_code = some_text code;
        same_hint = same_hint;
        is_user =
            ApprovedBy-matches L S idp cfg approval
            ∙ ap (normalizer_of cfg.identity_normalizer) same_hint;
        approval = approval;
        content = g.content;
      }
    where
      some_text : {s t : Text} → some s ≡ some t → s ≡ t
      some_text k = cc

  -- A client that is told "approved", for a session whose id only one start drew: the answer has an
  -- artifact, and behind it stand a sign-in of the user of the start, and the approval of this session.
  pub Approves-Backed :
      {start : Broker L S} {cs : List Call} (w : World) (req : client.StartRequest)
      (sess : client.Session) (o : Option Artifact)
      → start.cfg ≡ cfg
      → ((later : Time) (id : Text) (x : Session) → S.get start.db later id ≢ found x)
      → Connected L S idp start cs w req
      → made_in sess.id cs ≤ 1
      → Approves w req sess o
      → (a : Artifact) × (o ≡ some a) × Backed cs req.login_hint sess a
  Approves-Backed {cs = cs} w req sess o same none_yet net once v =
      let (verifier, challenge, wire, pair, was, made) =
        start_inv w.send req w.random sess v.started in
      let own = StartAnswer-Own L S idp wire (net.starts verifier challenge pair) was in
      let (x, served, says) =
        poll_met sess w.answers (approved_result o) (net.polls sess v.started) v.approved in
      let (a, ds, c, is_a, e, g) = PollAnswer-Grant o same none_yet served says in
      (
        a,
        is_a,
        Grant-Backed sess e own (ap (λ k. k.id) (sym made)) (ap (λ k. k.user_code) (sym made)) once
            g,
      )
