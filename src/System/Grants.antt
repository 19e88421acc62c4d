-- ===== src/System/Grants.antt =====
-- What the HTTP calls must have been before a poll is answered with an artifact.
use xdauth.Broker.{Broker, IdentityProvider, json_poll}
use xdauth.Broker.Approve.{approve_request}
use xdauth.Broker.Cookies.{read_session_cookie, read_approval_cookie}
use xdauth.Broker.Poll.{PollRequest, handle_poll}
use xdauth.Broker.Poll.Laws.{handle_poll-artifact}
use xdauth.Config.{Config}
use xdauth.Http.{Request, or_empty}
use xdauth.Machine.{
  Artifact, poll, poll_approved, result, artifact_of, new_approval_secret, normalizer_of,
}
use xdauth.Machine.Trace.{Event}
use xdauth.Machine.Trace.Evidence.{
  Bound, bound_now, bound_before, Approved, approved_now, approved_before, release_needs_checks,
}
use xdauth.Pkce.{hash_binding, verify_client_pkce}
use xdauth.Platform.{Platform}
use xdauth.Prelude.{◌≤◌, ◌≡◌, ◌≢◌, refl, sym, subst, ◌∙◌, true, List, ◌∷◌, Option, some}
use xdauth.Prelude.Int.{pos_part}
use xdauth.RateLimit.{Limiting}
use xdauth.Session.{Time, Identity, Session}
use xdauth.Store.{Store, StoreLaws, found}
use xdauth.System.{Call, callback_call, approve_call, IdpLaws, History}
use xdauth.System.Invariant.{Sound, origin_id}
use xdauth.System.Invariant.Calls.{History-Sound}
use xdauth.System.Provenance.{
  run_here, StartedBy, Made, began, elsewhere, expired_by, begun_by, bound_by, submitted_by,
  polled_by,
}
use xdauth.Text.{Text}
use xdauth.UserCode.{codes_equal}

module _ ⦃sys : Platform⦄ (L : Limiting) (S : Store) (idp : IdentityProvider) (cfg : Config L)
    (s₀ : Session) where
  -- A start that passed its guards made the session.
  pub data Started : List Call → Type 0 where
    started_now : {c : Call} {cs : List Call} → StartedBy L S idp cfg s₀ c → Started (c ∷ cs)
    started_before : {c : Call} {cs : List Call} → Started cs → Started (c ∷ cs)

  -- After that a browser with the session's cookie came back from the provider, which vouched for
  -- `i`, at the time `t` and not after the expiry; `i` matches the login hint, and the browser got a
  -- fresh secret of the hash `h`.
  pub data SignedIn (i : Identity) (t : Time) (h : Text) : List Call → Type 0 where
    signed_in_now :
        {r : Request} {sb cb : Option Text} {cs : List Call} (secret : Text) (es : List Event)
        → read_session_cookie r ≡ some s₀.id
        → idp.complete_login r (run_here L S idp cfg s₀ es) ≡ some i
        → normalizer_of cfg.identity_normalizer i.value
          ≡ normalizer_of cfg.identity_normalizer s₀.login_hint
        → new_approval_secret sb ≡ some secret
        → h ≡ hash_binding secret
        → t ≤ s₀.expires_at
        → Started cs
        → SignedIn i t h (callback_call r t sb cb ∷ cs)
    signed_in_before : {c : Call} {cs : List Call} → SignedIn i t h cs → SignedIn i t h (c ∷ cs)

  -- After that a browser with the session's cookie and the secret of that hash sent the form, with
  -- the decision to approve and the session's code, not after the expiry.
  pub data ApprovedBy (i : Identity) (t : Time) (h : Text) : List Call → Type 0 where
    approved_by_now :
        {r : Request} {now : Time} {cs : List Call}
        → read_session_cookie r ≡ some s₀.id
        → (approve_request r s₀.id).approve ≡ true
        → codes_equal (approve_request r s₀.id).user_code s₀.user_code ≡ true
        → hash_binding (or_empty (read_approval_cookie r)) ≡ h
        → now ≤ s₀.expires_at
        → SignedIn i t h cs
        → ApprovedBy i t h (approve_call r now ∷ cs)
    approved_by_before :
        {c : Call} {cs : List Call} → ApprovedBy i t h cs → ApprovedBy i t h (c ∷ cs)

  pub Made-Started : {cs : List Call} {es : List Event} → Made L S idp cfg s₀ cs es → Started cs
  Made-Started (began m) = started_now m
  Made-Started (elsewhere c m) = started_before (Made-Started m)
  Made-Started (expired_by c now m) = started_before (Made-Started m)
  Made-Started (begun_by _ _ _ _ _ m) = started_before (Made-Started m)
  Made-Started (bound_by _ _ _ _ _ m) = started_before (Made-Started m)
  Made-Started (submitted_by _ _ _ m) = started_before (Made-Started m)
  Made-Started (polled_by _ m) = started_before (Made-Started m)

  Made-SignedIn :
      {i : Identity} {t : Time} {h : Text} {cs : List Call} {es : List Event}
      → Made L S idp cfg s₀ cs es
      → Bound cfg.identity_normalizer s₀ i t h es
      → SignedIn i t h cs
  Made-SignedIn (began _) b = elim b [ ]
  Made-SignedIn (elsewhere c m) b = signed_in_before (Made-SignedIn m b)
  Made-SignedIn (expired_by c now m) (bound_before b) = signed_in_before (Made-SignedIn m b)
  Made-SignedIn (begun_by _ _ _ _ _ m) (bound_before b) = signed_in_before (Made-SignedIn m b)
  Made-SignedIn (bound_by i secret cookie vouched fresh m) (bound_now l e k) =
      signed_in_now secret _ cookie vouched e fresh k l (Made-Started m)
  Made-SignedIn (bound_by _ _ _ _ _ m) (bound_before b) = signed_in_before (Made-SignedIn m b)
  Made-SignedIn (submitted_by _ _ _ m) (bound_before b) = signed_in_before (Made-SignedIn m b)
  Made-SignedIn (polled_by _ m) (bound_before b) = signed_in_before (Made-SignedIn m b)

  Made-ApprovedBy :
      {i : Identity} {t : Time} {h : Text} {cs : List Call} {es : List Event}
      → Made L S idp cfg s₀ cs es
      → Approved cfg.identity_normalizer s₀ i t h es
      → ApprovedBy i t h cs
  Made-ApprovedBy (began _) a = elim a [ ]
  Made-ApprovedBy (elsewhere c m) a = approved_by_before (Made-ApprovedBy m a)
  Made-ApprovedBy (expired_by c now m) (approved_before a) =
      approved_by_before (Made-ApprovedBy m a)
  Made-ApprovedBy (begun_by _ _ _ _ _ m) (approved_before a) =
      approved_by_before (Made-ApprovedBy m a)
  Made-ApprovedBy (bound_by _ _ _ _ _ m) (approved_before a) =
      approved_by_before (Made-ApprovedBy m a)
  Made-ApprovedBy (submitted_by cookie token full m) (approved_now l d c p b) =
      approved_by_now cookie d c p l (Made-SignedIn m b)
  Made-ApprovedBy (submitted_by _ _ _ m) (approved_before a) =
      approved_by_before (Made-ApprovedBy m a)
  Made-ApprovedBy (polled_by _ m) (approved_before a) = approved_by_before (Made-ApprovedBy m a)

pub some_artifact : {a a' : Artifact} → some a ≡ some a' → a ≡ a'
some_artifact e = cc

module _ ⦃sys : Platform⦄ (L : Limiting) (S : Store) (laws : StoreLaws S) (idp : IdentityProvider)
    (idp_laws : IdpLaws idp) (cfg : Config L) where
  -- What stands behind an artifact that answers this poll.
  pub record Grant (cs : List Call) (req : PollRequest) (a : Artifact) : Type 0 where
    pub origin : Session
    pub identity : Identity
    pub signed_in_at : Time
    pub binding_hash : Text
    pub names_origin : origin.id ≡ req.session_id
    pub verified : verify_client_pkce req.code_verifier origin.code_challenge ≡ true
    pub approval : ApprovedBy L S idp cfg origin identity signed_in_at binding_hash cs
    pub content : a ≡ artifact_of identity signed_in_at (pos_part cfg.artifact_ttl)

  artifact_earned :
      {cs : List Call} {b : Broker L S} (req : PollRequest) (s : Session) (now : Time)
      (a : Artifact)
      → Sound L S laws idp idp_laws cfg cs b
      → S.get b.db now req.session_id ≡ found s
      → (poll s req.code_verifier now (pos_part b.cfg.artifact_ttl)).1
        ≡ result (record { status = poll_approved; artifact = some a })
      → Grant cs req a
  artifact_earned {b = b} req s now a v g p =
      let (same, t) = v.traced now req.session_id s g in
      let ttl = pos_part cfg.artifact_ttl in
      let here : (poll (run_here L S idp cfg t.origin t.events) req.code_verifier now ttl).1
          ≡ result (record { status = poll_approved; artifact = some a }) =
        subst
          (λ k.
            (poll (run_here L S idp cfg t.origin t.events) req.code_verifier now
              (pos_part k.artifact_ttl)).1
            ≡ result (record { status = poll_approved; artifact = some a }))
          v.same_cfg
          (subst
            (λ x.
              (poll x req.code_verifier now (pos_part b.cfg.artifact_ttl)).1
              ≡ result (record { status = poll_approved; artifact = some a }))
            t.is_run p) in
      let (pkce, i, at, h, approved, content) =
        release_needs_checks cfg.identity_normalizer t.origin ttl t.events req.code_verifier now
          (record { status = poll_approved; artifact = some a }) t.was_pending here refl in
      record {
        origin = t.origin;
        identity = i;
        signed_in_at = at;
        binding_hash = h;
        names_origin = sym (origin_id L S laws idp idp_laws cfg t) ∙ same;
        verified = pkce;
        approval = Made-ApprovedBy L S idp cfg t.origin t.made approved;
        content = some_artifact content;
      }

  -- Of calls that are served one after the other, from a store without sessions on, over any store
  -- and provider that keep their laws: if a poll is then answered with an artifact, then the calls
  -- hold, in this order, a start that passed its guards and made the session that the poll names, a
  -- callback with this session's cookie, not after the expiry, for which the provider vouched for an
  -- identity that matches the login hint, and a form with this session's cookie, its code, the
  -- decision to approve and the secret that the callback gave to the browser, not after the expiry;
  -- the poll's verifier fits the challenge of the start; and the artifact is of that identity.
  pub artifact_needs_calls :
      {start : Broker L S} {cs : List Call} {b : Broker L S} (r : Request)
      (body : Option PollRequest) (now : Time) (a : Artifact)
      → start.cfg ≡ cfg
      → ((later : Time) (id : Text) (x : Session) → S.get start.db later id ≢ found x)
      → History L S idp start cs b
      → (handle_poll L S b r body now).1.body ≡ json_poll poll_approved (some a)
      → (req : PollRequest) × (body ≡ some req) × Grant cs req a
  artifact_needs_calls {b = b} r body now a same none_yet h answer =
      let v = History-Sound L S laws idp idp_laws cfg same none_yet h in
      let (req, s, e, g, p) = handle_poll-artifact L S b r body now a answer in
      (req, e, artifact_earned req s now a v g p)
