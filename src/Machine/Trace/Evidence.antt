-- ===== src/Machine/Trace/Evidence.antt =====
-- What must have happened before an artifact is handed out: the four checks of session.go, as
-- evidence in the list of calls.
use xdauth.Machine.{
  Normalizer, PollResult, result, poll_approved, normalizer_of, expire_if_needed, bind_identity,
  approve, poll, artifact_of,
}
use xdauth.Machine.Steps.{
  Frozen, Kept, expire-Frozen, expire-awaiting, expire-approved, bind_identity-Frozen,
  approve-Frozen, poll-Frozen, bind_identity-awaiting, bind_identity-approved, approve-awaiting,
  approve-approved, poll-awaiting, poll-approved, poll-Release,
}
use xdauth.Machine.Trace.{Event, begins, expires, binds, submits, polls, step, run, begin_login}
use xdauth.Platform.{Platform}
use xdauth.Prelude.{◌≤◌, ◌≡◌, refl, ◌∙◌, inl, inr, Bool, true, List, [], ◌∷◌, Option, some, arith}
use xdauth.Session.{Time, Duration, pending, awaiting_approval, approved, Identity, Session}
use xdauth.Pkce.{hash_binding, verify_client_pkce}
use xdauth.Text.{Text}
use xdauth.UserCode.{codes_equal}

module _ ⦃sys : Platform⦄ (f : Option Normalizer) (s₀ : Session) where
  -- A callback before the expiry bound `i`, which matches the login hint, and the binding `h`.
  pub data Bound (i : Identity) (t : Time) (h : Text) : List Event → Type 0 where
    bound_now :
        {k : Text} {r : Option Text} {es : List Event}
        → t ≤ s₀.expires_at
        → normalizer_of f i.value ≡ normalizer_of f s₀.login_hint
        → h ≡ k
        → Bound i t h (binds i t k r ∷ es)
    bound_before : {e : Event} {es : List Event} → Bound i t h es → Bound i t h (e ∷ es)

  -- After that callback and before the expiry a browser that holds the secret of the binding
  -- submitted the code of the session, and approved.
  pub data Approved (i : Identity) (t : Time) (h : Text) : List Event → Type 0 where
    approved_now :
        {c p : Text} {d : Bool} {now : Time} {es : List Event}
        → now ≤ s₀.expires_at
        → d ≡ true
        → codes_equal c s₀.user_code ≡ true
        → hash_binding p ≡ h
        → Bound i t h es
        → Approved i t h (submits c d now p ∷ es)
    approved_before : {e : Event} {es : List Event} → Approved i t h es → Approved i t h (e ∷ es)

  -- The evidence that a state of the session carries.
  record Evidence (s : Session) (es : List Event) : Type 0 where
    frozen : Frozen s₀ s
    awaiting :
        s.state ≡ awaiting_approval
        → (i : Identity) × (s.identity ≡ some i) × Bound i s.identity_at s.approval_binding_hash es
    approval :
        s.state ≡ approved
        → (i : Identity) × (s.identity ≡ some i)
          × Approved i s.identity_at s.approval_binding_hash es

  Frozen-trans : {s t u : Session} → Frozen s t → Frozen t u → Frozen s u
  Frozen-trans p q = ground arith

  Bound-Kept :
      {s t : Session} {es : List Event} (e : Event)
      → Kept s t
      → (i : Identity) × (s.identity ≡ some i) × Bound i s.identity_at s.approval_binding_hash es
      → (i : Identity) × (t.identity ≡ some i)
        × Bound i t.identity_at t.approval_binding_hash (e ∷ es)
  Bound-Kept e k (i, p, b) =
      (i, k.same_identity ∙ p, rw (k.same_identity_at, k.same_binding) (bound_before b))

  Approved-Kept :
      {s t : Session} {es : List Event} (e : Event)
      → Kept s t
      → (i : Identity) × (s.identity ≡ some i) × Approved i s.identity_at s.approval_binding_hash es
      → (i : Identity) × (t.identity ≡ some i)
        × Approved i t.identity_at t.approval_binding_hash (e ∷ es)
  Approved-Kept e k (i, p, b) =
      (i, k.same_identity ∙ p, rw (k.same_identity_at, k.same_binding) (approved_before b))

  binds-Evidence :
      (s : Session) (es : List Event) (i : Identity) (now : Time) (h : Text) (r : Option Text)
      → Evidence s es
      → Evidence (bind_identity s i f now h r).0 (binds i now h r ∷ es)
  binds-Evidence s es i now h r v = record {
    frozen = Frozen-trans v.frozen (bind_identity-Frozen s i f now h r);
    awaiting = λ e. elim (bind_identity-awaiting s i f now h r e) [
      | inl (was, k) ↦ Bound-Kept _ k (v.awaiting was)
      | inr (_, late, same, who, at, how) ↦ (
        i,
        who,
        rw (at, how)
            (bound_now (rw v.frozen.same_expiry at late) (rw v.frozen.same_hint at same) refl),
      )
    ];
    approval = λ e.
        let (was, k) = bind_identity-approved s i f now h r e in Approved-Kept _ k (v.approval was);
  }

  submits-Evidence :
      (s : Session) (es : List Event) (c : Text) (d : Bool) (now : Time) (p : Text)
      → Evidence s es
      → Evidence (approve s c d now p).0 (submits c d now p ∷ es)
  submits-Evidence s es c d now p v = record {
    frozen = Frozen-trans v.frozen (approve-Frozen s c d now p);
    awaiting =
        λ e. let (was, k) = approve-awaiting s c d now p e in Bound-Kept _ k (v.awaiting was);
    approval = λ e. elim (approve-approved s c d now p e) [
      | inl (was, k) ↦ Approved-Kept _ k (v.approval was)
      | inr (was, late, yes_, code, how, who, at, same) ↦
          let (i, q, b) = v.awaiting was in
          (
            i,
            who ∙ q,
            rw (at, same)
                (approved_now (rw v.frozen.same_expiry at late) yes_ (rw v.frozen.same_code at code)
                  how b),
          )
    ];
  }

  polls-Evidence :
      (s : Session) (es : List Event) (w : Text) (now : Time) (ttl : Duration)
      → Evidence s es
      → Evidence (poll s w now ttl).0 (polls w now ∷ es)
  polls-Evidence s es w now ttl v = record {
    frozen = Frozen-trans v.frozen (poll-Frozen s w now ttl);
    awaiting = λ e. let (was, k) = poll-awaiting s w now ttl e in Bound-Kept _ k (v.awaiting was);
    approval =
        λ e. let (was, k) = poll-approved s w now ttl e in Approved-Kept _ k (v.approval was);
  }

  begins-Evidence :
      (s : Session) (es : List Event) (a b c d r : Text)
      → Evidence s es
      → Evidence (begin_login s a b c d r) (begins a b c d r ∷ es)
  begins-Evidence s es a b c d r v = record {
    frozen = ground arith;
    awaiting =
        λ e. Bound-Kept {s = s} {t = begin_login s a b c d r} _ (ground arith) (v.awaiting e);
    approval =
        λ e. Approved-Kept {s = s} {t = begin_login s a b c d r} _ (ground arith) (v.approval e);
  }

  expires-Evidence :
      (s : Session) (es : List Event) (now : Time)
      → Evidence s es
      → Evidence (expire_if_needed s now).0 (expires now ∷ es)
  expires-Evidence s es now v = record {
    frozen = Frozen-trans v.frozen (expire-Frozen s now);
    awaiting = λ e. let (was, k) = expire-awaiting s now e in Bound-Kept _ k (v.awaiting was);
    approval = λ e. let (was, k) = expire-approved s now e in Approved-Kept _ k (v.approval was);
  }

  step-Evidence :
      (ttl : Duration) (s : Session) (es : List Event) (e : Event)
      → Evidence s es
      → Evidence (step f ttl s e) (e ∷ es)
  unfolding step
  step-Evidence ttl s es (begins a b c d r) v = begins-Evidence s es a b c d r v
  step-Evidence ttl s es (expires now) v = expires-Evidence s es now v
  step-Evidence ttl s es (binds i now h r) v = binds-Evidence s es i now h r v
  step-Evidence ttl s es (submits c d now p) v = submits-Evidence s es c d now p v
  step-Evidence ttl s es (polls w now) v = polls-Evidence s es w now ttl v

  run-Evidence :
      (ttl : Duration) (es : List Event) → s₀.state ≡ pending → Evidence (run f ttl s₀ es) es
  unfolding run
  run-Evidence ttl [] e = record {
    frozen = ground arith;
    awaiting = λ h. ground arith;
    approval = λ h. ground arith;
  }
  run-Evidence ttl (e ∷ es) p = step-Evidence ttl _ es e (run-Evidence ttl es p)

  pub run-Frozen :
      (ttl : Duration) (es : List Event) → s₀.state ≡ pending → Frozen s₀ (run f ttl s₀ es)
  run-Frozen ttl es p = (run-Evidence ttl es p).frozen

  -- An artifact comes out of a session that began pending only if, in this order, a callback before
  -- the expiry bound an identity that matches the login hint, and a browser holding the secret of
  -- that callback submitted the session's code before the expiry and approved; and only to a poll
  -- whose verifier fits the session's challenge. It holds that identity and the callback's time.
  pub release_needs_checks :
      (ttl : Duration) (es : List Event) (w : Text) (now : Time) (r : PollResult)
      → s₀.state ≡ pending
      → (poll (run f ttl s₀ es) w now ttl).1 ≡ result r
      → r.status ≡ poll_approved
      → (verify_client_pkce w s₀.code_challenge ≡ true)
        × (i : Identity) × (t : Time) × (h : Text) × Approved i t h es
        × (r.artifact ≡ some (artifact_of i t ttl))
  release_needs_checks ttl es w now r p q a =
      let v = run-Evidence ttl es p in
      let out = poll-Release (run f ttl s₀ es) w now ttl r q a in
      let (i, who, b) = v.approval out.was_approved in
      (
        rw v.frozen.same_challenge at out.verified,
        i,
        (run f ttl s₀ es).identity_at,
        (run f ttl s₀ es).approval_binding_hash,
        b,
        out.holds i who,
      )
