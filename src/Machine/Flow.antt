-- ===== src/Machine/Flow.antt =====
-- The honest login in session.go: a callback, a form and a poll.
use xdauth.Machine.{
  Normalizer, result, poll_approved, normalizer_of, bind_identity, approve, poll, artifact_of,
  new_csrf_token,
}
use xdauth.Machine.Steps.{bind_identity-Frozen, approve-Frozen}
use xdauth.Machine.Trace.{binds, submits, step, run}
use xdauth.Platform.{Platform}
use xdauth.Prelude.{
  ℕ, ◌*◌, ◌≤◌, ◌<◌, ◌≡◌, refl, sym, ap, ◌∙◌, true, false, [], ◌∷◌, Option, some, arith, is_empty,
  length,
}
use xdauth.Session.{Time, Duration, pending, awaiting_approval, approved, Identity, Session}
use xdauth.Pkce.{hash_binding, verify_client_pkce}
use xdauth.Text.{Text}
use xdauth.Text.Encoding.{length-hex}
use xdauth.Text.Laws.{text_eq_iff, constant_time_compare_lem}
use xdauth.UserCode.Matching.{codes_equal_refl}

is_empty-length : (t : Text) (n : ℕ) → length t ≡ 2 * n → 0 < n → is_empty t ≡ false
is_empty-length [] n e h = absurd (omega arith)
is_empty-length (c ∷ t) n e h = refl

module _ ⦃sys : Platform⦄ where
  hash_binding-nonempty : (p : Text) → is_empty (hash_binding p) ≡ false
  unfolding hash_binding
  hash_binding-nonempty p =
      is_empty-length _ 32 (omega (arith, length-hex (sys.sha256 p), sys.length-sha256 p))
        (omega arith)

  bind_identity_matching :
      (s : Session) (i : Identity) (f : Option Normalizer) (now : Time) (h b : Text)
      → s.state ≡ pending
      → now ≤ s.expires_at
      → normalizer_of f i.value ≡ normalizer_of f s.login_hint
      → let t = (bind_identity s i f now h (some b)).0 in
        (t.state ≡ awaiting_approval)
        × (t.identity ≡ some i)
        × (t.identity_at ≡ now)
        × (t.approval_binding_hash ≡ h)
        × (t.consumed ≡ s.consumed)
  unfolding bind_identity new_csrf_token
  bind_identity_matching s i f now h b p l e =
      ground (arith, text_eq_iff (normalizer_of f i.value) (normalizer_of f s.login_hint))

  approve_right_code :
      (s : Session) (c : Text) (now : Time) (p : Text)
      → c ≡ s.user_code
      → s.state ≡ awaiting_approval
      → now ≤ s.expires_at
      → s.approval_binding_hash ≡ hash_binding p
      → let t = (approve s c true now p).0 in
        (t.state ≡ approved)
        × (t.identity ≡ s.identity)
        × (t.identity_at ≡ s.identity_at)
        × (t.consumed ≡ s.consumed)
  unfolding approve
  approve_right_code s c now p same a l e = ground (
    arith,
    codes_equal_refl c,
    hash_binding-nonempty p,
    text_eq_iff (hash_binding p) s.approval_binding_hash,
    constant_time_compare_lem (hash_binding p) s.approval_binding_hash,
  )

  poll_right_verifier :
      (s : Session) (i : Identity) (v : Text) (now : Time) (ttl : Duration)
      → s.state ≡ approved
      → s.consumed ≡ false
      → s.identity ≡ some i
      → verify_client_pkce v s.code_challenge ≡ true
      → (poll s v now ttl).1
        ≡ result
            (record { status = poll_approved; artifact = some (artifact_of i s.identity_at ttl) })
  unfolding poll
  poll_right_verifier s i v now ttl a c e w = ground arith

  -- A pending session, unused: if a callback before the expiry binds an identity that matches the
  -- login hint, and the browser that it gave the secret submits the session's code before the
  -- expiry and approves, then a poll with a verifier that fits the challenge gets the artifact.
  pub honest_login :
      (s : Session) (f : Option Normalizer) (ttl : Duration) (i : Identity) (p b v : Text)
      (bound_at approved_at polled_at : Time)
      → s.state ≡ pending
      → s.consumed ≡ false
      → bound_at ≤ s.expires_at
      → approved_at ≤ s.expires_at
      → normalizer_of f i.value ≡ normalizer_of f s.login_hint
      → verify_client_pkce v s.code_challenge ≡ true
      → let es =
          submits s.user_code true approved_at p
          ∷ binds i bound_at (hash_binding p) (some b)
          ∷ [] in
        (poll (run f ttl s es) v polled_at ttl).1
        ≡ result (record { status = poll_approved; artifact = some (artifact_of i bound_at ttl) })
  unfolding run step
  honest_login s f ttl i p b v t₁ t₂ t₃ sp sc l₁ l₂ same pkce =
      let h = hash_binding p in
      let t = (bind_identity s i f t₁ h (some b)).0 in
      let x = bind_identity_matching s i f t₁ h b sp l₁ same in
      let fz = bind_identity-Frozen s i f t₁ h (some b) in
      let y =
        approve_right_code t s.user_code t₂ p (sym fz.same_code) x.0 (rw fz.same_expiry l₂) x.3 in
      let gz = approve-Frozen t s.user_code true t₂ p in
      let u = (approve t s.user_code true t₂ p).0 in
      let fits : verify_client_pkce v u.code_challenge ≡ true =
        rw (gz.same_challenge, fz.same_challenge) pkce in
      poll_right_verifier u i v t₃ ttl y.0 (y.3 ∙ x.4 ∙ sc) (y.1 ∙ x.1) fits
      ∙ ap (λ t. result (record { status = poll_approved; artifact = some (artifact_of i t ttl) }))
          (y.2 ∙ x.2)
