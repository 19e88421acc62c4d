-- ===== src/Machine/Steps.antt =====
-- What a change of state says of the operation that made it (session.go): inversions of
-- `bind_identity`, `approve` and `poll`, one for each state that counts.
use xdauth.Machine.{
  StartParams, new_session, fresh_session, new_session_id, Normalizer, PollResult, result,
  poll_approved, normalizer_of, bind_identity, approve, poll, artifact_of, expire_if_needed,
}
use xdauth.Platform.{Platform}
use xdauth.Prelude.{
  ◌+◌, ◌≤◌, ◌≡◌, ◌⊎◌, inl, inr, Bool, true, false, Option, some, arith, Option-cases,
}
use xdauth.Session.{Time, Duration, pending, awaiting_approval, approved, Identity, Session}
use xdauth.Pkce.{hash_binding, verify_client_pkce}
use xdauth.Text.{Text}
use xdauth.Text.Laws.{text_eq_iff, constant_time_compare_lem}
use xdauth.UserCode.{generate_user_code, codes_equal}

-- The fields that no operation of the machine writes.
pub record Frozen (s t : Session) : Type 0 where
  pub same_id : t.id ≡ s.id
  pub same_hint : t.login_hint ≡ s.login_hint
  pub same_challenge : t.code_challenge ≡ s.code_challenge
  pub same_code : t.user_code ≡ s.user_code
  pub same_expiry : t.expires_at ≡ s.expires_at

-- The fields that the checks read stay as they were.
pub record Kept (s t : Session) : Type 0 where
  pub same_state : t.state ≡ s.state
  pub same_identity : t.identity ≡ s.identity
  pub same_identity_at : t.identity_at ≡ s.identity_at
  pub same_binding : t.approval_binding_hash ≡ s.approval_binding_hash

-- What a new session has of the request and of the random bytes.
pub record Fresh (p : StartParams) (ib cb : Option Text) (s : Session) : Type 0 where
  pub id_drawn : new_session_id ib ≡ some s.id
  pub code_drawn : generate_user_code cb ≡ some s.user_code
  pub hint : s.login_hint ≡ p.login_hint
  pub challenge : s.code_challenge ≡ p.code_challenge
  pub is_pending : s.state ≡ pending
  pub is_unused : s.consumed ≡ false

pub new_session-Fresh :
    (p : StartParams) (ttl interval : Duration) (now : Time) (ib cb : Option Text) (s : Session)
    → new_session p ttl interval now ib cb ≡ some s
    → Fresh p ib cb s
unfolding new_session fresh_session
new_session-Fresh p ttl interval now ib cb s h = elim (Option-cases (new_session_id ib)) [
  | inl e ↦ absurd (ground arith)
  | inr (id, e) ↦ elim (Option-cases (generate_user_code cb)) [
    | inl d ↦ absurd (ground arith)
    | inr (code, d) ↦ record {
      id_drawn = ground arith;
      code_drawn = ground arith;
      hint = ground arith;
      challenge = ground arith;
      is_pending = ground arith;
      is_unused = ground arith;
    }
  ]
]

pub new_session-expires_at :
    (p : StartParams) (ttl interval : Duration) (now : Time) (ib cb : Option Text) (s : Session)
    → new_session p ttl interval now ib cb ≡ some s
    → s.expires_at ≡ now + ttl
unfolding new_session fresh_session
new_session-expires_at p ttl interval now ib cb s h = elim (Option-cases (new_session_id ib)) [
  | inl e ↦ absurd (ground arith)
  | inr (id, e) ↦ elim (Option-cases (generate_user_code cb)) [
    | inl d ↦ absurd (ground arith)
    | inr (code, d) ↦ ground arith
  ]
]

-- What a poll that hands out an artifact has seen.
pub record Release ⦃sys : Platform⦄ (s : Session) (v : Text) (ttl : Duration) (r : PollResult)
    : Type 0 where
  pub was_approved : s.state ≡ approved
  pub was_unused : s.consumed ≡ false
  pub verified : verify_client_pkce v s.code_challenge ≡ true
  pub holds :
      (i : Identity) → s.identity ≡ some i → r.artifact ≡ some (artifact_of i s.identity_at ttl)

pub expire-Frozen : (s : Session) (now : Time) → Frozen s (expire_if_needed s now).0
unfolding expire_if_needed
expire-Frozen s now = ground arith

pub expire-awaiting :
    (s : Session) (now : Time)
    → (expire_if_needed s now).0.state ≡ awaiting_approval
    → (s.state ≡ awaiting_approval) × Kept s (expire_if_needed s now).0
unfolding expire_if_needed
expire-awaiting s now e = ground arith

pub expire-approved :
    (s : Session) (now : Time)
    → (expire_if_needed s now).0.state ≡ approved
    → (s.state ≡ approved) × Kept s (expire_if_needed s now).0
unfolding expire_if_needed
expire-approved s now e = ground arith

-- A session that is not found expired is left as it is.
pub expire_kept :
    (s : Session) (now : Time) → (expire_if_needed s now).1 ≡ false → (expire_if_needed s now).0 ≡ s
unfolding expire_if_needed
expire_kept s now e = ground arith

module _ ⦃sys : Platform⦄ where
  pub bind_identity-Frozen :
      (s : Session) (i : Identity) (f : Option Normalizer) (now : Time) (h : Text) (r : Option Text)
      → Frozen s (bind_identity s i f now h r).0
  unfolding bind_identity
  bind_identity-Frozen s i f now h r = ground arith

  pub approve-Frozen :
      (s : Session) (c : Text) (d : Bool) (now : Time) (p : Text) → Frozen s (approve s c d now p).0
  unfolding approve
  approve-Frozen s c d now p = ground arith

  pub poll-Frozen :
      (s : Session) (v : Text) (now : Time) (ttl : Duration) → Frozen s (poll s v now ttl).0
  unfolding poll
  poll-Frozen s v now ttl = ground arith

  -- Awaiting approval after a callback: the callback bound a matching identity, or did nothing.
  pub bind_identity-awaiting :
      (s : Session) (i : Identity) (f : Option Normalizer) (now : Time) (h : Text) (r : Option Text)
      → let t = (bind_identity s i f now h r).0 in
        t.state ≡ awaiting_approval
        → ((s.state ≡ awaiting_approval) × Kept s t)
          ⊎ ((s.state ≡ pending)
              × (now ≤ s.expires_at)
              × (normalizer_of f i.value ≡ normalizer_of f s.login_hint)
              × (t.identity ≡ some i)
              × (t.identity_at ≡ now)
              × (t.approval_binding_hash ≡ h))
  unfolding bind_identity
  bind_identity-awaiting s i f now h r e =
      ground (arith, text_eq_iff (normalizer_of f i.value) (normalizer_of f s.login_hint))

  pub bind_identity-approved :
      (s : Session) (i : Identity) (f : Option Normalizer) (now : Time) (h : Text) (r : Option Text)
      → let t = (bind_identity s i f now h r).0 in
        t.state ≡ approved → (s.state ≡ approved) × Kept s t
  unfolding bind_identity
  bind_identity-approved s i f now h r e = ground arith

  pub approve-awaiting :
      (s : Session) (c : Text) (d : Bool) (now : Time) (p : Text)
      → let t = (approve s c d now p).0 in
        t.state ≡ awaiting_approval → (s.state ≡ awaiting_approval) × Kept s t
  unfolding approve
  approve-awaiting s c d now p e = ground arith

  -- Approved after a form submission: it carried the right code and the bound browser's secret
  -- in time, or the session was approved before.
  pub approve-approved :
      (s : Session) (c : Text) (d : Bool) (now : Time) (p : Text)
      → let t = (approve s c d now p).0 in
        t.state ≡ approved
        → ((s.state ≡ approved) × Kept s t)
          ⊎ ((s.state ≡ awaiting_approval)
              × (now ≤ s.expires_at)
              × (d ≡ true)
              × (codes_equal c s.user_code ≡ true)
              × (hash_binding p ≡ s.approval_binding_hash)
              × (t.identity ≡ s.identity)
              × (t.identity_at ≡ s.identity_at)
              × (t.approval_binding_hash ≡ s.approval_binding_hash))
  unfolding approve
  approve-approved s c d now p e = ground (
    arith,
    text_eq_iff (hash_binding p) s.approval_binding_hash,
    constant_time_compare_lem (hash_binding p) s.approval_binding_hash,
  )

  pub poll-awaiting :
      (s : Session) (v : Text) (now : Time) (ttl : Duration)
      → let t = (poll s v now ttl).0 in
        t.state ≡ awaiting_approval → (s.state ≡ awaiting_approval) × Kept s t
  unfolding poll
  poll-awaiting s v now ttl e = ground arith

  pub poll-approved :
      (s : Session) (v : Text) (now : Time) (ttl : Duration)
      → let t = (poll s v now ttl).0 in t.state ≡ approved → (s.state ≡ approved) × Kept s t
  unfolding poll
  poll-approved s v now ttl e = ground arith

  pub poll-Release :
      (s : Session) (v : Text) (now : Time) (ttl : Duration) (r : PollResult)
      → (poll s v now ttl).1 ≡ result r
      → r.status ≡ poll_approved
      → Release s v ttl r
  unfolding poll
  poll-Release s v now ttl r e a = ground arith
