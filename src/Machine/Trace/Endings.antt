-- ===== src/Machine/Trace/Endings.antt =====
-- What is final: the terminal states, and the expiry time.
use xdauth.Machine.{Normalizer, expire_if_needed, bind_identity, approve, poll, is_terminal}
use xdauth.Machine.Trace.{
  Event, begins, expires, binds, submits, polls, step, run, releases, releases_in,
}
use xdauth.Platform.{Platform}
use xdauth.Prelude.{◌<◌, ◌≡◌, ◌≢◌, refl, true, false, List, [], ◌∷◌, Option, arith, All, ◌∙◌}
use xdauth.Session.{Time, Duration, approved, Session}

-- The time of a call; `BeginLogin` reads no clock.
abbrev pub IsLate : Time → Event → Type 0
IsLate t (begins _ _ _ _ _) = Unit
IsLate t (expires now) = t < now
IsLate t (binds _ now _ _) = t < now
IsLate t (submits _ _ now _) = t < now
IsLate t (polls _ now) = t < now

module _ ⦃sys : Platform⦄ (f : Option Normalizer) (ttl : Duration) where
  step-terminal :
      (s : Session) (e : Event) → is_terminal s.state ≡ true → (step f ttl s e).state ≡ s.state
  unfolding step poll approve bind_identity expire_if_needed
  step-terminal s (polls v now) h = ground arith
  step-terminal s (begins a b c d r) h = refl
  step-terminal s (expires now) h = ground arith
  step-terminal s (binds i now b r) h = ground arith
  step-terminal s (submits c d now p) h = ground arith

  run-terminal :
      (s : Session) (es : List Event)
      → is_terminal s.state ≡ true
      → (run f ttl s es).state ≡ s.state
  unfolding run
  run-terminal s [] h = refl
  run-terminal s (e ∷ es) h =
      let same = run-terminal s es h in step-terminal (run f ttl s es) e (rw same h) ∙ same

  release_state :
      (s : Session) (e : Event)
      → s.state ≢ approved
      → (step f ttl s e).state ≢ approved
      → releases ttl s e ≡ false
  unfolding step poll
  release_state s (polls v now) h k = ground arith
  release_state s _ h k = refl

  -- A session that is denied or expired keeps that state whatever calls are made, and none of them
  -- hands out an artifact.
  pub closed_is_final :
      (s : Session) (es : List Event)
      → is_terminal s.state ≡ true
      → s.state ≢ approved
      → ((run f ttl s es).state ≡ s.state) × (releases_in f ttl s es ≡ 0)
  unfolding releases_in
  closed_is_final s [] t h = (run-terminal s [] t, refl)
  closed_is_final s (e ∷ es) t h =
      let before = run-terminal s es t in
      let after = run-terminal s (e ∷ es) t in
      (
        after,
        rw (
          release_state (run f ttl s es) e (rw before h) (unfold run in rw after h),
          (closed_is_final s es t h).1,
        ),
      )

  -- What no late call changes: the expiry, and that the session is not approved.
  record Unapproved (t : Time) (s : Session) : Type 0 where
    expiry : s.expires_at ≡ t
    open_ : s.state ≢ approved

  step-Unapproved :
      (t : Time) (s : Session) (e : Event)
      → IsLate t e
      → Unapproved t s
      → Unapproved t (step f ttl s e)
  unfolding step poll approve bind_identity expire_if_needed
  step-Unapproved t s (polls v now) l u = ground arith
  step-Unapproved t s (begins a b c d r) l u = ground arith
  step-Unapproved t s (expires now) l u = ground arith
  step-Unapproved t s (binds i now b r) l u = ground arith
  step-Unapproved t s (submits c d now p) l u = ground arith

  run-Unapproved :
      (t : Time) (s : Session) (es : List Event)
      → All (IsLate t) es
      → Unapproved t s
      → Unapproved t (run f ttl s es)
  unfolding run
  run-Unapproved t s [] l u = u
  run-Unapproved t s (e ∷ es) l u = step-Unapproved t _ e l.0 (run-Unapproved t s es l.1 u)

  -- Of a session that is not approved: no calls after its expiry approve it, and none of them hands
  -- out an artifact.
  pub late_is_final :
      (s : Session) (es : List Event)
      → s.state ≢ approved
      → All (IsLate s.expires_at) es
      → ((run f ttl s es).state ≢ approved) × (releases_in f ttl s es ≡ 0)
  unfolding releases_in
  late_is_final s [] h l = (unfold run in h, refl)
  late_is_final s (e ∷ es) h l =
      let u : Unapproved s.expires_at s = record { expiry = refl; open_ = h } in
      let before = run-Unapproved s.expires_at s es l.1 u in
      let after = run-Unapproved s.expires_at s (e ∷ es) l u in
      (
        after.open_,
        rw (
          release_state (run f ttl s es) e before.open_ (unfold run in after.open_),
          (late_is_final s es h l.1).1,
        ),
      )
