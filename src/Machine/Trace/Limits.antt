-- ===== src/Machine/Trace/Limits.antt =====
-- Counting over a session's life: the artifacts and the wrong codes of session.go.
use xdauth.Machine.{Normalizer, expire_if_needed, bind_identity, approve, poll}
use xdauth.Machine.Trace.{
  Event, begins, expires, binds, submits, polls, step, run, releases, releases_in, misses,
  misses_in, count_if,
}
use xdauth.Platform.{Platform}
use xdauth.Prelude.{ℕ, ◌≤◌, ◌≡◌, refl, ◌⊎◌, inl, true, false, List, [], ◌∷◌, Option, arith}
use xdauth.Session.{Duration, denied, Session}

module _ ⦃sys : Platform⦄ (f : Option Normalizer) (ttl : Duration) where
  pub release_once : (s : Session) (e : Event) → s.consumed ≡ true → releases ttl s e ≡ false
  unfolding poll
  release_once s (polls v now) h = ground arith
  release_once s _ h = refl

  pub release_consumes :
      (s : Session) (e : Event) → releases ttl s e ≡ true → (step f ttl s e).consumed ≡ true
  unfolding step poll
  release_consumes s (polls v now) h = ground arith
  release_consumes s (begins _ _ _ _ _) h = cc
  release_consumes s (expires _) h = cc
  release_consumes s (binds _ _ _ _) h = cc
  release_consumes s (submits _ _ _ _) h = cc

  pub step-consumed :
      (s : Session) (e : Event) → s.consumed ≡ true → (step f ttl s e).consumed ≡ true
  unfolding step poll approve bind_identity expire_if_needed
  step-consumed s (polls v now) h = ground arith
  step-consumed s (begins a b c d r) h = ground arith
  step-consumed s (expires now) h = ground arith
  step-consumed s (binds i now b r) h = ground arith
  step-consumed s (submits c d now p) h = ground arith

  released_state :
      (s : Session) (es : List Event)
      → (releases_in f ttl s es ≡ 0)
        ⊎ ((releases_in f ttl s es ≡ 1) × ((run f ttl s es).consumed ≡ true))
  unfolding releases_in run
  released_state s [] = inl refl
  released_state s (e ∷ es) =
      let t = run f ttl s es in
      ground (arith, released_state s es, release_once t e, release_consumes t e, step-consumed t e)

  -- Whatever calls are made on a session, at most one of them hands out an artifact.
  pub releases_in-le : (s : Session) (es : List Event) → releases_in f ttl s es ≤ 1
  releases_in-le s es = ground (arith, released_state s es)

  -- The attempts of a session that has not run out of them; after the fifth it is denied.
  pub record Counted (s : Session) : Type 0 where
    pub within : s.approve_attempts ≤ 5
    pub spent : s.approve_attempts ≡ 5 → s.state ≡ denied

  step-Counted : (s : Session) (e : Event) → Counted s → Counted (step f ttl s e)
  unfolding step poll approve bind_identity expire_if_needed
  step-Counted s (polls v now) h = ground arith
  step-Counted s (begins a b c d r) h = ground arith
  step-Counted s (expires now) h = ground arith
  step-Counted s (binds i now b r) h = ground arith
  step-Counted s (submits c d now p) h = ground arith

  run-Counted : (s : Session) (es : List Event) → Counted s → Counted (run f ttl s es)
  unfolding run
  run-Counted s [] h = h
  run-Counted s (e ∷ es) h = step-Counted (run f ttl s es) e (run-Counted s es h)

  step-attempts :
      (s : Session) (e : Event) (n : ℕ)
      → s.approve_attempts ≡ n
      → (step f ttl s e).approve_attempts ≡ count_if (misses s e) n
  unfolding step poll approve bind_identity expire_if_needed
  step-attempts s (polls v now) n h = ground arith
  step-attempts s (begins a b c d r) n h = ground arith
  step-attempts s (expires now) n h = ground arith
  step-attempts s (binds i now b r) n h = ground arith
  step-attempts s (submits c d now p) n h = ground arith

  run-attempts :
      (s : Session) (es : List Event)
      → s.approve_attempts ≡ 0
      → (run f ttl s es).approve_attempts ≡ misses_in f ttl s es
  unfolding run misses_in
  run-attempts s [] h = h
  run-attempts s (e ∷ es) h = step-attempts (run f ttl s es) e _ (run-attempts s es h)

  -- Of a session without wrong codes: whatever calls are made on it, at most five are answered as a
  -- wrong code, and after the fifth it is denied.
  pub misses_in-le :
      (s : Session) (es : List Event)
      → s.approve_attempts ≡ 0
      → (misses_in f ttl s es ≤ 5) × (misses_in f ttl s es ≡ 5 → (run f ttl s es).state ≡ denied)
  misses_in-le s es h =
      let v =
        run-Counted s es (record { within = omega arith; spent = λ e. absurd (omega arith) }) in
      ground (arith, run-attempts s es h, v.within, v.spent)
