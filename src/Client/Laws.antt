-- ===== src/Client/Laws.antt =====
-- What the client sends, how long it waits, and when its loop ends.
use xdauth.Client.{
  StartRequest, Session, StartWireRequest, StartWireResponse, PollWireResponse, slower, Outcome,
  finished, poll_failed, unexpected, context_done, new_pkce_pair, wire_request, session_of,
  read_start, start, poll_once, is_final, poll_loop, Result, poll,
}
use xdauth.Pkce.{challenge_of, verify_client_pkce}
use xdauth.Pkce.Laws.{verify_client_pkce_iff}
use xdauth.Platform.{Platform}
use xdauth.Prelude.{
  ℕ, ◌<◌, ◌≡◌, ◌≢◌, refl, inl, inr, Bool, true, false, ◌||◌, List, [], ◌∷◌, ◌++◌, Option, none,
  some, all, All, arith, length, Option-cases, Bool-cases, if◌then◌else◌,
}
use xdauth.Prelude.Int.{ℤ}
use xdauth.Text.{Text, bytes, text_eq, trim_right}
use xdauth.Text.Encoding.{base64}

base64-nonempty : (t : Text) → 0 < length t → base64 t ≢ []
unfolding base64
base64-nonempty [] l e = absurd (omega arith)
base64-nonempty (a ∷ []) l e = cc
base64-nonempty (a ∷ b ∷ []) l e = cc
base64-nonempty (a ∷ b ∷ c ∷ t) l e = cc

module _ ⦃sys : Platform⦄ where
  new_pkce_pair_fits :
      (raw v c : Text)
      → 0 < length raw
      → new_pkce_pair (some raw) ≡ some (v, c)
      → verify_client_pkce v c ≡ true
  unfolding new_pkce_pair challenge_of
  new_pkce_pair_fits raw v c l e =
      let full = sys.length-sha256 (base64 raw) in
      let fits =
        (verify_client_pkce_iff (base64 raw) (challenge_of (base64 raw))).1
          (base64-nonempty raw l, base64-nonempty (sys.sha256 (base64 raw)) (omega arith), refl) in
      ground (arith, fits)

  read_start_inv :
      (req : StartRequest) (v : Text) (answer : Option (ℕ × Option StartWireResponse)) (s : Session)
      → read_start req v answer ≡ some s
      → (wire : StartWireResponse) × (answer ≡ some (200, some wire)) × (s ≡ session_of req v wire)
  unfolding read_start
  read_start_inv req v (some (status, some wire)) s h = (wire, ground arith, ground arith)
  read_start_inv req v (some (status, none)) s h = absurd (ground arith)
  read_start_inv req v none s h = absurd (ground arith)

  -- Where `Start` succeeds, it has sent a challenge, and read an answer of the status 200.
  pub start_inv :
      (send : Text → StartWireRequest → Option (ℕ × Option StartWireResponse)) (req : StartRequest)
      (random : Option Text) (s : Session)
      → start send req random ≡ some s
      → (v : Text) × (c : Text) × (wire : StartWireResponse) × (new_pkce_pair random ≡ some (v, c))
        × (send (trim_right req.broker_url 47 ++ bytes "/auth/start") (wire_request req c)
            ≡ some (200, some wire))
        × (s ≡ session_of req v wire)
  unfolding start
  start_inv send req random s h = elim (Option-cases (new_pkce_pair random)) [
    | inl e ↦ absurd (ground arith)
    | inr ((v, c), e) ↦
        let answer =
          send (trim_right req.broker_url 47 ++ bytes "/auth/start") (wire_request req c) in
        let read : read_start req v answer ≡ some s = ground arith in
        let (wire, was, made) = read_start_inv req v answer s read in (v, c, wire, e, was, made)
  ]

  -- Where `Start` succeeds, from random bytes that are not none, the broker was sent a challenge that
  -- the verifier which the session keeps passes, by the broker's own check, with the request's login
  -- hint; and the session has the id, code and link of the broker's answer.
  pub start_fits_challenge :
      (send : Text → StartWireRequest → Option (ℕ × Option StartWireResponse)) (req : StartRequest)
      (raw : Text) (s : Session)
      → 0 < length raw
      → start send req (some raw) ≡ some s
      → (challenge : Text) × (wire : StartWireResponse) × (send
            (trim_right req.broker_url 47 ++ bytes "/auth/start")
            (wire_request req challenge)
          ≡ some (200, some wire))
        × (verify_client_pkce s.verifier challenge ≡ true)
        × (s.id ≡ wire.session_id)
        × (s.user_code ≡ wire.user_code)
        × (s.verification_uri ≡ wire.verification_uri)
  start_fits_challenge send req raw s l h =
      let (v, c, wire, e, was, made) = start_inv send req (some raw) s h in
      (
        c,
        wire,
        was,
        ground (arith, made, new_pkce_pair_fits raw v c l e),
        ground (arith, made),
        ground (arith, made),
        ground (arith, made),
      )

abbrev pub Answer : Type 0
Answer = Option (ℕ × Option PollWireResponse)

-- An answer after which the client polls again.
abbrev pub is_waiting : Answer → Bool
is_waiting a = elim (poll_once a) [
  | none ↦ false
  | some (st, artifact) ↦ text_eq st (bytes "pending") || text_eq st (bytes "slow_down")
]

-- What `Poll` returns for another answer.
abbrev pub outcome_of : Answer → Outcome
outcome_of a = elim (poll_once a) [
  | none ↦ poll_failed
  | some (st, artifact) ↦
      if is_final st then finished (record { status = st; artifact = artifact }) else unexpected st
]

-- The loop ends at the first answer that is neither "pending" nor "slow_down", with its outcome, and
-- it waited once for each answer before; what would come later does not matter. If there is no such
-- answer until the context is done, it returns the context's error.
pub poll_loop_ends :
    (interval : ℤ) (waiting later : List Answer) (a : Answer)
    → all is_waiting waiting ≡ true
    → is_waiting a ≡ false
    → ((poll_loop interval (waiting ++ a ∷ later)).1 ≡ outcome_of a)
      × (length (poll_loop interval (waiting ++ a ∷ later)).0 ≡ length waiting)
      × ((poll_loop interval waiting).1 ≡ context_done)
unfolding poll_loop
poll_loop_ends interval [] later a w n = ground arith
poll_loop_ends interval (x ∷ waiting) later a w n = ground (
  arith,
  poll_loop_ends interval waiting later a,
  poll_loop_ends (slower interval) waiting later a,
)

poll_loop_final :
    (interval : ℤ) (answers : List (Option (ℕ × Option PollWireResponse))) (res : Result)
    → (poll_loop interval answers).1 ≡ finished res
    → is_final res.status ≡ true
unfolding poll_loop
poll_loop_final interval [] res h = absurd (ground arith)
poll_loop_final interval (a ∷ answers) res h =
    ground
      (arith, poll_loop_final interval answers res, poll_loop_final (slower interval) answers res)

-- `Poll` returns no result but for the three final states.
pub poll_final :
    (s : Session) (answers : List (Option (ℕ × Option PollWireResponse))) (res : Result)
    → (poll s answers).1 ≡ finished res
    → is_final res.status ≡ true
unfolding poll
poll_final s answers res h = poll_loop_final _ answers res h

-- A result of `Poll` is what one of the answers says, with whatever holds of all of them.
poll_loop_met {ℓ} :
    {P : Answer → Type ℓ} (interval : ℤ) (answers : List Answer) (res : Result)
    → All P answers
    → (poll_loop interval answers).1 ≡ finished res
    → (a : Answer) × P a × (poll_once a ≡ some (res.status, res.artifact))
unfolding poll_loop
poll_loop_met interval [] res ps h = absurd (ground arith)
poll_loop_met {P = P} interval (a ∷ answers) res (p, ps) h = elim (Option-cases (poll_once a)) [
  | inl e ↦ absurd (ground arith)
  | inr ((st, artifact), e) ↦ elim (Bool-cases (text_eq st (bytes "pending"))) [
    | inl w ↦ poll_loop_met {P = P} interval answers res ps (ground arith)
    | inr w ↦ elim (Bool-cases (text_eq st (bytes "slow_down"))) [
      | inl v ↦ poll_loop_met {P = P} (slower interval) answers res ps (ground arith)
      | inr v ↦ (a, p, ground arith)
    ]
  ]
]

pub poll_met {ℓ} :
    {P : Answer → Type ℓ} (s : Session) (answers : List Answer) (res : Result)
    → All P answers
    → (poll s answers).1 ≡ finished res
    → (a : Answer) × P a × (poll_once a ≡ some (res.status, res.artifact))
unfolding poll
poll_met {P = P} s answers res ps h = poll_loop_met {P = P} _ answers res ps h
