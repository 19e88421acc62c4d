-- ===== src/Examples/Machine.antt =====
-- The session machine of session.go at concrete inputs.
use xdauth.Examples.{demo, alice, secret, verifier, begun, ready}
use xdauth.Machine.{
  PollResult, poll_approved, result, artifact_of, poll, normalizer_of, default_normalizer,
  is_terminal,
}
use xdauth.Machine.Flow.{honest_login}
use xdauth.Machine.Trace.{Event, binds, submits, polls, run, releases_in, misses_in}
use xdauth.Machine.Trace.Endings.{closed_is_final, late_is_final}
use xdauth.Machine.Trace.Evidence.{Approved, release_needs_checks}
use xdauth.Machine.Trace.Limits.{releases_in-le, misses_in-le}
use xdauth.Pkce.{challenge_of, verify_client_pkce, hash_binding}
use xdauth.Prelude.{ℕ, ◌≤◌, ◌≡◌, ◌≢◌, refl, true, List, [], ◌∷◌, none, some, arith}
use xdauth.Session.{denied, approved, pending, Session}
use xdauth.Text.{Text, bytes, text_eq}
use xdauth.Text.Encoding.{base64}
use xdauth.Text.Case.{to_lower, trim_space}

abbrev honest : List Event
honest =
    submits (bytes "ABCD-EFGH") true 2000 secret
    ∷ binds alice 1500 (hash_binding secret) (some (bytes "c"))
    ∷ []

abbrev artifact_reply : PollResult
artifact_reply = record { status = poll_approved; artifact = some (artifact_of alice 1500 120) }

same_account :
    normalizer_of none (bytes "alice@example.com") ≡ normalizer_of none (bytes " Alice@Example.com")
unfolding normalizer_of default_normalizer to_lower trim_space
same_account = refl

pub right_verifier : verify_client_pkce verifier (challenge_of verifier) ≡ true
unfolding verify_client_pkce challenge_of base64 text_eq
right_verifier = refl

honest_login_example :
    (poll (run none 120 begun honest) verifier 2500 120).1 ≡ result artifact_reply
honest_login_example =
    honest_login begun none 120 alice secret (bytes "c") verifier 1500 2000 2500 refl refl
      (omega arith) (omega arith) same_account right_verifier

release_needs_checks_example :
    (verify_client_pkce verifier (challenge_of verifier) ≡ true)
    × (i : _) × (t : ℕ) × (h : Text) × Approved none begun i t h honest
    × (some (artifact_of alice 1500 120) ≡ some (artifact_of i t 120))
release_needs_checks_example =
    release_needs_checks none begun 120 honest verifier 2500 artifact_reply refl
      honest_login_example refl

-- Two polls of a session that is ready, the second of them a replay.
abbrev replay : List Event
replay = polls verifier 2600 ∷ polls verifier 2500 ∷ []

releases_in-le_example : releases_in none 120 ready replay ≤ 1
releases_in-le_example = releases_in-le none 120 ready replay

misses_in-le_example :
    (misses_in none 120 begun honest ≤ 5)
    × (misses_in none 120 begun honest ≡ 5 → (run none 120 begun honest).state ≡ denied)
misses_in-le_example = misses_in-le none 120 begun honest refl

abbrev refused_session : Session
refused_session = record ready { state = denied }

denied_closed : is_terminal denied ≡ true
unfolding is_terminal
denied_closed = refl

denied≢approved : denied ≢ approved
denied≢approved e = cc

pending≢approved : pending ≢ approved
pending≢approved e = cc

closed_is_final_example :
    ((run none 120 refused_session honest).state ≡ denied)
    × (releases_in none 120 refused_session honest ≡ 0)
closed_is_final_example =
    closed_is_final none 120 refused_session honest denied_closed denied≢approved

abbrev too_late : List Event
too_late = polls verifier 4002 ∷ submits (bytes "ABCD-EFGH") true 4001 secret ∷ []

late_is_final_example :
    ((run none 120 begun too_late).state ≢ approved) × (releases_in none 120 begun too_late ≡ 0)
late_is_final_example =
    late_is_final none 120 begun too_late pending≢approved (omega arith, (omega arith, tt))
