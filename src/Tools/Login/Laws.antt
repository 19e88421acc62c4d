-- ===== src/Tools/Login/Laws.antt =====
-- When cmd/xdauth-login ends well.
use xdauth.Client.{
  Session, Result, Outcome, finished, poll_failed, unexpected, context_done, is_final,
}
use xdauth.Client.Laws.{poll_final}
use xdauth.Machine.{Artifact}
use xdauth.Platform.{Platform}
use xdauth.Prelude.{
  ◌≡◌, ◌↔◌, refl, inl, inr, true, false, [], ◌∷◌, Option, arith, is_empty, Option-cases,
}
use xdauth.Text.{Text, bytes, text_eq}
use xdauth.Text.Laws.{text_eq_iff}
use xdauth.Tools.{World, prompt, waiting, shows, start_in, poll_in}
use xdauth.Tools.Laws.{approved_result, result-approved, Approves}
use xdauth.Tools.Login.{report, after_poll, login_request, login_run}

login_outcome :
    (o : Outcome)
    → ((res : Result) → o ≡ finished res → is_final res.status ≡ true)
    → (after_poll o).code ≡ 0
    → (a : Option Artifact) × (o ≡ finished (approved_result a))
      × ((after_poll o).lines ≡ shows a ∷ [])
unfolding after_poll report
login_outcome (finished res) f h = (
  res.artifact,
  ground (arith, f res refl, text_eq_iff res.status (bytes "approved"), result-approved res),
  ground (arith, f res refl),
)
login_outcome poll_failed f h = absurd (ground arith)
login_outcome (unexpected t) f h = absurd (ground arith)
login_outcome context_done f h = absurd (ground arith)

module _ ⦃sys : Platform⦄ where
  login_forward :
      (w : World) (url hint host : Text)
      → (login_run w url hint host).code ≡ 0
      → (is_empty url ≡ false)
        × (is_empty hint ≡ false)
        × (sess : Session) × (a : Option Artifact) × Approves w (login_request url hint host) sess a
        × ((login_run w url hint host).lines
            ≡ prompt sess.verification_uri sess.user_code ∷ waiting ∷ shows a ∷ [])
  unfolding login_run
  login_forward w url hint host h = elim (Option-cases (start_in w (login_request url hint host))) [
    | inl e ↦ absurd (ground (arith, e))
    | inr (sess, e) ↦
        let done : (after_poll (poll_in w sess)).code ≡ 0 = ground (arith, e) in
        let (a, p, l) = login_outcome (poll_in w sess) (poll_final sess w.answers) done in
        (
          ground arith,
          ground arith,
          sess,
          a,
          record { started = e; approved = p },
          ground (arith, e, l),
        )
  ]

  login_backward :
      (w : World) (url hint host : Text) (sess : Session) (a : Option Artifact)
      → is_empty url ≡ false
      → is_empty hint ≡ false
      → Approves w (login_request url hint host) sess a
      → (login_run w url hint host).code ≡ 0
  unfolding login_run after_poll report text_eq
  login_backward w url hint host sess a u n v = ground (arith, v.started, v.approved)

  -- The login program exits with 0 exactly when it has a broker and a user, the broker starts a
  -- login with this user as the hint, and a poll is answered "approved"; then it has shown the link, the code and that answer's
  -- artifact, and nothing else.
  pub login_run_iff :
      (w : World) (url hint host : Text)
      → ((login_run w url hint host).code ≡ 0) ↔ (
          (is_empty url ≡ false)
          × (is_empty hint ≡ false)
          × (sess : Session) × (a : Option Artifact) × Approves w
              (record {
                broker_url = url;
                login_hint = hint;
                client_kind = bytes "cli";
                client_host = host;
              })
              sess
              a
          × ((login_run w url hint host).lines
              ≡ prompt sess.verification_uri sess.user_code ∷ waiting ∷ shows a ∷ []))
  login_run_iff w url hint host = (
    login_forward w url hint host,
    (λ (u, n, sess, a, v, l). login_backward w url hint host sess a u n v),
  )
