-- ===== src/Tools/Pam/Laws.antt =====
-- When cmd/xdauth-pam lets a user in.
use xdauth.Client.{Session, Outcome, finished, poll_failed, unexpected, context_done}
use xdauth.Machine.{Artifact}
use xdauth.Platform.{Platform}
use xdauth.Prelude.{◌≡◌, ◌↔◌, inl, inr, false, Option, arith, is_empty, Option-cases}
use xdauth.Text.{bytes, text_eq}
use xdauth.Text.Laws.{text_eq_iff}
use xdauth.Tools.{World, start_in, poll_in}
use xdauth.Tools.Laws.{approved_result, result-approved, Approves}
use xdauth.Tools.Pam.{PamEnv, conclude, after_poll, chosen_url, pam_request, pam_run}

pam_outcome :
    (o : Outcome)
    → (after_poll o).code ≡ 0
    → (a : Option Artifact) × (o ≡ finished (approved_result a))
unfolding after_poll conclude
pam_outcome (finished res) h =
    (res.artifact, ground (arith, text_eq_iff res.status (bytes "approved"), result-approved res))
pam_outcome poll_failed h = absurd (ground arith)
pam_outcome (unexpected t) h = absurd (ground arith)
pam_outcome context_done h = absurd (ground arith)

module _ ⦃sys : Platform⦄ where
  pam_forward :
      (w : World) (env : PamEnv)
      → (pam_run w env).code ≡ 0
      → (is_empty (chosen_url env) ≡ false)
        × (is_empty env.pam_user ≡ false)
        × (sess : Session) × (a : Option Artifact) × Approves w (pam_request env) sess a
  unfolding pam_run
  pam_forward w env h = elim (Option-cases (start_in w (pam_request env))) [
    | inl e ↦ absurd (ground (arith, e))
    | inr (sess, e) ↦
        let done : (after_poll (poll_in w sess)).code ≡ 0 = ground (arith, e) in
        let (a, p) = pam_outcome (poll_in w sess) done in
        (ground arith, ground arith, sess, a, record { started = e; approved = p })
  ]

  pam_backward :
      (w : World) (env : PamEnv) (sess : Session) (a : Option Artifact)
      → is_empty (chosen_url env) ≡ false
      → is_empty env.pam_user ≡ false
      → Approves w (pam_request env) sess a
      → (pam_run w env).code ≡ 0
  unfolding pam_run after_poll conclude text_eq
  pam_backward w env sess a u n v = ground (arith, v.started, v.approved)

  -- The PAM helper exits with 0 exactly when it has a broker and a user, the broker starts the login of
  -- that user, and a poll is answered "approved"; whatever else happens, it fails.
  pub pam_run_iff :
      (w : World) (env : PamEnv)
      → ((pam_run w env).code ≡ 0) ↔ (
          (is_empty (chosen_url env) ≡ false)
          × (is_empty env.pam_user ≡ false)
          × (sess : Session) × (a : Option Artifact) × Approves w (pam_request env) sess a)
  pam_run_iff w env = (pam_forward w env, (λ (u, n, sess, a, v). pam_backward w env sess a u n v))
