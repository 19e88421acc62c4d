-- ===== src/Tools/Sshd/Laws.antt =====
-- When cmd/xdauth-sshd lets a user in.
use xdauth.Client.{Session, Outcome, finished, poll_failed, unexpected, context_done}
use xdauth.Machine.{Artifact}
use xdauth.Platform.{Platform}
use xdauth.Prelude.{◌≡◌, ◌↔◌, inl, inr, true, none, some, arith, Option-cases}
use xdauth.Text.{Text, bytes, text_eq}
use xdauth.Text.Laws.{text_eq_iff}
use xdauth.Tools.{World, start_in, poll_in}
use xdauth.Tools.Laws.{approved_result, result-approved, Approves}
use xdauth.Tools.Sshd.{
  Connection, permitted, nil_artifact, verdict_of, instruction, ssh_request,
  keyboard_interactive_auth,
}

ssh_outcome :
    (o : Outcome) (i : Text)
    → verdict_of o ≡ permitted i
    → (a : Artifact) × (o ≡ finished (approved_result (some a))) × (a.identity ≡ i)
unfolding verdict_of
ssh_outcome (finished res) i h = elim (Option-cases res.artifact) [
  | inl e ↦ absurd (ground (arith, e))
  | inr (a, e) ↦ (
    a,
    ground (arith, e, text_eq_iff res.status (bytes "approved"), result-approved res),
    ground (arith, e),
  )
]
ssh_outcome poll_failed i h = absurd (ground arith)
ssh_outcome (unexpected t) i h = absurd (ground arith)
ssh_outcome context_done i h = absurd (ground arith)

nil_outcome : (o : Outcome) → verdict_of o ≡ nil_artifact → o ≡ finished (approved_result none)
unfolding verdict_of
nil_outcome (finished res) h = ground (
  arith,
  text_eq_iff res.status (bytes "approved"),
  result-approved res,
  Option-cases res.artifact,
)
nil_outcome poll_failed h = absurd (ground arith)
nil_outcome (unexpected t) h = absurd (ground arith)
nil_outcome context_done h = absurd (ground arith)

module _ ⦃sys : Platform⦄ where
  ssh_forward :
      (w : World) (url : Text) (c : Connection) (i : Text)
      → keyboard_interactive_auth w url c ≡ permitted i
      → (sess : Session) × (a : Artifact) × (c.challenge (instruction sess) ≡ true)
        × Approves w (ssh_request url c) sess (some a)
        × (a.identity ≡ i)
  unfolding keyboard_interactive_auth
  ssh_forward w url c i h = elim (Option-cases (start_in w (ssh_request url c))) [
    | inl e ↦ absurd (ground (arith, e))
    | inr (sess, e) ↦
        let done : verdict_of (poll_in w sess) ≡ permitted i = ground (arith, e) in
        let (a, p, same) = ssh_outcome (poll_in w sess) i done in
        (sess, a, ground (arith, e), record { started = e; approved = p }, same)
  ]

  ssh_backward :
      (w : World) (url : Text) (c : Connection) (i : Text) (sess : Session) (a : Artifact)
      → c.challenge (instruction sess) ≡ true
      → Approves w (ssh_request url c) sess (some a)
      → a.identity ≡ i
      → keyboard_interactive_auth w url c ≡ permitted i
  unfolding keyboard_interactive_auth verdict_of text_eq
  ssh_backward w url c i sess a s v e = ground (arith, v.started, v.approved)

  -- The SSH server lets a user in as `i` exactly when the broker starts the login of the connection's
  -- user, the prompt can be sent, and a poll is answered "approved" with an artifact of the identity `i`.
  pub keyboard_interactive_auth_iff :
      (w : World) (url : Text) (c : Connection) (i : Text)
      → (keyboard_interactive_auth w url c ≡ permitted i) ↔ (
          (sess : Session) × (a : Artifact) × (c.challenge (instruction sess) ≡ true)
          × Approves w (ssh_request url c) sess (some a)
          × (a.identity ≡ i))
  keyboard_interactive_auth_iff w url c i =
      (ssh_forward w url c i, (λ (sess, a, s, v, e). ssh_backward w url c i sess a s v e))

  -- An answer "approved" without an artifact crashes the SSH server.
  pub ssh_nil_artifact :
      (w : World) (url : Text) (c : Connection) (sess : Session)
      → c.challenge (instruction sess) ≡ true
      → Approves w (ssh_request url c) sess none
      → keyboard_interactive_auth w url c ≡ nil_artifact
  unfolding keyboard_interactive_auth verdict_of text_eq
  ssh_nil_artifact w url c sess s v = ground (arith, v.started, v.approved)

  -- The SSH server crashes on no other answer.
  pub ssh_nil_artifact_inv :
      (w : World) (url : Text) (c : Connection)
      → keyboard_interactive_auth w url c ≡ nil_artifact
      → (sess : Session) × Approves w (ssh_request url c) sess none
  unfolding keyboard_interactive_auth
  ssh_nil_artifact_inv w url c h = elim (Option-cases (start_in w (ssh_request url c))) [
    | inl e ↦ absurd (ground (arith, e))
    | inr (sess, e) ↦
        let done : verdict_of (poll_in w sess) ≡ nil_artifact = ground (arith, e) in
        (sess, record { started = e; approved = nil_outcome (poll_in w sess) done })
  ]
