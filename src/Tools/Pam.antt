-- ===== src/Tools/Pam.antt =====
-- cmd/xdauth-pam/main.go
pub mod Laws
use xdauth.Client.{StartRequest, Session, Result, Outcome, finished}
use xdauth.Platform.{Platform}
use xdauth.Prelude.{Bool, List, [], ◌∷◌, ◌++◌, Option, none, some, is_empty, if◌then◌else◌}
use xdauth.Text.{Text, bytes, text_eq}
use xdauth.Tools.{World, Line, prompt, waiting, says, fails, Exit, start_in, poll_in}

-- What `run` reads: the environment (empty where a variable is not set), the first argument, and the
-- host's name.
pub record PamEnv : Type 0 where
  pub broker_url : Text
  pub first_argument : Option Text
  pub pam_user : Text
  pub pam_rhost : Text
  pub hostname : Text

-- `fail`
abbrev pub fail : Text → Exit
fail what = record { code = 1; lines = fails what ∷ [] }

unfoldable pub conclude : Result → Exit
conclude res =
    if text_eq res.status (bytes "approved")
    then record { code = 0; lines = says (bytes "approved.") ∷ [] }
    else if text_eq res.status (bytes "denied")
    then fail (bytes "sign-in denied")
    else if text_eq res.status (bytes "expired")
    then fail (bytes "sign-in expired before approval")
    else fail (bytes "unexpected status")

unfoldable pub after_poll : Outcome → Exit
unfolding conclude
after_poll (finished res) = conclude res
after_poll _ = fail (bytes "could not poll for approval")

-- `os.Args[1]` comes first.
abbrev pub chosen_url : PamEnv → Text
chosen_url env = elim env.first_argument [ none ↦ env.broker_url | some a ↦ a ]

abbrev pub chosen_host : PamEnv → Text
chosen_host env = if is_empty env.pam_rhost then env.hostname else env.pam_rhost

abbrev pub pam_request : PamEnv → StartRequest
pam_request env = record {
  broker_url = chosen_url env;
  login_hint = env.pam_user;
  client_kind = bytes "ssh";
  client_host = chosen_host env;
}

abbrev pub prompted : Session → Exit → Exit
prompted sess e = record e {
  lines = prompt sess.verification_uri sess.user_code ∷ waiting ∷ e.lines;
}

module _ ⦃sys : Platform⦄ where
  unfoldable pub pam_run : World → PamEnv → Exit
  unfolding after_poll
  pam_run w env =
      if is_empty (chosen_url env)
      then fail (bytes "broker URL not set")
      else if is_empty env.pam_user
      then fail (bytes "PAM_USER is not set")
      else elim (start_in w (pam_request env)) [
        | none ↦ fail (bytes "could not start sign-in")
        | some sess ↦ prompted sess (after_poll (poll_in w sess))
      ]
