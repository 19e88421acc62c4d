-- ===== src/Tools/Login.antt =====
-- cmd/xdauth-login/main.go
pub mod Laws
use xdauth.Client.{
  StartRequest, Session, Result, Outcome, finished, poll_failed, unexpected, context_done,
}
use xdauth.Platform.{Platform}
use xdauth.Prelude.{Bool, ◌||◌, List, [], ◌∷◌, Option, none, some, is_empty, if◌then◌else◌}
use xdauth.Text.{Text, bytes, text_eq}
use xdauth.Tools.{World, Line, prompt, waiting, shows, fails, Exit, start_in, poll_in}

abbrev pub exit_with : Text → Exit
exit_with what = record { code = 1; lines = fails what ∷ [] }

-- The `switch` on the status, and the `return 0` behind it.
unfoldable pub report : Result → Exit
report res =
    if text_eq res.status (bytes "approved")
    then record { code = 0; lines = shows res.artifact ∷ [] }
    else if text_eq res.status (bytes "denied")
    then exit_with (bytes "sign-in denied")
    else if text_eq res.status (bytes "expired")
    then exit_with (bytes "sign-in expired before approval")
    else record { code = 0; lines = [] }

unfoldable pub after_poll : Outcome → Exit
unfolding report
after_poll (finished res) = report res
after_poll _ = exit_with (bytes "poll failed")

abbrev pub prompted : Session → Exit → Exit
prompted sess e = record e {
  lines = prompt sess.verification_uri sess.user_code ∷ waiting ∷ e.lines;
}

module _ ⦃sys : Platform⦄ where
  abbrev pub login_request : Text → Text → Text → StartRequest
  login_request broker_url login_hint host = record {
    broker_url = broker_url;
    login_hint = login_hint;
    client_kind = bytes "cli";
    client_host = host;
  }

  -- `run`, once the flags are parsed
  unfoldable pub login_run : World → (broker_url login_hint host : Text) → Exit
  unfolding after_poll
  login_run w broker_url login_hint host =
      if is_empty broker_url || is_empty login_hint
      then record { code = 2; lines = fails (bytes "usage") ∷ [] }
      else elim (start_in w (login_request broker_url login_hint host)) [
        | none ↦ exit_with (bytes "start failed")
        | some sess ↦ prompted sess (after_poll (poll_in w sess))
      ]
