-- ===== src/Tools/NativePam.antt =====
-- cmd/xdauth-pam-native/pam_module.go. libpam and cgo are the parameter `PamHandle`; the client's
-- context ends after `sessionTimeout`, so that the answers of the world are those until then.
pub mod Laws
use xdauth.Client.{StartRequest, Session, Result, Outcome, finished}
use xdauth.Detect.{second}
use xdauth.Platform.{Platform}
use xdauth.Prelude.{
  ℕ, zero, suc, ◌*◌, Bool, true, false, not, ◌||◌, List, [], ◌∷◌, ◌++◌, Option, none, some,
  is_empty, if◌then◌else◌,
}
use xdauth.Session.{Duration}
use xdauth.Text.{Text, bytes, text_eq}
use xdauth.Tools.{World, start_in, poll_in}

pub data PamCode : Type 0 where
  pam_success pam_auth_err : PamCode

abbrev pub session_timeout : Duration
session_timeout = 3 * (60 * second)

-- The module's arguments and what the handle holds. `none` is an item that is not set or an error.
pub record PamHandle : Type 0 where
  pub module_args : List Text
  pub user : Option Text
  pub has_conversation : Bool
  pub rhost : Option Text
  -- `send_info_message`, and whether it succeeds
  pub send_info : Text → Bool

-- `moduleArg`
unfoldable pub module_arg : List Text → ℕ → Text
module_arg [] i = []
module_arg (a ∷ args) zero = a
module_arg (a ∷ args) (suc i) = module_arg args i

-- `envItem`
abbrev pub env_item : Option Text → Text
env_item none = []
env_item (some t) = t

abbrev pub prompt_text : Session → Text
prompt_text sess =
    bytes "xdauth: to finish signing in, visit "
    ++ (sess.verification_uri ++ (bytes " and enter the code: " ++ sess.user_code))

unfoldable pub code_of : Outcome → PamCode
code_of (finished res) =
    if not (text_eq res.status (bytes "approved")) then pam_auth_err else pam_success
code_of _ = pam_auth_err

abbrev pub native_request : Text → Text → PamHandle → StartRequest
native_request broker_url user h = record {
  broker_url = broker_url;
  login_hint = user;
  client_kind = bytes "ssh";
  client_host = env_item h.rhost;
}

module _ ⦃sys : Platform⦄ where
  -- From `client.Start` on.
  unfoldable pub sign_in : World → PamHandle → StartRequest → PamCode
  unfolding code_of
  sign_in w h req = elim (start_in w req) [
    | none ↦ pam_auth_err
    | some sess ↦
        if not (h.send_info (prompt_text sess)) then pam_auth_err else code_of (poll_in w sess)
  ]

  -- `pam_sm_authenticate`
  unfoldable pub pam_sm_authenticate : World → PamHandle → PamCode
  unfolding module_arg sign_in
  pam_sm_authenticate w h =
      let broker_url = module_arg h.module_args 0 in
      if is_empty broker_url then pam_auth_err else elim h.user [
        | none ↦ pam_auth_err
        | some user ↦
            if not h.has_conversation
            then pam_auth_err
            else sign_in w h (native_request broker_url user h)
      ]

-- `pam_sm_setcred`
pub pam_sm_setcred : PamCode
pam_sm_setcred = pam_success
