-- ===== src/Pkce.antt =====
-- internal/broker/pkce.go, and the approval binding of internal/broker/session.go.
pub mod Laws
use xdauth.Prelude.{ℕ, Bool, false, ◌||◌, is_empty, ◌==◌, if◌then◌else◌}
use xdauth.Platform.{Platform}
use xdauth.Text.{Text, constant_time_compare}
use xdauth.Text.Encoding.{hex, base64}

module _ ⦃sys : Platform⦄ where
  -- The challenge that belongs to a verifier: base64url of its SHA-256.
  unfoldable pub challenge_of : Text → Text
  challenge_of verifier = base64 (sys.sha256 verifier)

  unfoldable pub verify_client_pkce : Text → Text → Bool
  unfolding constant_time_compare
  verify_client_pkce verifier challenge =
      if is_empty verifier || is_empty challenge
      then false
      else constant_time_compare (challenge_of verifier) challenge == 1

  unfoldable pub hash_binding : Text → Text
  hash_binding secret = hex (sys.sha256 secret)
