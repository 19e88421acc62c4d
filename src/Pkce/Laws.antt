-- ===== src/Pkce/Laws.antt =====
-- The PKCE check of pkce.go and the approval binding of session.go, against the hash.
use xdauth.Pkce.{challenge_of, verify_client_pkce, hash_binding}
use xdauth.Platform.{Platform}
use xdauth.Prelude.{◌≡◌, ◌↔◌, ◌≢◌, true, [], arith}
use xdauth.Text.{Text}
use xdauth.Text.Encoding.{hex_injective, base64_injective}
use xdauth.Text.Laws.{text_eq_iff, constant_time_compare_lem}

module _ ⦃sys : Platform⦄ where
  -- The check passes exactly for a verifier that is not empty and whose challenge is the one given,
  -- which is not empty.
  pub verify_client_pkce_iff :
      (v c : Text) → (verify_client_pkce v c ≡ true) ↔ ((v ≢ []) × (c ≢ []) × (challenge_of v ≡ c))
  unfolding verify_client_pkce
  verify_client_pkce_iff v c =
      ground (arith, text_eq_iff (challenge_of v) c, constant_time_compare_lem (challenge_of v) c)

  -- A verifier that passes against the challenge of another has the same SHA-256.
  pub verify_client_pkce_binds :
      (v w : Text) → verify_client_pkce v (challenge_of w) ≡ true → sys.sha256 v ≡ sys.sha256 w
  unfolding challenge_of
  verify_client_pkce_binds v w h =
      base64_injective (sys.sha256 v) (sys.sha256 w) (sys.sha256_bytes v) (sys.sha256_bytes w)
        ((verify_client_pkce_iff v (challenge_of w)).0 h).2

  -- Two secrets with one binding have the same SHA-256.
  pub hash_binding_binds :
      (p q : Text) → hash_binding p ≡ hash_binding q → sys.sha256 p ≡ sys.sha256 q
  unfolding hash_binding
  hash_binding_binds p q = hex_injective _ _ (sys.sha256_bytes p) (sys.sha256_bytes q)
