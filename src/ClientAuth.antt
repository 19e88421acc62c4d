-- ===== src/ClientAuth.antt =====
-- internal/broker/clientauth.go, and the parsing of its tokens in cmd/xdauth-broker/main.go
pub mod Laws
use xdauth.Http.{Request, header}
use xdauth.Prelude.{
  ℕ, Bool, true, false, ◌||◌, List, [], ◌∷◌, Option, none, some, is_empty, if◌then◌else◌, ◌==◌,
}
use xdauth.Text.{Text, bytes, constant_time_compare, strip_prefix, split, cut, text_eq}

-- `StaticTokenClientAuth.Tokens`: tokens and client ids, each token once, in the order in which the
-- loop meets them.
pub record StaticTokenClientAuth : Type 0 where
  pub tokens : List (Text × Text)

-- `none` is `ErrClientNotAuthenticated`.
pub find_token : Text → List (Text × Text) → Option Text
unfolding constant_time_compare
find_token token [] = none
find_token token ((known, id) ∷ rest) =
    if constant_time_compare token known == 1 then some id else find_token token rest

abbrev pub bearer_prefix : Text
bearer_prefix = bytes "Bearer "

unfoldable pub authenticate_static : StaticTokenClientAuth → Request → Option Text
unfolding find_token
authenticate_static a r = elim (strip_prefix bearer_prefix (header r (bytes "Authorization"))) [
  | none ↦ none
  | some token ↦ find_token token a.tokens
]

abbrev pub first_common_name : Option (List Text) → Option Text
first_common_name none = none
first_common_name (some []) = none
first_common_name (some (cn ∷ _)) = some cn

-- `MTLSClientAuth`
unfoldable pub authenticate_mtls : Request → Option Text
authenticate_mtls r = first_common_name r.tls

-- The configured authenticator: none, tokens, or certificates.
pub data ClientAuthenticator : Type 0 where
  open_to_all : ClientAuthenticator
  static_tokens : StaticTokenClientAuth → ClientAuthenticator
  mtls : ClientAuthenticator

-- `tokens[k] = v` in Go's map
unfoldable pub set_token : Text → Text → List (Text × Text) → List (Text × Text)
set_token k v [] = (k, v) ∷ []
set_token k v ((j, w) ∷ m) =
    let rest = set_token k v m in if text_eq j k then (k, v) ∷ m else (j, w) ∷ rest

-- One `token=client_id`; `none` is the error of a malformed entry.
unfoldable pub parse_token_pair : Text → Option (Text × Text)
parse_token_pair pair = elim (cut pair 61) [
  | none ↦ none
  | some (token, id) ↦ if is_empty token || is_empty id then none else some (token, id)
]

unfoldable pub add_token_pairs : List Text → List (Text × Text) → Option (List (Text × Text))
add_token_pairs [] m = some m
add_token_pairs (pair ∷ pairs) m = elim (parse_token_pair pair) [
  | none ↦ none
  | some (token, id) ↦ add_token_pairs pairs (set_token token id m)
]

abbrev pub static_of : Option (List (Text × Text)) → Option ClientAuthenticator
static_of none = none
static_of (some m) = some (static_tokens (record { tokens = m }))

-- `parseClientAuthTokens`; `none` is its error.
unfoldable pub parse_client_auth_tokens : Text → Option ClientAuthenticator
unfolding parse_token_pair add_token_pairs
parse_client_auth_tokens raw =
    if is_empty raw then some open_to_all else static_of (add_token_pairs (split raw 44) [])
