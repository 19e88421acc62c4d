-- ===== src/Oidc.antt =====
-- internal/oidc/oidc.go: the provider of identities by OpenID Connect. go-oidc and x/oauth2 are the
-- parameter `OidcClient`.
pub mod Laws
use xdauth.Broker.{IdentityProvider}
use xdauth.Http.{Request, lookup, or_empty}
use xdauth.Json.{Value, str, arr, Values, nil, cons, Fields, get_field}
use xdauth.Prelude.{
  Bool, true, false, not, ◌&&◌, ◌||◌, List, [], ◌∷◌, Option, none, some, any, is_empty,
  if◌then◌else◌,
}
use xdauth.Session.{Identity, Session}
use xdauth.Text.{Text, bytes, text_eq}

pub record Config : Type 0 where
  pub issuer_url : Text
  pub client_id : Text
  pub client_secret : Text
  pub redirect_url : Text
  pub scopes : List Text
  pub identity_claim : Text
  pub required_amr : List Text

-- A verified ID token; its claims are `none` where they cannot be decoded.
pub record IdToken : Type 0 where
  pub subject : Text
  pub nonce : Text
  pub claims : Option Fields

-- The client of the issuer, once the issuer is discovered.
pub record OidcClient : Type 0 where
  -- `Exchange` of a code, with the PKCE verifier; `none` is an error. The token response's
  -- "id_token", empty where it is missing or no string.
  pub exchange : Text → Text → Option Text
  -- `Verify` of a raw ID token: its signature, issuer, audience and expiry
  pub verify : Text → Option IdToken
  -- `AuthCodeURL` for a state, a nonce and a PKCE verifier
  pub auth_code_url : Text → Text → Text → Text

pub record Provider : Type 0 where
  pub cfg : Config
  pub client : OidcClient

abbrev pub openid : Text
openid = bytes "openid"

abbrev pub claim_or_default : Text → Text
claim_or_default c = if is_empty c then bytes "preferred_username" else c

abbrev pub scopes_with_openid : List Text → List Text
scopes_with_openid scopes = if any (λ s. text_eq s openid) scopes then scopes else openid ∷ scopes

unfoldable pub with_defaults : Config → Config
with_defaults cfg = record cfg {
  identity_claim = claim_or_default cfg.identity_claim;
  scopes = scopes_with_openid cfg.scopes;
}

-- `New`, with the discovery of the issuer for the completed configuration
unfoldable pub new : (Config → Option OidcClient) → Config → Option Provider
unfolding with_defaults
new discover cfg = elim (discover (with_defaults cfg)) [
  | none ↦ none
  | some client ↦ some (record { cfg = with_defaults cfg; client = client })
]

-- `have[name]`: whether a list holds a string.
pub holds_text : Text → Values → Bool
holds_text name nil = false
holds_text name (cons (str t) vs) = text_eq t name || holds_text name vs
holds_text name (cons _ vs) = holds_text name vs

abbrev pub amr_holds : Option Value → List Text → Bool
amr_holds (some (arr list)) required = any (λ want. holds_text want list) required
amr_holds _ required = false

pub amr_satisfies : Fields → List Text → Bool
unfolding holds_text
amr_satisfies claims required = amr_holds (get_field (bytes "amr") claims) required

-- `value, _ := claims[name].(string)`
abbrev pub text_value : Option Value → Text
text_value (some (str t)) = t
text_value _ = []

-- `Exchange` once the claims are decoded.
pub identity_of : Config → Text → Fields → Option Identity
unfolding amr_satisfies
identity_of cfg subject claims =
    if not (is_empty cfg.required_amr) && not (amr_satisfies claims cfg.required_amr)
    then none
    else let value = text_value (get_field cfg.identity_claim claims) in
      if is_empty value
      then none
      else some (record { subject = subject; value = value; claims = claims })

pub check_token : Config → IdToken → Text → Option Identity
unfolding identity_of
check_token cfg token expected_nonce =
    if not (text_eq token.nonce expected_nonce)
    then none
    else elim token.claims [ none ↦ none | some claims ↦ identity_of cfg token.subject claims ]

pub verify_raw : Provider → Text → Text → Option Identity
unfolding check_token
verify_raw p raw expected_nonce = if is_empty raw then none else elim (p.client.verify raw) [
  | none ↦ none
  | some token ↦ check_token p.cfg token expected_nonce
]

-- `Exchange`; `none` is an error.
pub exchange : Provider → Text → Text → Text → Option Identity
unfolding verify_raw
exchange p code verifier expected_nonce = elim (p.client.exchange code verifier) [
  | none ↦ none
  | some raw ↦ verify_raw p raw expected_nonce
]

-- The random texts of `BeginLogin`, in the order in which they are drawn.
abbrev pub first_of : List Text → Text
first_of [] = []
first_of (t ∷ _) = t

abbrev pub rest_of : List Text → List Text
rest_of [] = []
rest_of (_ ∷ ts) = ts

pub begin_login : Provider → List Text → Session → Session × Option Text
begin_login p fresh sess =
    let verifier = first_of fresh in
    let state = first_of (rest_of fresh) in
    let nonce = first_of (rest_of (rest_of fresh)) in
    (
      record sess {
        idp_state = state;
        idp_nonce = nonce;
        idp_pkce_verifier = verifier;
        protocol = bytes "oidc";
      },
      some (p.client.auth_code_url state nonce verifier),
    )

pub complete_login : Provider → Request → Session → Option Identity
unfolding exchange
complete_login p r sess =
    let state = or_empty (lookup (bytes "state") r.query) in
    let code = or_empty (lookup (bytes "code") r.query) in
    if is_empty state || not (text_eq state sess.idp_state)
    then none
    else if is_empty code
    then none
    else exchange p code sess.idp_pkce_verifier sess.idp_nonce

abbrev pub oidc_provider : Provider → IdentityProvider
oidc_provider p = record { begin_login = begin_login p; complete_login = complete_login p }
