-- ===== src/Oidc/Laws.antt =====
-- Whom the OpenID Connect provider vouches for.
use xdauth.Http.{Request, lookup, or_empty}
use xdauth.Json.{Fields, get_field}
use xdauth.Oidc.{
  Config, IdToken, Provider, openid, with_defaults, new, amr_satisfies, text_value, identity_of,
  check_token, verify_raw, exchange, first_of, rest_of, begin_login, complete_login, oidc_provider,
  OidcClient,
}
use xdauth.Prelude.{
  ◌≡◌, ◌↔◌, ◌⊎◌, refl, inl, inr, true, false, ◌∷◌, Option, some, arith, any, is_empty, Option-cases,
}
use xdauth.Session.{Identity, Session}
use xdauth.System.{IdpLaws}
use xdauth.Text.{Text, bytes, text_eq}
use xdauth.Text.Laws.{text_eq_iff, text_eq_refl}

-- What stands behind an identity: the browser brought the state of the session, its code was
-- exchanged with the session's PKCE verifier for an ID token that verifies and has the session's
-- nonce, the required authentication methods are met, and the value is that of the identity claim.
pub record Vouched (p : Provider) (r : Request) (s : Session) (i : Identity) : Type 0 where
  pub code : Text
  pub raw : Text
  pub token : IdToken
  pub same_state : or_empty (lookup (bytes "state") r.query) ≡ s.idp_state
  pub has_state : is_empty s.idp_state ≡ false
  pub has_code : (or_empty (lookup (bytes "code") r.query) ≡ code) × (is_empty code ≡ false)
  pub exchanged : (p.client.exchange code s.idp_pkce_verifier ≡ some raw) × (is_empty raw ≡ false)
  pub verified : p.client.verify raw ≡ some token
  pub same_nonce : token.nonce ≡ s.idp_nonce
  pub has_claims : token.claims ≡ some i.claims
  pub same_subject : i.subject ≡ token.subject
  pub strong :
      (is_empty p.cfg.required_amr ≡ true) ⊎ (amr_satisfies i.claims p.cfg.required_amr ≡ true)
  pub is_value : text_value (get_field p.cfg.identity_claim i.claims) ≡ i.value
  pub has_value : is_empty i.value ≡ false

identity_of_inv :
    (cfg : Config) (subject : Text) (claims : Fields) (i : Identity)
    → identity_of cfg subject claims ≡ some i
    → (i.subject ≡ subject)
      × (i.claims ≡ claims)
      × ((is_empty cfg.required_amr ≡ true) ⊎ (amr_satisfies claims cfg.required_amr ≡ true))
      × (text_value (get_field cfg.identity_claim claims) ≡ i.value)
      × (is_empty i.value ≡ false)
unfolding identity_of
identity_of_inv cfg subject claims i h = ground arith

check_token_inv :
    (cfg : Config) (token : IdToken) (nonce : Text) (i : Identity)
    → check_token cfg token nonce ≡ some i
    → (token.nonce ≡ nonce)
      × (claims : Fields) × (token.claims ≡ some claims)
      × (identity_of cfg token.subject claims ≡ some i)
unfolding check_token
check_token_inv cfg token nonce i h = elim (Option-cases token.claims) [
  | inl c ↦ absurd (ground arith)
  | inr (claims, c) ↦ ground (arith, text_eq_iff token.nonce nonce)
]

exchange_inv :
    (p : Provider) (code verifier nonce : Text) (i : Identity)
    → exchange p code verifier nonce ≡ some i
    → (raw : Text) × (token : IdToken) × (p.client.exchange code verifier ≡ some raw)
      × (is_empty raw ≡ false)
      × (p.client.verify raw ≡ some token)
      × (check_token p.cfg token nonce ≡ some i)
unfolding exchange verify_raw
exchange_inv p code verifier nonce i h = elim (Option-cases (p.client.exchange code verifier)) [
  | inl c ↦ absurd (ground arith)
  | inr (raw, c) ↦ elim (Option-cases (p.client.verify raw)) [
    | inl v ↦ absurd (ground arith)
    | inr (token, v) ↦ ground arith
  ]
]

complete_login_inv :
    (p : Provider) (r : Request) (s : Session) (i : Identity)
    → complete_login p r s ≡ some i
    → let code = or_empty (lookup (bytes "code") r.query) in
      (or_empty (lookup (bytes "state") r.query) ≡ s.idp_state)
      × (is_empty s.idp_state ≡ false)
      × (is_empty code ≡ false)
      × (exchange p code s.idp_pkce_verifier s.idp_nonce ≡ some i)
unfolding complete_login
complete_login_inv p r s i h =
    ground (arith, text_eq_iff (or_empty (lookup (bytes "state") r.query)) s.idp_state)

pub complete_login-Vouched :
    (p : Provider) (r : Request) (s : Session) (i : Identity)
    → complete_login p r s ≡ some i
    → Vouched p r s i
complete_login-Vouched p r s i h =
    let (same_state, has_state, has_code, e) = complete_login_inv p r s i h in
    let code = or_empty (lookup (bytes "code") r.query) in
    let (raw, token, exchanged, has_raw, verified, c) =
      exchange_inv p code s.idp_pkce_verifier s.idp_nonce i e in
    let (nonce, claims, decoded, made) = check_token_inv p.cfg token s.idp_nonce i c in
    let (subject, same, strong, value, has_value) =
      identity_of_inv p.cfg token.subject claims i made in
    record {
      code = code;
      raw = raw;
      token = token;
      same_state = same_state;
      has_state = has_state;
      has_code = (refl, has_code);
      exchanged = (exchanged, has_raw);
      verified = verified;
      same_nonce = nonce;
      has_claims = rw same decoded;
      same_subject = subject;
      strong = rw same strong;
      is_value = rw same value;
      has_value = has_value;
    }

identity_of_made :
    (p : Provider) (r : Request) (s : Session) (i : Identity) (v : Vouched p r s i)
    → identity_of p.cfg v.token.subject i.claims ≡ some i
unfolding identity_of
identity_of_made p r s i v = ground (arith, v.same_subject, v.strong, v.is_value, v.has_value)

exchange_made :
    (p : Provider) (r : Request) (s : Session) (i : Identity) (v : Vouched p r s i)
    → exchange p v.code s.idp_pkce_verifier s.idp_nonce ≡ some i
unfolding exchange verify_raw check_token
exchange_made p r s i v = ground (
  arith,
  v.exchanged,
  v.verified,
  v.same_nonce,
  v.has_claims,
  text_eq_refl s.idp_nonce,
  identity_of_made p r s i v,
)

Vouched-complete_login :
    (p : Provider) (r : Request) (s : Session) (i : Identity)
    → Vouched p r s i
    → complete_login p r s ≡ some i
unfolding complete_login
Vouched-complete_login p r s i v = ground (
  arith,
  v.same_state,
  v.has_state,
  v.has_code,
  text_eq_refl s.idp_state,
  exchange_made p r s i v,
)

-- The provider vouches for an identity exactly where: the browser brought the session's state, which
-- is not empty, and a code; the code was exchanged with the session's PKCE verifier for an ID token
-- that verifies and has the session's nonce; its claims hold a required authentication method, where
-- some are required; and the identity is the token's subject with its claims, of which the value of
-- the identity claim is not empty.
pub complete_login_iff :
    (p : Provider) (r : Request) (s : Session) (i : Identity)
    → (complete_login p r s ≡ some i) ↔ Vouched p r s i
complete_login_iff p r s i = (complete_login-Vouched p r s i, Vouched-complete_login p r s i)

-- `BeginLogin` writes the correlation values of a session only, as the broker relies on.
pub oidc_provider-IdpLaws : (p : Provider) → IdpLaws (oidc_provider p)
unfolding begin_login
oidc_provider-IdpLaws p = record {
  begins = λ fresh s. (
    bytes "oidc",
    first_of (rest_of fresh),
    first_of (rest_of (rest_of fresh)),
    first_of fresh,
    s.saml_request_id,
    refl,
  );
}

-- The provider that `New` makes asks for the scope "openid" and every configured scope, has an
-- identity claim, and is the client that was discovered for that configuration.
pub new_completes :
    (discover : Config → Option OidcClient) (cfg : Config) (p : Provider)
    → new discover cfg ≡ some p
    → (discover p.cfg ≡ some p.client)
      × (any (λ s. text_eq s openid) p.cfg.scopes ≡ true)
      × ((p.cfg.scopes ≡ cfg.scopes) ⊎ (p.cfg.scopes ≡ openid ∷ cfg.scopes))
      × (is_empty p.cfg.identity_claim ≡ false)
      × (p.cfg.required_amr ≡ cfg.required_amr)
unfolding new with_defaults
new_completes discover cfg p h = elim (Option-cases (discover (with_defaults cfg))) [
  | inl e ↦ absurd (ground arith)
  | inr (client, e) ↦ ground (arith, text_eq_refl openid)
]
