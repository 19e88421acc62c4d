-- ===== src/Command/Startup/Exits.antt =====
-- Which code the steps of the broker's start-up exit with.
use xdauth.Broker.{IdentityProvider}
use xdauth.ClientAuth.{ClientAuthenticator, parse_client_auth_tokens}
use xdauth.Command.{parse_cidr_list, Discovery, discovered, gave_up, context_done}
use xdauth.Command.Startup.{
  Startup, continues, exits, Environment, Flags, Outside, or_failure, client_secret, lacks_oidc,
  new_oidc_provider, metadata_xml, not_one_source, new_saml_provider, new_provider,
  new_session_store, broker_config, configure,
}
use xdauth.Net.{Prefix}
use xdauth.Platform.{Platform}
use xdauth.Prelude.{
  ℕ, ◌≡◌, ◌⊎◌, refl, inl, inr, true, false, List, none, some, arith, is_empty, Bool-cases,
  Option-cases,
}
use xdauth.RateLimit.{Limiting}
use xdauth.Text.{Text, bytes, text_eq, trim_right}
use xdauth.Text.Laws.{text_eq_iff}

pub Startup-cases {ℓ} :
    {A : Type ℓ} (s : Startup A) → ((n : ℕ) × (s ≡ exits n)) ⊎ ((a : A) × (s ≡ continues a))
Startup-cases (exits n) = inl (n, refl)
Startup-cases (continues a) = inr (a, refl)

or_failure-exits {ℓ} : {A : Type ℓ} (d : Discovery A) (n : ℕ) → or_failure d ≡ exits n → n ≡ 1
or_failure-exits (discovered a) n h = absurd (ground arith)
or_failure-exits gave_up n h = ground arith
or_failure-exits context_done n h = ground arith

-- The codes of an error.
abbrev pub IsError : ℕ → Type 0
IsError n = (n ≡ 1) ⊎ (n ≡ 2)

module _ ⦃sys : Platform⦄ where
  -- A setting that the command cannot work with, of those that it gets to see.
  pub data Misconfigured (env : Environment) (flags : Flags) (out : Outside) : Type 0 where
    no_base_url : is_empty flags.base_url ≡ true → Misconfigured env flags out
    unknown_protocol :
        text_eq flags.protocol (bytes "oidc") ≡ false
        → text_eq flags.protocol (bytes "saml") ≡ false
        → Misconfigured env flags out
    oidc_incomplete :
        (secret : Text)
        → text_eq flags.protocol (bytes "oidc") ≡ true
        → client_secret env ≡ continues secret
        → lacks_oidc env secret ≡ true
        → Misconfigured env flags out
    saml_sources :
        text_eq flags.protocol (bytes "saml") ≡ true
        → not_one_source env ≡ true
        → Misconfigured env flags out
    malformed :
        (idp : IdentityProvider)
        → new_provider env out flags.protocol (trim_right flags.base_url 47) ≡ continues idp
        → ((parse_client_auth_tokens flags.client_auth_tokens ≡ none)
            ⊎ ((parse_cidr_list flags.trusted_proxies ≡ none)
                ⊎ (parse_cidr_list flags.allowed_client_cidrs ≡ none)))
        → Misconfigured env flags out

  client_secret-exits : (env : Environment) (n : ℕ) → client_secret env ≡ exits n → n ≡ 1
  unfolding client_secret
  client_secret-exits env n h = ground arith

  metadata_xml-exits : (env : Environment) (n : ℕ) → metadata_xml env ≡ exits n → n ≡ 1
  unfolding metadata_xml
  metadata_xml-exits env n h = ground arith

  oidc_exits :
      (env : Environment) (out : Outside) (base_url : Text)
      → new_oidc_provider env out base_url ≡ exits 2
      → (secret : Text) × (client_secret env ≡ continues secret) × (lacks_oidc env secret ≡ true)
  unfolding new_oidc_provider
  oidc_exits env out base_url h = elim (Startup-cases (client_secret env)) [
    | inl (n, e) ↦ absurd (ground (arith, e, client_secret-exits env n e))
    | inr (secret, e) ↦ elim (Bool-cases (lacks_oidc env secret)) [
      | inl l ↦ (secret, e, l)
      | inr l ↦ absurd (ground (arith, or_failure-exits _ 2 (rw (e, l, new_oidc_provider) at h)))
    ]
  ]

  saml_exits :
      (env : Environment) (out : Outside) (base_url : Text)
      → new_saml_provider env out base_url ≡ exits 2
      → not_one_source env ≡ true
  unfolding new_saml_provider
  saml_exits env out base_url h = elim (Bool-cases (not_one_source env)) [
    | inl l ↦ l
    | inr l ↦ elim (Startup-cases (metadata_xml env)) [
      | inl (n, e) ↦ absurd (ground (arith, e, metadata_xml-exits env n e))
      | inr (xml, e) ↦
          absurd (ground (arith, or_failure-exits _ 2 (rw (e, l, new_saml_provider) at h)))
    ]
  ]

  oidc-IsError :
      (env : Environment) (out : Outside) (base_url : Text) (n : ℕ)
      → new_oidc_provider env out base_url ≡ exits n
      → IsError n
  unfolding new_oidc_provider
  oidc-IsError env out base_url n h = elim (Startup-cases (client_secret env)) [
    | inl (m, e) ↦ inl (ground (arith, e, client_secret-exits env m e))
    | inr (secret, e) ↦ elim (Bool-cases (lacks_oidc env secret)) [
      | inl l ↦ inr (ground (arith, e, l))
      | inr l ↦ inl (or_failure-exits _ n (rw (e, l, new_oidc_provider) at h))
    ]
  ]

  saml-IsError :
      (env : Environment) (out : Outside) (base_url : Text) (n : ℕ)
      → new_saml_provider env out base_url ≡ exits n
      → IsError n
  unfolding new_saml_provider
  saml-IsError env out base_url n h = elim (Bool-cases (not_one_source env)) [
    | inl l ↦ inr (ground (arith, l))
    | inr l ↦ elim (Startup-cases (metadata_xml env)) [
      | inl (m, e) ↦ inl (ground (arith, e, l, metadata_xml-exits env m e))
      | inr (xml, e) ↦ inl (or_failure-exits _ n (rw (e, l, new_saml_provider) at h))
    ]
  ]

  pub provider-IsError :
      (env : Environment) (out : Outside) (protocol base_url : Text) (n : ℕ)
      → new_provider env out protocol base_url ≡ exits n
      → IsError n
  unfolding new_provider
  provider-IsError env out protocol base_url n h =
      elim (Startup-cases (new_oidc_provider env out base_url)) [
        | inl (m, e) ↦ elim (Startup-cases (new_saml_provider env out base_url)) [
          | inl (k, d) ↦
              ground
                (arith, e, d, oidc-IsError env out base_url m e, saml-IsError env out base_url k d)
          | inr (p, d) ↦ ground (arith, e, d, oidc-IsError env out base_url m e)
        ]
        | inr (p, e) ↦ elim (Startup-cases (new_saml_provider env out base_url)) [
          | inl (k, d) ↦ ground (arith, e, d, saml-IsError env out base_url k d)
          | inr (q, d) ↦ ground (arith, e, d)
        ]
      ]

  pub provider_exits :
      (env : Environment) (flags : Flags) (out : Outside) (base_url : Text)
      → new_provider env out flags.protocol base_url ≡ exits 2
      → Misconfigured env flags out
  unfolding new_provider
  provider_exits env flags out base_url h =
      elim (Bool-cases (text_eq flags.protocol (bytes "oidc"))) [
        | inl p ↦ elim (Startup-cases (new_oidc_provider env out base_url)) [
          | inr (idp, e) ↦ absurd (ground (arith, p, e))
          | inl (n, e) ↦
              let (secret, c, l) = oidc_exits env out base_url (ground (arith, p, e)) in
              oidc_incomplete secret p c l
        ]
        | inr p ↦ elim (Bool-cases (text_eq flags.protocol (bytes "saml"))) [
          | inr q ↦ unknown_protocol p q
          | inl q ↦ elim (Startup-cases (new_saml_provider env out base_url)) [
            | inr (idp, e) ↦ absurd (ground (arith, p, q, e))
            | inl (n, e) ↦ saml_sources q (saml_exits env out base_url (ground (arith, p, q, e)))
          ]
        ]
      ]

  pub oidc_lacks-exits :
      (env : Environment) (out : Outside) (base_url secret : Text)
      → client_secret env ≡ continues secret
      → lacks_oidc env secret ≡ true
      → new_oidc_provider env out base_url ≡ exits 2
  unfolding new_oidc_provider
  oidc_lacks-exits env out base_url secret c l = rw (c, l, new_oidc_provider)

  pub saml_sources-exits :
      (env : Environment) (out : Outside) (base_url : Text)
      → not_one_source env ≡ true
      → new_saml_provider env out base_url ≡ exits 2
  unfolding new_saml_provider
  saml_sources-exits env out base_url l = rw (l, new_saml_provider)

  pub saml_not_oidc :
      (t : Text) → text_eq t (bytes "saml") ≡ true → text_eq t (bytes "oidc") ≡ false
  saml_not_oidc t h = ground (arith, text_eq_iff t (bytes "saml"), text_eq_iff t (bytes "oidc"))

  module _ (L : Limiting) (unset : L.Rate) where
    abbrev pub Malformed : Flags → Type 0
    Malformed flags =
        (parse_client_auth_tokens flags.client_auth_tokens ≡ none)
        ⊎ ((parse_cidr_list flags.trusted_proxies ≡ none)
            ⊎ (parse_cidr_list flags.allowed_client_cidrs ≡ none))

    pub configure-cases :
        (env : Environment) (flags : Flags) (base_url : Text) (idp : IdentityProvider)
        → ((configure L unset env flags base_url idp ≡ exits 2) × Malformed flags)
          ⊎ ((auth : ClientAuthenticator) × (proxies : List Prefix) × (networks : List Prefix)
              × (parse_client_auth_tokens flags.client_auth_tokens ≡ some auth)
              × (parse_cidr_list flags.trusted_proxies ≡ some proxies)
              × (parse_cidr_list flags.allowed_client_cidrs ≡ some networks)
              × (configure L unset env flags base_url idp
                  ≡ continues (record {
                    cfg = broker_config L unset flags base_url auth proxies networks;
                    store = new_session_store env flags.redis_addr;
                    idp = idp;
                    addr = flags.listen;
                  })))
    unfolding configure
    configure-cases env flags base_url idp =
        elim (Option-cases (parse_client_auth_tokens flags.client_auth_tokens)) [
          | inl a ↦ inl (rw (a, configure), inl a)
          | inr (auth, a) ↦ elim (Option-cases (parse_cidr_list flags.trusted_proxies)) [
            | inl p ↦ inl (rw (a, p, configure), inr (inl p))
            | inr (proxies, p) ↦ elim (Option-cases (parse_cidr_list flags.allowed_client_cidrs)) [
              | inl n ↦ inl (rw (a, p, n, configure), inr (inr n))
              | inr (networks, n) ↦ inr (auth, proxies, networks, a, p, n, rw (a, p, n, configure))
            ]
          ]
        ]
