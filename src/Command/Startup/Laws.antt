-- ===== src/Command/Startup/Laws.antt =====
-- The exit codes of the broker's command, and what it serves.
use xdauth.Broker.{IdentityProvider}
use xdauth.ClientAuth.{parse_client_auth_tokens}
use xdauth.Command.{parse_cidr_list}
use xdauth.Command.Startup.{
  Startup, continues, exits, Environment, Flags, Outside, new_provider, new_session_store, Server,
  broker_config, exit_code, configure, prepare, run,
}
use xdauth.Platform.{Platform}
use xdauth.Prelude.{
  ◌≤◌, ◌≡◌, ◌↔◌, ◌⊎◌, refl, sym, ap, ◌∙◌, inl, inr, true, false, some, arith, is_empty, Bool-cases,
}
use xdauth.RateLimit.{Limiting}
use xdauth.Text.{Text, trim_right}
use xdauth.Command.Startup.Exits.{
  Startup-cases, Misconfigured, no_base_url, unknown_protocol, oidc_incomplete, saml_sources,
  malformed, provider_exits, provider-IsError, oidc_lacks-exits, saml_sources-exits, saml_not_oidc,
  Malformed, configure-cases,
}

module _ ⦃sys : Platform⦄ (L : Limiting) (unset : L.Rate) where
  -- What is served: with a base URL, a provider, and settings that parse.
  pub record Serves (env : Environment) (flags : Flags) (out : Outside) (server : Server L unset)
      : Type 0 where
    pub has_base : is_empty flags.base_url ≡ false
    pub has_provider :
        new_provider env out flags.protocol (trim_right flags.base_url 47) ≡ continues server.idp
    pub auth :
        parse_client_auth_tokens flags.client_auth_tokens ≡ some server.cfg.client_authenticator
    pub proxies : parse_cidr_list flags.trusted_proxies ≡ some server.cfg.trusted_proxies
    pub networks : parse_cidr_list flags.allowed_client_cidrs ≡ some server.cfg.allowed_client_cidrs
    pub content : server ≡ record {
      cfg =
          broker_config L unset flags
            (trim_right flags.base_url 47)
            server.cfg.client_authenticator
            server.cfg.trusted_proxies
            server.cfg.allowed_client_cidrs;
      store = new_session_store env flags.redis_addr;
      idp = server.idp;
      addr = flags.listen;
    }

  -- How the command gets to the listening, or does not.
  data Prepared (env : Environment) (flags : Flags) (out : Outside)
      : Startup (Server L unset) → Type 0 where
    bad_settings : Misconfigured env flags out → Prepared env flags out (exits 2)
    failure : Prepared env flags out (exits 1)
    serves :
        (server : Server L unset)
        → Serves env flags out server
        → Prepared env flags out (continues server)

  configure-Prepared :
      (env : Environment) (flags : Flags) (out : Outside) (idp : IdentityProvider)
      → is_empty flags.base_url ≡ false
      → new_provider env out flags.protocol (trim_right flags.base_url 47) ≡ continues idp
      → Prepared env flags out (configure L unset env flags (trim_right flags.base_url 47) idp)
  configure-Prepared env flags out idp b e =
      elim (configure-cases L unset env flags (trim_right flags.base_url 47) idp) [
        | inl (x, m) ↦ rw x (bad_settings (malformed idp e m))
        | inr (auth, proxies, networks, a, p, n, x) ↦ rw x (
            serves _ (record {
              has_base = b;
              has_provider = e;
              auth = a;
              proxies = p;
              networks = n;
              content = refl;
            }))
      ]

  prepare-Prepared :
      (env : Environment) (flags : Flags) (out : Outside)
      → Prepared env flags out (prepare L unset env flags out)
  unfolding prepare
  prepare-Prepared env flags out =
      let base_url = trim_right flags.base_url 47 in
      elim (Bool-cases (is_empty flags.base_url)) [
        | inl b ↦ rw (b, prepare) (bad_settings (no_base_url b))
        | inr b ↦ elim (Startup-cases (new_provider env out flags.protocol base_url)) [
          | inr (idp, e) ↦ rw (b, e, prepare) (configure-Prepared env flags out idp b e)
          | inl (n, e) ↦ elim (provider-IsError env out flags.protocol base_url n e) [
            | inl one ↦ rw (b, e, one, prepare) failure
            | inr two ↦
                rw (b, e, two, prepare)
                  (bad_settings (provider_exits env flags out base_url (e ∙ ap exits two)))
          ]
        ]
      ]

  provider_refuses :
      (env : Environment) (flags : Flags) (out : Outside) (base_url : Text)
      → is_empty flags.base_url ≡ false
      → trim_right flags.base_url 47 ≡ base_url
      → Misconfigured env flags out
      → (new_provider env out flags.protocol base_url ≡ exits 2)
        ⊎ ((idp : IdentityProvider) × (new_provider env out flags.protocol base_url ≡ continues idp)
            × Malformed L unset flags)
  unfolding new_provider
  provider_refuses env flags out base_url b t (no_base_url e) = absurd (ground arith)
  provider_refuses env flags out base_url b t (unknown_protocol p q) = inl (rw (p, q, new_provider))
  provider_refuses env flags out base_url b t (oidc_incomplete secret p c l) =
      inl (rw (p, oidc_lacks-exits env out base_url secret c l, new_provider))
  provider_refuses env flags out base_url b t (saml_sources q l) =
      inl (
        rw (saml_not_oidc flags.protocol q, q, saml_sources-exits env out base_url l, new_provider))
  provider_refuses env flags out base_url b t (malformed idp e m) =
      inr (idp, ap (new_provider env out flags.protocol) (sym t) ∙ e, m)

  configure_refuses :
      (env : Environment) (flags : Flags) (base_url : Text) (idp : IdentityProvider)
      → Malformed L unset flags
      → configure L unset env flags base_url idp ≡ exits 2
  configure_refuses env flags base_url idp m =
      elim (configure-cases L unset env flags base_url idp) [
        | inl (x, k) ↦ x
        | inr (auth, proxies, networks, a, p, n, x) ↦ absurd (ground (arith, a, p, n, m))
      ]

  Misconfigured-exits :
      (env : Environment) (flags : Flags) (out : Outside)
      → Misconfigured env flags out
      → prepare L unset env flags out ≡ exits 2
  unfolding prepare
  Misconfigured-exits env flags out m =
      let base_url = trim_right flags.base_url 47 in
      elim (Bool-cases (is_empty flags.base_url)) [
        | inl b ↦ rw (b, prepare)
        | inr b ↦ elim (provider_refuses env flags out base_url b refl m) [
          | inl e ↦ rw (b, e, prepare)
          | inr (idp, e, k) ↦ rw (b, e, prepare) (configure_refuses env flags base_url idp k)
        ]
      ]

  Serves-continues :
      (env : Environment) (flags : Flags) (out : Outside) (server : Server L unset)
      → Serves env flags out server
      → prepare L unset env flags out ≡ continues server
  unfolding prepare configure
  Serves-continues env flags out server v =
      rw (v.has_base, v.has_provider, v.auth, v.proxies, v.networks, prepare)
        (ap continues (sym v.content))

  code-Prepared :
      (env : Environment) (flags : Flags) (out : Outside) (s : Startup (Server L unset))
      → Prepared env flags out s
      → let code = exit_code L unset out.listens s in
        (code ≡ 2 → Misconfigured env flags out)
        × (code ≡ 0
            → (out.listens ≡ true) × (server : Server L unset) × Serves env flags out server)
        × (code ≤ 2)
  code-Prepared env flags out s (bad_settings m) =
      ((λ h. m), (λ h. absurd (omega (arith, h))), omega arith)
  code-Prepared env flags out s failure =
      ((λ h. absurd (omega (arith, h))), (λ h. absurd (omega (arith, h))), omega arith)
  code-Prepared env flags out s (serves server v) =
      ((λ h. absurd (ground (arith, h))), (λ h. (ground (arith, h), server, v)), ground arith)

  -- With 2 the command exits exactly where a setting is wrong: no base URL, an unknown protocol, an
  -- incomplete provider by OpenID Connect, two sources or none for the metadata of SAML, or, once the
  -- provider is there, tokens or networks that do not parse. With 0 it exits exactly where it has
  -- served, with a base URL, a provider and settings that parse, until the listener was closed. In all
  -- other cases it exits with 1.
  pub run_exits :
      (env : Environment) (flags : Flags) (out : Outside)
      → ((run L unset env flags out ≡ 2) ↔ Misconfigured env flags out)
        × ((run L unset env flags out ≡ 0)
            ↔ ((out.listens ≡ true) × (server : Server L unset) × Serves env flags out server))
        × (run L unset env flags out ≤ 2)
  unfolding run
  run_exits env flags out =
      let (wrong, served, bound) =
        code-Prepared env flags out (prepare L unset env flags out)
          (prepare-Prepared env flags out) in
      (
        (wrong, λ m. ap (exit_code L unset out.listens) (Misconfigured-exits env flags out m)),
        (
          served,
          λ (l, server, v).
              ap (exit_code L unset out.listens) (Serves-continues env flags out server v)
              ∙ ap (λ k. exit_code L unset k (continues server)) l,
        ),
        bound,
      )
