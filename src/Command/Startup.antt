-- ===== src/Command/Startup.antt =====
-- `run` of cmd/xdauth-broker/main.go up to the serving of requests, and what it calls. The environment,
-- the files, the network and the flags that package flag leaves are arguments.
pub mod Exits
pub mod Laws
use xdauth.Broker.{IdentityProvider}
use xdauth.ClientAuth.{ClientAuthenticator, parse_client_auth_tokens}
use xdauth.Command.{
  env_or, env_int_or, split_non_empty, parse_cidr_list, Attempt, Discovery, discovered, gave_up,
  context_done, retry_discovery,
}
use xdauth.Config.{Config}
use xdauth.Detect.{second}
use xdauth.Oidc as oidc
use xdauth.Net.{Prefix}
use xdauth.Platform.{Platform}
use xdauth.Prelude.{
  ℕ, suc, ◌+◌, ◌*◌, ◌-◌, Bool, true, false, not, ◌||◌, List, [], ◌∷◌, ◌++◌, map, Option, none, some,
  is_empty, if◌then◌else◌,
}
use xdauth.Prelude.Int.{wrap_int64, ℤ, pos, negsuc}
use xdauth.RateLimit.{Limiting}
use xdauth.Saml as saml
use xdauth.Saml.New as saml_new
use xdauth.Session.{Time, Duration}
use xdauth.Text.{Text, bytes, text_eq, split, trim_right}
use xdauth.Text.Case.{trim_space}

-- A value, or the code with which the process exits.
pub data Startup {ℓ} (A : Type ℓ) : Type ℓ where
  continues : A → Startup A
  exits : ℕ → Startup A

infixl 5 ◌>>=◌
abbrev pub ◌>>=◌ {ℓ κ} : {A : Type ℓ} {B : Type κ} → Startup A → (A → Startup B) → Startup B
continues a >>= f = f a
exits n >>= f = exits n

-- An error message, and the exit.
abbrev pub or_exit {ℓ} : {A : Type ℓ} → Option A → ℕ → Startup A
or_exit none n = exits n
or_exit (some a) n = continues a

-- `os.Getenv`, `os.ReadFile` (`none` is an error) and `strconv.Atoi`.
pub record Environment : Type 0 where
  pub getenv : Text → Text
  pub read_file : Text → Option Text
  pub atoi : Text → Option ℤ

-- The flags of `run`.
pub record Flags : Type 0 where
  pub listen : Text
  pub base_url : Text
  pub protocol : Text
  pub session_ttl_seconds : ℤ
  pub poll_interval_seconds : ℤ
  pub artifact_ttl_seconds : ℤ
  pub abuse_webhook_url : Text
  pub client_auth_tokens : Text
  pub trusted_proxies : Text
  pub allowed_client_cidrs : Text
  pub redis_addr : Text

-- The flags where the command line sets none.
pub default_flags : Environment → Flags
unfolding env_or env_int_or
default_flags env = record {
  listen = env_or (env.getenv (bytes "XDAUTH_LISTEN_ADDR")) (bytes ":8080");
  base_url = env.getenv (bytes "XDAUTH_BASE_URL");
  protocol = env_or (env.getenv (bytes "XDAUTH_PROTOCOL")) (bytes "oidc");
  session_ttl_seconds =
      env_int_or env.atoi (env.getenv (bytes "XDAUTH_SESSION_TTL_SECONDS")) (pos 300);
  poll_interval_seconds =
      env_int_or env.atoi (env.getenv (bytes "XDAUTH_POLL_INTERVAL_SECONDS")) (pos 3);
  artifact_ttl_seconds =
      env_int_or env.atoi (env.getenv (bytes "XDAUTH_ARTIFACT_TTL_SECONDS")) (pos 120);
  abuse_webhook_url = env.getenv (bytes "XDAUTH_ABUSE_WEBHOOK_URL");
  client_auth_tokens = env.getenv (bytes "XDAUTH_CLIENT_AUTH_TOKENS");
  trusted_proxies = env.getenv (bytes "XDAUTH_TRUSTED_PROXIES");
  allowed_client_cidrs = env.getenv (bytes "XDAUTH_ALLOWED_CLIENT_CIDRS");
  redis_addr = env.getenv (bytes "XDAUTH_REDIS_ADDR");
}

-- What the retries meet, one after the other: the time at which an attempt is over, and the issuer's
-- discovery or the fetching of metadata and the randomness; and whether the listener ends well.
pub record Outside : Type 1 where
  pub began : Time
  pub oidc_tries : List (Time × (oidc.Config → Option oidc.OidcClient))
  pub saml_tries : List (Time × saml_new.Toolkit)
  pub listens : Bool

-- The outcome of `retryDiscovery`, as the exit code where it is an error.
abbrev pub or_failure {ℓ} : {A : Type ℓ} → Discovery A → Startup A
or_failure (discovered a) = continues a
or_failure gave_up = exits 1
or_failure context_done = exits 1

module _ ⦃sys : Platform⦄ where
  -- The secret of the file, where one is named, or else of the environment.
  unfoldable pub client_secret : Environment → Startup Text
  client_secret env =
      let path = env.getenv (bytes "XDAUTH_CLIENT_SECRET_FILE") in
      if is_empty path
      then continues (env.getenv (bytes "XDAUTH_CLIENT_SECRET"))
      else elim (env.read_file path) [ none ↦ exits 1 | some b ↦ continues (trim_space b) ]

  unfoldable pub oidc_config : Environment → Text → Text → oidc.Config
  unfolding env_or split_non_empty
  oidc_config env secret base_url = record {
    issuer_url = env.getenv (bytes "XDAUTH_ISSUER_URL");
    client_id = env.getenv (bytes "XDAUTH_CLIENT_ID");
    client_secret = secret;
    redirect_url = base_url ++ bytes "/auth/callback";
    scopes = split (env_or (env.getenv (bytes "XDAUTH_SCOPES")) (bytes "openid,profile")) 44;
    identity_claim =
        env_or (env.getenv (bytes "XDAUTH_IDENTITY_CLAIM")) (bytes "preferred_username");
    required_amr = split_non_empty (env.getenv (bytes "XDAUTH_REQUIRE_AMR"));
  }

  abbrev pub oidc_attempt :
      oidc.Config → Time × (oidc.Config → Option oidc.OidcClient) → Attempt oidc.Provider
  oidc_attempt cfg (t, discover) = record { ended_at = t; found = oidc.new discover cfg }

  abbrev pub lacks_oidc : Environment → Text → Bool
  lacks_oidc env secret =
      is_empty (env.getenv (bytes "XDAUTH_ISSUER_URL"))
      || is_empty (env.getenv (bytes "XDAUTH_CLIENT_ID"))
      || is_empty secret

  -- `newOIDCProvider`
  unfoldable pub new_oidc_provider : Environment → Outside → Text → Startup oidc.Provider
  unfolding client_secret
  new_oidc_provider env out base_url = do
    secret ← client_secret env
    if lacks_oidc env secret
        then exits 2
        else or_failure
            (retry_discovery out.began
              (map (oidc_attempt (oidc_config env secret base_url)) out.oidc_tries)).1

  -- The metadata of the file, where one is named.
  unfoldable pub metadata_xml : Environment → Startup Text
  metadata_xml env =
      let path = env.getenv (bytes "XDAUTH_SAML_IDP_METADATA_FILE") in
      if is_empty path then continues [] else or_exit (env.read_file path) 1

  unfoldable pub saml_config : Environment → Text → Text → saml_new.Config
  saml_config env xml base_url = record {
    entity_id = env.getenv (bytes "XDAUTH_SAML_ENTITY_ID");
    base_url = base_url;
    acs_url = env.getenv (bytes "XDAUTH_SAML_ACS_URL");
    idp_metadata_url = env.getenv (bytes "XDAUTH_SAML_IDP_METADATA_URL");
    idp_metadata_xml = xml;
    identity_attribute = env.getenv (bytes "XDAUTH_SAML_IDENTITY_ATTRIBUTE");
  }

  abbrev pub saml_attempt : saml_new.Config → Time × saml_new.Toolkit → Attempt saml.Provider
  saml_attempt cfg (t, toolkit) = record { ended_at = t; found = saml_new.new toolkit cfg t }

  -- The URL and the file of the metadata are both named, or neither.
  abbrev pub not_one_source : Environment → Bool
  not_one_source env =
      let url = env.getenv (bytes "XDAUTH_SAML_IDP_METADATA_URL") in
      let file = env.getenv (bytes "XDAUTH_SAML_IDP_METADATA_FILE") in
      if is_empty url then is_empty file else not (is_empty file)

  -- `newSAMLProvider`
  unfoldable pub new_saml_provider : Environment → Outside → Text → Startup saml.Provider
  unfolding metadata_xml
  new_saml_provider env out base_url = if not_one_source env then exits 2 else do
    xml ← metadata_xml env
    or_failure
        (retry_discovery out.began
          (map (saml_attempt (saml_config env xml base_url)) out.saml_tries)).1

  -- The provider of the chosen protocol.
  unfoldable pub new_provider : Environment → Outside → Text → Text → Startup IdentityProvider
  unfolding new_oidc_provider new_saml_provider
  new_provider env out protocol base_url =
      if text_eq protocol (bytes "oidc")
      then (new_oidc_provider env out base_url >>= λ p. continues (oidc.oidc_provider p))
      else if text_eq protocol (bytes "saml")
      then (new_saml_provider env out base_url >>= λ p. continues (saml.saml_provider p))
      else exits 2

-- `newSessionStore`: the store in memory with the interval of its sweeper, or a Redis server with its
-- password.
pub data SessionStore : Type 0 where
  in_memory : Duration → SessionStore
  redis_at : (addr password : Text) → SessionStore

unfoldable pub new_session_store : Environment → Text → SessionStore
new_session_store env redis_addr =
    if is_empty redis_addr
    then in_memory (30 * second)
    else redis_at redis_addr (env.getenv (bytes "XDAUTH_REDIS_PASSWORD"))

-- `time.Duration(n) * time.Second`, which is an `int64`
abbrev pub seconds : ℤ → ℤ
seconds (pos n) = wrap_int64 (pos (n * second))
seconds (negsuc n) = wrap_int64 (negsuc (n * second + (second - 1)))

module _ (L : Limiting) (unset : L.Rate) where
  -- What is served.
  pub record Server : Type 0 where
    pub cfg : Config L
    pub store : SessionStore
    pub idp : IdentityProvider
    pub addr : Text

  -- The fields of `broker.Config` that `run` does not set are zero.
  abbrev pub broker_config :
      Flags → Text → ClientAuthenticator → List Prefix → List Prefix → Config L
  broker_config flags base_url auth proxies networks = record {
    base_url = base_url;
    session_ttl = seconds flags.session_ttl_seconds;
    poll_interval = seconds flags.poll_interval_seconds;
    start_rate = unset;
    start_burst = pos 0;
    artifact_ttl = seconds flags.artifact_ttl_seconds;
    identity_normalizer = none;
    abuse_webhook_url = flags.abuse_webhook_url;
    client_authenticator = auth;
    trusted_proxies = proxies;
    allowed_client_cidrs = networks;
  }

  -- The code of an error, or whether `ListenAndServe` ended well.
  abbrev pub exit_code : Bool → Startup Server → ℕ
  exit_code listens (exits n) = n
  exit_code listens (continues server) = if listens then 0 else 1

  module _ ⦃sys : Platform⦄ where
    -- `run` once the provider is there.
    unfoldable pub configure : Environment → Flags → Text → IdentityProvider → Startup Server
    unfolding parse_client_auth_tokens
    configure env flags base_url idp = do
      auth ← or_exit (parse_client_auth_tokens flags.client_auth_tokens) 2
      proxies ← or_exit (parse_cidr_list flags.trusted_proxies) 2
      networks ← or_exit (parse_cidr_list flags.allowed_client_cidrs) 2
      continues (record {
        cfg = broker_config flags base_url auth proxies networks;
        store = new_session_store env flags.redis_addr;
        idp = idp;
        addr = flags.listen;
      })

    -- `run` up to the listening.
    unfoldable pub prepare : Environment → Flags → Outside → Startup Server
    unfolding new_provider configure
    prepare env flags out =
        let base_url = trim_right flags.base_url 47 in
        if is_empty flags.base_url
        then exits 2
        else (new_provider env out flags.protocol base_url >>= configure env flags base_url)

    -- `run`: the exit code.
    unfoldable pub run : Environment → Flags → Outside → ℕ
    unfolding prepare
    run env flags out = exit_code out.listens (prepare env flags out)
