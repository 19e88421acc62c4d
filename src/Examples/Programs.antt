-- ===== src/Examples/Programs.antt =====
-- The programs, the single use of an artifact, and the start of the broker at concrete inputs.
use xdauth.Command.Startup.{Environment, Outside, Server, default_flags, run}
use xdauth.Command.Startup.Exits.{Misconfigured}
use xdauth.Command.Startup.Laws.{Serves, run_exits}
use xdauth.Client.{Session}
use xdauth.Examples.{demo, counting, request}
use xdauth.Examples.Deployment.{
  world, env, the_request, connection, asked, calls, history, opening, signed_in,
}
use xdauth.Examples.Login.{provider, provider_laws, configured, empty_broker, none_yet}
use xdauth.Examples.Providers.{issuer}
use xdauth.Machine.{Artifact}
use xdauth.Prelude.{
  ℕ, ◌≤◌, ◌≡◌, ◌↔◌, refl, inl, inr, true, false, not, [], ◌∷◌, Option, none, some, arith,
  Bool-cases, if◌then◌else◌,
}
use xdauth.Saml.{ServiceProvider, Provider}
use xdauth.Saml.New.{Config, Toolkit, new}
use xdauth.Saml.New.Laws.{Ready, new_iff}
use xdauth.Store.Memory.{memory_store}
use xdauth.Store.Memory.Laws.{memory_store-StoreLaws, memory_store-Steadfast}
use xdauth.System.{Call, poll_call, serve, History, served}
use xdauth.System.Single.{made_in, handed_out, handed_out-le}
use xdauth.System.Touch.{makes}
use xdauth.Text.{Text, bytes, text_eq}
use xdauth.Tools.{prompt, waiting, shows}
use xdauth.Tools.Laws.{Approves}
use xdauth.Tools.Login.{login_request, login_run}
use xdauth.Tools.Login.Laws.{login_run_iff}
use xdauth.Tools.NativePam.{PamHandle, pam_success, pam_sm_authenticate}
use xdauth.Tools.NativePam.Laws.{LetsIn, pam_sm_authenticate_iff}
use xdauth.Tools.Pam.{pam_run}
use xdauth.Tools.Pam.Laws.{pam_run_iff}
use xdauth.Tools.Sshd.{permitted, keyboard_interactive_auth}
use xdauth.Tools.Sshd.Laws.{keyboard_interactive_auth_iff}

-- The poll that gets the artifact, and the same poll again.
abbrev poll_at : ℕ → Call
poll_at t = poll_call request (some asked) t

abbrev twice :
    History counting memory_store provider empty_broker
      (poll_at 1050 ∷ calls)
      (serve counting memory_store provider
        (serve counting memory_store provider signed_in (poll_at 1040)).0
        (poll_at 1050)).0
twice = served (poll_at 1050) (served (poll_at 1040) history)

one_start : made_in (bytes "61") (poll_at 1050 ∷ calls) ≤ 1
unfolding made_in makes
one_start = elim (Bool-cases (makes (bytes "61") opening)) [
  | inl e ↦ rw e (omega arith)
  | inr e ↦ rw e (omega arith)
]

handed_out-le_example : handed_out counting memory_store provider (bytes "61") twice ≤ 1
handed_out-le_example =
    handed_out-le counting memory_store memory_store-StoreLaws memory_store-Steadfast provider
      provider_laws configured (bytes "61") refl none_yet one_start twice

pam_run_iff_example : ((pam_run world env).code ≡ 0) ↔ (
    (false ≡ false)
    × (false ≡ false)
    × (sess : Session) × (a : Option Artifact) × Approves world the_request sess a)
pam_run_iff_example = pam_run_iff world env

login_run_iff_example :
    let run = login_run world (bytes "https://b") (bytes "alice") (bytes "host") in
    (run.code ≡ 0) ↔ (
      (false ≡ false)
      × (false ≡ false)
      × (sess : Session) × (a : Option Artifact) × Approves world
          (login_request (bytes "https://b") (bytes "alice") (bytes "host"))
          sess
          a
      × (run.lines ≡ prompt sess.verification_uri sess.user_code ∷ waiting ∷ shows a ∷ []))
login_run_iff_example = login_run_iff world (bytes "https://b") (bytes "alice") (bytes "host")

abbrev handle : PamHandle
handle = record {
  module_args = bytes "https://b" ∷ [];
  user = some (bytes "alice");
  has_conversation = true;
  rhost = none;
  send_info = λ t. true;
}

pam_sm_authenticate_iff_example :
    (pam_sm_authenticate world handle ≡ pam_success) ↔ LetsIn world handle
pam_sm_authenticate_iff_example = pam_sm_authenticate_iff world handle

keyboard_interactive_auth_iff_example :
    (keyboard_interactive_auth world (bytes "https://b") connection ≡ permitted (bytes "alice")) ↔ (
      (sess : Session) × (a : Artifact) × (true ≡ true)
      × Approves world the_request sess (some a)
      × (a.identity ≡ bytes "alice"))
keyboard_interactive_auth_iff_example =
    keyboard_interactive_auth_iff world (bytes "https://b") connection (bytes "alice")

abbrev service : ServiceProvider
service = record {
  sso_location = bytes "https://idp/sso";
  make_request = λ url fresh. some (bytes "r1");
  redirect_url = λ id relay. some (bytes "https://idp/sso?r1");
  parse_response = λ r ids. none;
}

abbrev toolkit : Toolkit
toolkit = record {
  Url = Text;
  Metadata = Text;
  Key = ℕ;
  Serial = ℕ;
  Der = Text;
  Cert = Text;
  parse_url = λ t. some t;
  fetch_metadata = λ u. some (bytes "fetched");
  parse_metadata = λ t. some t;
  generate_key = some 7;
  random_serial = some 1;
  create_certificate = λ t k. some (bytes "der");
  parse_certificate = λ d. some d;
  add_ten_years = λ t. t;
  service_provider = λ s. service;
}

abbrev saml_setup : Config
saml_setup = record {
  entity_id = [];
  base_url = bytes "https://b";
  acs_url = [];
  idp_metadata_url = bytes "https://idp/metadata";
  idp_metadata_xml = [];
  identity_attribute = bytes "mail";
}

abbrev saml_made : Provider
saml_made = record { sp = service; identity_attribute = bytes "mail" }

new_iff_example :
    (new toolkit saml_setup 1000 ≡ some saml_made)
    ↔ ((false ≡ false) × (false ≡ not true) × Ready toolkit saml_setup 1000 saml_made)
new_iff_example = new_iff toolkit saml_setup 1000 saml_made

-- The settings for a provider by OpenID Connect, which is there at the first attempt.
abbrev settings : Environment
settings = record {
  getenv = λ name.
      if text_eq name (bytes "XDAUTH_BASE_URL")
      then bytes "https://b/"
      else if text_eq name (bytes "XDAUTH_ISSUER_URL")
      then bytes "https://idp"
      else if text_eq name (bytes "XDAUTH_CLIENT_ID")
      then bytes "c"
      else if text_eq name (bytes "XDAUTH_CLIENT_SECRET")
      then bytes "x"
      else [];
  read_file = λ path. none;
  atoi = λ t. none;
}

abbrev outside : Outside
outside = record {
  began = 0;
  oidc_tries = (1, λ c. some issuer) ∷ [];
  saml_tries = [];
  listens = true;
}

run_exits_example :
    let code = run counting 0 settings (default_flags settings) outside in
    ((code ≡ 2) ↔ Misconfigured settings (default_flags settings) outside)
    × ((code ≡ 0) ↔ (
        (true ≡ true)
        × (server : Server counting 0) × Serves counting 0 settings
            (default_flags settings)
            outside
            server))
    × (code ≤ 2)
run_exits_example = run_exits counting 0 settings (default_flags settings) outside
