-- ===== src/Examples/Providers.antt =====
-- The two providers and the client at concrete inputs.
use xdauth.Client as client
use xdauth.Client.Laws.{Answer, outcome_of, start_fits_challenge, poll_loop_ends}
use xdauth.Client.Waits.{Ascending, poll_loop-Ascending}
use xdauth.Examples.{demo, request, begun, alice}
use xdauth.Http.{Request}
use xdauth.Json.{str, arr, cons, nil, Fields, end, field}
use xdauth.Oidc as oidc
use xdauth.Oidc.Laws as oidc_laws
use xdauth.Pkce.{verify_client_pkce}
use xdauth.Prelude.{ℕ, ◌≡◌, ◌↔◌, refl, true, List, [], ◌∷◌, ◌++◌, Option, none, some, length, arith}
use xdauth.Prelude.Int.{pos, negsuc}
use xdauth.Saml as saml
use xdauth.Saml.Flatten.{or_none}
use xdauth.Saml.Laws as saml_laws
use xdauth.Session.{Identity, Session}
use xdauth.Text.{Text, bytes, text_eq, trim_right}
use xdauth.Text.Encoding.{base64}

abbrev claims : Fields
claims =
    field (bytes "amr") (arr (cons (str (bytes "hwk")) nil))
      (field (bytes "preferred_username") (str (bytes "alice@example.com")) end)

abbrev pub issuer : oidc.OidcClient
issuer = record {
  exchange = λ code verifier. some (bytes "jwt");
  verify = λ raw. some (record { subject = bytes "s1"; nonce = bytes "n"; claims = some claims });
  auth_code_url = λ state nonce verifier. bytes "https://idp";
}

abbrev oidc_config : oidc.Config
oidc_config = record {
  issuer_url = bytes "https://idp";
  client_id = bytes "c";
  client_secret = bytes "x";
  redirect_url = bytes "https://b/auth/callback";
  scopes = bytes "profile" ∷ [];
  identity_claim = bytes "preferred_username";
  required_amr = bytes "hwk" ∷ [];
}

abbrev oidc_demo : oidc.Provider
oidc_demo = record { cfg = oidc_config; client = issuer }

abbrev in_login : Session
in_login = record begun {
  idp_state = bytes "st";
  idp_nonce = bytes "n";
  idp_pkce_verifier = bytes "v";
}

abbrev back : Request
back = record request { query = (bytes "state", bytes "st") ∷ (bytes "code", bytes "k") ∷ [] }

abbrev vouched : Identity
vouched = record { subject = bytes "s1"; value = bytes "alice@example.com"; claims = claims }

complete_login_iff_example :
    (oidc.complete_login oidc_demo back in_login ≡ some vouched)
    ↔ oidc_laws.Vouched oidc_demo back in_login vouched
complete_login_iff_example = oidc_laws.complete_login_iff oidc_demo back in_login vouched

abbrev completed : oidc.Provider
completed = record {
  cfg = record oidc_config { scopes = bytes "openid" ∷ bytes "profile" ∷ [] };
  client = issuer;
}

made : oidc.new (λ c. some issuer) oidc_config ≡ some completed
unfolding oidc.new oidc.with_defaults text_eq
made = refl

abbrev assertion : saml.Assertion
assertion = record {
  id = bytes "a1";
  subject = some (some (bytes "alice"));
  attribute_statements =
      (record { friendly_name = bytes "mail"; name = bytes "oid"; values = bytes "m1" ∷ [] } ∷ [])
      ∷ (record { friendly_name = []; name = bytes "mail"; values = bytes "m2" ∷ [] } ∷ [])
      ∷ [];
}

abbrev saml_demo : saml.Provider
saml_demo = record {
  sp = record {
    sso_location = bytes "https://idp/sso";
    make_request = λ url fresh. some (bytes "r1");
    redirect_url = λ id relay. some (bytes "https://idp/sso?r1");
    parse_response = λ r ids. some assertion;
  };
  identity_attribute = bytes "mail";
}

attribute_claims-named_example :
    or_none (saml.values_of (bytes "mail") (saml.attribute_claims assertion))
    ≡ bytes "m1" ∷ bytes "m2" ∷ []
unfolding text_eq
attribute_claims-named_example = saml_laws.attribute_claims-named assertion (bytes "mail")

abbrev posted : Request
posted = record request { post_form = (bytes "RelayState", bytes "ab") ∷ [] }

saml_complete_login_iff_example :
    (saml.complete_login saml_demo posted begun ≡ some alice)
    ↔ saml_laws.Vouched saml_demo posted begun alice
saml_complete_login_iff_example = saml_laws.saml_complete_login_iff saml_demo posted begun alice

abbrev to_broker : client.StartRequest
to_broker = record {
  broker_url = bytes "https://b/";
  login_hint = bytes "alice@example.com";
  client_kind = bytes "cli";
  client_host = bytes "host";
}

abbrev start_answer : client.StartWireResponse
start_answer = record {
  session_id = bytes "61";
  verification_uri = bytes "https://b/auth/verify/61";
  user_code = bytes "STUV-WXYZ";
  expires_in = pos 300;
  interval = pos 3;
  error = [];
}

abbrev send : Text → client.StartWireRequest → Option (ℕ × Option client.StartWireResponse)
send url wire = some (200, some start_answer)

abbrev started : client.Session
started = client.session_of to_broker (base64 (bytes "random")) start_answer

start_works : client.start send to_broker (some (bytes "random")) ≡ some started
unfolding client.start client.read_start client.new_pkce_pair
start_works = refl

start_fits_challenge_example :
    (challenge : Text) × (wire : client.StartWireResponse) × (send
        (trim_right (bytes "https://b/") 47 ++ bytes "/auth/start")
        (client.wire_request to_broker challenge)
      ≡ some (200, some wire))
    × (verify_client_pkce started.verifier challenge ≡ true)
    × (bytes "61" ≡ wire.session_id)
    × (bytes "STUV-WXYZ" ≡ wire.user_code)
    × (bytes "https://b/auth/verify/61" ≡ wire.verification_uri)
start_fits_challenge_example =
    start_fits_challenge send to_broker (bytes "random") started (omega arith) start_works

abbrev says : Text → Answer
says st = some (200, some (record { status = st; artifact = none; error = [] }))

abbrev slow : List Answer
slow = says (bytes "pending") ∷ says (bytes "slow_down") ∷ []

poll_loop_ends_example :
    let out = client.poll_loop (pos 4) (slow ++ says (bytes "denied") ∷ []) in
    (out.1 ≡ outcome_of (says (bytes "denied")))
    × (length out.0 ≡ 2)
    × ((client.poll_loop (pos 4) slow).1 ≡ client.context_done)
unfolding client.poll_once text_eq
poll_loop_ends_example = poll_loop_ends (pos 4) slow [] (says (bytes "denied")) refl refl

poll_loop-Ascending_example :
    ((client.poll_loop (pos 4) slow).0 ≡ pos 4 ∷ pos 6 ∷ [])
    × Ascending 4 6 (client.poll_loop (pos 4) slow).0
unfolding client.poll_once text_eq
poll_loop-Ascending_example = poll_loop-Ascending 4 slow (omega arith)

-- An interval near the bound: one "slow_down" makes it negative, and the client polls without waits.
wrapped_interval : client.slower (pos 9000000000000000000) ≡ negsuc 4946744073709551615
wrapped_interval = refl
