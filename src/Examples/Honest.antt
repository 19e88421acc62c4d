-- ===== src/Examples/Honest.antt =====
-- The whole honest login over HTTP, with the requests of `Login`.
use xdauth.Broker.{StartResponse, respond, json_start, json_poll, observe_event}
use xdauth.Broker.Approve.{approve_request}
use xdauth.Broker.Cookies.{read_session_cookie, read_approval_cookie}
use xdauth.Broker.Start.{handle_start, authenticate}
use xdauth.Broker.Start.Guards.{session_of}
use xdauth.ClientIp.{is_allowed_client, resolve_client_ip, resolve_from, is_trusted_host, peer_host}
use xdauth.Detect.{observe, get_counter, put_counter, map_key}
use xdauth.Examples.{demo, counting, request, alice, verifier, begun}
use xdauth.Examples.Login.{empty_broker, configured, login, provider, provider_laws, browser}
use xdauth.Examples.Machine.{right_verifier}
use xdauth.Http.{Request, form_value, header, lookup}
use xdauth.Machine.{artifact_of, poll_approved, new_session, normalizer_of, default_normalizer}
use xdauth.Pkce.{challenge_of}
use xdauth.Prelude.{◌≡◌, refl, true, [], ◌∷◌, none, some, arith}
use xdauth.RateLimit.{allow}
use xdauth.Session.{Session}
use xdauth.Store.Memory.{memory_store, create, find, put}
use xdauth.Store.Memory.Laws.{memory_store-Durable}
use xdauth.System.{start_call, verify_call, callback_call, approve_call, poll_call, serve}
use xdauth.System.Honest.Start.{honest_start, Tells}
use xdauth.Text.{bytes, text_eq}
use xdauth.Text.Case.{to_lower, to_upper, trim_space}
use xdauth.Text.Encoding.{base64, hex}
use xdauth.UserCode.{generate_user_code}

abbrev opened : Session
opened = record begun {
  id = bytes "61";
  login_hint = login.login_hint;
  code_challenge = login.code_challenge;
  client_ip = bytes "7";
  interval = 3;
  expires_at = 1300;
  user_code = bytes "STUV-WXYZ";
}

-- The cookie is the hexadecimal form of "b", and the token that of "c".
abbrev form : Request
form = record browser {
  cookies = (bytes "xdauth_session", bytes "61") ∷ (bytes "xdauth_approve", bytes "62") ∷ [];
  form = some (
      (bytes "user_code", bytes "STUV-WXYZ")
      ∷ (bytes "csrf_token", bytes "63")
      ∷ (bytes "decision", bytes "approve")
      ∷ []);
}

browser_session : read_session_cookie browser ≡ some (bytes "61")
unfolding read_session_cookie lookup text_eq
browser_session = refl

form_session : read_session_cookie form ≡ some (bytes "61")
unfolding read_session_cookie lookup text_eq
form_session = refl

form_secret : read_approval_cookie form ≡ some (hex (bytes "b"))
unfolding read_approval_cookie lookup text_eq hex
form_secret = refl

form_fields : approve_request form (bytes "61") ≡ record {
  session_id = bytes "61";
  user_code = bytes "STUV-WXYZ";
  csrf_token = hex (bytes "c");
  approve = true;
}
unfolding form_value lookup text_eq hex
form_fields = refl

makes :
    session_of counting memory_store configured request login [] 1000
      (some (bytes "a"))
      (some (bytes "01234567"))
    ≡ some opened
unfolding new_session resolve_client_ip resolve_from is_trusted_host peer_host generate_user_code
    hex challenge_of header lookup
makes = refl

anyone : authenticate configured.client_authenticator request ≡ some []
unfolding authenticate
anyone = refl

starts :
    (serve counting memory_store provider empty_broker
      (start_call request (some login) 1000 (some (bytes "a")) (some (bytes "01234567")))).1.status
    ≡ 200
unfolding serve handle_start authenticate challenge_of base64 hex to_lower to_upper trim_space
    is_allowed_client resolve_client_ip resolve_from is_trusted_host peer_host observe_event observe
    get_counter put_counter map_key allow new_session generate_user_code header lookup create find
    put text_eq
starts = refl

same_account : normalizer_of none alice.value ≡ normalizer_of none login.login_hint
unfolding normalizer_of default_normalizer to_lower trim_space
same_account = refl

honest_start_example :
    let (b, answer) =
      serve counting memory_store provider empty_broker
        (start_call request (some login) 1000 (some (bytes "a")) (some (bytes "01234567"))) in
    let b₀ =
      (serve counting memory_store provider b (verify_call request (bytes "61") 1010 [])).0 in
    let b₁ =
      (serve counting memory_store provider b₀
        (callback_call browser 1020 (some (bytes "b")) (some (bytes "c")))).0 in
    let b₂ = (serve counting memory_store provider b₁ (approve_call form 1030)).0 in
    ((reply : StartResponse) × (answer.body ≡ json_start reply)
      × Tells counting memory_store reply opened)
    × ((serve counting memory_store provider b₂ (
          poll_call request
            (some (record { session_id = bytes "61"; code_verifier = verifier }))
            1040)).1
        ≡ respond 200 (json_poll poll_approved (some (artifact_of alice 1020 120))))
honest_start_example =
    honest_start counting memory_store provider provider_laws memory_store-Durable empty_broker
      login [] opened (some (bytes "a")) (some (bytes "01234567")) alice (bytes "b") (bytes "c")
      verifier (bytes "https://idp") [] request request browser form request _ 1000 1010 1020 1030
      1040 anyone makes starts (omega arith) (omega arith) (omega arith) refl browser_session refl
      same_account form_session form_secret refl form_fields refl right_verifier
