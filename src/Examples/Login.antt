-- ===== src/Examples/Login.antt =====
-- A whole login over HTTP: a start, the page of the link, the callback, the form and the poll.
use xdauth.Broker.{Broker, IdentityProvider, json_poll}
use xdauth.Broker.Poll.{PollRequest, handle_poll}
use xdauth.Broker.Start.{StartRequest}
use xdauth.ClientAuth.{open_to_all}
use xdauth.Config.{Config}
use xdauth.Detect.{default_abuse_thresholds}
use xdauth.Examples.{demo, counting, request, alice, verifier}
use xdauth.Http.{Request}
use xdauth.Machine.{artifact_of, poll_approved}
use xdauth.Machine.Trace.{begin_login}
use xdauth.Pkce.{challenge_of}
use xdauth.Prelude.{◌≡◌, ◌≢◌, refl, [], ◌∷◌, none, some}
use xdauth.Prelude.Int.{pos}
use xdauth.RateLimit.{KeyedLimiter}
use xdauth.Session.{Time, Session}
use xdauth.Store.{found}
use xdauth.Store.Memory.{memory_store, get}
use xdauth.Store.Memory.Laws.{memory_store-StoreLaws}
use xdauth.System.{
  Call, start_call, verify_call, callback_call, approve_call, IdpLaws, serve, History, started,
  served,
}
use xdauth.System.Grants.{Grant, artifact_needs_calls}
use xdauth.Text.{Text, bytes}
use xdauth.Broker.Poll.{poll_request, poll_session, after_poll, poll_response, note_replay}
use xdauth.Broker.Approve.{handle_approve}
use xdauth.Broker.Cookies.{read_session_cookie, read_approval_cookie, constant_time_string_equal}
use xdauth.Broker.IdpResponse.{handle_idp_response}
use xdauth.Broker.Verify.{handle_verify}
use xdauth.Broker.Start.{handle_start, authenticate}
use xdauth.Text.Encoding.{base64, hex}
use xdauth.Text.Case.{to_lower, to_upper, trim_space}
use xdauth.ClientIp.{is_allowed_client, resolve_client_ip, resolve_from, is_trusted_host, peer_host}
use xdauth.Broker.{observe_event}
use xdauth.Detect.{observe, get_counter, put_counter, map_key}
use xdauth.RateLimit.{allow}
use xdauth.Machine.{
  new_session, bind_identity, approve, poll, expire_if_needed, new_csrf_token, new_approval_secret,
  default_normalizer, normalizer_of,
}
use xdauth.UserCode.{generate_user_code, codes_equal, normalize_user_code}
use xdauth.Pkce.{verify_client_pkce, hash_binding}
use xdauth.Http.{form_value, header, lookup}
use xdauth.Store.Memory.{create, update, find, put}
use xdauth.Text.{remove_all, text_eq, constant_time_compare}

-- A provider that vouches for everyone as the same user.
abbrev pub provider : IdentityProvider
provider = record {
  begin_login = λ fresh s. (
    begin_login s (bytes "oidc") (bytes "s") (bytes "n") (bytes "v") [],
    some (bytes "https://idp"),
  );
  complete_login = λ r s. some alice;
}

abbrev pub provider_laws : IdpLaws provider
provider_laws = record {
  begins = λ fresh s. (bytes "oidc", bytes "s", bytes "n", bytes "v", [], refl);
}

abbrev pub configured : Config counting
configured = record {
  base_url = bytes "https://b";
  session_ttl = pos 300;
  poll_interval = pos 3;
  start_rate = 5;
  start_burst = pos 5;
  artifact_ttl = pos 120;
  identity_normalizer = none;
  abuse_webhook_url = [];
  client_authenticator = open_to_all;
  trusted_proxies = [];
  allowed_client_cidrs = [];
}

abbrev pub full_limiter : KeyedLimiter counting
full_limiter = record { limit = 5; burst = pos 5; idle_ttl = 1200; entries = [] }

abbrev pub empty_broker : Broker counting memory_store
empty_broker = record {
  cfg = configured;
  db = [];
  ip_limiter = full_limiter;
  hint_limiter = full_limiter;
  detector = record { counts = []; thresholds = default_abuse_thresholds };
  effects = [];
}

abbrev pub login : StartRequest
login = record {
  login_hint = bytes "Alice@example.com ";
  code_challenge = challenge_of verifier;
  code_challenge_method = bytes "S256";
  client_kind = bytes "ssh";
  client_host = bytes "host";
}

abbrev pub browser : Request
browser = record request { cookies = (bytes "xdauth_session", bytes "61") ∷ [] }

abbrev pub form : Request
form = record request {
  cookies = (bytes "xdauth_session", bytes "61") ∷ (bytes "xdauth_approve", bytes "62") ∷ [];
  form = some (
      (bytes "user_code", bytes "stuv wxyz")
      ∷ (bytes "csrf_token", bytes "63")
      ∷ (bytes "decision", bytes "approve")
      ∷ []);
}

abbrev pub the_poll : PollRequest
the_poll = record { session_id = bytes "61"; code_verifier = verifier }

abbrev pub first : Call
first = start_call request (some login) 1000 (some (bytes "a")) (some (bytes "01234567"))

abbrev pub second : Call
second = verify_call request (bytes "61") 1010 []

abbrev pub third : Call
third = callback_call browser 1020 (some (bytes "b")) (some (bytes "c"))

abbrev pub fourth : Call
fourth = approve_call form 1030

abbrev pub after : Broker counting memory_store → Call → Broker counting memory_store
after b c = (serve counting memory_store provider b c).0

abbrev pub logged_in : Broker counting memory_store
logged_in = after (after (after (after empty_broker first) second) third) fourth

abbrev pub history :
    History counting memory_store provider empty_broker
      (fourth ∷ third ∷ second ∷ first ∷ [])
      logged_in
history = served fourth (served third (served second (served first started)))

answer :
    (handle_poll counting memory_store logged_in request (some the_poll) 1040).1.body
    ≡ json_poll poll_approved (some (artifact_of alice 1020 120))
unfolding handle_poll serve get challenge_of poll_request poll_session after_poll poll_response
    note_replay handle_approve read_session_cookie read_approval_cookie constant_time_string_equal
    handle_idp_response handle_verify handle_start authenticate base64 hex to_lower to_upper
    trim_space is_allowed_client resolve_client_ip resolve_from is_trusted_host peer_host
    observe_event observe get_counter put_counter map_key allow new_session bind_identity approve
    poll expire_if_needed new_csrf_token new_approval_secret default_normalizer normalizer_of
    generate_user_code codes_equal normalize_user_code verify_client_pkce hash_binding form_value
    header lookup create update find put remove_all text_eq constant_time_compare
answer = refl

pub none_yet : (later : Time) (id : Text) (x : Session) → get [] later id ≢ found x
unfolding get
none_yet later id x g = cc

artifact_needs_calls_example :
    (req : PollRequest) × (some the_poll ≡ some req)
    × Grant counting memory_store memory_store-StoreLaws provider provider_laws configured
        (fourth ∷ third ∷ second ∷ first ∷ [])
        req
        (artifact_of alice 1020 120)
artifact_needs_calls_example =
    artifact_needs_calls counting memory_store memory_store-StoreLaws provider provider_laws
      configured {start = empty_broker} request (some the_poll) 1040 (artifact_of alice 1020 120)
      refl none_yet history answer
