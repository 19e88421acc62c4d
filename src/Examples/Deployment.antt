-- ===== src/Examples/Deployment.antt =====
-- A PAM helper and an SSH server that sign a user in through a broker: all calls, from the start of the
-- client's session to the poll that is answered with the artifact.
use xdauth.Broker.{Broker}
use xdauth.Broker.Poll.{PollRequest, handle_poll}
use xdauth.Broker.Start.{handle_start}
use xdauth.Client.{
  StartRequest, Session, StartWireRequest, StartWireResponse, wire_request, new_pkce_pair,
  session_of,
}
use xdauth.Deployment.{
  wire_poll, wire_start, start_body, now, before, answered, PollAnswer, StartAnswer, Connected,
}
use xdauth.Deployment.Granted.{Backed}
use xdauth.Deployment.Programs.{pam_run-Backed, keyboard_interactive_auth-Backed}
use xdauth.Examples.{demo, counting, request}
use xdauth.Examples.Login.{
  provider, provider_laws, configured, empty_broker, after, none_yet, second, third, fourth,
}
use xdauth.Machine.{Artifact, normalizer_of}
use xdauth.Pkce.{challenge_of}
use xdauth.Prelude.{
  ℕ, ◌≤◌, ◌≡◌, ◌≢◌, refl, sym, subst, ◌∙◌, All, List, [], ◌∷◌, Option, none, some, arith,
  Bool-cases, inl, inr,
}
use xdauth.Store.Memory.{memory_store}
use xdauth.Store.Memory.Laws.{memory_store-StoreLaws}
use xdauth.System.{Call, start_call, poll_call, serve, History, started, served}
use xdauth.System.Single.{made_in}
use xdauth.System.Touch.{makes}
use xdauth.Text.{Text, bytes}
use xdauth.Text.Encoding.{base64}
use xdauth.Tools.{World, start_in}
use xdauth.Tools.Pam.{PamEnv, pam_request, pam_run}
use xdauth.Tools.Sshd.{Connection, permitted, nil_artifact, keyboard_interactive_auth}
use xdauth.Broker.Poll as broker_poll
use xdauth.Broker.Poll.{poll_request, poll_session, poll_response, note_replay}
use xdauth.Broker.Approve.{handle_approve}
use xdauth.Broker.Cookies.{read_session_cookie, read_approval_cookie, constant_time_string_equal}
use xdauth.Broker.IdpResponse.{handle_idp_response}
use xdauth.Broker.Verify.{handle_verify}
use xdauth.Broker.Start.{authenticate}
use xdauth.Text.Encoding.{hex}
use xdauth.Text.Case.{to_lower, to_upper, trim_space}
use xdauth.ClientIp.{is_allowed_client, resolve_client_ip, resolve_from, is_trusted_host, peer_host}
use xdauth.Broker.{observe_event}
use xdauth.Detect.{observe, get_counter, put_counter, map_key}
use xdauth.RateLimit.{allow}
use xdauth.Machine as machine
use xdauth.Machine.{
  new_session, bind_identity, approve, expire_if_needed, new_csrf_token, new_approval_secret,
  default_normalizer,
}
use xdauth.UserCode.{generate_user_code, codes_equal, normalize_user_code}
use xdauth.Pkce.{verify_client_pkce, hash_binding}
use xdauth.Http.{form_value, header, lookup}
use xdauth.Store.Memory.{get, create, update, find, put}
use xdauth.Text.{remove_all, text_eq, constant_time_compare, trim_right}
use xdauth.Client.{start, read_start, poll, poll_once, poll_loop}
use xdauth.Deployment.{decode_start, decode_poll, wire_status}
use xdauth.Tools.Pam.{after_poll, conclude}
use xdauth.Prelude.Int.{pos}
use xdauth.Prelude.{true}

abbrev raw : Text
raw = bytes "random"

abbrev pub env : PamEnv
env = record {
  broker_url = bytes "https://b";
  first_argument = none;
  pam_user = bytes "Alice@example.com ";
  pam_rhost = [];
  hostname = bytes "host";
}

abbrev pub the_request : StartRequest
the_request = pam_request env

abbrev pub connection : Connection
connection = record {
  user = bytes "Alice@example.com ";
  remote_addr = bytes "host";
  challenge = λ t. true;
}

abbrev wire : StartWireRequest
wire = wire_request the_request (challenge_of (base64 raw))

-- The client's start, and its answer.
abbrev pub opening : Call
opening =
    start_call request (some (start_body (wire))) 1000 (some (bytes "a")) (some (bytes "01234567"))

abbrev start_reply : ℕ × Option StartWireResponse
start_reply =
    wire_start
      (handle_start counting memory_store empty_broker request (some (start_body (wire))) 1000
        (some (bytes "a")) (some (bytes "01234567"))).1

abbrev pub signed_in : Broker counting memory_store
signed_in = after (after (after (after empty_broker (opening)) second) third) fourth

abbrev pub asked : PollRequest
asked = record { session_id = bytes "61"; code_verifier = base64 raw }

abbrev pub calls : List Call
calls = poll_call request (some asked) 1040 ∷ fourth ∷ third ∷ second ∷ opening ∷ []

abbrev pub history :
    History counting memory_store provider empty_broker
      (fourth ∷ third ∷ second ∷ opening ∷ [])
      (signed_in)
history = served fourth (served third (served second (served (opening) started)))

abbrev pub world : World
world = record {
  send = λ url w. some (start_reply);
  answers =
      some (wire_poll (handle_poll counting memory_store (signed_in) request (some asked) 1040).1)
      ∷ [];
  random = some raw;
}

abbrev the_session : Session
the_session = session_of the_request (base64 raw) (record {
  session_id = bytes "61";
  verification_uri = bytes "https://b/auth/verify/61";
  user_code = bytes "STUV-WXYZ";
  expires_in = pos 0;
  interval = pos 0;
  error = [];
})

sent : start_in world the_request ≡ some the_session
unfolding start new_pkce_pair read_start challenge_of decode_start handle_start authenticate base64
    hex to_lower to_upper trim_space trim_right is_allowed_client resolve_client_ip resolve_from
    is_trusted_host peer_host observe_event observe get_counter put_counter map_key allow
    new_session generate_user_code create find put text_eq
sent = refl

pam_done : (pam_run world env).code ≡ 0
unfolding pam_run after_poll conclude start poll poll_once poll_loop new_pkce_pair read_start
    challenge_of decode_start decode_poll wire_status handle_start authenticate base64 hex to_lower
    to_upper trim_space trim_right is_allowed_client resolve_client_ip resolve_from is_trusted_host
    peer_host observe_event observe get_counter put_counter map_key allow new_session
    generate_user_code create find put text_eq handle_poll serve get poll_request poll_session
    poll_response note_replay handle_approve read_session_cookie read_approval_cookie
    constant_time_string_equal handle_idp_response handle_verify bind_identity approve machine.poll
    expire_if_needed new_csrf_token new_approval_secret default_normalizer normalizer_of codes_equal
    normalize_user_code verify_client_pkce hash_binding form_value header lookup update remove_all
    constant_time_compare broker_poll.after_poll
pam_done = refl

one_start : (id : Text) → made_in id calls ≤ 1
unfolding made_in makes
one_start id = elim (Bool-cases (makes id opening)) [
  | inl e ↦ rw e (omega arith)
  | inr e ↦ rw e (omega arith)
]

challenge_is : (v c : Text) → new_pkce_pair (some raw) ≡ some (v, c) → challenge_of (base64 raw) ≡ c
unfolding new_pkce_pair
challenge_is v c e = cc

session_is : (sess : Session) → some the_session ≡ some sess → the_session ≡ sess
session_is sess e = cc

abbrev Answered : Session → Type 1
Answered sess =
    All (PollAnswer counting memory_store provider empty_broker calls sess) world.answers

connected : Connected counting memory_store provider empty_broker calls world the_request
connected = record {
  starts = λ v c e.
      subst
        (λ k.
          StartAnswer counting memory_store provider empty_broker calls (wire_request the_request k)
            (world.send (bytes "https://b/auth/start") (wire_request the_request k)))
        (challenge_is v c e)
        (answered request 1000 (some (bytes "a")) (some (bytes "01234567")) started
          (before _ (before _ (before _ (before _ now)))));
  polls = λ sess e.
      subst Answered (session_is sess (sym sent ∙ e)) (answered request 1040 history now, tt);
}

pam_run-Backed_example :
    (sess : Session) × (a : Artifact) × (start_in world the_request ≡ some sess)
    × Backed counting memory_store memory_store-StoreLaws provider provider_laws configured calls
        (bytes "Alice@example.com ")
        sess
        a
pam_run-Backed_example =
    pam_run-Backed counting memory_store memory_store-StoreLaws provider provider_laws configured
      {start = empty_broker} {cs = calls} world env refl none_yet one_start connected pam_done

keyboard_interactive_auth-Backed_example :
    (keyboard_interactive_auth world (bytes "https://b") connection ≢ nil_artifact)
    × ((i : Text)
        → keyboard_interactive_auth world (bytes "https://b") connection ≡ permitted i
        → (normalizer_of none i ≡ normalizer_of none (bytes "Alice@example.com "))
          × (sess : Session) × (a : Artifact) × (start_in world the_request ≡ some sess)
          × (a.identity ≡ i)
          × Backed counting memory_store memory_store-StoreLaws provider provider_laws configured
              calls
              (bytes "Alice@example.com ")
              sess
              a)
keyboard_interactive_auth-Backed_example =
    keyboard_interactive_auth-Backed counting memory_store memory_store-StoreLaws provider
      provider_laws configured {start = empty_broker} {cs = calls} world (bytes "https://b")
      connection refl none_yet one_start connected
