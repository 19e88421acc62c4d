-- ===== src/Examples/Handlers.antt =====
-- Single handlers and overlapping calls at concrete inputs.
use xdauth.Broker.{Broker, respond, json_poll, observe_event}
use xdauth.Detect.{observe, get_counter}
use xdauth.Broker.Approve.{ApproveRequest, approve_session, handle_approve}
use xdauth.Broker.Approve.Laws.{Wrote, approved_by, handle_approve-db}
use xdauth.Broker.Cookies.{read_approval_cookie, constant_time_string_equal}
use xdauth.Broker.Poll.{PollRequest, poll_session, handle_poll}
use xdauth.Broker.Race.{overlapping_polls, overlapping_codes}
use xdauth.Broker.Start.{StartRequest, authenticate, lacks_field, bad_method, handle_start}
use xdauth.Broker.Start.Guards.{session_of, from_allowed_network, handle_start-db}
use xdauth.Examples.{demo, counting, request, alice, waiting, ready, secret, verifier}
use xdauth.Examples.Login.{
  provider, provider_laws, configured, empty_broker, login, form, first, second, third, fourth,
  logged_in, history, none_yet,
}
use xdauth.Http.{Request, or_empty, lookup}
use xdauth.Machine.{
  approve, artifact_of, poll_approved, poll_expired, incorrect_code, expire_if_needed,
}
use xdauth.Pkce.{challenge_of, verify_client_pkce, hash_binding}
use xdauth.Prelude.{◌+◌, ◌≡◌, ◌⊎◌, refl, true, false, [], ◌∷◌, none, some}
use xdauth.Session.{Session}
use xdauth.Store.{found}
use xdauth.Store.Memory.{memory_store, get, create, update, find, put}
use xdauth.Store.Memory.Laws.{memory_store-StoreLaws, memory_store-Durable}
use xdauth.System.Invariant.{Sound}
use xdauth.System.Invariant.Calls.{History-Sound}
use xdauth.Text.{Text, bytes, text_eq, constant_time_compare, remove_all}
use xdauth.Text.Case.{to_upper, trim_space}
use xdauth.Text.Encoding.{base64, hex}
use xdauth.UserCode.{codes_equal, normalize_user_code}

handle_start-db_example :
    let b' =
      (handle_start counting memory_store empty_broker request
        (some login)
        1000
        (some (bytes "a"))
        (some (bytes "01234567"))).0 in
    (b'.db ≡ [])
    ⊎ ((req : StartRequest) × (verified : Text) × (s : Session) × (authenticate
            configured.client_authenticator request
          ≡ some verified)
        × (some login ≡ some req)
        × (lacks_field req ≡ false)
        × (bad_method req ≡ false)
        × (from_allowed_network counting memory_store configured request ≡ true)
        × (session_of counting memory_store configured request req verified 1000
              (some (bytes "a"))
              (some (bytes "01234567"))
            ≡ some s)
        × (b'.db ≡ (create [] 1000 s).0))
handle_start-db_example =
    handle_start-db counting memory_store empty_broker request (some login) 1000 (some (bytes "a"))
      (some (bytes "01234567"))

handle_approve-db_example :
    let b' = (handle_approve counting memory_store logged_in form 1035).0 in
    (b'.db ≡ logged_in.db)
    ⊎ ((id : Text) × (s : Session) × Wrote counting memory_store logged_in form 1035 id s b'.db)
handle_approve-db_example = handle_approve-db counting memory_store logged_in form 1035

History-Sound_example :
    Sound counting memory_store memory_store-StoreLaws provider provider_laws configured
      (fourth ∷ third ∷ second ∷ first ∷ [])
      logged_in
History-Sound_example =
    History-Sound counting memory_store memory_store-StoreLaws provider provider_laws configured
      {start = empty_broker} refl none_yet history

abbrev fitting : PollRequest
fitting = record { session_id = bytes "ab"; code_verifier = verifier }

fits : verify_client_pkce verifier ready.code_challenge ≡ true
unfolding verify_client_pkce challenge_of base64 text_eq
fits = refl

abbrev holding_ready : Broker counting memory_store
holding_ready = record empty_broker { db = (bytes "ab", ready) ∷ [] }

holds : get holding_ready.db 2000 (bytes "ab") ≡ found ready
unfolding get find text_eq
holds = refl

overlapping_polls_example :
    let a = artifact_of alice 1500 120 in
    let (b', answer) =
      handle_poll counting memory_store holding_ready request (some fitting) 2000 in
    (answer ≡ respond 200 (json_poll poll_approved (some a)))
    × ((handle_poll counting memory_store b' request (some fitting) 2001).1
        ≡ respond 200 (json_poll poll_expired none))
    × ((poll_session counting memory_store b' request fitting ready 2001).1
        ≡ respond 200 (json_poll poll_approved (some a)))
overlapping_polls_example =
    overlapping_polls counting memory_store memory_store-Durable holding_ready request request
      fitting fitting ready alice 2000 2001 refl refl refl holds refl refl refl fits fits

abbrev guess : Text → ApproveRequest
guess code = record {
  session_id = bytes "ab";
  user_code = code;
  csrf_token = bytes "c5";
  approve = true;
}

abbrev guesser : Request
guesser = record request { cookies = (bytes "xdauth_approve", secret) ∷ [] }

abbrev holding : Broker counting memory_store
holding = record empty_broker { db = (bytes "ab", waiting) ∷ [] }

first_wrong :
    (approve waiting (bytes "AAAA-AAAA") true 2000 (or_empty (read_approval_cookie guesser))).1
    ≡ some incorrect_code
unfolding approve expire_if_needed codes_equal normalize_user_code to_upper trim_space remove_all
    hash_binding hex text_eq constant_time_compare read_approval_cookie lookup
first_wrong = refl

second_wrong :
    (approve waiting (bytes "BBBB-BBBB") true 2001 (or_empty (read_approval_cookie guesser))).1
    ≡ some incorrect_code
unfolding approve expire_if_needed codes_equal normalize_user_code to_upper trim_space remove_all
    hash_binding hex text_eq constant_time_compare read_approval_cookie lookup
second_wrong = refl

right_token : constant_time_string_equal (bytes "c5") waiting.csrf_token ≡ true
unfolding constant_time_string_equal constant_time_compare text_eq
right_token = refl

abbrev after_first : Broker counting memory_store
after_first =
    (approve_session counting memory_store holding guesser (guess (bytes "AAAA-AAAA")) waiting
      2000).0

taken :
    (update after_first.db 2001
      (approved_by counting memory_store guesser (guess (bytes "BBBB-BBBB")) waiting 2001)).1
    ≡ none
unfolding approve_session update find put approve expire_if_needed codes_equal normalize_user_code
    to_upper trim_space remove_all hash_binding hex text_eq constant_time_compare
    read_approval_cookie lookup constant_time_string_equal observe_event observe get_counter
taken = refl

overlapping_codes_example :
    (t : Session) × (get
        (approve_session counting memory_store after_first guesser
          (guess (bytes "BBBB-BBBB"))
          waiting
          2001).0.db
        2001
        (bytes "ab")
      ≡ found t)
    × (t.approve_attempts ≡ 0 + 1)
overlapping_codes_example =
    overlapping_codes counting memory_store memory_store-StoreLaws holding guesser guesser
      (guess (bytes "AAAA-AAAA")) (guess (bytes "BBBB-BBBB")) waiting 2000 2001 first_wrong
      second_wrong right_token taken
