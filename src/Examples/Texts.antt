-- ===== src/Examples/Texts.antt =====
-- Codes, addresses, tokens, and limits at concrete inputs.
use xdauth.ClientAuth.{
  StaticTokenClientAuth, static_tokens, bearer_prefix, authenticate_static,
  parse_client_auth_tokens, parse_token_pair, add_token_pairs, set_token,
}
use xdauth.ClientAuth.Laws.{authenticate_static_iff}
use xdauth.ClientIp.{resolve_client_ip, is_trusted_host}
use xdauth.ClientIp.Spoofing.{resolve_ignores_prefix}
use xdauth.Detect.{
  wrong_code, suspected_abuse, Detector, threshold_for, default_abuse_thresholds, get_counter,
  map_key,
}
use xdauth.Detect.Thresholds.{
  Observation, alarms_for, calls_for, alarms_for-window, counter, is_for,
}
use xdauth.Examples.{demo, counting, request}
use xdauth.Http.{Request, header, lookup}
use xdauth.Net.{ipv4, Prefix, contains}
use xdauth.Prelude.{
  ℕ, ◌≡◌, ◌≢◌, ◌↔◌, refl, true, false, not, List, [], ◌∷◌, ◌++◌, none, some, arith, leb,
  if◌then◌else◌,
}
use xdauth.Prelude.Int.{pos}
use xdauth.RateLimit.{KeyedLimiter, allow, find_entry, limiter_or_new}
use xdauth.RateLimit.Isolation.{allow_isolates, unless_idle}
use xdauth.Text.{Text, bytes, text_eq, split, cut}
use xdauth.Text.Case.{trim_space}
use xdauth.UserCode.{generate_user_code, codes_equal}
use xdauth.UserCode.Format.{
  generate_user_code-IsUserCode, IsUserCode, sources_of, code_char_uniform,
}
use xdauth.UserCode.Matching.{codes_equal-iff-squeeze, squeeze}

first_code : generate_user_code (some (bytes "01234567")) ≡ some (bytes "STUV-WXYZ")
unfolding generate_user_code
first_code = refl

generate_user_code-IsUserCode_example : IsUserCode (bytes "STUV-WXYZ")
generate_user_code-IsUserCode_example =
    generate_user_code-IsUserCode (bytes "01234567") (bytes "STUV-WXYZ") refl first_code

codes_equal-iff-squeeze_example :
    (codes_equal (bytes "stuv wxyz") (bytes "STUV-WXYZ") ≡ true)
    ↔ (squeeze (bytes "stuv wxyz") ≡ squeeze (bytes "STUV-WXYZ"))
codes_equal-iff-squeeze_example =
    codes_equal-iff-squeeze (bytes "stuv wxyz") (bytes "STUV-WXYZ") refl refl

-- The peer "1" is a trusted proxy, all others are not.
abbrev proxies : List Prefix
proxies = record { addr = record { family = ipv4; value = 49; zoned = false }; bits = 32 } ∷ []

abbrev forwarded : Text → Request
forwarded xff = record request {
  remote_addr = bytes "1";
  headers = (bytes "X-Forwarded-For", xff) ∷ [];
}

header-forwarded : (xff : Text) → header (forwarded xff) (bytes "X-Forwarded-For") ≡ xff
unfolding header lookup text_eq
header-forwarded xff = refl

hop_untrusted : not (is_trusted_host (bytes "5") proxies) ≡ true
unfolding is_trusted_host contains
hop_untrusted = refl

resolve_ignores_prefix_example :
    resolve_client_ip (forwarded (bytes "9,5")) proxies
    ≡ resolve_client_ip (forwarded (bytes "5")) proxies
unfolding trim_space split is_trusted_host contains
resolve_ignores_prefix_example =
    resolve_ignores_prefix proxies (forwarded (bytes "5")) (forwarded (bytes "9,5")) (bytes "9")
      (bytes "5") refl (header-forwarded (bytes "5")) (header-forwarded (bytes "9,5")) refl refl

abbrev one_token : StaticTokenClientAuth
one_token = record { tokens = (bytes "tok", bytes "gw") ∷ [] }

abbrev bearer : Request
bearer = record request { headers = (bytes "Authorization", bytes "Bearer tok") ∷ [] }

authenticate_static_iff_example : (authenticate_static one_token bearer ≡ some (bytes "gw")) ↔ (
    (token : Text) × (header bearer (bytes "Authorization") ≡ bearer_prefix ++ token)
    × (lookup token one_token.tokens ≡ some (bytes "gw")))
authenticate_static_iff_example = authenticate_static_iff one_token bearer (bytes "gw")

parsed : parse_client_auth_tokens (bytes "tok=gw") ≡ some (static_tokens one_token)
unfolding parse_client_auth_tokens parse_token_pair add_token_pairs set_token split cut
parsed = refl

abbrev limiter : KeyedLimiter counting
limiter = record { limit = 5; burst = pos 2; idle_ttl = 100; entries = [] }

other_key : text_eq (bytes "a") (bytes "b") ≡ false
unfolding text_eq
other_key = refl

allow_isolates_example :
    let l =
      limiter_or_new counting limiter
        (unless_idle counting 100 50 (find_entry counting (bytes "a") [])) in
    let (k', answer) = allow counting limiter (bytes "a") 50 in
    (answer ≡ (counting.allow_one l 50).1)
    × (find_entry counting (bytes "a") k'.entries
        ≡ some (record { limiter = (counting.allow_one l 50).0; last_seen = 50 }))
    × (find_entry counting (bytes "b") k'.entries
        ≡ unless_idle counting 100 50 (find_entry counting (bytes "b") []))
allow_isolates_example = allow_isolates counting limiter (bytes "a") (bytes "b") 50 tt other_key

abbrev typo : ℕ → Observation
typo t = record { kind = wrong_code; key = bytes "k"; session_id = bytes "s"; at = t }

wrong≢abuse : wrong_code ≢ suspected_abuse
wrong≢abuse e = cc

abbrev unused : Detector
unused = record { counts = []; thresholds = default_abuse_thresholds }

abbrev two_more : List Observation
two_more = typo 2 ∷ typo 3 ∷ []

unseen : counter unused wrong_code (bytes "k") ≡ none
unfolding get_counter
unseen = refl

wrong_code_threshold : threshold_for default_abuse_thresholds wrong_code ≡ 3
unfolding threshold_for
wrong_code_threshold = refl

typo_counted : is_for wrong_code (bytes "k") (typo 1) ≡ true
unfolding map_key text_eq
typo_counted = refl

alarms_for-window_example : alarms_for wrong_code (bytes "k") unused (typo 1 ∷ two_more) ≡ (
    if leb
      (threshold_for default_abuse_thresholds wrong_code)
      (calls_for wrong_code (bytes "k") (typo 1 ∷ two_more))
    then 1
    else 0)
alarms_for-window_example =
    alarms_for-window wrong_code (bytes "k") wrong≢abuse unused (typo 1) two_more unseen
      (rw wrong_code_threshold (omega arith)) typo_counted
      ((λ _. omega arith), ((λ _. omega arith), tt))

code_char_uniform_example : sources_of 75 ≡ 8
code_char_uniform_example = code_char_uniform 9 (omega arith)
