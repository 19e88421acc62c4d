-- ===== src/Machine/Trace.antt =====
-- A session's life as a list of calls of the operations of session.go, newest first: any calls,
-- with any arguments, at any times.
pub mod Evidence
pub mod Limits
pub mod Endings
use xdauth.Machine.{
  Error, Normalizer, PollReply, PollStatus, PollResult, Artifact, result, poll_approved,
  expire_if_needed, bind_identity, approve, poll, too_many_codes, incorrect_code,
}
use xdauth.Platform.{Platform}
use xdauth.Prelude.{ℕ, suc, ◌+◌, Bool, true, false, List, [], ◌∷◌, Option, none, some}
use xdauth.Session.{Time, Duration, Identity, Session}
use xdauth.Text.{Text}

pub data Event : Type 0 where
  -- `BeginLogin`, with the correlation values that it stores
  begins : (protocol state nonce verifier request_id : Text) → Event
  -- `expireIfNeeded` by itself, as in `handleVerify`
  expires : Time → Event
  -- `bindIdentity`: the identity, the time, the approval binding and the bytes of the CSRF token
  binds : Identity → Time → Text → Option Text → Event
  -- `approve`: the code, the decision, the time and the browser's secret
  submits : Text → Bool → Time → Text → Event
  -- `poll`: the verifier and the time
  polls : Text → Time → Event

abbrev pub begin_login : Session → Text → Text → Text → Text → Text → Session
begin_login s protocol state nonce verifier request_id = record s {
  protocol = protocol;
  idp_state = state;
  idp_nonce = nonce;
  idp_pkce_verifier = verifier;
  saml_request_id = request_id;
}

abbrev pub is_approved_status : PollStatus → Bool
is_approved_status poll_approved = true
is_approved_status _ = false

abbrev pub is_release : PollReply → Bool
is_release (result r) = is_approved_status r.status
is_release _ = false

abbrev pub is_wrong_code : Option Error → Bool
is_wrong_code (some too_many_codes) = true
is_wrong_code (some incorrect_code) = true
is_wrong_code _ = false

abbrev pub count_if : Bool → ℕ → ℕ
count_if true n = suc n
count_if false n = n

module _ ⦃sys : Platform⦄ where
  unfoldable pub step : Option Normalizer → Duration → Session → Event → Session
  step f ttl s (begins protocol state nonce verifier request_id) =
      begin_login s protocol state nonce verifier request_id
  step f ttl s (expires now) = (expire_if_needed s now).0
  step f ttl s (binds i now h r) = (bind_identity s i f now h r).0
  step f ttl s (submits c d now p) = (approve s c d now p).0
  step f ttl s (polls v now) = (poll s v now ttl).0

  unfoldable pub run : Option Normalizer → Duration → Session → List Event → Session
  run f ttl s [] = s
  run f ttl s (e ∷ es) = step f ttl (run f ttl s es) e

  -- Whether the call, made in this session, hands the artifact out.
  abbrev pub releases : Duration → Session → Event → Bool
  releases ttl s (polls v now) = is_release (poll s v now ttl).1
  releases ttl s _ = false

  -- Whether the call, made in this session, is answered as a wrong code.
  abbrev pub misses : Session → Event → Bool
  misses s (submits c d now p) = is_wrong_code (approve s c d now p).1
  misses s _ = false

  pub releases_in : Option Normalizer → Duration → Session → List Event → ℕ
  releases_in f ttl s [] = 0
  releases_in f ttl s (e ∷ es) = count_if (releases ttl (run f ttl s es) e) (releases_in f ttl s es)

  pub misses_in : Option Normalizer → Duration → Session → List Event → ℕ
  misses_in f ttl s [] = 0
  misses_in f ttl s (e ∷ es) = count_if (misses (run f ttl s es) e) (misses_in f ttl s es)
