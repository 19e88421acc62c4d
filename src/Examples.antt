-- ===== src/Examples.antt =====
-- Test data: a platform, a bucket, sessions and requests that the other examples share, and the
-- theorems at concrete inputs.
pub mod Machine
pub mod Texts
pub mod Services
pub mod RedisServer
pub mod Login
pub mod Honest
pub mod Handlers
pub mod Providers
pub mod Settings
pub mod Deployment
pub mod Programs
pub mod Routing
use xdauth.Net.{Family, ipv4, Addr, Prefix}
use xdauth.Json.{end}
use xdauth.Http.{Request}
use xdauth.Pkce.{challenge_of, hash_binding}
use xdauth.Platform.{Platform}
use xdauth.Prelude.{
  ℕ, zero, suc, ◌-◌, ◌%◌, ◌<◌, ◌≡◌, refl, ap, Bool, true, false, List, [], ◌∷◌, Option, none, some,
  All, length, arith, ltb, if◌then◌else◌,
}
use xdauth.Prelude.Int.{ℤ, pos_part}
use xdauth.RateLimit.{Limiting}
use xdauth.Session.{Time, pending, approved, awaiting_approval, Identity, Session}
use xdauth.Text.{Text, bytes, cut}

-- The first `n` bytes, filled up with zeros: no hash, but of the right form.
abbrev pub fit : ℕ → Text → Text
fit zero t = []
fit (suc n) [] = 0 ∷ fit n []
fit (suc n) (c ∷ t) = c % 256 ∷ fit n t

pub length-fit : (n : ℕ) (t : Text) → length (fit n t) ≡ n
length-fit zero t = refl
length-fit (suc n) [] = ap suc (length-fit n [])
length-fit (suc n) (c ∷ t) = ap suc (length-fit n t)

pub fit-AreBytes : (n : ℕ) (t : Text) → All (λ b. b < 256) (fit n t)
fit-AreBytes zero t = tt
fit-AreBytes (suc n) [] = (omega arith, fit-AreBytes n [])
fit-AreBytes (suc n) (c ∷ t) = (omega arith, fit-AreBytes n t)

-- Addresses of one byte.
abbrev pub addr_of : Text → Option Addr
addr_of (c ∷ []) = some (record { family = ipv4; value = c; zoned = false })
addr_of _ = none

abbrev pub host_of : Option Addr → Option Prefix
host_of none = none
host_of (some a) = some (record { addr = a; bits = 32 })

abbrev pub prefix_of : Text → Option Prefix
prefix_of t = host_of (addr_of t)

instance abbrev pub demo : Platform
demo = record {
  sha256 = fit 32;
  length-sha256 = length-fit 32;
  sha256_bytes = fit-AreBytes 32;
  lower_wide = λ t. t;
  upper_wide = λ t. t;
  trim_wide = λ t. t;
  parse_addr = addr_of;
  parse_prefix = prefix_of;
  split_host_port = λ t. none;
}

-- A bucket of as many tokens as the burst, which is never filled again.
abbrev pub counting : Limiting
counting = record {
  Rate = ℕ;
  is_unset = λ r. ltb r 1;
  every = λ d. d;
  Limiter = ℕ;
  new_limiter = λ r burst. pos_part burst;
  allow_one = λ n t. if ltb 0 n then (n - 1, true) else (0, false);
}

abbrev pub alice : Identity
alice = record { subject = bytes "s1"; value = bytes "alice@example.com"; claims = end }

abbrev pub secret : Text
secret = bytes "browser"

abbrev pub verifier : Text
verifier = bytes "verifier"

-- A session that began at 1000 and expires at 4000.
abbrev pub begun : Session
begun = record {
  id = bytes "ab";
  login_hint = bytes " Alice@Example.com";
  code_challenge = challenge_of verifier;
  client_kind = bytes "ssh";
  client_host = bytes "host";
  client_ip = bytes "1";
  verified_client = [];
  interval = 10;
  created_at = 1000;
  expires_at = 4000;
  user_code = bytes "ABCD-EFGH";
  protocol = [];
  idp_state = [];
  idp_nonce = [];
  idp_pkce_verifier = [];
  saml_request_id = [];
  identity = none;
  identity_at = 0;
  approve_attempts = 0;
  csrf_token = [];
  approval_binding_hash = [];
  last_poll_at = 0;
  state = pending;
  consumed = false;
}

-- The session after the callback, and after the approval.
abbrev pub waiting : Session
waiting = record begun {
  identity = some alice;
  identity_at = 1500;
  csrf_token = bytes "c5";
  approval_binding_hash = hash_binding secret;
  state = awaiting_approval;
}

abbrev pub ready : Session
ready = record waiting { state = approved }

abbrev pub request : Request
request = record {
  remote_addr = bytes "7";
  headers = [];
  cookies = [];
  query = [];
  post_form = [];
  form = some [];
  tls = none;
}
