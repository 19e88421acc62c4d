-- ===== src/Session.antt =====
-- internal/store/store.go: the session record that the broker and the stores share.
use xdauth.Prelude.{ℕ, Bool, Option}
use xdauth.Json.{Fields}
use xdauth.Text.{Text}

-- Nanoseconds since Go's zero time, so that 0 is the `time.Time` of which `IsZero` holds.
abbrev pub Time : Type 0
Time = ℕ

-- Nanoseconds. A difference of times is compared with a duration by moving it to the other side.
abbrev pub Duration : Type 0
Duration = ℕ

pub data State : Type 0 where
  pending awaiting_approval approved denied expired : State

pub record Identity : Type 0 where
  pub subject : Text
  pub value : Text
  pub claims : Fields

pub record Session : Type 0 where
  pub id : Text
  pub login_hint : Text
  pub code_challenge : Text
  pub client_kind : Text
  pub client_host : Text
  pub client_ip : Text
  pub verified_client : Text
  pub interval : Duration
  pub created_at : Time
  pub expires_at : Time
  pub user_code : Text
  pub protocol : Text
  pub idp_state : Text
  pub idp_nonce : Text
  pub idp_pkce_verifier : Text
  pub saml_request_id : Text
  pub identity : Option Identity
  pub identity_at : Time
  pub approve_attempts : ℕ
  pub csrf_token : Text
  pub approval_binding_hash : Text
  pub last_poll_at : Time
  pub state : State
  pub consumed : Bool
