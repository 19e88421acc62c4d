-- ===== src/Config.antt =====
-- `Config` of internal/broker/broker.go and its defaults.
pub mod Defaults
use xdauth.ClientAuth.{ClientAuthenticator}
use xdauth.Detect.{second}
use xdauth.Machine.{Normalizer}
use xdauth.Net.{Prefix}
use xdauth.Prelude.{ℕ, ◌*◌, Bool, List, Option, if◌then◌else◌}
use xdauth.Prelude.Int.{ℤ, pos, is_nonpos}
use xdauth.RateLimit.{Limiting}
use xdauth.Text.{Text}

-- Durations are nanoseconds, and may be negative. A nil logger, client authenticator or normalizer
-- is the default one, `open_to_all` or `none`.
pub record Config (L : Limiting) : Type 0 where
  pub base_url : Text
  pub session_ttl : ℤ
  pub poll_interval : ℤ
  pub start_rate : L.Rate
  pub start_burst : ℤ
  pub artifact_ttl : ℤ
  pub identity_normalizer : Option Normalizer
  pub abuse_webhook_url : Text
  pub client_authenticator : ClientAuthenticator
  pub trusted_proxies : List Prefix
  pub allowed_client_cidrs : List Prefix

abbrev pub or_default : ℤ → ℕ → ℤ
or_default n d = if is_nonpos n then pos d else n

unfoldable pub apply_defaults : (L : Limiting) → Config L → Config L
apply_defaults L c = record c {
  session_ttl = or_default c.session_ttl (300 * second);
  poll_interval = or_default c.poll_interval (3 * second);
  start_rate = if L.is_unset c.start_rate then L.every (5 * second) else c.start_rate;
  start_burst = or_default c.start_burst 5;
  artifact_ttl = or_default c.artifact_ttl (120 * second);
}
