-- ===== src/Examples/Services.antt =====
-- Stores, configurations and the handlers at concrete inputs.
use xdauth.ClientAuth.{open_to_all}
use xdauth.Config.{Config}
use xdauth.Examples.{demo, counting, begun}
use xdauth.Prelude.{◌+◌, ◌-◌, ◌≤◌, ◌≡◌, ◌↔◌, [], ◌∷◌, none, some}
use xdauth.Prelude.Int.{pos}
use xdauth.Store.Memory.{Memory, sweep, find}
use xdauth.Store.Memory.Laws.{sweep_iff}
use xdauth.Text.{bytes}

abbrev one_session : Memory
one_session = (bytes "ab", begun) ∷ []

-- At 7000 the session is expired for as long as it lived, which is the last time that it is kept.
sweep_iff_example :
    (find (bytes "ab") (sweep 7000 one_session) ≡ some begun)
    ↔ ((find (bytes "ab") one_session ≡ some begun) × (7000 ≤ 4000 + (4000 - 1000)))
sweep_iff_example = sweep_iff 7000 (bytes "ab") one_session begun (tt, tt)

abbrev unset : Config counting
unset = record {
  base_url = bytes "https://b";
  session_ttl = pos 0;
  poll_interval = pos 0;
  start_rate = 0;
  start_burst = pos 0;
  artifact_ttl = pos 60;
  identity_normalizer = none;
  abuse_webhook_url = [];
  client_authenticator = open_to_all;
  trusted_proxies = [];
  allowed_client_cidrs = [];
}
