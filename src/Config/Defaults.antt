-- ===== src/Config/Defaults.antt =====
-- `applyDefaults` of broker.go.
use xdauth.Config.{Config, apply_defaults}
use xdauth.Prelude.{◌<◌, ◌≡◌, false, arith}
use xdauth.Prelude.Int.{pos_part, is_nonpos}
use xdauth.RateLimit.{Limiting}

-- What `applyDefaults` promises of a configuration: positive durations and a positive burst, and no
-- value that was positive before is changed.
pub apply_defaults_pos :
    (L : Limiting) (c : Config L)
    → let d = apply_defaults L c in
      (0 < pos_part d.session_ttl)
      × (0 < pos_part d.poll_interval)
      × (0 < pos_part d.start_burst)
      × (0 < pos_part d.artifact_ttl)
      × (is_nonpos c.session_ttl ≡ false → d.session_ttl ≡ c.session_ttl)
      × (is_nonpos c.poll_interval ≡ false → d.poll_interval ≡ c.poll_interval)
      × (is_nonpos c.start_burst ≡ false → d.start_burst ≡ c.start_burst)
      × (is_nonpos c.artifact_ttl ≡ false → d.artifact_ttl ≡ c.artifact_ttl)
unfolding apply_defaults
apply_defaults_pos L c = ground arith
