-- ===== src/Platform.antt =====
-- What the program takes from Go's standard library by tables or long algorithms: a hash, the
-- Unicode cases and address parsing.
use xdauth.Prelude.{◌<◌, Option, All, length, ◌≡◌}
use xdauth.Net.{Addr, Prefix}
use xdauth.Text.{Text}

pub record Platform : Type 0 where
  -- `sha256.Sum256`
  pub sha256 : Text → Text
  pub length-sha256 : (t : Text) → length (sha256 t) ≡ 32
  pub sha256_bytes : (t : Text) → All (λ b. b < 256) (sha256 t)
  -- `strings.ToLower`, `strings.ToUpper` and `strings.TrimSpace` on a text that is not all ASCII
  pub lower_wide : Text → Text
  pub upper_wide : Text → Text
  pub trim_wide : Text → Text
  -- `netip.ParseAddr` and `netip.ParsePrefix`; `none` is an error
  pub parse_addr : Text → Option Addr
  pub parse_prefix : Text → Option Prefix
  -- the host of `net.SplitHostPort`; `none` is an error
  pub split_host_port : Text → Option Text
