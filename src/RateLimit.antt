-- ===== src/RateLimit.antt =====
-- internal/broker/ratelimit.go: a token bucket for each key. The bucket is golang.org/x/time/rate.
pub mod Isolation
use xdauth.Prelude.{
  ℕ, ◌+◌, Bool, true, false, List, [], ◌∷◌, Option, none, some, ltb, if◌then◌else◌,
}
use xdauth.Prelude.Int.{ℤ}
use xdauth.Session.{Time, Duration}
use xdauth.Text.{Text, text_eq}

-- `rate.Limit`, `rate.Every` and `rate.Limiter`
pub record Limiting : Type 1 where
  pub Rate : Type 0
  -- `r <= 0`
  pub is_unset : Rate → Bool
  pub every : Duration → Rate
  pub Limiter : Type 0
  pub new_limiter : Rate → ℤ → Limiter
  -- `Allow` at a time
  pub allow_one : Limiter → Time → Limiter × Bool

module _ (L : Limiting) where
  open L use {Rate, Limiter, new_limiter, allow_one}

  pub record LimiterEntry : Type 0 where
    pub limiter : Limiter
    pub last_seen : Time

  pub record KeyedLimiter : Type 0 where
    pub limit : Rate
    pub burst : ℤ
    pub idle_ttl : Duration
    pub entries : List (Text × LimiterEntry)

  unfoldable pub new_keyed_limiter : Rate → ℤ → Duration → KeyedLimiter
  new_keyed_limiter r burst idle_ttl = record {
    limit = r;
    burst = burst;
    idle_ttl = idle_ttl;
    entries = [];
  }

  pub find_entry : Text → List (Text × LimiterEntry) → Option LimiterEntry
  find_entry k [] = none
  find_entry k ((j, e) ∷ m) = if text_eq j k then some e else find_entry k m

  pub put_entry : Text → LimiterEntry → List (Text × LimiterEntry) → List (Text × LimiterEntry)
  put_entry k e [] = (k, e) ∷ []
  put_entry k e ((j, d) ∷ m) =
      let rest = put_entry k e m in if text_eq j k then (k, e) ∷ m else (j, d) ∷ rest

  -- `now.Sub(e.lastSeen) > k.idleTTL`
  abbrev pub is_idle : Duration → Time → LimiterEntry → Bool
  is_idle idle_ttl now e = ltb (e.last_seen + idle_ttl) now

  -- `sweepLocked`
  pub sweep_entries : Duration → Time → List (Text × LimiterEntry) → List (Text × LimiterEntry)
  sweep_entries idle_ttl now [] = []
  sweep_entries idle_ttl now ((k, e) ∷ m) =
      let rest = sweep_entries idle_ttl now m in
      if is_idle idle_ttl now e then rest else (k, e) ∷ rest

  abbrev pub limiter_or_new : KeyedLimiter → Option LimiterEntry → Limiter
  limiter_or_new k none = new_limiter k.limit k.burst
  limiter_or_new k (some e) = e.limiter

  unfoldable pub allow : KeyedLimiter → Text → Time → KeyedLimiter × Bool
  unfolding find_entry put_entry sweep_entries
  allow k key now =
      let swept = sweep_entries k.idle_ttl now k.entries in
      let (l, ok) = allow_one (limiter_or_new k (find_entry key swept)) now in
      (record k { entries = put_entry key (record { limiter = l; last_seen = now }) swept }, ok)
