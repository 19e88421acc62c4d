-- ===== src/Command.antt =====
-- cmd/xdauth-broker/main.go: how the command reads its settings, and how it waits for the identity
-- provider. The parsing of client tokens is in `ClientAuth`.
pub mod Laws
pub mod Startup
use xdauth.Detect.{second}
use xdauth.Net.{Prefix}
use xdauth.Platform.{Platform}
use xdauth.Prelude.{
  ◌+◌, ◌*◌, ◌/◌, List, [], ◌∷◌, ◌++◌, Option, none, some, ltb, is_empty, if◌then◌else◌,
}
use xdauth.Prelude.Int.{ℤ}
use xdauth.Session.{Time, Duration}
use xdauth.Text.{Text, split}
use xdauth.Text.Case.{trim_space}

-- The value of `os.Getenv`, which is empty where the variable is not set, or the default.
unfoldable pub env_or : Text → Text → Text
env_or value default = if is_empty value then default else value

unfoldable pub split_non_empty : Text → List Text
split_non_empty raw = if is_empty raw then [] else split raw 44

-- `atoi` is `strconv.Atoi`; `none` is its error.
unfoldable pub env_int_or : (atoi : Text → Option ℤ) → Text → ℤ → ℤ
env_int_or atoi value default =
    if is_empty value then default else elim (atoi value) [ none ↦ default | some n ↦ n ]

module _ ⦃sys : Platform⦄ where
  -- The loop of `parseCIDRList`, with the prefixes that it has appended to so far.
  pub parse_cidrs : List Text → List Prefix → Option (List Prefix)
  parse_cidrs [] out = some out
  parse_cidrs (part ∷ parts) out = elim (sys.parse_prefix (trim_space part)) [
    | none ↦ none
    | some p ↦ parse_cidrs parts (out ++ p ∷ [])
  ]

  -- `none` is an error.
  pub parse_cidr_list : Text → Option (List Prefix)
  unfolding parse_cidrs
  parse_cidr_list raw = if is_empty raw then some [] else parse_cidrs (split raw 44) []

-- An attempt of `retryDiscovery`: the time at which it is over, and what it found.
pub record Attempt {ℓ} (A : Type ℓ) : Type ℓ where
  pub ended_at : Time
  pub found : Option A

-- How `retryDiscovery` ends: with a value, with the last error, or with that of the context.
pub data Discovery {ℓ} (A : Type ℓ) : Type ℓ where
  discovered : A → Discovery A
  gave_up : Discovery A
  context_done : Discovery A

abbrev pub next_backoff : Duration → Duration
next_backoff backoff = if ltb backoff (5 * second) then backoff * 2 else backoff

module _ {ℓ} {A : Type ℓ} where
  -- The loop over the attempts, with the waits between them; the context ends with the attempts.
  pub retry_loop : (deadline : Time) → Duration → List (Attempt A) → List Duration × Discovery A
  retry_loop deadline backoff [] = ([], context_done)
  retry_loop deadline backoff (a ∷ attempts) =
      let rest = retry_loop deadline (next_backoff backoff) attempts in
      elim a.found [
        | some v ↦ ([], discovered v)
        | none ↦ if ltb deadline a.ended_at then ([], gave_up) else (backoff ∷ rest.0, rest.1)
      ]

  pub retry_discovery : (began : Time) → List (Attempt A) → List Duration × Discovery A
  unfolding retry_loop
  retry_discovery began attempts = retry_loop (began + 30 * second) (second / 2) attempts
