-- ===== src/ClientIp.antt =====
-- internal/broker/clientip.go
pub mod Spoofing
use xdauth.Http.{Request, header}
use xdauth.Net.{Addr, Prefix, contains}
use xdauth.Platform.{Platform}
use xdauth.Prelude.{
  Bool, true, false, not, List, [], ◌∷◌, Option, none, some, any, is_empty, if◌then◌else◌, reverse,
  map,
}
use xdauth.Text.{Text, bytes, split}
use xdauth.Text.Case.{trim_space}

abbrev pub in_networks : List Prefix → Option Addr → Bool
in_networks ps none = false
in_networks ps (some a) = any (λ p. contains p a) ps

-- The loop of `resolveClientIP`, over the hops from the right.
abbrev pub first_untrusted : (Text → Bool) → Text → List Text → Text
first_untrusted trusted host [] = host
first_untrusted trusted host (hop ∷ hops) = elim (trusted hop) [
  | true ↦ first_untrusted trusted host hops
  | false ↦ hop
]

module _ ⦃sys : Platform⦄ where
  unfoldable pub is_trusted_host : Text → List Prefix → Bool
  is_trusted_host host trusted = in_networks trusted (sys.parse_addr host)

  unfoldable pub is_allowed_client : Text → List Prefix → Bool
  is_allowed_client ip allowed =
      if is_empty allowed then true else in_networks allowed (sys.parse_addr ip)

  -- `net.SplitHostPort`, or the whole address where that fails.
  unfoldable pub peer_host : Text → Text
  peer_host remote_addr = elim (sys.split_host_port remote_addr) [ none ↦ remote_addr | some h ↦ h ]

  abbrev pub trimmed_hops : Text → List Text
  trimmed_hops xff = map trim_space (split xff 44)

  -- `resolveClientIP` of the peer and of the value of the header
  unfoldable pub resolve_from : Text → Text → List Prefix → Text
  resolve_from host xff trusted =
      if not (is_trusted_host host trusted)
      then host
      else if is_empty xff
      then host
      else first_untrusted (λ hop. is_trusted_host hop trusted) host (reverse (trimmed_hops xff))

  unfoldable pub resolve_client_ip : Request → List Prefix → Text
  unfolding resolve_from
  resolve_client_ip r trusted =
      resolve_from (peer_host r.remote_addr) (header r (bytes "X-Forwarded-For")) trusted
