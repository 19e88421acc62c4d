-- ===== src/ClientIp/Spoofing.antt =====
-- What a client can do to the address that clientip.go takes for its own.
use mathlib.Core.List.{reverse-append, map-append}
use xdauth.ClientIp.{
  first_untrusted, is_trusted_host, peer_host, trimmed_hops, resolve_from, resolve_client_ip,
}
use xdauth.Http.{Request, header}
use xdauth.Net.{Prefix}
use xdauth.Platform.{Platform}
use xdauth.Prelude.{
  ◌≡◌, refl, ◌∙◌, ◌⊎◌, inl, Bool, true, false, not, List, [], ◌∷◌, ◌++◌, map, reverse, arith,
  is_empty, any, ap,
}
use xdauth.Text.{Text, bytes, split}
use xdauth.Text.Case.{trim_space}
use xdauth.Text.Laws.{split-append}

-- The loop stops at the first hop that is not trusted: what stands further left is not read.
first_untrusted-append :
    (trusted : Text → Bool) (host : Text) (right left : List Text)
    → any (λ h. not (trusted h)) right ≡ true
    → first_untrusted trusted host (right ++ left) ≡ first_untrusted trusted host right
first_untrusted-append trusted host [] left h = cc
first_untrusted-append trusted host (x ∷ right) left h =
    ground (arith, first_untrusted-append trusted host right left)

first_untrusted_origin :
    (trusted : Text → Bool) (host : Text) (hops : List Text)
    → (first_untrusted trusted host hops ≡ host)
      ⊎ (trusted (first_untrusted trusted host hops) ≡ false)
first_untrusted_origin trusted host [] = inl refl
first_untrusted_origin trusted host (x ∷ hops) =
    ground (arith, first_untrusted_origin trusted host hops)

is_empty-append : (a b : Text) → is_empty (a ++ 44 ∷ b) ≡ false
is_empty-append [] b = refl
is_empty-append (x ∷ a) b = refl

module _ ⦃sys : Platform⦄ (trusted : List Prefix) where
  abbrev has_untrusted : Text → Bool
  has_untrusted xff = any (λ h. not (is_trusted_host h trusted)) (reverse (trimmed_hops xff))

  -- From a peer that is no trusted proxy the header is not read: the address is the peer's.
  pub resolve_direct :
      (r : Request)
      → is_trusted_host (peer_host r.remote_addr) trusted ≡ false
      → resolve_client_ip r trusted ≡ peer_host r.remote_addr
  unfolding resolve_client_ip
  resolve_direct r h = ground arith

  -- The address is the peer's own, or one that is not a trusted proxy.
  pub resolve_untrusted :
      (r : Request)
      → (resolve_client_ip r trusted ≡ peer_host r.remote_addr)
        ⊎ (is_trusted_host (resolve_client_ip r trusted) trusted ≡ false)
  unfolding resolve_client_ip
  resolve_untrusted r = ground (
    arith,
    first_untrusted_origin (λ h. is_trusted_host h trusted) (peer_host r.remote_addr)
        (reverse (trimmed_hops (header r (bytes "X-Forwarded-For")))),
  )

  hops-append :
      (evil xff : Text)
      → reverse (trimmed_hops (evil ++ 44 ∷ xff))
        ≡ reverse (trimmed_hops xff) ++ reverse (trimmed_hops evil)
  hops-append evil xff =
      rw (split-append evil xff 44, map-append trim_space (split evil 44) (split xff 44))
        (reverse-append (map trim_space (split evil 44)) (map trim_space (split xff 44)))

  resolve_from-append :
      (host evil xff : Text)
      → is_empty xff ≡ false
      → has_untrusted xff ≡ true
      → resolve_from host (evil ++ 44 ∷ xff) trusted ≡ resolve_from host xff trusted
  unfolding resolve_from
  resolve_from-append host evil xff ne u =
      let stop : Text → Bool = λ h. is_trusted_host h trusted in
      let hops = reverse (trimmed_hops xff) in
      rw (
        ne,
        is_empty-append evil xff,
        hops-append evil xff,
        first_untrusted-append stop host hops (reverse (trimmed_hops evil)) u,
      )

  -- Where the hops that the proxies appended hold one that is not trusted, nothing that the client
  -- wrote in front of them changes the address.
  pub resolve_ignores_prefix :
      (r s : Request) (evil xff : Text)
      → s.remote_addr ≡ r.remote_addr
      → header r (bytes "X-Forwarded-For") ≡ xff
      → header s (bytes "X-Forwarded-For") ≡ evil ++ 44 ∷ xff
      → is_empty xff ≡ false
      → has_untrusted xff ≡ true
      → resolve_client_ip s trusted ≡ resolve_client_ip r trusted
  unfolding resolve_client_ip
  resolve_ignores_prefix r s evil xff same hr hs ne u =
      ap (λ a. resolve_from (peer_host a) (header s (bytes "X-Forwarded-For")) trusted) same
      ∙ rw (hr, hs) (resolve_from-append (peer_host r.remote_addr) evil xff ne u)
