-- ===== src/Net.antt =====
-- Addresses and networks of package net/netip.
use xdauth.Prelude.{ℕ, ◌-◌, ◌/◌, ◌^◌, Bool, true, false, ◌&&◌, ◌==◌, if◌then◌else◌}

pub data Family : Type 0 where
  ipv4 ipv6 : Family

abbrev pub width : Family → ℕ
width ipv4 = 32
width ipv6 = 128

abbrev pub family_eq : Family → Family → Bool
family_eq ipv4 ipv4 = true
family_eq ipv6 ipv6 = true
family_eq _ _ = false

-- `netip.Addr`; an IPv4-mapped IPv6 address is of the family `ipv6`.
pub record Addr : Type 0 where
  pub family : Family
  pub value : ℕ
  pub zoned : Bool

-- A valid `netip.Prefix`, whose `bits` are at most the width of its address.
pub record Prefix : Type 0 where
  pub addr : Addr
  pub bits : ℕ

-- `Prefix.Contains`: the family and the first `bits` bits agree, and the address has no zone.
unfoldable pub contains : Prefix → Addr → Bool
contains p a =
    if a.zoned
    then false
    else family_eq a.family p.addr.family
      && (let low = 2 ^ (width a.family - p.bits) in a.value / low == p.addr.value / low)
