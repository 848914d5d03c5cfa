-- ===== src/Net.antt =====
-- Network addresses: `std::net::IpAddr` with the tests that the code makes of it, and
-- `canonical_client_ip` of common/src/lib.rs. An IPv4 address is its `u32`, an IPv6 address its
-- `u128`.
pub mod Canonical
pub mod Forwarded
mod Examples
use praeco_rs.Prelude.{
  ℕ, ◌*◌, ◌/◌, ◌%◌, ◌^◌, ◌<◌, ◌≡◌, ◌↔◌, Bool, true, false, ◌||◌, ◌==◌, if◌then◌else◌, Option, none,
  some, arith,
}

pub data IpAddr : Type 0 where
  v4 : ℕ → IpAddr
  v6 : ℕ → IpAddr

-- The address fits its width.
abbrev pub IsValid : IpAddr → Type 0
IsValid (v4 a) = a < 2 ^ 32
IsValid (v6 a) = a < 2 ^ 128

abbrev pub ip_eq : IpAddr → IpAddr → Bool
ip_eq (v4 a) (v4 b) = a == b
ip_eq (v4 a) (v6 b) = false
ip_eq (v6 a) (v4 b) = false
ip_eq (v6 a) (v6 b) = a == b

pub ip_eq_iff : (a b : IpAddr) → (ip_eq a b ≡ true) ↔ (a ≡ b)
ip_eq_iff (v4 a) (v4 b) = ground arith
ip_eq_iff (v4 a) (v6 b) = ground arith
ip_eq_iff (v6 a) (v4 b) = ground arith
ip_eq_iff (v6 a) (v6 b) = ground arith

unfoldable pub is_unspecified : IpAddr → Bool
is_unspecified (v4 a) = a == 0
is_unspecified (v6 a) = a == 0

-- `Ipv6Addr::to_ipv4_mapped`: the addresses `::ffff:a.b.c.d`.
unfoldable pub to_ipv4_mapped : ℕ → Option ℕ
to_ipv4_mapped a = if a / 2 ^ 32 == 0xffff then some (a % 2 ^ 32) else none

unfoldable pub unwrap_ipv4_mapped : IpAddr → IpAddr
unfolding to_ipv4_mapped
unwrap_ipv4_mapped (v4 a) = v4 a
unwrap_ipv4_mapped (v6 a) = elim (to_ipv4_mapped a) [ some m ↦ v4 m | none ↦ v6 a ]

-- Loopback `::1` and unspecified `::` stay; the upper four of the eight segments are kept of any
-- other IPv6 address.
unfoldable pub canonical_client_ip : IpAddr → IpAddr
unfolding to_ipv4_mapped
canonical_client_ip (v4 a) = v4 a
canonical_client_ip (v6 a) = elim (to_ipv4_mapped a) [
  | some m ↦ v4 m
  | none ↦ if a == 1 || a == 0 then v6 a else v6 (a / 2 ^ 64 * 2 ^ 64)
]
