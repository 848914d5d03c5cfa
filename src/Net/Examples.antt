-- ===== src/Net/Examples.antt =====
-- Addresses, and the theorems about their canonical form at two of them.
use praeco_rs.Prelude.{ℕ, ◌≡◌, refl}
use praeco_rs.Net.{v4, v6, unwrap_ipv4_mapped, canonical_client_ip}

-- 2001:db8::1, 2001:db8::2 and ::ffff:192.0.2.1.
abbrev first : ℕ
first = 0x20010db8_00000000_00000000_00000001

abbrev second : ℕ
second = 0x20010db8_00000000_00000000_00000002

abbrev mapped : ℕ
mapped = 0xffffc0000201

canonical_forms :
    (canonical_client_ip (v6 mapped) ≡ v4 0xc0000201)
    × (unwrap_ipv4_mapped (v6 mapped) ≡ v4 0xc0000201)
    × (canonical_client_ip (v6 1) ≡ v6 1)
unfolding canonical_client_ip unwrap_ipv4_mapped
canonical_forms = (refl, refl, refl)
