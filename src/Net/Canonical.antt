-- ===== src/Net/Canonical.antt =====
-- What the canonical form of a client's address identifies.
use praeco_rs.Prelude.{ℕ, ◌/◌, ◌^◌, ◌≡◌, ◌≢◌, ◌↔◌, refl, arith}
use praeco_rs.Net.{IpAddr, v4, v6, canonical_client_ip}

-- Canonicalising twice is canonicalising once, so that a stored key is found again.
pub canonical_client_ip_idempotent :
    (ip : IpAddr) → canonical_client_ip (canonical_client_ip ip) ≡ canonical_client_ip ip
unfolding canonical_client_ip
canonical_client_ip_idempotent (v4 a) = refl
canonical_client_ip_idempotent (v6 a) = ground arith

-- Two IPv6 addresses outside `::/64` have one canonical form exactly when they are in the same /64
-- network.
canonical_client_ip-subnet_iff :
    (a b : ℕ)
    → a / 2 ^ 64 ≢ 0
    → b / 2 ^ 64 ≢ 0
    → (canonical_client_ip (v6 a) ≡ canonical_client_ip (v6 b)) ↔ (a / 2 ^ 64 ≡ b / 2 ^ 64)
unfolding canonical_client_ip
canonical_client_ip-subnet_iff a b ha hb = ground arith
