-- ===== src/ProxyProtocol/Roundtrip.antt =====
-- Reading back an encoded header.
use praeco_rs.Prelude.{ℕ, ◌^◌, ◌<◌, ◌≡◌, refl, ◌∙◌, ap, ap₂, some, ◌++◌, Bytes, arith}
use praeco_rs.BigEndian.{from_be-to_be}
use praeco_rs.ProxyProtocol.{
  SocketAddr, sock_v4, sock_v6, port_of, v6_of, encode_v6, encode_proxy_v2, done, v6_source,
  read_proxy_v2,
}

-- The parts of the address fit their widths.
abbrev pub IsValid : SocketAddr → Type 0
IsValid (sock_v4 ip port) = (ip < 2 ^ 32) × (port < 2 ^ 16)
IsValid (sock_v6 ip port flowinfo scope_id) = (ip < 2 ^ 128) × (port < 2 ^ 16)

-- Flow info and scope are not sent, and an IPv4-mapped address comes back as the IPv4 address.
abbrev pub plain : SocketAddr → SocketAddr
unfolding v6_source
plain (sock_v4 ip port) = sock_v4 ip port
plain (sock_v6 ip port flowinfo scope_id) = v6_source ip port

read-encode_v6 :
    (src dst sp dp : ℕ) (rest : Bytes)
    → src < 2 ^ 128
    → sp < 2 ^ 16
    → read_proxy_v2 (encode_v6 src dst sp dp ++ rest) ≡ done (some (v6_source src sp)) rest
unfolding read_proxy_v2 encode_v6
read-encode_v6 src dst sp dp rest hs hp =
    ap₂ (λ ip port. done (some (v6_source ip port)) rest) (from_be-to_be 16 src hs)
      (from_be-to_be 2 sp hp)

read-encode_v4 :
    (s d sp dp : ℕ) (rest : Bytes)
    → s < 2 ^ 32
    → sp < 2 ^ 16
    → read_proxy_v2 (encode_proxy_v2 (sock_v4 s sp) (sock_v4 d dp) ++ rest)
      ≡ done (some (sock_v4 s sp)) rest
unfolding read_proxy_v2 encode_proxy_v2
read-encode_v4 s d sp dp rest hs hp =
    ap₂ (λ ip port. done (some (sock_v4 ip port)) rest) (from_be-to_be 4 s hs)
      (from_be-to_be 2 sp hp)

v6_source-v6_of : (s : SocketAddr) → IsValid s → v6_source (v6_of s) (port_of s) ≡ plain s
unfolding v6_source
v6_source-v6_of (sock_v4 ip port) h = ground arith
v6_source-v6_of (sock_v6 ip port flowinfo scope_id) h = refl

-- Reading a header written for any source and destination address, IPv4 or IPv6 in any mix, gives
-- back the source without flow info and scope, an IPv4-mapped one as IPv4, and leaves the bytes
-- that follow the header in the reader.
pub read_proxy_v2-encode_proxy_v2 :
    (src dst : SocketAddr) (rest : Bytes)
    → IsValid src
    → read_proxy_v2 (encode_proxy_v2 src dst ++ rest) ≡ done (some (plain src)) rest
unfolding encode_proxy_v2 plain
read_proxy_v2-encode_proxy_v2 (sock_v4 s sp) (sock_v4 d dp) rest h =
    read-encode_v4 s d sp dp rest h.0 h.1
read_proxy_v2-encode_proxy_v2 (sock_v4 s sp) (sock_v6 d dp f i) rest h =
    read-encode_v6 (v6_of (sock_v4 s sp)) d sp dp rest (omega arith) h.1
    ∙ ap (λ a. done (some a) rest) (v6_source-v6_of (sock_v4 s sp) h)
read_proxy_v2-encode_proxy_v2 (sock_v6 s sp f i) d rest h =
    read-encode_v6 s (v6_of d) sp (port_of d) rest h.0 h.1
