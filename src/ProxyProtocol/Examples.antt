-- ===== src/ProxyProtocol/Examples.antt =====
-- Headers, and the theorems about them at concrete bytes.
use praeco_rs.Prelude.{◌≡◌, refl, some, [], ◌∷◌, ◌++◌, arith}
use praeco_rs.ProxyProtocol.{
  SocketAddr, sock_v4, sock_v6, encode_proxy_v2, read_proxy_v2, done, invalid_magic, io_error,
}
use praeco_rs.ProxyProtocol.Roundtrip.{plain, read_proxy_v2-encode_proxy_v2}

-- 198.51.100.42:54321, 203.0.113.1:443 and [2001:db8::1]:443.
abbrev client : SocketAddr
client = sock_v4 0xc633642a 54321

abbrev relay : SocketAddr
relay = sock_v4 0xcb007101 443

abbrev relay_v6 : SocketAddr
relay_v6 = sock_v6 0x20010db8_00000000_00000000_00000001 443 0 0

no_header :
    (read_proxy_v2 (0x16 ∷ 0x03 ∷ []) ≡ io_error)
    × (read_proxy_v2 (1 ∷ 1 ∷ 1 ∷ 1 ∷ 1 ∷ 1 ∷ 1 ∷ 1 ∷ 1 ∷ 1 ∷ 1 ∷ 1 ∷ 1 ∷ 1 ∷ 1 ∷ 1 ∷ [])
        ≡ invalid_magic (1 ∷ 1 ∷ 1 ∷ 1 ∷ 1 ∷ 1 ∷ 1 ∷ 1 ∷ 1 ∷ 1 ∷ 1 ∷ 1 ∷ 1 ∷ 1 ∷ 1 ∷ 1 ∷ []))
unfolding read_proxy_v2
no_header = (refl, refl)

read_proxy_v2-encode_proxy_v2_example :
    read_proxy_v2 (encode_proxy_v2 client relay_v6 ++ 0x16 ∷ [])
    ≡ done (some (plain client)) (0x16 ∷ [])
read_proxy_v2-encode_proxy_v2_example =
    read_proxy_v2-encode_proxy_v2 client relay_v6 (0x16 ∷ []) (omega arith)
