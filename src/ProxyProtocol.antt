-- ===== src/ProxyProtocol.antt =====
-- PROXY protocol v2 headers: common/src/proxy_protocol.rs.
-- The asynchronous reader is the list of the bytes that it delivers; a read past its end is the
-- I/O error. A socket address is the address with its port and, for IPv6, flow info and scope.
pub mod Roundtrip
pub mod Reader
mod Examples
use praeco_rs.Prelude.{
  ℕ, zero, suc, ◌+◌, ◌*◌, ◌/◌, ◌%◌, ◌^◌, Bool, true, false, not, ltb, leb, ◌==◌, if◌then◌else◌,
  Option, none, some, List, [], ◌∷◌, ◌++◌, length, take, drop, get_or, Bytes, bytes_eq,
}
use praeco_rs.Net.{to_ipv4_mapped}
use praeco_rs.BigEndian.{to_be, from_be}

pub data SocketAddr : Type 0 where
  sock_v4 : (ip port : ℕ) → SocketAddr
  sock_v6 : (ip port flowinfo scope_id : ℕ) → SocketAddr

abbrev pub port_of : SocketAddr → ℕ
port_of (sock_v4 ip port) = port
port_of (sock_v6 ip port flowinfo scope_id) = port

-- `Ipv4Addr::to_ipv6_mapped`, applied to the IPv4 case.
abbrev pub v6_of : SocketAddr → ℕ
v6_of (sock_v4 ip port) = 0xffff * 2 ^ 32 + ip
v6_of (sock_v6 ip port flowinfo scope_id) = ip

abbrev pub proxy_v2_magic : Bytes
proxy_v2_magic =
    0x0D ∷ 0x0A ∷ 0x0D ∷ 0x0A ∷ 0x00 ∷ 0x0D ∷ 0x0A ∷ 0x51 ∷ 0x55 ∷ 0x49 ∷ 0x54 ∷ 0x0A ∷ []

encode_v6 : ℕ → ℕ → ℕ → ℕ → Bytes
unfolding to_be
encode_v6 src dst src_port dst_port =
    proxy_v2_magic
    ++ 0x21 ∷ 0x21 ∷ to_be 2 36
    ++ (to_be 16 src ++ (to_be 16 dst ++ (to_be 2 src_port ++ to_be 2 dst_port)))

unfoldable pub encode_proxy_v2 : SocketAddr → SocketAddr → Bytes
unfolding encode_v6 to_be
encode_proxy_v2 (sock_v4 s sp) (sock_v4 d dp) =
    proxy_v2_magic
    ++ 0x21 ∷ 0x11 ∷ to_be 2 12
    ++ (to_be 4 s ++ (to_be 4 d ++ (to_be 2 sp ++ to_be 2 dp)))
encode_proxy_v2 s d = encode_v6 (v6_of s) (v6_of d) (port_of s) (port_of d)

pub data ReadResult : Type 0 where
  -- The client's address, if one was sent, and the bytes that are left in the reader.
  done : Option SocketAddr → Bytes → ReadResult
  io_error : ReadResult
  invalid_magic : Bytes → ReadResult
  unsupported_version : ℕ → ReadResult
  payload_too_large : ℕ → ReadResult
  truncated_payload : (expected got : ℕ) → ReadResult

-- An IPv4-mapped source is an IPv4 address again.
v6_source : ℕ → ℕ → SocketAddr
unfolding to_ipv4_mapped
v6_source ip port = elim (to_ipv4_mapped ip) [
  | some v4 ↦ sock_v4 v4 port
  | none ↦ sock_v6 ip port 0 0
]

-- The address of a payload of the family.
unfoldable pub parse_payload : ℕ → Bytes → Bytes → ReadResult
unfolding from_be v6_source
parse_payload fam payload rest =
    if fam == 1
    then if ltb (length payload) 12
      then truncated_payload 12 (length payload)
      else done (some (sock_v4 (from_be (take 4 payload)) (from_be (take 2 (drop 8 payload))))) rest
    else if fam == 2
    then if ltb (length payload) 36
      then truncated_payload 36 (length payload)
      else done (some (v6_source (from_be (take 16 payload)) (from_be (take 2 (drop 32 payload)))))
          rest
    else done none rest

-- Whether `read_exact` finds that many bytes.
unfoldable pub can_read : ℕ → Bytes → Bool
can_read zero reader = true
can_read (suc n) [] = false
can_read (suc n) (b ∷ reader) = can_read n reader

unfoldable pub read_proxy_v2 : Bytes → ReadResult
unfolding parse_payload from_be can_read
read_proxy_v2 reader =
    let header = take 16 reader in
    let body = drop 16 reader in
    let version = get_or header 12 0 / 16 in
    let cmd = get_or header 12 0 % 16 in
    let fam = get_or header 13 0 / 16 in
    let payload_len = from_be (take 2 (drop 14 header)) in
    if not (can_read 16 reader)
    then io_error
    else if not (bytes_eq (take 12 header) proxy_v2_magic)
    then invalid_magic header
    else if not (version == 2)
    then unsupported_version version
    else if ltb 1024 payload_len
    then payload_too_large payload_len
    else if not (can_read payload_len body)
    then io_error
    else if cmd == 0
    then done none (drop payload_len body)
    else parse_payload fam (take payload_len body) (drop payload_len body)
