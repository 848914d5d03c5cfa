-- ===== src/Relay/Route.antt =====
-- A client's connection: the task of `run_data_plane` in relay-server/src/main.rs, up to the copying
-- of bytes. The parser of the hello (`tls_parser`) is the parameter `extract_sni`; the token bucket,
-- which counts in floating point, and the limit on connections come before.
use praeco_rs.Prelude.{Bool, not, if◌then◌else◌, Option, none, some, List, ◌++◌, Bytes}
use praeco_rs.DashMap.{DashMap}
use praeco_rs.ProxyProtocol.{SocketAddr, encode_proxy_v2}
use praeco_rs.Relay.Register.{UnicodeOps, lowercase, is_valid_sni}
use praeco_rs.Relay.Tunnels.{TunnelRoute, Relay}
use praeco_rs.Relay.Hello.{Segment, Hello, hello, refused, Refusal, read_client_hello_record}

-- What becomes of the connection: the bytes that start its stream in the tunnel, or why it is
-- dropped.
pub data Passed : Type 0 where
  unreadable : Refusal → Passed
  no_sni invalid_sni no_tunnel not_opened not_written : Passed
  through : TunnelRoute → (opening : Bytes) → Passed

module _ (unicode : UnicodeOps) (extract_sni : Bytes → Option Bytes)
    (table : DashMap Bytes TunnelRoute) (opens : TunnelRoute → Bool)
    (takes : TunnelRoute → Bytes → Bool) (client_addr local_addr : SocketAddr) where
  -- The PROXY header, if the tunnel takes it, and the hello.
  unfoldable pub opening_of : TunnelRoute → Bytes → Bytes
  unfolding encode_proxy_v2
  opening_of route buf =
      if route.supports_proxy_v2 then encode_proxy_v2 client_addr local_addr ++ buf else buf

  -- `opens` says whether the tunnel yields a stream, `takes` whether all is written to it.
  unfoldable pub through_tunnel : Bytes → Option TunnelRoute → Passed
  unfolding opening_of
  through_tunnel buf none = no_tunnel
  through_tunnel buf (some route) =
      if not (opens route)
      then not_opened
      else if takes route (opening_of route buf)
      then through route (opening_of route buf)
      else not_written

  unfoldable pub by_sni : Relay table → Bytes → Option Bytes → Passed
  unfolding through_tunnel is_valid_sni
  by_sni relay buf none = no_sni
  by_sni relay buf (some name) =
      if is_valid_sni unicode (lowercase name)
      then through_tunnel buf (table.get (lowercase name) relay.tunnels)
      else invalid_sni

  unfoldable pub by_hello : Relay table → Hello → Passed
  unfolding by_sni
  by_hello relay (refused reason) = unreadable reason
  by_hello relay (hello buf) = by_sni relay buf (extract_sni buf)

  -- What becomes of it, and what the client has sent after the hello.
  unfoldable pub pass_on : Relay table → List Segment → Passed × List Segment
  unfolding by_hello read_client_hello_record
  pass_on relay stream =
      let (answer, left) = read_client_hello_record stream in (by_hello relay answer, left)
