-- ===== src/Relay/Passage.antt =====
-- The relay and the gateway behind it: what the relay writes into the tunnel, read by
-- `read_proxy_v2` of common/src/proxy_protocol.rs.
use praeco_rs.Prelude.{
  ◌≡◌, refl, ap, ap₂, ◌∙◌, subst, Bool, true, if◌then◌else◌, Bool-cases, Option, none, some, List,
  ◌++◌, Bytes, append_assoc, inl, inr,
}
use praeco_rs.DashMap.{DashMap}
use praeco_rs.ProxyProtocol.{SocketAddr, encode_proxy_v2, done, read_proxy_v2}
use praeco_rs.ProxyProtocol.Roundtrip.{IsValid, plain, read_proxy_v2-encode_proxy_v2}
use praeco_rs.Relay.Register.{UnicodeOps, lowercase, is_valid_sni}
use praeco_rs.Relay.Tunnels.{TunnelRoute, Relay}
use praeco_rs.Relay.Hello.{Segment, Hello, hello, refused, read_client_hello_record}
use praeco_rs.Relay.Route.{Passed, through, opening_of, through_tunnel, by_sni, by_hello, pass_on}

module _ (unicode : UnicodeOps) (extract_sni : Bytes → Option Bytes)
    (table : DashMap Bytes TunnelRoute) (opens : TunnelRoute → Bool)
    (takes : TunnelRoute → Bytes → Bool) (client_addr local_addr : SocketAddr) where
  -- How a connection that is passed on comes from the hello.
  abbrev Via : Relay table → Hello → Passed → Type 0
  Via relay answer (through route opening) =
      (buf : Bytes) × (name : Bytes) × (answer ≡ hello buf)
      × (extract_sni buf ≡ some name)
      × (table.get (lowercase name) relay.tunnels ≡ some route)
      × (opening
          ≡ opening_of unicode extract_sni table opens takes client_addr local_addr route buf)
  Via relay answer _ = Unit

  through_tunnel-Via :
      (relay : Relay table) (buf name : Bytes) (found : Option TunnelRoute)
      → extract_sni buf ≡ some name
      → table.get (lowercase name) relay.tunnels ≡ found
      → Via relay
          (hello buf)
          (through_tunnel unicode extract_sni table opens takes client_addr local_addr buf found)
  unfolding through_tunnel
  through_tunnel-Via relay buf name none e g = tt
  through_tunnel-Via relay buf name (some route) e g = elim (Bool-cases (opens route)) [
    | inl open_ ↦
        rw open_
          (elim (Bool-cases (
            takes route (
              opening_of unicode extract_sni table opens takes client_addr local_addr route buf))) [
                | inl written ↦ rw written (buf, name, refl, e, g, refl)
                | inr broken ↦ rw broken tt
              ])
    | inr shut ↦ rw shut tt
  ]

  by_sni-Via :
      (relay : Relay table) (buf : Bytes) (sni : Option Bytes)
      → extract_sni buf ≡ sni
      → Via relay
          (hello buf)
          (by_sni unicode extract_sni table opens takes client_addr local_addr relay buf sni)
  unfolding by_sni
  by_sni-Via relay buf none e = tt
  by_sni-Via relay buf (some name) e = elim (Bool-cases (is_valid_sni unicode (lowercase name))) [
    | inl valid ↦ rw valid (through_tunnel-Via relay buf name _ e refl)
    | inr invalid ↦ rw invalid tt
  ]

  by_hello-Via :
      (relay : Relay table) (answer : Hello)
      → Via relay answer
          (by_hello unicode extract_sni table opens takes client_addr local_addr relay answer)
  unfolding by_hello
  by_hello-Via relay (refused reason) = tt
  by_hello-Via relay (hello buf) = by_sni-Via relay buf _ refl

  -- When a connection is passed on into a tunnel that takes PROXY headers, then what the client sent
  -- first names a host in lower case whose entry in the table is this tunnel, and the gateway reads
  -- the client's address, with all that the client sent first left for it, before anything that follows.
  pub pass_on-read_proxy_v2 :
      (relay : Relay table) (stream left : List Segment) (route : TunnelRoute)
      (opening more : Bytes)
      → IsValid client_addr
      → pass_on unicode extract_sni table opens takes client_addr local_addr relay stream
        ≡ (through route opening, left)
      → route.supports_proxy_v2 ≡ true
      → (buf : Bytes) × (name : Bytes) × (read_client_hello_record stream ≡ (hello buf, left))
        × (extract_sni buf ≡ some name)
        × (table.get (lowercase name) relay.tunnels ≡ some route)
        × (read_proxy_v2 (opening ++ more) ≡ done (some (plain client_addr)) (buf ++ more))
  unfolding pass_on opening_of
  pass_on-read_proxy_v2 relay stream left route opening more valid e proxied =
      let (answer, left_) = read_client_hello_record stream in
      let (buf, name, ea, en, eg, eo) =
        subst (Via relay answer) (ap (λ p. p.0) e) (by_hello-Via relay answer) in
      (
        buf,
        name,
        ap₂ (λ a b. (a, b)) ea (ap (λ p. p.1) e),
        en,
        eg,
        ap (λ t. read_proxy_v2 (t ++ more))
              (eo
                ∙ ap (λ c. if c then encode_proxy_v2 client_addr local_addr ++ buf else buf)
                    proxied)
            ∙ ap read_proxy_v2 (append_assoc (encode_proxy_v2 client_addr local_addr) buf more)
            ∙ read_proxy_v2-encode_proxy_v2 client_addr local_addr (buf ++ more) valid,
      )
