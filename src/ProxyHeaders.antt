-- ===== src/ProxyHeaders.antt =====
-- The headers of a proxied request and of its response: server/src/middleware/router/headers.rs.
-- The header map is the interface of Http.Headers; the text form of an address and the URL
-- encoding of a certificate are parameters of `Codec`. The request's extensions are the record
-- `Verified`: what the gateway itself has found out about the client.
pub mod Listed
pub mod Clean
pub mod Spoofing
mod Examples
use praeco_rs.Prelude.{
  ℕ, ◌+◌, ◌-◌, ◌/◌, ◌%◌, Bool, not, ltb, ◌==◌, if◌then◌else◌, Option, none, some, List, [], ◌∷◌,
  ◌++◌, Bytes, is_empty, codes, split_on,
}
use praeco_rs.Net.{IpAddr, is_unspecified}
use praeco_rs.IpFilter.Parse.{trim, parse_u8}
use praeco_rs.Http.{ErrorResponse, build_error_response, loop_detected}
use praeco_rs.Http.Headers.{HeaderMap}

-- RFC 7230 §6.1.
abbrev pub hop_by_hop_headers : List Bytes
hop_by_hop_headers =
    codes "connection"
    ∷ codes "proxy-authenticate"
    ∷ codes "proxy-authorization"
    ∷ codes "te"
    ∷ codes "trailer"
    ∷ codes "transfer-encoding"
    ∷ codes "upgrade"
    ∷ codes "keep-alive"
    ∷ codes "proxy-connection"
    ∷ []

abbrev pub identity_headers_denylist : List Bytes
identity_headers_denylist =
    codes "x-client-cert"
    ∷ codes "x-client-certificate"
    ∷ codes "x-ssl-client-cert"
    ∷ codes "x-ssl-certificate"
    ∷ codes "ssl-client-cert"
    ∷ codes "x-forwarded-tls-client-cert"
    ∷ codes "x-forwarded-client-cert"
    ∷ codes "x-client-san"
    ∷ codes "x-ssl-client-san"
    ∷ codes "ssl-client-san"
    ∷ codes "x-client-cert-san"
    ∷ codes "x-client-roles"
    ∷ codes "x-client-role"
    ∷ codes "x-user-roles"
    ∷ codes "x-user-role"
    ∷ codes "x-auth-roles"
    ∷ codes "x-auth-role"
    ∷ codes "x-user-role-oid"
    ∷ codes "x-authenticated-user"
    ∷ codes "x-client-dn"
    ∷ codes "x-client-subject-dn"
    ∷ codes "x-client-issuer-dn"
    ∷ codes "x-client-serial"
    ∷ codes "x-ssl-client-subject-dn"
    ∷ codes "x-ssl-client-issuer-dn"
    ∷ codes "x-ssl-client-serial"
    ∷ codes "x-ssl-client-verify"
    ∷ codes "x-client-ip"
    ∷ []

abbrev pub forwarding_headers : List Bytes
forwarding_headers =
    codes "forwarded"
    ∷ codes "x-forwarded-for"
    ∷ codes "x-real-ip"
    ∷ codes "x-forwarded-host"
    ∷ codes "x-forwarded-proto"
    ∷ []

-- `client_cert_forwarding` of the configuration: the header names that carry the identity.
pub record ClientCertForwardingConfig : Type 0 where
  pub header_cert : Option Bytes
  pub header_san : Option Bytes
  pub header_roles : Option Bytes
  pub header_client_ip : Option Bytes

-- What the configuration of a server says about headers; `is_https` is its protocol.
pub record HeaderConfig : Type 0 where
  pub is_https : Bool
  pub sni_domain : Option Bytes
  pub client_cert_forwarding : Option ClientCertForwardingConfig

-- The address of the peer, and what its certificate says; `roles` is the first of the three
-- extensions that is present.
pub record Verified : Type 0 where
  pub addr : Option IpAddr
  pub pem : Option Bytes
  pub san : Option Bytes
  pub roles : Option (List Bytes)

pub record Codec : Type 0 where
  pub ip_text : IpAddr → Bytes
  pub url_encode : Bytes → Bytes

pub data Prepared (Map : Type 0) : Type 0 where
  prepared : Map → Prepared Map
  refused : ErrorResponse → Prepared Map

-- The decimal digits of a number below 1000.
abbrev digits : ℕ → Bytes
digits n =
    if ltb n 10
    then (b'0' + n) ∷ []
    else if ltb n 100
    then (b'0' + n / 10) ∷ (b'0' + n % 10) ∷ []
    else (b'0' + n / 100) ∷ (b'0' + n / 10 % 10) ∷ (b'0' + n % 10) ∷ []

abbrev pub present : Option Bytes → List Bytes
present none = []
present (some name) = name ∷ []

-- The four configured names that are set.
abbrev pub configured_names : Option ClientCertForwardingConfig → List Bytes
configured_names none = []
configured_names (some f) =
    present f.header_cert
    ++ (present f.header_san ++ (present f.header_roles ++ present f.header_client_ip))

abbrev join_roles : List Bytes → Bytes
join_roles [] = []
join_roles (role ∷ []) = role
join_roles (role ∷ next ∷ roles) = role ++ (codes ", " ++ join_roles (next ∷ roles))

module _ (http : HeaderMap) where
  -- The names that a text list yields, those that are no header name left out.
  abbrev pub names_of : List Bytes → List Bytes
  names_of [] = []
  names_of (text ∷ texts) = elim (http.to_name text) [
    | none ↦ names_of texts
    | some name ↦ name ∷ names_of texts
  ]

  abbrev pub trim_all : List Bytes → List Bytes
  trim_all [] = []
  trim_all (text ∷ texts) = trim text ∷ trim_all texts

  unfoldable pub remove_all : List Bytes → http.Map → http.Map
  remove_all [] headers = headers
  remove_all (name ∷ names) headers = remove_all names (http.remove name headers)

  -- The headers that `Connection` lists.
  unfoldable pub custom_hops : http.Map → List Bytes
  unfolding trim split_on
  custom_hops headers = elim (http.get (codes "connection") headers) [
    | none ↦ []
    | some value ↦ elim (http.to_str value) [
      | none ↦ []
      | some text ↦ names_of (trim_all (split_on b',' text))
    ]
  ]

  unfoldable pub clean_response_headers : http.Map → http.Map
  unfolding custom_hops remove_all
  clean_response_headers headers =
      http.remove (codes "server")
        (remove_all hop_by_hop_headers (remove_all (custom_hops headers) headers))

  -- The loop detection: `none` is a loop, else the new value of `max-forwards`.
  unfoldable pub next_max_forwards : http.Map → Option ℕ
  unfolding parse_u8
  next_max_forwards headers = elim (http.get (codes "max-forwards") headers) [
    | none ↦ some 10
    | some value ↦ elim (http.to_str value) [
      | none ↦ some 10
      | some text ↦ elim (parse_u8 text) [
        | none ↦ some 10
        | some mf ↦ if mf == 0 then none else some (mf - 1)
      ]
    ]
  ]

  -- Everything that the client may not say: hop-by-hop, identity and forwarding headers.
  unfoldable pub strip_client_headers : HeaderConfig → http.Map → http.Map
  unfolding custom_hops remove_all
  strip_client_headers config headers =
      let unhopped = remove_all hop_by_hop_headers (remove_all (custom_hops headers) headers) in
      let anonymous = remove_all (names_of identity_headers_denylist) unhopped in
      remove_all forwarding_headers
        (remove_all (names_of (configured_names config.client_cert_forwarding)) anonymous)

  -- `insert` of a text that makes a value.
  unfoldable pub insert_text : Bytes → Bytes → http.Map → http.Map
  insert_text name text headers = elim (http.to_value text) [
    | none ↦ headers
    | some value ↦ http.insert name value headers
  ]

  -- The same under a name of the configuration.
  unfoldable pub insert_named : Bytes → Bytes → http.Map → http.Map
  unfolding insert_text
  insert_named text_name text headers = elim (http.to_name text_name) [
    | none ↦ headers
    | some name ↦ insert_text name text headers
  ]

  -- A header of the configuration, if it is set and there is something to say.
  unfoldable pub insert_configured : Option Bytes → Option Bytes → http.Map → http.Map
  unfolding insert_named
  insert_configured (some name) (some text) headers = insert_named name text headers
  insert_configured _ _ headers = headers

  unfoldable pub inject_client_ip : Codec → Option IpAddr → http.Map → http.Map
  unfolding is_unspecified insert_text
  inject_client_ip codec none headers = headers
  inject_client_ip codec (some ip) headers =
      if is_unspecified ip
      then headers
      else insert_text (codes "x-forwarded-for") (codec.ip_text ip)
          (insert_text (codes "x-real-ip") (codec.ip_text ip) headers)

  abbrev inject_host_or : Option Bytes → http.Map → http.Map
  inject_host_or none headers = headers
  inject_host_or (some sni_domain) headers =
      insert_text (codes "x-forwarded-host") sni_domain headers

  unfoldable pub inject_host : HeaderConfig → http.Map → http.Map
  unfolding insert_text
  inject_host config headers = elim (http.get (codes "host") headers) [
    | some host ↦ http.insert (codes "x-forwarded-host") host headers
    | none ↦ inject_host_or config.sni_domain headers
  ]

  abbrev inject_jwt : Option Bytes → http.Map → http.Map
  inject_jwt none headers = headers
  inject_jwt (some token) headers = http.insert (codes "authorization") token headers

  abbrev roles_text : Option (List Bytes) → Option Bytes
  roles_text none = none
  roles_text (some roles) = if is_empty roles then none else some (join_roles roles)

  abbrev mapped : (Bytes → Bytes) → Option Bytes → Option Bytes
  mapped f none = none
  mapped f (some text) = some (f text)

  abbrev ip_of : Codec → Option IpAddr → Option Bytes
  ip_of codec none = none
  ip_of codec (some ip) = some (codec.ip_text ip)

  unfoldable pub inject_identity :
      Codec → Option ClientCertForwardingConfig → Verified → http.Map → http.Map
  unfolding insert_configured
  inject_identity codec none verified headers = headers
  inject_identity codec (some f) verified headers =
      insert_configured f.header_client_ip (ip_of codec verified.addr) (
        insert_configured f.header_roles (roles_text verified.roles) (
          insert_configured f.header_san verified.san
            (insert_configured f.header_cert (mapped codec.url_encode verified.pem) headers)))

  -- What the gateway says itself, after the client's headers are stripped.
  unfoldable pub inject_gateway_headers :
      Codec → HeaderConfig → Option Bytes → Verified → http.Map → http.Map
  unfolding inject_client_ip inject_host inject_identity
  inject_gateway_headers codec config jwt_token verified headers =
      let proto = if config.is_https then codes "https" else codes "http" in
      inject_identity codec config.client_cert_forwarding verified (
        inject_jwt jwt_token (
          inject_host config (
            http.insert (codes "x-forwarded-proto") proto
              (inject_client_ip codec verified.addr headers))))

  -- After the loop detection.
  unfoldable pub prepare_with :
      Codec → HeaderConfig → Option Bytes → Verified → http.Map → Option ℕ → Prepared http.Map
  unfolding strip_client_headers inject_gateway_headers build_error_response
  prepare_with codec config jwt_token verified headers none =
      refused (build_error_response (codes "Loop Detected") loop_detected)
  prepare_with codec config jwt_token verified headers (some max_forwards) = prepared (
      inject_gateway_headers codec config jwt_token verified (
        strip_client_headers config
          (http.insert (codes "max-forwards") (digits max_forwards) headers)))

  unfoldable pub prepare_proxy_headers :
      Codec → HeaderConfig → Option Bytes → Verified → http.Map → Prepared http.Map
  unfolding next_max_forwards prepare_with
  prepare_proxy_headers codec config jwt_token verified headers =
      prepare_with codec config jwt_token verified headers (next_max_forwards headers)

  -- `inject_real_ip`, before the headers are prepared.
  unfoldable pub inject_real_ip : Codec → Option IpAddr → http.Map → http.Map
  unfolding insert_text
  inject_real_ip codec none headers = headers
  inject_real_ip codec (some ip) headers =
      insert_text (codes "x-real-ip") (codec.ip_text ip) headers
