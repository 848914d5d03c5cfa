-- ===== src/RateLimiter/Key.antt =====
-- Under which key a request is counted.
use praeco_rs.Prelude.{
  ◌≡◌, ◌⊎◌, arith, Bool, false, is_empty, if◌then◌else◌, Option, none, some, Bytes,
}
use praeco_rs.Net.{IpAddr, is_unspecified, canonical_client_ip}
use praeco_rs.Net.Forwarded.{ClientRequest, first_segment}
use praeco_rs.RateLimiter.{RateLimitKey, user, client_cert, ip, global}

pub data RateLimitKeyStrategy : Type 0 where
  by_identity by_ip by_global : RateLimitKeyStrategy

-- The extensions that authentication has set, and what the request says of its client.
pub record Identified : Type 0 where
  pub claims_sub : Option Bytes
  pub san : Option Bytes
  pub client : ClientRequest

-- `parse_ip` is `trim` and `parse::<IpAddr>`.
module _ (parse_ip : Bytes → Option IpAddr) where
  abbrev parse_header : Option Bytes → Option IpAddr
  parse_header none = none
  parse_header (some text) = parse_ip text

  abbrev first_of : Option Bytes → Option Bytes
  unfolding first_segment
  first_of none = none
  first_of (some text) = some (first_segment text)

  abbrev ip_key : Option IpAddr → RateLimitKey → RateLimitKey
  unfolding canonical_client_ip
  ip_key none other = other
  ip_key (some a) other = ip (canonical_client_ip a)

  -- The addresses that the headers name.
  unfoldable pub forwarded_key : Bool → ClientRequest → RateLimitKey
  unfolding canonical_client_ip first_segment
  forwarded_key trust_forwarded_headers req =
      if trust_forwarded_headers
      then ip_key (parse_header (first_of req.x_forwarded_for))
          (ip_key (parse_header req.x_real_ip) global)
      else global

  unfoldable pub extract_ip_key : Bool → ClientRequest → RateLimitKey
  unfolding is_unspecified canonical_client_ip forwarded_key
  extract_ip_key trust_forwarded_headers req = elim req.peer [
    | none ↦ forwarded_key trust_forwarded_headers req
    | some a ↦
        if is_unspecified a
        then forwarded_key trust_forwarded_headers req
        else ip (canonical_client_ip a)
  ]

  -- A text that is there and not empty.
  abbrev named : Option Bytes → Option Bytes
  named none = none
  named (some text) = if is_empty text then none else some text

  unfoldable pub extract_rate_limit_key : RateLimitKeyStrategy → Bool → Identified → RateLimitKey
  unfolding extract_ip_key
  extract_rate_limit_key by_global trust_forwarded_headers req = global
  extract_rate_limit_key by_ip trust_forwarded_headers req =
      extract_ip_key trust_forwarded_headers req.client
  extract_rate_limit_key by_identity trust_forwarded_headers req = elim (named req.claims_sub) [
    | some sub ↦ user sub
    | none ↦ elim (named req.san) [
      | some san ↦ client_cert san
      | none ↦ extract_ip_key trust_forwarded_headers req.client
    ]
  ]

  -- A client cannot choose its key by its headers: unless they are trusted and the peer address is
  -- unknown or unspecified, two requests that differ in the two headers only have one key.
  extract_rate_limit_key-headers :
      (strategy : RateLimitKeyStrategy) (trust : Bool) (req : Identified) (xff xrip : Option Bytes)
      → (trust ≡ false) ⊎ ((a : IpAddr) × (req.client.peer ≡ some a) × (is_unspecified a ≡ false))
      → extract_rate_limit_key strategy trust
          (record req { client = record req.client { x_forwarded_for = xff; x_real_ip = xrip } })
        ≡ extract_rate_limit_key strategy trust req
  unfolding extract_rate_limit_key extract_ip_key forwarded_key
  extract_rate_limit_key-headers strategy trust req xff xrip h = ground arith
