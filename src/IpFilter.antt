-- ===== src/IpFilter.antt =====
-- Allow and deny lists of networks: server/src/middleware/ip_filter.rs. `parse_ip` stands for
-- `trim` and `parse::<IpAddr>` on a header, and for `parse::<IpAddr>` on a configured network. The
-- error texts, log lines, metrics and the response are left out.
pub mod Parse
pub mod Networks
pub mod Evaluate
mod Examples
use Prim.Native.Nat.{bit_and}
use praeco_rs.Prelude.{
  ℕ, ◌-◌, ◌*◌, ◌%◌, ◌^◌, Bool, true, false, not, ◌&&◌, ◌==◌, if◌then◌else◌, Option, none, some,
  List, [], ◌∷◌, any, is_empty, Bytes,
}
use praeco_rs.Net.{IpAddr, v4, v6, is_unspecified, unwrap_ipv4_mapped}
use praeco_rs.Net.Forwarded.{ClientRequest, first_segment}

pub data IpCidr : Type 0 where
  cidr_v4 : (network mask prefix_len : ℕ) → IpCidr
  cidr_v6 : (network mask prefix_len : ℕ) → IpCidr

-- The match of `contains`, on the address without its mapping.
abbrev in_network : IpCidr → IpAddr → Bool
in_network (cidr_v4 network mask prefix_len) (v4 a) = bit_and a mask == network
in_network (cidr_v6 network mask prefix_len) (v6 a) = bit_and a mask == network
in_network cidr ip = false

unfoldable pub cidr_contains : IpCidr → IpAddr → Bool
unfolding unwrap_ipv4_mapped
cidr_contains cidr ip = in_network cidr (unwrap_ipv4_mapped ip)

pub data IpFilterRejection : Type 0 where
  denied_by_blocklist : IpAddr → IpCidr → IpFilterRejection
  not_in_allowlist : IpAddr → IpFilterRejection
  missing_client_ip : IpFilterRejection

-- The first network of the list that contains the address.
unfoldable pub first_containing : List IpCidr → IpAddr → Option IpCidr
unfolding cidr_contains
first_containing [] ip = none
first_containing (cidr ∷ cidrs) ip =
    if cidr_contains cidr ip then some cidr else first_containing cidrs ip

-- `none` lets the request through.
unfoldable pub evaluate_ip :
    (allow_cidrs deny_cidrs : List IpCidr) → Option IpAddr → Option IpFilterRejection
unfolding cidr_contains first_containing unwrap_ipv4_mapped
evaluate_ip allow_cidrs deny_cidrs none =
    if is_empty allow_cidrs then none else some missing_client_ip
evaluate_ip allow_cidrs deny_cidrs (some client_ip) =
    let ip = unwrap_ipv4_mapped client_ip in
    elim (first_containing deny_cidrs ip) [
      | some cidr ↦ some (denied_by_blocklist ip cidr)
      | none ↦
          if not (is_empty allow_cidrs) && not (any (λ cidr. cidr_contains cidr ip) allow_cidrs)
          then some (not_in_allowlist ip)
          else none
    ]

module _ (parse_ip : Bytes → Option IpAddr) where
  -- An address that is there and not unspecified.
  abbrev usable : Option IpAddr → Option IpAddr
  unfolding unwrap_ipv4_mapped is_unspecified
  usable none = none
  usable (some ip) = if is_unspecified ip then none else some (unwrap_ipv4_mapped ip)

  abbrev usable_header : Option Bytes → Option IpAddr
  unfolding usable
  usable_header none = none
  usable_header (some text) = usable (parse_ip text)

  abbrev first_of : Option Bytes → Option Bytes
  unfolding first_segment
  first_of none = none
  first_of (some text) = some (first_segment text)

  abbrev or_else : Option IpAddr → Option IpAddr → Option IpAddr
  or_else none other = other
  or_else (some ip) other = some ip

  unfoldable pub extract_client_ip : ClientRequest → Bool → Option IpAddr
  unfolding usable usable_header first_of
  extract_client_ip req trust_forwarded_headers = or_else (usable req.peer) (
      if trust_forwarded_headers
      then or_else (usable_header (first_of req.x_forwarded_for)) (usable_header req.x_real_ip)
      else none)
