-- ===== src/IpFilter/Evaluate.antt =====
-- Which clients the filter lets through.
use praeco_rs.Prelude.{
  ◌≡◌, ◌↔◌, ◌⊎◌, inl, inr, refl, Bool, true, false, Option, none, some, List, [], ◌∷◌, any, Bytes,
  Elem, All, arith, Bool-cases,
}
use praeco_rs.Net.{IpAddr, v4, v6, unwrap_ipv4_mapped, is_unspecified}
use praeco_rs.Net.Forwarded.{ClientRequest}
use praeco_rs.IpFilter.{IpCidr, cidr_contains, first_containing, evaluate_ip, extract_client_ip}

-- No network that is denied contains the address, and, if there are networks that are allowed, one
-- of these does. Without an address nothing may be required of it.
abbrev pub IsPermitted : (allow_cidrs deny_cidrs : List IpCidr) → Option IpAddr → Type 0
IsPermitted allow_cidrs deny_cidrs none = allow_cidrs ≡ []
IsPermitted allow_cidrs deny_cidrs (some ip) =
    All (λ cidr. cidr_contains cidr ip ≡ false) deny_cidrs
    × ((allow_cidrs ≡ [])
        ⊎ ((cidr : IpCidr) × Elem cidr allow_cidrs × (cidr_contains cidr ip ≡ true)))

unwrap_idempotent :
    (ip : IpAddr) → unwrap_ipv4_mapped (unwrap_ipv4_mapped ip) ≡ unwrap_ipv4_mapped ip
unfolding unwrap_ipv4_mapped
unwrap_idempotent (v4 a) = refl
unwrap_idempotent (v6 a) = ground arith

contains-unwrap :
    (cidr : IpCidr) (ip : IpAddr)
    → cidr_contains cidr (unwrap_ipv4_mapped ip) ≡ cidr_contains cidr ip
unfolding cidr_contains
contains-unwrap cidr ip = rw (unwrap_idempotent ip) refl

first_containing-none_iff :
    (cidrs : List IpCidr) (ip : IpAddr)
    → (first_containing cidrs (unwrap_ipv4_mapped ip) ≡ none)
      ↔ All (λ cidr. cidr_contains cidr ip ≡ false) cidrs
unfolding first_containing
first_containing-none_iff [] ip = ground arith
first_containing-none_iff (cidr ∷ cidrs) ip =
    ground (arith, first_containing-none_iff cidrs ip, contains-unwrap cidr ip)

any_containing_iff :
    (cidrs : List IpCidr) (ip : IpAddr)
    → (any (λ cidr. cidr_contains cidr (unwrap_ipv4_mapped ip)) cidrs ≡ true)
      ↔ ((cidr : IpCidr) × Elem cidr cidrs × (cidr_contains cidr ip ≡ true))
any_containing_iff [] ip = (λ h. absurd (ground arith), λ (cidr, m, h). absurd m)
any_containing_iff (cidr ∷ cidrs) ip = (
  λ h. elim (Bool-cases (cidr_contains cidr ip)) [
    | inl here ↦ (cidr, inl refl, here)
    | inr there ↦
        let (other, m, k) =
          (any_containing_iff cidrs ip).0 (ground (arith, contains-unwrap cidr ip)) in
        (other, inr m, k)
  ],
  λ (other, m, h). elim m [
    | inl e ↦
        let here : cidr_contains cidr ip ≡ true = rw (← e) h in
        ground (arith, contains-unwrap cidr ip, here)
    | inr n ↦ ground (arith, (any_containing_iff cidrs ip).1 (other, n, h))
  ],
)

-- A request is let through exactly if its client is permitted: a denied network wins over an
-- allowed one, and a request without a client address passes only if no networks are allowed
-- explicitly.
pub evaluate_ip-IsPermitted_iff :
    (allow_cidrs deny_cidrs : List IpCidr) (client_ip : Option IpAddr)
    → (evaluate_ip allow_cidrs deny_cidrs client_ip ≡ none)
      ↔ IsPermitted allow_cidrs deny_cidrs client_ip
unfolding evaluate_ip
evaluate_ip-IsPermitted_iff [] deny_cidrs none = ground arith
evaluate_ip-IsPermitted_iff (cidr ∷ allow_cidrs) deny_cidrs none = ground arith
evaluate_ip-IsPermitted_iff [] deny_cidrs (some ip) =
    ground (arith, first_containing-none_iff deny_cidrs ip)
evaluate_ip-IsPermitted_iff (cidr ∷ allow_cidrs) deny_cidrs (some ip) =
    ground
      (arith, first_containing-none_iff deny_cidrs ip, any_containing_iff (cidr ∷ allow_cidrs) ip)

-- The headers of a request do not say who its client is, unless they are trusted and the peer
-- address is unknown or unspecified.
extract_client_ip-headers :
    (parse_ip : Bytes → Option IpAddr) (trust : Bool) (req : ClientRequest)
    (xff xrip : Option Bytes)
    → (trust ≡ false) ⊎ ((a : IpAddr) × (req.peer ≡ some a) × (is_unspecified a ≡ false))
    → extract_client_ip parse_ip (record req { x_forwarded_for = xff; x_real_ip = xrip }) trust
      ≡ extract_client_ip parse_ip req trust
unfolding extract_client_ip
extract_client_ip-headers parse_ip trust req xff xrip h = ground arith
