-- ===== src/IpFilter/Examples.antt =====
-- Networks and clients, and the theorems about the filter at some of them. The parser of addresses
-- knows one text for each of three addresses.
use praeco_rs.Prelude.{
  ◌≡◌, ◌↔◌, refl, true, Option, none, some, [], ◌∷◌, Bytes, bytes_eq, if◌then◌else◌, arith,
}
use praeco_rs.Net.{IpAddr, IsValid, v4, v6, unwrap_ipv4_mapped}
use praeco_rs.Net.Forwarded.{ClientRequest}
use praeco_rs.IpFilter.{
  IpCidr, cidr_v4, cidr_contains, evaluate_ip, denied_by_blocklist, not_in_allowlist,
  missing_client_ip,
}
use praeco_rs.IpFilter.Parse.{parsed, failed, prefix_out_of_range, parse_cidr}
use praeco_rs.IpFilter.Networks.{AgreesWith, cidr_contains-parse_cidr_iff}
use praeco_rs.IpFilter.Evaluate.{IsPermitted, evaluate_ip-IsPermitted_iff}

-- `a` is 10.0.0.1, `b` is 2001:db8::1, any other text `::ffff:10.0.0.1`.
abbrev parse_ip : Bytes → Option IpAddr
parse_ip text =
    if bytes_eq text (b'a' ∷ [])
    then some (v4 0x0a000001)
    else if bytes_eq text (b'b' ∷ [])
    then some (v6 0x20010db8_00000000_00000000_00000001)
    else some (v6 0xffff0a000001)

parse_ip-IsValid : (text : Bytes) (a : IpAddr) → parse_ip text ≡ some a → IsValid a
parse_ip-IsValid text a h = ground arith

-- ` a/8`, `a/33` and `c/104`.
abbrev eight : Bytes
eight = b' ' ∷ b'a' ∷ b'/' ∷ b'8' ∷ []

abbrev too_long : Bytes
too_long = b'a' ∷ b'/' ∷ b'3' ∷ b'3' ∷ []

abbrev mapped_eight : Bytes
mapped_eight = b'c' ∷ b'/' ∷ b'1' ∷ b'0' ∷ b'4' ∷ []

abbrev ten : IpCidr
ten = cidr_v4 0x0a000000 0xff000000 8

abbrev ninety_nine : IpCidr
ninety_nine = cidr_v4 0x0a630000 0xffff0000 16

networks_read :
    (parse_cidr parse_ip eight ≡ parsed ten)
    × (parse_cidr parse_ip too_long ≡ failed prefix_out_of_range)
    × (parse_cidr parse_ip mapped_eight ≡ parsed ten)
unfolding parse_cidr
networks_read = (refl, refl, refl)

-- 10.99.0.1 is denied within 10.0.0.0/8, which is allowed.
decided :
    (evaluate_ip (ten ∷ []) (ninety_nine ∷ []) (some (v4 0x0a630001))
      ≡ some (denied_by_blocklist (v4 0x0a630001) ninety_nine))
    × (evaluate_ip (ten ∷ []) (ninety_nine ∷ []) (some (v6 0xffff0a000001)) ≡ none)
    × (evaluate_ip (ten ∷ []) [] (some (v4 1)) ≡ some (not_in_allowlist (v4 1)))
    × (evaluate_ip (ten ∷ []) [] none ≡ some missing_client_ip)
unfolding evaluate_ip
decided = (refl, refl, refl, refl)

cidr_contains-parse_cidr_iff_example :
    (cidr_contains ten (v6 0xffff0a000001) ≡ true)
    ↔ AgreesWith ten (unwrap_ipv4_mapped (v6 0xffff0a000001))
cidr_contains-parse_cidr_iff_example =
    cidr_contains-parse_cidr_iff parse_ip eight ten (v6 0xffff0a000001) parse_ip-IsValid
      networks_read.0 (omega arith)

evaluate_ip-IsPermitted_iff_example :
    (evaluate_ip (ten ∷ []) (ninety_nine ∷ []) (some (v4 0x0a000001)) ≡ none)
    ↔ IsPermitted (ten ∷ []) (ninety_nine ∷ []) (some (v4 0x0a000001))
evaluate_ip-IsPermitted_iff_example =
    evaluate_ip-IsPermitted_iff (ten ∷ []) (ninety_nine ∷ []) (some (v4 0x0a000001))

abbrev request : ClientRequest
request = record { peer = some (v4 0x0a000001); x_forwarded_for = none; x_real_ip = none }
