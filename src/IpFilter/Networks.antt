-- ===== src/IpFilter/Networks.antt =====
-- The addresses of a network that was read from text.
use Prim.Native.Nat.{bit_and}
use native.Mathlib.Nat.{mul-div_left}
use praeco_rs.Prelude.{
  ℕ, ◌-◌, ◌*◌, ◌/◌, ◌%◌, ◌^◌, ◌≤◌, ◌<◌, ◌≡◌, ◌↔◌, inl, inr, refl, ap, sym, subst, is_empty, any,
  ◌∙◌, Bool, true, ltb, leb, ◌==◌, Option, none, some, Bytes, arith, Bool-cases, Option-cases,
  passes_under, passes_under_elim, bit_and-mask, pow_pos, and_true, ==_iff, ◌&&◌,
}
use praeco_rs.Net.{IpAddr, IsValid, v4, v6, unwrap_ipv4_mapped, to_ipv4_mapped}
use praeco_rs.IpFilter.{IpCidr, cidr_v4, cidr_v6, in_network, cidr_contains}
use praeco_rs.IpFilter.Parse.{
  Parsed, parsed, failed, prefix_mask, network_v4, network_v6, with_prefix, mapped_network,
  network_of, parse_parts, parse_cidr, parse_u8, trim, split_once,
}

-- The mask is a run of ones above zeros, and there are as many digits as the word has.
abbrev IsMask : (w p : ℕ) → Type 0
IsMask w p = (prefix_mask w p ≡ (2 ^ p - 1) * 2 ^ (w - p)) × (2 ^ p * 2 ^ (w - p) ≡ 2 ^ w)

abbrev mask_test : ℕ → ℕ → Bool
unfolding prefix_mask
mask_test w p = (prefix_mask w p == (2 ^ p - 1) * 2 ^ (w - p)) && (2 ^ p * 2 ^ (w - p) == 2 ^ w)

mask_test-IsMask : (w p : ℕ) → mask_test w p ≡ true → IsMask w p
unfolding mask_test
mask_test-IsMask w p h =
    let (mask, digits) =
      and_true (prefix_mask w p == (2 ^ p - 1) * 2 ^ (w - p)) (2 ^ p * 2 ^ (w - p) == 2 ^ w) h in
    ((==_iff _ _).0 mask, (==_iff _ _).0 digits)

mask_table : passes_under (mask_test 32) 33 ≡ true
unfolding mask_test
mask_table = refl

mask_table_v6 : passes_under (mask_test 128) 129 ≡ true
unfolding mask_test
mask_table_v6 = refl

same_multiple_iff : (x y k : ℕ) → (x * 2 ^ k ≡ y * 2 ^ k) ↔ (x ≡ y)
same_multiple_iff x y k = (
  λ e. sym (mul-div_left x (pow_pos k)) ∙ ap (λ n. n / 2 ^ k) e ∙ mul-div_left y (pow_pos k),
  λ e. ap (λ n. n * 2 ^ k) e,
)

bit_and-prefix_mask :
    (w p a : ℕ)
    → IsMask w p
    → a < 2 ^ w
    → bit_and a (prefix_mask w p) ≡ a / 2 ^ (w - p) * 2 ^ (w - p)
bit_and-prefix_mask w p a (mask, digits) h =
    ap (bit_and a) mask ∙ bit_and-mask (w - p) p a (omega arith)

-- Under a mask of leading ones two addresses agree exactly in their leading bits.
masked_iff :
    (w p a b : ℕ)
    → IsMask w p
    → a < 2 ^ w
    → b < 2 ^ w
    → (bit_and a (prefix_mask w p) ≡ bit_and b (prefix_mask w p))
      ↔ (a / 2 ^ (w - p) ≡ bit_and b (prefix_mask w p) / 2 ^ (w - p))
masked_iff w p a b m ha hb =
    let at_a = bit_and-prefix_mask w p a m ha in
    let at_b = bit_and-prefix_mask w p b m hb in
    let back = ap (λ n. n / 2 ^ (w - p)) at_b ∙ mul-div_left (b / 2 ^ (w - p)) (pow_pos (w - p)) in
    let (lower, raise) = same_multiple_iff (a / 2 ^ (w - p)) (b / 2 ^ (w - p)) (w - p) in
    (λ e. lower (sym at_a ∙ e ∙ at_b) ∙ sym back, λ e. at_a ∙ raise (e ∙ back) ∙ sym at_b)

==_chain : {x y : ℕ} {P : Type 0} → (x ≡ y) ↔ P → ((x == y) ≡ true) ↔ P
==_chain {x = x} {y = y} (f, g) = (λ h. f ((==_iff x y).0 h), λ p. (==_iff x y).1 (g p))

-- The network was made from an address of its family with a prefix that fits.
abbrev pub IsNetwork : IpCidr → Type 0
IsNetwork (cidr_v4 network mask prefix_len) =
    (b : ℕ) × (b < 2 ^ 32)
    × (prefix_len ≤ 32)
    × (mask ≡ prefix_mask 32 prefix_len)
    × (network ≡ bit_and b mask)
IsNetwork (cidr_v6 network mask prefix_len) =
    (b : ℕ) × (b < 2 ^ 128)
    × (prefix_len ≤ 128)
    × (mask ≡ prefix_mask 128 prefix_len)
    × (network ≡ bit_and b mask)

-- The address is of the network's family and agrees with it in the first `prefix_len` bits.
abbrev pub AgreesWith : IpCidr → IpAddr → Type 0
AgreesWith (cidr_v4 network mask prefix_len) (v4 a) =
    a / 2 ^ (32 - prefix_len) ≡ network / 2 ^ (32 - prefix_len)
AgreesWith (cidr_v6 network mask prefix_len) (v6 a) =
    a / 2 ^ (128 - prefix_len) ≡ network / 2 ^ (128 - prefix_len)
AgreesWith cidr ip = ⊥

in_network_iff :
    (cidr : IpCidr) (ip : IpAddr)
    → IsNetwork cidr
    → IsValid ip
    → (in_network cidr ip ≡ true) ↔ AgreesWith cidr ip
in_network_iff (cidr_v4 n m p) (v4 a) (b, hb, l, em, en) h =
    let mask =
      mask_test-IsMask 32 p
        (passes_under_elim (mask_test 32) {bound = 33} {n = p} (omega arith) mask_table) in
    rw (en, em) (==_chain (masked_iff 32 p a b mask h hb))
in_network_iff (cidr_v6 n m p) (v6 a) (b, hb, l, em, en) h =
    let mask =
      mask_test-IsMask 128 p
        (passes_under_elim (mask_test 128) {bound = 129} {n = p} (omega arith) mask_table_v6) in
    rw (en, em) (==_chain (masked_iff 128 p a b mask h hb))
in_network_iff (cidr_v4 n m p) (v6 a) v h = ground arith
in_network_iff (cidr_v6 n m p) (v4 a) v h = ground arith

abbrev IfParsed : Parsed → Type 0
IfParsed (parsed cidr) = IsNetwork cidr
IfParsed (failed e) = Unit

network_v4-IsNetwork : (a p : ℕ) → a < 2 ^ 32 → p ≤ 32 → IsNetwork (network_v4 a p)
unfolding network_v4
network_v4-IsNetwork a p h l = (a, h, l, refl, refl)

network_v6-IsNetwork : (a p : ℕ) → a < 2 ^ 128 → p ≤ 128 → IsNetwork (network_v6 a p)
unfolding network_v6
network_v6-IsNetwork a p h l = (a, h, l, refl, refl)

with_prefix-IsNetwork :
    (network : ℕ → IpCidr) (bound : ℕ) (prefix : Option Bytes)
    → ((p : ℕ) → p ≤ bound → IsNetwork (network p))
    → IfParsed (with_prefix network bound prefix)
unfolding with_prefix
with_prefix-IsNetwork network bound none h = h bound (omega arith)
with_prefix-IsNetwork network bound (some text) h = elim (Option-cases (parse_u8 text)) [
  | inl bad ↦ rw (bad, IfParsed) tt
  | inr (p, good) ↦ elim (Bool-cases (ltb bound p)) [
    | inl over ↦ rw (good, over, IfParsed) tt
    | inr fits ↦ rw (good, fits, IfParsed) (h p (ground arith))
  ]
]

mapped_network-IsNetwork :
    (a m : ℕ) (prefix : Option Bytes)
    → a < 2 ^ 128
    → m < 2 ^ 32
    → IfParsed (mapped_network a m prefix)
unfolding mapped_network
mapped_network-IsNetwork a m none ha hm =
    with_prefix-IsNetwork (network_v4 m) 32 none (λ p l. network_v4-IsNetwork m p hm l)
mapped_network-IsNetwork a m (some text) ha hm = elim (Option-cases (parse_u8 text)) [
  | inl bad ↦ rw (bad, mapped_network, IfParsed) tt
  | inr (p, good) ↦ elim (Bool-cases (leb p 32)) [
    | inl short ↦
        rw (good, short, mapped_network)
          (with_prefix-IsNetwork (network_v4 m) 32 (some text)
            (λ q l. network_v4-IsNetwork m q hm l))
    | inr long ↦ elim (Bool-cases (leb 96 p && leb p 128)) [
      | inl inside ↦
          rw (good, long, inside, mapped_network, IfParsed)
            (network_v4-IsNetwork m (p - 96) hm (ground arith))
      | inr outside ↦
          rw (good, long, outside, mapped_network)
            (with_prefix-IsNetwork (network_v6 a) 128 (some text)
              (λ q l. network_v6-IsNetwork a q ha l))
    ]
  ]
]

network_of-IsNetwork :
    (ip : IpAddr) (prefix : Option Bytes) → IsValid ip → IfParsed (network_of ip prefix)
unfolding network_of to_ipv4_mapped
network_of-IsNetwork (v4 a) prefix h =
    with_prefix-IsNetwork (network_v4 a) 32 prefix (λ p l. network_v4-IsNetwork a p h l)
network_of-IsNetwork (v6 a) prefix h = elim (Bool-cases (a / 2 ^ 32 == 0xffff)) [
  | inl mapped ↦
      rw (mapped, network_of) (mapped_network-IsNetwork a (a % 2 ^ 32) prefix h (omega arith))
  | inr native ↦
      rw (native, network_of)
        (with_prefix-IsNetwork (network_v6 a) 128 prefix (λ p l. network_v6-IsNetwork a p h l))
]

unwrap-IsValid : (ip : IpAddr) → IsValid ip → IsValid (unwrap_ipv4_mapped ip)
unfolding unwrap_ipv4_mapped to_ipv4_mapped
unwrap-IsValid (v4 a) h = h
unwrap-IsValid (v6 a) h = ground arith

module _ (parse_ip : Bytes → Option IpAddr) where
  parse_parts-IsNetwork :
      (ip_part : Bytes) (prefix : Option Bytes)
      → ((text : Bytes) (ip : IpAddr) → parse_ip text ≡ some ip → IsValid ip)
      → IfParsed (parse_parts parse_ip ip_part prefix)
  unfolding parse_parts
  parse_parts-IsNetwork ip_part prefix v = elim (Option-cases (parse_ip ip_part)) [
    | inl bad ↦ rw (bad, IfParsed) tt
    | inr (ip, good) ↦ rw (good, parse_parts) (network_of-IsNetwork ip prefix (v ip_part ip good))
  ]

  parse_cidr-IfParsed :
      (input : Bytes)
      → ((text : Bytes) (ip : IpAddr) → parse_ip text ≡ some ip → IsValid ip)
      → IfParsed (parse_cidr parse_ip input)
  unfolding parse_cidr
  parse_cidr-IfParsed input v = elim (Bool-cases (is_empty (trim input))) [
    | inl nothing ↦ rw (nothing, IfParsed) tt
    | inr something ↦ elim (Option-cases (split_once (trim input))) [
      | inl whole ↦ rw (something, whole) (parse_parts-IsNetwork (trim input) none v)
      | inr ((ip_s, pfx_s), parts) ↦ elim (Bool-cases (any (λ b. b == b'/') pfx_s)) [
        | inl more ↦ rw (something, parts, more, IfParsed) tt
        | inr two ↦
            rw (something, parts, two) (parse_parts-IsNetwork (trim ip_s) (some (trim pfx_s)) v)
      ]
    ]
  ]

  -- If the parser of addresses yields addresses of 32 or 128 bits, then a network that was read
  -- from text contains exactly the addresses of its family that agree with it in as many leading
  -- bits as its prefix length says, and an IPv4-mapped address counts as the IPv4 address.
  pub cidr_contains-parse_cidr_iff :
      (input : Bytes) (cidr : IpCidr) (ip : IpAddr)
      → ((text : Bytes) (a : IpAddr) → parse_ip text ≡ some a → IsValid a)
      → parse_cidr parse_ip input ≡ parsed cidr
      → IsValid ip
      → (cidr_contains cidr ip ≡ true) ↔ AgreesWith cidr (unwrap_ipv4_mapped ip)
  unfolding cidr_contains
  cidr_contains-parse_cidr_iff input cidr ip v e h =
      in_network_iff cidr (unwrap_ipv4_mapped ip) (subst IfParsed e (parse_cidr-IfParsed input v))
        (unwrap-IsValid ip h)
