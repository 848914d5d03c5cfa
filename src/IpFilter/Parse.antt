-- ===== src/IpFilter/Parse.antt =====
-- Networks in CIDR notation, from text: `IpCidr::parse`. `trim`, `split_once`, and
-- `parse::<u8>` are written out over the bytes of the text.
use Prim.Native.Nat.{bit_and}
use praeco_rs.Prelude.{
  ℕ, zero, suc, ◌+◌, ◌-◌, ◌*◌, ◌%◌, ◌^◌, Bool, true, false, ◌&&◌, leb, ltb, ◌==◌, if◌then◌else◌,
  Option, none, some, List, [], ◌∷◌, is_empty, any, length, Bytes, starts_with,
}
use praeco_rs.Net.{IpAddr, v4, v6, to_ipv4_mapped}
use praeco_rs.IpFilter.{IpCidr, cidr_v4, cidr_v6}

pub data CidrError : Type 0 where
  empty_text multiple_delimiters invalid_ip invalid_prefix_length prefix_out_of_range : CidrError

pub data Parsed : Type 0 where
  parsed : IpCidr → Parsed
  failed : CidrError → Parsed

-- The UTF-8 forms of the characters that are white space.
abbrev pub white_space : List Bytes
white_space =
    (9 ∷ [])
    ∷ (10 ∷ [])
    ∷ (11 ∷ [])
    ∷ (12 ∷ [])
    ∷ (13 ∷ [])
    ∷ (32 ∷ [])
    ∷ (0xC2 ∷ 0x85 ∷ [])
    ∷ (0xC2 ∷ 0xA0 ∷ [])
    ∷ (0xE1 ∷ 0x9A ∷ 0x80 ∷ [])
    ∷ (0xE2 ∷ 0x80 ∷ 0x80 ∷ [])
    ∷ (0xE2 ∷ 0x80 ∷ 0x81 ∷ [])
    ∷ (0xE2 ∷ 0x80 ∷ 0x82 ∷ [])
    ∷ (0xE2 ∷ 0x80 ∷ 0x83 ∷ [])
    ∷ (0xE2 ∷ 0x80 ∷ 0x84 ∷ [])
    ∷ (0xE2 ∷ 0x80 ∷ 0x85 ∷ [])
    ∷ (0xE2 ∷ 0x80 ∷ 0x86 ∷ [])
    ∷ (0xE2 ∷ 0x80 ∷ 0x87 ∷ [])
    ∷ (0xE2 ∷ 0x80 ∷ 0x88 ∷ [])
    ∷ (0xE2 ∷ 0x80 ∷ 0x89 ∷ [])
    ∷ (0xE2 ∷ 0x80 ∷ 0x8A ∷ [])
    ∷ (0xE2 ∷ 0x80 ∷ 0xA8 ∷ [])
    ∷ (0xE2 ∷ 0x80 ∷ 0xA9 ∷ [])
    ∷ (0xE2 ∷ 0x80 ∷ 0xAF ∷ [])
    ∷ (0xE2 ∷ 0x81 ∷ 0x9F ∷ [])
    ∷ (0xE3 ∷ 0x80 ∷ 0x80 ∷ [])
    ∷ []

-- The length of the white space that the text starts with, 0 if there is none.
unfoldable pub leading_space : List Bytes → Bytes → ℕ
leading_space [] text = 0
leading_space (s ∷ spaces) text = if starts_with text s then length s else leading_space spaces text

-- `skip` bytes of a character are still to be dropped.
trim_start : (skip : ℕ) → Bytes → Bytes
unfolding leading_space
trim_start skip [] = []
trim_start (suc skip) (b ∷ bs) = trim_start skip bs
trim_start zero (b ∷ bs) = elim (leading_space white_space (b ∷ bs)) [
  | zero ↦ b ∷ bs
  | suc more ↦ trim_start more bs
]

-- All of the text is white space.
is_space : (skip : ℕ) → Bytes → Bool
unfolding leading_space
is_space skip [] = true
is_space (suc skip) (b ∷ bs) = is_space skip bs
is_space zero (b ∷ bs) = elim (leading_space white_space (b ∷ bs)) [
  | zero ↦ false
  | suc more ↦ is_space more bs
]

trim_end : Bytes → Bytes
unfolding is_space
trim_end [] = []
trim_end (b ∷ bs) = let rest = trim_end bs in if is_space 0 (b ∷ bs) then [] else b ∷ rest

unfoldable pub trim : Bytes → Bytes
unfolding trim_start trim_end
trim text = trim_end (trim_start 0 text)

-- The texts before and after the first slash.
unfoldable pub split_once : Bytes → Option (Bytes × Bytes)
split_once [] = none
split_once (b ∷ bs) =
    let rest = split_once bs in
    if b == b'/'
    then some ([], bs)
    else elim rest [ none ↦ none | some (before, after) ↦ some (b ∷ before, after) ]

digits_from : ℕ → Bytes → Option ℕ
digits_from acc [] = some acc
digits_from acc (b ∷ bs) =
    let next = acc * 10 + (b - b'0') in
    let rest = digits_from next bs in
    if leb b'0' b && leb b b'9' && leb next 255 then rest else none

-- One or more digits, perhaps after a plus sign, and at most 255.
unfoldable pub parse_u8 : Bytes → Option ℕ
unfolding digits_from
parse_u8 [] = none
parse_u8 (b ∷ []) = if b == b'+' then none else digits_from 0 (b ∷ [])
parse_u8 (b ∷ c ∷ bs) = if b == b'+' then digits_from 0 (c ∷ bs) else digits_from 0 (b ∷ c ∷ bs)

-- `!0 << (w - prefix_len)` in `w` bits, and 0 for an empty prefix.
unfoldable pub prefix_mask : (w prefix_len : ℕ) → ℕ
prefix_mask w prefix_len = if prefix_len == 0 then 0 else (2 ^ w - 1) * 2 ^ (w - prefix_len) % 2 ^ w

unfoldable pub network_v4 : (address prefix_len : ℕ) → IpCidr
unfolding prefix_mask
network_v4 address prefix_len =
    let mask = prefix_mask 32 prefix_len in cidr_v4 (bit_and address mask) mask prefix_len

unfoldable pub network_v6 : (address prefix_len : ℕ) → IpCidr
unfolding prefix_mask
network_v6 address prefix_len =
    let mask = prefix_mask 128 prefix_len in cidr_v6 (bit_and address mask) mask prefix_len

-- The prefix length as it is written, and the bound and the default for it.
unfoldable pub with_prefix : (ℕ → IpCidr) → (bound : ℕ) → Option Bytes → Parsed
unfolding parse_u8
with_prefix network bound none = parsed (network bound)
with_prefix network bound (some text) = elim (parse_u8 text) [
  | none ↦ failed invalid_prefix_length
  | some prefix_len ↦
      if ltb bound prefix_len then failed prefix_out_of_range else parsed (network prefix_len)
]

-- An IPv4-mapped address, as the prefix says for which family it is meant.
unfoldable pub mapped_network : (address mapped : ℕ) → Option Bytes → Parsed
unfolding parse_u8 network_v4 network_v6 with_prefix
mapped_network address mapped none = with_prefix (network_v4 mapped) 32 none
mapped_network address mapped (some text) = elim (parse_u8 text) [
  | none ↦ failed invalid_prefix_length
  | some prefix_len ↦
      if leb prefix_len 32
      then with_prefix (network_v4 mapped) 32 (some text)
      else if leb 96 prefix_len && leb prefix_len 128
      then parsed (network_v4 mapped (prefix_len - 96))
      else with_prefix (network_v6 address) 128 (some text)
]

unfoldable pub network_of : IpAddr → Option Bytes → Parsed
unfolding network_v4 network_v6 with_prefix mapped_network to_ipv4_mapped
network_of (v4 a) prefix = with_prefix (network_v4 a) 32 prefix
network_of (v6 a) prefix = elim (to_ipv4_mapped a) [
  | some mapped ↦ mapped_network a mapped prefix
  | none ↦ with_prefix (network_v6 a) 128 prefix
]

module _ (parse_ip : Bytes → Option IpAddr) where
  unfoldable pub parse_parts : Bytes → Option Bytes → Parsed
  unfolding network_of
  parse_parts ip_part prefix_part = elim (parse_ip ip_part) [
    | none ↦ failed invalid_ip
    | some ip ↦ network_of ip prefix_part
  ]

  unfoldable pub parse_cidr : Bytes → Parsed
  unfolding trim split_once parse_parts
  parse_cidr input =
      let trimmed = trim input in
      if is_empty trimmed then failed empty_text else elim (split_once trimmed) [
        | none ↦ parse_parts trimmed none
        | some (ip_s, pfx_s) ↦
            if any (λ b. b == b'/') pfx_s
            then failed multiple_delimiters
            else parse_parts (trim ip_s) (some (trim pfx_s))
      ]
