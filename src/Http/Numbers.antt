-- ===== src/Http/Numbers.antt =====
-- `str::parse::<usize>`.
use praeco_rs.Prelude.{
  ℕ, ◌+◌, ◌-◌, ◌*◌, ◌&&◌, leb, ltb, ◌==◌, if◌then◌else◌, Option, none, some, [], ◌∷◌, Bytes,
  u64_mod,
}

usize_digits : ℕ → Bytes → Option ℕ
usize_digits acc [] = some acc
usize_digits acc (b ∷ bs) =
    let next = acc * 10 + (b - b'0') in
    let rest = usize_digits next bs in
    if leb b'0' b && leb b b'9' && ltb next u64_mod then rest else none

-- One or more digits, perhaps after a plus sign, below 2^64.
unfoldable pub parse_usize : Bytes → Option ℕ
unfolding usize_digits
parse_usize [] = none
parse_usize (b ∷ []) = if b == b'+' then none else usize_digits 0 (b ∷ [])
parse_usize (b ∷ c ∷ bs) =
    if b == b'+' then usize_digits 0 (c ∷ bs) else usize_digits 0 (b ∷ c ∷ bs)
