-- ===== src/Session/Text.antt =====
-- The text functions of the session store: the comparison in constant time, the cleaning of a user
-- code, and `trim().is_empty()`, which reads UTF-8 white space.
use Prim.Native.Nat.{bit_or, bit_xor}
use praeco_rs.Prelude.{
  ℕ, ◌+◌, ◌-◌, ◌<◌, ◌≡◌, ◌↔◌, refl, Bool, true, false, not, ◌&&◌, ◌||◌, leb, ltb, ◌==◌,
  if◌then◌else◌, Option, none, some, List, [], ◌∷◌, length, filter, map, All, Bytes, arith, get_or,
  ap, passes_under, passes_under_elim,
}

-- `res |= x ^ y` over the pairs of bytes.
differences : ℕ → Bytes → Bytes → ℕ
differences res [] ys = res
differences res (x ∷ xs) [] = res
differences res (x ∷ xs) (y ∷ ys) = differences (bit_or res (bit_xor x y)) xs ys

unfoldable pub constant_time_eq : Bytes → Bytes → Bool
unfolding differences
constant_time_eq a b = if not (length a == length b) then false else differences 0 a b == 0

-- The UTF-8 forms of the white-space characters, as an automaton: the state is the bytes of an
-- unfinished character, 0 for none, and `none` is a byte that no white space goes on with.
ws_next : ℕ → ℕ → Option ℕ
ws_next state b =
    if state == 0
    then if (leb 9 b && leb b 13) || b == 32
      then some 0
      else if b == 0xC2 || b == 0xE1 || b == 0xE2 || b == 0xE3
      then some b
      else none
    else if state == 0xC2
    then if b == 0x85 || b == 0xA0 then some 0 else none
    else if state == 0xE1
    then if b == 0x9A then some 0xE19A else none
    else if state == 0xE19A
    then if b == 0x80 then some 0 else none
    else if state == 0xE2
    then if b == 0x80 then some 0xE280 else if b == 0x81 then some 0xE281 else none
    else if state == 0xE280
    then if (leb 0x80 b && leb b 0x8A) || b == 0xA8 || b == 0xA9 || b == 0xAF then some 0 else none
    else if state == 0xE281
    then if b == 0x9F then some 0 else none
    else if state == 0xE3
    then if b == 0x80 then some 0xE380 else none
    else if b == 0x80
    then some 0
    else none

blank_from : Option ℕ → Bytes → Bool
blank_from none bs = false
blank_from (some state) [] = state == 0
blank_from (some state) (b ∷ bs) = blank_from (ws_next state b) bs

unfoldable pub is_blank : Bytes → Bool
unfolding blank_from ws_next
is_blank bs = blank_from (some 0) bs

unfoldable pub to_ascii_uppercase : ℕ → ℕ
to_ascii_uppercase b = if leb b'a' b && leb b b'z' then b - 32 else b

-- Dashes are dropped and ASCII letters raised.
unfoldable pub clean : Bytes → Bytes
unfolding to_ascii_uppercase
clean code = map to_ascii_uppercase (filter (λ b. not (b == b'-')) code)

-- The alphabet of user codes has no 0, O, 1 or I; a dash stands after the third character. The six
-- draws are below 32.
abbrev charset : Bytes
charset =
    b'2' ∷ b'3' ∷ b'4' ∷ b'5' ∷ b'6' ∷ b'7' ∷ b'8' ∷ b'9' ∷ b'A' ∷ b'B' ∷ b'C' ∷ b'D' ∷ b'E' ∷ b'F'
    ∷ b'G' ∷ b'H' ∷ b'J' ∷ b'K' ∷ b'L' ∷ b'M' ∷ b'N' ∷ b'P' ∷ b'Q' ∷ b'R' ∷ b'S' ∷ b'T' ∷ b'U'
    ∷ b'V' ∷ b'W' ∷ b'X' ∷ b'Y' ∷ b'Z' ∷ []

code_from : ℕ → List ℕ → Bytes
code_from i [] = []
code_from i (draw ∷ draws) =
    let rest = get_or charset draw 0 ∷ code_from (i + 1) draws in
    if i == 3 then b'-' ∷ rest else rest

unfoldable pub generate_user_code : List ℕ → Bytes
unfolding code_from
generate_user_code draws = code_from 0 draws

abbrev pub IsByte : ℕ → Type 0
IsByte b = b < 256

agree : Bool → Bool → Bool
agree true b = b
agree false b = not b

abbrev xor_test : ℕ → ℕ → Bool
unfolding agree
xor_test x y = agree (bit_xor x y == 0) (x == y) && ltb (bit_xor x y) 256

abbrev or_test : ℕ → ℕ → Bool
unfolding agree
or_test x y = agree (bit_or x y == 0) (x == 0 && y == 0) && ltb (bit_or x y) 256

abbrev row : (ℕ → ℕ → Bool) → ℕ → Bool
row test x = passes_under (test x) 256

xor_table : passes_under (row xor_test) 256 ≡ true
unfolding xor_test
xor_table = refl

or_table : passes_under (row or_test) 256 ≡ true
unfolding or_test
or_table = refl

xor_facts : (x y : ℕ) → x < 256 → y < 256 → ((bit_xor x y ≡ 0) ↔ (x ≡ y)) × (bit_xor x y < 256)
unfolding xor_test agree
xor_facts x y hx hy =
    ground
      (arith, passes_under_elim (xor_test x) hy (passes_under_elim (row xor_test) hx xor_table))

or_facts :
    (x y : ℕ) → x < 256 → y < 256 → ((bit_or x y ≡ 0) ↔ ((x ≡ 0) × (y ≡ 0))) × (bit_or x y < 256)
unfolding or_test agree
or_facts x y hx hy =
    ground (arith, passes_under_elim (or_test x) hy (passes_under_elim (row or_test) hx or_table))

differences-zero_iff :
    (res : ℕ) (xs ys : Bytes)
    → res < 256
    → All IsByte xs
    → All IsByte ys
    → length xs ≡ length ys
    → (differences res xs ys ≡ 0) ↔ ((res ≡ 0) × (xs ≡ ys))
unfolding differences
differences-zero_iff res [] [] h hx hy e = ground arith
differences-zero_iff res [] (y ∷ ys) h hx hy e = absurd (omega arith)
differences-zero_iff res (x ∷ xs) [] h hx hy e = absurd (omega arith)
differences-zero_iff res (x ∷ xs) (y ∷ ys) h hx hy e = ground (
  arith,
  xor_facts x y hx.0 hy.0,
  or_facts res (bit_xor x y),
  differences-zero_iff (bit_or res (bit_xor x y)) xs ys,
)

-- The comparison in constant time, which collects the differences of all bytes and looks at them
-- at the end, is equality of the byte strings.
pub constant_time_eq_iff :
    (a b : Bytes) → All IsByte a → All IsByte b → (constant_time_eq a b ≡ true) ↔ (a ≡ b)
unfolding constant_time_eq
constant_time_eq_iff a b ha hb =
    ground (arith, differences-zero_iff 0 a b (omega arith) ha hb, ap length {x = a} {y = b})
