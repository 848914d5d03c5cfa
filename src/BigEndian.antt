-- ===== src/BigEndian.antt =====
-- `to_be_bytes`, `octets` and `from_be_bytes`: numbers as bytes, the highest first, and back.
use praeco_rs.Prelude.{
  ℕ, zero, suc, ◌+◌, ◌*◌, ◌/◌, ◌%◌, ◌^◌, ◌<◌, ◌≡◌, ap, ◌∙◌, [], ◌∷◌, Bytes, length, arith,
}
use native.Mathlib.Nat.{pow-suc}

-- The lowest `width` bytes of a number in front of more bytes.
to_be_from : ℕ → ℕ → Bytes → Bytes
to_be_from zero n tail = tail
to_be_from (suc width) n tail = to_be_from width (n / 256) (n % 256 ∷ tail)

unfoldable pub to_be : ℕ → ℕ → Bytes
unfolding to_be_from
to_be width n = to_be_from width n []

from_be_acc : ℕ → Bytes → ℕ
from_be_acc acc [] = acc
from_be_acc acc (b ∷ bs) = from_be_acc (acc * 256 + b) bs

unfoldable pub from_be : Bytes → ℕ
unfolding from_be_acc
from_be bs = from_be_acc 0 bs

from_be_acc-to_be_from :
    (width n : ℕ) (tail : Bytes)
    → n < 256 ^ width
    → from_be_acc 0 (to_be_from width n tail) ≡ from_be_acc n tail
unfolding to_be_from from_be_acc
from_be_acc-to_be_from zero n tail h = let e : n ≡ 0 = omega arith in rw e
from_be_acc-to_be_from (suc width) n tail h =
    let whole : n / 256 * 256 + n % 256 ≡ n = omega arith in
    from_be_acc-to_be_from width (n / 256) (n % 256 ∷ tail) (omega (arith, pow-suc 256 width))
    ∙ ap (λ acc. from_be_acc acc tail) whole

-- A number that fits the width is read back.
pub from_be-to_be : (width n : ℕ) → n < 256 ^ width → from_be (to_be width n) ≡ n
unfolding from_be to_be
from_be-to_be width n h = from_be_acc-to_be_from width n [] h

length-to_be_from :
    (width n : ℕ) (tail : Bytes) → length (to_be_from width n tail) ≡ width + length tail
unfolding to_be_from
length-to_be_from zero n tail = omega arith
length-to_be_from (suc width) n tail =
    omega (arith, length-to_be_from width (n / 256) (n % 256 ∷ tail))

pub length-to_be : (width n : ℕ) → length (to_be width n) ≡ width
unfolding to_be
length-to_be width n = omega (arith, length-to_be_from width n [])
