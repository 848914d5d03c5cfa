-- ===== src/Prelude/Bits.antt =====
-- The conjunction of a number with a mask of leading ones, digit by digit.
use Prim.Native.Nat.{
  ℕ, zero, suc, ◌+◌, ◌-◌, ◌*◌, ◌/◌, ◌%◌, ◌^◌, ◌≤◌, ◌<◌, min, bit_and, bit_and-bitwise, digits,
}
use mathlib.Core.Path.{◌≡◌, refl, sym, ◌∙◌, ap}
use native.Mathlib.Omega.{arith}
use native.Mathlib.Nat.{div-div-eq-div-mul, pow-suc, mul_assoc}

abbrev conj_digits : ℕ → ℕ → ℕ → ℕ
conj_digits fuel a b = digits (λ b. zero) min fuel a b

none_left : (fuel b : ℕ) → conj_digits fuel 0 b ≡ 0
none_left zero b = refl
none_left (suc fuel) b = refl

any_fuel : (a b m n : ℕ) → a ≤ m → a ≤ n → conj_digits m a b ≡ conj_digits n a b
any_fuel zero b m n h k = none_left m b ∙ sym (none_left n b)
any_fuel (suc a) b zero n h k = absurd (omega arith)
any_fuel (suc a) b (suc m) zero h k = absurd (omega arith)
any_fuel (suc a) b (suc m) (suc n) h k =
    omega (arith, any_fuel (suc a / 2) (b / 2) m n (omega arith) (omega arith))

last_digit : (a b : ℕ) → bit_and a b ≡ bit_and (a / 2) (b / 2) * 2 + min (a % 2) (b % 2)
last_digit zero b = omega (arith, bit_and-bitwise 0 b, bit_and-bitwise 0 (b / 2))
last_digit (suc a) b = omega (
  arith,
  any_fuel (suc a / 2) (b / 2) a (suc a / 2) (omega arith) (omega arith),
  bit_and-bitwise (suc a) b,
  bit_and-bitwise (suc a / 2) (b / 2),
)

pub pow_pos : (p : ℕ) → 1 ≤ 2 ^ p
pow_pos zero = omega arith
pow_pos (suc p) = omega (arith, pow_pos p)

halved_ones : (p : ℕ) → (2 ^ suc p - 1) / 2 ≡ 2 ^ p - 1
halved_ones p = omega (arith, pow_pos p)

all_ones : (p a : ℕ) → a < 2 ^ p → bit_and a (2 ^ p - 1) ≡ a
all_ones zero zero h = refl
all_ones zero (suc a) h = absurd (omega arith)
all_ones (suc p) a h = omega (
  arith,
  pow_pos p,
  last_digit a (2 ^ suc p - 1),
  all_ones p (a / 2) (omega arith),
  ap (bit_and (a / 2)) (halved_ones p),
)

times_suc : (x k : ℕ) → x * 2 ^ suc k ≡ x * 2 ^ k * 2
times_suc x k = ap (◌*◌ x) (pow-suc 2 k) ∙ sym (mul_assoc x (2 ^ k) 2)

halves : (a k : ℕ) → a / 2 ^ suc k * 2 ^ suc k ≡ a / 2 / 2 ^ k * 2 ^ suc k
halves a k =
    let double : 2 ^ suc k ≡ 2 * 2 ^ k = omega arith in
    ap (λ d. d * 2 ^ suc k) (ap (◌/◌ a) double ∙ sym (div-div-eq-div-mul a 2 (2 ^ k)))

-- Ones above `k` zeros keep what stands above the lowest `k` digits.
pub bit_and-mask :
    (k p a : ℕ) → a < 2 ^ p * 2 ^ k → bit_and a ((2 ^ p - 1) * 2 ^ k) ≡ a / 2 ^ k * 2 ^ k
bit_and-mask zero p a h =
    let same : (2 ^ p - 1) * 2 ^ 0 ≡ 2 ^ p - 1 = omega arith in
    ap (bit_and a) same ∙ all_ones p a (omega arith) ∙ omega arith
bit_and-mask (suc k) p a h =
    let twice : (2 ^ p - 1) * 2 ^ suc k ≡ (2 ^ p - 1) * 2 ^ k * 2 = times_suc (2 ^ p - 1) k in
    let half : (2 ^ p - 1) * 2 ^ suc k / 2 ≡ (2 ^ p - 1) * 2 ^ k = omega arith in
    let small = bit_and-mask k p (a / 2) (omega (arith, times_suc (2 ^ p) k)) in
    omega (
      arith,
      last_digit a ((2 ^ p - 1) * 2 ^ suc k),
      ap (bit_and (a / 2)) half,
      small,
      times_suc (a / 2 / 2 ^ k) k,
      halves a k,
    )
