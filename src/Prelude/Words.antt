-- ===== src/Prelude/Words.antt =====
-- Machine words as natural numbers below their modulus: `u64` and `usize` (64 bits), `u32`, `u8`.
use Prim.Native.Nat.{ℕ, ◌+◌, ◌-◌, ◌%◌, min}

abbrev pub u64_mod : ℕ
u64_mod = 0x1_0000_0000_0000_0000

abbrev pub u32_mod : ℕ
u32_mod = 0x1_0000_0000

-- `AtomicU64::fetch_add` and `AtomicUsize::fetch_sub` wrap around.
abbrev pub wrapping_add : ℕ → ℕ → ℕ
wrapping_add a b = (a + b) % u64_mod

abbrev pub wrapping_sub : ℕ → ℕ → ℕ
wrapping_sub a b = (a + u64_mod - b) % u64_mod

-- `u64::saturating_add` and `u64::saturating_mul`, applied to the exact result.
abbrev pub saturated : ℕ → ℕ
saturated n = min n (u64_mod - 1)
