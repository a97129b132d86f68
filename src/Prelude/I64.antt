-- ===== src/Prelude/I64.antt =====
-- A 64-bit signed integer, read as its distance from `i64::MIN`: the number t stands for
-- t - 2 ^ 63. The order, `min` and `max` of `i64` are then those of ℕ, adding or taking a duration
-- wraps at the ends of the range as two's complement does (the release build has no overflow
-- checks), and a saturating operation stops at 0 or at 2 ^ 64 - 1.
use Prim.Native.Nat.{ℕ, ◌+◌, ◌-◌, ◌%◌, ◌^◌, ◌<◌, min}
use mathlib.Core.Path.{◌≡◌}
use native.Mathlib.Omega.{arith}

abbrev pub I64 : Type 0
I64 = ℕ

abbrev pub modulus : ℕ
modulus = 2 ^ 64

-- The integer 0, the Unix epoch.
abbrev pub epoch : I64
epoch = 2 ^ 63

-- t + d and t - d for a duration d of at least 0.
abbrev pub plus : I64 → ℕ → I64
plus t d = (t + d) % modulus

abbrev pub minus : I64 → ℕ → I64
minus t d = (t + modulus - d % modulus) % modulus

-- a + b, a - b and -a of two signed values.
abbrev pub add : I64 → I64 → I64
add a b = (a + b + epoch) % modulus

abbrev pub sub : I64 → I64 → I64
sub a b = (a + modulus + epoch - b) % modulus

abbrev pub neg : I64 → I64
neg a = (modulus - a) % modulus

abbrev pub saturating_minus : I64 → ℕ → I64
saturating_minus t d = t - d

abbrev pub saturating_plus : I64 → ℕ → I64
saturating_plus t d = min (t + d) (modulus - 1)

abbrev pub u32_max : ℕ
u32_max = 2 ^ 32 - 1

abbrev pub u64_mod : ℕ
u64_mod = 2 ^ 64

pub add-sub : (a b : I64) → a < modulus → b < modulus → add b (sub a b) ≡ a
add-sub a b h k = omega arith
