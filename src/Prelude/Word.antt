-- ===== src/Prelude/Word.antt =====
-- Go's unsigned 64-bit integers: natural numbers with the wrap-around written out.
use Prim.Native.Nat.{ℕ, ◌+◌, ◌-◌, ◌*◌, ◌%◌, ◌<◌}
use mathlib.Core.Path.{◌≡◌}
use mathlib.Core.Bool.{Bool}
use nutmix.Prelude.Tests.{ltb}
use native.Mathlib.Omega.{arith}

-- 2 ^ 64
abbrev pub u64 : ℕ
u64 = 18446744073709551616

-- `a + b`, `a - b` and `a * b` on `uint64`.
abbrev pub add64 : ℕ → ℕ → ℕ
add64 a b = (a + b) % u64

abbrev pub sub64 : ℕ → ℕ → ℕ
sub64 a b = (a + (u64 - b % u64)) % u64

abbrev pub mul64 : ℕ → ℕ → ℕ
mul64 a b = (a * b) % u64

-- `int64(a) < int64(b)`: the words with their upper half taken as negative.
abbrev pub signed_lt : ℕ → ℕ → Bool
signed_lt a b = ltb ((a + 9223372036854775808) % u64) ((b + 9223372036854775808) % u64)

-- A difference that wraps to zero is one of equal words.
pub sub64-eq-zero : (a b : ℕ) → a < u64 → b < u64 → sub64 a b ≡ 0 → a ≡ b
sub64-eq-zero a b ha hb h = omega arith
