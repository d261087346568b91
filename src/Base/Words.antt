-- ===== src/Base/Words.antt =====
-- `int` values kept as their 32-bit patterns.
use Prim.Native.Nat.{ℕ, ◌+◌, ◌%◌, ◌^◌, ◌<◌}
use mathlib.Core.Path.{◌≡◌}
use mathlib.Core.Bool.{Bool}
use native.Mathlib.Omega.{arith}
use pfs.Base.Tests.{ltb}

-- `a < b` for two `int`s: the pattern from `2 ^ 31` on stands for a negative number.
unfoldable pub i32_lt : ℕ → ℕ → Bool
i32_lt a b = ltb ((a + 2 ^ 31) % 2 ^ 32) ((b + 2 ^ 31) % 2 ^ 32)

pub i32_lt-eq-ltb : (a b : ℕ) → a < 2 ^ 31 → b < 2 ^ 31 → i32_lt a b ≡ ltb a b
unfolding i32_lt
i32_lt-eq-ltb a b p q = ground arith
