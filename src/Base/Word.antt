-- ===== src/Base/Word.antt =====
-- Go's uint64: a number below 2 ^ 64, with the wrap-around of its operations written out.
use Prim.Native.Nat.{ℕ, ◌+◌, ◌-◌, ◌*◌, ◌%◌, ◌<◌}
use mathlib.Core.Path.{◌≡◌}
use native.Mathlib.Omega.{arith}

abbrev pub u64_mod : ℕ
u64_mod = 18446744073709551616

abbrev pub u64 : ℕ → ℕ
u64 n = n % u64_mod

-- a + b, a - b and a * b on uint64.
unfoldable pub add64 : ℕ → ℕ → ℕ
add64 a b = u64 (a + b)

unfoldable pub sub64 : ℕ → ℕ → ℕ
sub64 a b = u64 (a + u64_mod - b)

unfoldable pub mul64 : ℕ → ℕ → ℕ
mul64 a b = u64 (a * b)

pub add64_exact : (a b : ℕ) → a + b < u64_mod → add64 a b ≡ a + b
unfolding add64
add64_exact a b h = omega arith

pub sub64_exact : (a b : ℕ) → b < u64_mod → a < u64_mod → b < a + 1 → sub64 a b ≡ a - b
unfolding sub64
sub64_exact a b hb ha h = omega arith

pub mul64_exact : (a b : ℕ) → a * b < u64_mod → mul64 a b ≡ a * b
unfolding mul64
mul64_exact a b h = omega arith
