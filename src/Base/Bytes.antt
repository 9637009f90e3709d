-- ===== src/Base/Bytes.antt =====
-- Byte strings, as lists of numbers, with the test that compares them.
use Prim.Native.Nat.{ℕ}
use mathlib.Core.Path.{◌≡◌}
use mathlib.Core.Logic.{◌↔◌}
use mathlib.Core.Bool.{Bool, true, false, ◌&&◌}
use mathlib.Core.List.{List, [], ◌∷◌}
use native.Mathlib.Omega.{arith}
use zvchain.Base.Tests.{◌==◌, ==_iff}
use zvchain.Base.Map.{Key}

abbrev pub Bytes : Type 0
Bytes = List ℕ

-- `bytes.Equal`
abbrev pub same_bytes : Bytes → Bytes → Bool
same_bytes [] [] = true
same_bytes [] (y ∷ ys) = false
same_bytes (x ∷ xs) [] = false
same_bytes (x ∷ xs) (y ∷ ys) = x == y && same_bytes xs ys

pub same_bytes_iff : (a b : Bytes) → (same_bytes a b ≡ true) ↔ (a ≡ b)
same_bytes_iff [] [] = ground arith
same_bytes_iff [] (y ∷ ys) = ground arith
same_bytes_iff (x ∷ xs) [] = ground arith
same_bytes_iff (x ∷ xs) (y ∷ ys) = ground (arith, same_bytes_iff xs ys, ==_iff x y)

instance abbrev pub bytes_key : Key Bytes
bytes_key = record { same = same_bytes; same_iff = same_bytes_iff }
