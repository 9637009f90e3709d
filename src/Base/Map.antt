-- ===== src/Base/Map.antt =====
-- A Go map as an association list: the entry that counts is the first with its key.
use Prim.Native.Nat.{ℕ, ◌+◌, ◌≤◌}
use mathlib.Core.Path.{◌≡◌, refl}
use mathlib.Core.Logic.{◌↔◌}
use mathlib.Core.Bool.{Bool, true, false}
use mathlib.Core.Option.{Option, none, some}
use mathlib.Core.List.{List, [], ◌∷◌}
use native.Mathlib.Omega.{arith}
use zvchain.Base.Tests.{◌==◌, if◌then◌else◌, ==_iff}

-- A key type with a test for equality.
pub record Key (K : Type 0) : Type 0 where
  pub same : K → K → Bool
  pub same_iff : (a b : K) → (same a b ≡ true) ↔ (a ≡ b)

instance abbrev pub nat_key : Key ℕ
nat_key = record { same = ◌==◌; same_iff = ==_iff }

abbrev pub Map : Type 0 → Type 0 → Type 0
Map K V = List (K × V)

module _ {K V : Type 0} ⦃k : Key K⦄ where
  abbrev pub lookup : K → Map K V → Option V
  lookup i [] = none
  lookup i ((j, v) ∷ m) = if k.same i j then some v else lookup i m

  abbrev pub insert : K → V → Map K V → Map K V
  insert i v [] = (i, v) ∷ []
  insert i v ((j, w) ∷ m) = if k.same i j then (j, v) ∷ m else (j, w) ∷ insert i v m

  abbrev pub erase : K → Map K V → Map K V
  erase i [] = []
  erase i ((j, w) ∷ m) = if k.same i j then erase i m else (j, w) ∷ erase i m

  pub lookup-insert :
      (i j : K) (v : V) (m : Map K V)
      → lookup i (insert j v m) ≡ (if k.same i j then some v else lookup i m)
  lookup-insert i j v [] = refl
  lookup-insert i j v ((l, w) ∷ m) =
      ground (arith, lookup-insert i j v m, k.same_iff i j, k.same_iff i l, k.same_iff j l)

  pub lookup-erase :
      (i j : K) (m : Map K V) → lookup i (erase j m) ≡ (if k.same i j then none else lookup i m)
  lookup-erase i j [] = ground arith
  lookup-erase i j ((l, w) ∷ m) =
      ground (arith, lookup-erase i j m, k.same_iff i j, k.same_iff i l, k.same_iff j l)

  -- The weight of all entries, and that of the entry found under a key.
  abbrev pub sum_by : (K → V → ℕ) → Map K V → ℕ
  sum_by w [] = 0
  sum_by w ((j, v) ∷ m) = w j v + sum_by w m

  abbrev pub weight_at : (K → V → ℕ) → K → Option V → ℕ
  weight_at w i none = 0
  weight_at w i (some v) = w i v

  pub sum_by-insert :
      (w : K → V → ℕ) (i : K) (v : V) (m : Map K V)
      → sum_by w (insert i v m) + weight_at w i (lookup i m) ≡ sum_by w m + w i v
  sum_by-insert w i v [] = omega arith
  sum_by-insert w i v ((j, u) ∷ m) = ground (arith, sum_by-insert w i v m, k.same_iff i j)

  -- No key stands twice.
  abbrev pub Distinct : Map K V → Type 0
  Distinct [] = Unit {0}
  Distinct ((j, v) ∷ m) = (lookup j m ≡ none) × Distinct m

  pub insert-Distinct : (i : K) (v : V) (m : Map K V) → Distinct m → Distinct (insert i v m)
  insert-Distinct i v [] d = (refl, tt)
  insert-Distinct i v ((j, u) ∷ m) d =
      ground
        (arith, insert-Distinct i v m d.1, lookup-insert j i v m, k.same_iff i j, k.same_iff j i)

  erase_absent : (i : K) (m : Map K V) → lookup i m ≡ none → erase i m ≡ m
  erase_absent i [] h = refl
  erase_absent i ((j, u) ∷ m) h = ground (arith, erase_absent i m)

  pub erase-Distinct : (i : K) (m : Map K V) → Distinct m → Distinct (erase i m)
  erase-Distinct i [] d = tt
  erase-Distinct i ((j, u) ∷ m) d = ground (arith, erase-Distinct i m d.1, lookup-erase j i m)

  pub sum_by-erase :
      (w : K → V → ℕ) (i : K) (m : Map K V)
      → Distinct m
      → sum_by w (erase i m) + weight_at w i (lookup i m) ≡ sum_by w m
  sum_by-erase w i [] d = refl
  sum_by-erase w i ((j, u) ∷ m) d =
      ground (arith, sum_by-erase w i m d.1, erase_absent i m, k.same_iff i j)

  pub sum_by-le :
      (u w : K → V → ℕ) (m : Map K V) → ((i : K) (v : V) → u i v ≤ w i v) → sum_by u m ≤ sum_by w m
  sum_by-le u w [] h = omega arith
  sum_by-le u w ((j, v) ∷ m) h = omega (arith, sum_by-le u w m h, h j v)

  -- The gap at one entry is part of the gap between the sums.
  pub sum_by-le_at :
      (u w : K → V → ℕ) (i : K) (m : Map K V)
      → ((j : K) (v : V) → u j v ≤ w j v)
      → sum_by u m + weight_at w i (lookup i m) ≤ sum_by w m + weight_at u i (lookup i m)
  sum_by-le_at u w i [] h = omega arith
  sum_by-le_at u w i ((j, v) ∷ m) h =
      ground (arith, sum_by-le_at u w i m h, sum_by-le u w m h, h j v, k.same_iff i j)

  pub weight_at-le : (w : K → V → ℕ) (i : K) (m : Map K V) → weight_at w i (lookup i m) ≤ sum_by w m
  weight_at-le w i [] = omega arith
  weight_at-le w i ((j, v) ∷ m) = ground (arith, weight_at-le w i m, k.same_iff i j)

  -- A weight that counts one key only weighs the entry under it.
  pub sum_by-only :
      (w : K → V → ℕ) (i : K) (m : Map K V)
      → Distinct m
      → ((j : K) (v : V) → k.same i j ≡ false → w j v ≡ 0)
      → sum_by w m ≡ weight_at w i (lookup i m)
  sum_by-only w i [] d h = refl
  sum_by-only w i ((j, v) ∷ m) d h = ground (arith, sum_by-only w i m d.1 h, h j v, k.same_iff i j)
