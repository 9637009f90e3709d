-- ===== src/Checkpoint/Counting.antt =====
-- Counting the keys of a map over the groups of an epoch.
use zvchain.Base.{
  ℕ, suc, ◌≡◌, refl, ap, Bool, Bool-cases, true, false, ◌||◌, inl, inr, none, some, List, [], ◌∷◌,
  length, leb, ◌==◌, ==_iff, arith, if◌then◌else◌,
}
use zvchain.Base.Map.{Map, lookup, insert, lookup-insert, nat_key}
use zvchain.Checkpoint.{Header}
use zvchain.Checkpoint.Blocks.{groups_from}

-- A group has a key in a map, or a block from a height on.
unfoldable pub present : ℕ → Map ℕ ℕ → Bool
present g m = elim (lookup g m) [ none ↦ false | some i ↦ true ]

unfoldable pub count_present : List ℕ → Map ℕ ℕ → ℕ
count_present [] m = 0
count_present (g ∷ gs) m = if present g m then suc (count_present gs m) else count_present gs m

unfoldable pub has : ℕ → List ℕ → Bool
has g [] = false
has g (x ∷ xs) = g == x || has g xs

abbrev pub NoRepeat : List ℕ → Type 0
NoRepeat [] = Unit {0}
NoRepeat (g ∷ gs) = (has g gs ≡ false) × NoRepeat gs

-- Every block is of a known group.
abbrev pub Known : List ℕ → List Header → Type 0
Known gs [] = Unit {0}
Known gs (b ∷ bs) = (has b.group gs ≡ true) × Known gs bs

length-insert :
    (g : ℕ) (m : Map ℕ ℕ)
    → length (insert g 0 m) ≡ (if present g m then length m else suc (length m))
unfolding present
length-insert g [] = refl
length-insert g ((j, v) ∷ m) = ground (arith, length-insert g m, ==_iff g j)

pub present-insert :
    (g k : ℕ) (m : Map ℕ ℕ) → present g (insert k 0 m) ≡ (if g == k then true else present g m)
unfolding present
present-insert g k m = rw (present, lookup-insert g k 0 m) (ground arith)

count_present-absent :
    (k : ℕ) (gs : List ℕ) (m : Map ℕ ℕ)
    → has k gs ≡ false
    → count_present gs (insert k 0 m) ≡ count_present gs m
unfolding count_present has
count_present-absent k [] m h = refl
count_present-absent k (g ∷ gs) m h =
    ground (arith, count_present-absent k gs m, present-insert g k m, ==_iff k g, ==_iff g k)

count_present-insert :
    (k : ℕ) (gs : List ℕ) (m : Map ℕ ℕ)
    → has k gs ≡ true
    → NoRepeat gs
    → count_present gs (insert k 0 m)
      ≡ (if present k m then count_present gs m else suc (count_present gs m))
unfolding count_present has
count_present-insert k [] m h n = absurd (ground arith)
count_present-insert k (g ∷ gs) m h n = elim (Bool-cases (k == g)) [
  | inl e ↦
      let same = (==_iff k g).0 e in
      ground (
        arith,
        count_present-absent k gs m (rw same n.0),
        present-insert g k m,
        ap (λ x. present x m) same,
        e,
        ==_iff g k,
      )
  | inr e ↦ ground (
    arith,
    count_present-insert k gs m (rw e at (h)) n.1,
    present-insert g k m,
    ==_iff g k,
    ==_iff k g,
    e,
  )
]

pub groups_from-count :
    (x : ℕ) (gs : List ℕ) (m : Map ℕ ℕ) (bs : List Header)
    → NoRepeat gs
    → Known gs bs
    → length m ≡ count_present gs m
    → length (groups_from x m bs) ≡ count_present gs (groups_from x m bs)
unfolding groups_from
groups_from-count x gs m [] n k h = h
groups_from-count x gs m (b ∷ bs) n k h = elim (Bool-cases (leb x b.height)) [
  | inl e ↦ rw e (
      groups_from-count x gs (insert b.group 0 m) bs n k.1
        (ground (arith, length-insert b.group m, count_present-insert b.group gs m k.0 n, h)))
  | inr e ↦ rw e (groups_from-count x gs m bs n k.1 h)
]
