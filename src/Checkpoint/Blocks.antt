-- ===== src/Checkpoint/Blocks.antt =====
-- The checkpoint that is read off the blocks.
use zvchain.Base.{
  ℕ, suc, ◌<◌, ◌≤◌, ◌≡◌, refl, Bool-cases, true, false, inl, inr, some, some-injective, List, [],
  ◌∷◌, length, leb, leb→le, le→leb, arith, if◌then◌else◌,
}
use zvchain.Base.Map.{Map, insert, nat_key}
use zvchain.Epoch.{Epoch, epoch_at, equal}
use zvchain.Checkpoint.{Header, count_groups, reverse_onto, calc_checkpoint_by_blocks}

-- The groups of the blocks from a height on, beside those of a map.
unfoldable pub groups_from : ℕ → Map ℕ ℕ → List Header → Map ℕ ℕ
groups_from h seen [] = seen
groups_from h seen (b ∷ bs) =
    groups_from h (if leb h b.height then insert b.group 0 seen else seen) bs

-- Blocks of one epoch, the newest first, below a height.
abbrev pub Falls : Epoch → ℕ → List Header → Type 0
Falls ep h [] = Unit {0}
Falls ep h (b ∷ bs) =
    (b.height < h) × ((equal (epoch_at b.height) ep ≡ true) × Falls ep b.height bs)

not_leb : (a b : ℕ) → b < a → leb a b ≡ false
not_leb a b h = ground arith

groups_from-below :
    (ep : Epoch) (h bound : ℕ) (seen : Map ℕ ℕ) (bs : List Header)
    → Falls ep bound bs
    → bound ≤ h
    → groups_from h seen bs ≡ seen
unfolding groups_from
groups_from-below ep h bound seen [] f l = refl
groups_from-below ep h bound seen (b ∷ bs) f l =
    rw (not_leb h b.height (omega (arith, l, f.0)))
      (groups_from-below ep h b.height seen bs f.1.1 (omega (arith, l, f.0)))

groups_from-taken :
    (h : ℕ) (seen : Map ℕ ℕ) (b : Header) (bs : List Header)
    → h ≤ b.height
    → groups_from h seen (b ∷ bs) ≡ groups_from h (insert b.group 0 seen) bs
unfolding groups_from
groups_from-taken h seen b bs l = rw (le→leb h b.height l) refl

-- What the walk finds: a height that enough groups reach and too few pass.
pub record Reached (ep : Epoch) (threshold bound : ℕ) (seen : Map ℕ ℕ) (bs : List Header) (c : ℕ)
    : Type 0 where
  pub below : c < bound
  pub enough : threshold ≤ length (groups_from c seen bs)
  pub too_few : length (groups_from (suc c) seen bs) < threshold

pub count_groups-Reached :
    (ep : Epoch) (threshold bound c : ℕ) (seen : Map ℕ ℕ) (bs : List Header)
    → Falls ep bound bs
    → length seen < threshold
    → count_groups ep threshold seen bs ≡ some c
    → Reached ep threshold bound seen bs c
unfolding count_groups
count_groups-Reached ep threshold bound c seen [] f l e = absurd (ground arith)
count_groups-Reached ep threshold bound c seen (b ∷ bs) f l e =
    let now = insert b.group 0 seen in
    elim (Bool-cases (leb threshold (length now))) [
      | inl k ↦
          let h : b.height ≡ c = some-injective b.height c (rw (f.1.0, k) at (e)) in
          rw⁻¹ h (record {
            below = f.0;
            enough =
                rw
                  (
                    groups_from-taken b.height seen b bs (omega arith),
                    groups_from-below ep b.height b.height now bs f.1.1 (omega arith),
                  )
                  (leb→le threshold (length now) k);
            too_few =
                rw
                  (groups_from-below ep (suc b.height) (suc b.height) seen (b ∷ bs)
                    (omega arith, f.1) (omega arith))
                  l;
          })
      | inr k ↦
          let r =
            count_groups-Reached ep threshold b.height c now bs f.1.1 (ground (arith, k))
              (rw (f.1.0, k) at (e)) in
          record {
            below = omega (arith, r.below, f.0);
            enough = rw (groups_from-taken c seen b bs (omega (arith, r.below))) r.enough;
            too_few = rw (groups_from-taken (suc c) seen b bs (omega (arith, r.below))) r.too_few;
          }
    ]

-- From blocks of one epoch in the order of their heights, and for a positive threshold, the
-- checkpoint computed by the blocks is a height such that at least `threshold` groups have a block
-- from it on, and fewer have one above it.
pub calc_checkpoint_by_blocks-Reached :
    (ep : Epoch) (threshold bound c : ℕ) (blocks : List Header)
    → Falls ep bound (reverse_onto blocks [])
    → 0 < threshold
    → calc_checkpoint_by_blocks blocks ep threshold ≡ some c
    → Reached ep threshold bound [] (reverse_onto blocks []) c
unfolding calc_checkpoint_by_blocks
calc_checkpoint_by_blocks-Reached ep threshold bound c blocks f l e =
    count_groups-Reached ep threshold bound c [] (reverse_onto blocks []) f (omega (arith, l)) e
