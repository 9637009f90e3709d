-- ===== src/Checkpoint/Scan.antt =====
-- The scan of `checkpointAt` ends.
use zvchain.Base.{
  ℕ, zero, suc, ◌+◌, ◌-◌, ◌<◌, ◌≤◌, ◌≡◌, refl, Bool, Bool-cases, true, false, inl, inr, Option,
  none, some, leb, ltb, ◌==◌, arith, if◌then◌else◌,
}
use zvchain.Epoch.{start, epoch_at}
use zvchain.Checkpoint.{
  Querier, Turn, answer, crash, reread, onward, turn, found_or, Scanned, found, panicked, spent,
  scan, checkpoint_at, cp_block_buffer, new_cp_context, groups_enough, calc_checkpoint_by_blocks,
  cp_max_scan_epochs,
}

-- The turns that are left: one for each epoch, and one to give up the accounts for the blocks.
abbrev turns_left : ℕ → Bool → ℕ
turns_left scanned by_db = 10 - scanned + (if by_db then 1 else 0)

unfoldable pub is_spent : Scanned → Bool
is_spent spent = true
is_spent panicked = false
is_spent (found c) = false

module _ (q : Querier) where
  abbrev is_reread : Turn → Bool
  is_reread reread = true
  is_reread crash = false
  is_reread onward = false
  is_reread (answer c) = false

  found_or-onward : (o : Option ℕ) → is_reread (found_or o) ≡ false
  found_or-onward none = refl
  found_or-onward (some c) = refl

  -- Over the blocks, no node is missing.
  turn-by_blocks : (by_db : Bool) (h : ℕ) → by_db ≡ false → is_reread (turn q by_db h) ≡ false
  unfolding turn
  turn-by_blocks by_db h e =
      let ep = epoch_at h in
      let ctx = new_cp_context ep (q.groups_at (start ep)) in
      let c = calc_checkpoint_by_blocks (q.headers_between (start ep) (suc h)) ep ctx.threshold in
      elim (Bool-cases (groups_enough ctx)) [
        | inl g ↦ rw (e, g) (found_or-onward c)
        | inr g ↦ rw g refl
      ]

  after_turn :
      (fuel scanned : ℕ) (by_db : Bool) (h : ℕ) (t : Turn)
      → leb cp_max_scan_epochs scanned ≡ false
      → turns_left scanned by_db < suc fuel
      → (by_db ≡ false → is_reread t ≡ false)
      → ((n : ℕ) (b : Bool) (k : ℕ) → turns_left n b < fuel → is_spent (scan q fuel n b k) ≡ false)
      → is_spent (elim t [
        | answer c ↦ found c
        | crash ↦ panicked
        | reread ↦ scan q fuel scanned false h
        | onward ↦ elim (start (epoch_at h) == 0) [
          | true ↦ found 0
          | false ↦ scan q fuel (suc scanned) by_db (start (epoch_at h) - 1)
        ]
      ])
        ≡ false
  unfolding is_spent
  after_turn fuel scanned by_db h (answer c) e l m ih = refl
  after_turn fuel scanned by_db h crash e l m ih = refl
  after_turn fuel scanned true h reread e l m ih = ih scanned false h (ground (arith, l))
  after_turn fuel scanned false h reread e l m ih = absurd (ground (arith, m refl))
  after_turn fuel scanned by_db h onward e l m ih = elim (Bool-cases (start (epoch_at h) == 0)) [
    | inl z ↦ rw z refl
    | inr z ↦ rw z (ih (suc scanned) by_db (start (epoch_at h) - 1) (ground (arith, l, e)))
  ]

  scan-ends :
      (fuel scanned : ℕ) (by_db : Bool) (h : ℕ)
      → turns_left scanned by_db < fuel
      → is_spent (scan q fuel scanned by_db h) ≡ false
  unfolding scan is_spent
  scan-ends zero scanned by_db h l = absurd (omega (arith, l))
  scan-ends (suc fuel) scanned by_db h l = elim (Bool-cases (leb cp_max_scan_epochs scanned)) [
    | inl e ↦ rw e refl
    | inr e ↦ rw e (
        after_turn fuel scanned by_db h (turn q by_db h) e l (turn-by_blocks by_db h)
          (scan-ends fuel))
  ]

  -- Twelve turns are enough for every height: ten epochs, and one turn to give up the accounts.
  pub checkpoint_at-ends : (fuel h : ℕ) → 12 ≤ fuel → is_spent (checkpoint_at q fuel h) ≡ false
  unfolding checkpoint_at is_spent
  checkpoint_at-ends fuel h l = elim (Bool-cases (leb h cp_block_buffer)) [
    | inl e ↦ rw e refl
    | inr e ↦ rw e (
        scan-ends fuel 0 true
          (if ltb q.height (h - cp_block_buffer) then q.height else q.floor (h - cp_block_buffer))
          (omega (arith, l)))
  ]
