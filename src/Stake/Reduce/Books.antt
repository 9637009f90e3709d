-- ===== src/Stake/Reduce/Books.antt =====
-- `stake_reduce` keeps the books and never panics.
use zvchain.Base.{
  ℕ, ◌+◌, ◌-◌, ◌≤◌, ◌≡◌, ◌∙◌, Bool, not, ◌&&◌, Option, none, some, arith, ◌==◌, if◌then◌else◌, ltb,
}
use zvchain.Base.Map.{lookup, lookup-insert, insert, sum_by, weight_at, weight_at-le, nat_key}
use zvchain.Stake.Types.{Address, Miner, StakeDetail, staked, stake_frozen, is_proposal_role}
use zvchain.Stake.Db.{
  ⊤, stored, miner_key, detail_key, Db, M, ◌>>◌, assert, guard, rs_miner_stake_less_than_reduce,
  rs_miner_un_support_op, ◌>>=◌,
}
use zvchain.Stake.Store.{miner_at, set_miner}
use zvchain.Stake.Role.{gene_base_identity_op, is_supported}
use zvchain.Stake.Ledger.{
  Details, active_stake, staked_for, proposal_staked, is_circulating, is_staked_for,
  is_proposal_staked, worth, worth_of, stake_of, Books, Inv, Ensures,
}
use zvchain.Stake.Ledger.Rules.{
  slot_of, guard-Ensures, assert-Ensures, get_miner-Ensures, get_detail-Ensures,
}
use zvchain.Stake.Ledger.Details.{Less, More, value_in-le}
use zvchain.Stake.Ledger.Change.{Books-set_miner}
use zvchain.Stake.Reduce.{
  StakeReduceOp, key_of, check_can_reduce, freeze_value, take_detail, move_detail, apply_reduce,
  process_stake_reduce, stake_reduce,
}
use zvchain.Stake.Reduce.Steps.{
  with_pool, deactivate-Deactivated, take_detail-Ensures, IsFrozenIn, freeze_value-Ensures,
}

-- The effect of a reduction that goes through.
abbrev pub Reduced : StakeReduceOp → Db → ⊤ → Db → Type 0
Reduced op d _ d' =
    Inv d'
    × (worth d' ≡ worth d)
    × (stake_of d'.miners op.cancel_target op.miner_type + op.value
        ≡ stake_of d.miners op.cancel_target op.miner_type)
    × IsFrozenIn op d'.details

module _ (op : StakeReduceOp) (d : Db) (v : Inv d) where
  open op use {cancel_target, cancel_source, miner_type, value}

  -- The books after the last write.
  moved_Books :
      (m : Miner) (total : ℕ) (mid ds : Details)
      → (m.id ≡ cancel_target) × (m.mtype ≡ miner_type)
      → m.stake + value ≡ stake_of d.miners cancel_target miner_type
      → Less (key_of op staked) value d.details mid
      → More (key_of op stake_frozen) value mid ds
      → total
          + weight_at active_stake (miner_at m.id m.mtype) (lookup (miner_at m.id m.mtype) d.miners)
        ≡ d.proposal_total + active_stake (miner_at m.id m.mtype) (stored m)
      → Books d.balances (insert (miner_at m.id m.mtype) (stored m) d.miners) ds total
        × (worth_of d.balances ds ≡ worth d)
  moved_Books m total mid ds own stake_eq (_, less) (dist, more) total_eq =
      (Books-set_miner d.balances ds total m v each all dist total_eq (rw same v.supply), same)
    where
      same : worth_of d.balances ds ≡ worth d
      same = ground (arith, less is_circulating, more is_circulating)

      each :
          (a t : ℕ)
          → let hit = a == m.id && t == m.mtype in
            sum_by (staked_for a t) ds + (if hit then stake_of d.miners m.id m.mtype else 0)
            ≡ sum_by (staked_for a t) d.details + (if hit then m.stake else 0)
      each a t = ground (arith, less (is_staked_for a t), more (is_staked_for a t))

      all :
          sum_by proposal_staked ds
            + (if is_proposal_role m.mtype then stake_of d.miners m.id m.mtype else 0)
          ≡ sum_by proposal_staked d.details + (if is_proposal_role m.mtype then m.stake else 0)
      all = ground (arith, less is_proposal_staked, more is_proposal_staked)

  Q : ⊤ → Db → Type 0
  Q = Reduced op d

  -- A detail holds no more than the record of its miner states.
  s-le :
      (s : StakeDetail)
      → lookup (key_of op staked) d.details ≡ some (stored s)
      → s.value ≤ stake_of d.miners cancel_target miner_type
  s-le s found = ground (
    arith,
    v.backed cancel_target miner_type,
    value_in-le (key_of op staked) (is_staked_for cancel_target miner_type) (some s) d.details
        found,
  )

  -- The state once the miner's record is written.
  abbrev written : Miner → ℕ → (ℕ → Bool) → Db
  written m total pp = record (with_pool d total pp) {
    miners = insert (miner_at m.id m.mtype) (stored m) d.miners;
  }

  -- What is known of the record that is written.
  abbrev Lowered : Miner → ℕ → Type 0
  Lowered m total =
      ((m.id ≡ cancel_target) × (m.mtype ≡ miner_type))
      × (m.stake + value ≡ stake_of d.miners cancel_target miner_type)
      × (total
            + weight_at active_stake (miner_at m.id m.mtype)
                (lookup (miner_at m.id m.mtype) d.miners)
          ≡ d.proposal_total + active_stake (miner_at m.id m.mtype) (stored m))

  freeze_value-Reduced :
      (m : Miner) (total : ℕ) (pp : ℕ → Bool) (mid : Details)
      → Lowered m total
      → Less (key_of op staked) value d.details mid
      → Ensures Q (freeze_value op (record (written m total pp) { details = mid }))
  unfolding Q
  freeze_value-Reduced m total pp mid (own, stake_eq, total_eq) less =
      freeze_value-Ensures Q op _ less.0 (omega (arith, v.supply, less.1 is_circulating))
        λ ds more frozen.
          let (books, same) = moved_Books m total mid ds own stake_eq less more total_eq in
          (
            books,
            same,
            ground (
              arith,
              lookup-insert (miner_at cancel_target miner_type) (miner_at m.id m.mtype) (stored m)
                  d.miners,
            ),
            frozen,
          )

  move_detail-Reduced :
      (m : Miner) (origin total : ℕ) (pp : ℕ → Bool) (o : Option StakeDetail)
      → origin ≡ stake_of d.miners cancel_target miner_type
      → Lowered m total
      → lookup (key_of op staked) d.details ≡ slot_of o
      → Ensures Q (move_detail op origin o (written m total pp))
  unfolding move_detail
  move_detail-Reduced m origin total pp none origin_eq low found = tt
  move_detail-Reduced m origin total pp (some s) origin_eq low found =
      guard-Ensures Q _ _
        (λ _.
          assert (not (ltb origin s.value))
          >> (guard (not (ltb s.value value)) rs_miner_stake_less_than_reduce
              >> (take_detail op s >> freeze_value op)))
        _
        λ _.
          assert-Ensures Q _
            (λ _.
              guard (not (ltb s.value value)) rs_miner_stake_less_than_reduce
              >> (take_detail op s >> freeze_value op))
            _ (ground (arith, s-le s found))
            (guard-Ensures Q _ _ (λ _. take_detail op s >> freeze_value op) _
              λ covered.
                take_detail-Ensures Q op s (λ _. freeze_value op) _ v.distinct found (ground arith)
                  λ mid less. freeze_value-Reduced m total pp mid low less)

  apply_reduce-Reduced :
      (m : Miner)
      → lookup (miner_at cancel_target miner_type) d.miners ≡ some (stored m)
      → value ≤ m.stake
      → Ensures Q (apply_reduce op m.stake (record m { stake = m.stake - value }) d)
  unfolding apply_reduce set_miner
  apply_reduce-Reduced m found le =
      let (id_eq, type_eq) = v.keyed cancel_target miner_type m found in
      let (m', total, pp, e, (same_id, same_type, same_stake), total_eq) =
        deactivate-Deactivated op m.stake (record m { stake = m.stake - value }) d (omega arith)
          (ground (
            arith,
            v.total_active,
            weight_at-le active_stake (miner_at cancel_target miner_type) d.miners,
          )) in
      rw (e, ◌>>=◌)
        (get_detail-Ensures Q (key_of op staked) (move_detail op m.stake) (written m' total pp)
          λ o at.
            move_detail-Reduced m' m.stake total pp o (ground (arith, found))
              (
                (same_id ∙ id_eq, same_type ∙ type_eq),
                ground (arith, found),
                ground (arith, found, total_eq),
              )
              at)

  -- The check only reads.
  check_can_reduce-Ensures :
      (in_no_group : ℕ → Address → Bool) (m : Miner) (f : ⊤ → M ⊤)
      → Ensures Q (f tt d)
      → Ensures Q ((check_can_reduce in_no_group op m >>= f) d)
  unfolding check_can_reduce
  check_can_reduce-Ensures in_no_group m f k = ground arith

  process_stake_reduce-Reduced :
      (in_no_group : ℕ → Address → Bool) (target : Option Miner)
      → lookup (miner_at cancel_target miner_type) d.miners ≡ slot_of target
      → Ensures Q (process_stake_reduce in_no_group op target d)
  unfolding process_stake_reduce
  process_stake_reduce-Reduced in_no_group none found = tt
  process_stake_reduce-Reduced in_no_group (some m) found =
      let lowered = record m { stake = m.stake - value } in
      guard-Ensures Q _ _
        (λ _. check_can_reduce in_no_group op lowered >> apply_reduce op m.stake lowered) d
        λ covered.
          check_can_reduce-Ensures in_no_group lowered (λ _. apply_reduce op m.stake lowered)
            (apply_reduce-Reduced m found (ground arith))

-- A reduction that goes through keeps the books, makes and loses no token, lowers the stake of its
-- target by exactly its value and leaves that value frozen at its height; from sound books the call
-- never panics. (An error leaves what was written to its caller, which reverts it.)
pub stake_reduce-Reduced :
    (in_no_group : ℕ → Address → Bool) (op : StakeReduceOp) (d : Db)
    → Inv d
    → Ensures (Reduced op d) (stake_reduce in_no_group op d)
unfolding stake_reduce Q
stake_reduce-Reduced in_no_group op d v =
    get_miner-Ensures (Reduced op d) op.cancel_target op.miner_type
      (λ target.
        guard (is_supported (gene_base_identity_op op.miner_type target)) rs_miner_un_support_op
        >> process_stake_reduce in_no_group op target)
      d
      λ target found.
        guard-Ensures (Reduced op d) _ _ (λ _. process_stake_reduce in_no_group op target) d
          λ _. process_stake_reduce-Reduced op d v in_no_group target found
