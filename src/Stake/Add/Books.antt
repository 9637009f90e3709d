-- ===== src/Stake/Add/Books.antt =====
-- `stake_add` keeps the books and never panics.
use zvchain.Base.{
  ℕ, ◌+◌, ◌-◌, ◌<◌, ◌≡◌, Bool, true, ◌&&◌, Option, inl, inr, arith, Bool-cases, ◌∙◌, ap, ◌==◌,
  if◌then◌else◌, u64_mod,
}
use zvchain.Base.Map.{
  lookup, lookup-insert, insert, sum_by, sum_by-insert, insert-Distinct, weight_at, weight_at-le,
  nat_key,
}
use zvchain.Stake.Types.{Miner, StakeDetail, staked, is_proposal_role}
use zvchain.Stake.Db.{⊤, stored, DetailKey, miner_key, detail_key, Db, M, ◌>>◌, ◌>>=◌}
use zvchain.Stake.Store.{miner_at, get_miner, reduce_balance, detail_at, set_miner, set_detail}
use zvchain.Stake.Role.{
  Role, gene_base_identity_op, verify, normal, guard_node, pool, invalid_pool, unsupported,
}
use zvchain.Stake.Ledger.{
  active_stake, staked_for, proposal_staked, circulating, balance_weight, Balances, worth, worth_of,
  stake_of, Books, Inv, Ensures,
}
use zvchain.Stake.Ledger.Rules.{
  slot_of, guard-Ensures, get_miner-Ensures, get_detail-Ensures, reduce_balance-Ensures,
}
use zvchain.Stake.Ledger.Change.{Books-set_miner, stake_of-le-circulating, total_room}
use zvchain.Stake.Ledger.Pools.{counted, with_pools}
use zvchain.Stake.Add.{
  StakeAddOp, stake_add, check_stake_add, keyed, raise_stake, activate, raised_detail, save_stake,
  place_stake, process_stake_add,
}
use zvchain.Stake.Add.Steps.{
  raise_stake-Ensures, activate-Activated, value_in, raised_detail-Ensures,
}

-- The effect of a stake that goes through.
abbrev pub Added : StakeAddOp → Db → ⊤ → Db → Type 0
Added op d _ d' =
    Inv d'
    × (worth d' ≡ worth d)
    × (stake_of d'.miners op.add_target op.miner_type
        ≡ stake_of d.miners op.add_target op.miner_type + op.value)

module _ (op : StakeAddOp) (d : Db) (v : Inv d) where
  open op use {add_target, add_source, miner_type, value}

  key : DetailKey
  key = detail_at add_target add_source miner_type staked

  -- The books after the last write.
  saved_Books :
      (bs : Balances) (m : Miner) (total : ℕ) (s : StakeDetail) (o : Option StakeDetail)
      → sum_by balance_weight bs + value ≡ sum_by balance_weight d.balances
      → (m.id ≡ add_target) × (m.mtype ≡ miner_type)
      → m.stake ≡ stake_of d.miners add_target miner_type + value
      → lookup key d.details ≡ slot_of o
      → s.value ≡ value_in o + value
      → total
          + weight_at active_stake (miner_at m.id m.mtype) (lookup (miner_at m.id m.mtype) d.miners)
        ≡ d.proposal_total + active_stake (miner_at m.id m.mtype) (stored m)
      → Books bs
          (insert (miner_at m.id m.mtype) (stored m) d.miners)
          (insert key (stored s) d.details)
          total
        × (worth_of bs (insert key (stored s) d.details) ≡ worth d)
  unfolding key
  saved_Books bs m total s o paid own stake_eq found s_eq total_eq = (
    Books-set_miner bs (insert key (stored s) d.details) total m v each all
        (insert-Distinct key (stored s) d.details v.distinct) total_eq (rw same v.supply),
    same,
  )
    where
      same : worth_of bs (insert key (stored s) d.details) ≡ worth d
      same = ground (arith, sum_by-insert circulating key (stored s) d.details)

      each :
          (a t : ℕ)
          → let hit = a == m.id && t == m.mtype in
            sum_by (staked_for a t) (insert key (stored s) d.details)
              + (if hit then stake_of d.miners m.id m.mtype else 0)
            ≡ sum_by (staked_for a t) d.details + (if hit then m.stake else 0)
      each a t = ground (arith, sum_by-insert (staked_for a t) key (stored s) d.details)

      all :
          sum_by proposal_staked (insert key (stored s) d.details)
            + (if is_proposal_role m.mtype then stake_of d.miners m.id m.mtype else 0)
          ≡ sum_by proposal_staked d.details + (if is_proposal_role m.mtype then m.stake else 0)
      all = ground (arith, sum_by-insert proposal_staked key (stored s) d.details)

  Q : ⊤ → Db → Type 0
  Q = Added op d

  fits :
      (bs : Balances)
      → sum_by balance_weight bs + value ≡ sum_by balance_weight d.balances
      → stake_of d.miners add_target miner_type + value < u64_mod
  fits bs paid = omega (arith, v.supply, stake_of-le-circulating add_target miner_type v)

  save_stake-Added :
      (bs : Balances) (m : Miner) (total : ℕ) (pp vp : ℕ → Bool) (nk : Bool)
      → sum_by balance_weight bs + value ≡ sum_by balance_weight d.balances
      → (m.id ≡ add_target) × (m.mtype ≡ miner_type)
      → m.stake ≡ stake_of d.miners add_target miner_type + value
      → total
          + weight_at active_stake (miner_at m.id m.mtype) (lookup (miner_at m.id m.mtype) d.miners)
        ≡ d.proposal_total + active_stake (miner_at m.id m.mtype) (stored m)
      → Ensures Q (save_stake op m (with_pools (record d { balances = bs }) total pp vp nk))
  unfolding save_stake key set_miner set_detail Q
  save_stake-Added bs m total pp vp nk paid own stake_eq total_eq =
      get_detail-Ensures Q key (λ o. raised_detail op o >>= set_detail key) _
        λ o found.
          raised_detail-Ensures Q op o (set_detail key) _
            (ground (arith, v.supply, weight_at-le circulating key d.details))
            λ s s_eq.
              let (books, same) =
                saved_Books bs m total s o paid own stake_eq found s_eq total_eq in
              (
                books,
                same,
                ground (
                  arith,
                  lookup-insert (miner_at add_target miner_type) (miner_at m.id m.mtype) (stored m)
                      d.miners,
                ),
              )

  -- What is known of the raised miner, before and after its keys are set.
  abbrev Raised : Miner → Type 0
  Raised m =
      (m.id ≡ add_target)
      × (m.mtype ≡ miner_type)
      × (m.stake ≡ stake_of d.miners add_target miner_type + value)
      × (weight_at active_stake (miner_at add_target miner_type)
            (lookup (miner_at add_target miner_type) d.miners)
          ≡ counted miner_type m (m.stake - value))

  keyed-Raised : (m : Miner) → Raised m → Raised (keyed op m)
  keyed-Raised m r = elim (Bool-cases (add_target == add_source)) [
    | inl self ↦ rw self r
    | inr other ↦ rw other r
  ]

  room :
      (bs : Balances) (m : Miner)
      → sum_by balance_weight bs + value ≡ sum_by balance_weight d.balances
      → Raised m
      → is_proposal_role miner_type ≡ true
      → d.proposal_total + m.stake < u64_mod + counted miner_type m (m.stake - value)
  room bs m paid (id_eq, type_eq, stake_eq, old_active) p =
      omega (arith, v.supply, total_room add_target miner_type p v)

  counted_total :
      (m m' : Miner) (total : ℕ)
      → Raised m
      → (m'.id ≡ m.id) × (m'.mtype ≡ m.mtype) × (m'.stake ≡ m.stake)
      → total + counted miner_type m (m.stake - value)
        ≡ d.proposal_total + counted miner_type m' m.stake
      → total
          + weight_at active_stake
              (miner_at m'.id m'.mtype)
              (lookup (miner_at m'.id m'.mtype) d.miners)
        ≡ d.proposal_total + active_stake (miner_at m'.id m'.mtype) (stored m')
  counted_total m m' total r same total_eq = ground arith

  activate-Added :
      (bs : Balances) (m : Miner)
      → sum_by balance_weight bs + value ≡ sum_by balance_weight d.balances
      → Raised m
      → Ensures Q ((activate op m >>= save_stake op) (record d { balances = bs }))
  activate-Added bs m paid (id_eq, type_eq, stake_eq, old_active) =
      let (m', total, pp, vp, nk, e, (same_id, same_type, same_stake), total_eq) =
        activate-Activated op m (record d { balances = bs }) (omega arith)
          (omega (arith, fits bs paid)) (room bs m paid (id_eq, type_eq, stake_eq, old_active)) in
      rw (e, ◌>>=◌)
        (save_stake-Added bs m' total pp vp nk paid (same_id ∙ id_eq, same_type ∙ type_eq)
          (same_stake ∙ stake_eq)
          (counted_total m m' total (id_eq, type_eq, stake_eq, old_active)
            (same_id, same_type, same_stake) total_eq))

  place_stake-Added :
      (role : Role) (bs : Balances) (m : Miner)
      → sum_by balance_weight bs + value ≡ sum_by balance_weight d.balances
      → Raised m
      → Ensures Q (place_stake role op m (record d { balances = bs }))
  unfolding place_stake
  place_stake-Added role bs m paid r =
      guard-Ensures Q _ _ (λ _. activate op (keyed op m) >>= save_stake op) _
        λ _. activate-Added bs (keyed op m) paid (keyed-Raised m r)

  process_stake_add-Added :
      (role : Role) (target : Option Miner)
      → lookup (miner_at add_target miner_type) d.miners ≡ slot_of target
      → Ensures Q (process_stake_add role op target d)
  unfolding process_stake_add
  process_stake_add-Added role target found =
      guard-Ensures Q _ _
        (λ _. reduce_balance add_source value >> (raise_stake op target >>= place_stake role op)) d
        λ _.
          reduce_balance-Ensures Q add_source value
            (λ _. raise_stake op target >>= place_stake role op) d
            λ bs paid.
              raise_stake-Ensures Q op target d.miners (place_stake role op)
                (record d { balances = bs }) found
                (λ m e. v.keyed add_target miner_type m (found ∙ ap slot_of e)) (fits bs paid)
                λ m id_eq type_eq stake_eq old_active.
                  place_stake-Added role bs m paid (id_eq, type_eq, stake_eq, old_active)

  -- The check only reads.
  check_stake_add-Ensures :
      (platform : ℕ) (role : Role) (f : ⊤ → M ⊤)
      → Ensures Q (f tt d)
      → Ensures Q ((check_stake_add platform role op >>= f) d)
  unfolding check_stake_add get_miner
  check_stake_add-Ensures platform verify f k = ground arith
  check_stake_add-Ensures platform normal f k = ground arith
  check_stake_add-Ensures platform guard_node f k = ground arith
  check_stake_add-Ensures platform pool f k = ground arith
  check_stake_add-Ensures platform invalid_pool f k = tt
  check_stake_add-Ensures platform unsupported f k = tt

-- A stake that goes through keeps the books, moves tokens from the payer's balance into the stake
-- with none made or lost, and raises the target's stake by exactly its value; from sound books the
-- call never panics. (An error leaves what was written to its caller, which reverts it.)
pub stake_add-Added :
    (platform : ℕ) (op : StakeAddOp) (d : Db)
    → Inv d
    → Ensures (Added op d) (stake_add platform op d)
unfolding stake_add Q
stake_add-Added platform op d v =
    get_miner-Ensures (Added op d) op.add_target op.miner_type
      (λ target.
        check_stake_add platform (gene_base_identity_op op.miner_type target) op
        >> process_stake_add (gene_base_identity_op op.miner_type target) op target)
      d
      λ target found.
        check_stake_add-Ensures op d v platform (gene_base_identity_op op.miner_type target) _
          (process_stake_add-Added op d v (gene_base_identity_op op.miner_type target) target found)
