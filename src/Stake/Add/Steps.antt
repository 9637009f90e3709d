-- ===== src/Stake/Add/Steps.antt =====
-- The steps of a stake: raising the record, activating the miner, raising the detail.
use zvchain.Base.{
  ℕ, ◌+◌, ◌-◌, ◌≤◌, ◌<◌, ◌≡◌, refl, Bool, true, ◌&&◌, Option, none, some, inl, inr, ◌⊎◌, arith,
  Bool-cases, if◌then◌else◌, u64_mod,
}
use zvchain.Base.Map.{lookup, weight_at, nat_key}
use zvchain.Stake.Types.{
  Miner, StakeDetail, is_active, is_frozen, is_proposal_role, is_verify_role, miner_status_active,
  update_status,
}
use zvchain.Stake.Db.{
  miner_key, detail_key, Db, M, Status, rs_miner_stake_frozen, failed, update, returned, ◌>>=◌,
}
use zvchain.Stake.Store.{miner_at}
use zvchain.Stake.Role.{check_can_activate}
use zvchain.Stake.Ledger.{Miners, active_stake, stake_of, Ensures}
use zvchain.Stake.Ledger.Rules.{slot_of}
use zvchain.Stake.Ledger.Pools.{counted, with_pools}
use zvchain.Stake.Add.{StakeAddOp, raise_stake, activate, raised_detail}

pub raise_stake_cases :
    (op : StakeAddOp) (m : Miner) (d : Db)
    → m.stake + op.value < u64_mod
    → ((s : Status) × (raise_stake op (some m) d ≡ failed s d))
      ⊎ (raise_stake op (some m) d ≡ returned (record m { stake = m.stake + op.value }) d)
unfolding raise_stake
raise_stake_cases op m d fits = elim (Bool-cases (is_frozen m)) [
  | inl frozen ↦ inl (rs_miner_stake_frozen, ground arith)
  | inr thawed ↦ inr (ground arith)
]

module _ {B : Type 0} (Q : B → Db → Type 0) where
  -- The raised record states the old stake and the new value; a fresh record is not active.
  pub raise_stake-Ensures :
      (op : StakeAddOp) (target : Option Miner) (ms : Miners) (f : Miner → M B) (d : Db)
      → lookup (miner_at op.add_target op.miner_type) ms ≡ slot_of target
      → ((m : Miner) → target ≡ some m → (m.id ≡ op.add_target) × (m.mtype ≡ op.miner_type))
      → stake_of ms op.add_target op.miner_type + op.value < u64_mod
      → ((m : Miner)
          → m.id ≡ op.add_target
          → m.mtype ≡ op.miner_type
          → m.stake ≡ stake_of ms op.add_target op.miner_type + op.value
          → weight_at active_stake
              (miner_at op.add_target op.miner_type)
              (lookup (miner_at op.add_target op.miner_type) ms)
            ≡ (if is_proposal_role op.miner_type && is_active m then m.stake - op.value else 0)
          → Ensures Q (f m d))
      → Ensures Q ((raise_stake op target >>= f) d)
  unfolding raise_stake
  raise_stake-Ensures op none ms f d e own fits k = k _ refl refl (ground arith) (ground arith)
  raise_stake-Ensures op (some m) ms f d e own fits k =
      elim (raise_stake_cases op m d (ground (arith, fits))) [
        | inl (s, refused) ↦ rw (refused, ◌>>=◌) tt
        | inr raised ↦
            rw (raised, ◌>>=◌)
              (k _ (own m refl).0 (own m refl).1 (ground arith) (ground (arith, own m refl)))
      ]

abbrev pub Activated : StakeAddOp → Miner → Db → Type 0
Activated op m d =
    (m' : Miner) × (total : ℕ) × (pp : ℕ → Bool) × (vp : ℕ → Bool) × (nk : Bool) × (activate op m d
      ≡ returned m' (with_pools d total pp vp nk))
    × ((m'.id ≡ m.id) × (m'.mtype ≡ m.mtype) × (m'.stake ≡ m.stake))
    × (total + counted op.miner_type m (m.stake - op.value)
        ≡ d.proposal_total + counted op.miner_type m' m.stake)

pub activate-Activated :
    (op : StakeAddOp) (m : Miner) (d : Db)
    → op.value ≤ m.stake
    → m.stake < u64_mod
    → (is_proposal_role op.miner_type ≡ true
        → d.proposal_total + m.stake < u64_mod + counted op.miner_type m (m.stake - op.value))
    → Activated op m d
unfolding activate
activate-Activated op m d le small room = elim (Bool-cases (is_active m)) [
  | inl active ↦ elim (Bool-cases (is_proposal_role op.miner_type)) [
    | inl p ↦ (
      m,
      d.proposal_total + op.value,
      d.proposal_pool,
      d.verifier_pool,
      d.nil_pool_key,
      ground (arith, room p),
      (refl, refl, refl),
      ground arith,
    )
    | inr np ↦ (
      m,
      d.proposal_total,
      d.proposal_pool,
      d.verifier_pool,
      d.nil_pool_key,
      ground arith,
      (refl, refl, refl),
      ground arith,
    )
  ]
  | inr inactive ↦ elim (Bool-cases (check_can_activate m)) [
    | inr cannot ↦ (
      m,
      d.proposal_total,
      d.proposal_pool,
      d.verifier_pool,
      d.nil_pool_key,
      ground arith,
      (refl, refl, refl),
      ground arith,
    )
    | inl can ↦ (
      update_status m miner_status_active op.height,
      (if is_proposal_role op.miner_type then d.proposal_total + m.stake else d.proposal_total),
      (if is_proposal_role op.miner_type
          then update d.proposal_pool op.add_target true
          else d.proposal_pool),
      (if is_proposal_role op.miner_type
          then d.verifier_pool
          else if is_verify_role op.miner_type
          then update d.verifier_pool op.add_target true
          else d.verifier_pool),
      (if is_proposal_role op.miner_type
          then d.nil_pool_key
          else if is_verify_role op.miner_type
          then d.nil_pool_key
          else true),
      ground (arith, room),
      (refl, refl, refl),
      ground arith,
    )
  ]
]

pub raised_detail-some :
    (op : StakeAddOp) (s : StakeDetail) (d : Db)
    → s.value + op.value < u64_mod
    → raised_detail op (some s) d
      ≡ returned (record s { value = s.value + op.value; height = op.height }) d
unfolding raised_detail
raised_detail-some op s d fits = ground arith

abbrev pub value_in : Option StakeDetail → ℕ
value_in none = 0
value_in (some s) = s.value

module _ {B : Type 0} (Q : B → Db → Type 0) where
  pub raised_detail-Ensures :
      (op : StakeAddOp) (o : Option StakeDetail) (f : StakeDetail → M B) (d : Db)
      → value_in o + op.value < u64_mod
      → ((s : StakeDetail) → s.value ≡ value_in o + op.value → Ensures Q (f s d))
      → Ensures Q ((raised_detail op o >>= f) d)
  unfolding raised_detail
  raised_detail-Ensures op none f d fits k = k _ (omega arith)
  raised_detail-Ensures op (some s) f d fits k =
      rw (raised_detail-some op s d fits, ◌>>=◌) (k _ refl)
