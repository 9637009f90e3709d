-- ===== src/Stake/Reduce/Steps.antt =====
-- The steps of a reduction: what it does to the pool and to the two details.
use zvchain.Base.{
  ℕ, ◌+◌, ◌-◌, ◌≤◌, ◌<◌, ◌≡◌, refl, Bool, true, false, ◌&&◌, Option, none, some, inl, inr, arith,
  Bool-cases, ◌==◌, u64_mod,
}
use zvchain.Base.Map.{lookup, lookup-insert, erase, sum_by, nat_key, Distinct}
use zvchain.Stake.Types.{
  Miner, StakeDetail, staked, stake_frozen, is_active, is_proposal_role, miner_status_prepare,
  update_status,
}
use zvchain.Stake.Db.{⊤, stored, DetailKey, miner_key, detail_key, Db, M, update, returned, ◌>>=◌}
use zvchain.Stake.Store.{set_detail, remove_detail}
use zvchain.Stake.Role.{check_lower_bound}
use zvchain.Stake.Ledger.{Details, circulating, is_circulating, Ensures}
use zvchain.Stake.Ledger.Rules.{slot_of, get_detail-Ensures, remove_from_pool_proposal}
use zvchain.Stake.Ledger.Details.{
  value_in, Less, More, insert-Less, erase-Less, insert-More, value_in-le,
}
use zvchain.Stake.Ledger.Pools.{counted}
use zvchain.Stake.Reduce.{
  StakeReduceOp, key_of, deactivate, grown_detail, freeze_value, take_detail,
}

abbrev pub with_pool : Db → ℕ → (ℕ → Bool) → Db
with_pool d total pp = record d { proposal_total = total; proposal_pool = pp }

abbrev pub Deactivated : StakeReduceOp → ℕ → Miner → Db → Type 0
Deactivated op origin m d =
    (m' : Miner) × (total : ℕ) × (pp : ℕ → Bool) × (deactivate op origin m d
      ≡ returned m' (with_pool d total pp))
    × ((m'.id ≡ m.id) × (m'.mtype ≡ m.mtype) × (m'.stake ≡ m.stake))
    × (total + counted op.miner_type m origin ≡ d.proposal_total + counted op.miner_type m' m.stake)

pub deactivate-Deactivated :
    (op : StakeReduceOp) (origin : ℕ) (m : Miner) (d : Db)
    → m.stake + op.value ≡ origin
    → counted op.miner_type m origin ≤ d.proposal_total
    → Deactivated op origin m d
unfolding deactivate
deactivate-Deactivated op origin m d e le =
    elim (Bool-cases (is_active m && is_proposal_role op.miner_type)) [
      | inr neither ↦
          (m, d.proposal_total, d.proposal_pool, ground arith, (refl, refl, refl), ground arith)
      | inl both ↦ elim (Bool-cases (check_lower_bound m)) [
        | inl enough ↦ (
          m,
          d.proposal_total - op.value,
          d.proposal_pool,
          ground arith,
          (refl, refl, refl),
          ground arith,
        )
        | inr below ↦ (
          update_status m miner_status_prepare op.height,
          d.proposal_total - origin,
          update d.proposal_pool op.cancel_target false,
          ground (arith, remove_from_pool_proposal op.miner_type op.cancel_target origin d),
          (refl, refl, refl),
          ground arith,
        )
      ]
    ]

module _ {B : Type 0} (Q : B → Db → Type 0) where
  pub take_detail-Ensures :
      (op : StakeReduceOp) (s : StakeDetail) (f : ⊤ → M B) (d : Db)
      → Distinct d.details
      → lookup (key_of op staked) d.details ≡ some (stored s)
      → op.value ≤ s.value
      → ((ds : Details)
          → Less (key_of op staked) op.value d.details ds
          → Ensures Q (f tt (record d { details = ds })))
      → Ensures Q ((take_detail op s >>= f) d)
  unfolding take_detail set_detail remove_detail
  take_detail-Ensures op s f d dist found le k = elim (Bool-cases (s.value - op.value == 0)) [
    | inl gone ↦ rw gone (
        k (erase (key_of op staked) d.details)
          (erase-Less (key_of op staked) op.value s d.details dist found (ground arith)))
    | inr left ↦
        rw left (k _ (insert-Less (key_of op staked) op.value s _ d.details dist found le refl))
  ]

pub grown_detail_lem :
    (op : StakeReduceOp) (o : Option StakeDetail) (key : DetailKey) (ds : Details)
    → lookup key ds ≡ slot_of o
    → is_circulating key ≡ true
    → sum_by circulating ds + op.value < u64_mod
    → (grown_detail op o).value ≡ value_in o + op.value
unfolding grown_detail
grown_detail_lem op none key ds found h fits = omega arith
grown_detail_lem op (some s) key ds found h fits =
    ground (arith, value_in-le key is_circulating (some s) ds found h)

pub grown_height :
    (op : StakeReduceOp) (o : Option StakeDetail) → (grown_detail op o).height ≡ op.height
unfolding grown_detail
grown_height op none = refl
grown_height op (some s) = refl

-- The value stands frozen since this height, with what was frozen before.
abbrev pub IsFrozenIn : StakeReduceOp → Details → Type 0
IsFrozenIn op ds =
    (s : StakeDetail) × (lookup (key_of op stake_frozen) ds ≡ some (stored s))
    × (s.height ≡ op.height)
    × (op.value ≤ s.value)

pub freeze_value-Ensures :
    (Q : ⊤ → Db → Type 0) (op : StakeReduceOp) (d : Db)
    → Distinct d.details
    → sum_by circulating d.details + op.value < u64_mod
    → ((ds : Details)
        → More (key_of op stake_frozen) op.value d.details ds
        → IsFrozenIn op ds
        → Q tt (record d { details = ds }))
    → Ensures Q (freeze_value op d)
unfolding freeze_value set_detail
freeze_value-Ensures Q op d dist fits k =
    get_detail-Ensures Q (key_of op stake_frozen)
      (λ o. set_detail (key_of op stake_frozen) (grown_detail op o)) d
      λ o found.
        let grown = grown_detail_lem op o (key_of op stake_frozen) d.details found refl fits in
        k _
          (insert-More (key_of op stake_frozen) op.value o (grown_detail op o) d.details dist found
            grown)
          (
            grown_detail op o,
            ground (
              arith,
              lookup-insert (key_of op stake_frozen) (key_of op stake_frozen)
                  (stored (grown_detail op o)) d.details,
            ),
            grown_height op o,
            omega (arith, grown),
          )
