-- ===== src/Stake/Reduce.antt =====
-- `stakeReduceOp`: `checkCanReduce` and `processStakeReduce` of core/miner_node.go, with
-- `Transition` of core/miner_operation.go.
pub mod Steps
pub mod Books
use zvchain.Base.{
  ℕ, ◌+◌, ◌-◌, Bool, true, false, not, ◌&&◌, Option, none, some, ltb, leb, ◌==◌, if◌then◌else◌,
  add64,
}
use zvchain.Stake.Types.{
  Address, Miner, StakeDetail, miner_status_prepare, staked, stake_frozen, is_active, is_frozen,
  is_proposal_role, is_verify_role, update_status,
}
use zvchain.Stake.Db.{
  rs_fail, rs_miner_un_support_op, rs_miner_stake_frozen, rs_miner_not_exists,
  rs_miner_stake_less_than_reduce, rs_miner_verify_lower_stake, rs_miner_verify_in_group,
  rs_miner_reduce_height_not_enough, DetailKey, ⊤, M, pure, fail, ◌>>=◌, ◌>>◌, guard, assert,
}
use zvchain.Stake.Store.{
  get_miner, set_miner, detail_at, get_detail, set_detail, remove_detail, remove_from_pool,
  sub_proposal_total_stake,
}
use zvchain.Stake.Role.{gene_base_identity_op, is_supported, check_lower_bound}

-- The transaction's fields after `ParseTransaction`.
pub record StakeReduceOp : Type 0 where
  pub height : ℕ
  pub cancel_target : Address
  pub cancel_source : Address
  pub value : ℕ
  pub miner_type : ℕ

-- `in_no_group height` is `MinerJoinedLivedGroupCountFilter(1, height)` of the group manager.
unfoldable pub check_can_reduce : (ℕ → Address → Bool) → StakeReduceOp → Miner → M ⊤
check_can_reduce in_no_group op m =
    guard (not (is_frozen m)) rs_miner_stake_frozen
    >> (if not (check_lower_bound m) && is_verify_role op.miner_type
        then guard (not (is_active m)) rs_miner_verify_lower_stake
          >> guard (in_no_group op.height op.cancel_target) rs_miner_verify_in_group
        else pure tt)

-- What the lower stake means for the proposers' total and pool.
unfoldable pub deactivate : StakeReduceOp → ℕ → Miner → M Miner
unfolding sub_proposal_total_stake
deactivate op origin_stake m =
    if is_active m && is_proposal_role op.miner_type
    then if not (check_lower_bound m)
      then remove_from_pool op.miner_type op.cancel_target origin_stake
        >> pure (update_status m miner_status_prepare op.height)
      else sub_proposal_total_stake op.value >> pure m
    else pure m

abbrev pub key_of : StakeReduceOp → ℕ → DetailKey
key_of op status = detail_at op.cancel_target op.cancel_source op.miner_type status

-- The frozen detail grows by the value; nothing tests this sum for wrap-around.
unfoldable pub grown_detail : StakeReduceOp → Option StakeDetail → StakeDetail
unfolding add64
grown_detail op none = record {
  value = op.value;
  height = op.height;
  dis_miss_height = 0;
  mark_not_full_height = 0;
}
grown_detail op (some s) = record s { value = add64 s.value op.value; height = op.height }

unfoldable pub freeze_value : StakeReduceOp → M ⊤
unfolding grown_detail get_detail set_detail
freeze_value op = do
  frozen ← get_detail (key_of op stake_frozen)
  set_detail (key_of op stake_frozen) (grown_detail op frozen)

-- The staked detail shrinks by the value, and goes when nothing is left of it.
unfoldable pub take_detail : StakeReduceOp → StakeDetail → M ⊤
unfolding set_detail remove_detail
take_detail op s =
    if s.value - op.value == 0
    then remove_detail (key_of op staked)
    else set_detail (key_of op staked) (record s { value = s.value - op.value; height = op.height })

unfoldable pub move_detail : StakeReduceOp → ℕ → Option StakeDetail → M ⊤
unfolding take_detail freeze_value
move_detail op origin_stake none = fail rs_fail
move_detail op origin_stake (some s) = do
  guard (not (ltb op.height s.dis_miss_height)) rs_miner_reduce_height_not_enough
  assert (not (ltb origin_stake s.value))
  guard (not (ltb s.value op.value)) rs_miner_stake_less_than_reduce
  take_detail op s
  freeze_value op

-- The writes, once the reduction is allowed.
unfoldable pub apply_reduce : StakeReduceOp → ℕ → Miner → M ⊤
unfolding deactivate set_miner get_detail move_detail
apply_reduce op origin_stake lowered = do
  m ← deactivate op origin_stake lowered
  set_miner m
  detail ← get_detail (key_of op staked)
  move_detail op origin_stake detail

unfoldable pub process_stake_reduce : (ℕ → Address → Bool) → StakeReduceOp → Option Miner → M ⊤
unfolding check_can_reduce apply_reduce
process_stake_reduce in_no_group op none = fail rs_miner_not_exists
process_stake_reduce in_no_group op (some m) = do
  guard (not (ltb m.stake op.value)) rs_miner_stake_less_than_reduce
  let lowered = record m { stake = m.stake - op.value }
  check_can_reduce in_no_group op lowered
  apply_reduce op m.stake lowered

-- `stakeReduceOp.Transition`; `UnSupportMiner` refuses.
unfoldable pub stake_reduce : (ℕ → Address → Bool) → StakeReduceOp → M ⊤
unfolding get_miner gene_base_identity_op process_stake_reduce
stake_reduce in_no_group op = do
  target ← get_miner op.cancel_target op.miner_type
  guard (is_supported (gene_base_identity_op op.miner_type target)) rs_miner_un_support_op
  process_stake_reduce in_no_group op target
