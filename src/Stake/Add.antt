-- ===== src/Stake/Add.antt =====
-- `stakeAddOp`: `checkStakeAdd` of each class and `processStakeAdd`, core/miner_node.go, with
-- `Transition` of core/miner_operation.go.
pub mod Steps
pub mod Books
use zvchain.Base.{
  ℕ, Bool, false, not, ◌&&◌, ◌||◌, Option, none, some, [], ltb, ◌==◌, if◌then◌else◌, add64,
}
use zvchain.Stake.Types.{
  Address, Miner, MinerPks, StakeDetail, miner_type_proposal, miner_status_prepare,
  miner_status_active, miner_normal, staked, is_active, is_frozen, is_miner_pool, is_proposal_role,
  update_status, set_pks,
}
use zvchain.Stake.Db.{
  rs_fail, rs_miner_un_support_op, rs_miner_stake_frozen, rs_miner_stake_over_limit, ⊤, M, pure,
  fail, ◌>>=◌, ◌>>◌, guard, when,
}
use zvchain.Stake.Store.{
  reduce_balance, get_miner, set_miner, detail_at, get_detail, set_detail, add_proposal_total_stake,
  add_to_pool,
}
use zvchain.Stake.Role.{
  Role, verify, normal, guard_node, pool, invalid_pool, unsupported, gene_base_identity_op,
  is_supported, check_can_activate, check_upper_bound,
}

-- The transaction's fields after `ParseTransaction`.
pub record StakeAddOp : Type 0 where
  pub height : ℕ
  pub miner_pks : MinerPks
  pub value : ℕ
  pub add_source : Address
  pub add_target : Address
  pub miner_type : ℕ

abbrev is_pool_miner : Option Miner → Bool
is_pool_miner none = false
is_pool_miner (some m) = is_miner_pool m

-- `platform` is `StakePlatformAddr()`, which the address manager contract may set.
unfoldable pub check_stake_add : Address → Role → StakeAddOp → M ⊤
unfolding get_miner
check_stake_add platform verify op = guard (op.add_source == op.add_target) rs_miner_un_support_op
check_stake_add platform normal op =
    if op.add_source == op.add_target || op.add_source == platform then pure tt else do
      source ← get_miner op.add_source miner_type_proposal
      guard (is_pool_miner source) rs_miner_un_support_op
check_stake_add platform guard_node op =
    guard (op.add_source == op.add_target) rs_miner_un_support_op
check_stake_add platform pool op = do
  source ← get_miner op.add_source miner_type_proposal
  guard (not (is_pool_miner source && not (op.add_source == op.add_target))) rs_miner_un_support_op
check_stake_add platform invalid_pool op = fail rs_miner_un_support_op
check_stake_add platform unsupported op = fail rs_miner_un_support_op

unfoldable pub init_miner : StakeAddOp → Miner
init_miner op = record {
  id = op.add_target;
  public_key = [];
  vrf_public_key = [];
  apply_height = op.height;
  stake = op.value;
  status_update_height = 0;
  mtype = op.miner_type;
  status = miner_status_prepare;
  identity = miner_normal;
  identity_update_height = 0;
}

-- The miner with the new stake, before its keys are set.
unfoldable pub raise_stake : StakeAddOp → Option Miner → M Miner
unfolding add64 init_miner
raise_stake op (some m) = do
  guard (not (is_frozen m)) rs_miner_stake_frozen
  guard (not (ltb (add64 m.stake op.value) m.stake)) rs_fail
  pure (record m { stake = add64 m.stake op.value })
raise_stake op none = pure (init_miner op)

-- Counts the new stake of an active miner, or activates the miner if it now can be.
unfoldable pub activate : StakeAddOp → Miner → M Miner
unfolding add_to_pool add_proposal_total_stake
activate op m =
    if is_active m
    then when (is_proposal_role op.miner_type) (add_proposal_total_stake op.value) >> pure m
    else if check_can_activate m
    then add_to_pool op.miner_type op.add_target m.stake
      >> pure (update_status m miner_status_active op.height)
    else pure m

unfoldable pub raised_detail : StakeAddOp → Option StakeDetail → M StakeDetail
unfolding add64
raised_detail op (some s) = do
  guard (not (ltb (add64 s.value op.value) s.value)) rs_fail
  pure (record s { value = add64 s.value op.value; height = op.height })
raised_detail op none =
    pure (record {
      value = op.value;
      height = op.height;
      dis_miss_height = 0;
      mark_not_full_height = 0;
    })

-- The last part of `processStakeAdd`: the miner and the detail of the stake are saved.
unfoldable pub save_stake : StakeAddOp → Miner → M ⊤
unfolding set_miner get_detail raised_detail set_detail
save_stake op m = do
  set_miner m
  let key = detail_at op.add_target op.add_source op.miner_type staked
  detail ← get_detail key
  raised ← raised_detail op detail
  set_detail key raised

-- `setPks`, only of a miner that stakes for itself.
abbrev pub keyed : StakeAddOp → Miner → Miner
keyed op m = if op.add_target == op.add_source then set_pks m op.miner_pks else m

-- What follows once the stake is raised.
unfoldable pub place_stake : Role → StakeAddOp → Miner → M ⊤
unfolding activate save_stake check_upper_bound
place_stake role op raised = do
  guard (check_upper_bound role (keyed op raised) op.height) rs_miner_stake_over_limit
  m ← activate op (keyed op raised)
  save_stake op m

unfoldable pub process_stake_add : Role → StakeAddOp → Option Miner → M ⊤
unfolding reduce_balance raise_stake place_stake
process_stake_add role op target = do
  guard (is_supported role) rs_miner_un_support_op
  reduce_balance op.add_source op.value
  raised ← raise_stake op target
  place_stake role op raised

-- `stakeAddOp.Transition`
unfoldable pub stake_add : Address → StakeAddOp → M ⊤
unfolding get_miner gene_base_identity_op check_stake_add process_stake_add
stake_add platform op = do
  target ← get_miner op.add_target op.miner_type
  let role = gene_base_identity_op op.miner_type target
  check_stake_add platform role op
  process_stake_add role op target
