-- ===== src/Stake/Penalty.antt =====
-- `minerPenaltyOp` of core/miner_operation.go: verifiers that misbehaved lose a part of their stake,
-- which is paid in equal shares to those who reported them.
pub mod Books
pub mod Payment
use zvchain.Base.{
  ℕ, ◌-◌, ◌/◌, Bool, not, Option, none, some, List, [], ◌∷◌, ltb, leb, ◌==◌, if◌then◌else◌, length,
  add64, mul64,
}
use zvchain.Stake.Types.{
  Address, Miner, StakeDetail, miner_type_verify, miner_status_frozen, staked, stake_frozen,
  stake_punishment, is_active, is_verify_role, update_status,
}
use zvchain.Stake.Db.{
  rs_fail, rs_miner_not_exists, DetailKey, ⊤, M, pure, fail, panic, ◌>>=◌, ◌>>◌, guard, assert,
  when,
}
use zvchain.Stake.Store.{
  get_miner, set_miner, detail_at, get_detail, set_detail, remove_detail, remove_from_pool,
  add_balance,
}

-- The fields of the operation; `punishment_detail_addr` is `common.PunishmentDetailAddr`.
pub record MinerPenaltyOp : Type 0 where
  pub height : ℕ
  pub targets : List Address
  pub rewards : List Address
  pub value : ℕ
  pub punishment_detail_addr : Address

abbrev pub own_key : Address → ℕ → DetailKey
own_key a status = detail_at a a miner_type_verify status

abbrev pub punishment_key : MinerPenaltyOp → Address → DetailKey
punishment_key op a = detail_at a op.punishment_detail_addr miner_type_verify stake_punishment

unfoldable pub punished_detail : MinerPenaltyOp → Option StakeDetail → StakeDetail
unfolding add64
punished_detail op none = record {
  value = op.value;
  height = op.height;
  dis_miss_height = 0;
  mark_not_full_height = 0;
}
punished_detail op (some s) = record s { value = add64 s.value op.value; height = op.height }

unfoldable pub add_punishment : MinerPenaltyOp → Address → M ⊤
unfolding get_detail set_detail punished_detail
add_punishment op a = do
  o ← get_detail (punishment_key op a)
  set_detail (punishment_key op a) (punished_detail op o)

-- What the stake does not cover is taken from the frozen stake.
unfoldable pub take_frozen : MinerPenaltyOp → Address → ℕ → Option StakeDetail → M ⊤
unfolding set_detail
take_frozen op a remain none = panic
take_frozen op a remain (some s) =
    assert (not (ltb s.value remain))
    >> set_detail (own_key a stake_frozen)
        (record s { value = s.value - remain; height = op.height })

unfoldable pub take_remain : MinerPenaltyOp → Address → ℕ → M ⊤
unfolding get_detail take_frozen
take_remain op a remain = do o ← get_detail (own_key a stake_frozen); take_frozen op a remain o

unfoldable pub take_stake : MinerPenaltyOp → Address → Option StakeDetail → M ⊤
unfolding set_detail remove_detail take_remain
take_stake op a none = panic
take_stake op a (some s) =
    if ltb op.value s.value
    then set_detail (own_key a staked) (record s { value = s.value - op.value; height = op.height })
    else (remove_detail (own_key a staked)
        >> when (ltb 0 (op.value - s.value)) (take_remain op a (op.value - s.value)))

-- The writes to the details of a target, its record being written.
unfoldable pub take_details : MinerPenaltyOp → Address → M ⊤
unfolding add_punishment get_detail take_stake
take_details op a = do add_punishment op a; o ← get_detail (own_key a staked); take_stake op a o

-- The body of the loop over the targets.
unfoldable pub penalize_miner : MinerPenaltyOp → Address → Option Miner → M ⊤
unfolding remove_from_pool set_miner take_details
penalize_miner op a none = fail rs_miner_not_exists
penalize_miner op a (some m) = do
  guard (is_verify_role m.mtype) rs_fail
  when (is_active m) (remove_from_pool miner_type_verify a m.stake)
  assert (not (ltb m.stake op.value))
  set_miner (update_status (record m { stake = m.stake - op.value }) miner_status_frozen op.height)
  take_details op a

unfoldable pub penalize : MinerPenaltyOp → Address → M ⊤
unfolding get_miner penalize_miner
penalize op a = do o ← get_miner a miner_type_verify; penalize_miner op a o

unfoldable pub penalize_all : MinerPenaltyOp → List Address → M ⊤
unfolding penalize
penalize_all op [] = pure tt
penalize_all op (a ∷ rest) = penalize op a >> penalize_all op rest

unfoldable pub reward_each : MinerPenaltyOp → ℕ
unfolding mul64
reward_each op = mul64 op.value (length op.targets) / length op.rewards

unfoldable pub reward_all : ℕ → List Address → M ⊤
reward_all amount [] = pure tt
reward_all amount (a ∷ rest) = add_balance a amount >> reward_all amount rest

-- `minerPenaltyOp.Transition`; the division is made only where there is someone to reward.
unfoldable pub miner_penalty : MinerPenaltyOp → M ⊤
unfolding penalize_all reward_each reward_all
miner_penalty op =
    penalize_all op op.targets
    >> when (ltb 0 (length op.rewards)) (reward_all (reward_each op) op.rewards)
