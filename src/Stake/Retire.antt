-- ===== src/Stake/Retire.antt =====
-- How a miner stops mining with its stake untouched: `minerAbortOp` and `minerFreezeOp` of
-- core/miner_operation.go, `processMinerAbort` and `checkStakeAbort` of core/miner_node.go.
pub mod Books
use zvchain.Base.{
  ℕ, Bool, true, false, not, ◌&&◌, Option, none, some, leb, ◌==◌, if◌then◌else◌, add64,
}
use zvchain.Stake.Types.{
  Address, Miner, miner_type_verify, miner_status_prepare, miner_status_frozen, is_active,
  is_frozen, is_prepare, is_verify_role, update_status,
}
use zvchain.Stake.Db.{
  rs_fail, rs_miner_not_exists, rs_miner_abort_has_prepared, rs_miner_stake_frozen,
  rs_miner_un_support_op, ⊤, M, fail, ◌>>=◌, ◌>>◌, guard, when,
}
use zvchain.Stake.Store.{get_miner, set_miner, remove_from_pool}
use zvchain.Stake.Role.{Role, invalid_pool, gene_base_identity_op, is_supported}

-- An hour has 1,200 blocks of 3 seconds.
abbrev pub one_hour_blocks : ℕ
one_hour_blocks = 1200

pub record MinerAbortOp : Type 0 where
  pub height : ℕ
  pub addr : Address
  pub miner_type : ℕ

unfoldable pub check_stake_abort : MinerAbortOp → Miner → M ⊤
unfolding add64
check_stake_abort op m = do
  guard (not (is_prepare m)) rs_miner_abort_has_prepared
  guard (not (is_frozen m && leb op.height (add64 m.status_update_height one_hour_blocks)))
      rs_miner_stake_frozen

unfoldable pub process_miner_abort : MinerAbortOp → Option Miner → M ⊤
unfolding check_stake_abort remove_from_pool set_miner
process_miner_abort op none = fail rs_miner_not_exists
process_miner_abort op (some m) = do
  check_stake_abort op m
  when (is_active m) (remove_from_pool op.miner_type op.addr m.stake)
  set_miner (update_status m miner_status_prepare op.height)

-- `InvalidProposalMiner` and `UnSupportMiner` refuse.
abbrev pub can_abort : Role → Bool
can_abort invalid_pool = false
can_abort role = is_supported role

-- `minerAbortOp.Transition`
unfoldable pub miner_abort : MinerAbortOp → M ⊤
unfolding get_miner gene_base_identity_op process_miner_abort
miner_abort op = do
  m ← get_miner op.addr op.miner_type
  guard (can_abort (gene_base_identity_op op.miner_type m)) rs_miner_un_support_op
  process_miner_abort op m

unfoldable pub process_miner_freeze : ℕ → Address → Option Miner → M ⊤
unfolding remove_from_pool set_miner
process_miner_freeze height addr none = fail rs_miner_not_exists
process_miner_freeze height addr (some m) = do
  guard (not (is_frozen m)) rs_fail
  guard (is_verify_role m.mtype) rs_fail
  when (is_active m) (remove_from_pool miner_type_verify addr m.stake)
  set_miner (update_status m miner_status_frozen height)

-- `minerFreezeOp.Transition`
unfoldable pub miner_freeze : ℕ → Address → M ⊤
unfolding get_miner process_miner_freeze
miner_freeze height addr = do
  m ← get_miner addr miner_type_verify
  process_miner_freeze height addr m
