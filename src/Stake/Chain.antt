-- ===== src/Stake/Chain.antt =====
-- `executeOperation` of core/miner_manager.go: every operation on miners runs on a snapshot, to which
-- the database reverts on an error. A block's operations run one after the other.
pub mod Soundness
use zvchain.Base.{ℕ, Bool, Option, none, some, List, [], ◌∷◌}
use zvchain.Stake.Types.{Address}
use zvchain.Stake.Db.{Db, Outcome, returned, failed, panicked, ⊤, M}
use zvchain.Stake.Add.{StakeAddOp, stake_add}
use zvchain.Stake.Reduce.{StakeReduceOp, stake_reduce}
use zvchain.Stake.Refund.{Forks, StakeRefundOp, stake_refund}
use zvchain.Stake.Retire.{MinerAbortOp, miner_abort, miner_freeze}
use zvchain.Stake.Vote.{VoteMinerPoolOp, vote_miner_pool, reduce_tickets}
use zvchain.Stake.Penalty.{MinerPenaltyOp, miner_penalty}
use zvchain.Stake.Guard.{apply_guard, change_fund_guard_mode, guard_node_expired}

-- `mOperation`: the operations, with their fields; and `guardNodeExpired`, which the scans of guard
-- nodes call.
pub data MOperation : Type 0 where
  add_op : StakeAddOp → MOperation
  reduce_op : StakeReduceOp → MOperation
  refund_op : StakeRefundOp → MOperation
  abort_op : MinerAbortOp → MOperation
  freeze_op : ℕ → Address → MOperation
  vote_op : VoteMinerPoolOp → MOperation
  apply_guard_op : ℕ → Address → MOperation
  change_mode_op : ℕ → Address → ℕ → MOperation
  reduce_tickets_op : ℕ → Address → MOperation
  expire_op : ℕ → Address → Bool → MOperation
  penalty_op : MinerPenaltyOp → MOperation

-- What the operations read besides the database: the stake platform's address, the configured
-- heights, and whether a miner is in no live group.
pub record Environment : Type 0 where
  pub platform : Address
  pub forks : Forks
  pub in_no_group : ℕ → Address → Bool

-- `Transition` of each operation.
unfoldable pub transition : Environment → MOperation → M ⊤
unfolding stake_add stake_reduce stake_refund miner_abort miner_freeze vote_miner_pool apply_guard
    change_fund_guard_mode reduce_tickets guard_node_expired miner_penalty
transition env (add_op op) = stake_add env.platform op
transition env (reduce_op op) = stake_reduce env.in_no_group op
transition env (refund_op op) = stake_refund env.forks env.platform op
transition env (abort_op op) = miner_abort op
transition env (freeze_op height a) = miner_freeze height a
transition env (vote_op op) = vote_miner_pool op
transition env (apply_guard_op height a) = apply_guard height a
transition env (change_mode_op height a mode) = change_fund_guard_mode height a mode
transition env (reduce_tickets_op height a) = reduce_tickets height a
transition env (expire_op height a is_fund) = guard_node_expired height a is_fund
transition env (penalty_op op) = miner_penalty op

-- Where the call ends, with the snapshot that an error goes back to; a panic has no state.
unfoldable pub settle : Db → Outcome ⊤ → Option Db
settle snapshot (returned x d) = some d
settle snapshot (failed s d) = some snapshot
settle snapshot panicked = none

unfoldable pub execute_operation : Environment → MOperation → Db → Option Db
unfolding transition settle
execute_operation env op d = settle d (transition env op d)

unfoldable pub proceed : (Db → Option Db) → Option Db → Option Db
proceed f none = none
proceed f (some d) = f d

unfoldable pub execute_all : Environment → List MOperation → Db → Option Db
unfolding execute_operation proceed
execute_all env [] d = some d
execute_all env (op ∷ ops) d = proceed (execute_all env ops) (execute_operation env op d)
