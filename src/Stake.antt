-- ===== src/Stake.antt =====
-- Staking of miners: core/miner_base.go, core/miner_node.go, core/miner_operation.go and the
-- record of middleware/types/miner.go.
pub mod Limits
pub mod Types
pub mod Db
pub mod Store
pub mod Role
pub mod Ledger
pub mod Add
pub mod Reduce
pub mod Refund
pub mod Withdrawal
pub mod Retire
pub mod Vote
pub mod Guard
pub mod Penalty
pub mod Chain
mod Tests
