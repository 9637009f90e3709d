-- ===== src/Lib.antt =====
-- A model of the miner economy of ZVChain, a proof-of-stake chain written in Go.
--
-- The chain keeps, in its account database, one record per miner and role, the details of who staked
-- what for whom, the total stake of the active proposers, the pools of active miners, and the votes
-- and tickets by which guard nodes make miner pools. Transactions and the chain itself change them
-- by operations (core/miner_operation.go), which read the target's record, choose a class by its
-- identity (core/miner_node.go) and write through the helpers of core/miner_base.go. An operation
-- runs on a snapshot and is reverted when it fails (core/miner_manager.go). Rewards of blocks and
-- epochs are computed from heights alone.
--
-- Files:
-- Base: the libraries' names, Boolean tests on numbers, uint64 arithmetic (Base/Word) and maps with
--   sums over their entries (Base/Map).
-- Stake/Limits: the limits by height of core/miner_base.go (maximumStake, getValidTicketsByHeight,
--   checkCanVote). Stake/Limits/Bounds has their proofs.
-- Stake/Types: the records of middleware/types/miner.go and core/miner_base.go.
-- Stake/Db: the state, a record `Db` with one field for each family of keys, and the actions `M` on
--   it, which return, fail with a receipt status, or panic. Stake/Store: the readers and writers.
-- Stake/Role: geneBaseIdentityOp; a class is a constructor of `Role`.
-- Stake/Add, Stake/Reduce, Stake/Refund, Stake/Retire, Stake/Vote, Stake/Guard, Stake/Penalty: the
--   operations stakeAddOp, stakeReduceOp, stakeRefundOp, minerAbortOp and minerFreezeOp,
--   voteMinerPoolOp and reduceTicketsOp, applyGuardMinerOp with changeFundGuardMode and
--   guardNodeExpired, minerPenaltyOp. Each has its proofs in child modules. Stake/Withdrawal joins
--   the reduction of a stake to its refund.
-- Stake/Chain: executeOperation, and sequences of operations.
-- Stake/Ledger: what the books of staking add up to (`Books`, `Inv`, `worth`), and `Ensures`, which
--   says of a call that it does not panic and what holds where it returns. Its children have the
--   rules by which the operations are proved.
-- Account: the account database under all this, storage/account. Account/Types, Account/Object,
--   Account/Journal and Account/Calls are its objects, which live in a heap behind the cache of
--   pointers, the methods of accountObject, the journal with its undo and snapshots, and the calls
--   of AccountDB. Account/Contract says what it promises: accounts as plain values, and snapshots
--   that keep a copy. The other children prove that it keeps it: what loads and writes show
--   (Account/Views, Writes, Loads, Creation, Fields, Storage, Code, Balance, Suicide, Access,
--   Answers), that the journal leads back (Account/Undo, Revisions, Reverts), and the two machines
--   side by side (Account/Simulation, Refinement, Panics).
-- Transaction: core/tx_validate.go, every validator (Transaction/Validate), with the types of
--   transactions, the codec of their payload in middleware/types/miner.go (Transaction/Payload), and
--   ParseTransaction of each operation (Transaction/Parse). Transaction/Safety and
--   Transaction/Accepted say when these panic.
-- Process: core/state_processor.go. Process/Transition applies one transaction: checkState, the gas
--   that is bought, the operation on its snapshot, which for miners is the transition of
--   Stake/Chain, and the gas given back; rewardExecutor too. Process itself is the loop of a block
--   and its rewards. The proofs are on payments (Process/Money), heights (Process/Heights), one
--   transaction (Process/Charges), the loop (Process/Block), the block (Process/Totals) and nonces
--   (Process/Order).
-- Pool: core/simple_container.go. Pool/Pending is pendingContainer, an ordered list for every source
--   (the library's skip lists, the parameter `Skips`); Pool/Container is simpleContainer with its
--   index and queue, the nonce of the state and the clock as arguments. The proofs are on the order
--   of a list (Pool/Order), the well-formed container (Pool/Valid), the cheapest transaction
--   (Pool/Lowest), the limit (Pool/Size), timeouts (Pool/Timeout) and what is given up (Pool/Lost).
-- Checkpoint: core/checkpoint.go, the votes of an epoch's groups, updateVotes, and the scan of
--   epochs by accounts or, where a node is missing, by blocks.
-- Economy: the amounts of rewards of core/rewards_manager.go. Epoch: middleware/types/epoch.go.
-- Tests, and Tests in each part: runs on concrete data.
--
-- A uint64 is a number with its wrap-around written out, by `add64`, `sub64` and `mul64`; balances
-- are big integers and do not wrap. Loops are structural recursion, but for the scan for a
-- checkpoint, which runs on fuel: twelve turns are enough, ten epochs and one to give up accounts. Stake
-- keeps its own view of the balances, by the readers of the account database. The books ask
-- that all tokens in circulation fit a uint64, as the supply does.
--
-- Not modelled: the codec of stored records, which is third-party (a slot decodes or is corrupt,
-- and writing never fails); the group manager's filter, the stake platform's address and the
-- configured heights of forks, which are parameters; logging; the periodic scans of guard nodes in
-- core/miner_manager.go; the codec of reward transactions, with what VerifyRewardTransaction looks
-- up before and after it divides among the targets; the recovery of signers, and the operations of
-- contracts and groups, which are parameters of the execution (`Services`), with the forks that
-- move foundation accounts, the post processors and the state's root at the end of a block; amounts
-- of transactions below 0, which the codec of big integers allows; the parsing of contracts, groups
-- and blacklist updates, which may panic, and is asked not to; the virtual machine, consensus and
-- network; the pool of rewards, and of the pool its order of packing, the copies for syncing,
-- promoteQueueToPending and evictPending; below the account database, its tries, codec and code
-- store, which are parameters (`Reads`), with Finalise and Commit, which write to them, locks, and
-- the memo of read errors; of the checkpoints, checkPointOf. Penalties are operations of
-- Stake/Chain, and their theorem is their own. That a verifier's stake is its own is a hypothesis
-- of the penalty's theorem.
pub mod Base
pub mod Account
pub mod Stake
pub mod Economy
pub mod Epoch
pub mod Transaction
pub mod Process
pub mod Pool
pub mod Checkpoint
pub mod Tests
