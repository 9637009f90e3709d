-- ===== src/Stake/Guard.antt =====
-- Guard nodes: `applyGuardMinerOp` and `changeFundGuardMode` of core/miner_operation.go, their
-- handlers in core/miner_node.go, and `guardNodeExpired` of core/miner_base.go.
pub mod Books
pub mod Expiry
use zvchain.Base.{
  ℕ, ◌-◌, Bool, true, false, not, ◌&&◌, ◌||◌, Option, none, some, ltb, leb, ◌==◌, if◌then◌else◌,
  add64,
}
use zvchain.Stake.Types.{
  Address, Miner, StakeDetail, VoteInfo, FundGuardNode, empty_address, miner_type_proposal, staked,
  miner_guard, miner_normal, full_stake_guard_node_type, is_fund_guard, update_identity,
  six_add_five, six_add_six,
}
use zvchain.Stake.Limits.{adjust_weight_period, is_full_stake}
use zvchain.Stake.Db.{
  Slot, corrupt, stored, Db, DetailKey, rs_fail, rs_miner_un_support_op, rs_miner_not_exists,
  rs_miner_not_full_stake, rs_miner_max_apply_guard, rs_miner_change_mode_expired, ⊤, M, pure, fail,
  modify, ◌>>=◌, ◌>>◌, guard, when, decode, update,
}
use zvchain.Stake.Store.{get_miner, set_miner, detail_at, get_detail, set_detail}
use zvchain.Stake.Role.{
  Role, verify, normal, guard_node, pool, invalid_pool, unsupported, gene_base_identity_op,
  is_supported,
}
use zvchain.Stake.Vote.{get_vote_info, set_vote_info, reduce_tickets}

unfoldable pub get_fund_guard_node : Address → M (Option FundGuardNode)
get_fund_guard_node a d = decode (d.fund_guards a) d

unfoldable pub set_fund_guard_node : Address → FundGuardNode → M ⊤
set_fund_guard_node a f =
    modify λ d. record d { fund_guards = update d.fund_guards a (some (stored f)) }

-- `updateFundGuardPoolStatus`: a record that does not decode is passed over in silence.
unfoldable pub pool_status : Address → ℕ → ℕ → Option (Slot FundGuardNode) → M ⊤
unfolding set_fund_guard_node
pool_status a ftype height none = fail rs_fail
pool_status a ftype height (some corrupt) = pure tt
pool_status a ftype height (some (stored f)) =
    set_fund_guard_node a (record f { height = height; ftype = ftype })

unfoldable pub update_fund_guard_pool_status : Address → ℕ → ℕ → M ⊤
unfolding pool_status
update_fund_guard_pool_status a ftype height d = pool_status a ftype height (d.fund_guards a) d

-- `addFullStakeGuardPool` and `removeFullStakeGuardNodeFromPool`.
unfoldable pub set_full_guard : Address → Bool → M ⊤
set_full_guard a present = modify λ d. record d { full_guards = update d.full_guards a present }

abbrev pub half_period : ℕ
half_period = 5000000

abbrev pub guard_key : Address → DetailKey
guard_key a = detail_at a a miner_type_proposal staked

-- `checkApplyGuard`, of a miner that exists.
unfoldable pub check_apply_guard : ℕ → StakeDetail → M ⊤
check_apply_guard height s = do
  guard (is_full_stake s.value height) rs_miner_not_full_stake
  guard (not (ltb height s.dis_miss_height && ltb half_period (s.dis_miss_height - height)))
      rs_miner_max_apply_guard

-- `afterBecomeFullGuardNode`: how long the stake is bound from now on.
unfoldable pub after_become_full_guard_node : Role → ℕ → Address → StakeDetail → M ⊤
unfolding add64 set_full_guard set_detail update_fund_guard_pool_status
after_become_full_guard_node normal height a s = do
  set_full_guard a true
  set_detail (guard_key a) (record s { dis_miss_height = add64 height half_period })
after_become_full_guard_node guard_node height a s =
    if s.dis_miss_height == 0
    then (update_fund_guard_pool_status a full_stake_guard_node_type height
        >> (set_full_guard a true
            >> set_detail (guard_key a) (record s { dis_miss_height = add64 height half_period })))
    else set_detail (guard_key a)
        (record s { dis_miss_height = add64 s.dis_miss_height half_period })
after_become_full_guard_node _ height a s = pure tt

unfoldable pub refresh_vote : Address → ℕ → Option VoteInfo → M ⊤
unfolding set_vote_info
refresh_vote a height none = pure tt
refresh_vote a height (some v) = set_vote_info a (record v { height = height })

-- `processApplyGuard` of `BaseMiner`, once the detail has been read.
unfoldable pub become_guard : Role → ℕ → Address → Miner → Option StakeDetail → M ⊤
unfolding check_apply_guard set_miner after_become_full_guard_node get_vote_info refresh_vote
become_guard role height a m none = fail rs_miner_not_full_stake
become_guard role height a m (some s) = do
  check_apply_guard height s
  set_miner (update_identity m miner_guard height)
  after_become_full_guard_node role height a s
  vf ← get_vote_info a
  refresh_vote a height vf

-- Verifiers, miner pools, invalid pools and `UnSupportMiner` refuse.
abbrev pub can_guard : Role → Bool
can_guard normal = true
can_guard guard_node = true
can_guard _ = false

unfoldable pub process_apply_guard : ℕ → Address → Option Miner → M ⊤
unfolding gene_base_identity_op get_detail become_guard
process_apply_guard height a none = fail rs_miner_not_exists
process_apply_guard height a (some m) = do
  let role = gene_base_identity_op miner_type_proposal (some m)
  guard (can_guard role) rs_miner_un_support_op
  detail ← get_detail (guard_key a)
  become_guard role height a m detail

-- `applyGuardMinerOp.Transition`
unfoldable pub apply_guard : ℕ → Address → M ⊤
unfolding get_miner process_apply_guard
apply_guard height a = do m ← get_miner a miner_type_proposal; process_apply_guard height a m

-- The end of `processChangeFundGuardMode`; its last test of the error is of no effect here, as the
-- write cannot fail.
unfoldable pub change_mode : ℕ → Address → ℕ → Option FundGuardNode → M ⊤
unfolding set_fund_guard_node
change_mode height source mode none = fail rs_miner_un_support_op
change_mode height source mode (some f) = do
  guard (is_fund_guard f) rs_miner_un_support_op
  set_fund_guard_node source (record f { height = height; fund_mode_type = mode })

-- `changeFundGuardMode`, with the test of the mode that `ParseTransaction` makes.
unfoldable pub change_fund_guard_mode : ℕ → Address → ℕ → M ⊤
unfolding get_miner gene_base_identity_op get_fund_guard_node change_mode
change_fund_guard_mode height source mode = do
  guard (mode == six_add_five || mode == six_add_six) rs_fail
  m ← get_miner source miner_type_proposal
  guard (is_supported (gene_base_identity_op miner_type_proposal m)) rs_miner_un_support_op
  guard (not (ltb half_period height)) rs_miner_change_mode_expired
  f ← get_fund_guard_node source
  change_mode height source mode f

-- The vote of a guard that is none any more goes, and its ticket with it.
unfoldable pub withdraw_vote : ℕ → Address → Option VoteInfo → M ⊤
unfolding reduce_tickets
withdraw_vote height a none = pure tt
withdraw_vote height a (some v) =
    modify (λ d. record d { votes = update d.votes a none })
    >> when (not (v.target == empty_address)) (reduce_tickets height v.target)

unfoldable pub expire : ℕ → Address → Bool → Option Miner → M ⊤
unfolding set_miner set_full_guard get_vote_info withdraw_vote
expire height a is_fund_guard_node none = fail rs_fail
expire height a is_fund_guard_node (some m) = do
  set_miner (update_identity m miner_normal height)
  when (not is_fund_guard_node) (set_full_guard a false)
  vf ← get_vote_info a
  withdraw_vote height a vf

-- `guardNodeExpired`
unfoldable pub guard_node_expired : ℕ → Address → Bool → M ⊤
unfolding get_miner expire
guard_node_expired height a is_fund_guard_node = do
  m ← get_miner a miner_type_proposal
  expire height a is_fund_guard_node m
