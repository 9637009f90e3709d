-- ===== src/Stake/Vote.antt =====
-- Votes for miner pools: `voteMinerPoolOp` and `reduceTicketsOp` of core/miner_operation.go, their
-- handlers in core/miner_node.go and the ticket counters of core/miner_base.go.
pub mod Tickets
pub mod Books
use zvchain.Base.{
  ℕ, ◌-◌, Bool, true, false, not, ◌&&◌, Option, none, some, [], ltb, ◌==◌, if◌then◌else◌, add64,
}
use zvchain.Stake.Types.{
  Address, Miner, VoteInfo, new_vote_info, empty_address, miner_type_proposal, miner_status_prepare,
  miner_pool, miner_normal, invalid_miner_pool, is_active, is_guard, update_status, update_identity,
}
use zvchain.Stake.Limits.{check_can_vote, is_full_tickets}
use zvchain.Stake.Db.{
  Db, rs_fail, rs_miner_un_support_op, rs_vote_not_in_round, stored, ⊤, M, pure, fail, gets, modify,
  ◌>>=◌, ◌>>◌, guard, when, decode, update,
}
use zvchain.Stake.Store.{get_miner, set_miner, remove_from_pool}
use zvchain.Stake.Role.{
  Role, verify, normal, guard_node, pool, invalid_pool, unsupported, gene_base_identity_op,
  is_supported,
}

pub record VoteMinerPoolOp : Type 0 where
  pub height : ℕ
  pub source : Address
  pub target_addr : Address

set_tickets : Address → ℕ → M ⊤
set_tickets a n = modify λ d. record d { tickets = update d.tickets a n }

unfoldable pub add_ticket : Address → M ℕ
unfolding set_tickets add64
add_ticket a = do
  total ← gets (λ d. d.tickets a)
  set_tickets a (add64 total 1)
  pure (add64 total 1)

unfoldable pub sub_ticket : Address → M ℕ
unfolding set_tickets
sub_ticket a = do total ← gets (λ d. d.tickets a); set_tickets a (total - 1); pure (total - 1)

unfoldable pub get_vote_info : Address → M (Option VoteInfo)
get_vote_info a d = decode (d.votes a) d

unfoldable pub set_vote_info : Address → VoteInfo → M ⊤
set_vote_info a v = modify λ d. record d { votes = update d.votes a (some (stored v)) }

-- An active miner leaves the pool of proposers, and is saved.
unfoldable pub downgrade : ℕ → Address → Miner → M ⊤
unfolding remove_from_pool set_miner
downgrade height target m = do
  when (is_active m) (remove_from_pool miner_type_proposal target m.stake)
  set_miner (if is_active m then update_status m miner_status_prepare height else m)

-- `afterTicketReduce`: a miner pool that lost a ticket it needs becomes an invalid pool.
unfoldable pub after_ticket_reduce : Role → ℕ → Address → Option Miner → ℕ → M ⊤
unfolding downgrade
after_ticket_reduce pool height target none total_tickets =
    guard (is_full_tickets total_tickets height) rs_fail
after_ticket_reduce pool height target (some m) total_tickets =
    when (not (is_full_tickets total_tickets height))
      (downgrade height target (update_identity m invalid_miner_pool height))
after_ticket_reduce _ height target o total_tickets = pure tt

-- `reduceTicketsOp.Transition`
unfoldable pub reduce_tickets : ℕ → Address → M ⊤
unfolding get_miner gene_base_identity_op sub_ticket after_ticket_reduce
reduce_tickets height target = do
  m ← get_miner target miner_type_proposal
  let role = gene_base_identity_op miner_type_proposal m
  guard (is_supported role) rs_miner_un_support_op
  total_tickets ← sub_ticket target
  after_ticket_reduce role height target m total_tickets

abbrev pub vote_height : Option VoteInfo → ℕ
vote_height none = 0
vote_height (some v) = v.height

abbrev is_guard_miner : Option Miner → Bool
is_guard_miner none = false
is_guard_miner (some m) = is_guard m

unfoldable pub check_vote : VoteMinerPoolOp → Option VoteInfo → M ⊤
unfolding get_miner
check_vote op vf = do
  source ← get_miner op.source miner_type_proposal
  guard (is_guard_miner source) rs_miner_un_support_op
  guard (check_can_vote (vote_height vf) op.height) rs_vote_not_in_round

-- `initVoteInfo` writes the empty vote before the new one overwrites it.
unfoldable pub init_vote_info : Address → Option VoteInfo → M VoteInfo
unfolding set_vote_info
init_vote_info a none = set_vote_info a new_vote_info >> pure new_vote_info
init_vote_info a (some v) = pure v

-- Moves the ticket from the old target to the new one, and returns the count of the new one.
unfoldable pub move_ticket : VoteMinerPoolOp → Address → M ℕ
unfolding add_ticket reduce_tickets
move_ticket op old_target =
    if old_target == op.target_addr && not (old_target == empty_address)
    then gets (λ d. d.tickets op.target_addr)
    else when (not (old_target == empty_address)) (reduce_tickets op.height old_target)
      >> add_ticket op.target_addr

-- The function `processVote` of core/miner_base.go.
unfoldable pub place_vote : VoteMinerPoolOp → Option VoteInfo → M Bool
unfolding init_vote_info set_vote_info move_ticket
place_vote op vf = do
  v ← init_vote_info op.source vf
  set_vote_info op.source (record v { target = op.target_addr; height = op.height })
  total_tickets ← move_ticket op v.target
  pure (is_full_tickets total_tickets op.height)

unfoldable pub voted_miner : VoteMinerPoolOp → Option Miner → Miner
voted_miner op none = record {
  id = op.target_addr;
  public_key = [];
  vrf_public_key = [];
  apply_height = op.height;
  stake = 0;
  status_update_height = 0;
  mtype = miner_type_proposal;
  status = miner_status_prepare;
  identity = miner_normal;
  identity_update_height = 0;
}
voted_miner op (some m) = m

-- The target becomes a miner pool, whatever it was before.
unfoldable pub after_tickets_full : VoteMinerPoolOp → Option Miner → M ⊤
unfolding set_miner voted_miner
after_tickets_full op target =
    set_miner (update_identity (voted_miner op target) miner_pool op.height)

-- `processVote` of `BaseMiner`.
unfoldable pub process_vote : VoteMinerPoolOp → Option Miner → M ⊤
unfolding get_vote_info check_vote place_vote after_tickets_full
process_vote op target = do
  vf ← get_vote_info op.source
  check_vote op vf
  is_full ← place_vote op vf
  when is_full (after_tickets_full op target)

-- `VerifyMiner`, `GuardProposalMiner` and `UnSupportMiner` refuse.
abbrev pub takes_votes : Role → Bool
takes_votes verify = false
takes_votes guard_node = false
takes_votes unsupported = false
takes_votes _ = true

-- `voteMinerPoolOp.Transition`
unfoldable pub vote_miner_pool : VoteMinerPoolOp → M ⊤
unfolding get_miner gene_base_identity_op process_vote
vote_miner_pool op = do
  target ← get_miner op.target_addr miner_type_proposal
  guard (takes_votes (gene_base_identity_op miner_type_proposal target)) rs_miner_un_support_op
  process_vote op target
