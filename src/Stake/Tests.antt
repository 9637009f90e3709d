-- ===== src/Stake/Tests.antt =====
-- The operations on concrete databases.
use zvchain.Stake.Limits.{
  check_can_vote, get_valid_tickets_by_height, is_full_stake, is_full_tickets, maximum_stake,
}
use zvchain.Base.{
  ℕ, ◌≡◌, refl, Bool, true, false, none, some, List, [], ◌∷◌, if◌then◌else◌, ◌==◌, arith,
}
use zvchain.Stake.Types.{Miner, StakeDetail}
use zvchain.Stake.Db.{Db, stored, Outcome, returned, ⊤, miner_key, detail_key}
use zvchain.Stake.Store.{detail_at, miner_at, remove_from_pool, sub_proposal_total_stake}
use zvchain.Stake.Ledger.{Inv, Ensures, worth}
use zvchain.Stake.Add.{StakeAddOp, stake_add}
use zvchain.Stake.Add.Books.{Added, stake_add-Added}
use zvchain.Stake.Reduce.{StakeReduceOp, stake_reduce}
use zvchain.Stake.Reduce.Books.{Reduced, stake_reduce-Reduced}
use zvchain.Stake.Refund.{Forks, StakeRefundOp, stake_refund}
use zvchain.Stake.Db.{update}
use zvchain.Stake.Withdrawal.{refund_of, stake_refund-stake_reduce}
use zvchain.Stake.Refund.Books.{Refunded, stake_refund-Refunded}
use zvchain.Stake.Retire.{MinerAbortOp, miner_abort, miner_freeze}
use zvchain.Stake.Retire.Books.{Aborted, Frozen, miner_abort-Aborted, miner_freeze-Frozen}
use zvchain.Stake.Vote.{VoteMinerPoolOp, vote_miner_pool, reduce_tickets}
use zvchain.Stake.Vote.Tickets.{TicketReduced, reduce_tickets-TicketReduced}
use zvchain.Stake.Vote.Books.{Voted, vote_miner_pool-Voted}
use zvchain.Stake.Guard.{apply_guard, guard_node_expired}
use zvchain.Stake.Guard.Books.{Guarded, apply_guard-Guarded}
use zvchain.Stake.Guard.Expiry.{Expired, guard_node_expired-Expired}
use zvchain.Stake.Refund.Due.{Returns}
use zvchain.Stake.Penalty.{MinerPenaltyOp, miner_penalty}
use zvchain.Stake.Penalty.Books.{Own}
use zvchain.Stake.Penalty.Payment.{Punished, miner_penalty-Punished}
use zvchain.Stake.Chain.{
  MOperation, Environment, execute_all, add_op, reduce_op, refund_op, apply_guard_op,
}
use zvchain.Stake.Chain.Soundness.{execute_all-Sound}

-- A miner of 500 ZVC that stakes for itself, an account of 9,000 ZVC beside it, a stake of 3 ZVC that
-- is frozen since block 100, and a guard's vote.
abbrev proposer : Miner
proposer = record {
  id = 7;
  public_key = 1 ∷ [];
  vrf_public_key = 2 ∷ [];
  apply_height = 10;
  stake = 500000000000;
  status_update_height = 10;
  mtype = 1;
  status = 1;
  identity = 0;
  identity_update_height = 0;
}

abbrev own_stake : StakeDetail
own_stake = record {
  value = 500000000000;
  height = 10;
  dis_miss_height = 0;
  mark_not_full_height = 0;
}

abbrev frozen_stake : StakeDetail
frozen_stake = record {
  value = 3000000000;
  height = 100;
  dis_miss_height = 0;
  mark_not_full_height = 0;
}

abbrev chain_db : Db
chain_db = record {
  balances = (7, 1000000000) ∷ (8, 9000000000000) ∷ [];
  miners = (miner_at 7 1, stored proposer) ∷ [];
  details = (detail_at 7 7 1 0, stored own_stake) ∷ (detail_at 7 7 1 1, stored frozen_stake) ∷ [];
  proposal_total = 500000000000;
  proposal_pool = λ a. false;
  verifier_pool = λ a. false;
  nil_pool_key = false;
  tickets = λ a. 0;
  votes = λ a. none;
  fund_guards = λ a. none;
  full_guards = λ a. false;
}

chain_db-Inv : Inv chain_db
chain_db-Inv = record {
  total_active = refl;
  proposals = refl;
  backed = λ a t. ground arith;
  distinct = (refl, (refl, tt));
  keyed = λ a t m e. ground (arith, e);
  supply = omega arith;
}

abbrev ended_well : Outcome ⊤ → Bool
ended_well (returned x d) = true
ended_well _ = false

abbrev add_own : StakeAddOp
add_own = record {
  height = 200;
  miner_pks = record { mtype = 1; pk = []; vrf_pk = [] };
  value = 1000000000;
  add_source = 7;
  add_target = 7;
  miner_type = 1;
}

stake_add_returns : ended_well (stake_add 0 add_own chain_db) ≡ true
unfolding stake_add maximum_stake
stake_add_returns = refl

stake_add-Added_example : Ensures (Added add_own chain_db) (stake_add 0 add_own chain_db)
stake_add-Added_example = stake_add-Added 0 add_own chain_db chain_db-Inv

abbrev reduce_own : StakeReduceOp
reduce_own = record {
  height = 200;
  cancel_target = 7;
  cancel_source = 7;
  value = 1000000000;
  miner_type = 1;
}

abbrev in_no_group : ℕ → ℕ → Bool
in_no_group h a = true

stake_reduce_returns : ended_well (stake_reduce in_no_group reduce_own chain_db) ≡ true
unfolding stake_reduce remove_from_pool
stake_reduce_returns = refl

stake_reduce-Reduced_example :
    Ensures (Reduced reduce_own chain_db) (stake_reduce in_no_group reduce_own chain_db)
stake_reduce-Reduced_example = stake_reduce-Reduced in_no_group reduce_own chain_db chain_db-Inv

abbrev forks : Forks
forks = record { zip003 = 4945537; zip004 = 7583800 }

abbrev refund_own : StakeRefundOp
refund_own = record { height = 60000; refund_target = 7; refund_source = 7; miner_type = 1 }

stake_refund_returns : ended_well (stake_refund forks 0 refund_own chain_db) ≡ true
unfolding stake_refund
stake_refund_returns = refl

stake_refund-Refunded_example :
    Ensures (Refunded forks 0 refund_own chain_db) (stake_refund forks 0 refund_own chain_db)
stake_refund-Refunded_example = stake_refund-Refunded forks 0 refund_own chain_db chain_db-Inv

abbrev abort_own : MinerAbortOp
abort_own = record { height = 200; addr = 7; miner_type = 1 }

miner_abort_returns : ended_well (miner_abort abort_own chain_db) ≡ true
unfolding miner_abort sub_proposal_total_stake
miner_abort_returns = refl

miner_abort-Aborted_example : Ensures (Aborted abort_own chain_db) (miner_abort abort_own chain_db)
miner_abort-Aborted_example = miner_abort-Aborted abort_own chain_db chain_db-Inv

-- A verifier, an active guard with a full stake and a vote, and the pool that it has voted for.
abbrev verifier : Miner
verifier = record proposer { id = 5; mtype = 0 }

abbrev full_guard : Miner
full_guard = record proposer { id = 9; stake = 2500000000000000; identity = 1 }

abbrev guard_stake : StakeDetail
guard_stake = record own_stake { value = 2500000000000000; dis_miss_height = 5000000 }

abbrev voted_pool : Miner
voted_pool = record proposer { id = 4; stake = 0; status = 0; identity = 2 }

abbrev guard_db : Db
guard_db = record chain_db {
  miners =
      (miner_at 9 1, stored full_guard)
      ∷ (miner_at 4 1, stored voted_pool)
      ∷ (miner_at 5 0, stored verifier)
      ∷ [];
  details = (detail_at 9 9 1 0, stored guard_stake) ∷ (detail_at 5 5 0 0, stored own_stake) ∷ [];
  proposal_total = 2500000000000000;
  tickets = λ a. if a == 4 then 8 else 0;
  votes = λ a. if a == 9 then some (stored (record { target = 4; height = 20 })) else none;
}

guard_db-Inv : Inv guard_db
guard_db-Inv = record {
  total_active = refl;
  proposals = refl;
  backed = λ a t. ground arith;
  distinct = (refl, (refl, tt));
  keyed = λ a t m e. ground (arith, e);
  supply = omega arith;
}

miner_freeze_returns : ended_well (miner_freeze 200 5 guard_db) ≡ true
unfolding miner_freeze
miner_freeze_returns = refl

miner_freeze-Frozen_example : Ensures (Frozen 200 5 guard_db) (miner_freeze 200 5 guard_db)
miner_freeze-Frozen_example = miner_freeze-Frozen 200 5 guard_db guard_db-Inv

abbrev vote_again : VoteMinerPoolOp
vote_again = record { height = 5000100; source = 9; target_addr = 7 }

vote_miner_pool_returns : ended_well (vote_miner_pool vote_again guard_db) ≡ true
unfolding vote_miner_pool check_can_vote is_full_tickets get_valid_tickets_by_height
vote_miner_pool_returns = refl

vote_miner_pool-Voted_example :
    Ensures (Voted vote_again guard_db) (vote_miner_pool vote_again guard_db)
vote_miner_pool-Voted_example = vote_miner_pool-Voted vote_again guard_db guard_db-Inv

reduce_tickets_returns : ended_well (reduce_tickets 300 4 guard_db) ≡ true
unfolding reduce_tickets is_full_tickets get_valid_tickets_by_height
reduce_tickets_returns = refl

reduce_tickets-TicketReduced_example :
    Ensures (λ _. TicketReduced 4 guard_db) (reduce_tickets 300 4 guard_db)
reduce_tickets-TicketReduced_example = reduce_tickets-TicketReduced 300 4 guard_db guard_db-Inv

apply_guard_returns : ended_well (apply_guard 200 9 guard_db) ≡ true
unfolding apply_guard is_full_stake maximum_stake
apply_guard_returns = refl

apply_guard-Guarded_example : Ensures (Guarded 200 9 guard_db) (apply_guard 200 9 guard_db)
apply_guard-Guarded_example = apply_guard-Guarded 200 9 guard_db guard_db-Inv (omega arith)

guard_node_expired_returns : ended_well (guard_node_expired 300 9 false guard_db) ≡ true
unfolding guard_node_expired is_full_tickets get_valid_tickets_by_height
guard_node_expired_returns = refl

guard_node_expired-Expired_example :
    Ensures (Expired 9 guard_db) (guard_node_expired 300 9 false guard_db)
guard_node_expired-Expired_example = guard_node_expired-Expired 300 9 false guard_db guard_db-Inv

abbrev environment : Environment
environment = record { platform = 0; forks = forks; in_no_group = in_no_group }

-- The third and the last of these fail.
abbrev block : List MOperation
block =
    add_op add_own
    ∷ reduce_op reduce_own
    ∷ refund_op (record refund_own { height = 5000 })
    ∷ refund_op refund_own
    ∷ apply_guard_op 70000 7
    ∷ []

execute_all-Sound_example :
    (d' : Db) × (execute_all environment block chain_db ≡ some d')
    × Inv d'
    × (worth d' ≡ worth chain_db)
execute_all-Sound_example =
    execute_all-Sound environment block chain_db chain_db-Inv
      (tt, (tt, (tt, (tt, (omega arith, tt)))))

-- The verifier loses its stake to the account 8, and 250 ZVC go to each of the two that are rewarded.
abbrev punish : MinerPenaltyOp
punish = record {
  height = 300;
  targets = 5 ∷ [];
  rewards = 8 ∷ 7 ∷ [];
  value = 500000000000;
  punishment_detail_addr = 77;
}

guard_db-Own : Own guard_db
guard_db-Own a = ground arith

miner_penalty_returns : ended_well (miner_penalty punish guard_db) ≡ true
unfolding miner_penalty
miner_penalty_returns = refl

miner_penalty-Punished_example : Ensures (Punished punish guard_db) (miner_penalty punish guard_db)
miner_penalty-Punished_example =
    miner_penalty-Punished punish guard_db guard_db-Inv guard_db-Own (omega arith)
      (omega arith, tt, tt)

abbrev reduced_db : Db
reduced_db = record chain_db {
  miners =
      (
        miner_at 7 1,
        stored (record proposer { stake = 499000000000; status = 0; status_update_height = 200 }),
      )
      ∷ [];
  details =
      (detail_at 7 7 1 0, stored (record own_stake { value = 499000000000; height = 200 }))
      ∷ (detail_at 7 7 1 1, stored (record frozen_stake { value = 4000000000; height = 200 }))
      ∷ [];
  proposal_total = 0;
  proposal_pool = update chain_db.proposal_pool 7 false;
}

stake_reduce_reduced : stake_reduce in_no_group reduce_own chain_db ≡ returned tt reduced_db
unfolding stake_reduce remove_from_pool
stake_reduce_reduced = refl

stake_refund-stake_reduce_example :
    Returns (stake_refund forks 0 (refund_of reduce_own 3000000) reduced_db)
stake_refund-stake_reduce_example =
    stake_refund-stake_reduce forks 0 in_no_group reduce_own chain_db reduced_db 3000000
      chain_db-Inv stake_reduce_reduced (omega arith) (omega arith)
