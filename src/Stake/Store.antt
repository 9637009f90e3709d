-- ===== src/Stake/Store.antt =====
-- The readers and writers of core/miner_base.go, with the balance helpers that they rest on.
use zvchain.Base.{
  ℕ, ◌+◌, ◌-◌, Bool, true, false, not, Option, none, some, ltb, leb, if◌then◌else◌, add64,
}
use zvchain.Base.Map.{lookup, insert, erase, nat_key}
use zvchain.Stake.Types.{Address, Miner, StakeDetail, is_proposal_role, is_verify_role}
use zvchain.Stake.Db.{
  stored, MinerKey, DetailKey, miner_key, detail_key, Db, rs_balance_not_enough, ⊤, M, gets, modify,
  ◌>>=◌, ◌>>◌, guard, assert, when, decode, update,
}

-- `AccountDB.GetBalance`: 0 for an account that is not there.
abbrev pub balance_of : Address → Db → ℕ
balance_of a d = elim (lookup a d.balances) [ none ↦ 0 | some b ↦ b ]

-- `AccountDB.AddBalance`
abbrev pub add_balance : Address → ℕ → M ⊤
add_balance a amount =
    modify λ d. record d { balances = insert a (balance_of a d + amount) d.balances }

-- `AccountDB.SubBalance`
abbrev pub sub_balance : Address → ℕ → M ⊤
sub_balance a amount =
    modify λ d. record d { balances = insert a (balance_of a d - amount) d.balances }

-- `AccountDB.CanTransfer`, of an amount that is not negative.
abbrev pub can_transfer : Address → ℕ → Db → Bool
can_transfer a amount d = leb amount (balance_of a d)

-- `needTransfer`
abbrev pub need_transfer : ℕ → Bool
need_transfer amount = ltb 0 amount

unfoldable pub reduce_balance : Address → ℕ → M ⊤
reduce_balance target value =
    when (need_transfer value)
      do guard (← gets (can_transfer target value)) rs_balance_not_enough; sub_balance target value

abbrev pub miner_at : Address → ℕ → MinerKey
miner_at a t = record { holder = a; mtype = t }

abbrev pub detail_at : Address → Address → ℕ → ℕ → DetailKey
detail_at holder source t status = record {
  holder = holder;
  source = source;
  mtype = t;
  status = status;
}

unfoldable pub get_miner : Address → ℕ → M (Option Miner)
get_miner a t d = decode (lookup (miner_at a t) d.miners) d

unfoldable pub set_miner : Miner → M ⊤
set_miner m = modify λ d. record d { miners = insert (miner_at m.id m.mtype) (stored m) d.miners }

unfoldable pub get_detail : DetailKey → M (Option StakeDetail)
get_detail k d = decode (lookup k d.details) d

unfoldable pub set_detail : DetailKey → StakeDetail → M ⊤
set_detail k s = modify λ d. record d { details = insert k (stored s) d.details }

unfoldable pub remove_detail : DetailKey → M ⊤
remove_detail k = modify λ d. record d { details = erase k d.details }

set_proposal_total : ℕ → M ⊤
set_proposal_total n = modify λ d. record d { proposal_total = n }

unfoldable pub sub_proposal_total_stake : ℕ → M ⊤
unfolding set_proposal_total
sub_proposal_total_stake sub_stake = do
  total ← gets (λ d. d.proposal_total)
  assert (leb sub_stake total)
  set_proposal_total (total - sub_stake)

-- The panic is the source's test for wrap-around.
unfoldable pub add_proposal_total_stake : ℕ → M ⊤
unfolding set_proposal_total add64
add_proposal_total_stake add_stake = do
  total ← gets (λ d. d.proposal_total)
  assert (not (ltb (add64 add_stake total) total))
  set_proposal_total (add64 add_stake total)

-- `RemoveData` and `SetData` of the pool's entry; a type that is neither role leaves the key nil.
set_pool_entry : ℕ → Address → Bool → M ⊤
set_pool_entry t a present = modify λ d.
    if is_proposal_role t
    then record d { proposal_pool = update d.proposal_pool a present }
    else if is_verify_role t
    then record d { verifier_pool = update d.verifier_pool a present }
    else record d { nil_pool_key = present }

unfoldable pub remove_from_pool : ℕ → Address → ℕ → M ⊤
unfolding set_pool_entry
remove_from_pool t a stake = do
  when (is_proposal_role t) (sub_proposal_total_stake stake)
  set_pool_entry t a false

unfoldable pub add_to_pool : ℕ → Address → ℕ → M ⊤
unfolding set_pool_entry add_proposal_total_stake
add_to_pool t a add_stake = do
  when (is_proposal_role t) (add_proposal_total_stake add_stake)
  set_pool_entry t a true
