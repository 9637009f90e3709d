-- ===== src/Stake/Ledger.antt =====
-- What the books of staking add up to: the weights of stored miners and details, the worth in
-- circulation, and the invariant that ties miners, details and the proposers' total together.
pub mod Rules
pub mod Details
pub mod Change
pub mod Pools
use zvchain.Base.{ℕ, ◌+◌, ◌≡◌, ◌<◌, Bool, not, ◌&&◌, Option, some, ◌==◌, if◌then◌else◌, u64_mod}
use zvchain.Base.Map.{Map, lookup, sum_by, weight_at, Distinct, nat_key}
use zvchain.Stake.Types.{
  Address, Miner, StakeDetail, staked, stake_punishment, is_active, is_proposal_role,
}
use zvchain.Stake.Db.{
  Slot, corrupt, stored, MinerKey, DetailKey, miner_key, detail_key, Db, Outcome, returned, failed,
  panicked,
}
use zvchain.Stake.Store.{miner_at}

abbrev pub Balances : Type 0
Balances = Map Address ℕ

abbrev pub Miners : Type 0
Miners = Map MinerKey (Slot Miner)

abbrev pub Details : Type 0
Details = Map DetailKey (Slot StakeDetail)

abbrev pub stake_weight : MinerKey → Slot Miner → ℕ
stake_weight k corrupt = 0
stake_weight k (stored m) = m.stake

abbrev pub proposal_stake : MinerKey → Slot Miner → ℕ
proposal_stake k s = if is_proposal_role k.mtype then stake_weight k s else 0

abbrev pub active_stake : MinerKey → Slot Miner → ℕ
active_stake k corrupt = 0
active_stake k (stored m) = if is_proposal_role k.mtype && is_active m then m.stake else 0

abbrev pub detail_value : Slot StakeDetail → ℕ
detail_value corrupt = 0
detail_value (stored s) = s.value

-- The value of the details whose keys pass a test.
abbrev pub weigh : (DetailKey → Bool) → DetailKey → Slot StakeDetail → ℕ
weigh c k s = if c k then detail_value s else 0

-- The stake that stands in the details of one miner.
abbrev pub is_staked_for : Address → ℕ → DetailKey → Bool
is_staked_for a t k = (k.holder == a && k.mtype == t) && k.status == staked

abbrev pub staked_for : Address → ℕ → DetailKey → Slot StakeDetail → ℕ
staked_for a t = weigh (is_staked_for a t)

abbrev pub is_proposal_staked : DetailKey → Bool
is_proposal_staked k = is_proposal_role k.mtype && k.status == staked

abbrev pub proposal_staked : DetailKey → Slot StakeDetail → ℕ
proposal_staked = weigh is_proposal_staked

-- A punished stake is never paid back, so it is out of circulation.
abbrev pub is_circulating : DetailKey → Bool
is_circulating k = not (k.status == stake_punishment)

abbrev pub circulating : DetailKey → Slot StakeDetail → ℕ
circulating = weigh is_circulating

abbrev pub balance_weight : Address → ℕ → ℕ
balance_weight a b = b

abbrev pub worth_of : Balances → Details → ℕ
worth_of bs ds = sum_by balance_weight bs + sum_by circulating ds

-- All tokens in accounts and in stakes that can still be paid back.
abbrev pub worth : Db → ℕ
worth d = worth_of d.balances d.details

-- The stake that the record of a miner states; 0 without a record.
abbrev pub stake_of : Miners → Address → ℕ → ℕ
stake_of ms a t = weight_at stake_weight (miner_at a t) (lookup (miner_at a t) ms)

pub record Books (bs : Balances) (ms : Miners) (ds : Details) (total : ℕ) : Type 0 where
  -- the proposers' total is the stake of the active proposers
  pub total_active : total ≡ sum_by active_stake ms
  -- proposers' records and details agree in total
  pub proposals : sum_by proposal_stake ms ≡ sum_by proposal_staked ds
  -- every record states what its details add up to
  pub backed : (a t : ℕ) → stake_of ms a t ≡ sum_by (staked_for a t) ds
  pub distinct : Distinct ds
  -- a record stands under its own address and type
  pub keyed :
      (a t : ℕ) (m : Miner)
      → lookup (miner_at a t) ms ≡ some (stored m)
      → (m.id ≡ a) × (m.mtype ≡ t)
  -- the tokens fit an uint64
  pub supply : worth_of bs ds < u64_mod

abbrev pub Inv : Db → Type 0
Inv d = Books d.balances d.miners d.details d.proposal_total

-- A call does not panic, and what it returns meets `P`. An error promises nothing: its caller reverts.
abbrev pub Ensures : {A : Type 0} → (A → Db → Type 0) → Outcome A → Type 0
Ensures P (returned a d) = P a d
Ensures P (failed s d) = Unit
Ensures P panicked = ⊥
