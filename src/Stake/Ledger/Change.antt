-- ===== src/Stake/Ledger/Change.antt =====
-- How the books change: a record of a miner and its details move together.
use zvchain.Base.{ℕ, ◌+◌, ◌≤◌, ◌<◌, ◌≡◌, ◌∙◌, sym, true, ◌&&◌, arith, ◌==◌, if◌then◌else◌, u64_mod}
use zvchain.Base.Map.{
  lookup, insert, lookup-insert, sum_by, sum_by-insert, sum_by-le, sum_by-le_at, weight_at,
  Distinct, nat_key,
}
use zvchain.Stake.Types.{Miner, is_proposal_role}
use zvchain.Stake.Db.{stored, miner_key, detail_key}
use zvchain.Stake.Store.{miner_at}
use zvchain.Stake.Ledger.{
  Balances, Miners, Details, proposal_stake, active_stake, staked_for, proposal_staked, circulating,
  worth_of, stake_of, Books,
}

-- The record of one miner is replaced, and its details change by as much.
pub Books-set_miner :
    {bs : Balances} {ms : Miners} {ds : Details} {total : ℕ} (bs' : Balances) (ds' : Details)
    (total' : ℕ) (m : Miner)
    → Books bs ms ds total
    → ((a t : ℕ)
        → let hit = a == m.id && t == m.mtype in
          sum_by (staked_for a t) ds' + (if hit then stake_of ms m.id m.mtype else 0)
          ≡ sum_by (staked_for a t) ds + (if hit then m.stake else 0))
    → sum_by proposal_staked ds'
        + (if is_proposal_role m.mtype then stake_of ms m.id m.mtype else 0)
      ≡ sum_by proposal_staked ds + (if is_proposal_role m.mtype then m.stake else 0)
    → Distinct ds'
    → total' + weight_at active_stake (miner_at m.id m.mtype) (lookup (miner_at m.id m.mtype) ms)
      ≡ total + active_stake (miner_at m.id m.mtype) (stored m)
    → worth_of bs' ds' < u64_mod
    → Books bs' (insert (miner_at m.id m.mtype) (stored m) ms) ds' total'
Books-set_miner {ms} {ds} bs' ds' total' m v each all dist tot supply = record {
  total_active =
      omega
        (arith, v.total_active, sum_by-insert active_stake (miner_at m.id m.mtype) (stored m) ms);
  proposals =
      ground
        (arith, v.proposals, sum_by-insert proposal_stake (miner_at m.id m.mtype) (stored m) ms);
  backed = λ a t. ground (
    arith,
    each a t,
    v.backed a t,
    lookup-insert (miner_at a t) (miner_at m.id m.mtype) (stored m) ms,
  );
  distinct = dist;
  keyed = λ a t m' e.
      ground
        (arith, v.keyed a t m', lookup-insert (miner_at a t) (miner_at m.id m.mtype) (stored m) ms);
  supply = supply;
}

-- No stake of one miner, and no two stakes of proposers together, exceed what circulates.
pub staked_for-le-circulating :
    (a t : ℕ) (ds : Details) → sum_by (staked_for a t) ds ≤ sum_by circulating ds
staked_for-le-circulating a t ds = sum_by-le (staked_for a t) circulating ds (λ k s. ground arith)

pub stake_of-le-circulating :
    {bs : Balances} {ms : Miners} {ds : Details} {total : ℕ} (a t : ℕ)
    → Books bs ms ds total
    → stake_of ms a t ≤ sum_by circulating ds
stake_of-le-circulating {ds} a t v = omega (arith, v.backed a t, staked_for-le-circulating a t ds)

-- The proposers' total leaves room for a stake that is not active yet.
pub total_room :
    {bs : Balances} {ms : Miners} {ds : Details} {total : ℕ} (a t : ℕ)
    → is_proposal_role t ≡ true
    → Books bs ms ds total
    → total + stake_of ms a t
      ≤ sum_by circulating ds + weight_at active_stake (miner_at a t) (lookup (miner_at a t) ms)
total_room {ms} {ds} a t p v = ground (
  arith,
  v.total_active,
  v.proposals,
  sum_by-le_at active_stake proposal_stake (miner_at a t) ms (λ k s. ground arith),
  sum_by-le proposal_staked circulating ds (λ k s. ground arith),
)

-- Details move without any staked value changing.
pub Books-set_details :
    {bs : Balances} {ms : Miners} {ds : Details} {total : ℕ} (bs' : Balances) (ds' : Details)
    → Books bs ms ds total
    → ((a t : ℕ) → sum_by (staked_for a t) ds' ≡ sum_by (staked_for a t) ds)
    → sum_by proposal_staked ds' ≡ sum_by proposal_staked ds
    → Distinct ds'
    → worth_of bs' ds' < u64_mod
    → Books bs' ms ds' total
Books-set_details bs' ds' v each all dist supply = record {
  total_active = v.total_active;
  proposals = v.proposals ∙ sym all;
  backed = λ a t. v.backed a t ∙ sym (each a t);
  distinct = dist;
  keyed = v.keyed;
  supply = supply;
}

-- A record is replaced by one of the same stake; it may leave or join the active proposers.
pub Books-same_stake :
    {bs : Balances} {ms : Miners} {ds : Details} {total : ℕ} (total' : ℕ) (m : Miner)
    → Books bs ms ds total
    → m.stake ≡ stake_of ms m.id m.mtype
    → total' + weight_at active_stake (miner_at m.id m.mtype) (lookup (miner_at m.id m.mtype) ms)
      ≡ total + active_stake (miner_at m.id m.mtype) (stored m)
    → Books bs (insert (miner_at m.id m.mtype) (stored m) ms) ds total'
Books-same_stake {bs} {ds} total' m v same tot =
    Books-set_miner bs ds total' m v (λ a t. ground arith) (ground arith) v.distinct tot v.supply
