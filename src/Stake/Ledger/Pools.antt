-- ===== src/Stake/Ledger/Pools.antt =====
-- How a miner leaves the pools, and what that does to the proposers' total.
use zvchain.Base.{
  ℕ, ◌+◌, ◌-◌, ◌≡◌, ◌≤◌, Bool, false, ◌&&◌, some, inl, inr, arith, if◌then◌else◌, Bool-cases,
}
use zvchain.Base.Map.{lookup, weight_at-le}
use zvchain.Stake.Types.{Address, Miner, is_active, is_proposal_role}
use zvchain.Stake.Db.{⊤, Db, M, stored, miner_key, returned, ◌>>=◌, when, update}
use zvchain.Stake.Store.{miner_at, remove_from_pool}
use zvchain.Stake.Ledger.{Inv, Ensures, active_stake}
use zvchain.Stake.Ledger.Rules.{remove_from_pool_proposal, remove_from_pool_other}

-- A stake, if it counts among the proposers' active stakes.
abbrev pub counted : ℕ → Miner → ℕ → ℕ
counted t m stake = if is_proposal_role t && is_active m then stake else 0

abbrev pub with_pools : Db → ℕ → (ℕ → Bool) → (ℕ → Bool) → Bool → Db
with_pools d total pp vp nk = record d {
  proposal_total = total;
  proposal_pool = pp;
  verifier_pool = vp;
  nil_pool_key = nk;
}

-- An active miner leaves its pool, and takes its stake out of the proposers' total.
abbrev pub leave_pool : ℕ → Address → Miner → M ⊤
leave_pool t a m = when (is_active m) (remove_from_pool t a m.stake)

abbrev Left : ℕ → Address → Miner → Db → Type 0
Left t a m d =
    (total : ℕ) × (pp : ℕ → Bool) × (vp : ℕ → Bool) × (nk : Bool) × (total + counted t m m.stake
      ≡ d.proposal_total)
    × (leave_pool t a m d ≡ returned tt (with_pools d total pp vp nk))

leave_pool-Left :
    (t a : ℕ) (m : Miner) (d : Db) → counted t m m.stake ≤ d.proposal_total → Left t a m d
leave_pool-Left t a m d le = elim (Bool-cases (is_active m)) [
  | inr idle ↦ (
    d.proposal_total,
    d.proposal_pool,
    d.verifier_pool,
    d.nil_pool_key,
    ground arith,
    rw (idle, when),
  )
  | inl active ↦ elim (Bool-cases (is_proposal_role t)) [
    | inl p ↦ (
      d.proposal_total - m.stake,
      update d.proposal_pool a false,
      d.verifier_pool,
      d.nil_pool_key,
      ground arith,
      rw (active, when) (remove_from_pool_proposal t a m.stake d p (ground arith)),
    )
    | inr np ↦
        let (vp, nk, e) = remove_from_pool_other t a m.stake d np in
        (d.proposal_total, d.proposal_pool, vp, nk, ground arith, rw (active, when) e)
  ]
]

pub leave_pool-Ensures :
    {B : Type 0} (Q : B → Db → Type 0) (t a : ℕ) (m : Miner) (f : ⊤ → M B) (d : Db)
    → Inv d
    → lookup (miner_at a t) d.miners ≡ some (stored m)
    → ((total : ℕ) (pp vp : ℕ → Bool) (nk : Bool)
        → total + counted t m m.stake ≡ d.proposal_total
        → Ensures Q (f tt (with_pools d total pp vp nk)))
    → Ensures Q ((leave_pool t a m >>= f) d)
leave_pool-Ensures Q t a m f d v found k =
    let (total, pp, vp, nk, total_eq, e) =
      leave_pool-Left t a m d
        (ground (arith, v.total_active, weight_at-le active_stake (miner_at a t) d.miners)) in
    rw (e, ◌>>=◌) (k total pp vp nk total_eq)
