-- ===== src/Stake/Limits/Bounds.antt =====
-- The bounds on a stake stay inside uint64 and never fall with the height; the tickets never rise.
use zvchain.Base.{
  ℕ, zero, suc, ◌*◌, ◌≤◌, ◌<◌, ◌≡◌, refl, Bool, true, ◌&&◌, arith, u64_mod, add64, mul64_exact, leb,
  all_below, all_below-holds,
}
use zvchain.Stake.Limits.{
  zvc, maximum_stake_loop, stake_period, maximum_stake, get_valid_tickets_by_height,
  get_full_miner_pool_stake, init_max_miner_stake,
}

abbrev pub max_stake_cap : ℕ
max_stake_cap = 8125000 * zvc

stake_period-le : (h : ℕ) → stake_period h ≤ 12
unfolding stake_period
stake_period-le h = ground arith

stake_period_mono : (h k : ℕ) → h ≤ k → stake_period h ≤ stake_period k
unfolding stake_period
stake_period_mono h k le = ground arith

-- The bound after a number of rounds.
bound : ℕ → ℕ
unfolding maximum_stake_loop add64
bound p = maximum_stake_loop p 0 init_max_miner_stake

abbrev row : ℕ → Bool
row p = leb init_max_miner_stake (bound p) && leb (bound p) (bound (suc p))

bound_table : (all_below 12 row && leb (bound 12) max_stake_cap) ≡ true
unfolding all_below bound
bound_table = refl

bound_step : (p : ℕ) → p < 12 → bound p ≤ bound (suc p)
bound_step p h = ground (arith, bound_table, all_below-holds 12 row p)

bound_mono : (p q : ℕ) → p ≤ q → q ≤ 12 → bound p ≤ bound q
bound_mono p zero h k = ground arith
bound_mono p (suc q) h k = grind (arith, bound_mono p q, bound_step q)

bound_first : bound 0 ≡ init_max_miner_stake
unfolding bound
bound_first = refl

bound_last : bound 12 ≤ max_stake_cap
bound_last = ground (arith, bound_table)

maximum_stake-bound : (h : ℕ) → maximum_stake h ≡ bound (stake_period h)
unfolding maximum_stake bound
maximum_stake-bound h = refl

pub maximum_stake_bounds :
    (h : ℕ) → (init_max_miner_stake ≤ maximum_stake h) × (maximum_stake h ≤ max_stake_cap)
maximum_stake_bounds h = omega (
  arith,
  maximum_stake-bound h,
  stake_period-le h,
  bound_first,
  bound_last,
  bound_mono 0 (stake_period h),
  bound_mono (stake_period h) 12,
)

pub maximum_stake_mono : (h k : ℕ) → h ≤ k → maximum_stake h ≤ maximum_stake k
maximum_stake_mono h k le = omega (
  arith,
  maximum_stake-bound h,
  maximum_stake-bound k,
  bound_mono (stake_period h) (stake_period k) (stake_period_mono h k le) (stake_period-le k),
)

tickets_bounds :
    (h : ℕ)
    → h < u64_mod
    → (1 ≤ get_valid_tickets_by_height h) × (get_valid_tickets_by_height h ≤ 8)
unfolding get_valid_tickets_by_height
tickets_bounds h w = ground arith

tickets-antitone :
    (h k : ℕ) → h ≤ k → k < u64_mod → get_valid_tickets_by_height k ≤ get_valid_tickets_by_height h
unfolding get_valid_tickets_by_height
tickets-antitone h k le w = ground arith

product-le : (a b c d : ℕ) → a ≤ c → b ≤ d → a * b ≤ c * d
product-le a b c d p q = grind arith

full_exact :
    (h : ℕ)
    → get_valid_tickets_by_height h ≤ 8
    → get_full_miner_pool_stake h ≡ maximum_stake h * get_valid_tickets_by_height h
unfolding get_full_miner_pool_stake
full_exact h t = mul64_exact (maximum_stake h) (get_valid_tickets_by_height h) (
    omega (
      arith,
      product-le (maximum_stake h) (get_valid_tickets_by_height h) max_stake_cap 8
          (maximum_stake_bounds h).1 t,
    ))

-- At every height a single miner may stake between 2.5 and 8.125 million ZVC, and that limit never
-- falls as the chain grows.
pub maximum_stake_window :
    (h k : ℕ)
    → h ≤ k
    → (init_max_miner_stake ≤ maximum_stake h)
      × (maximum_stake h ≤ maximum_stake k)
      × (maximum_stake k ≤ max_stake_cap)
maximum_stake_window h k le =
    ((maximum_stake_bounds h).0, maximum_stake_mono h k le, (maximum_stake_bounds k).1)

-- A miner pool needs between 1 and 8 tickets at any uint64 height, never more at a later one, and
-- the stake that fills it is the exact product of the limit and the tickets: it does not wrap.
pub full_miner_pool_stake_exact :
    (h k : ℕ)
    → h ≤ k
    → k < u64_mod
    → (1 ≤ get_valid_tickets_by_height k)
      × (get_valid_tickets_by_height k ≤ get_valid_tickets_by_height h)
      × (get_valid_tickets_by_height h ≤ 8)
      × (get_full_miner_pool_stake h ≡ maximum_stake h * get_valid_tickets_by_height h)
full_miner_pool_stake_exact h k le w = (
  (tickets_bounds k w).0,
  tickets-antitone h k le w,
  (tickets_bounds h (omega arith)).1,
  full_exact h (tickets_bounds h (omega arith)).1,
)
