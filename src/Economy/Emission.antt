-- ===== src/Economy/Emission.antt =====
-- What all blocks together release.
use zvchain.Base.{
  ℕ, zero, suc, ◌+◌, ◌-◌, ◌*◌, ◌/◌, ◌^◌, ◌≤◌, ◌<◌, ◌≡◌, inl, inr, false, ltb, arith, if◌then◌else◌,
  Bool-cases,
}
use zvchain.Economy.{
  initial_rewards, no_rewards_height, halve_rewards_period, adjust_weight_period, tokens_of_miners,
  reward_shift, block_rewards, emission,
}

-- The five periods of halving, after the speed-up.
late_shift : (q : ℕ) → q ≤ 4 → initial_rewards / 2 ^ (q + 2) ≤ 15556000000
late_shift zero h = omega arith
late_shift (suc zero) h = omega arith
late_shift (suc (suc zero)) h = omega arith
late_shift (suc (suc (suc zero))) h = omega arith
late_shift (suc (suc (suc (suc zero)))) h = omega arith
late_shift (suc (suc (suc (suc (suc q))))) h = omega arith

-- The most that the block of a height releases.
abbrev ceiling : ℕ → ℕ
ceiling height =
    if ltb height adjust_weight_period
    then initial_rewards
    else if ltb no_rewards_height height
    then 0
    else 15556000000

early_shift : (height : ℕ) → height < adjust_weight_period → reward_shift height ≡ 0
unfolding reward_shift
early_shift height h = ground arith

late_reward_shift :
    (height : ℕ)
    → ltb height adjust_weight_period ≡ false
    → reward_shift height ≡ height / halve_rewards_period + 2
unfolding reward_shift
late_reward_shift height h = ground arith

pub block_rewards-ceiling : (height : ℕ) → block_rewards height ≤ ceiling height
unfolding block_rewards
block_rewards-ceiling height = elim (Bool-cases (ltb height adjust_weight_period)) [
  | inl early ↦ rw (early, early_shift height (ground arith)) (ground arith)
  | inr late ↦ elim (Bool-cases (ltb no_rewards_height height)) [
    | inl ended ↦ rw (late, ended) (omega arith)
    | inr running ↦
        rw (late, running, late_reward_shift height late)
          (late_shift (height / halve_rewards_period) (ground arith))
  ]
]

-- The same sum for the ceiling.
abbrev most : ℕ → ℕ
most n =
    if ltb n adjust_weight_period
    then initial_rewards * n
    else if ltb no_rewards_height n
    then initial_rewards * 10000000 + 15556000000 * 110000001
    else initial_rewards * 10000000 + 15556000000 * (n - 10000000)

emission-most : (n : ℕ) → emission n ≤ most n
unfolding emission
emission-most zero = omega arith
emission-most (suc n) = ground (arith, emission-most n, block_rewards-ceiling n)

-- However long the chain grows, the blocks release no more than the tokens that belong to miners.
pub emission-tokens_of_miners : (n : ℕ) → emission n ≤ tokens_of_miners
emission-tokens_of_miners n = ground (arith, emission-most n)
