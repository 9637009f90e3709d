-- ===== src/Economy/Shares.antt =====
-- The shares of a block's rewards, and of a miner's share, never exceed what they divide.
use zvchain.Base.{
  ℕ, ◌+◌, ◌*◌, ◌/◌, ◌≤◌, ◌<◌, ◌≡◌, ap, inl, inr, false, ltb, ◌==◌, arith, Bool-cases, u64_mod,
  mul64, add64, sub64,
}
use native.Mathlib.Nat.{mul-le-mul_left}
use zvchain.Economy.{
  initial_rewards, adjust_weight_period, no_rewards_height, total_node_weight, block_rewards,
  user_nodes_rewards, daemon_node_weight, daemon_nodes_rewards, miner_nodes_weight,
  miner_nodes_rewards, calculate_castor_rewards, calculate_packed_rewards, calculate_verify_rewards,
  calculate_gas_fee_verify_rewards, calculate_gas_fee_castor_rewards, calculate_cast_reward_share,
}
use zvchain.Economy.Emission.{block_rewards-ceiling}

-- Where rewards are paid at all, the two weights are exact and add up.
weights :
    (height : ℕ)
    → height ≤ no_rewards_height
    → (daemon_node_weight height ≡ 440 + height / adjust_weight_period * 80)
      × (miner_nodes_weight height + height / adjust_weight_period * 80 ≡ 6460)
unfolding daemon_node_weight miner_nodes_weight mul64 add64 sub64
weights height h = (omega arith, omega arith)

ended : (height : ℕ) → no_rewards_height < height → block_rewards height ≡ 0
unfolding block_rewards
ended height h = ground arith

small : (height : ℕ) → block_rewards height ≤ initial_rewards
small height = ground (arith, block_rewards-ceiling height)

-- Three parts of a number by weights that add up.
parts :
    (r p w : ℕ)
    → r ≤ initial_rewards
    → p ≤ 12
    → w + p * 80 ≡ 6460
    → (mul64 r 100 / 7000 + mul64 r (440 + p * 80) / 7000 + mul64 r w / 7000 ≤ r)
      × (r ≤ mul64 r 100 / 7000 + mul64 r (440 + p * 80) / 7000 + mul64 r w / 7000 + 2)
unfolding mul64
parts r p w small h e =
    let scaled = ap (λ n. r * n) e in
    let bounded = mul-le-mul_left r h in
    (omega (arith, scaled, bounded), omega (arith, scaled, bounded))

paid_height : (height : ℕ) → (block_rewards height == 0) ≡ false → height ≤ no_rewards_height
paid_height height e = elim (Bool-cases (ltb no_rewards_height height)) [
  | inl over ↦ ground (arith, ended height)
  | inr within ↦ ground arith
]

narrow :
    (height : ℕ)
    → height ≤ no_rewards_height
    → ltb total_node_weight (miner_nodes_weight height) ≡ false
narrow height h = ground (arith, weights height h)

-- The three kinds of nodes never receive more than the block releases, and lose less than three RA of
-- it to rounding, at every height: no product or weight wraps around before rewards end.
pub nodes_rewards-block_rewards :
    (height : ℕ)
    → (user_nodes_rewards height + daemon_nodes_rewards height + miner_nodes_rewards height
        ≤ block_rewards height)
      × (block_rewards height
          ≤ user_nodes_rewards height
            + daemon_nodes_rewards height
            + miner_nodes_rewards height
            + 2)
unfolding user_nodes_rewards daemon_nodes_rewards miner_nodes_rewards
nodes_rewards-block_rewards height = elim (Bool-cases (block_rewards height == 0)) [
  | inl none_left ↦ rw none_left (ground arith, ground arith)
  | inr some_left ↦
      let paid = paid_height height some_left in
      let (daemon_eq, miner_eq) = weights height paid in
      rw (some_left, narrow height paid, daemon_eq)
        (parts (block_rewards height) (height / adjust_weight_period) (miner_nodes_weight height)
          (small height) (omega arith) miner_eq)
]

-- The three rewards of a miner's share never exceed it, and the two parts of a gas fee never exceed
-- the fee, for fees below a ninth of the machine's range.
pub calculate_cast_reward_share-bound :
    (height gas_fee : ℕ)
    → 9 * gas_fee < u64_mod
    → let share = calculate_cast_reward_share height gas_fee in
      (share.for_block_proposal + share.for_block_verify + share.for_reward_tx_packing
        ≤ miner_nodes_rewards height)
      × (share.fee_for_proposer + share.fee_for_verifier ≤ gas_fee)
unfolding calculate_cast_reward_share calculate_castor_rewards calculate_packed_rewards
    calculate_verify_rewards calculate_gas_fee_verify_rewards calculate_gas_fee_castor_rewards mul64
calculate_cast_reward_share-bound height gas_fee h =
    let below = nodes_rewards-block_rewards height in
    let low = small height in (omega (arith, below, low), omega (arith, h))
