-- ===== src/Economy.antt =====
-- How many tokens a block releases and who receives them: the constants, `blockRewards`, the shares
-- of the three kinds of nodes and the split of a miner's share of core/rewards_manager.go.
pub mod Shares
pub mod Emission
use zvchain.Base.{
  ℕ, zero, suc, ◌+◌, ◌-◌, ◌*◌, ◌/◌, ◌^◌, Bool, ltb, leb, ◌==◌, if◌then◌else◌, u64_mod, add64, sub64,
  mul64,
}

abbrev pub initial_rewards : ℕ
initial_rewards = 62224000000

abbrev pub halve_rewards_period : ℕ
halve_rewards_period = 30000000

-- In RA, of which 10^9 are one ZVC.
abbrev pub tokens_of_miners : ℕ
tokens_of_miners = 3500000000000000000

abbrev pub no_rewards_height : ℕ
no_rewards_height = 120000000

abbrev pub initial_daemon_node_weight : ℕ
initial_daemon_node_weight = 440

abbrev pub initial_miner_node_weight : ℕ
initial_miner_node_weight = 6460

abbrev pub user_node_weight : ℕ
user_node_weight = 100

abbrev pub total_node_weight : ℕ
total_node_weight = 7000

abbrev pub adjust_weight : ℕ
adjust_weight = 80

abbrev pub adjust_weight_period : ℕ
adjust_weight_period = 10000000

-- `initialRewards >> shift`, with the shift that the height gives.
unfoldable pub reward_shift : ℕ → ℕ
reward_shift height =
    height / halve_rewards_period + (if leb 1 (height / adjust_weight_period) then 2 else 0)

unfoldable pub block_rewards : ℕ → ℕ
unfolding reward_shift
block_rewards height =
    if ltb no_rewards_height height then 0 else initial_rewards / 2 ^ reward_shift height

unfoldable pub user_nodes_rewards : ℕ → ℕ
unfolding block_rewards mul64
user_nodes_rewards height =
    if block_rewards height == 0
    then 0
    else mul64 (block_rewards height) user_node_weight / total_node_weight

unfoldable pub daemon_node_weight : ℕ → ℕ
unfolding add64 mul64
daemon_node_weight height =
    add64 initial_daemon_node_weight (mul64 (height / adjust_weight_period) adjust_weight)

unfoldable pub daemon_nodes_rewards : ℕ → ℕ
unfolding block_rewards mul64 daemon_node_weight
daemon_nodes_rewards height =
    if block_rewards height == 0
    then 0
    else mul64 (block_rewards height) (daemon_node_weight height) / total_node_weight

unfoldable pub miner_nodes_weight : ℕ → ℕ
unfolding sub64 mul64
miner_nodes_weight height =
    sub64 initial_miner_node_weight (mul64 (height / adjust_weight_period) adjust_weight)

unfoldable pub miner_nodes_rewards : ℕ → ℕ
unfolding block_rewards mul64 miner_nodes_weight
miner_nodes_rewards height =
    if block_rewards height == 0
    then 0
    else if ltb total_node_weight (miner_nodes_weight height)
    then 0
    else mul64 (block_rewards height) (miner_nodes_weight height) / total_node_weight

unfoldable pub calculate_castor_rewards : ℕ → ℕ
unfolding miner_nodes_rewards mul64
calculate_castor_rewards height = mul64 (miner_nodes_rewards height) 8 / 10

unfoldable pub calculate_packed_rewards : ℕ → ℕ
unfolding miner_nodes_rewards mul64
calculate_packed_rewards height = mul64 (miner_nodes_rewards height) 1 / 10

unfoldable pub calculate_verify_rewards : ℕ → ℕ
unfolding miner_nodes_rewards mul64
calculate_verify_rewards height = mul64 (miner_nodes_rewards height) 1 / 10

unfoldable pub calculate_gas_fee_verify_rewards : ℕ → ℕ
unfolding mul64
calculate_gas_fee_verify_rewards gas_fee = mul64 gas_fee 1 / 10

unfoldable pub calculate_gas_fee_castor_rewards : ℕ → ℕ
unfolding mul64
calculate_gas_fee_castor_rewards gas_fee = mul64 gas_fee 9 / 10

-- `types.CastRewardShare`
pub record CastRewardShare : Type 0 where
  pub for_block_proposal : ℕ
  pub for_block_verify : ℕ
  pub for_reward_tx_packing : ℕ
  pub fee_for_proposer : ℕ
  pub fee_for_verifier : ℕ

unfoldable pub calculate_cast_reward_share : ℕ → ℕ → CastRewardShare
unfolding calculate_castor_rewards calculate_packed_rewards calculate_verify_rewards
    calculate_gas_fee_verify_rewards calculate_gas_fee_castor_rewards
calculate_cast_reward_share height gas_fee = record {
  for_block_proposal = calculate_castor_rewards height;
  for_block_verify = calculate_verify_rewards height;
  for_reward_tx_packing = calculate_packed_rewards height;
  fee_for_proposer = calculate_gas_fee_castor_rewards gas_fee;
  fee_for_verifier = calculate_gas_fee_verify_rewards gas_fee;
}

-- All that the blocks below a height release.
unfoldable pub emission : ℕ → ℕ
unfolding block_rewards
emission zero = 0
emission (suc n) = emission n + block_rewards n
