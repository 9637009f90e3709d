-- ===== src/Tests.antt =====
-- Rewards, epochs and limits at concrete heights.
use zvchain.Base.{◌+◌, ◌*◌, ◌≤◌, ◌<◌, ◌≡◌, refl, false, ◌↔◌, arith}
use zvchain.Economy.{
  tokens_of_miners, block_rewards, user_nodes_rewards, daemon_nodes_rewards, miner_nodes_rewards,
  calculate_cast_reward_share, emission,
}
use zvchain.Economy.Emission.{emission-tokens_of_miners}
use zvchain.Economy.Shares.{nodes_rewards-block_rewards, calculate_cast_reward_share-bound}
use zvchain.Epoch.{
  start, end, epoch_at, prev, next, equal, last_create_epoch, first_create_epoch,
  activate_epoch_of_groups_created_at, dismiss_epoch_of_groups_created_at,
}
use zvchain.Epoch.Lifetime.{create_epochs-lifetime, prev-next}
use zvchain.Stake.Limits.{
  init_max_miner_stake, maximum_stake, get_valid_tickets_by_height, get_full_miner_pool_stake,
}
use zvchain.Stake.Limits.Bounds.{max_stake_cap, maximum_stake_window, full_miner_pool_stake_exact}

-- The rewards of the first block, and those of the block at `noRewardsHeight`, which are not 0.
first_rewards : block_rewards 0 ≡ 62224000000
unfolding block_rewards
first_rewards = refl

last_rewards : block_rewards 120000000 ≡ 972250000
unfolding block_rewards
last_rewards = refl

-- What stands before the first epoch does not equal itself.
genesis_equal : equal (prev (epoch_at 5)) (prev (epoch_at 5)) ≡ false
unfolding prev equal
genesis_equal = refl

emission-tokens_of_miners_example : emission 200000000 ≤ tokens_of_miners
emission-tokens_of_miners_example = emission-tokens_of_miners 200000000

nodes_rewards-block_rewards_example :
    (user_nodes_rewards 15000000 + daemon_nodes_rewards 15000000 + miner_nodes_rewards 15000000
      ≤ block_rewards 15000000)
    × (block_rewards 15000000
        ≤ user_nodes_rewards 15000000
          + daemon_nodes_rewards 15000000
          + miner_nodes_rewards 15000000
          + 2)
nodes_rewards-block_rewards_example = nodes_rewards-block_rewards 15000000

calculate_cast_reward_share-bound_example :
    let share = calculate_cast_reward_share 15000000 1000 in
    (share.for_block_proposal + share.for_block_verify + share.for_reward_tx_packing
      ≤ miner_nodes_rewards 15000000)
    × (share.fee_for_proposer + share.fee_for_verifier ≤ 1000)
calculate_cast_reward_share-bound_example =
    calculate_cast_reward_share-bound 15000000 1000 (omega arith)

create_epochs-lifetime_example :
    ((start (first_create_epoch 9000) ≤ start (epoch_at 5000))
      × (start (epoch_at 5000) < start (last_create_epoch 9000)))
    ↔ ((start (activate_epoch_of_groups_created_at 5000) ≤ 9000)
        × (9000 < start (dismiss_epoch_of_groups_created_at 5000)))
create_epochs-lifetime_example = create_epochs-lifetime 5000 9000 (omega arith) (omega arith)

prev-next_example :
    (start (next (epoch_at 1000)) ≡ end (epoch_at 1000))
    × (prev (next (epoch_at 1000)) ≡ epoch_at 1000)
prev-next_example = prev-next 1000 (omega arith)

maximum_stake_window_example :
    (init_max_miner_stake ≤ maximum_stake 1000)
    × (maximum_stake 1000 ≤ maximum_stake 20000000)
    × (maximum_stake 20000000 ≤ max_stake_cap)
maximum_stake_window_example = maximum_stake_window 1000 20000000 (omega arith)

full_miner_pool_stake_exact_example :
    (1 ≤ get_valid_tickets_by_height 40000000)
    × (get_valid_tickets_by_height 40000000 ≤ get_valid_tickets_by_height 1000)
    × (get_valid_tickets_by_height 1000 ≤ 8)
    × (get_full_miner_pool_stake 1000 ≡ maximum_stake 1000 * get_valid_tickets_by_height 1000)
full_miner_pool_stake_exact_example =
    full_miner_pool_stake_exact 1000 40000000 (omega arith) (omega arith)
