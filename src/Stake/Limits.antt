-- ===== src/Stake/Limits.antt =====
-- The numbers that height decides: core/miner_base.go (bounds of a stake, tickets, voting rounds).
pub mod Bounds
use zvchain.Base.{
  ℕ, zero, suc, ◌+◌, ◌*◌, ◌/◌, ◌-◌, ◌^◌, Bool, true, ltb, leb, ◌==◌, if◌then◌else◌, add64, mul64,
}

abbrev pub zvc : ℕ
zvc = 1000000000

abbrev pub adjust_weight_period : ℕ
adjust_weight_period = 10000000

abbrev pub min_miner_stake : ℕ
min_miner_stake = 500 * zvc

abbrev pub init_max_miner_stake_add_amount : ℕ
init_max_miner_stake_add_amount = 1000000 * zvc

abbrev pub max_miner_stake_add_adjust_period : ℕ
max_miner_stake_add_adjust_period = 30000000

abbrev pub init_max_miner_stake : ℕ
init_max_miner_stake = 2500000 * zvc

abbrev pub max_miner_stake_adjust_period : ℕ
max_miner_stake_adjust_period = 10000000

abbrev pub stake_adjust_times : ℕ
stake_adjust_times = 12

abbrev pub init_miner_pool_tickets : ℕ
init_miner_pool_tickets = 8

abbrev pub min_miner_pool_tickets : ℕ
min_miner_pool_tickets = 1

abbrev pub miner_pool_reduce_count : ℕ
miner_pool_reduce_count = 2

abbrev pub minimum_stake : ℕ
minimum_stake = min_miner_stake

-- for i := 0; i < period; i++ { canStake += initMaxMinerStakeAddAmount >> (...) }, with the rounds
-- that are left, the counter and the sum so far.
pub maximum_stake_loop : ℕ → ℕ → ℕ → ℕ
maximum_stake_loop zero i can_stake = can_stake
maximum_stake_loop (suc rounds) i can_stake = maximum_stake_loop rounds (i + 1) (
    add64 can_stake (
      init_max_miner_stake_add_amount
      / 2 ^ (i * max_miner_stake_adjust_period / max_miner_stake_add_adjust_period)))

-- The number of rounds: past the last adjustment it stays at `stake_adjust_times`.
pub stake_period : ℕ → ℕ
stake_period height =
    if ltb (stake_adjust_times * max_miner_stake_adjust_period) height
    then stake_adjust_times
    else height / max_miner_stake_adjust_period

unfoldable pub maximum_stake : ℕ → ℕ
unfolding maximum_stake_loop stake_period add64
maximum_stake height = maximum_stake_loop (stake_period height) 0 init_max_miner_stake

unfoldable pub get_valid_tickets_by_height : ℕ → ℕ
unfolding mul64
get_valid_tickets_by_height height =
    let reduce_tickets = mul64 (height / (adjust_weight_period * 3)) miner_pool_reduce_count in
    if leb init_miner_pool_tickets reduce_tickets
    then min_miner_pool_tickets
    else init_miner_pool_tickets - reduce_tickets

unfoldable pub get_full_miner_pool_stake : ℕ → ℕ
get_full_miner_pool_stake height = mul64 (maximum_stake height) (get_valid_tickets_by_height height)

unfoldable pub is_full_stake : ℕ → ℕ → Bool
is_full_stake stake height = stake == maximum_stake height

unfoldable pub check_can_vote : ℕ → ℕ → Bool
check_can_vote vote_height current_height =
    if vote_height == 0
    then true
    else ltb (vote_height / (adjust_weight_period / 2))
        (current_height / (adjust_weight_period / 2))

unfoldable pub is_full_tickets : ℕ → ℕ → Bool
is_full_tickets total_tickets height = leb (get_valid_tickets_by_height height) total_tickets
