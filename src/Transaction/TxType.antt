-- ===== src/Transaction/TxType.antt =====
-- The types of transactions, middleware/types/core.go: the byte of each int8.
use zvchain.Base.{ℕ}

abbrev pub transfer : ℕ
transfer = 0

abbrev pub contract_create : ℕ
contract_create = 1

abbrev pub contract_call : ℕ
contract_call = 2

abbrev pub stake_add : ℕ
stake_add = 3

abbrev pub miner_abort : ℕ
miner_abort = 4

abbrev pub stake_reduce : ℕ
stake_reduce = 5

abbrev pub stake_refund : ℕ
stake_refund = 6

abbrev pub apply_guard_miner : ℕ
apply_guard_miner = 7

abbrev pub vote_miner_pool : ℕ
vote_miner_pool = 8

abbrev pub change_fund_guard_mode : ℕ
change_fund_guard_mode = 9

abbrev pub blacklist_update : ℕ
blacklist_update = 10

abbrev pub group_piece : ℕ
group_piece = 101

abbrev pub group_mpk : ℕ
group_mpk = 102

abbrev pub group_origin_piece : ℕ
group_origin_piece = 103

abbrev pub reward : ℕ
reward = 104
