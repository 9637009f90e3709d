-- ===== src/Stake/Role.antt =====
-- `geneBaseIdentityOp` of core/miner_node.go: which of the miner classes handles a call. `BaseMiner`
-- is embedded in all but `UnSupportMiner`, so a class that does not override a method runs its.
use zvchain.Base.{ℕ, Bool, true, false, ◌&&◌, Option, none, some, leb, ◌==◌, if◌then◌else◌}
use zvchain.Stake.Types.{
  Miner, miner_type_verify, miner_normal, miner_guard, miner_pool, invalid_miner_pool,
  pks_completed,
}
use zvchain.Stake.Limits.{minimum_stake, maximum_stake, get_full_miner_pool_stake}

pub data Role : Type 0 where
  verify normal guard_node pool invalid_pool unsupported : Role

abbrev pub role_of_identity : ℕ → Role
role_of_identity i =
    if i == miner_normal
    then normal
    else if i == miner_guard
    then guard_node
    else if i == miner_pool
    then pool
    else if i == invalid_miner_pool
    then invalid_pool
    else unsupported

unfoldable pub gene_base_identity_op : ℕ → Option Miner → Role
gene_base_identity_op t target =
    if t == miner_type_verify
    then verify
    else elim target [ none ↦ normal | some m ↦ role_of_identity m.identity ]

-- `UnSupportMiner` refuses every call.
abbrev pub is_supported : Role → Bool
is_supported unsupported = false
is_supported _ = true

-- `checkLowerBound`
abbrev pub check_lower_bound : Miner → Bool
check_lower_bound m = leb minimum_stake m.stake

-- `checkCanActivate`
abbrev pub check_can_activate : Miner → Bool
check_can_activate m = pks_completed m && check_lower_bound m

-- The method `checkUpperBound` of each class.
unfoldable pub check_upper_bound : Role → Miner → ℕ → Bool
check_upper_bound pool m height = leb m.stake (get_full_miner_pool_stake height)
check_upper_bound unsupported m height = false
check_upper_bound _ m height = leb m.stake (maximum_stake height)
