-- ===== src/Stake/Types.antt =====
-- The records of middleware/types/miner.go and core/miner_base.go. Bytes, addresses, heights and
-- amounts are numbers; an address is the number that its 32 bytes spell, so `Address{}` is 0.
use zvchain.Base.{ℕ, Bool, List, ◌&&◌, length, ltb, ◌==◌, if◌then◌else◌}

abbrev pub Address : Type 0
Address = ℕ

abbrev pub empty_address : Address
empty_address = 0

-- `MinerType`: a byte.
abbrev pub miner_type_verify : ℕ
miner_type_verify = 0

abbrev pub miner_type_proposal : ℕ
miner_type_proposal = 1

-- `MinerStatus`: a byte.
abbrev pub miner_status_prepare : ℕ
miner_status_prepare = 0

abbrev pub miner_status_active : ℕ
miner_status_active = 1

abbrev pub miner_status_frozen : ℕ
miner_status_frozen = 2

-- `NodeIdentity`: a byte.
abbrev pub miner_normal : ℕ
miner_normal = 0

abbrev pub miner_guard : ℕ
miner_guard = 1

abbrev pub miner_pool : ℕ
miner_pool = 2

abbrev pub invalid_miner_pool : ℕ
invalid_miner_pool = 3

abbrev pub pk_size : ℕ
pk_size = 128

abbrev pub vrf_pk_size : ℕ
vrf_pk_size = 32

-- `StakeStatus`: a byte.
abbrev pub staked : ℕ
staked = 0

abbrev pub stake_frozen : ℕ
stake_frozen = 1

abbrev pub stake_punishment : ℕ
stake_punishment = 2

pub record Miner : Type 0 where
  pub id : Address
  pub public_key : List ℕ
  pub vrf_public_key : List ℕ
  pub apply_height : ℕ
  pub stake : ℕ
  pub status_update_height : ℕ
  pub mtype : ℕ
  pub status : ℕ
  pub identity : ℕ
  pub identity_update_height : ℕ

abbrev pub is_active : Miner → Bool
is_active m = m.status == miner_status_active

abbrev pub is_frozen : Miner → Bool
is_frozen m = m.status == miner_status_frozen

abbrev pub is_prepare : Miner → Bool
is_prepare m = m.status == miner_status_prepare

abbrev pub is_guard : Miner → Bool
is_guard m = m.identity == miner_guard

abbrev pub is_miner_pool : Miner → Bool
is_miner_pool m = m.identity == miner_pool

abbrev pub pks_completed : Miner → Bool
pks_completed m = length m.public_key == pk_size && length m.vrf_public_key == vrf_pk_size

abbrev pub update_status : Miner → ℕ → ℕ → Miner
update_status m status height = record m { status_update_height = height; status = status }

abbrev pub update_identity : Miner → ℕ → ℕ → Miner
update_identity m identity height = record m {
  identity_update_height = height;
  identity = identity;
}

abbrev pub is_proposal_role : ℕ → Bool
is_proposal_role typ = typ == miner_type_proposal

abbrev pub is_verify_role : ℕ → Bool
is_verify_role typ = typ == miner_type_verify

pub record MinerPks : Type 0 where
  pub mtype : ℕ
  pub pk : List ℕ
  pub vrf_pk : List ℕ

-- `stakeDetail` of core/miner_base.go.
pub record StakeDetail : Type 0 where
  pub value : ℕ
  pub height : ℕ
  pub dis_miss_height : ℕ
  pub mark_not_full_height : ℕ

pub record VoteInfo : Type 0 where
  pub target : Address
  pub height : ℕ

abbrev pub new_vote_info : VoteInfo
new_vote_info = record { target = empty_address; height = 0 }

-- `FundGuardType` and `FundModeType`: bytes.
abbrev pub normal_node_type : ℕ
normal_node_type = 0

abbrev pub full_stake_guard_node_type : ℕ
full_stake_guard_node_type = 1

abbrev pub fund_guard_node_type : ℕ
fund_guard_node_type = 2

abbrev pub six_add_five : ℕ
six_add_five = 0

abbrev pub six_add_six : ℕ
six_add_six = 1

pub record FundGuardNode : Type 0 where
  pub ftype : ℕ
  pub height : ℕ
  pub fund_mode_type : ℕ

abbrev pub is_fund_guard : FundGuardNode → Bool
is_fund_guard f = f.ftype == fund_guard_node_type

-- `setPks`: keys that are given replace the old ones.
abbrev pub set_pks : Miner → MinerPks → Miner
set_pks m p = record m {
  public_key = if ltb 0 (length p.pk) then p.pk else m.public_key;
  vrf_public_key = if ltb 0 (length p.vrf_pk) then p.vrf_pk else m.vrf_public_key;
}
