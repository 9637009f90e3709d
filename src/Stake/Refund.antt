-- ===== src/Stake/Refund.antt =====
-- `stakeRefundOp` of core/miner_operation.go: a frozen stake is paid back once its delay is over.
-- `IsZIP003` and `IsZIP004` of params/config.go are the tests of a height against these constants
-- of the main net's configuration.
pub mod Books
pub mod Due
use zvchain.Base.{
  ℕ, Bool, true, false, not, ◌&&◌, Option, none, some, leb, ◌==◌, if◌then◌else◌, add64,
}
use zvchain.Stake.Types.{Address, StakeDetail, stake_frozen}
use zvchain.Stake.Db.{
  rs_fail, rs_miner_refund_height_not_enough, DetailKey, ⊤, M, fail, ◌>>=◌, ◌>>◌, guard,
}
use zvchain.Stake.Store.{detail_at, get_detail, remove_detail, add_balance}

-- A day has 28,800 blocks of 3 seconds.
abbrev pub refund_deadline_two_days : ℕ
refund_deadline_two_days = 57600

abbrev pub refund_deadline_ninety_days : ℕ
refund_deadline_ninety_days = 2592000

-- The transaction's fields after `ParseTransaction`; the two tests are the chain configuration's.
pub record StakeRefundOp : Type 0 where
  pub height : ℕ
  pub refund_target : Address
  pub refund_source : Address
  pub miner_type : ℕ

-- The heights at which the chain's configuration switches the two rules on.
pub record Forks : Type 0 where
  pub zip003 : ℕ
  pub zip004 : ℕ

abbrev pub is_zip003 : Forks → ℕ → Bool
is_zip003 forks h = leb forks.zip003 h

abbrev pub is_zip004 : Forks → ℕ → Bool
is_zip004 forks h = leb forks.zip004 h

-- `platform` is `StakePlatformAddr()`, which the address manager contract may set.
abbrev pub refund_delay : Forks → Address → StakeRefundOp → StakeDetail → ℕ
refund_delay forks platform op frozen =
    if is_zip004 forks op.height
    then refund_deadline_two_days
    else if is_zip003 forks frozen.height && not (op.refund_source == platform)
    then refund_deadline_ninety_days
    else refund_deadline_two_days

abbrev pub frozen_key : StakeRefundOp → DetailKey
frozen_key op = detail_at op.refund_target op.refund_source op.miner_type stake_frozen

unfoldable pub pay_back : Forks → Address → StakeRefundOp → Option StakeDetail → M ⊤
unfolding add64 remove_detail
pay_back forks platform op none = fail rs_fail
pay_back forks platform op (some frozen) = do
  guard (not (leb op.height (add64 frozen.height (refund_delay forks platform op frozen))))
      rs_miner_refund_height_not_enough
  remove_detail (frozen_key op)
  add_balance op.refund_source frozen.value

-- `stakeRefundOp.Transition`
unfoldable pub stake_refund : Forks → Address → StakeRefundOp → M ⊤
unfolding get_detail pay_back
stake_refund forks platform op = do
  frozen ← get_detail (frozen_key op)
  pay_back forks platform op frozen
