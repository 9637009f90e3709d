-- ===== src/Stake/Withdrawal.antt =====
-- A reduction followed by a refund: what has been taken out of a stake can be withdrawn.
use zvchain.Base.{ℕ, ◌+◌, ◌<◌, ◌≡◌, ◌≤◌, Bool, arith, u64_mod, add64}
use zvchain.Stake.Types.{Address, StakeDetail}
use zvchain.Stake.Db.{Db, returned, detail_key}
use zvchain.Stake.Ledger.{Inv}
use zvchain.Stake.Reduce.{StakeReduceOp, stake_reduce}
use zvchain.Stake.Reduce.Books.{Reduced, stake_reduce-Reduced}
use zvchain.Stake.Refund.{
  Forks, StakeRefundOp, refund_delay, refund_deadline_ninety_days, stake_refund,
}
use zvchain.Stake.Refund.Due.{Returns, stake_refund-Due}

-- The refund of what a reduction has frozen, at a later height.
abbrev pub refund_of : StakeReduceOp → ℕ → StakeRefundOp
refund_of op height = record {
  height = height;
  refund_target = op.cancel_target;
  refund_source = op.cancel_source;
  miner_type = op.miner_type;
}

delay-le :
    (forks : Forks) (platform : ℕ) (op : StakeRefundOp) (s : StakeDetail)
    → refund_delay forks platform op s ≤ refund_deadline_ninety_days
delay-le forks platform op s = ground arith

Reduced-Due :
    (forks : Forks) (platform : ℕ) (op : StakeReduceOp) (d d' : Db) (height : ℕ)
    → op.height + refund_deadline_ninety_days < height
    → height < u64_mod
    → Reduced op d tt d'
    → Returns (stake_refund forks platform (refund_of op height) d')
unfolding add64
Reduced-Due forks platform op d d' height late small (_, _, _, (s, found, at, _)) =
    (stake_refund-Due forks platform (refund_of op height) d').1 (s, found, over)
  where
    over : add64 s.height (refund_delay forks platform (refund_of op height) s) < height
    over = omega (arith, at, delay-le forks platform (refund_of op height) s)

-- Once a reduction has gone through on sound books, its refund goes through on the state that it has
-- left, at every uint64 height more than ninety days above it, whatever the forks and the platform.
pub stake_refund-stake_reduce :
    (forks : Forks) (platform : ℕ) (in_no_group : ℕ → Address → Bool) (op : StakeReduceOp)
    (d d' : Db) (height : ℕ)
    → Inv d
    → stake_reduce in_no_group op d ≡ returned tt d'
    → op.height + refund_deadline_ninety_days < height
    → height < u64_mod
    → Returns (stake_refund forks platform (refund_of op height) d')
stake_refund-stake_reduce forks platform in_no_group op d d' height v e late small =
    Reduced-Due forks platform op d d' height late small
      (rw e at (stake_reduce-Reduced in_no_group op d v))
