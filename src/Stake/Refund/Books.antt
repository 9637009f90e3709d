-- ===== src/Stake/Refund/Books.antt =====
-- `stake_refund` keeps the books and pays out exactly what was frozen.
use zvchain.Base.{ℕ, ◌+◌, ◌≡◌, ◌<◌, refl, Option, none, some, arith, add64, Option-cases}
use zvchain.Base.Map.{lookup, lookup-insert, lookup-erase, insert, erase, sum_by-insert, nat_key}
use zvchain.Stake.Types.{Address, StakeDetail}
use zvchain.Stake.Db.{⊤, stored, Db, detail_key, miner_key, ◌>>◌}
use zvchain.Stake.Store.{remove_detail, add_balance, balance_of}
use zvchain.Stake.Ledger.{
  worth, worth_of, balance_weight, is_circulating, is_staked_for, is_proposal_staked, Balances, Inv,
  Books, Ensures, Details,
}
use zvchain.Stake.Ledger.Rules.{slot_of, guard-Ensures, get_detail-Ensures}
use zvchain.Stake.Ledger.Details.{Less, erase-Less}
use zvchain.Stake.Ledger.Change.{Books-set_details}
use zvchain.Stake.Refund.{Forks, StakeRefundOp, frozen_key, refund_delay, pay_back, stake_refund}

-- The effect of a refund that goes through.
abbrev pub Refunded : Forks → Address → StakeRefundOp → Db → ⊤ → Db → Type 0
Refunded forks platform op d _ d' =
    Inv d'
    × (worth d' ≡ worth d)
    × (s : StakeDetail) × (lookup (frozen_key op) d.details ≡ some (stored s))
    × (add64 s.height (refund_delay forks platform op s) < op.height)
    × (balance_of op.refund_source d' ≡ balance_of op.refund_source d + s.value)
    × (lookup (frozen_key op) d'.details ≡ none)

module _ (forks : Forks) (platform : ℕ) (op : StakeRefundOp) (d : Db) (v : Inv d) where
  left : Details
  left = erase (frozen_key op) d.details

  paid : ℕ → Balances
  paid value = insert op.refund_source (balance_of op.refund_source d + value) d.balances

  -- Taking the detail away and paying its value moves no staked value.
  paid-Books :
      (s : StakeDetail)
      → lookup (frozen_key op) d.details ≡ some (stored s)
      → Books (paid s.value) d.miners left d.proposal_total
        × (worth_of (paid s.value) left ≡ worth d)
  unfolding left paid
  paid-Books s found = (
    Books-set_details (paid s.value) left v (λ a t. ground (arith, less.1 (is_staked_for a t)))
        (ground (arith, less.1 is_proposal_staked)) less.0 (rw same v.supply),
    same,
  )
    where
      less : Less (frozen_key op) s.value d.details left
      less = erase-Less (frozen_key op) s.value s d.details v.distinct found refl

      same : worth_of (paid s.value) left ≡ worth d
      same = ground (
        arith,
        less.1 is_circulating,
        sum_by-insert balance_weight op.refund_source (balance_of op.refund_source d + s.value)
            d.balances,
        Option-cases (lookup op.refund_source d.balances),
      )

  pay_back-Refunded :
      (o : Option StakeDetail)
      → lookup (frozen_key op) d.details ≡ slot_of o
      → Ensures (Refunded forks platform op d) (pay_back forks platform op o d)
  unfolding pay_back remove_detail left paid
  pay_back-Refunded none found = tt
  pay_back-Refunded (some s) found =
      guard-Ensures (Refunded forks platform op d) _ _
        (λ _. remove_detail (frozen_key op) >> add_balance op.refund_source s.value) d
        λ late.
          let (books, same) = paid-Books s found in
          (
            books,
            same,
            s,
            found,
            ground arith,
            ground (
              arith,
              lookup-insert op.refund_source op.refund_source
                  (balance_of op.refund_source d + s.value) d.balances,
            ),
            ground (arith, lookup-erase (frozen_key op) (frozen_key op) d.details),
          )

-- A refund that goes through keeps the books and the tokens in circulation, happens only above the
-- height of the last reduction and the delay, pays the source exactly the frozen value and removes
-- the frozen detail, so that it is not paid twice; from sound books the call never panics.
pub stake_refund-Refunded :
    (forks : Forks) (platform : ℕ) (op : StakeRefundOp) (d : Db)
    → Inv d
    → Ensures (Refunded forks platform op d) (stake_refund forks platform op d)
unfolding stake_refund
stake_refund-Refunded forks platform op d v =
    get_detail-Ensures (Refunded forks platform op d) (frozen_key op) (pay_back forks platform op) d
      (pay_back-Refunded forks platform op d v)
