-- ===== src/Stake/Refund/Due.antt =====
-- When exactly `stake_refund` goes through.
use zvchain.Base.{
  ℕ, ◌<◌, ◌≡◌, refl, ap, ◌↔◌, inl, inr, Option, none, some, arith, leb, true, add64, Bool-cases,
}
use zvchain.Base.Map.{lookup}
use zvchain.Stake.Types.{StakeDetail}
use zvchain.Stake.Db.{⊤, Slot, corrupt, stored, Db, Outcome, returned, detail_key, decode, ◌>>=◌}
use zvchain.Stake.Store.{get_detail, remove_detail}
use zvchain.Stake.Refund.{Forks, StakeRefundOp, frozen_key, refund_delay, pay_back, stake_refund}

abbrev pub Returns : Outcome ⊤ → Type 0
Returns o = (d : Db) × (o ≡ returned tt d)

module _ (forks : Forks) (platform : ℕ) (op : StakeRefundOp) (d : Db) where
  -- The frozen detail is there, and its delay is over.
  abbrev pub Due : Option (Slot StakeDetail) → Type 0
  Due o =
      (s : StakeDetail) × (o ≡ some (stored s))
      × (add64 s.height (refund_delay forks platform op s) < op.height)

  -- A detail that is found is the one that was stored.
  value_of : StakeDetail → Option (Slot StakeDetail) → StakeDetail
  value_of s none = s
  value_of s (some corrupt) = s
  value_of s (some (stored x)) = x

  too_early :
      (s x : StakeDetail)
      → some (stored s) ≡ some (stored x)
      → leb op.height (add64 s.height (refund_delay forks platform op s)) ≡ true
      → ¬ (add64 x.height (refund_delay forks platform op x) < op.height)
  unfolding value_of
  too_early s x found early late =
      let same : s ≡ x = ap (value_of s) found in
      let late' : add64 s.height (refund_delay forks platform op s) < op.height = rw same late in
      ground (arith, early, late')

  pay_back-Due :
      (o : Option (Slot StakeDetail))
      → Returns ((decode o >>= pay_back forks platform op) d) ↔ Due o
  unfolding pay_back remove_detail
  pay_back-Due none = ((λ (e, r). ground (arith, r)), (λ (s, found, late). ground (arith, found)))
  pay_back-Due (some corrupt) =
      ((λ (e, r). ground (arith, r)), (λ (s, found, late). ground (arith, found)))
  pay_back-Due (some (stored s)) =
      elim (Bool-cases (leb op.height (add64 s.height (refund_delay forks platform op s)))) [
        | inl early ↦ rw early (
          (λ (e, r). ground (arith, r)),
          (λ (x, found, late). absurd (too_early s x found early late)),
        )
        | inr late ↦ rw late ((λ _. (s, refl, ground (arith, late))), (λ _. (_, refl)))
      ]

-- A refund goes through exactly when a frozen detail is stored for it and its height lies above the
-- detail's height and the delay.
pub stake_refund-Due :
    (forks : Forks) (platform : ℕ) (op : StakeRefundOp) (d : Db)
    → Returns (stake_refund forks platform op d)
      ↔ Due forks platform op d (lookup (frozen_key op) d.details)
unfolding stake_refund get_detail
stake_refund-Due forks platform op d =
    pay_back-Due forks platform op d (lookup (frozen_key op) d.details)
