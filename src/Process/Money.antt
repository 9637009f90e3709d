-- ===== src/Process/Money.antt =====
-- What payments do to the tokens in circulation and to the books of staking.
use zvchain.Base.{
  ℕ, ◌+◌, ◌-◌, ◌<◌, ◌≤◌, ◌≡◌, refl, Bool-cases, leb→le, ◌==◌, inl, inr, arith, if◌then◌else◌,
  u64_mod,
}
use zvchain.Base.Map.{
  lookup, insert, weight_at, lookup-insert, sum_by-insert, weight_at-le, nat_key,
}
use zvchain.Stake.Types.{Address}
use zvchain.Stake.Db.{Db}
use zvchain.Stake.Store.{balance_of, can_transfer, need_transfer}
use zvchain.Stake.Ledger.{Balances, balance_weight, worth, worth_of, Inv}
use zvchain.Process.Transition.{credit, debit, transfer, run_transfer, Ending, fine, erred, panic}

balance-weight :
    (a : Address) (d : Db) → balance_of a d ≡ weight_at balance_weight a (lookup a d.balances)
balance-weight a d = ground arith

pub balance_of-le-worth : (a : Address) (d : Db) → balance_of a d ≤ worth d
balance_of-le-worth a d =
    omega (arith, balance-weight a d, weight_at-le balance_weight a d.balances)

pub worth-credit : (a : Address) (n : ℕ) (d : Db) → worth (credit a n d) ≡ worth d + n
unfolding credit
worth-credit a n d =
    omega
      (arith, balance-weight a d, sum_by-insert balance_weight a (balance_of a d + n) d.balances)

pub worth-debit :
    (a : Address) (n : ℕ) (d : Db) → n ≤ balance_of a d → worth (debit a n d) + n ≡ worth d
unfolding debit
worth-debit a n d h =
    omega
      (arith, balance-weight a d, sum_by-insert balance_weight a (balance_of a d - n) d.balances)

-- Balances alone change, and the tokens still fit.
balances-Inv :
    (bs : Balances) (d : Db)
    → Inv d
    → worth_of bs d.details < u64_mod
    → Inv (record d { balances = bs })
balances-Inv bs d v h = record {
  total_active = v.total_active;
  proposals = v.proposals;
  backed = v.backed;
  distinct = v.distinct;
  keyed = v.keyed;
  supply = h;
}

pub credit-Inv : (a : Address) (n : ℕ) (d : Db) → Inv d → worth d + n < u64_mod → Inv (credit a n d)
unfolding credit
credit-Inv a n d v h =
    balances-Inv (insert a (balance_of a d + n) d.balances) d v (omega (arith, worth-credit a n d))

pub debit-Inv : (a : Address) (n : ℕ) (d : Db) → n ≤ balance_of a d → Inv d → Inv (debit a n d)
unfolding debit
debit-Inv a n d l v =
    balances-Inv (insert a (balance_of a d - n) d.balances) d v
      (omega (arith, worth-debit a n d l, v.supply))

-- A payment that goes through keeps the books and the tokens, and it never panics.
abbrev pub Pays : Db → Ending → Type 0
Pays d (fine d') = Inv d' × (worth d' ≡ worth d)
Pays d (erred d') = Unit {0}
Pays d panic = ⊥

pub run_transfer-Pays :
    (source target : Address) (value : ℕ) (d : Db)
    → Inv d
    → Pays d (run_transfer source target value d)
unfolding run_transfer transfer
run_transfer-Pays source target value d v = elim (Bool-cases (need_transfer value)) [
  | inl n ↦ elim (Bool-cases (can_transfer source value d)) [
    | inl c ↦
        let l = leb→le value (balance_of source d) c in
        let w = worth-debit source value d l in
        let total = worth-credit target value (debit source value d) in
        rw (n, c)
          (
            credit-Inv target value (debit source value d) (debit-Inv source value d l v)
                (omega (arith, w, v.supply)),
            omega (arith, total, w),
          )
    | inr c ↦ rw (n, c) tt
  ]
  | inr n ↦ rw n (v, refl)
]

pub balance_of-credit :
    (a b : Address) (n : ℕ) (d : Db)
    → balance_of a (credit b n d) ≡ (if a == b then balance_of b d + n else balance_of a d)
unfolding credit
balance_of-credit a b n d = ground (arith, lookup-insert a b (balance_of b d + n) d.balances)

pub balance_of-debit :
    (a b : Address) (n : ℕ) (d : Db)
    → balance_of a (debit b n d) ≡ (if a == b then balance_of b d - n else balance_of a d)
unfolding debit
balance_of-debit a b n d = ground (arith, lookup-insert a b (balance_of b d - n) d.balances)
