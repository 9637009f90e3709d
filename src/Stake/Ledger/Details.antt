-- ===== src/Stake/Ledger/Details.antt =====
-- Rules for the two ways in which a detail changes: it loses a value, or gains one.
use zvchain.Base.{ℕ, ◌+◌, ◌-◌, ◌≤◌, ◌≡◌, Bool, true, Option, none, some, arith, if◌then◌else◌}
use zvchain.Base.Map.{
  lookup, insert, erase, sum_by, sum_by-insert, sum_by-erase, insert-Distinct, erase-Distinct,
  weight_at-le, Distinct,
}
use zvchain.Stake.Types.{StakeDetail}
use zvchain.Stake.Db.{stored, DetailKey, detail_key}
use zvchain.Stake.Ledger.{Details, weigh}
use zvchain.Stake.Ledger.Rules.{slot_of}

-- The value that a read has found.
abbrev pub value_in : Option StakeDetail → ℕ
value_in none = 0
value_in (some s) = s.value

-- After `ds` has lost, or gained, a value at a key.
abbrev pub Less : DetailKey → ℕ → Details → Details → Type 0
Less key v ds ds' =
    Distinct ds'
    × ((c : DetailKey → Bool)
        → sum_by (weigh c) ds' + (if c key then v else 0) ≡ sum_by (weigh c) ds)

abbrev pub More : DetailKey → ℕ → Details → Details → Type 0
More key v ds ds' =
    Distinct ds'
    × ((c : DetailKey → Bool)
        → sum_by (weigh c) ds' ≡ sum_by (weigh c) ds + (if c key then v else 0))

pub insert-Less :
    (key : DetailKey) (v : ℕ) (old s : StakeDetail) (ds : Details)
    → Distinct ds
    → lookup key ds ≡ some (stored old)
    → v ≤ old.value
    → s.value ≡ old.value - v
    → Less key v ds (insert key (stored s) ds)
insert-Less key v old s ds dist found le e = (
  insert-Distinct key (stored s) ds dist,
  λ c. ground (arith, sum_by-insert (weigh c) key (stored s) ds),
)

pub erase-Less :
    (key : DetailKey) (v : ℕ) (old : StakeDetail) (ds : Details)
    → Distinct ds
    → lookup key ds ≡ some (stored old)
    → v ≡ old.value
    → Less key v ds (erase key ds)
erase-Less key v old ds dist found e =
    (erase-Distinct key ds dist, λ c. ground (arith, sum_by-erase (weigh c) key ds dist))

pub insert-More :
    (key : DetailKey) (v : ℕ) (o : Option StakeDetail) (s : StakeDetail) (ds : Details)
    → Distinct ds
    → lookup key ds ≡ slot_of o
    → s.value ≡ value_in o + v
    → More key v ds (insert key (stored s) ds)
insert-More key v none s ds dist found e = (
  insert-Distinct key (stored s) ds dist,
  λ c. ground (arith, sum_by-insert (weigh c) key (stored s) ds),
)
insert-More key v (some old) s ds dist found e = (
  insert-Distinct key (stored s) ds dist,
  λ c. ground (arith, sum_by-insert (weigh c) key (stored s) ds),
)

-- A detail that counts holds no more than all that count.
pub value_in-le :
    (key : DetailKey) (c : DetailKey → Bool) (o : Option StakeDetail) (ds : Details)
    → lookup key ds ≡ slot_of o
    → c key ≡ true
    → value_in o ≤ sum_by (weigh c) ds
value_in-le key c none ds found h = omega arith
value_in-le key c (some s) ds found h = ground (arith, weight_at-le (weigh c) key ds)
