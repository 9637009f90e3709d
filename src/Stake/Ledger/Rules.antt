-- ===== src/Stake/Ledger/Rules.antt =====
-- Rules for the actions of the stores, in the style of a weakest precondition: to show what
-- `m >>= f` ensures, show what `f` ensures at the state that `m` leaves.
use zvchain.Base.{
  ℕ, ◌+◌, ◌-◌, ◌≡◌, refl, Bool, true, false, Option, none, some, inl, inr, ◌⊎◌, arith, Bool-cases,
  ◌≤◌, Option-cases, ltb, leb,
}
use zvchain.Base.Map.{lookup, insert, sum_by, sum_by-insert, nat_key}
use zvchain.Stake.Types.{Address, Miner, StakeDetail, is_proposal_role, is_verify_role}
use zvchain.Stake.Db.{
  Slot, corrupt, stored, DetailKey, miner_key, detail_key, Db, ⊤, M, Status, Outcome, panicked,
  update, ◌>>=◌, guard, assert, decode, failed, returned, rs_balance_not_enough,
}
use zvchain.Stake.Store.{
  miner_at, reduce_balance, get_miner, get_detail, balance_of, remove_from_pool,
  sub_proposal_total_stake,
}
use zvchain.Stake.Ledger.{balance_weight, Balances, Ensures}

-- What is stored where a read has returned `o`.
abbrev pub slot_of : {A : Type 0} → Option A → Option (Slot A)
slot_of none = none
slot_of (some a) = some (stored a)

abbrev Paid : Address → ℕ → Db → Type 0
Paid a v d =
    (reduce_balance a v d ≡ failed rs_balance_not_enough d)
    ⊎ ((bs : Balances) × (sum_by balance_weight bs + v ≡ sum_by balance_weight d.balances)
        × (reduce_balance a v d ≡ returned tt (record d { balances = bs })))

-- A payment that goes through takes its value out of the balances.
reduce_balance-Paid : (a v : ℕ) (d : Db) → Paid a v d
unfolding reduce_balance
reduce_balance-Paid a v d = elim (Bool-cases (ltb 0 v)) [
  | inr none_due ↦ inr (d.balances, ground arith, ground arith)
  | inl due ↦ elim (Bool-cases (leb v (balance_of a d))) [
    | inr short ↦ inl (ground arith)
    | inl enough ↦ inr (
      insert a (balance_of a d - v) d.balances,
      ground (
        arith,
        sum_by-insert balance_weight a (balance_of a d - v) d.balances,
        Option-cases (lookup a d.balances),
      ),
      ground arith,
    )
  ]
]

-- What a call ensures is all that its continuation needs.
outcome-Ensures :
    {A B : Type 0} (P : A → Db → Type 0) (Q : B → Db → Type 0) (o : Outcome A) (f : A → M B)
    (d : Db)
    → Ensures P o
    → ((a : A) (d' : Db) → P a d' → Ensures Q (f a d'))
    → Ensures Q (((λ _. o) >>= f) d)
outcome-Ensures P Q (returned a d') f d p k = k a d' p
outcome-Ensures P Q (failed s d') f d p k = tt
outcome-Ensures P Q panicked f d p k = elim p [ ]

pub bind-Ensures :
    {A B : Type 0} (P : A → Db → Type 0) (Q : B → Db → Type 0) (m : M A) (f : A → M B) (d : Db)
    → Ensures P (m d)
    → ((a : A) (d' : Db) → P a d' → Ensures Q (f a d'))
    → Ensures Q ((m >>= f) d)
bind-Ensures P Q m f d p k = outcome-Ensures P Q (m d) f d p k

pub weaken-Ensures :
    {A : Type 0} (P Q : A → Db → Type 0) (o : Outcome A)
    → Ensures P o
    → ((a : A) (d : Db) → P a d → Q a d)
    → Ensures Q o
weaken-Ensures P Q (returned a d) p k = k a d p
weaken-Ensures P Q (failed s d) p k = tt
weaken-Ensures P Q panicked p k = p

module _ {B : Type 0} (Q : B → Db → Type 0) where
  pub guard-Ensures :
      (b : Bool) (s : Status) (f : ⊤ → M B) (d : Db)
      → (b ≡ true → Ensures Q (f tt d))
      → Ensures Q ((guard b s >>= f) d)
  guard-Ensures true s f d k = k refl
  guard-Ensures false s f d k = tt

  pub assert-Ensures :
      (b : Bool) (f : ⊤ → M B) (d : Db)
      → b ≡ true
      → Ensures Q (f tt d)
      → Ensures Q ((assert b >>= f) d)
  assert-Ensures b f d e k = rw e k

  pub decode-Ensures :
      {A : Type 0} (o : Option (Slot A)) (f : Option A → M B) (d : Db)
      → ((r : Option A) → o ≡ slot_of r → Ensures Q (f r d))
      → Ensures Q ((decode o >>= f) d)
  decode-Ensures none f d k = k none refl
  decode-Ensures (some corrupt) f d k = tt
  decode-Ensures (some (stored a)) f d k = k (some a) refl

  pub get_miner-Ensures :
      (a t : ℕ) (f : Option Miner → M B) (d : Db)
      → ((r : Option Miner) → lookup (miner_at a t) d.miners ≡ slot_of r → Ensures Q (f r d))
      → Ensures Q ((get_miner a t >>= f) d)
  unfolding get_miner
  get_miner-Ensures a t f d k = decode-Ensures (lookup (miner_at a t) d.miners) f d k

  pub get_detail-Ensures :
      (key : DetailKey) (f : Option StakeDetail → M B) (d : Db)
      → ((r : Option StakeDetail) → lookup key d.details ≡ slot_of r → Ensures Q (f r d))
      → Ensures Q ((get_detail key >>= f) d)
  unfolding get_detail
  get_detail-Ensures key f d k = decode-Ensures (lookup key d.details) f d k

  pub reduce_balance-Ensures :
      (a v : ℕ) (f : ⊤ → M B) (d : Db)
      → ((bs : Balances)
          → sum_by balance_weight bs + v ≡ sum_by balance_weight d.balances
          → Ensures Q (f tt (record d { balances = bs })))
      → Ensures Q ((reduce_balance a v >>= f) d)
  reduce_balance-Ensures a v f d k = elim (reduce_balance-Paid a v d) [
    | inl short ↦ rw (short, ◌>>=◌) tt
    | inr (bs, taken, e) ↦ rw (e, ◌>>=◌) (k bs taken)
  ]

pub sub_proposal_total_stake_lem :
    (stake : ℕ) (d : Db)
    → stake ≤ d.proposal_total
    → sub_proposal_total_stake stake d
      ≡ returned tt (record d { proposal_total = d.proposal_total - stake })
unfolding sub_proposal_total_stake
sub_proposal_total_stake_lem stake d le = ground arith

-- A proposer leaves the pool with its stake, and no other total changes for a verifier.
pub remove_from_pool_proposal :
    (t a stake : ℕ) (d : Db)
    → is_proposal_role t ≡ true
    → stake ≤ d.proposal_total
    → remove_from_pool t a stake d
      ≡ returned tt (record d {
        proposal_total = d.proposal_total - stake;
        proposal_pool = update d.proposal_pool a false;
      })
unfolding remove_from_pool
remove_from_pool_proposal t a stake d p le =
    rw (p, sub_proposal_total_stake_lem stake d le, ◌>>=◌) (rw p)

pub remove_from_pool_other :
    (t a stake : ℕ) (d : Db)
    → is_proposal_role t ≡ false
    → (vp : ℕ → Bool) × (nk : Bool) × (remove_from_pool t a stake d
        ≡ returned tt (record d { verifier_pool = vp; nil_pool_key = nk }))
unfolding remove_from_pool
remove_from_pool_other t a stake d p = elim (Bool-cases (is_verify_role t)) [
  | inl verifier ↦ (update d.verifier_pool a false, d.nil_pool_key, rw (p, verifier))
  | inr neither ↦ (d.verifier_pool, false, rw (p, neither))
]
