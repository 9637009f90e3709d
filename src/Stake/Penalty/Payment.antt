-- ===== src/Stake/Penalty/Payment.antt =====
-- A penalty of several targets, and what it pays to those who reported them.
use zvchain.Base.{
  ℕ, ◌+◌, ◌*◌, ◌/◌, ◌%◌, ◌≤◌, ◌<◌, ◌≡◌, refl, ap, ◌∙◌, if◌then◌else◌, ==_iff, false, List, [], ◌∷◌,
  inl, inr, arith, Bool-cases, Option-cases, ltb, ◌==◌, length, u64_mod, mul64,
}
use zvchain.Base.Map.{lookup, lookup-insert, insert, sum_by, sum_by-insert, nat_key}
use zvchain.Stake.Types.{Address, miner_type_verify}
use zvchain.Stake.Db.{⊤, Db, miner_key, detail_key, when}
use zvchain.Stake.Store.{balance_of}
use zvchain.Stake.Ledger.{Miners, balance_weight, worth, stake_of, Inv, Ensures}
use zvchain.Stake.Ledger.Rules.{bind-Ensures, weaken-Ensures}
use zvchain.Stake.Ledger.Change.{Books-set_details}
use zvchain.Stake.Penalty.{
  MinerPenaltyOp, penalize, penalize_all, reward_each, reward_all, miner_penalty,
}
use zvchain.Stake.Penalty.Books.{Own, Penalized, penalize-Penalized}
use native.Mathlib.Nat.{div-mul-le_self, mod-le}

-- Each target can pay the value, and none stands twice.
abbrev pub Apart : Address → List Address → Type 0
Apart a [] = Unit {0}
Apart a (b ∷ rest) = ((b == a) ≡ false) × Apart a rest

abbrev pub Solvent : ℕ → List Address → Miners → Type 0
Solvent value [] ms = Unit {0}
Solvent value (a ∷ rest) ms =
    (value ≤ stake_of ms a miner_type_verify) × Apart a rest × Solvent value rest ms

still-Solvent :
    (value a : ℕ) (rest : List Address) (ms ms' : Miners)
    → ((b : Address)
        → (b == a) ≡ false
        → stake_of ms' b miner_type_verify ≡ stake_of ms b miner_type_verify)
    → Apart a rest
    → Solvent value rest ms
    → Solvent value rest ms'
still-Solvent value a [] ms ms' frame apart solvent = tt
still-Solvent value a (b ∷ rest) ms ms' frame (other, apart) (covered, others, solvent) =
    (rw (frame b other) covered, others, still-Solvent value a rest ms ms' frame apart solvent)

-- What an address owes, or is owed, for its places in a list.
unfoldable pub owed : ℕ → Address → List Address → ℕ
owed amount a [] = 0
owed amount a (b ∷ rest) = (if a == b then amount else 0) + owed amount a rest

-- The balances and stakes after a list of targets has paid and a list of rewarded has received.
abbrev pub Lowered : ℕ → List Address → Db → Db → Type 0
Lowered value targets d d' =
    (a : Address)
    → stake_of d'.miners a miner_type_verify + owed value a targets
      ≡ stake_of d.miners a miner_type_verify

abbrev pub Raised : ℕ → List Address → Db → Db → Type 0
Raised amount rewards d d' =
    (a : Address) → balance_of a d' ≡ balance_of a d + owed amount a rewards

abbrev AllPenalized : MinerPenaltyOp → List Address → Db → ⊤ → Db → Type 0
AllPenalized op targets d _ d' =
    Inv d'
    × Own d'
    × (worth d' + op.value * length targets ≡ worth d)
    × Lowered op.value targets d d'
    × (d'.balances ≡ d.balances)

penalize_all-AllPenalized :
    (op : MinerPenaltyOp) (targets : List Address) (d : Db)
    → Inv d
    → Own d
    → 0 < op.value
    → Solvent op.value targets d.miners
    → Ensures (AllPenalized op targets d) (penalize_all op targets d)
unfolding penalize_all owed
penalize_all-AllPenalized op [] d v own pos solvent =
    (v, own, ground arith, λ a. ground arith, refl)
penalize_all-AllPenalized op (a ∷ rest) d v own pos (covered, apart, solvent) =
    bind-Ensures (Penalized op a d) (AllPenalized op (a ∷ rest) d) (penalize op a)
      (λ _. penalize_all op rest) d (penalize-Penalized op a d v own pos covered)
      λ _ e (w, own', less, frame, bal).
        weaken-Ensures (AllPenalized op rest e) (AllPenalized op (a ∷ rest) d)
          (penalize_all op rest e)
          (penalize_all-AllPenalized op rest e w own' pos (
            still-Solvent op.value a rest d.miners e.miners
              (λ b other. ground (arith, frame b, other)) apart solvent))
          λ _ f (w', own'', less', low, bal'). (
            w',
            own'',
            ground (arith, less, less'),
            λ b. ground (arith, frame b, low b),
            bal' ∙ bal,
          )

-- The rewards go into balances, and nothing else changes.
abbrev Paid : ℕ → List Address → Db → ⊤ → Db → Type 0
Paid amount rewards d _ d' =
    Inv d'
    × Own d'
    × (worth d' ≡ worth d + amount * length rewards)
    × Raised amount rewards d d'
    × (d'.miners ≡ d.miners)

paid_one :
    (amount a : ℕ) (d : Db)
    → sum_by balance_weight (insert a (balance_of a d + amount) d.balances)
      ≡ sum_by balance_weight d.balances + amount
paid_one amount a d = ground (
  arith,
  sum_by-insert balance_weight a (balance_of a d + amount) d.balances,
  Option-cases (lookup a d.balances),
)

reward_all-Paid :
    (amount : ℕ) (rewards : List Address) (d : Db)
    → Inv d
    → Own d
    → worth d + amount * length rewards < u64_mod
    → Ensures (Paid amount rewards d) (reward_all amount rewards d)
unfolding reward_all owed
reward_all-Paid amount [] d v own fits = (v, own, ground arith, λ a. ground arith, refl)
reward_all-Paid amount (a ∷ rest) d v own fits =
    let e = record d { balances = insert a (balance_of a d + amount) d.balances } in
    let more = paid_one amount a d in
    weaken-Ensures (Paid amount rest e) (Paid amount (a ∷ rest) d) (reward_all amount rest e)
      (reward_all-Paid amount rest e
        (Books-set_details e.balances d.details v (λ b t. refl) refl v.distinct
          (omega (arith, more, fits)))
        own (omega (arith, more, fits)))
      λ _ f (w, own', paid, raised, same). (
        w,
        own',
        omega (arith, more, paid),
        λ b.
            ground
              (arith, raised b, lookup-insert b a (balance_of a d + amount) d.balances, ==_iff b a),
        same,
      )

-- No more is paid than is taken, whatever wraps around in the product.
reward_each-le :
    (op : MinerPenaltyOp) → reward_each op * length op.rewards ≤ op.value * length op.targets
unfolding reward_each mul64
reward_each-le op = omega (
  arith,
  div-mul-le_self (mul64 op.value (length op.targets)) (length op.rewards),
  mod-le (op.value * length op.targets) u64_mod,
)

-- The equal shares of what is taken, by 64-bit integers.
abbrev pub share : MinerPenaltyOp → ℕ
share op = op.value * length op.targets % u64_mod / length op.rewards

-- What a penalty does when it goes through: the books hold, verifiers own their stakes, each target
-- has lost the value, each of the rewarded has a share more, and no other stake or balance differs.
abbrev pub Punished : MinerPenaltyOp → Db → ⊤ → Db → Type 0
Punished op d _ d' =
    Inv d'
    × Own d'
    × (worth d' + op.value * length op.targets ≡ worth d + share op * length op.rewards)
    × (worth d' ≤ worth d)
    × Lowered op.value op.targets d d'
    × Raised (share op) op.rewards d d'

owed-empty :
    (amount a : ℕ) (rewards : List Address)
    → ltb 0 (length rewards) ≡ false
    → owed amount a rewards ≡ 0
unfolding owed
owed-empty amount a [] h = refl
owed-empty amount a (b ∷ rest) h = absurd (ground (arith, h))

reward-Punished :
    (op : MinerPenaltyOp) (d e : Db)
    → Inv d
    → AllPenalized op op.targets d tt e
    → Ensures
        (Punished op d)
        (when (ltb 0 (length op.rewards)) (reward_all (reward_each op) op.rewards) e)
unfolding reward_each mul64 owed
reward-Punished op d e v (w, own, less, low, bal) = elim (Bool-cases (ltb 0 (length op.rewards))) [
  | inr nobody ↦ rw nobody (w, own, nothing nobody, omega (arith, less), low, λ a. unpaid a nobody)
  | inl somebody ↦ rw somebody (
      weaken-Ensures (Paid (reward_each op) op.rewards e) (Punished op d)
        (reward_all (reward_each op) op.rewards e)
        (reward_all-Paid (reward_each op) op.rewards e w own
          (omega (arith, v.supply, less, reward_each-le op)))
        λ _ f (w', own', paid, raised, same). (
          w',
          own',
          omega (arith, less, paid),
          omega (arith, less, paid, reward_each-le op),
          λ a. rw same (low a),
          λ a. raised a ∙ rw bal refl,
        ))
]
  where
    nothing :
        ltb 0 (length op.rewards) ≡ false
        → worth e + op.value * length op.targets ≡ worth d + share op * length op.rewards
    nothing nobody =
        let empty : length op.rewards ≡ 0 = ground arith in
        omega (arith, less, ap (λ n. share op * n) empty)

    unpaid :
        (a : Address)
        → ltb 0 (length op.rewards) ≡ false
        → balance_of a e ≡ balance_of a d + owed (share op) a op.rewards
    unpaid a nobody = rw (owed-empty (share op) a op.rewards nobody, bal) (omega arith)

-- From sound books in which verifiers own their stakes, a penalty of distinct verifiers who can pay a
-- positive value never panics. When it goes through, books and ownership hold, the stake of each
-- target is lower by the value and the balance of each rewarded address is higher by an equal share,
-- rounded down, of what was taken as a 64-bit integer, for each of its places in the list. No other
-- stake of a verifier and no other balance has changed, and no token was made.
pub miner_penalty-Punished :
    (op : MinerPenaltyOp) (d : Db)
    → Inv d
    → Own d
    → 0 < op.value
    → Solvent op.value op.targets d.miners
    → Ensures (Punished op d) (miner_penalty op d)
unfolding miner_penalty
miner_penalty-Punished op d v own pos solvent =
    bind-Ensures (AllPenalized op op.targets d) (Punished op d) (penalize_all op op.targets)
      (λ _. when (ltb 0 (length op.rewards)) (reward_all (reward_each op) op.rewards)) d
      (penalize_all-AllPenalized op op.targets d v own pos solvent)
      λ _ e all. reward-Punished op d e v all
