-- ===== src/Stake/Penalty/Books.antt =====
-- A penalty keeps the books, and pays out no more than it takes.
use zvchain.Base.{
  ℕ, ◌+◌, ◌-◌, ◌≤◌, ◌<◌, ◌≡◌, refl, sym, ◌∙◌, Bool, false, not, ◌&&◌, Option, none, some, inl, inr,
  arith, Bool-cases, ltb, ◌==◌, if◌then◌else◌,
}
use zvchain.Base.Map.{
  lookup, lookup-insert, insert, insert-Distinct, erase, sum_by, sum_by-insert, sum_by-only,
  weight_at, nat_key,
}
use zvchain.Stake.Types.{
  Address, Miner, StakeDetail, miner_type_verify, miner_status_frozen, staked, is_verify_role,
  is_proposal_role, update_status,
}
use zvchain.Stake.Db.{⊤, stored, Db, DetailKey, miner_key, detail_key, ◌>>◌, ◌>>=◌, assert, rs_fail}
use zvchain.Stake.Store.{miner_at, set_miner, get_detail, set_detail, remove_detail}
use zvchain.Stake.Ledger.{
  Details, active_stake, weigh, worth, worth_of, stake_of, is_circulating, staked_for,
  is_staked_for, proposal_staked, is_proposal_staked, Inv, Books, Ensures,
}
use zvchain.Stake.Ledger.Rules.{
  slot_of, guard-Ensures, assert-Ensures, bind-Ensures, get_miner-Ensures, get_detail-Ensures,
}
use zvchain.Stake.Ledger.Details.{value_in, Less, insert-Less, erase-Less}
use zvchain.Stake.Ledger.Change.{Books-set_miner}
use zvchain.Stake.Ledger.Pools.{with_pools, leave_pool, leave_pool-Ensures}
use zvchain.Stake.Penalty.{
  MinerPenaltyOp, own_key, punishment_key, punished_detail, add_punishment, take_stake,
  take_details, penalize_miner, penalize,
}

-- The stake of a verifier for itself.
abbrev pub is_own : Address → DetailKey → Bool
is_own a k = is_staked_for a miner_type_verify k && k.source == a

-- All that is staked for a verifier, it has staked itself: nobody else may (`checkStakeAdd`).
abbrev pub Own : Db → Type 0
Own d =
    (a : Address)
    → sum_by (staked_for a miner_type_verify) d.details ≡ sum_by (weigh (is_own a)) d.details

-- What a penalty of one target does: the books hold, verifiers still own their stakes, the value has
-- left circulation and the target's stake, and no other verifier's stake or balance has changed.
abbrev pub Penalized : MinerPenaltyOp → Address → Db → ⊤ → Db → Type 0
Penalized op a d _ d' =
    Inv d'
    × Own d'
    × (worth d' + op.value ≡ worth d)
    × ((b : Address)
        → stake_of d'.miners b miner_type_verify + (if b == a then op.value else 0)
          ≡ stake_of d.miners b miner_type_verify)
    × (d'.balances ≡ d.balances)

module _ (op : MinerPenaltyOp) (a : Address) (d : Db) (v : Inv d) (own : Own d) where
  -- The state once the record and the punishment detail are written.
  noted : Miner → (ℕ → Bool) → (ℕ → Bool) → Bool → ℕ → StakeDetail → Db
  noted m pp vp nk total s = record (with_pools d total pp vp nk) {
    miners = insert (miner_at m.id m.mtype) (stored m) d.miners;
    details = insert (punishment_key op a) (stored s) d.details;
  }

  -- A punishment counts nowhere.
  hidden :
      (s : StakeDetail) (c : DetailKey → Bool)
      → c (punishment_key op a) ≡ false
      → sum_by (weigh c) (insert (punishment_key op a) (stored s) d.details)
        ≡ sum_by (weigh c) d.details
  hidden s c h = ground (arith, sum_by-insert (weigh c) (punishment_key op a) (stored s) d.details)

  taken_Books :
      (m : Miner) (total : ℕ) (s : StakeDetail) (ds : Details)
      → (m.id ≡ a) × (m.mtype ≡ miner_type_verify)
      → m.stake + op.value ≡ stake_of d.miners a miner_type_verify
      → Less (own_key a staked) op.value (insert (punishment_key op a) (stored s) d.details) ds
      → total ≡ d.proposal_total
      → Books d.balances (insert (miner_at m.id m.mtype) (stored m) d.miners) ds total
        × (worth_of d.balances ds + op.value ≡ worth d)
  taken_Books m total s ds at stake_eq (dist, less) total_eq = (
    Books-set_miner d.balances ds total m v each all dist tot (omega (arith, same, v.supply)),
    same,
  )
    where
      same : worth_of d.balances ds + op.value ≡ worth d
      same = ground (arith, less is_circulating, hidden s is_circulating)

      each :
          (b t : ℕ)
          → let hit = b == m.id && t == m.mtype in
            sum_by (staked_for b t) ds + (if hit then stake_of d.miners m.id m.mtype else 0)
            ≡ sum_by (staked_for b t) d.details + (if hit then m.stake else 0)
      each b t = ground (arith, less (is_staked_for b t), hidden s (is_staked_for b t))

      all :
          sum_by proposal_staked ds
            + (if is_proposal_role m.mtype then stake_of d.miners m.id m.mtype else 0)
          ≡ sum_by proposal_staked d.details + (if is_proposal_role m.mtype then m.stake else 0)
      all = ground (arith, less is_proposal_staked, hidden s is_proposal_staked)

      tot :
          total
            + weight_at active_stake
                (miner_at m.id m.mtype)
                (lookup (miner_at m.id m.mtype) d.miners)
          ≡ d.proposal_total + active_stake (miner_at m.id m.mtype) (stored m)
      tot = ground arith

  only_own :
      sum_by (weigh (is_own a)) d.details
      ≡ weight_at (weigh (is_own a)) (own_key a staked) (lookup (own_key a staked) d.details)
  only_own =
      sum_by-only (weigh (is_own a)) (own_key a staked) d.details v.distinct
        (λ k s e. ground (arith, e))

  -- The verifier's own detail holds all of its stake.
  own_value :
      (o : Option StakeDetail)
      → lookup (own_key a staked) d.details ≡ slot_of o
      → value_in o ≡ stake_of d.miners a miner_type_verify
  own_value none found = ground (arith, found, v.backed a miner_type_verify, own a, only_own)
  own_value (some s) found = ground (arith, found, v.backed a miner_type_verify, own a, only_own)

  noted_lookup :
      (s : StakeDetail)
      → lookup (own_key a staked) (insert (punishment_key op a) (stored s) d.details)
        ≡ lookup (own_key a staked) d.details
  noted_lookup s =
      ground (arith, lookup-insert (own_key a staked) (punishment_key op a) (stored s) d.details)

  Q : ⊤ → Db → Type 0
  Q = Penalized op a d

  -- What is known of the record that is written.
  abbrev Lowered : Miner → ℕ → Type 0
  Lowered m total =
      ((m.id ≡ a) × (m.mtype ≡ miner_type_verify))
      × (m.stake + op.value ≡ stake_of d.miners a miner_type_verify)
      × (total ≡ d.proposal_total)

  taken-Penalized :
      (m : Miner) (pp vp : ℕ → Bool) (nk : Bool) (total : ℕ) (s : StakeDetail) (ds : Details)
      → Lowered m total
      → Less (own_key a staked) op.value (insert (punishment_key op a) (stored s) d.details) ds
      → Q tt (record (noted m pp vp nk total s) { details = ds })
  unfolding Q noted
  taken-Penalized m pp vp nk total s ds (at, stake_eq, total_eq) less =
      let (books, same) = taken_Books m total s ds at stake_eq less total_eq in
      (
        books,
        (λ b. ground (
          arith,
          own b,
          less.1 (is_staked_for b miner_type_verify),
          less.1 (is_own b),
          hidden s (is_staked_for b miner_type_verify),
          hidden s (is_own b),
        )),
        same,
        λ b. ground (
          arith,
          at,
          stake_eq,
          lookup-insert (miner_at b miner_type_verify) (miner_at m.id m.mtype) (stored m) d.miners,
        ),
        refl,
      )

  take_stake-Penalized :
      (m : Miner) (pp vp : ℕ → Bool) (nk : Bool) (total : ℕ) (s : StakeDetail)
      (o : Option StakeDetail)
      → Lowered m total
      → 0 < op.value
      → lookup (own_key a staked) d.details ≡ slot_of o
      → Ensures Q (take_stake op a o (noted m pp vp nk total s))
  unfolding take_stake set_detail remove_detail noted
  take_stake-Penalized m pp vp nk total s none low pos found = ground (arith, own_value none found)
  take_stake-Penalized m pp vp nk total s (some old) low pos found =
      let own_eq = own_value (some old) found in
      let before = noted_lookup s in
      let dist = insert-Distinct (punishment_key op a) (stored s) d.details v.distinct in
      elim (Bool-cases (ltb op.value old.value)) [
        | inl more ↦ rw more (
            taken-Penalized m pp vp nk total s
              (insert (own_key a staked)
                (stored (record old { value = old.value - op.value; height = op.height }))
                (insert (punishment_key op a) (stored s) d.details))
              low
              (insert-Less (own_key a staked) op.value old
                (record old { value = old.value - op.value; height = op.height })
                (insert (punishment_key op a) (stored s) d.details) dist (before ∙ found)
                (ground arith) refl))
        | inr all_of_it ↦
            rw (all_of_it, covered old own_eq low)
              (taken-Penalized m pp vp nk total s
                (erase (own_key a staked) (insert (punishment_key op a) (stored s) d.details)) low
                (erase-Less (own_key a staked) op.value old
                  (insert (punishment_key op a) (stored s) d.details) dist (before ∙ found)
                  (ground (arith, own_eq, low))))
      ]
    where
      covered :
          (old : StakeDetail)
          → old.value ≡ stake_of d.miners a miner_type_verify
          → Lowered m total
          → ltb 0 (op.value - old.value) ≡ false
      covered old e l = ground (arith, e, l)

  take_details-Penalized :
      (m : Miner) (pp vp : ℕ → Bool) (nk : Bool) (total : ℕ)
      → Lowered m total
      → 0 < op.value
      → Ensures Q (
          take_details op a (record (with_pools d total pp vp nk) {
            miners = insert (miner_at m.id m.mtype) (stored m) d.miners;
          }))
  unfolding take_details add_punishment set_detail noted
  take_details-Penalized m pp vp nk total low pos =
      bind-Ensures Noted Q (add_punishment op a)
        (λ _. get_detail (own_key a staked) >>= take_stake op a) written
        (get_detail-Ensures Noted (punishment_key op a)
          (λ o. set_detail (punishment_key op a) (punished_detail op o)) written
          λ o at. (punished_detail op o, refl))
        λ _ e (s, same). rw same (
          get_detail-Ensures Q (own_key a staked) (take_stake op a) (noted m pp vp nk total s)
            λ o at. take_stake-Penalized m pp vp nk total s o low pos (sym (noted_lookup s) ∙ at))
    where
      written : Db
      written = record (with_pools d total pp vp nk) {
        miners = insert (miner_at m.id m.mtype) (stored m) d.miners;
      }

      Noted : ⊤ → Db → Type 0
      Noted _ e = (s : StakeDetail) × (e ≡ noted m pp vp nk total s)

  penalize_miner-Penalized :
      (o : Option Miner)
      → 0 < op.value
      → op.value ≤ stake_of d.miners a miner_type_verify
      → lookup (miner_at a miner_type_verify) d.miners ≡ slot_of o
      → Ensures Q (penalize_miner op a o d)
  unfolding penalize_miner set_miner
  penalize_miner-Penalized none pos solvent found = tt
  penalize_miner-Penalized (some m) pos solvent found =
      let at = v.keyed a miner_type_verify m found in
      let m' =
        update_status (record m { stake = m.stake - op.value }) miner_status_frozen op.height in
      let write = set_miner m' >> take_details op a in
      guard-Ensures Q (is_verify_role m.mtype) rs_fail
        (λ _. leave_pool miner_type_verify a m >> (assert (not (ltb m.stake op.value)) >> write)) d
        λ _.
          leave_pool-Ensures Q miner_type_verify a m
            (λ _. assert (not (ltb m.stake op.value)) >> write) d v found
            λ total pp vp nk total_eq.
              assert-Ensures Q (not (ltb m.stake op.value)) (λ _. write)
                (with_pools d total pp vp nk) (ground (arith, found, solvent))
                (take_details-Penalized m' pp vp nk total
                  (at, ground (arith, found, solvent), ground (arith, total_eq)) pos)

-- One round of the loop.
pub penalize-Penalized :
    (op : MinerPenaltyOp) (a : Address) (d : Db)
    → Inv d
    → Own d
    → 0 < op.value
    → op.value ≤ stake_of d.miners a miner_type_verify
    → Ensures (Penalized op a d) (penalize op a d)
unfolding penalize Q
penalize-Penalized op a d v own pos covered =
    get_miner-Ensures (Penalized op a d) a miner_type_verify (penalize_miner op a) d
      λ o found. penalize_miner-Penalized op a d v own o pos covered found
