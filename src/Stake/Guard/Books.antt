-- ===== src/Stake/Guard/Books.antt =====
-- `apply_guard` keeps the books and binds the stake for at most one period.
use zvchain.Base.{
  ℕ, ◌+◌, ◌-◌, ◌≡◌, ◌≤◌, ◌<◌, refl, ◌∙◌, Option, none, some, arith, ◌==◌, ltb, Bool, true, not,
  ◌&&◌, add64, inl, inr, Bool-cases, u64_mod,
}
use zvchain.Base.Map.{lookup, lookup-insert, insert}
use zvchain.Stake.Types.{
  Address, Miner, StakeDetail, VoteInfo, update_identity, miner_guard, miner_type_proposal,
  full_stake_guard_node_type, FundGuardNode,
}
use zvchain.Stake.Limits.{adjust_weight_period, maximum_stake, is_full_stake}
use zvchain.Stake.Db.{⊤, Slot, corrupt, stored, Db, miner_key, detail_key, update, ◌>>◌, ◌>>=◌}
use zvchain.Stake.Store.{miner_at, get_detail, set_miner, set_detail}
use zvchain.Stake.Role.{
  Role, verify, normal, guard_node, pool, invalid_pool, unsupported, gene_base_identity_op,
}
use zvchain.Stake.Ledger.{
  worth, worth_of, Inv, Books, Ensures, is_staked_for, is_proposal_staked, is_circulating, Details,
}
use zvchain.Stake.Ledger.Rules.{
  slot_of, guard-Ensures, bind-Ensures, decode-Ensures, get_miner-Ensures, get_detail-Ensures,
}
use zvchain.Stake.Ledger.Details.{More, insert-More}
use zvchain.Stake.Ledger.Change.{Books-same_stake, Books-set_details}
use zvchain.Stake.Vote.{get_vote_info, set_vote_info}
use zvchain.Stake.Guard.{
  guard_key, half_period, check_apply_guard, after_become_full_guard_node,
  update_fund_guard_pool_status, pool_status, set_full_guard, refresh_vote, become_guard,
  process_apply_guard, apply_guard, can_guard,
}

-- What an application to be a guard does when it goes through: books and tokens stay, the stake is
-- full and bound for at most one period, and the miner is a guard.
abbrev pub Guarded : ℕ → Address → Db → ⊤ → Db → Type 0
Guarded height a d _ d' =
    Inv d'
    × (worth d' ≡ worth d)
    × (s : StakeDetail) × (s' : StakeDetail) × (m : Miner) × (lookup (guard_key a) d.details
        ≡ some (stored s))
    × (lookup (guard_key a) d'.details ≡ some (stored s'))
    × (lookup (miner_at a miner_type_proposal) d'.miners ≡ some (stored m))
    × (s.value ≡ maximum_stake height)
    × (s'.value ≡ s.value)
    × (s'.dis_miss_height ≤ height + adjust_weight_period)
    × (m.identity ≡ miner_guard)

module _ (height a : ℕ) (d : Db) (v : Inv d) (m : Miner) (s : StakeDetail)
    (room : height + adjust_weight_period < u64_mod)
    (found : lookup (guard_key a) d.details ≡ some (stored s))
    (found_miner : lookup (miner_at a miner_type_proposal) d.miners ≡ some (stored m))
    (full : is_full_stake s.value height ≡ true)
    (soon : not (ltb height s.dis_miss_height && ltb half_period (s.dis_miss_height - height))
      ≡ true) where
  m' : Miner
  m' = update_identity m miner_guard height

  bound_details : ℕ → Details
  bound_details h = insert (guard_key a) (stored (record s { dis_miss_height = h })) d.details

  -- The states that the call may leave, up to what the books do not read.
  abbrev bound :
      ℕ
      → (Address → Option (Slot VoteInfo))
      → (Address → Option (Slot FundGuardNode))
      → (Address → Bool)
      → Db
  bound h votes funds fulls = record d {
    miners = insert (miner_at m.id m.mtype) (stored m') d.miners;
    details = bound_details h;
    votes = votes;
    fund_guards = funds;
    full_guards = fulls;
  }

  -- The detail is written back with a new height, and nothing else of the books changes.
  bound-Guarded :
      (h : ℕ) (votes : Address → Option (Slot VoteInfo))
      (funds : Address → Option (Slot FundGuardNode)) (fulls : Address → Bool)
      → h ≤ height + adjust_weight_period
      → Guarded height a d tt (bound h votes funds fulls)
  unfolding m' bound_details is_full_stake
  bound-Guarded h votes funds fulls bounded =
      let (id_eq, type_eq) = v.keyed a miner_type_proposal m found_miner in
      (
        Books-set_details d.balances (bound_details h) relabelled
            (λ b t. more.1 (is_staked_for b t) ∙ ground arith)
            (more.1 is_proposal_staked ∙ ground arith) more.0 (rw same v.supply),
        same,
        s,
        record s { dis_miss_height = h },
        m',
        found,
        ground (
          arith,
          lookup-insert (guard_key a) (guard_key a) (stored (record s { dis_miss_height = h }))
              d.details,
        ),
        ground (
          arith,
          lookup-insert (miner_at a miner_type_proposal) (miner_at m.id m.mtype) (stored m')
              d.miners,
        ),
        ground (arith, full),
        refl,
        bounded,
        refl,
      )
    where
      more : More (guard_key a) 0 d.details (bound_details h)
      more =
          insert-More (guard_key a) 0 (some s) (record s { dis_miss_height = h }) d.details
            v.distinct found (omega arith)

      same : worth_of d.balances (bound_details h) ≡ worth d
      same = ground (arith, more.1 is_circulating)

      relabelled :
          Books d.balances
            (insert (miner_at m.id m.mtype) (stored m') d.miners)
            d.details
            d.proposal_total
      relabelled =
          let own = v.keyed a miner_type_proposal m found_miner in
          Books-same_stake d.proposal_total m' v (ground (arith, found_miner, own))
            (ground (arith, found_miner, own))

  -- What the callback leaves.
  abbrev Bound : ⊤ → Db → Type 0
  Bound _ d' =
      (h : ℕ) × (funds : Address → Option (Slot FundGuardNode)) × (fulls : Address → Bool) × (h
        ≤ height + adjust_weight_period)
      × (d' ≡ bound h d.votes funds fulls)

  entered : Db
  entered = record d { miners = insert (miner_at m.id m.mtype) (stored m') d.miners }

  first_full-Bound :
      (o : Option (Slot FundGuardNode))
      → d.fund_guards a ≡ o
      → Ensures Bound (
          (pool_status a full_stake_guard_node_type height o
              >> (set_full_guard a true
                  >> set_detail
                      (guard_key a)
                      (record s { dis_miss_height = add64 height half_period })))
            entered)
  unfolding pool_status set_full_guard set_detail entered bound_details add64
  first_full-Bound none e = tt
  first_full-Bound (some corrupt) e = (add64 height half_period, _, _, omega arith, refl)
  first_full-Bound (some (stored f)) e = (add64 height half_period, _, _, omega arith, refl)

  after_become-Bound :
      (role : Role)
      → can_guard role ≡ true
      → Ensures Bound (after_become_full_guard_node role height a s entered)
  unfolding after_become_full_guard_node set_full_guard set_detail entered bound_details
      update_fund_guard_pool_status add64
  after_become-Bound normal e = (add64 height half_period, d.fund_guards, _, omega arith, refl)
  after_become-Bound guard_node e = elim (Bool-cases (s.dis_miss_height == 0)) [
    | inl first ↦ rw first (first_full-Bound (d.fund_guards a) refl)
    | inr again ↦
        rw again
          (add64 s.dis_miss_height half_period, d.fund_guards, d.full_guards, ground arith, refl)
  ]
  after_become-Bound verify e = ground (arith, e)
  after_become-Bound pool e = ground (arith, e)
  after_become-Bound invalid_pool e = ground (arith, e)
  after_become-Bound unsupported e = ground (arith, e)

  refresh_vote-Guarded :
      (o : Option VoteInfo) (h : ℕ) (funds : Address → Option (Slot FundGuardNode))
      (fulls : Address → Bool)
      → h ≤ height + adjust_weight_period
      → Ensures (Guarded height a d) (refresh_vote a height o (bound h d.votes funds fulls))
  unfolding refresh_vote set_vote_info
  refresh_vote-Guarded none h funds fulls bounded = bound-Guarded h d.votes funds fulls bounded
  refresh_vote-Guarded (some vote) h funds fulls bounded =
      bound-Guarded h (update d.votes a (some (stored (record vote { height = height })))) funds
        fulls bounded

  refreshed-Guarded :
      (e : Db)
      → Bound tt e
      → Ensures (Guarded height a d) ((get_vote_info a >>= refresh_vote a height) e)
  unfolding get_vote_info
  refreshed-Guarded e (h, funds, fulls, bounded, same) = rw same (
      decode-Ensures (Guarded height a d) (d.votes a) (refresh_vote a height)
        (bound h d.votes funds fulls) λ o at. refresh_vote-Guarded o h funds fulls bounded)

  written-Guarded :
      (role : Role)
      → can_guard role ≡ true
      → Ensures (Guarded height a d) (
          (set_miner m'
              >> (after_become_full_guard_node role height a s
                  >> (get_vote_info a >>= refresh_vote a height)))
            d)
  unfolding set_miner entered m'
  written-Guarded role can =
      bind-Ensures Bound (Guarded height a d) (after_become_full_guard_node role height a s)
        (λ _. get_vote_info a >>= refresh_vote a height) entered (after_become-Bound role can)
        λ _ e b. refreshed-Guarded e b

module _ (height a : ℕ) (d : Db) (v : Inv d) (room : height + adjust_weight_period < u64_mod) where
  become_guard-Guarded :
      (role : Role) (m : Miner) (o : Option StakeDetail)
      → can_guard role ≡ true
      → lookup (miner_at a miner_type_proposal) d.miners ≡ some (stored m)
      → lookup (guard_key a) d.details ≡ slot_of o
      → Ensures (Guarded height a d) (become_guard role height a m o d)
  unfolding become_guard check_apply_guard m'
  become_guard-Guarded role m none can found_miner found = tt
  become_guard-Guarded role m (some s) can found_miner found =
      elim (Bool-cases (is_full_stake s.value height)) [
        | inr part ↦ rw part tt
        | inl full ↦
            elim (Bool-cases (
              not (ltb height s.dis_miss_height && ltb half_period (s.dis_miss_height - height)))) [
                | inr far ↦ rw (full, far) tt
                | inl soon ↦
                    rw (full, soon)
                      (written-Guarded height a d v m s room found found_miner full soon role can)
              ]
      ]

  process_apply_guard-Guarded :
      (o : Option Miner)
      → lookup (miner_at a miner_type_proposal) d.miners ≡ slot_of o
      → Ensures (Guarded height a d) (process_apply_guard height a o d)
  unfolding process_apply_guard
  process_apply_guard-Guarded none found = tt
  process_apply_guard-Guarded (some m) found =
      let role = gene_base_identity_op miner_type_proposal (some m) in
      guard-Ensures (Guarded height a d) _ _
        (λ _. get_detail (guard_key a) >>= become_guard role height a m) d
        λ can.
          get_detail-Ensures (Guarded height a d) (guard_key a) (become_guard role height a m) d
            λ o at. become_guard-Guarded role m o can found at

-- An application to be a guard that goes through, at a height one period below the end of the
-- machine's integers, keeps the books and the tokens in circulation, happens only at a full stake,
-- makes the miner a guard, and leaves its stake bound for at most one period; from sound books the
-- call never panics.
pub apply_guard-Guarded :
    (height a : ℕ) (d : Db)
    → Inv d
    → height + adjust_weight_period < u64_mod
    → Ensures (Guarded height a d) (apply_guard height a d)
unfolding apply_guard
apply_guard-Guarded height a d v room =
    get_miner-Ensures (Guarded height a d) a miner_type_proposal (process_apply_guard height a) d
      (process_apply_guard-Guarded height a d v room)
