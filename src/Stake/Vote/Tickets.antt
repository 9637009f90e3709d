-- ===== src/Stake/Vote/Tickets.antt =====
-- How a target loses a ticket, and what becomes of a miner pool that needed it.
use zvchain.Base.{
  ℕ, ◌+◌, ◌-◌, ◌≡◌, refl, Option, none, some, arith, ◌==◌, Bool, false, inl, inr, if◌then◌else◌,
  Bool-cases,
}
use zvchain.Base.Map.{lookup, lookup-insert}
use zvchain.Stake.Types.{
  Address, Miner, update_status, update_identity, is_active, miner_type_proposal, miner_type_verify,
  miner_status_prepare, invalid_miner_pool,
}
use zvchain.Stake.Limits.{is_full_tickets}
use zvchain.Stake.Db.{
  stored, Db, miner_key, detail_key, update, ◌>>◌, ◌>>=◌, guard, rs_miner_un_support_op,
}
use zvchain.Stake.Store.{miner_at, set_miner}
use zvchain.Stake.Role.{
  Role, verify, normal, guard_node, pool, invalid_pool, unsupported, gene_base_identity_op,
  is_supported,
}
use zvchain.Stake.Ledger.{worth, stake_of, Inv, Ensures}
use zvchain.Stake.Ledger.Rules.{slot_of, guard-Ensures, get_miner-Ensures}
use zvchain.Stake.Ledger.Change.{Books-same_stake}
use zvchain.Stake.Ledger.Pools.{counted, with_pools, leave_pool-Ensures}
use zvchain.Stake.Vote.{downgrade, after_ticket_reduce, reduce_tickets, sub_ticket}

-- Only the record of one proposer may differ, not in its stake, and the books hold.
abbrev pub Relabelled : Address → Db → Db → Type 0
Relabelled t d d' =
    Inv d'
    × (worth d' ≡ worth d)
    × (d'.votes ≡ d.votes)
    × (d'.tickets ≡ d.tickets)
    × ((a : Address)
        → (a == t) ≡ false
        → lookup (miner_at a miner_type_proposal) d'.miners
          ≡ lookup (miner_at a miner_type_proposal) d.miners)
    × (d'.balances ≡ d.balances)
    × (d'.details ≡ d.details)
    × (d'.fund_guards ≡ d.fund_guards)
    × (d'.full_guards ≡ d.full_guards)
    × ((a : Address)
        → lookup (miner_at a miner_type_verify) d'.miners
          ≡ lookup (miner_at a miner_type_verify) d.miners)
    × ((a ty : ℕ) → stake_of d'.miners a ty ≡ stake_of d.miners a ty)

-- A proposer's record is replaced by one of the same stake.
pub saved-Relabelled :
    (t : ℕ) (m m' : Miner) (d : Db) (total : ℕ) (pp vp : ℕ → Bool) (nk : Bool)
    → Inv d
    → lookup (miner_at t miner_type_proposal) d.miners ≡ some (stored m)
    → (m'.id ≡ m.id) × (m'.mtype ≡ m.mtype) × (m'.stake ≡ m.stake)
    → total + counted miner_type_proposal m m.stake
      ≡ d.proposal_total + counted miner_type_proposal m' m'.stake
    → Ensures (λ _. Relabelled t d) (set_miner m' (with_pools d total pp vp nk))
unfolding set_miner
saved-Relabelled t m m' d total pp vp nk v found (same_id, same_type, same_stake) total_eq =
    let (id_eq, type_eq) = v.keyed t miner_type_proposal m found in
    (
      Books-same_stake total m' v (ground (arith, found)) (ground (arith, found)),
      refl,
      refl,
      refl,
      λ a other. ground (
        arith,
        lookup-insert (miner_at a miner_type_proposal) (miner_at m'.id m'.mtype) (stored m')
            d.miners,
      ),
      refl,
      refl,
      refl,
      refl,
      λ a. ground (
        arith,
        found,
        lookup-insert (miner_at a miner_type_verify) (miner_at m'.id m'.mtype) (stored m') d.miners,
      ),
      λ a ty. ground (
        arith,
        found,
        lookup-insert (miner_at a ty) (miner_at m'.id m'.mtype) (stored m') d.miners,
      ),
    )

pub downgrade-Relabelled :
    (height t : ℕ) (m : Miner) (d : Db)
    → Inv d
    → lookup (miner_at t miner_type_proposal) d.miners ≡ some (stored m)
    → Ensures
        (λ _. Relabelled t d)
        (downgrade height t (update_identity m invalid_miner_pool height) d)
unfolding downgrade
downgrade-Relabelled height t m d v found =
    let lower = update_identity m invalid_miner_pool height in
    let m' = if is_active lower then update_status lower miner_status_prepare height else lower in
    leave_pool-Ensures (λ _. Relabelled t d) miner_type_proposal t m (λ _. set_miner m') d v found
      λ total pp vp nk total_eq. elim (Bool-cases (is_active m)) [
        | inl active ↦ rw active (
            saved-Relabelled t m (update_status lower miner_status_prepare height) d total pp vp nk
              v found (refl, refl, refl) (ground arith))
        | inr idle ↦
            rw idle (
              saved-Relabelled t m lower d total pp vp nk v found (refl, refl, refl) (ground arith))
      ]

pub untouched-Relabelled : (t : ℕ) (d : Db) → Inv d → Relabelled t d d
untouched-Relabelled t d v =
    (v, refl, refl, refl, λ a other. refl, refl, refl, refl, refl, λ a. refl, λ a ty. refl)

pub after_ticket_reduce-Relabelled :
    (role : Role) (height t : ℕ) (o : Option Miner) (total : ℕ) (d : Db)
    → Inv d
    → lookup (miner_at t miner_type_proposal) d.miners ≡ slot_of o
    → Ensures (λ _. Relabelled t d) (after_ticket_reduce role height t o total d)
unfolding after_ticket_reduce
after_ticket_reduce-Relabelled pool height t none total d v found =
    elim (Bool-cases (is_full_tickets total height)) [
      | inl full ↦ rw full (untouched-Relabelled t d v)
      | inr lost ↦ rw lost tt
    ]
after_ticket_reduce-Relabelled pool height t (some m) total d v found =
    elim (Bool-cases (is_full_tickets total height)) [
      | inl full ↦ rw full (untouched-Relabelled t d v)
      | inr lost ↦ rw lost (downgrade-Relabelled height t m d v found)
    ]
after_ticket_reduce-Relabelled verify height t o total d v found = untouched-Relabelled t d v
after_ticket_reduce-Relabelled normal height t o total d v found = untouched-Relabelled t d v
after_ticket_reduce-Relabelled guard_node height t o total d v found = untouched-Relabelled t d v
after_ticket_reduce-Relabelled invalid_pool height t o total d v found = untouched-Relabelled t d v
after_ticket_reduce-Relabelled unsupported height t o total d v found = untouched-Relabelled t d v

-- The books hold, one ticket of `t` is gone, and only the record of `t` may differ.
abbrev pub TicketReduced : Address → Db → Db → Type 0
TicketReduced t d d' = Relabelled t (record d { tickets = update d.tickets t (d.tickets t - 1) }) d'

-- From sound books, a ticket reduction never panics. One that goes through takes one ticket of the
-- target and changes no record of a proposer or a verifier but the target's as a proposer, and no
-- stake in any; balances, details, votes and guards stay, and the books hold.
pub reduce_tickets-TicketReduced :
    (height t : ℕ) (d : Db) → Inv d → Ensures (λ _. TicketReduced t d) (reduce_tickets height t d)
unfolding reduce_tickets sub_ticket
reduce_tickets-TicketReduced height t d v =
    get_miner-Ensures (λ _. TicketReduced t d) t miner_type_proposal
      (λ m.
        guard (is_supported (gene_base_identity_op miner_type_proposal m)) rs_miner_un_support_op
        >> (sub_ticket t
            >>= after_ticket_reduce (gene_base_identity_op miner_type_proposal m) height t m))
      d
      λ m found.
        guard-Ensures (λ _. TicketReduced t d) _ _
          (λ _.
            sub_ticket t
            >>= after_ticket_reduce (gene_base_identity_op miner_type_proposal m) height t m)
          d
          λ _.
            after_ticket_reduce-Relabelled (gene_base_identity_op miner_type_proposal m) height t m
              (d.tickets t - 1) (record d { tickets = update d.tickets t (d.tickets t - 1) }) v
              found
