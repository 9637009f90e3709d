-- ===== src/Stake/Vote/Books.antt =====
-- `vote_miner_pool` and `reduce_tickets` keep the books and move the tickets as they should.
use zvchain.Base.{
  ℕ, ◌-◌, ◌≡◌, refl, ap, ◌∙◌, Option, none, some, arith, ◌==◌, Bool, true, false, not, ◌&&◌, add64,
  inl, inr, if◌then◌else◌, Bool-cases,
}
use zvchain.Base.Map.{lookup}
use zvchain.Stake.Types.{
  Address, Miner, VoteInfo, empty_address, update_identity, miner_type_proposal, miner_pool,
}
use zvchain.Stake.Limits.{is_full_tickets}
use zvchain.Stake.Db.{
  ⊤, Slot, corrupt, stored, Db, M, miner_key, detail_key, ◌>>◌, ◌>>=◌, guard, when, pure,
  rs_miner_un_support_op,
}
use zvchain.Stake.Store.{miner_at, get_miner, set_miner}
use zvchain.Stake.Role.{gene_base_identity_op}
use zvchain.Stake.Ledger.{worth, Inv, Ensures}
use zvchain.Stake.Ledger.Rules.{
  slot_of, guard-Ensures, bind-Ensures, decode-Ensures, get_miner-Ensures,
}
use zvchain.Stake.Ledger.Change.{Books-same_stake}
use zvchain.Stake.Vote.{
  VoteMinerPoolOp, reduce_tickets, takes_votes, check_vote, get_vote_info, init_vote_info,
  set_vote_info, add_ticket, move_ticket, place_vote, voted_miner, after_tickets_full, process_vote,
  vote_miner_pool,
}
use zvchain.Stake.Vote.Tickets.{TicketReduced, reduce_tickets-TicketReduced}

-- The target of the vote that stands, and no target where there is none.
abbrev pub voted_for : Option (Slot VoteInfo) → Address
voted_for none = empty_address
voted_for (some corrupt) = empty_address
voted_for (some (stored v)) = v.target

-- The tickets once the vote has moved from `old` to `new`.
abbrev pub tickets_after : (Address → ℕ) → Address → Address → Address → ℕ
tickets_after tickets old new a =
    if old == new && not (old == empty_address)
    then tickets a
    else if a == new
    then add64 (tickets a) 1
    else if a == old && not (old == empty_address)
    then tickets a - 1
    else tickets a

-- What a vote that goes through does: the books and the tokens in circulation stay, the vote stands,
-- and the tickets have moved with it.
abbrev pub Voted : VoteMinerPoolOp → Db → ⊤ → Db → Type 0
Voted op d _ d' =
    Inv d'
    × (worth d' ≡ worth d)
    × (d'.votes op.source ≡ some (stored (record { target = op.target_addr; height = op.height })))
    × ((a : Address)
        → d'.tickets a ≡ tickets_after d.tickets (voted_for (d.votes op.source)) op.target_addr a)

module _ (op : VoteMinerPoolOp) (d : Db) (v : Inv d) where
  open op use {target_addr, source, height}

  -- Before the target becomes a pool: its record is the one that was read.
  abbrev Placed : Address → Db → Db → Type 0
  Placed old e d' =
      Inv d'
      × (worth d' ≡ worth e)
      × (d'.votes ≡ e.votes)
      × ((a : Address) → d'.tickets a ≡ tickets_after e.tickets old target_addr a)
      × (lookup (miner_at target_addr miner_type_proposal) d'.miners
          ≡ lookup (miner_at target_addr miner_type_proposal) e.miners)

  -- The ticket is added to the new target once the old one has lost it.
  add_ticket-Placed :
      (old : Address) (e e' : Db)
      → (old == target_addr && not (old == empty_address)) ≡ false
      → Inv e'
      → worth e' ≡ worth e
      → e'.votes ≡ e.votes
      → ((a : Address)
          → e'.tickets a
            ≡ (if a == old && not (old == empty_address) then e.tickets a - 1 else e.tickets a))
      → lookup (miner_at target_addr miner_type_proposal) e'.miners
        ≡ lookup (miner_at target_addr miner_type_proposal) e.miners
      → Ensures (λ _. Placed old e) (add_ticket target_addr e')
  unfolding add_ticket
  add_ticket-Placed old e e' moved w worth_eq votes_eq tickets_eq same =
      (w, worth_eq, votes_eq, (λ a. ground (arith, tickets_eq a, tickets_eq target_addr)), same)

  move_ticket-Placed :
      (old : Address) (e : Db) → Inv e → Ensures (λ _. Placed old e) (move_ticket op old e)
  unfolding move_ticket add_ticket
  move_ticket-Placed old e w =
      elim (Bool-cases (old == target_addr && not (old == empty_address))) [
        | inl same ↦ rw same (w, refl, refl, (λ a. ground arith), refl)
        | inr moved ↦ elim (Bool-cases (old == empty_address)) [
          | inl fresh ↦
              rw (moved, fresh)
                (add_ticket-Placed old e e moved w refl refl (λ a. ground arith) refl)
          | inr held ↦
              rw (moved, held)
                (bind-Ensures (λ _. TicketReduced old e) (λ _. Placed old e)
                  (reduce_tickets height old) (λ _. add_ticket target_addr) e
                  (reduce_tickets-TicketReduced height old e w)
                  λ _ e' (w', worth_eq, votes_eq, tickets_eq, frame, _, _, _, _, _, _).
                    add_ticket-Placed old e e' moved w' worth_eq votes_eq
                      (λ a. ap (λ f. f a) tickets_eq ∙ ground arith)
                      (frame target_addr (ground arith)))
        ]
      ]

  abbrev new_vote : VoteInfo
  new_vote = record { target = target_addr; height = height }

  -- As `Placed`, with the vote that now stands.
  abbrev Chosen : Db → Type 0
  Chosen d' =
      Inv d'
      × (worth d' ≡ worth d)
      × (d'.votes source ≡ some (stored new_vote))
      × ((a : Address)
          → d'.tickets a ≡ tickets_after d.tickets (voted_for (d.votes source)) target_addr a)
      × (lookup (miner_at target_addr miner_type_proposal) d'.miners
          ≡ lookup (miner_at target_addr miner_type_proposal) d.miners)

  cast_vote-Chosen :
      (old : Address) (votes : Address → Option (Slot VoteInfo))
      → voted_for (d.votes source) ≡ old
      → votes source ≡ some (stored new_vote)
      → Ensures
          (λ _. Chosen)
          ((move_ticket op old >>= λ total. pure (is_full_tickets total height))
            (record d { votes = votes }))
  cast_vote-Chosen old votes old_eq stands =
      bind-Ensures (λ _. Placed old (record d { votes = votes })) (λ _. Chosen) (move_ticket op old)
        (λ total. pure (is_full_tickets total height)) (record d { votes = votes })
        (move_ticket-Placed old (record d { votes = votes }) v)
        λ _ d' (w, worth_eq, votes_eq, tickets_eq, same).
          (w, worth_eq, ap (λ f. f source) votes_eq ∙ stands, rw old_eq tickets_eq, same)

  place_vote-Chosen :
      (o : Option VoteInfo) → d.votes source ≡ slot_of o → Ensures (λ _. Chosen) (place_vote op o d)
  unfolding place_vote init_vote_info set_vote_info
  place_vote-Chosen none found =
      cast_vote-Chosen empty_address _ (ap voted_for found) (ground arith)
  place_vote-Chosen (some old) found =
      cast_vote-Chosen old.target _ (ap voted_for found) (ground arith)

  after_tickets_full-Voted :
      (o : Option Miner) (d' : Db)
      → lookup (miner_at target_addr miner_type_proposal) d.miners ≡ slot_of o
      → Chosen d'
      → Ensures (Voted op d) (after_tickets_full op o d')
  unfolding after_tickets_full voted_miner set_miner
  after_tickets_full-Voted none d' found (w, worth_eq, stands, tickets_eq, same) =
      let m' = update_identity (voted_miner op none) miner_pool height in
      (
        Books-same_stake d'.proposal_total m' w (ground (arith, same, found))
            (ground (arith, same, found)),
        worth_eq,
        stands,
        tickets_eq,
      )
  after_tickets_full-Voted (some m) d' found (w, worth_eq, stands, tickets_eq, same) =
      let (id_eq, type_eq) = v.keyed target_addr miner_type_proposal m found in
      (
        Books-same_stake d'.proposal_total (update_identity m miner_pool height) w
            (ground (arith, same, found)) (ground (arith, same, found)),
        worth_eq,
        stands,
        tickets_eq,
      )

  check_vote-Ensures :
      (o : Option VoteInfo) (f : ⊤ → M ⊤)
      → Ensures (Voted op d) (f tt d)
      → Ensures (Voted op d) ((check_vote op o >>= f) d)
  unfolding check_vote get_miner
  check_vote-Ensures o f k = ground arith

  ending-Voted :
      (full : Bool) (o : Option Miner) (d' : Db)
      → lookup (miner_at target_addr miner_type_proposal) d.miners ≡ slot_of o
      → Chosen d'
      → Ensures (Voted op d) (when full (after_tickets_full op o) d')
  ending-Voted true o d' found c = after_tickets_full-Voted o d' found c
  ending-Voted false o d' found (w, worth_eq, stands, tickets_eq, same) =
      (w, worth_eq, stands, tickets_eq)

  process_vote-Voted :
      (o : Option Miner)
      → lookup (miner_at target_addr miner_type_proposal) d.miners ≡ slot_of o
      → Ensures (Voted op d) (process_vote op o d)
  unfolding process_vote get_vote_info
  process_vote-Voted o found =
      decode-Ensures (Voted op d) (d.votes source)
        (λ vf.
          check_vote op vf >> (place_vote op vf >>= λ full. when full (after_tickets_full op o)))
        d
        λ vf at.
          check_vote-Ensures vf
            (λ _. place_vote op vf >>= λ full. when full (after_tickets_full op o))
            (bind-Ensures (λ _. Chosen) (Voted op d) (place_vote op vf)
              (λ full. when full (after_tickets_full op o)) d (place_vote-Chosen vf at)
              λ full d' c. ending-Voted full o d' found c)

-- A vote that goes through keeps the books and the tokens in circulation, stands as the source's
-- vote at this height, and moves exactly one ticket: none where the target is the old one, else one
-- is added to the target and one taken from the old target, if there was one. From sound books the
-- call never panics.
pub vote_miner_pool-Voted :
    (op : VoteMinerPoolOp) (d : Db) → Inv d → Ensures (Voted op d) (vote_miner_pool op d)
unfolding vote_miner_pool
vote_miner_pool-Voted op d v =
    get_miner-Ensures (Voted op d) op.target_addr miner_type_proposal
      (λ m.
        guard (takes_votes (gene_base_identity_op miner_type_proposal m)) rs_miner_un_support_op
        >> process_vote op m)
      d
      λ m found.
        guard-Ensures (Voted op d) _ _ (λ _. process_vote op m) d
          λ _. process_vote-Voted op d v m found
