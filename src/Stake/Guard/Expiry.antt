-- ===== src/Stake/Guard/Expiry.antt =====
-- `guard_node_expired` keeps the books and withdraws the guard's vote with its ticket.
use zvchain.Base.{
  ℕ, ◌-◌, ◌≡◌, refl, ap, ◌∙◌, Option, none, some, inl, inr, arith, ◌==◌, Bool, true, false, not,
  ◌&&◌, if◌then◌else◌, Bool-cases,
}
use zvchain.Base.Map.{lookup, insert}
use zvchain.Stake.Types.{
  Address, Miner, VoteInfo, empty_address, update_identity, miner_normal, miner_type_proposal,
}
use zvchain.Stake.Db.{⊤, Slot, stored, Db, miner_key, update, ◌>>=◌, when}
use zvchain.Stake.Store.{miner_at, set_miner}
use zvchain.Stake.Ledger.{worth, Inv, Ensures}
use zvchain.Stake.Ledger.Rules.{slot_of, weaken-Ensures, decode-Ensures, get_miner-Ensures}
use zvchain.Stake.Ledger.Change.{Books-same_stake}
use zvchain.Stake.Vote.{get_vote_info, reduce_tickets}
use zvchain.Stake.Vote.Tickets.{TicketReduced, reduce_tickets-TicketReduced}
use zvchain.Stake.Vote.Books.{voted_for}
use zvchain.Stake.Guard.{withdraw_vote, expire, guard_node_expired, set_full_guard}

-- What an expiry does when it goes through: books and tokens stay, the vote is gone, and so is the
-- ticket that it held, if it held one.
abbrev pub Expired : Address → Db → ⊤ → Db → Type 0
Expired a d _ d' =
    Inv d'
    × (worth d' ≡ worth d)
    × (d'.votes a ≡ none)
    × ((b : Address)
        → d'.tickets b ≡ (
            if b == voted_for (d.votes a) && not (voted_for (d.votes a) == empty_address)
            then d.tickets b - 1
            else d.tickets b))

module _ (height a : ℕ) (d : Db) (v : Inv d) (m : Miner)
    (found_miner : lookup (miner_at a miner_type_proposal) d.miners ≡ some (stored m)) where
  -- The state once the miner is no guard.
  plain : (Address → Bool) → (Address → Option (Slot VoteInfo)) → Db
  plain fulls votes = record d {
    miners =
        insert (miner_at m.id m.mtype) (stored (update_identity m miner_normal height)) d.miners;
    full_guards = fulls;
    votes = votes;
  }

  plain-Inv :
      (fulls : Address → Bool) (votes : Address → Option (Slot VoteInfo)) → Inv (plain fulls votes)
  unfolding plain
  plain-Inv fulls votes =
      let own = v.keyed a miner_type_proposal m found_miner in
      Books-same_stake d.proposal_total (update_identity m miner_normal height) v
        (ground (arith, found_miner, own)) (ground (arith, found_miner, own))

  withdraw_vote-Expired :
      (o : Option VoteInfo) (fulls : Address → Bool)
      → d.votes a ≡ slot_of o
      → Ensures (Expired a d) (withdraw_vote height a o (plain fulls d.votes))
  unfolding withdraw_vote plain
  withdraw_vote-Expired none fulls found =
      (plain-Inv fulls d.votes, refl, found, λ b. ground (arith, found))
  withdraw_vote-Expired (some vote) fulls found = elim (Bool-cases (vote.target == empty_address)) [
    | inl blank ↦
        rw (blank, when)
          (plain-Inv fulls (update d.votes a none), refl, ground arith, λ b. ground (arith, found))
    | inr named ↦
        rw (named, when)
          (weaken-Ensures (λ _. TicketReduced vote.target (plain fulls (update d.votes a none)))
            (Expired a d) (reduce_tickets height vote.target (plain fulls (update d.votes a none)))
            (reduce_tickets-TicketReduced height vote.target (plain fulls (update d.votes a none))
              (plain-Inv fulls (update d.votes a none)))
            λ _ d' (w, worth_eq, votes_eq, tickets_eq, _, _, _, _, _, _, _). (
              w,
              worth_eq,
              ap (λ f. f a) votes_eq ∙ ground arith,
              λ b. ap (λ f. f b) tickets_eq ∙ ground (arith, found),
            ))
  ]

  saved-Expired :
      (fulls : Address → Bool)
      → Ensures (Expired a d) ((get_vote_info a >>= withdraw_vote height a) (plain fulls d.votes))
  unfolding get_vote_info plain
  saved-Expired fulls =
      decode-Ensures (Expired a d) (d.votes a) (withdraw_vote height a) (plain fulls d.votes)
        λ o at. withdraw_vote-Expired o fulls at

expire-Expired :
    (height a : ℕ) (is_fund : Bool) (o : Option Miner) (d : Db)
    → Inv d
    → lookup (miner_at a miner_type_proposal) d.miners ≡ slot_of o
    → Ensures (Expired a d) (expire height a is_fund o d)
unfolding expire set_miner set_full_guard plain
expire-Expired height a is_fund none d v found = tt
expire-Expired height a true (some m) d v found = saved-Expired height a d v m found d.full_guards
expire-Expired height a false (some m) d v found =
    saved-Expired height a d v m found (update d.full_guards a false)

-- An expiry that goes through keeps the books and the tokens in circulation, and withdraws the vote
-- of the guard: no vote of it stands, and the target that it named, if any, has one ticket less
-- while all others keep theirs. From sound books the call never panics.
pub guard_node_expired-Expired :
    (height a : ℕ) (is_fund : Bool) (d : Db)
    → Inv d
    → Ensures (Expired a d) (guard_node_expired height a is_fund d)
unfolding guard_node_expired
guard_node_expired-Expired height a is_fund d v =
    get_miner-Ensures (Expired a d) a miner_type_proposal (expire height a is_fund) d
      λ o found. expire-Expired height a is_fund o d v found
