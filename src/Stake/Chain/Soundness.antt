-- ===== src/Stake/Chain/Soundness.antt =====
-- Whatever operations run, the books hold and no token is made or lost.
use zvchain.Base.{
  ℕ, ◌+◌, ◌<◌, ◌≡◌, refl, ◌∙◌, not, ◌||◌, ◌==◌, ltb, Option, none, some, List, [], ◌∷◌, u64_mod,
}
use zvchain.Stake.Types.{
  FundGuardNode, miner_type_proposal, six_add_five, six_add_six, is_fund_guard,
}
use zvchain.Stake.Limits.{adjust_weight_period}
use zvchain.Stake.Db.{
  Db, Outcome, returned, failed, panicked, ⊤, ◌>>=◌, ◌>>◌, guard, rs_fail, rs_miner_un_support_op,
  rs_miner_change_mode_expired,
}
use zvchain.Stake.Role.{gene_base_identity_op, is_supported}
use zvchain.Stake.Ledger.{worth, Inv, Ensures}
use zvchain.Stake.Ledger.Rules.{weaken-Ensures, guard-Ensures, get_miner-Ensures, decode-Ensures}
use zvchain.Stake.Add.Books.{Added, stake_add-Added}
use zvchain.Stake.Reduce.Books.{Reduced, stake_reduce-Reduced}
use zvchain.Stake.Refund.Books.{Refunded, stake_refund-Refunded}
use zvchain.Stake.Retire.Books.{Aborted, Frozen, miner_abort-Aborted, miner_freeze-Frozen}
use zvchain.Stake.Vote.Tickets.{TicketReduced, reduce_tickets-TicketReduced}
use zvchain.Stake.Vote.Books.{Voted, vote_miner_pool-Voted}
use zvchain.Stake.Guard.{
  half_period, get_fund_guard_node, set_fund_guard_node, change_mode, change_fund_guard_mode,
}
use zvchain.Stake.Guard.Books.{Guarded, apply_guard-Guarded}
use zvchain.Stake.Guard.Expiry.{Expired, guard_node_expired-Expired}
use zvchain.Stake.Chain.{
  MOperation, add_op, reduce_op, refund_op, abort_op, freeze_op, vote_op, apply_guard_op,
  change_mode_op, reduce_tickets_op, expire_op, penalty_op, Environment, transition, settle,
  execute_operation, proceed, execute_all,
}

-- The books hold, and as much is in circulation.
abbrev pub Sound : Db → Db → Type 0
Sound d d' = Inv d' × (worth d' ≡ worth d)

-- Heights from which a guard's period does not run out of the machine's integers; a penalty is left
-- out, since it burns tokens, and panics where a target cannot pay.
abbrev pub InRange : MOperation → Type 0
InRange (apply_guard_op height a) = height + adjust_weight_period < u64_mod
InRange (penalty_op op) = ⊥
InRange _ = Unit {0}

change_mode-Sound :
    (height a mode : ℕ) (o : Option FundGuardNode) (d : Db)
    → Inv d
    → Ensures (λ _. Sound d) (change_mode height a mode o d)
unfolding change_mode set_fund_guard_node
change_mode-Sound height a mode none d v = tt
change_mode-Sound height a mode (some f) d v =
    guard-Ensures (λ _. Sound d) (is_fund_guard f) rs_miner_un_support_op
      (λ _. set_fund_guard_node a (record f { height = height; fund_mode_type = mode })) d
      λ _. (v, refl)

change_fund_guard_mode-Sound :
    (height a mode : ℕ) (d : Db)
    → Inv d
    → Ensures (λ _. Sound d) (change_fund_guard_mode height a mode d)
unfolding change_fund_guard_mode get_fund_guard_node
change_fund_guard_mode-Sound height a mode d v =
    guard-Ensures (λ _. Sound d) (mode == six_add_five || mode == six_add_six) rs_fail _ d
      λ _.
        get_miner-Ensures (λ _. Sound d) a miner_type_proposal
          (λ m.
            guard (is_supported (gene_base_identity_op miner_type_proposal m))
              rs_miner_un_support_op
            >> (guard (not (ltb half_period height)) rs_miner_change_mode_expired
                >> (get_fund_guard_node a >>= change_mode height a mode)))
          d
          λ m found.
            guard-Ensures (λ _. Sound d) _ _
              (λ _.
                guard (not (ltb half_period height)) rs_miner_change_mode_expired
                >> (get_fund_guard_node a >>= change_mode height a mode))
              d
              λ _.
                guard-Ensures (λ _. Sound d) _ _
                  (λ _. get_fund_guard_node a >>= change_mode height a mode) d
                  λ _.
                    decode-Ensures (λ _. Sound d) (d.fund_guards a) (change_mode height a mode) d
                      λ o at. change_mode-Sound height a mode o d v

pub transition-Sound :
    (env : Environment) (op : MOperation) (d : Db)
    → Inv d
    → InRange op
    → Ensures (λ _. Sound d) (transition env op d)
unfolding transition
transition-Sound env (add_op op) d v r =
    weaken-Ensures (Added op d) (λ _. Sound d) _ (stake_add-Added env.platform op d v)
      λ _ d' p. (p.0, p.1)
transition-Sound env (reduce_op op) d v r =
    weaken-Ensures (Reduced op d) (λ _. Sound d) _ (stake_reduce-Reduced env.in_no_group op d v)
      λ _ d' p. (p.0, p.1)
transition-Sound env (refund_op op) d v r =
    weaken-Ensures (Refunded env.forks env.platform op d) (λ _. Sound d) _
      (stake_refund-Refunded env.forks env.platform op d v) λ _ d' p. (p.0, p.1)
transition-Sound env (abort_op op) d v r =
    weaken-Ensures (Aborted op d) (λ _. Sound d) _ (miner_abort-Aborted op d v) λ _ d' p. (p.0, p.1)
transition-Sound env (freeze_op height a) d v r =
    weaken-Ensures (Frozen height a d) (λ _. Sound d) _ (miner_freeze-Frozen height a d v)
      λ _ d' p. (p.0, p.1)
transition-Sound env (vote_op op) d v r =
    weaken-Ensures (Voted op d) (λ _. Sound d) _ (vote_miner_pool-Voted op d v) λ _ d' p. (p.0, p.1)
transition-Sound env (apply_guard_op height a) d v r =
    weaken-Ensures (Guarded height a d) (λ _. Sound d) _ (apply_guard-Guarded height a d v r)
      λ _ d' p. (p.0, p.1)
transition-Sound env (change_mode_op height a mode) d v r =
    change_fund_guard_mode-Sound height a mode d v
transition-Sound env (reduce_tickets_op height a) d v r =
    weaken-Ensures (λ _. TicketReduced a d) (λ _. Sound d) _
      (reduce_tickets-TicketReduced height a d v) λ _ d' p. (p.0, p.1)
transition-Sound env (expire_op height a is_fund) d v r =
    weaken-Ensures (Expired a d) (λ _. Sound d) _ (guard_node_expired-Expired height a is_fund d v)
      λ _ d' p. (p.0, p.1)
transition-Sound env (penalty_op op) d v r = absurd r

-- A call settles in a state where the books hold: the new one, or the snapshot.
settle-Sound :
    (d : Db) (o : Outcome ⊤)
    → Inv d
    → Ensures (λ _. Sound d) o
    → (d' : Db) × (settle d o ≡ some d') × Sound d d'
unfolding settle
settle-Sound d (returned x d') v s = (d', refl, s)
settle-Sound d (failed s d') v _ = (d, refl, (v, refl))
settle-Sound d panicked v s = elim s [ ]

abbrev pub AllInRange : List MOperation → Type 0
AllInRange [] = Unit {0}
AllInRange (op ∷ ops) = InRange op × AllInRange ops

-- From sound books, no sequence of operations on miners other than penalties panics, whatever fails
-- on the way; the books hold after it, and exactly as many tokens are in circulation as before. An
-- application to be a guard must come at a height from which a period does not overflow.
pub execute_all-Sound :
    (env : Environment) (ops : List MOperation) (d : Db)
    → Inv d
    → AllInRange ops
    → (d' : Db) × (execute_all env ops d ≡ some d') × Inv d' × (worth d' ≡ worth d)
unfolding execute_all execute_operation proceed
execute_all-Sound env [] d v r = (d, refl, v, refl)
execute_all-Sound env (op ∷ ops) d v (in_range, rest) =
    let (mid, e, (w, worth_mid)) =
      settle-Sound d (transition env op d) v (transition-Sound env op d v in_range) in
    let (d', e', w', worth_eq) = execute_all-Sound env ops mid w rest in
    (d', rw e e', w', worth_eq ∙ worth_mid)
