-- ===== src/Process/Charges.antt =====
-- What a transaction that is no reward costs: its gas, and nothing else where it fails.
use zvchain.Base.{
  ℕ, ◌+◌, ◌-◌, ◌*◌, ◌<◌, ◌≤◌, ◌≡◌, ◌≢◌, refl, ap, Bool, Bool-cases, true, false, Option, none, some,
  ltb, ◌==◌, ==_iff, inl, inr, arith, if◌then◌else◌, u64_mod,
}
use native.Mathlib.Nat.{mul_comm}
use zvchain.Base.Map.{nat_key}
use zvchain.Stake.Types.{Address}
use zvchain.Stake.Limits.{adjust_weight_period}
use zvchain.Stake.Db.{Outcome, returned, failed, panicked, ⊤}
use zvchain.Stake.Store.{balance_of}
use zvchain.Stake.Ledger.{worth, Inv, Ensures}
use zvchain.Stake.Chain.{transition}
use zvchain.Stake.Chain.Soundness.{Sound, transition-Sound}
use zvchain.Transaction.{Transaction, is_reward, intrinsic_gas, gas_limit_per_transaction}
use zvchain.Transaction.Validate.{Verdict, accepted, rejected, crashed, validate, type_validate}
use zvchain.Transaction.Parse.{
  Operation, transfer_op, miner_op, black_op, foreign_op, Parsed, ready, refused, unsupported,
  broken, parse_transaction,
}
use zvchain.Transaction.Safety.{
  Gas, validate-typed, state_validate-crashed, state_validate-affords, then_safe, both,
}
use zvchain.Transaction.Accepted.{parse_transaction-ne-broken, type_validate-value}
use zvchain.Process.Transition.{
  World, Ran, Services, credit, debit, Ending, fine, erred, panic, run_transfer, ending_of,
  in_world, run_operation, do_transition, run_parsed, Applied, evicted, applied, broke_down,
  refund_gas, charge_and_run, apply_normal, check_state, on_verdict, with_gas, accounts_of,
  validate_nonce,
}
use zvchain.Process.Heights.{is_native, IsSafe, parse_transaction-IsSafe}
use zvchain.Process.Money.{
  worth-credit, worth-debit, credit-Inv, debit-Inv, run_transfer-Pays, Pays, balance_of-credit,
  balance_of-debit,
}

split_fee : (g l p : ℕ) → g ≤ l → (l - g) * p + g * p ≡ l * p
split_fee g l p h = grind arith

-- The gas lies within the limit, and is the intrinsic gas of a native transaction.
abbrev Metered : Transaction → ℕ → ℕ → Type 0
Metered tx limit gas = (gas ≤ limit) × (is_native tx.tx_type ≡ true → gas ≡ intrinsic_gas tx)

module _ {S : Type 0} where
  balance_of_refunded :
      (source limit price gas : ℕ) (w : World S) (a : Address)
      → gas ≤ limit
      → limit * price ≤ balance_of source w.db
      → balance_of a (credit source ((limit - gas) * price) (debit source (limit * price) w.db))
        ≡ (if a == source then balance_of a w.db - gas * price else balance_of a w.db)
  balance_of_refunded source limit price gas w a l b = ground (
    arith,
    balance_of-credit a source ((limit - gas) * price) (debit source (limit * price) w.db),
    balance_of-debit a source (limit * price) w.db,
    balance_of-debit source source (limit * price) w.db,
    split_fee gas limit price l,
    ==_iff a source,
    b,
  )

  balance_of_charged :
      (a source fee : ℕ) (w : World S)
      → balance_of a (debit source fee w.db)
        ≡ (if a == source then balance_of a w.db - fee else balance_of a w.db)
  balance_of_charged a source fee w =
      ground (arith, balance_of-debit a source fee w.db, ==_iff a source)

  -- What is asked of the operations of contracts and groups: they keep the books, the tokens, and the
  -- gas limit, and neither their parsing nor that of blacklist updates panics.
  abbrev pub Honest : Services S → Type 0
  Honest services =
      ((height limit : ℕ) (tx : Transaction) (w : World S)
        → tx.gas_limit ≡ some limit
        → intrinsic_gas tx ≤ limit
        → Inv w.db
        → Inv (services.run_foreign height tx w).world.db
          × (worth (services.run_foreign height tx w).world.db ≡ worth w.db)
          × ((services.run_foreign height tx w).gas_used ≤ limit))
      × ((tx : Transaction) (w : World S) → services.decode_black w tx ≢ none)
      × ((tx : Transaction) (w : World S) → services.foreign_parses w tx ≢ none)

  -- An operation ran on `w` within its gas, and kept the books where it gives no error.
  abbrev Runs : Transaction → World S → ℕ → Option (Ran S) → Type 0
  Runs tx w limit none = ⊥
  Runs tx w limit (some r) =
      Metered tx limit r.gas_used
      × (r.has_error ≡ false → Inv r.world.db × (worth r.world.db ≡ worth w.db))

  -- A transition does so too, and an error leaves no trace.
  abbrev Kept : Transaction → World S → ℕ → Option (Ran S) → Type 0
  Kept tx w limit none = ⊥
  Kept tx w limit (some r) =
      Metered tx limit r.gas_used
      × ((Inv r.world.db × (worth r.world.db ≡ worth w.db)) × (r.has_error ≡ true → r.world ≡ w))

  do_transition-Kept :
      (tx : Transaction) (w : World S) (limit : ℕ) (o : Option (Ran S))
      → Inv w.db
      → Runs tx w limit o
      → Kept tx w limit (do_transition w o)
  do_transition-Kept tx w limit none v k = k
  do_transition-Kept tx w limit (some r) v k = elim (Bool-cases r.has_error) [
    | inl e ↦ rw e (k.0, ((v, refl), λ _. refl))
    | inr e ↦ rw e (k.0, (k.1 e, λ x. absurd (ground (arith, e, x))))
  ]

  paid-Runs :
      (tx : Transaction) (w : World S) (gas limit : ℕ) (e : Ending)
      → Metered tx limit gas
      → Pays w.db e
      → Runs tx w limit (in_world w gas e)
  paid-Runs tx w gas limit (fine d) l p = (l, λ _. p)
  paid-Runs tx w gas limit (erred d) l p = (l, λ x. absurd (ground (arith, x)))
  paid-Runs tx w gas limit panic l p = p

  run_transfer-Runs :
      (tx : Transaction) (w : World S) (source target value gas limit : ℕ)
      → Inv w.db
      → Metered tx limit gas
      → Runs tx w limit (in_world w gas (run_transfer source target value w.db))
  run_transfer-Runs tx w source target value gas limit v l =
      paid-Runs tx w gas limit (run_transfer source target value w.db) l
        (run_transfer-Pays source target value w.db v)

  miner-Runs :
      (tx : Transaction) (w : World S) (gas limit : ℕ) (o : Outcome ⊤)
      → Metered tx limit gas
      → Ensures (λ _. Sound w.db) o
      → Runs tx w limit (in_world w gas (ending_of o))
  miner-Runs tx w gas limit (returned x d) l s = (l, λ _. s)
  miner-Runs tx w gas limit (failed s d) l _ = (l, λ x. absurd (ground (arith, x)))
  miner-Runs tx w gas limit panicked l s = s

  run_operation-Runs :
      (services : Services S) (height limit : ℕ) (tx : Transaction) (op : Operation) (w : World S)
      → Honest services
      → tx.gas_limit ≡ some limit
      → intrinsic_gas tx ≤ limit
      → Inv w.db
      → IsSafe (is_native tx.tx_type) (ready op)
      → Runs tx w limit (run_operation services height tx op w)
  unfolding run_operation
  run_operation-Runs services height limit tx (transfer_op source target value) w h g l v s =
      run_transfer-Runs tx w source target value (intrinsic_gas tx) limit v (l, λ _. refl)
  run_operation-Runs services height limit tx (miner_op op) w h g l v s =
      miner-Runs tx w (intrinsic_gas tx) limit (transition services.env op w.db) (l, λ _. refl)
        (transition-Sound services.env op w.db v s)
  run_operation-Runs services height limit tx (black_op b) w h g l v s =
      ((l, λ _. refl), λ _. (v, refl))
  run_operation-Runs services height limit tx foreign_op w h g l v s =
      let (i, e, u) = h.0 height limit tx w g l v in
      ((u, λ n. absurd (ground (arith, s, n))), λ _. (i, e))

  run_parsed-Kept :
      (services : Services S) (height limit : ℕ) (tx : Transaction) (p : Parsed) (w : World S)
      → Honest services
      → tx.gas_limit ≡ some limit
      → intrinsic_gas tx ≤ limit
      → Inv w.db
      → IsSafe (is_native tx.tx_type) p
      → p ≢ broken
      → Kept tx w limit (run_parsed services height tx p w)
  unfolding run_parsed
  run_parsed-Kept services height limit tx (ready op) w h g l v s n =
      do_transition-Kept tx w limit (run_operation services height tx op w) v
        (run_operation-Runs services height limit tx op w h g l v s)
  run_parsed-Kept services height limit tx refused w h g l v s n =
      ((l, λ _. refl), ((v, refl), λ _. refl))
  run_parsed-Kept services height limit tx unsupported w h g l v s n =
      ((omega arith, λ m. absurd (ground (arith, s, m))), ((v, refl), λ _. refl))
  run_parsed-Kept services height limit tx broken w h g l v s n = absurd (n refl)

  -- A fee alone was paid: the source has less, and all else is as it was.
  pub record Costs (source : Address) (fee : ℕ) (w w' : World S) : Type 0 where
    pub balance :
        (a : Address)
        → balance_of a w'.db ≡ (if a == source then balance_of a w.db - fee else balance_of a w.db)
    pub rest : record w' { db = record w'.db { balances = w.db.balances } } ≡ w

  -- The fee is paid and no other token is made or lost; an error costs the fee alone.
  abbrev pub Charged : Transaction → Address → World S → Applied S → Type 0
  Charged tx source w evicted = Unit {0}
  Charged tx source w broke_down = ⊥
  Charged tx source w (applied w' has_error gas price) =
      Inv w'.db
      × (worth w'.db + gas * price ≡ worth w.db)
      × (gas ≤ gas_limit_per_transaction)
      × (has_error ≡ true → Costs source (gas * price) w w')
      × (tx.gas_price ≡ some price)
      × (is_native tx.tx_type ≡ true → gas ≡ intrinsic_gas tx)

  refunded-Costs :
      (source limit price gas : ℕ) (w : World S)
      → gas ≤ limit
      → limit * price ≤ balance_of source w.db
      → Costs source (gas * price) w (record w {
        db = credit source ((limit - gas) * price) (debit source (limit * price) w.db);
      })
  unfolding credit debit
  refunded-Costs source limit price gas w l b = record {
    balance = λ a. balance_of_refunded source limit price gas w a l b;
    rest = refl;
  }

  charged-Costs :
      (source limit price : ℕ) (w : World S)
      → Costs source (limit * price) w (record w { db = debit source (limit * price) w.db })
  unfolding debit
  charged-Costs source limit price w = record {
    balance = λ a. balance_of_charged a source (limit * price) w;
    rest = refl;
  }

  refund_gas-Charged :
      (tx : Transaction) (source limit price : ℕ) (w : World S) (o : Option (Ran S))
      → tx.gas_price ≡ some price
      → limit ≤ gas_limit_per_transaction
      → Inv w.db
      → limit * price ≤ balance_of source w.db
      → Kept tx (record w { db = debit source (limit * price) w.db }) limit o
      → Charged tx source w (refund_gas source limit price o)
  unfolding refund_gas
  refund_gas-Charged tx source limit price w none q l v b k = k
  refund_gas-Charged tx source limit price w (some r) q l v b k =
      let charged = worth-debit source (limit * price) w.db b in
      elim (Bool-cases (ltb r.gas_used limit)) [
        | inl less ↦
            let fee = split_fee r.gas_used limit price k.0.0 in
            let total = worth-credit source ((limit - r.gas_used) * price) r.world.db in
            rw less (
              credit-Inv source ((limit - r.gas_used) * price) r.world.db k.1.0.0
                  (omega (arith, charged, fee, k.1.0.1, v.supply)),
              omega (arith, charged, fee, total, k.1.0.1),
              omega (arith, k.0.0, l),
              λ e. rw (k.1.1 e) (refunded-Costs source limit price r.gas_used w k.0.0 b),
              q,
              k.0.1,
            )
        | inr all ↦
            let same : r.gas_used ≡ limit = ground (arith, k.0.0, all) in
            rw all (
              k.1.0.0,
              omega (arith, charged, k.1.0.1, ap (λ (g : ℕ). g * price) same),
              omega (arith, k.0.0, l),
              λ e. rw (k.1.1 e, same) (charged-Costs source limit price w),
              q,
              k.0.1,
            )
      ]

  charge_and_run-Charged :
      (services : Services S) (height : ℕ) (tx : Transaction) (source : ℕ) (g : Gas tx)
      (w : World S) (validate_state : Bool)
      → Honest services
      → validate services.node tx validate_state ≡ accepted
      → is_reward tx ≡ false
      → height + adjust_weight_period < u64_mod
      → Inv w.db
      → g.limit * g.price ≤ balance_of source w.db
      → Charged tx source w (charge_and_run services height tx source g.limit g.price w)
  unfolding charge_and_run
  charge_and_run-Charged services height tx source g w validate_state h ok r in_range v b =
      let charged = record w { db = debit source (g.limit * g.price) w.db } in
      let black = services.decode_black charged tx in
      let foreign = services.foreign_parses charged tx in
      refund_gas-Charged tx source g.limit g.price w _ g.price_is g.below v b (
        run_parsed-Kept services height g.limit tx (parse_transaction black foreign height tx)
          charged h g.limit_is g.above (debit-Inv source (g.limit * g.price) w.db b v)
          (parse_transaction-IsSafe height tx in_range black foreign)
          (parse_transaction-ne-broken services.node tx validate_state ok r black foreign height
            (h.1 tx charged) (h.2 tx charged)))

  on_verdict-Charged :
      (tx : Transaction) (source : ℕ) (w : World S) (u : Verdict) (r : Applied S)
      → u ≢ crashed
      → (u ≡ accepted → Charged tx source w r)
      → Charged tx source w (on_verdict u r)
  on_verdict-Charged tx source w accepted r n k = k refl
  on_verdict-Charged tx source w (rejected e) r n k = tt
  on_verdict-Charged tx source w crashed r n k = absurd (n refl)

  with_gas-Charged :
      (tx : Transaction) (source limit price : ℕ) (w : World S) (o : Option Address)
      (l p : Option ℕ) (f : Address → ℕ → ℕ → Applied S)
      → o ≡ some source
      → l ≡ some limit
      → p ≡ some price
      → Charged tx source w (f source limit price)
      → Charged tx source w (with_gas o l p f)
  with_gas-Charged tx source limit price w o l p f e m n k = rw (e, m, n) k

  check_state-ne-crashed :
      (services : Services S) (height source : ℕ) (tx : Transaction) (w : World S)
      (validate_state : Bool) (g : Gas tx)
      → tx.source ≡ some source
      → is_reward tx ≡ false
      → type_validate services.node tx validate_state ≡ accepted
      → check_state services height tx w ≢ crashed
  unfolding check_state validate_nonce
  check_state-ne-crashed services height source tx w validate_state g e r typed =
      then_safe _ _ (λ k. absurd (ground (arith, k)))
        (λ c.
          let lacks =
            (state_validate-crashed services.node (accounts_of w) tx height source g e).0 c in
          type_validate-value services.node tx validate_state typed lacks.0 lacks.1.0)

  -- From sound books, and at a height from which a guard's period does not overflow, a
  -- transaction with a source that validation has accepted and that is no reward is evicted or
  -- applied, and never panics, where contracts, groups and blacklist updates are parsed without a
  -- panic, and contracts and groups keep the books and their gas limits.
  -- Applied, it costs exactly the gas that it reports, the intrinsic gas unless a contract or a
  -- group runs it, at its own gas price, at most the limit of a transaction, and makes and loses no other token; if it fails, its source has paid that fee
  -- and all else is as it was.
  pub apply_normal-Charged :
      (services : Services S) (height source : ℕ) (tx : Transaction) (w : World S)
      (validate_state : Bool)
      → Honest services
      → validate services.node tx validate_state ≡ accepted
      → is_reward tx ≡ false
      → tx.source ≡ some source
      → height + adjust_weight_period < u64_mod
      → Inv w.db
      → Charged tx source w (apply_normal services height tx w)
  unfolding apply_normal check_state
  apply_normal-Charged services height source tx w validate_state h ok r e in_range v =
      let (g, sourced, typed) = validate-typed services.node tx validate_state ok r in
      on_verdict-Charged tx source w (check_state services height tx w) _
        (check_state-ne-crashed services height source tx w validate_state g e r typed)
        λ c. with_gas-Charged tx source g.limit g.price w _ _ _ _ e g.limit_is g.price_is (
          charge_and_run-Charged services height tx source g w validate_state h ok r in_range v (
            omega (
              arith,
              mul_comm g.limit g.price,
              state_validate-affords services.node (accounts_of w) tx height source g e
                  (both _ _ c).1,
            )))
