-- ===== src/Process/Transition.antt =====
-- A transaction's state transition: its check against the state, the gas that is bought for it, its
-- operation on a snapshot, and the gas that is given back.
use zvchain.Base.{
  ℕ, ◌+◌, ◌-◌, ◌*◌, Bool, true, false, not, ◌||◌, Option, none, some, List, [], ◌∷◌, ltb, ◌==◌,
  if◌then◌else◌, add64,
}
use zvchain.Base.Map.{insert, nat_key}
use zvchain.Stake.Types.{Address}
use zvchain.Stake.Db.{Db, Outcome, returned, failed, panicked, ⊤, update}
use zvchain.Stake.Store.{balance_of, can_transfer, need_transfer}
use zvchain.Stake.Chain.{Environment, transition}
use zvchain.Transaction.{Transaction, is_reward, intrinsic_gas}
use zvchain.Transaction.Validate.{
  Verdict, accepted, rejected, crashed, Accounts, Node, nonce_error, check, deref, ◌>>◌,
  state_validate,
}
use zvchain.Transaction.Parse.{
  BlackOperator, Operation, transfer_op, miner_op, black_op, foreign_op, Parsed, ready, refused,
  unsupported, broken, parse_transaction,
}

-- The account database as transactions see it: balances and miners, nonces, the blacklist, and what
-- `isBlack` reads of it, the list of the last root, as it is cached, so that no update of the block is
-- seen; the
-- blocks whose reward has been paid, with the transaction that paid it, and the rest, which
-- contracts and groups use.
pub record World (S : Type 0) : Type 0 where
  pub db : Db
  pub nonces : Address → ℕ
  pub blacks : Address → Bool
  pub cached_blacks : Address → Bool
  pub rewarded : ℕ → Option ℕ
  pub rest : S

-- How a `Transition` ends: with an error or without one, and the gas that it has used.
pub record Ran (S : Type 0) : Type 0 where
  pub world : World S
  pub has_error : Bool
  pub gas_used : ℕ

-- What `ParseRewardTransaction` reads off a reward transaction.
pub record RewardOp : Type 0 where
  pub block_hash : ℕ
  pub targets : List Address
  pub pack_fee : ℕ

-- What the execution takes from elsewhere: the node's configuration, the group manager and stake
-- platform behind the miners' operations, the decoding and verification of updates of the
-- blacklist (none where they panic), the operations of contracts and groups, the parsing of reward transactions, the known
-- blocks, and two addresses.
pub record Services (S : Type 0) : Type 0 where
  pub node : Node
  pub env : Environment
  pub decode_black : World S → Transaction → Option (Option BlackOperator)
  pub foreign_parses : World S → Transaction → Option Bool
  pub run_foreign : ℕ → Transaction → World S → Ran S
  pub parse_reward : Transaction → Option RewardOp
  pub has_block : ℕ → Bool
  pub daemon_node : Address
  pub user_node : Address

-- `AccountDB.AddBalance` and `SubBalance`.
unfoldable pub credit : Address → ℕ → Db → Db
credit a amount d = record d { balances = insert a (balance_of a d + amount) d.balances }

unfoldable pub debit : Address → ℕ → Db → Db
debit a amount d = record d { balances = insert a (balance_of a d - amount) d.balances }

-- `AccountDB.Transfer`
unfoldable pub transfer : Address → Address → ℕ → Db → Db
unfolding credit debit
transfer source target amount d = credit target amount (debit source amount d)

-- A transition ends in an error, without one, or in a panic; what it wrote stays until it is
-- reverted.
pub data Ending : Type 0 where
  fine : Db → Ending
  erred : Db → Ending
  panic : Ending

unfoldable pub run_transfer : Address → Address → ℕ → Db → Ending
unfolding transfer
run_transfer source target value d =
    if need_transfer value
    then if can_transfer source value d then fine (transfer source target value d) else erred d
    else fine d

abbrev pub ending_of : Outcome ⊤ → Ending
ending_of (returned x d) = fine d
ending_of (failed s d) = erred d
ending_of panicked = panic

-- Type 1 takes the addresses off the list, any other puts them on it.
unfoldable pub update_blacks : Bool → List Address → (Address → Bool) → Address → Bool
update_blacks black [] blacks = blacks
update_blacks black (a ∷ rest) blacks = update_blacks black rest (update blacks a black)

-- The loop over a reward's targets; a nil amount panics where it is added.
unfoldable pub reward_targets : Option ℕ → List Address → Db → Option Db
unfolding credit
reward_targets reward [] d = some d
reward_targets none (a ∷ rest) d = none
reward_targets (some reward) (a ∷ rest) d = reward_targets (some reward) rest (credit a reward d)

abbrev pub is_set : Option ℕ → Bool
is_set none = false
is_set (some h) = true

-- How the application of a transaction ends: it is evicted, or applied, with its error, the gas that
-- it has used and its gas price, or it panics.
pub data Applied (S : Type 0) : Type 0 where
  evicted : Applied S
  applied : World S → Bool → ℕ → ℕ → Applied S
  broke_down : Applied S

module _ {S : Type 0} where
  abbrev pub in_world : World S → ℕ → Ending → Option (Ran S)
  in_world w gas (fine d) =
      some (record { world = record w { db = d }; has_error = false; gas_used = gas })
  in_world w gas (erred d) =
      some (record { world = record w { db = d }; has_error = true; gas_used = gas })
  in_world w gas panic = none

  -- `Transition` of the operation that a transaction stands for.
  unfoldable pub run_operation : Services S → ℕ → Transaction → Operation → World S → Option (Ran S)
  run_operation services height tx (transfer_op source target value) w =
      in_world w (intrinsic_gas tx) (run_transfer source target value w.db)
  run_operation services height tx (miner_op op) w =
      in_world w (intrinsic_gas tx) (ending_of (transition services.env op w.db))
  run_operation services height tx (black_op b) w = some (record {
    world = record w {
      blacks =
          if b.op_type == 1
          then update_blacks false b.addrs w.blacks
          else update_blacks true b.addrs w.blacks;
    };
    has_error = false;
    gas_used = intrinsic_gas tx;
  })
  run_operation services height tx foreign_op w = some (services.run_foreign height tx w)

  -- `doTransition`: an error reverts to the snapshot.
  abbrev pub do_transition : World S → Option (Ran S) → Option (Ran S)
  do_transition snapshot none = none
  do_transition snapshot (some r) = some (if r.has_error then record r { world = snapshot } else r)

  -- The result of parsing and running. A transaction that is not parsed is an error that has used
  -- its intrinsic gas, or no gas if its type is unknown.
  unfoldable pub run_parsed : Services S → ℕ → Transaction → Parsed → World S → Option (Ran S)
  unfolding run_operation
  run_parsed services height tx (ready op) w =
      do_transition w (run_operation services height tx op w)
  run_parsed services height tx refused w =
      some (record { world = w; has_error = true; gas_used = intrinsic_gas tx })
  run_parsed services height tx unsupported w =
      some (record { world = w; has_error = true; gas_used = 0 })
  run_parsed services height tx broken w = none

  -- What is left of the limit is paid back.
  unfoldable pub refund_gas : Address → ℕ → ℕ → Option (Ran S) → Applied S
  unfolding credit
  refund_gas source limit price none = broke_down
  refund_gas source limit price (some r) =
      let back = credit source ((limit - r.gas_used) * price) r.world.db in
      applied (if ltb r.gas_used limit then record r.world { db = back } else r.world) r.has_error
        r.gas_used price

  unfoldable pub charge_and_run :
      Services S → ℕ → Transaction → Address → ℕ → ℕ → World S → Applied S
  unfolding debit run_parsed refund_gas
  charge_and_run services height tx source limit price w =
      let charged = record w { db = debit source (limit * price) w.db } in
      let parsed =
        parse_transaction (services.decode_black charged tx) (services.foreign_parses charged tx)
          height tx in
      refund_gas source limit price (run_parsed services height tx parsed charged)

  abbrev pub accounts_of : World S → Accounts
  accounts_of w = record {
    balance_of = λ a. balance_of a w.db;
    nonce_of = w.nonces;
    is_black = w.cached_blacks;
  }

  -- `validateNonce`
  unfoldable pub validate_nonce : World S → Transaction → Verdict
  unfolding add64
  validate_nonce w tx =
      if is_reward tx
      then accepted
      else deref tx.source (λ source. check (tx.nonce == add64 (w.nonces source) 1) nonce_error)

  -- `checkState`
  unfoldable pub check_state : Services S → ℕ → Transaction → World S → Verdict
  unfolding validate_nonce
  check_state services height tx w =
      validate_nonce w tx >> state_validate services.node (accounts_of w) tx height

  abbrev pub with_gas :
      Option Address → Option ℕ → Option ℕ → (Address → ℕ → ℕ → Applied S) → Applied S
  with_gas (some source) (some limit) (some price) f = f source limit price
  with_gas _ _ _ f = broke_down

  abbrev pub on_verdict : Verdict → Applied S → Applied S
  on_verdict accepted r = r
  on_verdict (rejected e) r = evicted
  on_verdict crashed r = broke_down

  unfoldable pub apply_normal : Services S → ℕ → Transaction → World S → Applied S
  unfolding check_state charge_and_run
  apply_normal services height tx w = on_verdict (check_state services height tx w) (
      with_gas tx.source tx.gas_limit tx.gas_price
        λ source limit price. charge_and_run services height tx source limit price w)

  -- A reward pays its targets and the castor, and marks its block. It uses no gas, and its gas price
  -- is read all the same when the block's fee is computed.
  unfoldable pub pay_reward : ℕ → Option ℕ → Address → RewardOp → World S → Option Db → Applied S
  unfolding credit
  pay_reward hash price castor op w none = broke_down
  pay_reward hash none castor op w (some paid) = broke_down
  pay_reward hash (some price) castor op w (some paid) =
      applied
        (record w {
          db = credit castor op.pack_fee paid;
          rewarded = update w.rewarded op.block_hash (some hash);
        })
        false 0 price

  -- `rewardExecutor`: a block that is not known, or is rewarded already, is an error of parsing.
  unfoldable pub apply_reward :
      Services S → Address → Transaction → Option RewardOp → World S → Applied S
  unfolding pay_reward reward_targets
  apply_reward services castor tx none w = evicted
  apply_reward services castor tx (some op) w =
      if not (services.has_block op.block_hash) || is_set (w.rewarded op.block_hash)
      then evicted
      else pay_reward tx.hash tx.gas_price castor op w (reward_targets tx.value op.targets w.db)

  -- `applyStateTransition`
  unfoldable pub apply_state_transition :
      Services S → ℕ → Address → Transaction → World S → Applied S
  apply_state_transition services height castor tx w =
      if is_reward tx
      then apply_reward services castor tx (services.parse_reward tx) w
      else apply_normal services height tx w
