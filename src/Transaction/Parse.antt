-- ===== src/Transaction/Parse.antt =====
-- `getOpByType` of core/state_processor.go, and `ParseTransaction` of the transfer there and of the
-- operations of core/miner_operation.go and core/govern.go.
use zvchain.Base.{
  ℕ, Bool, not, ◌&&◌, ◌||◌, Option, none, some, List, [], ◌∷◌, length, ltb, ◌==◌, if◌then◌else◌,
  u64,
}
use zvchain.Stake.Types.{Address, MinerPks, six_add_five, six_add_six}
use zvchain.Stake.Chain.{
  MOperation, add_op, reduce_op, refund_op, abort_op, vote_op, apply_guard_op, change_mode_op,
}
use zvchain.Transaction.TxType
use zvchain.Transaction.{Transaction}
use zvchain.Transaction.Payload.{decode_payload}

-- `types.BlackOperator`, less the signatures.
pub record BlackOperator : Type 0 where
  pub op_type : ℕ
  pub addrs : List Address

-- The state transitions by the type of their transaction. Those of contracts and groups are not
-- taken apart.
pub data Operation : Type 0 where
  transfer_op : Address → Address → ℕ → Operation
  miner_op : MOperation → Operation
  black_op : BlackOperator → Operation
  foreign_op : Operation

-- Parsing ends with an operation, in an error, or in a panic; that of an unknown type is an error of
-- its own, as such a transaction uses no gas.
pub data Parsed : Type 0 where
  ready : Operation → Parsed
  refused : Parsed
  unsupported : Parsed
  broken : Parsed

abbrev pub read : {A : Type 0} → Option A → (A → Parsed) → Parsed
read none f = broken
read (some a) f = f a

-- msg.Payload()[0]
abbrev pub read_byte : List ℕ → (ℕ → Parsed) → Parsed
read_byte [] f = broken
read_byte (b ∷ bs) f = f b

-- The value is read when the transfer runs.
unfoldable pub parse_transfer : Transaction → Parsed
parse_transfer tx = read tx.target λ target.
    read tx.source λ source. read tx.value (λ value. ready (transfer_op source target value))

-- Only a stake for oneself may bring keys.
unfoldable pub parse_keys : ℕ → Transaction → Option MinerPks → Parsed
parse_keys height tx none = refused
parse_keys height tx (some pks) = read tx.source λ source. read tx.target λ target.
    if ltb 0 (length pks.pk) && not (source == target)
    then refused
    else read tx.value λ value. ready (
        miner_op (
          add_op (record {
            height = height;
            miner_pks = pks;
            value = u64 value;
            add_source = source;
            add_target = target;
            miner_type = pks.mtype;
          })))

unfoldable pub parse_stake_add : ℕ → Transaction → Parsed
unfolding parse_keys
parse_stake_add height tx = parse_keys height tx (decode_payload tx.payload)

unfoldable pub parse_miner_abort : ℕ → Transaction → Parsed
parse_miner_abort height tx = read_byte tx.payload λ t. read tx.source λ source.
    ready (miner_op (abort_op (record { height = height; addr = source; miner_type = t })))

unfoldable pub parse_stake_reduce : ℕ → Transaction → Parsed
parse_stake_reduce height tx = read_byte tx.payload λ t. read tx.target λ target.
    read tx.source λ source. read tx.value λ value. ready (
      miner_op (
        reduce_op (record {
          height = height;
          cancel_target = target;
          cancel_source = source;
          value = u64 value;
          miner_type = t;
        })))

unfoldable pub parse_stake_refund : ℕ → Transaction → Parsed
parse_stake_refund height tx = read_byte tx.payload λ t. read tx.target λ target.
    read tx.source λ source. ready (
      miner_op (
        refund_op (record {
          height = height;
          refund_target = target;
          refund_source = source;
          miner_type = t;
        })))

unfoldable pub parse_vote_miner_pool : ℕ → Option Address → Transaction → Parsed
parse_vote_miner_pool height none tx = refused
parse_vote_miner_pool height (some target) tx = read tx.source λ source.
    ready (miner_op (vote_op (record { height = height; source = source; target_addr = target })))

unfoldable pub parse_change_mode : ℕ → Transaction → Parsed
parse_change_mode height tx =
    if not (length tx.payload == 1)
    then refused
    else read_byte tx.payload λ mode.
      if not (mode == six_add_five || mode == six_add_six)
      then refused
      else read tx.source (λ source. ready (miner_op (change_mode_op height source mode)))

abbrev pub or_refused : {A : Type 0} → Option A → (A → Operation) → Parsed
or_refused none f = refused
or_refused (some a) f = ready (f a)

abbrev pub foreign_parsed : Option Bool → Parsed
foreign_parsed none = broken
foreign_parsed (some parses) = if parses then ready foreign_op else refused

abbrev pub black_parsed : Option (Option BlackOperator) → Parsed
black_parsed none = broken
black_parsed (some o) = or_refused o black_op

-- `black` is the decoded and verified update of the blacklist, and `foreign_parses` whether a
-- contract's or a group's transaction parses; each is none where it panics.
unfoldable pub parse_transaction :
    Option (Option BlackOperator) → Option Bool → ℕ → Transaction → Parsed
parse_transaction black foreign_parses height tx =
    let t = tx.tx_type in
    let foreign = foreign_parsed foreign_parses in
    if t == TxType.transfer
    then parse_transfer tx
    else if t == TxType.contract_create
    then foreign
    else if t == TxType.contract_call
    then foreign
    else if t == TxType.stake_add
    then parse_stake_add height tx
    else if t == TxType.miner_abort
    then parse_miner_abort height tx
    else if t == TxType.vote_miner_pool
    then parse_vote_miner_pool height tx.target tx
    else if t == TxType.stake_reduce
    then parse_stake_reduce height tx
    else if t == TxType.apply_guard_miner
    then read tx.source (λ source. ready (miner_op (apply_guard_op height source)))
    else if t == TxType.stake_refund
    then parse_stake_refund height tx
    else if t == TxType.change_fund_guard_mode
    then parse_change_mode height tx
    else if t == TxType.group_piece || (t == TxType.group_mpk || t == TxType.group_origin_piece)
    then foreign
    else if t == TxType.blacklist_update
    then black_parsed black
    else unsupported
