-- ===== src/Transaction/Validate.antt =====
-- The validators of core/tx_validate.go. A nil pointer that is read, and an index out of range, are
-- panics; every error is its message.
use zvchain.Base.{
  ℕ, ◌+◌, ◌*◌, ◌/◌, Bool, true, false, not, ◌&&◌, ◌||◌, Option, none, some, List, [], ◌∷◌, length,
  ltb, leb, ◌==◌, if◌then◌else◌, u64_mod,
}
use zvchain.Stake.Types.{
  Address, MinerPks, is_proposal_role, is_verify_role, six_add_five, six_add_six,
}
use zvchain.Transaction.TxType
use zvchain.Transaction.{
  Transaction, is_reward, tx_max_size, gas_limit_per_transaction, intrinsic_gas, valid_gas_price,
}
use zvchain.Transaction.Payload.{decode_payload}

pub data TxError : Type 0 where
  tx_too_large sign_nil gas_limit_nil gas_limit_not_uint64 gas_price_nil : TxError
  gas_price_not_uint64 gas_limit_too_high gas_limit_too_low value_nil value_not_uint64 : TxError
  value_zero source_not_recovered source_not_equal source_nil no_state : TxError
  not_enough_for_gas not_enough_for_gas_and_value gas_price_too_low sender_refused : TxError
  target_nil target_not_nil unknown_miner_type unknown_mode data_empty data_length : TxError
  payload_error not_a_guard extra_data_empty reward_refused unknown_type not_the_admin : TxError
  black_update_refused nonce_error : TxError

pub data Verdict : Type 0 where
  accepted : Verdict
  rejected : TxError → Verdict
  crashed : Verdict

infixl 5 ◌>>◌
abbrev pub ◌>>◌ : Verdict → Verdict → Verdict
accepted >> k = k
rejected e >> k = rejected e
crashed >> k = crashed

-- if !b { return err }
abbrev pub check : Bool → TxError → Verdict
check true e = accepted
check false e = rejected e

abbrev pub present : {A : Type 0} → Option A → Bool
present none = false
present (some a) = true

-- Reading a field that may be nil.
abbrev pub deref : {A : Type 0} → Option A → (A → Verdict) → Verdict
deref none f = crashed
deref (some a) f = f a

abbrev pub is_uint64 : ℕ → Bool
is_uint64 n = ltb n u64_mod

-- What a validator reads of a state.
pub record Accounts : Type 0 where
  pub balance_of : Address → ℕ
  pub nonce_of : Address → ℕ
  pub is_black : Address → Bool

-- What a reward claims for its targets, for a block that is known.
pub record Claim : Type 0 where
  pub targets : List Address
  pub total_for_verifier : ℕ

-- What it reads of the node: its height and latest state, the configured fork, the addresses of the
-- extracted guard nodes and of the administrator, the recovery of a signer, and the verification of
-- updates of the blacklist. Of the verification of a reward it reads the claim (none where the
-- signature is short, the parsing fails, the block is unknown, or its group or the packing fee
-- differs), and whether the members and the signature of the group fit.
pub record Node : Type 0 where
  pub height : ℕ
  pub latest : Option Accounts
  pub is_zip003 : ℕ → Bool
  pub extract_guards : List Address
  pub admin : Address
  pub recover : ℕ → List ℕ → Option Address
  pub read_claim : Transaction → Option Claim
  pub verify_members : Transaction → Bool
  pub verify_black_update : Transaction → Bool

unfoldable pub common_validate : Transaction → Verdict
common_validate tx =
    check (not (ltb tx_max_size (length tx.payload + length tx.extra_data))) tx_too_large
    >> check (present tx.sign) sign_nil

unfoldable pub gas_validate : Transaction → Verdict
unfolding intrinsic_gas
gas_validate tx =
    check (present tx.gas_limit) gas_limit_nil
    >> deref tx.gas_limit λ limit.
      check (is_uint64 limit) gas_limit_not_uint64
      >> check (present tx.gas_price) gas_price_nil
      >> deref tx.gas_price (λ price. check (is_uint64 price) gas_price_not_uint64)
      >> check (not (ltb gas_limit_per_transaction limit)) gas_limit_too_high
      >> check (not (ltb limit (intrinsic_gas tx))) gas_limit_too_low

unfoldable pub value_validate : Transaction → Verdict
value_validate tx =
    check (present tx.value) value_nil >> deref tx.value (λ v. check (is_uint64 v) value_not_uint64)

unfoldable pub same_source : Address → Option Address → Verdict
same_source source none = rejected source_not_recovered
same_source source (some signer) = check (signer == source) source_not_equal

unfoldable pub source_recover : Node → Transaction → Verdict
unfolding same_source
source_recover node tx =
    deref tx.sign λ sign. deref tx.source (λ source. same_source source (node.recover tx.hash sign))

unfoldable pub sender_validate : Node → Accounts → ℕ → Address → Verdict
sender_validate node accounts height sender =
    check (not (node.is_zip003 height && accounts.is_black sender)) sender_refused

-- The types whose value is paid by the source.
abbrev pub pays_value : ℕ → Bool
pays_value t =
    t == TxType.transfer
    || (t == TxType.contract_create || (t == TxType.contract_call || t == TxType.stake_add))

unfoldable pub afford_value : ℕ → Option ℕ → ℕ → ℕ → Verdict
afford_value tx_type value fee balance =
    if pays_value tx_type
    then deref value (λ v. check (leb (fee + v) balance) not_enough_for_gas_and_value)
    else accepted

unfoldable pub state_validate : Node → Accounts → Transaction → ℕ → Verdict
unfolding sender_validate
state_validate node accounts tx height = deref tx.gas_price λ price. deref tx.gas_limit λ limit.
    deref tx.source λ source.
      check (leb (price * limit) (accounts.balance_of source)) not_enough_for_gas
      >> afford_value tx.tx_type tx.value (price * limit) (accounts.balance_of source)
      >> check (valid_gas_price price height) gas_price_too_low
      >> (if tx.tx_type == TxType.miner_abort
          then accepted
          else sender_validate node accounts height source)

unfoldable pub miner_type_check : ℕ → Verdict
miner_type_check t = check (is_proposal_role t || is_verify_role t) unknown_miner_type

unfoldable pub fund_guard_mode_check : ℕ → Verdict
fund_guard_mode_check mode = check (mode == six_add_five || mode == six_add_six) unknown_mode

-- tx.Data[0]
abbrev pub first_byte : Transaction → (ℕ → Verdict) → Verdict
first_byte tx f = elim tx.payload [ [] ↦ crashed | b ∷ bs ↦ f b ]

unfoldable pub transfer_validator : Transaction → Verdict
unfolding value_validate
transfer_validator tx = check (present tx.target) target_nil >> value_validate tx

unfoldable pub keys_check : Option MinerPks → Verdict
unfolding miner_type_check
keys_check none = rejected payload_error
keys_check (some p) = miner_type_check p.mtype

unfoldable pub stake_add_validator : Transaction → Verdict
unfolding value_validate keys_check
stake_add_validator tx =
    check (not (length tx.payload == 0)) data_empty
    >> check (present tx.target) target_nil
    >> keys_check (decode_payload tx.payload)
    >> value_validate tx

unfoldable pub miner_abort_validator : Transaction → Verdict
unfolding miner_type_check
miner_abort_validator tx =
    check (length tx.payload == 1) data_length >> first_byte tx miner_type_check

unfoldable pub stake_reduce_validator : Transaction → Verdict
unfolding miner_type_check
stake_reduce_validator tx =
    check (length tx.payload == 1) data_length
    >> check (present tx.target) target_nil
    >> first_byte tx miner_type_check
    >> check (present tx.value) value_nil
    >> deref tx.value (λ v. check (is_uint64 v) value_not_uint64 >> check (not (v == 0)) value_zero)

unfoldable pub stake_refund_validator : Transaction → Verdict
unfolding miner_type_check
stake_refund_validator tx =
    check (length tx.payload == 1) data_length
    >> check (present tx.target) target_nil
    >> first_byte tx miner_type_check

unfoldable pub vote_miner_pool_validator : Transaction → Verdict
vote_miner_pool_validator tx = check (present tx.target) target_nil

-- `IsInExtractGuardNodes`
unfoldable pub is_in_extract_guard_nodes : Address → List Address → Bool
is_in_extract_guard_nodes a [] = false
is_in_extract_guard_nodes a (g ∷ gs) = g == a || is_in_extract_guard_nodes a gs

-- The first byte is read before the length is checked.
unfoldable pub change_fund_guard_mode_validator : Node → Transaction → Verdict
unfolding fund_guard_mode_check is_in_extract_guard_nodes
change_fund_guard_mode_validator node tx =
    first_byte tx fund_guard_mode_check
    >> deref tx.source (λ a. check (is_in_extract_guard_nodes a node.extract_guards) not_a_guard)
    >> check (length tx.payload == 1) data_length

unfoldable pub group_validator : Transaction → Verdict
group_validator tx =
    check (not (length tx.payload == 0)) data_empty
    >> check (not (present tx.target)) target_not_nil

unfoldable pub contract_create_validator : Transaction → Verdict
unfolding value_validate
contract_create_validator tx =
    check (not (length tx.payload == 0)) data_empty
    >> check (not (present tx.target)) target_not_nil
    >> value_validate tx

unfoldable pub contract_call_validator : Transaction → Verdict
unfolding value_validate
contract_call_validator tx =
    check (not (length tx.payload == 0)) data_empty
    >> check (present tx.target) target_nil
    >> value_validate tx

-- `VerifyRewardTransaction`: the share of a target is what it is paid. The division by no targets
-- panics.
unfoldable pub verify_claim : Node → Transaction → Option Claim → Verdict
verify_claim node tx none = rejected reward_refused
verify_claim node tx (some c) =
    if length c.targets == 0
    then crashed
    else deref tx.value (λ v. check (c.total_for_verifier / length c.targets == v) reward_refused)
      >> check (node.verify_members tx) reward_refused

abbrev pub reward_format : Transaction → Verdict
reward_format tx =
    check (length tx.payload == 32) data_length
    >> check (not (length tx.extra_data == 0)) extra_data_empty
    >> value_validate tx

unfoldable pub reward_validate : Node → Transaction → Verdict
unfolding value_validate verify_claim
reward_validate node tx = reward_format tx >> verify_claim node tx (node.read_claim tx)

unfoldable pub black_update_validate : Node → Transaction → Bool → Verdict
black_update_validate node tx validate_state =
    check (node.is_zip003 node.height) unknown_type
    >> check (not (length tx.payload == 0)) data_empty
    >> deref tx.source (λ a. check (a == node.admin) not_the_admin)
    >> (if validate_state
        then check (present node.latest) no_state
          >> check (node.verify_black_update tx) black_update_refused
        else accepted)

-- The switch on the type.
unfoldable pub type_validate : Node → Transaction → Bool → Verdict
type_validate node tx validate_state =
    let t = tx.tx_type in
    if t == TxType.transfer
    then transfer_validator tx
    else if t == TxType.contract_create
    then contract_create_validator tx
    else if t == TxType.contract_call
    then contract_call_validator tx
    else if t == TxType.stake_add
    then stake_add_validator tx
    else if t == TxType.miner_abort
    then miner_abort_validator tx
    else if t == TxType.stake_reduce
    then stake_reduce_validator tx
    else if t == TxType.stake_refund
    then stake_refund_validator tx
    else if t == TxType.apply_guard_miner
    then accepted
    else if t == TxType.vote_miner_pool
    then vote_miner_pool_validator tx
    else if t == TxType.change_fund_guard_mode
    then change_fund_guard_mode_validator node tx
    else if t == TxType.group_piece || (t == TxType.group_mpk || t == TxType.group_origin_piece)
    then group_validator tx
    else if t == TxType.blacklist_update
    then black_update_validate node tx validate_state
    else rejected unknown_type

unfoldable pub latest_validate : Node → Transaction → Option Accounts → Verdict
unfolding state_validate
latest_validate node tx none = rejected no_state
latest_validate node tx (some accounts) = state_validate node accounts tx node.height

-- `getValidator`: with the state, as the pool validates, or without, as blocks are validated.
unfoldable pub validate : Node → Transaction → Bool → Verdict
validate node tx validate_state =
    common_validate tx
    >> (if is_reward tx
        then reward_validate node tx
        else gas_validate tx
          >> check (present tx.source) source_nil
          >> (if validate_state then latest_validate node tx node.latest else accepted)
          >> type_validate node tx validate_state
          >> source_recover node tx)
