-- ===== src/Transaction/Accepted.antt =====
-- No validated transaction makes the execution panic when it is parsed.
use zvchain.Base.{
  ℕ, ◌≡◌, ◌≢◌, refl, sym, ◌∙◌, Bool, true, false, Option, none, some, ◌||◌, ◌==◌, ==_iff, inl, inr,
  ◌⊎◌, arith, if◌then◌else◌,
}
use zvchain.Stake.Chain.{apply_guard_op}
use zvchain.Transaction.TxType
use zvchain.Transaction.{Transaction, is_reward}
use zvchain.Transaction.Validate.{
  accepted, Node, validate, type_validate, transfer_validator, contract_create_validator,
  contract_call_validator, stake_add_validator, miner_abort_validator, stake_reduce_validator,
  stake_refund_validator, vote_miner_pool_validator, value_validate, keys_check, pays_value,
}
use zvchain.Transaction.Parse.{
  BlackOperator, Parsed, ready, unsupported, broken, parse_transaction, parse_transfer,
  parse_stake_add, parse_keys, parse_miner_abort, parse_stake_reduce, parse_stake_refund,
  parse_vote_miner_pool, parse_change_mode, foreign_parsed, black_parsed, miner_op, read,
}
use zvchain.Transaction.Safety.{validate-typed, present-some}

if_whole :
    (b : Bool) (v w : Parsed)
    → (b ≡ true → v ≢ broken)
    → (b ≡ false → w ≢ broken)
    → (if b then v else w) ≢ broken
if_whole true v w p q = p refl
if_whole false v w p q = q refl

module _ (node : Node) (tx : Transaction) (validate_state : Bool) where
  transfer_validator-accepted :
      tx.tx_type ≡ TxType.transfer
      → type_validate node tx validate_state ≡ accepted
      → transfer_validator tx ≡ accepted
  unfolding type_validate
  transfer_validator-accepted t h = sym (ground (arith, t)) ∙ h

  stake_add_validator-accepted :
      tx.tx_type ≡ TxType.stake_add
      → type_validate node tx validate_state ≡ accepted
      → stake_add_validator tx ≡ accepted
  unfolding type_validate
  stake_add_validator-accepted t h = sym (ground (arith, t)) ∙ h

  miner_abort_validator-accepted :
      tx.tx_type ≡ TxType.miner_abort
      → type_validate node tx validate_state ≡ accepted
      → miner_abort_validator tx ≡ accepted
  unfolding type_validate
  miner_abort_validator-accepted t h = sym (ground (arith, t)) ∙ h

  vote_miner_pool_validator-accepted :
      tx.tx_type ≡ TxType.vote_miner_pool
      → type_validate node tx validate_state ≡ accepted
      → vote_miner_pool_validator tx ≡ accepted
  unfolding type_validate
  vote_miner_pool_validator-accepted t h = sym (ground (arith, t)) ∙ h

  stake_reduce_validator-accepted :
      tx.tx_type ≡ TxType.stake_reduce
      → type_validate node tx validate_state ≡ accepted
      → stake_reduce_validator tx ≡ accepted
  unfolding type_validate
  stake_reduce_validator-accepted t h = sym (ground (arith, t)) ∙ h

  stake_refund_validator-accepted :
      tx.tx_type ≡ TxType.stake_refund
      → type_validate node tx validate_state ≡ accepted
      → stake_refund_validator tx ≡ accepted
  unfolding type_validate
  stake_refund_validator-accepted t h = sym (ground (arith, t)) ∙ h

  contract_create_validator-accepted :
      tx.tx_type ≡ TxType.contract_create
      → type_validate node tx validate_state ≡ accepted
      → contract_create_validator tx ≡ accepted
  unfolding type_validate
  contract_create_validator-accepted t h = sym (ground (arith, t)) ∙ h

  contract_call_validator-accepted :
      tx.tx_type ≡ TxType.contract_call
      → type_validate node tx validate_state ≡ accepted
      → contract_call_validator tx ≡ accepted
  unfolding type_validate
  contract_call_validator-accepted t h = sym (ground (arith, t)) ∙ h

parse_transfer-whole :
    (tx : Transaction) (source : ℕ)
    → tx.source ≡ some source
    → transfer_validator tx ≡ accepted
    → parse_transfer tx ≢ broken
unfolding parse_transfer transfer_validator
parse_transfer-whole tx source e h k = ground arith

parse_stake_add-whole :
    (height : ℕ) (tx : Transaction) (source : ℕ)
    → tx.source ≡ some source
    → stake_add_validator tx ≡ accepted
    → parse_stake_add height tx ≢ broken
unfolding parse_stake_add stake_add_validator parse_keys value_validate keys_check
parse_stake_add-whole height tx source e h k = ground arith

parse_miner_abort-whole :
    (height : ℕ) (tx : Transaction) (source : ℕ)
    → tx.source ≡ some source
    → miner_abort_validator tx ≡ accepted
    → parse_miner_abort height tx ≢ broken
unfolding parse_miner_abort miner_abort_validator
parse_miner_abort-whole height tx source e h k = ground arith

parse_vote_miner_pool-whole :
    (height : ℕ) (tx : Transaction) (source : ℕ)
    → tx.source ≡ some source
    → vote_miner_pool_validator tx ≡ accepted
    → parse_vote_miner_pool height tx.target tx ≢ broken
unfolding parse_vote_miner_pool vote_miner_pool_validator
parse_vote_miner_pool-whole height tx source e h k = ground arith

parse_stake_reduce-whole :
    (height : ℕ) (tx : Transaction) (source : ℕ)
    → tx.source ≡ some source
    → stake_reduce_validator tx ≡ accepted
    → parse_stake_reduce height tx ≢ broken
unfolding parse_stake_reduce stake_reduce_validator
parse_stake_reduce-whole height tx source e h k = ground arith

parse_stake_refund-whole :
    (height : ℕ) (tx : Transaction) (source : ℕ)
    → tx.source ≡ some source
    → stake_refund_validator tx ≡ accepted
    → parse_stake_refund height tx ≢ broken
unfolding parse_stake_refund stake_refund_validator
parse_stake_refund-whole height tx source e h k = ground arith

parse_change_mode-whole :
    (height : ℕ) (tx : Transaction) (source : ℕ)
    → tx.source ≡ some source
    → parse_change_mode height tx ≢ broken
unfolding parse_change_mode
parse_change_mode-whole height tx source e k = ground arith

foreign_whole : (o : Option Bool) → o ≢ none → foreign_parsed o ≢ broken
foreign_whole none n h = n refl
foreign_whole (some true) n h = ground arith
foreign_whole (some false) n h = ground arith

black_whole : (o : Option (Option BlackOperator)) → o ≢ none → black_parsed o ≢ broken
black_whole none n h = n refl
black_whole (some none) n h = ground arith
black_whole (some (some b)) n h = ground arith

unsupported_whole : unsupported ≢ broken
unsupported_whole h = ground arith

guard_whole :
    (height : ℕ) (tx : Transaction) (source : ℕ)
    → tx.source ≡ some source
    → read tx.source (λ a. ready (miner_op (apply_guard_op height a))) ≢ broken
guard_whole height tx source e h = ground arith

-- A transaction that validation has accepted, with or without a state, and that is no reward, is
-- parsed without a panic at every height, and gives an operation or an error, where the parsing of
-- contracts and groups and the decoding of blacklist updates do not panic.
pub parse_transaction-ne-broken :
    (node : Node) (tx : Transaction) (validate_state : Bool)
    → validate node tx validate_state ≡ accepted
    → is_reward tx ≡ false
    → (black : Option (Option BlackOperator)) (foreign_parses : Option Bool) (height : ℕ)
    → black ≢ none
    → foreign_parses ≢ none
    → parse_transaction black foreign_parses height tx ≢ broken
unfolding parse_transaction
parse_transaction-ne-broken node tx validate_state ok r black foreign_parses height decodes parses =
    let (gas, sourced, typed) = validate-typed node tx validate_state ok r in
    let (source, e) = present-some tx.source sourced in
    let t = tx.tx_type in
    if_whole (t == TxType.transfer) _ _
      (λ q.
        parse_transfer-whole tx source e
          (transfer_validator-accepted node tx validate_state ((==_iff _ _).0 q) typed))
      (λ _.
        (if_whole (t == TxType.contract_create) _ _ (λ q. foreign_whole foreign_parses parses)
          (λ _.
            (if_whole (t == TxType.contract_call) _ _ (λ q. foreign_whole foreign_parses parses)
              (λ _.
                (if_whole (t == TxType.stake_add) _ _
                  (λ q.
                    parse_stake_add-whole height tx source e (
                      stake_add_validator-accepted node tx validate_state ((==_iff _ _).0 q) typed))
                  (λ _.
                    (if_whole (t == TxType.miner_abort) _ _
                      (λ q. parse_miner_abort-whole height tx source e (
                        miner_abort_validator-accepted node tx validate_state ((==_iff _ _).0 q)
                          typed))
                      (λ _.
                        (if_whole (t == TxType.vote_miner_pool) _ _
                          (λ q. parse_vote_miner_pool-whole height tx source e (
                            vote_miner_pool_validator-accepted node tx validate_state
                              ((==_iff _ _).0 q) typed))
                          (λ _.
                            (if_whole (t == TxType.stake_reduce) _ _
                              (λ q. parse_stake_reduce-whole height tx source e (
                                stake_reduce_validator-accepted node tx validate_state
                                  ((==_iff _ _).0 q) typed))
                              (λ _.
                                (if_whole (t == TxType.apply_guard_miner) _ _
                                  (λ q. guard_whole height tx source e)
                                  (λ _.
                                    (if_whole (t == TxType.stake_refund) _ _
                                      (λ q. parse_stake_refund-whole height tx source e (
                                        stake_refund_validator-accepted node tx validate_state
                                          ((==_iff _ _).0 q) typed))
                                      (λ _.
                                        (if_whole (t == TxType.change_fund_guard_mode) _ _
                                          (λ q. parse_change_mode-whole height tx source e)
                                          (λ _.
                                            (if_whole
                                              (t == TxType.group_piece
                                                || (t == TxType.group_mpk
                                                    || t == TxType.group_origin_piece))
                                              _ _ (λ q. foreign_whole foreign_parses parses)
                                              (λ _.
                                                (if_whole (t == TxType.blacklist_update) _ _
                                                  (λ q. black_whole black decodes)
                                                  (λ _. unsupported_whole)))))))))))))))))))))))

transfer_validator-value : (tx : Transaction) → transfer_validator tx ≡ accepted → tx.value ≢ none
unfolding transfer_validator value_validate
transfer_validator-value tx h n = ground arith

stake_add_validator-value : (tx : Transaction) → stake_add_validator tx ≡ accepted → tx.value ≢ none
unfolding stake_add_validator value_validate
stake_add_validator-value tx h n = ground arith

contract_create_validator-value :
    (tx : Transaction) → contract_create_validator tx ≡ accepted → tx.value ≢ none
unfolding contract_create_validator value_validate
contract_create_validator-value tx h n = ground arith

contract_call_validator-value :
    (tx : Transaction) → contract_call_validator tx ≡ accepted → tx.value ≢ none
unfolding contract_call_validator value_validate
contract_call_validator-value tx h n = ground arith

pays_value-cases :
    (t : ℕ)
    → pays_value t ≡ true
    → (t ≡ TxType.transfer)
      ⊎ ((t ≡ TxType.contract_create) ⊎ ((t ≡ TxType.contract_call) ⊎ (t ≡ TxType.stake_add)))
pays_value-cases t h = ground arith

-- The value of a transaction that pays one is not nil.
pub type_validate-value :
    (node : Node) (tx : Transaction) (validate_state : Bool)
    → type_validate node tx validate_state ≡ accepted
    → pays_value tx.tx_type ≡ true
    → tx.value ≢ none
type_validate-value node tx validate_state h p = elim (pays_value-cases tx.tx_type p) [
  | inl t ↦ transfer_validator-value tx (transfer_validator-accepted node tx validate_state t h)
  | inr (inl t) ↦
      contract_create_validator-value tx
        (contract_create_validator-accepted node tx validate_state t h)
  | inr (inr (inl t)) ↦
      contract_call_validator-value tx (contract_call_validator-accepted node tx validate_state t h)
  | inr (inr (inr t)) ↦
      stake_add_validator-value tx (stake_add_validator-accepted node tx validate_state t h)
]
