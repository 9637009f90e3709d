-- ===== src/Process/Tests.antt =====
-- A block of two transfers, the second of which is evicted, and the theorems at it.
use zvchain.Base.{ℕ, ◌+◌, ◌<◌, u64_mod, ◌≡◌, refl, true, false, none, some, List, [], ◌∷◌, arith}
use zvchain.Stake.Db.{Db, update}
use zvchain.Stake.Ledger.{worth, Inv}
use zvchain.Transaction.TxType
use zvchain.Transaction.{Transaction, intrinsic_gas, valid_gas_price}
use zvchain.Transaction.Validate.{
  Node, accepted, validate, common_validate, gas_validate, type_validate, source_recover,
  same_source, transfer_validator, value_validate, state_validate, afford_value, sender_validate,
}
use zvchain.Base.{add64, sub64, mul64}
use zvchain.Economy.{
  block_rewards, reward_shift, user_nodes_rewards, daemon_node_weight, daemon_nodes_rewards,
  miner_nodes_weight, miner_nodes_rewards, calculate_castor_rewards,
  calculate_gas_fee_castor_rewards,
}
use zvchain.Process.{
  Header, Batch, process, process_txs, take_turn, settle_turn, include, close_block, pay_rewards,
  pay_node, castor_total_rewards,
}
use zvchain.Process.Transition.{
  World, Services, apply_normal, apply_state_transition, check_state, validate_nonce,
  charge_and_run, run_parsed, run_operation, run_transfer, transfer, credit, debit, refund_gas,
}
use zvchain.Transaction.Parse.{parse_transaction, parse_transfer}
use zvchain.Process.Charges.{Honest, Charged, apply_normal-Charged}
use zvchain.Process.Block.{AllReady, minted_all, minted}
use zvchain.Process.Totals.{fixed_rewards, IsClosed, process-IsClosed}
use zvchain.Process.Order.{InOrder, process-InOrder}

abbrev node : Node
node = record {
  height = 100;
  latest = none;
  is_zip003 = λ h. false;
  extract_guards = [];
  admin = 0;
  recover = λ h s. some 1;
  read_claim = λ tx. none;
  verify_members = λ tx. true;
  verify_black_update = λ tx. false;
}

abbrev services : Services ℕ
services = record {
  node = node;
  env = record {
    platform = 0;
    forks = record { zip003 = 0; zip004 = 0 };
    in_no_group = λ h a. true;
  };
  decode_black = λ w tx. some none;
  foreign_parses = λ w tx. some true;
  run_foreign = λ h tx w. record { world = w; has_error = false; gas_used = intrinsic_gas tx };
  parse_reward = λ tx. none;
  has_block = λ h. true;
  daemon_node = 50;
  user_node = 51;
}

services-Honest : Honest services
services-Honest = (
  λ height limit tx w g l v. (v, refl, l),
  λ tx w h. ground (arith, h),
  λ tx w h. ground (arith, h),
)

abbrev bank : Db
bank = record {
  balances = (1, 1000000) ∷ [];
  miners = [];
  details = [];
  proposal_total = 0;
  proposal_pool = λ a. false;
  verifier_pool = λ a. false;
  nil_pool_key = false;
  tickets = λ a. 0;
  votes = λ a. none;
  fund_guards = λ a. none;
  full_guards = λ a. false;
}

bank-Inv : Inv bank
bank-Inv = record {
  total_active = refl;
  proposals = refl;
  backed = λ a t. refl;
  distinct = tt;
  keyed = λ a t m h. absurd (ground (arith, h));
  supply = omega arith;
}

abbrev world : World ℕ
world = record {
  db = bank;
  nonces = λ a. 0;
  blacks = λ a. false;
  cached_blacks = λ a. false;
  rewarded = λ h. none;
  rest = 0;
}

abbrev pay : ℕ → ℕ → Transaction
pay nonce value = record {
  payload = [];
  value = some value;
  nonce = nonce;
  target = some 2;
  tx_type = TxType.transfer;
  gas_limit = some 800;
  gas_price = some 500;
  extra_data = [];
  sign = some (7 ∷ []);
  source = some 1;
  hash = 9 + nonce;
}

abbrev header : Header
header = record { height = 100; castor = 60 }

pay_accepted : validate node (pay 1 5) false ≡ accepted
unfolding validate common_validate gas_validate intrinsic_gas type_validate transfer_validator
    value_validate source_recover same_source
pay_accepted = refl

overdraw_accepted : validate node (pay 2 700000) false ≡ accepted
unfolding validate common_validate gas_validate intrinsic_gas type_validate transfer_validator
    value_validate source_recover same_source
overdraw_accepted = refl

apply_normal-Charged_example : Charged (pay 1 5) 1 world (apply_normal services 100 (pay 1 5) world)
apply_normal-Charged_example =
    apply_normal-Charged services 100 1 (pay 1 5) world false services-Honest pay_accepted refl refl
      (omega arith) bank-Inv

abbrev txs : List Transaction
txs = pay 1 5 ∷ pay 2 700000 ∷ []

txs-ready : AllReady services txs
txs-ready = (
  record { with_state = false; valid = pay_accepted; priced = refl },
  (record { with_state = false; valid = overdraw_accepted; priced = refl }, tt),
)

-- The state after the block: 400 of gas at a price of 500, of which the castor has nine tenths.
abbrev closed : Batch ℕ
closed = record {
  world = record world {
    db = record bank {
      balances = (1, 799995) ∷ (2, 5) ∷ (50, 3911222857) ∷ (51, 888914285) ∷ (60, 45939270285) ∷ [];
    };
    nonces = update world.nonces 1 1;
  };
  evicted_txs = 11 ∷ [];
  transactions = pay 1 5 ∷ [];
  receipts =
      record { tx_hash = 10; has_error = false; gas_used = 400; tx_index = 0; height = 100 } ∷ [];
  total_gas_used = 400;
  gas_fee = 200000;
}

block_run : process services header false (λ tx. false) txs world ≡ some closed
unfolding process process_txs take_turn settle_turn include apply_state_transition apply_normal
    check_state validate_nonce state_validate afford_value sender_validate valid_gas_price
    charge_and_run parse_transaction parse_transfer run_parsed run_operation run_transfer transfer
    credit debit refund_gas intrinsic_gas close_block pay_rewards pay_node castor_total_rewards
    calculate_castor_rewards calculate_gas_fee_castor_rewards daemon_nodes_rewards
    user_nodes_rewards miner_nodes_rewards block_rewards reward_shift daemon_node_weight
    miner_nodes_weight mul64 add64 sub64
block_run = refl

small_enough : worth bank + minted_all services txs + fixed_rewards 100 < u64_mod
unfolding minted_all minted daemon_nodes_rewards calculate_castor_rewards user_nodes_rewards
    miner_nodes_rewards block_rewards reward_shift daemon_node_weight miner_nodes_weight mul64 add64
    sub64
small_enough = omega arith

process-IsClosed_example :
    (b : Batch ℕ) × (process services header false (λ tx. false) txs world ≡ some b)
    × IsClosed services 100 world b
process-IsClosed_example =
    process-IsClosed services header false (λ tx. false) txs world services-Honest txs-ready
      (omega arith) bank-Inv small_enough

process-InOrder_example : InOrder 1 0 closed
process-InOrder_example =
    process-InOrder 1 services header false (λ tx. false) txs world closed (λ h tx w. refl)
      ((λ r. absurd (ground (arith, r))), ((λ r. absurd (ground (arith, r))), tt)) block_run
