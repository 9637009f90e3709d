-- ===== src/Transaction/Tests.antt =====
-- Validation and parsing of small transactions, and the theorems at them.
use zvchain.Base.{
  arith, ◌⊎◌, ◌≡◌, ◌≢◌, ◌↔◌, refl, inr, true, false, none, some, [], ◌∷◌, ◌==◌, if◌then◌else◌,
}
use zvchain.Stake.Types.{MinerPks}
use zvchain.Transaction.TxType
use zvchain.Transaction.{Transaction, intrinsic_gas}
use zvchain.Transaction.Payload.{decode_payload, encode_payload, decode_payload_iff}
use zvchain.Transaction.Validate.{
  Node, Accounts, accepted, crashed, validate, common_validate, gas_validate, type_validate,
  source_recover, same_source, transfer_validator, value_validate, change_fund_guard_mode_validator,
  latest_validate, state_validate, afford_value,
}
use zvchain.Transaction.Parse.{broken, parse_transaction}
use zvchain.Transaction.Safety.{IsAdmitted, IsIdleReward, MustCrash, validate_panics_iff}
use zvchain.Transaction.Accepted.{parse_transaction-ne-broken}

abbrev bare_keys : MinerPks
bare_keys = record { mtype = 1; pk = []; vrf_pk = [] }

decode_payload_iff_example :
    (decode_payload (1 ∷ 1 ∷ []) ≡ some bare_keys) ↔ (encode_payload bare_keys ≡ 1 ∷ 1 ∷ [])
decode_payload_iff_example = decode_payload_iff (1 ∷ 1 ∷ []) bare_keys (inr (refl, refl))

abbrev accounts : Accounts
accounts = record {
  balance_of = λ a. if a == 1 then 1000000 else 0;
  nonce_of = λ a. 0;
  is_black = λ a. false;
}

abbrev node : Node
node = record {
  height = 100;
  latest = some accounts;
  is_zip003 = λ h. false;
  extract_guards = [];
  admin = 0;
  recover = λ h s. some 1;
  read_claim = λ tx. none;
  verify_members = λ tx. true;
  verify_black_update = λ tx. false;
}

-- A transfer of 5 from 1 to 2.
abbrev pay : Transaction
pay = record {
  payload = [];
  value = some 5;
  nonce = 1;
  target = some 2;
  tx_type = TxType.transfer;
  gas_limit = some 1000;
  gas_price = some 500;
  extra_data = [];
  sign = some (7 ∷ []);
  source = some 1;
  hash = 9;
}

pay_accepted : validate node pay false ≡ accepted
unfolding validate common_validate gas_validate intrinsic_gas type_validate transfer_validator
    value_validate source_recover same_source
pay_accepted = refl

-- A change of mode with no data, and a transfer of no value.
abbrev no_mode : Transaction
no_mode = record pay { tx_type = TxType.change_fund_guard_mode }

abbrev no_value : Transaction
no_value = record pay { value = none }

no_mode_crashes : validate node no_mode false ≡ crashed
unfolding validate common_validate gas_validate intrinsic_gas type_validate
    change_fund_guard_mode_validator
no_mode_crashes = refl

no_value_crashes : validate node no_value true ≡ crashed
unfolding validate common_validate gas_validate intrinsic_gas latest_validate state_validate
    afford_value
no_value_crashes = refl

validate_panics_iff_example :
    (validate node no_mode false ≡ crashed)
    ↔ (IsIdleReward node no_mode ⊎ (IsAdmitted no_mode × MustCrash node no_mode false))
validate_panics_iff_example = validate_panics_iff node no_mode false

parse_transaction-ne-broken_example : parse_transaction (some none) (some false) 100 pay ≢ broken
parse_transaction-ne-broken_example =
    parse_transaction-ne-broken node pay false pay_accepted refl (some none) (some false) 100
      (λ h. ground (arith, h)) (λ h. ground (arith, h))
