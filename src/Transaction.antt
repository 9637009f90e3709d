-- ===== src/Transaction.antt =====
-- Transactions, middleware/types/core.go, and what of them core/tx_validate.go checks without the
-- state. A nil field is `none`; an amount is a big integer, of which those below 0, that
-- its codec allows, are left out. A type is the byte of its int8.
pub mod TxType
pub mod Payload
pub mod Validate
pub mod Parse
pub mod Safety
pub mod Accepted
mod Tests
use zvchain.Base.{
  ℕ, ◌+◌, ◌*◌, ◌/◌, ◌^◌, Bool, not, Option, List, length, ltb, leb, ◌==◌, if◌then◌else◌, mul64,
}
use zvchain.Stake.Types.{Address}
use zvchain.Transaction.TxType

-- `RawTransaction` with the hash of `Transaction`.
pub record Transaction : Type 0 where
  pub payload : List ℕ
  pub value : Option ℕ
  pub nonce : ℕ
  pub target : Option Address
  pub tx_type : ℕ
  pub gas_limit : Option ℕ
  pub gas_price : Option ℕ
  pub extra_data : List ℕ
  pub sign : Option (List ℕ)
  pub source : Option Address
  pub hash : ℕ

abbrev pub is_reward : Transaction → Bool
is_reward tx = tx.tx_type == TxType.reward

abbrev pub transaction_gas_cost : ℕ
transaction_gas_cost = 400

abbrev pub code_byte_price : ℕ
code_byte_price = 19073

abbrev pub code_byte_price_precision : ℕ
code_byte_price_precision = 10000

abbrev pub tx_max_size : ℕ
tx_max_size = 64000

abbrev pub gas_limit_per_transaction : ℕ
gas_limit_per_transaction = 500000

abbrev pub gas_limit_per_block : ℕ
gas_limit_per_block = 2000000

abbrev pub adjust_gas_price_period : ℕ
adjust_gas_price_period = 30000000

abbrev pub adjust_gas_price_times : ℕ
adjust_gas_price_times = 3

abbrev pub initial_min_gas_price : ℕ
initial_min_gas_price = 500

-- The lengths of data in memory are far below the range of Go's int.
unfoldable pub intrinsic_gas : Transaction → ℕ
intrinsic_gas tx =
    transaction_gas_cost
    + (length tx.payload + length tx.extra_data) * code_byte_price / code_byte_price_precision

unfoldable pub valid_gas_price : ℕ → ℕ → Bool
valid_gas_price gas_price height =
    let periods = height / adjust_gas_price_period in
    let times = if ltb adjust_gas_price_times periods then adjust_gas_price_times else periods in
    not (ltb gas_price (initial_min_gas_price * 2 ^ times))
