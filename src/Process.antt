-- ===== src/Process.antt =====
-- The execution of a block's transactions: core/state_processor.go.
pub mod Transition
pub mod Money
pub mod Heights
pub mod Charges
pub mod Block
pub mod Totals
pub mod Order
mod Tests
use zvchain.Base.{
  ℕ, ◌+◌, ◌-◌, ◌*◌, ◌%◌, length, Bool, true, false, ◌&&◌, Option, none, some, List, [], ◌∷◌, ◌++◌,
  ltb, leb, ◌==◌, if◌then◌else◌, u64, add64,
}
use zvchain.Stake.Types.{Address}
use zvchain.Stake.Db.{Db, update}
use zvchain.Economy.{
  calculate_castor_rewards, calculate_gas_fee_castor_rewards, daemon_nodes_rewards,
  user_nodes_rewards,
}
use zvchain.Transaction.{Transaction, is_reward, gas_limit_per_block}
use Transition.{
  World, Services, Applied, evicted, applied, broke_down, apply_state_transition, credit,
}

pub record Header : Type 0 where
  pub height : ℕ
  pub castor : Address

-- `types.Receipt`, its status as whether it is one of an error, without what contracts put in it.
pub record Receipt : Type 0 where
  pub tx_hash : ℕ
  pub has_error : Bool
  pub gas_used : ℕ
  pub tx_index : ℕ
  pub height : ℕ

-- The variables of the loop over the transactions.
pub record Batch (S : Type 0) : Type 0 where
  pub world : World S
  pub evicted_txs : List ℕ
  pub transactions : List Transaction
  pub receipts : List Receipt
  pub total_gas_used : ℕ
  pub gas_fee : ℕ

unfoldable pub pay_node : Address → ℕ → Db → Db
unfolding credit
pay_node a amount d = if amount == 0 then d else credit a amount d

unfoldable pub castor_total_rewards : ℕ → ℕ → ℕ
castor_total_rewards height gas_fee =
    add64 (calculate_gas_fee_castor_rewards gas_fee) (calculate_castor_rewards height)

-- A turn of the loop goes on, ends it, or panics.
pub data Turn (S : Type 0) : Type 0 where
  next : Batch S → Turn S
  stop : Batch S → Turn S
  crash : Turn S

module _ {S : Type 0} where
  abbrev pub set_nonce : Option Address → ℕ → World S → World S
  set_nonce none nonce w = w
  set_nonce (some source) nonce w = record w { nonces = update w.nonces source nonce }

  -- A transaction that has been applied takes its place in the block, unless its gas is too much.
  unfoldable pub include : ℕ → Transaction → ℕ → World S → Bool → ℕ → Batch S → Turn S
  include height tx price w has_error gas b =
      let total = add64 b.total_gas_used (u64 gas) in
      if ltb gas_limit_per_block total
      then stop (record b { total_gas_used = total })
      else next (record b {
        world = set_nonce tx.source tx.nonce w;
        transactions = b.transactions ++ tx ∷ [];
        receipts =
            b.receipts
            ++ record {
              tx_hash = tx.hash;
              has_error = has_error;
              gas_used = u64 gas;
              tx_index = length b.transactions % 65536;
              height = height;
            }
              ∷ [];
        total_gas_used = total;
        gas_fee = add64 b.gas_fee (u64 (gas * price));
      })

  unfoldable pub settle_turn : ℕ → Transaction → Applied S → Batch S → Turn S
  settle_turn height tx evicted b = next (record b { evicted_txs = b.evicted_txs ++ tx.hash ∷ [] })
  settle_turn height tx (applied w has_error gas price) b =
      include height tx price w has_error gas b
  settle_turn height tx broke_down b = crash

  -- `late` is whether the time for packaging is over.
  unfoldable pub take_turn :
      Services S → Header → Bool → (Transaction → Bool) → Transaction → Batch S → Turn S
  take_turn services header pack late tx b =
      if pack && late tx
      then stop b
      else if pack && leb gas_limit_per_block b.total_gas_used
      then stop b
      else settle_turn header.height tx
          (apply_state_transition services header.height header.castor tx b.world) b

  abbrev pub follow : (Batch S → Option (Batch S)) → Turn S → Option (Batch S)
  follow f (next b) = f b
  follow f (stop b) = some b
  follow f crash = none

  unfoldable pub process_txs :
      Services S
      → Header
      → Bool
      → (Transaction → Bool)
      → List Transaction
      → Batch S
      → Option (Batch S)
  process_txs services header pack late [] b = some b
  process_txs services header pack late (tx ∷ txs) b =
      follow (process_txs services header pack late txs) (take_turn services header pack late tx b)

  abbrev pub start_batch : World S → Batch S
  start_batch w = record {
    world = w;
    evicted_txs = [];
    transactions = [];
    receipts = [];
    total_gas_used = 0;
    gas_fee = 0;
  }

  -- The rewards that close a block: of daemon nodes, user nodes and the castor.
  unfoldable pub pay_rewards : Services S → Header → ℕ → Db → Db
  pay_rewards services header gas_fee d =
      credit header.castor (castor_total_rewards header.height gas_fee) (
        pay_node services.user_node (user_nodes_rewards header.height)
          (pay_node services.daemon_node (daemon_nodes_rewards header.height) d))

  unfoldable pub close_block : Services S → Header → Batch S → Batch S
  close_block services header b = record b {
    world = record b.world { db = pay_rewards services header b.gas_fee b.world.db };
  }

  abbrev pub map_batch : (Batch S → Batch S) → Option (Batch S) → Option (Batch S)
  map_batch f none = none
  map_batch f (some b) = some (f b)

  -- `process`, at a block where no fork moves foundation accounts.
  unfoldable pub process :
      Services S
      → Header
      → Bool
      → (Transaction → Bool)
      → List Transaction
      → World S
      → Option (Batch S)
  process services header pack late txs w =
      map_batch (close_block services header)
        (process_txs services header pack late txs (start_batch w))
