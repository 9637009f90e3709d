-- ===== src/Process/Totals.antt =====
-- The whole block: `process` always ends, and the tokens add up.
use zvchain.Base.{
  ℕ, ◌+◌, ◌<◌, ◌≤◌, ◌≡◌, refl, Bool, Bool-cases, some, List, length, ◌==◌, ==_iff, inl, inr, arith,
  u64_mod, add64, mul64,
}
use zvchain.Stake.Types.{Address}
use zvchain.Stake.Limits.{adjust_weight_period}
use zvchain.Stake.Db.{Db}
use zvchain.Stake.Ledger.{worth, Inv}
use zvchain.Economy.{
  calculate_castor_rewards, calculate_gas_fee_castor_rewards, daemon_nodes_rewards,
  user_nodes_rewards,
}
use zvchain.Transaction.{Transaction, gas_limit_per_block}
use zvchain.Process.{
  Header, Batch, start_batch, pay_node, castor_total_rewards, pay_rewards, close_block, process,
}
use zvchain.Process.Transition.{World, Services}
use zvchain.Process.Money.{worth-credit, credit-Inv}
use zvchain.Process.Charges.{Honest}
use zvchain.Process.Block.{
  minted_all, AllReady, IsBalanced, gas_sum, fee_sum, process_txs-IsBalanced,
}

worth-pay_node : (a : Address) (n : ℕ) (d : Db) → worth (pay_node a n d) ≡ worth d + n
unfolding pay_node
worth-pay_node a n d = ground (arith, worth-credit a n d, ==_iff n 0)

pay_node-Inv : (a : Address) (n : ℕ) (d : Db) → Inv d → worth d + n < u64_mod → Inv (pay_node a n d)
unfolding pay_node
pay_node-Inv a n d v h = elim (Bool-cases (n == 0)) [
  | inl e ↦ rw e v
  | inr e ↦ rw e (credit-Inv a n d v h)
]

castor_total_rewards_le :
    (height gas_fee : ℕ)
    → castor_total_rewards height gas_fee ≤ gas_fee + calculate_castor_rewards height
unfolding castor_total_rewards calculate_gas_fee_castor_rewards add64 mul64
castor_total_rewards_le height gas_fee = omega arith

-- What a block pays at its end, whatever its fees.
abbrev pub fixed_rewards : ℕ → ℕ
fixed_rewards height =
    calculate_castor_rewards height + (daemon_nodes_rewards height + user_nodes_rewards height)

-- What the end of a block pays, with the castor's share of the fees.
abbrev pub closing_rewards : ℕ → ℕ → ℕ
closing_rewards height gas_fee =
    castor_total_rewards height gas_fee + (daemon_nodes_rewards height + user_nodes_rewards height)

module _ {S : Type 0} where
  pay_rewards-Inv :
      (services : Services S) (header : Header) (gas_fee : ℕ) (d : Db)
      → Inv d
      → worth d + closing_rewards header.height gas_fee < u64_mod
      → Inv (pay_rewards services header gas_fee d)
        × (worth (pay_rewards services header gas_fee d)
            ≡ worth d + closing_rewards header.height gas_fee)
  unfolding pay_rewards
  pay_rewards-Inv services header gas_fee d v h =
      let dn = daemon_nodes_rewards header.height in
      let un = user_nodes_rewards header.height in
      let d1 = pay_node services.daemon_node dn d in
      let d2 = pay_node services.user_node un d1 in
      let w1 = worth-pay_node services.daemon_node dn d in
      let w2 = worth-pay_node services.user_node un d1 in
      let w3 = worth-credit header.castor (castor_total_rewards header.height gas_fee) d2 in
      let v1 = pay_node-Inv services.daemon_node dn d v (omega (arith, h)) in
      let v2 = pay_node-Inv services.user_node un d1 v1 (omega (arith, h, w1)) in
      (
        credit-Inv header.castor (castor_total_rewards header.height gas_fee) d2 v2
            (omega (arith, h, w1, w2)),
        omega (arith, w1, w2, w3),
      )

  -- What a block has done: the books hold, the tokens of the sources' fees are gone, those of the
  -- rewards are there, the gas is within its limit, and there is a receipt for each transaction.
  pub record IsClosed (services : Services S) (height : ℕ) (w : World S) (b : Batch S)
      : Type 0 where
    pub inv : Inv b.world.db
    pub tokens :
        worth b.world.db + b.gas_fee
        ≡ worth w.db + minted_all services b.transactions + closing_rewards height b.gas_fee
    pub gas : gas_sum b.receipts ≤ gas_limit_per_block
    pub paired : length b.receipts ≡ length b.transactions
    pub fee : b.gas_fee ≡ fee_sum b.transactions b.receipts

  start-IsBalanced :
      (services : Services S) (w : World S)
      → Inv w.db
      → IsBalanced services (worth w.db) (start_batch w)
  unfolding minted_all gas_sum fee_sum
  start-IsBalanced services w v = record {
    inv = v;
    tokens = omega arith;
    gas = omega arith;
    paired = refl;
    fee = refl;
  }

  close_block-IsClosed :
      (services : Services S) (header : Header) (w : World S) (b : Batch S)
      → IsBalanced services (worth w.db) b
      → worth w.db + minted_all services b.transactions + fixed_rewards header.height < u64_mod
      → IsClosed services header.height w (close_block services header b)
  unfolding close_block
  close_block-IsClosed services header w b k h =
      let castor = castor_total_rewards_le header.height b.gas_fee in
      let (v, total) =
        pay_rewards-Inv services header b.gas_fee b.world.db k.inv
          (omega (arith, castor, k.tokens, h)) in
      record {
        inv = v;
        tokens = omega (arith, total, k.tokens);
        gas = k.gas;
        paired = k.paired;
        fee = k.fee;
      }

  start_gas :
      (services : Services S) (w : World S)
      → (start_batch w).total_gas_used ≡ gas_sum (start_batch w).receipts
  unfolding gas_sum
  start_gas services w = refl

  start_minted :
      (services : Services S) (w : World S) → minted_all services (start_batch w).transactions ≡ 0
  unfolding minted_all
  start_minted services w = refl

  -- From sound books, with tokens that fit a uint64 also after all rewards, and at a height from
  -- which a guard's period does not overflow, a block of transactions that validation has accepted,
  -- rewards with a gas price among them, is executed without a panic, where contracts, groups and
  -- blacklist updates are parsed without a panic, and contracts and groups keep the books and their
  -- gas limits. After it the books hold, the tokens and the block's gas fee are those before and the
  -- minted rewards, the fee is the sum of what the receipts' gas costs at the gas price of each
  -- transaction, not wrapped around, the gas of all receipts stays within the block's limit, and
  -- every transaction has a receipt.
  pub process-IsClosed :
      (services : Services S) (header : Header) (pack : Bool) (late : Transaction → Bool)
      (txs : List Transaction) (w : World S)
      → Honest services
      → AllReady services txs
      → header.height + adjust_weight_period < u64_mod
      → Inv w.db
      → worth w.db + minted_all services txs + fixed_rewards header.height < u64_mod
      → (b : Batch S) × (process services header pack late txs w ≡ some b)
        × IsClosed services header.height w b
  unfolding process
  process-IsClosed services header pack late txs w h ready in_range v fits =
      let (e, run, bal, le) =
        process_txs-IsBalanced services (worth w.db) header pack late txs (start_batch w) h ready
          in_range (start-IsBalanced services w v) (start_gas services w)
          (omega (arith, fits, start_minted services w)) in
      (
        close_block services header e,
        rw run refl,
        close_block-IsClosed services header w e bal
            (omega (arith, fits, le, start_minted services w)),
      )
