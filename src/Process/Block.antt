-- ===== src/Process/Block.antt =====
-- What a block does to the tokens: fees, minted rewards and the gas limit.
use zvchain.Base.{
  ℕ, ◌+◌, ◌*◌, ◌%◌, ◌<◌, ◌≤◌, ◌≡◌, refl, ap, Bool, Bool-cases, true, false, not, ◌&&◌, ◌||◌, Option,
  none, some, List, [], ◌∷◌, ◌++◌, length, length-append, ltb, leb, inl, inr, arith, if◌then◌else◌,
  u64_mod, u64, add64, add64_exact,
}
use zvchain.Stake.Types.{Address}
use zvchain.Stake.Limits.{adjust_weight_period}
use zvchain.Stake.Db.{Db}
use zvchain.Stake.Ledger.{worth, Inv}
use zvchain.Transaction.{Transaction, is_reward, gas_limit_per_transaction, gas_limit_per_block}
use zvchain.Transaction.Validate.{accepted, validate, present}
use zvchain.Transaction.Safety.{validate-typed, present-some, validate-value}
use zvchain.Process.{
  Header, Receipt, Batch, Turn, next, stop, crash, set_nonce, include, settle_turn, take_turn,
  follow, process_txs,
}
use zvchain.Process.Transition.{
  World, Services, RewardOp, Applied, evicted, applied, broke_down, credit, reward_targets,
  pay_reward, apply_reward, apply_normal, apply_state_transition, is_set,
}
use zvchain.Process.Money.{worth-credit, credit-Inv}
use zvchain.Process.Charges.{Honest, Charged, apply_normal-Charged}

abbrev pub or_zero : Option ℕ → ℕ
or_zero none = 0
or_zero (some n) = n

abbrev pub reward_sum : Option ℕ → Option RewardOp → ℕ
reward_sum value none = 0
reward_sum value (some op) = length op.targets * or_zero value + op.pack_fee

reward_targets-Inv :
    (value : ℕ) (targets : List Address) (d : Db)
    → Inv d
    → worth d + length targets * value < u64_mod
    → (d' : Db) × (reward_targets (some value) targets d ≡ some d')
      × Inv d'
      × (worth d' ≡ worth d + length targets * value)
unfolding reward_targets
reward_targets-Inv value [] d v h = (d, refl, v, omega arith)
reward_targets-Inv value (a ∷ rest) d v h =
    let total = worth-credit a value d in
    let (d', e, v', w) =
      reward_targets-Inv value rest (credit a value d) (credit-Inv a value d v (grind (arith, h)))
        (grind (arith, h, total)) in
    (d', e, v', grind (arith, w, total))

unfoldable pub gas_sum : List Receipt → ℕ
gas_sum [] = 0
gas_sum (r ∷ rs) = r.gas_used + gas_sum rs

gas_sum-snoc : (rs : List Receipt) (r : Receipt) → gas_sum (rs ++ r ∷ []) ≡ gas_sum rs + r.gas_used
unfolding gas_sum
gas_sum-snoc [] r = omega arith
gas_sum-snoc (x ∷ rs) r = omega (arith, gas_sum-snoc rs r)

-- The fees of a block by its receipts: the gas used by each at the price of its transaction.
unfoldable pub fee_sum : List Transaction → List Receipt → ℕ
fee_sum [] rs = 0
fee_sum (tx ∷ txs) [] = 0
fee_sum (tx ∷ txs) (r ∷ rs) = r.gas_used * or_zero tx.gas_price + fee_sum txs rs

fee_sum-snoc :
    (txs : List Transaction) (rs : List Receipt) (tx : Transaction) (r : Receipt)
    → length rs ≡ length txs
    → fee_sum (txs ++ tx ∷ []) (rs ++ r ∷ []) ≡ fee_sum txs rs + r.gas_used * or_zero tx.gas_price
unfolding fee_sum
fee_sum-snoc [] [] tx r e = omega arith
fee_sum-snoc [] (x ∷ rs) tx r e = absurd (omega (arith, e))
fee_sum-snoc (t ∷ txs) [] tx r e = absurd (omega (arith, e))
fee_sum-snoc (t ∷ txs) (x ∷ rs) tx r e = omega (arith, fee_sum-snoc txs rs tx r (omega (arith, e)))

reward_path :
    (b : Bool) (o : Option RewardOp) (v : Option ℕ) (op : RewardOp) (value : ℕ)
    → b ≡ true
    → o ≡ some op
    → v ≡ some value
    → (if b then reward_sum v o else 0) ≡ length op.targets * value + op.pack_fee
reward_path b o v op value r p e = rw (r, p, e) refl

module _ {S : Type 0} where
  -- The tokens that a transaction makes: what a reward pays.
  unfoldable pub minted : Services S → Transaction → ℕ
  minted services tx = if is_reward tx then reward_sum tx.value (services.parse_reward tx) else 0

  unfoldable pub minted_all : Services S → List Transaction → ℕ
  minted_all services [] = 0
  minted_all services (tx ∷ txs) = minted services tx + minted_all services txs

  -- A transaction that validation has accepted, with a gas price also if it is a reward.
  pub record IsReady (services : Services S) (tx : Transaction) : Type 0 where
    pub with_state : Bool
    pub valid : validate services.node tx with_state ≡ accepted
    pub priced : present tx.gas_price ≡ true

  abbrev pub AllReady : Services S → List Transaction → Type 0
  AllReady services [] = Unit {0}
  AllReady services (tx ∷ txs) = IsReady services tx × AllReady services txs

  -- A transaction makes what it mints, and burns its fee.
  abbrev Burned : Services S → Transaction → World S → Applied S → Type 0
  Burned services tx w evicted = Unit {0}
  Burned services tx w broke_down = ⊥
  Burned services tx w (applied w' has_error gas price) =
      Inv w'.db
      × (worth w'.db + gas * price ≡ worth w.db + minted services tx)
      × (gas ≤ gas_limit_per_transaction)
      × (tx.gas_price ≡ some price)

  pay_reward-Burned :
      (services : Services S) (tx : Transaction) (castor : Address) (op : RewardOp) (w : World S)
      (o p : Option ℕ) (hash value price : ℕ)
      → o ≡ some value
      → p ≡ some price
      → tx.gas_price ≡ some price
      → minted services tx ≡ length op.targets * value + op.pack_fee
      → Inv w.db
      → worth w.db + minted services tx < u64_mod
      → Burned services tx w (pay_reward hash p castor op w (reward_targets o op.targets w.db))
  unfolding pay_reward
  pay_reward-Burned services tx castor op w o p hash value price e q g m v h =
      let (d', f, v', total) = reward_targets-Inv value op.targets w.db v (omega (arith, m, h)) in
      rw (e, q, f)
        (
          credit-Inv castor op.pack_fee d' v' (omega (arith, m, h, total)),
          omega (arith, m, total, worth-credit castor op.pack_fee d'),
          omega arith,
          g,
        )

  minted-reward :
      (services : Services S) (tx : Transaction) (op : RewardOp) (value : ℕ)
      → is_reward tx ≡ true
      → services.parse_reward tx ≡ some op
      → tx.value ≡ some value
      → minted services tx ≡ length op.targets * value + op.pack_fee
  unfolding minted
  minted-reward services tx op value r p e =
      reward_path (is_reward tx) (services.parse_reward tx) tx.value op value r p e

  apply_reward-Burned :
      (services : Services S) (tx : Transaction) (castor : Address) (w : World S)
      (o : Option RewardOp) (value price : ℕ)
      → is_reward tx ≡ true
      → services.parse_reward tx ≡ o
      → tx.value ≡ some value
      → tx.gas_price ≡ some price
      → Inv w.db
      → worth w.db + minted services tx < u64_mod
      → Burned services tx w (apply_reward services castor tx o w)
  unfolding apply_reward
  apply_reward-Burned services tx castor w none value price r p e q v h = tt
  apply_reward-Burned services tx castor w (some op) value price r p e q v h =
      elim (Bool-cases
        (not (services.has_block op.block_hash) || is_set (w.rewarded op.block_hash))) [
          | inl old ↦ rw old tt
          | inr new ↦ rw new (
              pay_reward-Burned services tx castor op w tx.value tx.gas_price tx.hash value price e
                q q (minted-reward services tx op value r p e) v h)
        ]

  minted-normal :
      (services : Services S) (tx : Transaction) → is_reward tx ≡ false → minted services tx ≡ 0
  unfolding minted
  minted-normal services tx r = rw r refl

  Charged-Burned :
      (services : Services S) (tx : Transaction) (source : Address) (w : World S) (a : Applied S)
      → is_reward tx ≡ false
      → Charged tx source w a
      → Burned services tx w a
  Charged-Burned services tx source w evicted r c = tt
  Charged-Burned services tx source w broke_down r c = c
  Charged-Burned services tx source w (applied w' has_error gas price) r c =
      (c.0, omega (arith, c.1, minted-normal services tx r), c.2, c.4)

  apply_state_transition-Burned :
      (services : Services S) (header : Header) (tx : Transaction) (w : World S)
      → Honest services
      → IsReady services tx
      → header.height + adjust_weight_period < u64_mod
      → Inv w.db
      → worth w.db + minted services tx < u64_mod
      → Burned services tx w (apply_state_transition services header.height header.castor tx w)
  unfolding apply_state_transition
  apply_state_transition-Burned services header tx w h ready in_range v fits =
      elim (Bool-cases (is_reward tx)) [
        | inl r ↦
            let (value, e) = validate-value services.node tx ready.with_state ready.valid r in
            let (price, q) = present-some tx.gas_price ready.priced in
            rw r (
              apply_reward-Burned services tx header.castor w (services.parse_reward tx) value price
                r refl e q v fits)
        | inr r ↦
            let (g, sourced, typed) =
              validate-typed services.node tx ready.with_state ready.valid r in
            let (source, e) = present-some tx.source sourced in
            rw r (
              Charged-Burned services tx source w (apply_normal services header.height tx w) r (
                apply_normal-Charged services header.height source tx w ready.with_state h
                  ready.valid r e in_range v))
      ]

  -- What a batch of the block has done to `base` tokens: the sources have paid its gas fee, its
  -- rewards are minted, and its receipts stay within the gas limit.
  pub record IsBalanced (services : Services S) (base : ℕ) (b : Batch S) : Type 0 where
    pub inv : Inv b.world.db
    pub tokens : worth b.world.db + b.gas_fee ≡ base + minted_all services b.transactions
    pub gas : gas_sum b.receipts ≤ gas_limit_per_block
    pub paired : length b.receipts ≡ length b.transactions
    pub fee : b.gas_fee ≡ fee_sum b.transactions b.receipts

  module _ (services : Services S) where
    minted_all-snoc :
        (txs : List Transaction) (tx : Transaction)
        → minted_all services (txs ++ tx ∷ []) ≡ minted_all services txs + minted services tx
    unfolding minted_all
    minted_all-snoc [] tx = omega arith
    minted_all-snoc (t ∷ txs) tx = omega (arith, minted_all-snoc txs tx)

    -- A turn keeps the balance, and goes on with a count of the gas.
    abbrev Keeps : ℕ → Transaction → Batch S → Turn S → Type 0
    Keeps base tx b crash = ⊥
    Keeps base tx b (stop b') =
        IsBalanced services base b'
        × (minted_all services b'.transactions
            ≤ minted_all services b.transactions + minted services tx)
    Keeps base tx b (next b') =
        IsBalanced services base b'
        × (b'.total_gas_used ≡ gas_sum b'.receipts)
        × (minted_all services b'.transactions
            ≤ minted_all services b.transactions + minted services tx)

    set_nonce-db : (o : Option Address) (nonce : ℕ) (w : World S) → (set_nonce o nonce w).db ≡ w.db
    set_nonce-db none nonce w = refl
    set_nonce-db (some a) nonce w = refl

    include-Keeps :
        (base height price gas : ℕ) (tx : Transaction) (w : World S) (has_error : Bool)
        (b : Batch S)
        → IsBalanced services base b
        → b.total_gas_used ≡ gas_sum b.receipts
        → base + (minted_all services b.transactions + minted services tx) < u64_mod
        → Burned services tx b.world (applied w has_error gas price)
        → Keeps base tx b (include height tx price w has_error gas b)
    unfolding include
    include-Keeps base height price gas tx w has_error b k c fits (v, eq, l, priced) =
        let small : u64 gas ≡ gas = omega (arith, l) in
        let small_fee : u64 (gas * price) ≡ gas * price = omega (arith, eq, k.tokens, fits) in
        let sum : add64 b.total_gas_used (u64 gas) ≡ b.total_gas_used + gas =
          rw small (add64_exact b.total_gas_used gas (omega (arith, l, c, k.gas))) in
        let fee : add64 b.gas_fee (u64 (gas * price)) ≡ b.gas_fee + gas * price =
          rw small_fee (add64_exact b.gas_fee (gas * price) (omega (arith, eq, k.tokens, fits))) in
        let more = minted_all-snoc b.transactions tx in
        let db = set_nonce-db tx.source tx.nonce w in
        elim (Bool-cases (ltb gas_limit_per_block (b.total_gas_used + gas))) [
          | inl over ↦
              rw (sum, over)
                (
                  record {
                    inv = k.inv;
                    tokens = k.tokens;
                    gas = k.gas;
                    paired = k.paired;
                    fee = k.fee;
                  },
                  omega arith,
                )
          | inr within ↦
              let receipt : Receipt = record {
                tx_hash = tx.hash;
                has_error = has_error;
                gas_used = gas;
                tx_index = length b.transactions % 65536;
                height = height;
              } in
              let gas_of = gas_sum-snoc b.receipts receipt in
              rw (sum, within, fee, small)
                (
                  record {
                    inv = rw db v;
                    tokens = rw db (omega (arith, eq, k.tokens, more));
                    gas = ground (arith, within, c, gas_of);
                    paired = omega (
                      arith,
                      length-append b.receipts (receipt ∷ []),
                      length-append b.transactions (tx ∷ []),
                      k.paired,
                    );
                    fee = omega (
                      arith,
                      k.fee,
                      fee_sum-snoc b.transactions b.receipts tx receipt k.paired,
                      ap (λ p. gas * or_zero p) priced,
                    );
                  },
                  omega (arith, c, gas_of),
                  omega (arith, more),
                )
        ]

    settle_turn-Keeps :
        (base height : ℕ) (tx : Transaction) (a : Applied S) (b : Batch S)
        → IsBalanced services base b
        → b.total_gas_used ≡ gas_sum b.receipts
        → base + (minted_all services b.transactions + minted services tx) < u64_mod
        → Burned services tx b.world a
        → Keeps base tx b (settle_turn height tx a b)
    unfolding settle_turn
    settle_turn-Keeps base height tx evicted b k c fits burned = (
      record { inv = k.inv; tokens = k.tokens; gas = k.gas; paired = k.paired; fee = k.fee },
      c,
      omega arith,
    )
    settle_turn-Keeps base height tx broke_down b k c fits burned = burned
    settle_turn-Keeps base height tx (applied w has_error gas price) b k c fits burned =
        include-Keeps base height price gas tx w has_error b k c fits burned

    stop-Keeps :
        (base : ℕ) (tx : Transaction) (b : Batch S)
        → IsBalanced services base b
        → Keeps base tx b (stop b)
    stop-Keeps base tx b k = (k, omega arith)

    take_turn-Keeps :
        (base : ℕ) (header : Header) (pack : Bool) (late : Transaction → Bool) (tx : Transaction)
        (b : Batch S)
        → Honest services
        → IsReady services tx
        → header.height + adjust_weight_period < u64_mod
        → IsBalanced services base b
        → b.total_gas_used ≡ gas_sum b.receipts
        → base + (minted_all services b.transactions + minted services tx) < u64_mod
        → Keeps base tx b (take_turn services header pack late tx b)
    unfolding take_turn
    take_turn-Keeps base header pack late tx b h ready in_range k c fits =
        let turn = settle_turn-Keeps base header.height tx _ b k c fits (
          apply_state_transition-Burned services header tx b.world h ready in_range k.inv
            (omega (arith, k.tokens, fits))) in
        elim (Bool-cases (pack && late tx)) [
          | inl over ↦ rw over (stop-Keeps base tx b k)
          | inr early ↦ elim (Bool-cases (pack && leb gas_limit_per_block b.total_gas_used)) [
            | inl full ↦ rw (early, full) (stop-Keeps base tx b k)
            | inr room ↦ rw (early, room) turn
          ]
        ]

    -- The rest of the loop, from the end of a turn.
    follow-IsBalanced :
        (base more : ℕ) (tx : Transaction) (b : Batch S) (t : Turn S)
        (f : Batch S → Option (Batch S))
        → Keeps base tx b t
        → ((b' : Batch S)
            → IsBalanced services base b'
            → b'.total_gas_used ≡ gas_sum b'.receipts
            → minted_all services b'.transactions
              ≤ minted_all services b.transactions + minted services tx
            → (e : Batch S) × (f b' ≡ some e)
              × IsBalanced services base e
              × (minted_all services e.transactions
                  ≤ minted_all services b.transactions + minted services tx + more))
        → (e : Batch S) × (follow f t ≡ some e)
          × IsBalanced services base e
          × (minted_all services e.transactions
              ≤ minted_all services b.transactions + minted services tx + more)
    follow-IsBalanced base more tx b (next b') f k go = go b' k.0 k.1 k.2
    follow-IsBalanced base more tx b (stop b') f k go = (b', refl, k.0, omega (arith, k.1))
    follow-IsBalanced base more tx b crash f k go = absurd k

    pub process_txs-IsBalanced :
        (base : ℕ) (header : Header) (pack : Bool) (late : Transaction → Bool)
        (txs : List Transaction) (b : Batch S)
        → Honest services
        → AllReady services txs
        → header.height + adjust_weight_period < u64_mod
        → IsBalanced services base b
        → b.total_gas_used ≡ gas_sum b.receipts
        → base + (minted_all services b.transactions + minted_all services txs) < u64_mod
        → (e : Batch S) × (process_txs services header pack late txs b ≡ some e)
          × IsBalanced services base e
          × (minted_all services e.transactions
              ≤ minted_all services b.transactions + minted_all services txs)
    unfolding process_txs minted_all
    process_txs-IsBalanced base header pack late [] b h ready in_range k c fits =
        (b, refl, k, omega arith)
    process_txs-IsBalanced base header pack late (tx ∷ txs) b h ready in_range k c fits =
        let (e, run, bal, le) =
          follow-IsBalanced base (minted_all services txs) tx b
            (take_turn services header pack late tx b) (process_txs services header pack late txs)
            (take_turn-Keeps base header pack late tx b h ready.0 in_range k c
              (omega (arith, fits)))
            λ b' k' c' m.
              let (e, run, bal, le) =
                process_txs-IsBalanced base header pack late txs b' h ready.1 in_range k' c'
                  (omega (arith, m, fits)) in
              (e, run, bal, omega (arith, le, m)) in
        (e, run, bal, omega (arith, le))
