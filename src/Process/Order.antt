-- ===== src/Process/Order.antt =====
-- The nonces of a block's transactions: no transaction of a source is left out or replayed.
use zvchain.Base.{
  ℕ, ◌*◌, ◌≡◌, refl, sym, ap, ◌∙◌, Bool, Bool-cases, true, false, not, ◌&&◌, ◌||◌, Option, none,
  some, some-injective, List, [], ◌∷◌, ◌++◌, ltb, leb, ◌==◌, ==_iff, inl, inr, arith, if◌then◌else◌,
  add64, u64,
}
use zvchain.Stake.Types.{Address}
use zvchain.Stake.Db.{Db}
use zvchain.Stake.Chain.{transition}
use zvchain.Transaction.{Transaction, is_reward, intrinsic_gas, gas_limit_per_block}
use zvchain.Transaction.Validate.{Verdict, accepted, rejected, crashed, check, deref, nonce_error}
use zvchain.Transaction.Parse.{
  transfer_op, miner_op, black_op, foreign_op, Parsed, ready, refused, unsupported, broken,
  parse_transaction,
}
use zvchain.Transaction.Safety.{both, check-true}
use zvchain.Process.{
  Header, Batch, Turn, next, stop, crash, set_nonce, include, settle_turn, take_turn, follow,
  process_txs, start_batch, close_block, map_batch, process,
}
use zvchain.Process.Transition.{
  World, Ran, Services, RewardOp, Ending, fine, erred, panic, run_transfer, ending_of, in_world,
  run_operation, do_transition, run_parsed, Applied, evicted, applied, broke_down, refund_gas,
  charge_and_run, validate_nonce, check_state, with_gas, on_verdict, apply_normal, pay_reward,
  apply_reward, apply_state_transition, debit, is_set,
}

abbrev pub is_from : Address → Option Address → Bool
is_from a none = false
is_from a (some source) = source == a

-- The nonces of the transactions of a source, in their order.
unfoldable pub nonces_of : Address → List Transaction → List ℕ
nonces_of a [] = []
nonces_of a (tx ∷ txs) = if is_from a tx.source then tx.nonce ∷ nonces_of a txs else nonces_of a txs

-- Each nonce is the one before and one, as uint64; the first follows `n`.
abbrev pub Consecutive : ℕ → List ℕ → Type 0
Consecutive n [] = Unit {0}
Consecutive n (m ∷ ms) = (m ≡ add64 n 1) × Consecutive m ms

abbrev pub last_nonce : ℕ → List ℕ → ℕ
last_nonce n [] = n
last_nonce n (m ∷ ms) = last_nonce m ms

Consecutive-snoc :
    (n m : ℕ) (ms : List ℕ)
    → Consecutive n ms
    → m ≡ add64 (last_nonce n ms) 1
    → Consecutive n (ms ++ m ∷ [])
Consecutive-snoc n m [] c e = (e, tt)
Consecutive-snoc n m (k ∷ ms) c e = (c.0, Consecutive-snoc k m ms c.1 e)

last_nonce-snoc : (n m : ℕ) (ms : List ℕ) → last_nonce n (ms ++ m ∷ []) ≡ m
last_nonce-snoc n m [] = refl
last_nonce-snoc n m (k ∷ ms) = last_nonce-snoc k m ms

nonces_of-snoc_from :
    (a : Address) (txs : List Transaction) (tx : Transaction)
    → is_from a tx.source ≡ true
    → nonces_of a (txs ++ tx ∷ []) ≡ nonces_of a txs ++ tx.nonce ∷ []
unfolding nonces_of
nonces_of-snoc_from a [] tx h = rw h refl
nonces_of-snoc_from a (t ∷ txs) tx h = elim (Bool-cases (is_from a t.source)) [
  | inl e ↦ rw e (ap (λ ms. t.nonce ∷ ms) (nonces_of-snoc_from a txs tx h))
  | inr e ↦ rw e (nonces_of-snoc_from a txs tx h)
]

nonces_of-snoc_other :
    (a : Address) (txs : List Transaction) (tx : Transaction)
    → is_from a tx.source ≡ false
    → nonces_of a (txs ++ tx ∷ []) ≡ nonces_of a txs
unfolding nonces_of
nonces_of-snoc_other a [] tx h = rw h refl
nonces_of-snoc_other a (t ∷ txs) tx h = elim (Bool-cases (is_from a t.source)) [
  | inl e ↦ rw e (ap (λ ms. t.nonce ∷ ms) (nonces_of-snoc_other a txs tx h))
  | inr e ↦ rw e (nonces_of-snoc_other a txs tx h)
]

-- No reward comes from the source: rewards have none.
abbrev pub RewardsUnsigned : Address → List Transaction → Type 0
RewardsUnsigned a [] = Unit {0}
RewardsUnsigned a (tx ∷ txs) =
    (is_reward tx ≡ true → is_from a tx.source ≡ false) × RewardsUnsigned a txs

module _ {S : Type 0} (a : Address) where
  -- Contracts and groups leave the source's nonce alone.
  abbrev pub KeepsNonce : Services S → Type 0
  KeepsNonce services =
      (height : ℕ) (tx : Transaction) (w : World S)
      → (services.run_foreign height tx w).world.nonces a ≡ w.nonces a

  abbrev Same : World S → Option (Ran S) → Type 0
  Same w none = Unit {0}
  Same w (some r) = r.world.nonces a ≡ w.nonces a

  -- The nonce stays for the end of the turn, and the transaction's follows it.
  abbrev Follows : Transaction → World S → Applied S → Type 0
  Follows tx w evicted = Unit {0}
  Follows tx w broke_down = Unit {0}
  Follows tx w (applied w' has_error gas price) =
      (w'.nonces a ≡ w.nonces a) × (is_from a tx.source ≡ true → tx.nonce ≡ add64 (w.nonces a) 1)

  in_world-Same : (w : World S) (gas : ℕ) (e : Ending) → Same w (in_world w gas e)
  in_world-Same w gas (fine d) = refl
  in_world-Same w gas (erred d) = refl
  in_world-Same w gas panic = tt

  do_transition-Same : (w : World S) (o : Option (Ran S)) → Same w o → Same w (do_transition w o)
  do_transition-Same w none s = tt
  do_transition-Same w (some r) s = elim (Bool-cases r.has_error) [
    | inl e ↦ rw e refl
    | inr e ↦ rw e s
  ]

  run_parsed-Same :
      (services : Services S) (height : ℕ) (tx : Transaction) (p : Parsed) (w : World S)
      → KeepsNonce services
      → Same w (run_parsed services height tx p w)
  unfolding run_parsed run_operation
  run_parsed-Same services height tx (ready (transfer_op source target value)) w k =
      do_transition-Same w _
        (in_world-Same w (intrinsic_gas tx) (run_transfer source target value w.db))
  run_parsed-Same services height tx (ready (miner_op op)) w k =
      do_transition-Same w _
        (in_world-Same w (intrinsic_gas tx) (ending_of (transition services.env op w.db)))
  run_parsed-Same services height tx (ready (black_op b)) w k = refl
  run_parsed-Same services height tx (ready foreign_op) w k =
      do_transition-Same w (some (services.run_foreign height tx w)) (k height tx w)
  run_parsed-Same services height tx refused w k = refl
  run_parsed-Same services height tx unsupported w k = refl
  run_parsed-Same services height tx broken w k = tt

  refund_gas-Follows :
      (source limit price : ℕ) (tx : Transaction) (w c : World S) (o : Option (Ran S))
      → Same c o
      → c.nonces a ≡ w.nonces a
      → (is_from a tx.source ≡ true → tx.nonce ≡ add64 (w.nonces a) 1)
      → Follows tx w (refund_gas source limit price o)
  unfolding refund_gas
  refund_gas-Follows source limit price tx w c none s e n = tt
  refund_gas-Follows source limit price tx w c (some r) s e n =
      elim (Bool-cases (ltb r.gas_used limit)) [ inl l ↦ rw l (s ∙ e, n) | inr l ↦ rw l (s ∙ e, n) ]

  with_gas-Follows :
      (tx : Transaction) (w : World S) (o : Option Address) (l p : Option ℕ)
      (f : Address → ℕ → ℕ → Applied S)
      → ((source limit price : ℕ) → o ≡ some source → Follows tx w (f source limit price))
      → Follows tx w (with_gas o l p f)
  with_gas-Follows tx w (some source) (some limit) (some price) f k = k source limit price refl
  with_gas-Follows tx w none l p f k = tt
  with_gas-Follows tx w (some source) none p f k = tt
  with_gas-Follows tx w (some source) (some limit) none f k = tt

  on_verdict-Follows :
      (tx : Transaction) (w : World S) (u : Verdict) (r : Applied S)
      → (u ≡ accepted → Follows tx w r)
      → Follows tx w (on_verdict u r)
  on_verdict-Follows tx w accepted r k = k refl
  on_verdict-Follows tx w (rejected e) r k = tt
  on_verdict-Follows tx w crashed r k = tt

  source_follows :
      (o : Option Address) (nonce : ℕ) (w : World S)
      → deref o (λ source. check (nonce == add64 (w.nonces source) 1) nonce_error) ≡ accepted
      → is_from a o ≡ true
      → nonce ≡ add64 (w.nonces a) 1
  source_follows none nonce w ok from = absurd (ground (arith, from))
  source_follows (some source) nonce w ok from =
      (==_iff _ _).0 (check-true _ _ ok)
      ∙ ap (λ (x : ℕ). add64 (w.nonces x) 1) ((==_iff source a).0 from)

  -- An accepted nonce follows that of its source.
  validate_nonce-follows :
      (tx : Transaction) (w : World S)
      → is_reward tx ≡ false
      → validate_nonce w tx ≡ accepted
      → is_from a tx.source ≡ true
      → tx.nonce ≡ add64 (w.nonces a) 1
  unfolding validate_nonce
  validate_nonce-follows tx w r ok from = source_follows tx.source tx.nonce w (rw r at (ok)) from

  apply_normal-Follows :
      (services : Services S) (height : ℕ) (tx : Transaction) (w : World S)
      → KeepsNonce services
      → is_reward tx ≡ false
      → Follows tx w (apply_normal services height tx w)
  unfolding apply_normal check_state charge_and_run
  apply_normal-Follows services height tx w k r =
      on_verdict-Follows tx w (check_state services height tx w) _ λ ok.
        with_gas-Follows tx w _ _ _ _ λ source limit price e.
          let charged = record w { db = debit source (limit * price) w.db } in
          refund_gas-Follows source limit price tx w charged _
            (run_parsed-Same services height tx
              (parse_transaction (services.decode_black charged tx)
                (services.foreign_parses charged tx) height tx)
              charged k)
            refl (validate_nonce-follows tx w r (both (validate_nonce w tx) _ ok).0)

  pay_reward-Follows :
      (tx : Transaction) (hash : ℕ) (p : Option ℕ) (castor : Address) (op : RewardOp) (w : World S)
      (o : Option Db)
      → is_from a tx.source ≡ false
      → Follows tx w (pay_reward hash p castor op w o)
  unfolding pay_reward
  pay_reward-Follows tx hash p castor op w none n = tt
  pay_reward-Follows tx hash none castor op w (some d) n = tt
  pay_reward-Follows tx hash (some price) castor op w (some d) n =
      (refl, λ f. absurd (ground (arith, n, f)))

  apply_reward-Follows :
      (services : Services S) (castor : Address) (tx : Transaction) (o : Option RewardOp)
      (w : World S)
      → is_from a tx.source ≡ false
      → Follows tx w (apply_reward services castor tx o w)
  unfolding apply_reward
  apply_reward-Follows services castor tx none w n = tt
  apply_reward-Follows services castor tx (some op) w n =
      elim (Bool-cases
        (not (services.has_block op.block_hash) || is_set (w.rewarded op.block_hash))) [
          | inl old ↦ rw old tt
          | inr new ↦ rw new (pay_reward-Follows tx tx.hash tx.gas_price castor op w _ n)
        ]

  apply_state_transition-Follows :
      (services : Services S) (header : Header) (tx : Transaction) (w : World S)
      → KeepsNonce services
      → (is_reward tx ≡ true → is_from a tx.source ≡ false)
      → Follows tx w (apply_state_transition services header.height header.castor tx w)
  unfolding apply_state_transition
  apply_state_transition-Follows services header tx w k u = elim (Bool-cases (is_reward tx)) [
    | inl r ↦
        rw r (apply_reward-Follows services header.castor tx (services.parse_reward tx) w (u r))
    | inr r ↦ rw r (apply_normal-Follows services header.height tx w k r)
  ]

  -- The nonces of the source in the block so far.
  pub record InOrder (n : ℕ) (b : Batch S) : Type 0 where
    pub consecutive : Consecutive n (nonces_of a b.transactions)
    pub last : b.world.nonces a ≡ last_nonce n (nonces_of a b.transactions)

  abbrev Orders : ℕ → Turn S → Type 0
  Orders n crash = Unit {0}
  Orders n (stop b) = InOrder n b
  Orders n (next b) = InOrder n b

  set_nonce-from :
      (o : Option Address) (nonce : ℕ) (w : World S)
      → is_from a o ≡ true
      → (set_nonce o nonce w).nonces a ≡ nonce
  set_nonce-from none nonce w h = absurd (ground (arith, h))
  set_nonce-from (some source) nonce w h = ground (arith, h)

  set_nonce-other :
      (o : Option Address) (nonce : ℕ) (w : World S)
      → is_from a o ≡ false
      → (set_nonce o nonce w).nonces a ≡ w.nonces a
  set_nonce-other none nonce w h = refl
  set_nonce-other (some source) nonce w h = ground (arith, h)

  include-InOrder :
      (n height price gas : ℕ) (tx : Transaction) (w : World S) (has_error : Bool) (b : Batch S)
      → InOrder n b
      → Follows tx b.world (applied w has_error gas price)
      → Orders n (include height tx price w has_error gas b)
  unfolding include
  include-InOrder n height price gas tx w has_error b k (same, follows) =
      elim (Bool-cases (ltb gas_limit_per_block (add64 b.total_gas_used (u64 gas)))) [
        | inl over ↦ rw over (record { consecutive = k.consecutive; last = k.last })
        | inr within ↦ rw within (elim (Bool-cases (is_from a tx.source)) [
          | inl from ↦
              let more = nonces_of-snoc_from a b.transactions tx from in
              record {
                consecutive = rw more (
                    Consecutive-snoc n tx.nonce (nonces_of a b.transactions) k.consecutive
                      (rw (← k.last) (follows from)));
                last =
                    set_nonce-from tx.source tx.nonce w from
                    ∙ rw more (sym (last_nonce-snoc n tx.nonce (nonces_of a b.transactions)));
              }
          | inr other ↦
              let same_list = nonces_of-snoc_other a b.transactions tx other in
              record {
                consecutive = rw same_list k.consecutive;
                last = set_nonce-other tx.source tx.nonce w other ∙ same ∙ rw same_list k.last;
              }
        ])
      ]

  settle_turn-InOrder :
      (n height : ℕ) (tx : Transaction) (r : Applied S) (b : Batch S)
      → InOrder n b
      → Follows tx b.world r
      → Orders n (settle_turn height tx r b)
  unfolding settle_turn
  settle_turn-InOrder n height tx evicted b k f = record {
    consecutive = k.consecutive;
    last = k.last;
  }
  settle_turn-InOrder n height tx broke_down b k f = tt
  settle_turn-InOrder n height tx (applied w has_error gas price) b k f =
      include-InOrder n height price gas tx w has_error b k f

  take_turn-InOrder :
      (services : Services S) (n : ℕ) (header : Header) (pack : Bool) (late : Transaction → Bool)
      (tx : Transaction) (b : Batch S)
      → KeepsNonce services
      → (is_reward tx ≡ true → is_from a tx.source ≡ false)
      → InOrder n b
      → Orders n (take_turn services header pack late tx b)
  unfolding take_turn
  take_turn-InOrder services n header pack late tx b k u o = elim (Bool-cases (pack && late tx)) [
    | inl over ↦ rw over o
    | inr early ↦ elim (Bool-cases (pack && leb gas_limit_per_block b.total_gas_used)) [
      | inl full ↦ rw (early, full) o
      | inr room ↦
          rw (early, room)
            (settle_turn-InOrder n header.height tx _ b o
              (apply_state_transition-Follows services header tx b.world k u))
    ]
  ]

  abbrev OnBatch : ℕ → Option (Batch S) → Type 0
  OnBatch n none = Unit {0}
  OnBatch n (some b) = InOrder n b

  follow-InOrder :
      (n : ℕ) (t : Turn S) (f : Batch S → Option (Batch S))
      → Orders n t
      → ((b : Batch S) → InOrder n b → OnBatch n (f b))
      → OnBatch n (follow f t)
  follow-InOrder n (next b) f o k = k b o
  follow-InOrder n (stop b) f o k = o
  follow-InOrder n crash f o k = tt

  process_txs-InOrder :
      (services : Services S) (n : ℕ) (header : Header) (pack : Bool) (late : Transaction → Bool)
      (txs : List Transaction) (b : Batch S)
      → KeepsNonce services
      → RewardsUnsigned a txs
      → InOrder n b
      → OnBatch n (process_txs services header pack late txs b)
  unfolding process_txs
  process_txs-InOrder services n header pack late [] b k u o = o
  process_txs-InOrder services n header pack late (tx ∷ txs) b k u o =
      follow-InOrder n (take_turn services header pack late tx b)
        (process_txs services header pack late txs)
        (take_turn-InOrder services n header pack late tx b k u.0 o)
        λ b' o'. process_txs-InOrder services n header pack late txs b' k u.1 o'

  start-InOrder : (w : World S) → InOrder (w.nonces a) (start_batch w)
  unfolding nonces_of
  start-InOrder w = record { consecutive = tt; last = refl }

  map_batch-InOrder :
      (services : Services S) (n : ℕ) (header : Header) (o : Option (Batch S)) (b : Batch S)
      → OnBatch n o
      → map_batch (close_block services header) o ≡ some b
      → InOrder n b
  unfolding close_block
  map_batch-InOrder services n header none b k e = absurd (ground (arith, e))
  map_batch-InOrder services n header (some c) b k e =
      rw (← some-injective _ _ e) (record { consecutive = k.consecutive; last = k.last })

  -- In every block that is executed, the transactions of a source have consecutive nonces, the
  -- first of which follows the source's nonce before the block, and the last is its nonce after the
  -- block: none is replayed, left out or out of order, whether they fail or not. This asks that
  -- contracts and groups leave the nonce alone and that reward transactions have another source or
  -- none.
  pub process-InOrder :
      (services : Services S) (header : Header) (pack : Bool) (late : Transaction → Bool)
      (txs : List Transaction) (w : World S) (b : Batch S)
      → KeepsNonce services
      → RewardsUnsigned a txs
      → process services header pack late txs w ≡ some b
      → InOrder (w.nonces a) b
  unfolding process
  process-InOrder services header pack late txs w b k u e =
      map_batch-InOrder services (w.nonces a) header _ b
        (process_txs-InOrder services (w.nonces a) header pack late txs (start_batch w) k u
          (start-InOrder w))
        e
