-- ===== src/Pool/Container.antt =====
-- `simpleContainer`: the index of all transactions, the pending ones and the queue.
use zvchain.Base.{
  ℕ, ◌-◌, Bool, true, false, ◌&&◌, ◌||◌, Option, none, some, List, [], ◌∷◌, length, ltb, leb, ◌==◌,
  if◌then◌else◌, add64,
}
use zvchain.Base.Map.{Map, lookup, insert, erase, nat_key}
use zvchain.Pool.Pending.{Item, Skips, Pending, Pushed, push, remove}

-- `TransactionWithTime`
pub record Timed : Type 0 where
  pub item : Item
  pub begin : ℕ

pub data PoolError : Type 0 where
  nonce_refused queue_full same_nonce : PoolError

-- What `addToQueue` returns: the queue, or that it is full.
pub record Queued : Type 0 where
  pub queue : Map ℕ Item
  pub evicted : Option Item
  pub conflicted : Option Item

abbrev pub rival : Item → Item → Bool
rival t old = old.nonce == t.nonce && old.source == t.source

-- The loop over the queue: a rival that pays as much keeps its place, a cheaper one loses it.
-- `left` is what is still to be visited.
unfoldable pub challenge : Item → List (ℕ × Item) → Queued → Queued
challenge t [] q = record q { queue = insert t.hash t q.queue }
challenge t ((h, old) ∷ left) q =
    let beaten : Queued = record {
      queue = erase old.hash q.queue;
      evicted = some old;
      conflicted = some t;
    } in
    let next = challenge t left (if rival t old then beaten else q) in
    if rival t old && leb t.gas_price old.gas_price
    then record q { evicted = some t; conflicted = some old }
    else next

unfoldable pub add_to_queue : ℕ → Item → Map ℕ Item → Option Queued
unfolding challenge
add_to_queue queue_limit t queue =
    if ltb queue_limit (length queue)
    then none
    else some (challenge t queue (record { queue = queue; evicted = none; conflicted = none }))

abbrev pub is_known : ℕ → Map ℕ Timed → Bool
is_known h txs = elim (lookup h txs) [ none ↦ false | some u ↦ true ]

module _ (k : Skips) where
  pub record Container : Type 0 where
    pub txs : Map ℕ Timed
    pub pending : Pending k
    pub queue : Map ℕ Item
    pub queue_limit : ℕ
    pub tx_timeout : ℕ

  -- `push` ends with or without an error, or panics.
  pub data PushEnd : Type 0 where
    done : Container → PushEnd
    discarded : PoolError → Container → PushEnd
    broke : PushEnd

  -- Entering a transaction into the index; it may be the one that is evicted.
  unfoldable pub enter : Item → ℕ → Option Item → Container → PushEnd
  enter t now none c =
      done (record c { txs = insert t.hash (record { item = t; begin = now }) c.txs })
  enter t now (some u) c =
      let txs = erase u.hash (insert t.hash (record { item = t; begin = now }) c.txs) in
      if u.hash == t.hash
      then discarded same_nonce (record c { txs = txs })
      else done (record c { txs = txs })

  unfoldable pub enqueue : Item → ℕ → Container → Option Queued → PushEnd
  enqueue t now c none = discarded queue_full c
  enqueue t now c (some q) = enter t now q.evicted (record c { queue = q.queue })

  unfoldable pub place_pushed : Item → ℕ → Container → Option (Pushed k) → PushEnd
  place_pushed t now c none = broke
  place_pushed t now c (some r) =
      let c' = record c { pending = r.pending } in
      if r.added
      then enter t now r.evicted c'
      else enqueue t now c' (add_to_queue c.queue_limit t c.queue)

  -- `simpleContainer.push`, at the nonce that the state has for the source.
  unfoldable pub push_container : Item → ℕ → ℕ → Container → PushEnd
  push_container t state_nonce now c =
      if is_known t.hash c.txs
      then done c
      else if leb t.nonce state_nonce || ltb (add64 state_nonce 1000) t.nonce
      then discarded nonce_refused c
      else place_pushed t now c (push k t state_nonce c.pending)

  -- `removeWithoutLock`
  unfoldable pub remove_item : Item → Container → Container
  remove_item t c = record c {
    txs = erase t.hash c.txs;
    pending = remove k t c.pending;
    queue = erase t.hash c.queue;
  }

  abbrev pub remove_known : Container → Option Timed → Container
  remove_known c none = c
  remove_known c (some e) = remove_item e.item c

  -- `simpleContainer.remove`
  unfoldable pub remove_hash : ℕ → Container → Container
  remove_hash h c = remove_known c (lookup h c.txs)

  -- `evictTimeout`: every transaction that is too old is removed; a hash is visited once.
  unfoldable pub evict_timeout_loop : ℕ → List (ℕ × Timed) → Container → Container
  evict_timeout_loop now [] c = c
  evict_timeout_loop now ((h, e) ∷ left) c =
      evict_timeout_loop now left
        (if ltb c.tx_timeout (now - e.begin) then remove_item e.item c else c)

  unfoldable pub evict_timeout : ℕ → Container → Container
  unfolding evict_timeout_loop
  evict_timeout now c = evict_timeout_loop now c.txs c
