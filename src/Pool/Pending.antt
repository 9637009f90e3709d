-- ===== src/Pool/Pending.antt =====
-- `pendingContainer`: for every source an ordered list of its transactions. The lists are skip lists
-- of a library, and are taken as an interface.
use zvchain.Base.{
  ℕ, ◌+◌, ◌-◌, ◌≡◌, Bool, true, false, Option, none, some, List, [], ◌∷◌, length, ltb, leb, ◌==◌,
  if◌then◌else◌, add64,
}
use zvchain.Base.Map.{Map, lookup, insert, erase, nat_key}
use zvchain.Stake.Types.{Address}

-- What the pool reads of a transaction.
pub record Item : Type 0 where
  pub hash : ℕ
  pub source : Address
  pub nonce : ℕ
  pub gas_price : ℕ

-- `orderByNonceTx.Compare`, where one hash has one nonce: transactions of one nonce are equal.
abbrev pub same_slot : Item → Item → Bool
same_slot t u = t.nonce == u.nonce

-- An ordered collection: the entry that is equal is found, replaced or deleted.
unfoldable pub find : Item → List Item → Option Item
find t [] = none
find t (u ∷ us) = if same_slot t u then some u else find t us

unfoldable pub place : Item → List Item → List Item
place t [] = t ∷ []
place t (u ∷ us) =
    if same_slot t u then t ∷ us else if ltb t.nonce u.nonce then t ∷ u ∷ us else u ∷ place t us

unfoldable pub without : Item → List Item → List Item
without t [] = []
without t (u ∷ us) = if same_slot t u then us else u ∷ without t us

unfoldable pub last_item : List Item → Option Item
last_item [] = none
last_item (u ∷ []) = some u
last_item (u ∷ v ∷ us) = last_item (v ∷ us)

-- The cheaper of the last transactions seen so far; an empty list panics.
abbrev pub cheaper : Option Item → Item → Item
cheaper none u = u
cheaper (some low) u = if ltb u.gas_price low.gas_price then u else low

abbrev pub is_none : Option Item → Bool
is_none none = true
is_none (some u) = false

-- The library's skip list, by the entries that it iterates over.
pub record Skips : Type 1 where
  pub SkipList : Type 0
  pub new : SkipList
  pub items : SkipList → List Item
  pub add : Item → SkipList → SkipList
  pub delete : Item → SkipList → SkipList
  pub items-new : items new ≡ []
  pub items-add : (t : Item) (l : SkipList) → items (add t l) ≡ place t (items l)
  pub items-delete : (t : Item) (l : SkipList) → items (delete t l) ≡ without t (items l)

module _ (k : Skips) where
  open k use {SkipList, new, items, add, delete}

  abbrev pub Waiting : Type 0
  Waiting = Map Address SkipList

  pub record Pending : Type 0 where
    pub limit : ℕ
    pub size : ℕ
    pub waiting : Waiting

  -- What `push` returns, with the container.
  pub record Pushed : Type 0 where
    pub pending : Pending
    pub added : Bool
    pub evicted : Option Item
    pub conflicted : Option Item

  abbrev pub new_pending : ℕ → Pending
  new_pending limit = record { limit = limit; size = 0; waiting = [] }

  -- The number of entries that `Delete` returns.
  abbrev pub deleted_count : Item → SkipList → ℕ
  deleted_count t l = elim (find t (items l)) [ none ↦ 0 | some u ↦ 1 ]

  unfoldable pub insert_or_replace : Item → Pending → SkipList → Option Item → Pushed
  insert_or_replace t p l none = record {
    pending = record p { size = p.size + 1; waiting = insert t.source (add t l) p.waiting };
    added = true;
    evicted = none;
    conflicted = none;
  }
  insert_or_replace t p l (some old) =
      if ltb old.gas_price t.gas_price
      then record {
        pending = record p {
          size = p.size - deleted_count old l + 1;
          waiting = insert t.source (add t (delete old l)) p.waiting;
        };
        added = true;
        evicted = some old;
        conflicted = some t;
      }
      else record { pending = p; added = true; evicted = some t; conflicted = some old }

  unfoldable pub remove_from : Item → Pending → Option SkipList → Pending
  remove_from t p none = p
  remove_from t p (some l) =
      let rest = delete t l in
      record p {
        size = p.size - deleted_count t l;
        waiting =
            if length (items rest) == 0
            then erase t.source p.waiting
            else insert t.source rest p.waiting;
      }

  unfoldable pub remove : Item → Pending → Pending
  unfolding remove_from
  remove t p = remove_from t p (lookup t.source p.waiting)

  unfoldable pub lowest : Waiting → Option Item → Option (Option Item)
  lowest [] low = some low
  lowest ((a, l) ∷ w) low = elim (last_item (items l)) [
    | none ↦ none
    | some u ↦ lowest w (some (cheaper low u))
  ]

  unfoldable pub evict_lowest : Item → Pending → Option (Option Item) → Option Pushed
  unfolding remove
  evict_lowest t p none = none
  evict_lowest t p (some none) =
      some (record { pending = p; added = true; evicted = none; conflicted = none })
  evict_lowest t p (some (some low)) =
      some
        (record { pending = remove low p; added = true; evicted = some low; conflicted = some t })

  -- The end of `push`: the pool is full.
  unfoldable pub trim : Item → Pushed → Option Pushed
  trim t r =
      if is_none r.evicted
      then if leb r.pending.limit r.pending.size
        then evict_lowest t r.pending (lowest r.pending.waiting none)
        else some r
      else some r

  abbrev pub not_added : Pending → Option Pushed
  not_added p = some (record { pending = p; added = false; evicted = none; conflicted = none })

  -- A transaction that does not come next: it may replace one, or follow the last.
  unfoldable pub push_later : Item → Pending → Option SkipList → Option Pushed
  push_later t p none = not_added p
  push_later t p (some l) = elim (last_item (items l)) [
    | none ↦ trim t (record { pending = p; added = true; evicted = none; conflicted = none })
    | some big ↦
        if ltb (add64 big.nonce 1) t.nonce
        then not_added p
        else trim t (insert_or_replace t p l (find t (items l)))
  ]

  abbrev pub list_or_new : Option SkipList → SkipList
  list_or_new none = new
  list_or_new (some l) = l

  -- `pendingContainer.push`; `none` is a panic.
  unfoldable pub push : Item → ℕ → Pending → Option Pushed
  push t state_nonce p =
      let l = list_or_new (lookup t.source p.waiting) in
      if t.nonce == add64 state_nonce 1
      then trim t (insert_or_replace t p l (find t (items l)))
      else push_later t p (lookup t.source p.waiting)
