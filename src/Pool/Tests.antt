-- ===== src/Pool/Tests.antt =====
-- A pool of three transactions and a queue of one, and the theorems at it.
use zvchain.Base.{◌≡◌, refl, true, false, none, some, List, [], ◌∷◌, arith}
use zvchain.Base.Map.{lookup, nat_key}
use zvchain.Pool.Pending.{Item, find, place, without, Skips, Pending, Pushed, push, trim, remove}
use zvchain.Pool.Valid.{IsValid}
use zvchain.Pool.Lowest.{Cheapest, Stands}
use zvchain.Pool.Size.{Kept, push-Kept}
use zvchain.Pool.Container.{Container, done, is_known, push_container, remove_item, evict_timeout}
use zvchain.Pool.Timeout.{unless_old, evict_timeout-lookup}
use zvchain.Pool.Lost.{is_waiting, remove_item-loses, trim-Cheapest}

-- Skip lists by the entries themselves.
abbrev listed : Skips
listed = record {
  SkipList = List Item;
  new = [];
  items = λ l. l;
  add = place;
  delete = without;
  items-new = refl;
  items-add = λ t l. refl;
  items-delete = λ t l. refl;
}

abbrev first : Item
first = record { hash = 11; source = 1; nonce = 1; gas_price = 500 }

abbrev second : Item
second = record { hash = 12; source = 1; nonce = 2; gas_price = 700 }

abbrev other : Item
other = record { hash = 21; source = 2; nonce = 1; gas_price = 600 }

-- Waits in the queue of the source 1 with the nonce of `second`.
abbrev early : Item
early = record { hash = 13; source = 1; nonce = 2; gas_price = 500 }

abbrev held : Pending listed
held = record { limit = 5; size = 3; waiting = (1, first ∷ second ∷ []) ∷ (2, other ∷ []) ∷ [] }

held-IsValid : IsValid listed held
held-IsValid = record {
  distinct = (refl, (refl, tt));
  listed =
      ((((omega arith, tt), (refl, (refl, tt)), omega arith), ((tt, (refl, tt), omega arith), tt)));
  counted = refl;
}

abbrev pool : Container listed
pool = record {
  txs =
      (11, record { item = first; begin = 0 })
      ∷ (12, record { item = second; begin = 0 })
      ∷ (13, record { item = early; begin = 0 })
      ∷ (21, record { item = other; begin = 100 })
      ∷ [];
  pending = held;
  queue = (13, early) ∷ [];
  queue_limit = 5;
  tx_timeout = 1800;
}

-- The size at which one more transaction is too many.
abbrev full : Pending listed
full = record held { limit = 3 }

full-IsValid : IsValid listed full
full-IsValid = record {
  distinct = (refl, (refl, tt));
  listed =
      ((((omega arith, tt), (refl, (refl, tt)), omega arith), ((tt, (refl, tt), omega arith), tt)));
  counted = refl;
}

push-Kept_example : (r : Pushed listed) × (push listed other 0 held ≡ some r) × Kept listed held r
push-Kept_example = push-Kept listed other 0 held held-IsValid (omega arith)

trim-Cheapest_example :
    (low : Item) × (trim listed second
        (record { pending = full; added = true; evicted = none; conflicted = none })
      ≡ some (record {
        pending = remove listed low full;
        added = true;
        evicted = some low;
        conflicted = some second;
      }))
    × Cheapest listed low full.waiting
    × Stands listed low full.waiting
trim-Cheapest_example =
    trim-Cheapest listed second
      (record { pending = full; added = true; evicted = none; conflicted = none }) full-IsValid refl
      (omega arith) (omega arith)

second_pending : find second (first ∷ second ∷ []) ≡ some second
unfolding find
second_pending = refl

remove_item-loses_example :
    (is_known 12 (remove_item listed early pool).txs ≡ true)
    × (is_waiting listed second (remove_item listed early pool).pending ≡ false)
    × (lookup 12 (remove_item listed early pool).queue ≡ none)
    × (push_container listed second 0 7 (remove_item listed early pool)
        ≡ done (remove_item listed early pool))
remove_item-loses_example =
    remove_item-loses listed early second pool (first ∷ second ∷ []) 0 7 held-IsValid refl refl
      second_pending refl refl refl refl refl

evict_timeout-lookup_example :
    lookup 21 (evict_timeout listed 1850 pool).txs
    ≡ unless_old 1800 1850 (lookup 21 pool.txs) (lookup 21 pool.txs)
evict_timeout-lookup_example =
    evict_timeout-lookup listed 1850 21 pool (refl, (refl, (refl, (refl, tt))))
      (refl, (refl, (refl, (refl, tt))))
