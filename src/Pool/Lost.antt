-- ===== src/Pool/Lost.antt =====
-- What removal and eviction take out of the pool.
use zvchain.Base.{
  ℕ, ◌<◌, ◌≤◌, ◌≡◌, refl, sym, ap, ◌∙◌, Bool, Bool-cases, true, false, Option, none, some, [], ◌∷◌,
  length, le→leb, ◌==◌, ==_iff, inl, inr, arith,
}
use zvchain.Base.Map.{lookup, erase, lookup-insert, lookup-erase, nat_key}
use zvchain.Pool.Pending.{
  Item, find, without, Skips, Waiting, Pending, Pushed, lowest, evict_lowest, trim, remove,
  remove_from, is_none,
}
use zvchain.Pool.Order.{find_same, find-without}
use zvchain.Pool.Valid.{IsValid, lookup-IsListed}
use zvchain.Pool.Lowest.{lowest-Found, Found, Cheapest, Stands}
use zvchain.Pool.Size.{no_lists}
use zvchain.Pool.Container.{Container, done, is_known, push_container, remove_item}

module _ (k : Skips) where
  open k use {SkipList, items, delete, items-delete}

  abbrev pub is_found : Item → Option SkipList → Bool
  is_found t none = false
  is_found t (some l) = elim (find t (items l)) [ none ↦ false | some u ↦ true ]

  -- Whether a transaction, or another of its source and nonce, is pending.
  unfoldable pub is_waiting : Item → Pending k → Bool
  is_waiting t p = is_found t (lookup t.source p.waiting)

  not_found :
      (u : Item) (l : SkipList) (o : Option SkipList)
      → o ≡ some l
      → find u (items l) ≡ none
      → is_found u o ≡ false
  not_found u l o e n = rw e (rw (n, is_found) refl)

  remove-waiting :
      (t u : Item) (p : Pending k) (l : SkipList)
      → IsValid k p
      → lookup t.source p.waiting ≡ some l
      → t.source ≡ u.source
      → t.nonce ≡ u.nonce
      → is_waiting u (remove k t p) ≡ false
  unfolding is_waiting remove remove_from
  remove-waiting t u p l v e s n =
      let (ascending, from, held) = lookup-IsListed k t.source l p.waiting v.listed e in
      let gone =
        ap (find u) (items-delete t l)
        ∙ find_same u t (without t (items l)) (sym n)
        ∙ find-without t (items l) ascending in
      let same = (==_iff u.source t.source).1 (sym s) in
      rw e (elim (Bool-cases (length (items (delete t l)) == 0)) [
        | inl empty ↦ rw (empty, lookup-erase u.source t.source p.waiting, same) refl
        | inr full ↦ rw full (
            not_found u (delete t l) _
              (lookup-insert u.source t.source (delete t l) p.waiting ∙ rw same refl) gone)
      ])

  -- In a valid container, let a transaction wait in the queue and another one of its source and nonce
  -- be pending, in the index and not in the queue. Once the queued one is removed, the other one is
  -- still in the index, is neither pending nor queued, and pushing it again changes nothing.
  pub remove_item-loses :
      (t u : Item) (c : Container k) (l : SkipList) (state_nonce now : ℕ)
      → IsValid k c.pending
      → lookup t.hash c.queue ≡ some t
      → lookup t.source c.pending.waiting ≡ some l
      → find u (items l) ≡ some u
      → t.source ≡ u.source
      → t.nonce ≡ u.nonce
      → (u.hash == t.hash) ≡ false
      → is_known u.hash c.txs ≡ true
      → lookup u.hash c.queue ≡ none
      → (is_known u.hash (remove_item k t c).txs ≡ true)
        × (is_waiting u (remove_item k t c).pending ≡ false)
        × (lookup u.hash (remove_item k t c).queue ≡ none)
        × (push_container k u state_nonce now (remove_item k t c) ≡ done (remove_item k t c))
  unfolding remove_item push_container
  remove_item-loses t u c l state_nonce now v queued e pending s n d known unqueued =
      let kept : lookup u.hash (erase t.hash c.txs) ≡ lookup u.hash c.txs =
        lookup-erase u.hash t.hash c.txs ∙ rw d refl in
      let off : lookup u.hash (erase t.hash c.queue) ≡ none =
        lookup-erase u.hash t.hash c.queue ∙ rw d unqueued in
      let still : is_known u.hash (erase t.hash c.txs) ≡ true = rw (kept, is_known) known in
      (still, remove-waiting t u c.pending l v e s n, off, rw still refl)

  full-waiting :
      (t : Item) (w : Waiting k) (p : Pending k)
      → p.waiting ≡ w
      → IsValid k p
      → 0 < p.size
      → (low : Item) × (lowest k w none ≡ some (some low)) × Found k w low
  full-waiting t [] p e v h = absurd (omega (arith, no_lists k p v e, h))
  full-waiting t ((a, l) ∷ w) p e v h =
      lowest-Found k a l w (rw e at (v.listed)) (rw e at (v.distinct))

  -- Where a push has taken a place and the container is full, it gives up exactly one transaction,
  -- the last of its source, which costs no more than the last of any other source.
  pub trim-Cheapest :
      (t : Item) (r : Pushed k)
      → IsValid k r.pending
      → is_none r.evicted ≡ true
      → 0 < r.pending.size
      → r.pending.limit ≤ r.pending.size
      → (low : Item) × (trim k t r
          ≡ some (record {
            pending = remove k low r.pending;
            added = true;
            evicted = some low;
            conflicted = some t;
          }))
        × Cheapest k low r.pending.waiting
        × Stands k low r.pending.waiting
  unfolding trim evict_lowest
  trim-Cheapest t r v n h full =
      let (low, run, found) = full-waiting t r.pending.waiting r.pending refl v h in
      (low, rw (n, le→leb _ _ full, run) refl, found.cheapest, found.stands)
