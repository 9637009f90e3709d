-- ===== src/Pool/Size.antt =====
-- The pending container stays below its limit, and no push panics.
use zvchain.Base.{
  ℕ, ◌+◌, ◌<◌, ◌≤◌, ◌≡◌, refl, ap, ◌∙◌, Bool-cases, true, false, Option, Option-cases, none, some,
  [], ◌∷◌, ltb, leb, leb→le, ◌==◌, inl, inr, arith, add64,
}
use zvchain.Base.Map.{lookup, sum_by, nat_key}
use zvchain.Pool.Pending.{
  Item, find, Skips, Waiting, Pending, Pushed, insert_or_replace, remove, remove_from, lowest,
  evict_lowest, trim, is_none, push_later, list_or_new, push,
}
use zvchain.Pool.Valid.{
  weight, IsValid, lookup-IsListed, IsAt, insert_new-IsValid, replace-IsValid, remove-IsValid,
}
use zvchain.Pool.Lowest.{Stands, lowest-Found, last_item-find, last_item-nonempty}

module _ (k : Skips) where
  open k use {SkipList, new, items, add, delete, items-new, items-add, items-delete}

  -- A push that has gone through: the container is well formed and below its limit.
  pub record Kept (p : Pending k) (r : Pushed k) : Type 0 where
    pub valid : IsValid k r.pending
    pub roomy : r.pending.size < r.pending.limit
    pub same_limit : r.pending.limit ≡ p.limit

  -- The limit stays as it is.
  remove-limit : (t : Item) (p : Pending k) → (remove k t p).limit ≡ p.limit
  unfolding remove remove_from
  remove-limit t p = elim (Option-cases (lookup t.source p.waiting)) [
    | inl e ↦ rw e refl
    | inr (l, e) ↦ rw e refl
  ]

  pub no_lists : (p : Pending k) → IsValid k p → p.waiting ≡ [] → p.size ≡ 0
  no_lists p v e = v.counted ∙ ap (sum_by (weight k)) e

  evict-Kept :
      (t low : Item) (p : Pending k)
      → IsValid k p
      → p.size ≤ p.limit
      → Stands k low p.waiting
      → (r : Pushed k) × (evict_lowest k t p (some (some low)) ≡ some r) × Kept p r
  unfolding evict_lowest
  evict-Kept t low p v fits (l, e, last) = elim (Option-cases (find low (items l))) [
    | inl n ↦ absurd (last_item-find low (items l) last n)
    | inr (u, n) ↦
        let (v', size) = remove-IsValid k low p l u v e n in
        (
          record {
            pending = remove k low p;
            added = true;
            evicted = some low;
            conflicted = some t;
          },
          refl,
          record {
            valid = v';
            roomy = omega (arith, size, fits, remove-limit low p);
            same_limit = remove-limit low p;
          },
        )
  ]

  scan-Kept :
      (t : Item) (w : Waiting k) (p : Pending k)
      → p.waiting ≡ w
      → IsValid k p
      → p.size ≤ p.limit
      → 0 < p.limit
      → p.limit ≤ p.size
      → (r : Pushed k) × (evict_lowest k t p (lowest k w none) ≡ some r) × Kept p r
  scan-Kept t [] p e v fits pos full = absurd (omega (arith, no_lists p v e, pos, full))
  scan-Kept t ((a, l) ∷ w) p e v fits pos full =
      let (low, run, found) = lowest-Found k a l w (rw e at (v.listed)) (rw e at (v.distinct)) in
      rw run (evict-Kept t low p v fits (rw e found.stands))

  trim-Kept :
      (t : Item) (r : Pushed k)
      → IsValid k r.pending
      → r.pending.size ≤ r.pending.limit
      → (is_none r.evicted ≡ false → r.pending.size < r.pending.limit)
      → 0 < r.pending.limit
      → (r' : Pushed k) × (trim k t r ≡ some r') × Kept r.pending r'
  unfolding trim
  trim-Kept t r v fits stays pos = elim (Bool-cases (is_none r.evicted)) [
    | inl n ↦ elim (Bool-cases (leb r.pending.limit r.pending.size)) [
      | inl full ↦
          rw (n, full) (scan-Kept t r.pending.waiting r.pending refl v fits pos (leb→le _ _ full))
      | inr room ↦
          rw (n, room)
            (r, refl, record { valid = v; roomy = ground (arith, room); same_limit = refl })
    ]
    | inr s ↦ rw s (r, refl, record { valid = v; roomy = stays s; same_limit = refl })
  ]

  replace-limit :
      (t old : Item) (p : Pending k) (l : SkipList)
      → (insert_or_replace k t p l (some old)).pending.limit ≡ p.limit
  unfolding insert_or_replace
  replace-limit t old p l = elim (Bool-cases (ltb old.gas_price t.gas_price)) [
    | inl e ↦ rw e refl
    | inr e ↦ rw e refl
  ]

  new-stays :
      (t : Item) (p : Pending k) (l : SkipList)
      → ((insert_or_replace k t p l none).pending.size ≡ p.size + 1)
        × ((insert_or_replace k t p l none).pending.limit ≡ p.limit)
        × (is_none (insert_or_replace k t p l none).evicted ≡ true)
  unfolding insert_or_replace
  new-stays t p l = (refl, refl, refl)

  limit-Kept : (p q : Pending k) (r : Pushed k) → q.limit ≡ p.limit → Kept q r → Kept p r
  limit-Kept p q r e h = record { valid = h.valid; roomy = h.roomy; same_limit = h.same_limit ∙ e }

  inserted-Kept :
      (t : Item) (p : Pending k) (l : SkipList) (o : Option Item)
      → IsValid k p
      → p.size < p.limit
      → IsAt k t p l
      → find t (items l) ≡ o
      → (r : Pushed k) × (trim k t (insert_or_replace k t p l o) ≡ some r) × Kept p r
  inserted-Kept t p l none v room at n =
      let (size, limit, free) = new-stays t p l in
      let (r, run, kept) =
        trim-Kept t (insert_or_replace k t p l none) (insert_new-IsValid k t p l v at n)
          (omega (arith, size, limit, room)) (λ x. absurd (ground (arith, free, x)))
          (omega (arith, limit, room)) in
      (r, run, limit-Kept p (insert_or_replace k t p l none).pending r limit kept)
  inserted-Kept t p l (some old) v room at n =
      let (v', size) = replace-IsValid k t old p l v at n in
      let limit = replace-limit t old p l in
      let (r, run, kept) =
        trim-Kept t (insert_or_replace k t p l (some old)) v' (omega (arith, size, limit, room))
          (λ x. omega (arith, size, limit, room)) (omega (arith, limit, room)) in
      (r, run, limit-Kept p (insert_or_replace k t p l (some old)).pending r limit kept)

  listed-IsAt :
      (t : Item) (p : Pending k) (l : SkipList)
      → IsValid k p
      → lookup t.source p.waiting ≡ some l
      → IsAt k t p l
  listed-IsAt t p l v e =
      let (s, f, h) = lookup-IsListed k t.source l p.waiting v.listed e in
      record { ascending = s; from = f; held = rw e refl }

  new-IsAt : (t : Item) (p : Pending k) → lookup t.source p.waiting ≡ none → IsAt k t p new
  new-IsAt t p e = record {
    ascending = rw items-new tt;
    from = rw items-new tt;
    held = rw (e, items-new) refl;
  }

  first-IsAt :
      (t : Item) (p : Pending k) (o : Option SkipList)
      → IsValid k p
      → lookup t.source p.waiting ≡ o
      → IsAt k t p (list_or_new k o)
  first-IsAt t p none v e = new-IsAt t p e
  first-IsAt t p (some l) v e = listed-IsAt t p l v e

  push_later-Kept :
      (t : Item) (p : Pending k) (o : Option SkipList)
      → IsValid k p
      → p.size < p.limit
      → lookup t.source p.waiting ≡ o
      → (r : Pushed k) × (push_later k t p o ≡ some r) × Kept p r
  unfolding push_later
  push_later-Kept t p none v room e = (
    record { pending = p; added = false; evicted = none; conflicted = none },
    refl,
    record { valid = v; roomy = room; same_limit = refl },
  )
  push_later-Kept t p (some l) v room e =
      let at = listed-IsAt t p l v e in
      let (big, last) =
        last_item-nonempty (items l) (lookup-IsListed k t.source l p.waiting v.listed e).2 in
      rw (last, push_later)
        (elim (Bool-cases (ltb (add64 big.nonce 1) t.nonce)) [
          | inl gap ↦ rw gap (
            record { pending = p; added = false; evicted = none; conflicted = none },
            refl,
            record { valid = v; roomy = room; same_limit = refl },
          )
          | inr near ↦ rw near (inserted-Kept t p l (find t (items l)) v room at refl)
        ])

  -- From a well-formed container below its limit, every push ends, and leaves a well-formed
  -- container that is again below its limit: the lists of all sources are there and not empty,
  -- their nonces strictly ascend, and the size is what they hold. No push panics.
  pub push-Kept :
      (t : Item) (state_nonce : ℕ) (p : Pending k)
      → IsValid k p
      → p.size < p.limit
      → (r : Pushed k) × (push k t state_nonce p ≡ some r) × Kept p r
  unfolding push
  push-Kept t state_nonce p v room =
      let l = list_or_new k (lookup t.source p.waiting) in
      elim (Bool-cases (t.nonce == add64 state_nonce 1)) [
        | inl first ↦ rw first (
            inserted-Kept t p l (find t (items l)) v room
              (first-IsAt t p (lookup t.source p.waiting) v refl) refl)
        | inr later ↦ rw later (push_later-Kept t p (lookup t.source p.waiting) v room refl)
      ]
