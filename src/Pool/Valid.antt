-- ===== src/Pool/Valid.antt =====
-- What a well-formed pending container is, and that insertion, replacement and removal keep it so.
use zvchain.Base.{
  ℕ, suc, ◌+◌, ◌-◌, ◌<◌, ◌≡◌, refl, sym, ap, ◌∙◌, Bool-cases, none, some, some-injective, [], ◌∷◌,
  length, ltb, ◌==◌, ==_iff, inl, inr, arith,
}
use zvchain.Base.Map.{
  lookup, insert, erase, sum_by, weight_at, sum_by-insert, sum_by-erase, weight_at-le, Distinct,
  insert-Distinct, erase-Distinct, nat_key,
}
use zvchain.Stake.Types.{Address}
use zvchain.Pool.Pending.{
  Item, find, without, Skips, Waiting, Pending, deleted_count, insert_or_replace, remove,
  remove_from,
}
use zvchain.Pool.Order.{
  Ascending, AllFrom, place-Ascending, without-Ascending, place-AllFrom, without-AllFrom,
  length-place_new, length-without, find-nonce, find_same, find-without,
}

module _ (k : Skips) where
  open k use {SkipList, new, items, add, delete, items-new, items-add, items-delete}

  abbrev pub weight : Address → SkipList → ℕ
  weight a l = length (items l)

  -- A list in the container: not empty, of its source, in the order of strictly ascending nonces.
  abbrev pub IsListed : Address → SkipList → Type 0
  IsListed a l = Ascending (items l) × AllFrom a (items l) × (0 < length (items l))

  abbrev pub AllListed : Waiting k → Type 0
  AllListed [] = Unit {0}
  AllListed ((a, l) ∷ w) = IsListed a l × AllListed w

  pub record IsValid (p : Pending k) : Type 0 where
    pub distinct : Distinct p.waiting
    pub listed : AllListed p.waiting
    pub counted : p.size ≡ sum_by weight p.waiting

  pub lookup-IsListed :
      (a : Address) (l : SkipList) (w : Waiting k)
      → AllListed w
      → lookup a w ≡ some l
      → IsListed a l
  lookup-IsListed a l [] h e = absurd (ground (arith, e))
  lookup-IsListed a l ((b, m) ∷ w) h e = elim (Bool-cases (a == b)) [
    | inl s ↦
        let same = (==_iff a b).0 s in
        let list = some-injective _ _ (rw s at (e)) in rw (← list, same) h.0
    | inr n ↦ lookup-IsListed a l w h.1 (rw n at (e))
  ]

  insert-AllListed :
      (a : Address) (l : SkipList) (w : Waiting k)
      → AllListed w
      → IsListed a l
      → AllListed (insert a l w)
  insert-AllListed a l [] h e = (e, tt)
  insert-AllListed a l ((b, m) ∷ w) h e = elim (Bool-cases (a == b)) [
    | inl s ↦ rw s (rw (← (==_iff a b).0 s) e, h.1)
    | inr n ↦ rw n (h.0, insert-AllListed a l w h.1 e)
  ]

  erase-AllListed : (a : Address) (w : Waiting k) → AllListed w → AllListed (erase a w)
  erase-AllListed a [] h = tt
  erase-AllListed a ((b, m) ∷ w) h = elim (Bool-cases (a == b)) [
    | inl s ↦ rw s (erase-AllListed a w h.1)
    | inr n ↦ rw n (h.0, erase-AllListed a w h.1)
  ]

  insert-IsValid :
      (p : Pending k) (a : Address) (l : SkipList) (size : ℕ)
      → IsValid p
      → IsListed a l
      → size + weight_at weight a (lookup a p.waiting) ≡ p.size + length (items l)
      → IsValid (record p { size = size; waiting = insert a l p.waiting })
  insert-IsValid p a l size v h e = record {
    distinct = insert-Distinct a l p.waiting v.distinct;
    listed = insert-AllListed a l p.waiting v.listed h;
    counted = omega (arith, e, v.counted, sum_by-insert weight a l p.waiting);
  }

  erase-IsValid :
      (p : Pending k) (a : Address) (size : ℕ)
      → IsValid p
      → size + weight_at weight a (lookup a p.waiting) ≡ p.size
      → IsValid (record p { size = size; waiting = erase a p.waiting })
  erase-IsValid p a size v e = record {
    distinct = erase-Distinct a p.waiting v.distinct;
    listed = erase-AllListed a p.waiting v.listed;
    counted = omega (arith, e, v.counted, sum_by-erase weight a p.waiting v.distinct);
  }

  -- A list of the source `t`, with its place in the container.
  pub record IsAt (t : Item) (p : Pending k) (l : SkipList) : Type 0 where
    pub ascending : Ascending (items l)
    pub from : AllFrom t.source (items l)
    pub held : weight_at weight t.source (lookup t.source p.waiting) ≡ length (items l)

  deleted-found : (t u : Item) (l : SkipList) → find t (items l) ≡ some u → deleted_count k t l ≡ 1
  deleted-found t u l e = rw (e, deleted_count) refl

  add-IsListed :
      (t : Item) (l : SkipList)
      → Ascending (items l)
      → AllFrom t.source (items l)
      → find t (items l) ≡ none
      → IsListed t.source (add t l) × (length (items (add t l)) ≡ suc (length (items l)))
  add-IsListed t l s f n =
      let more = ap length (items-add t l) ∙ length-place_new t (items l) n in
      (
        (
          rw (items-add t l) (place-Ascending t (items l) s),
          rw (items-add t l) (place-AllFrom t.source t (items l) refl f),
          omega (arith, more),
        ),
        more,
      )

  pub insert_new-IsValid :
      (t : Item) (p : Pending k) (l : SkipList)
      → IsValid p
      → IsAt t p l
      → find t (items l) ≡ none
      → IsValid (insert_or_replace k t p l none).pending
  unfolding insert_or_replace
  insert_new-IsValid t p l v at n =
      let (listed, more) = add-IsListed t l at.ascending at.from n in
      insert-IsValid p t.source (add t l) (p.size + 1) v listed (omega (arith, more, at.held))

  pub replace-IsValid :
      (t old : Item) (p : Pending k) (l : SkipList)
      → IsValid p
      → IsAt t p l
      → find t (items l) ≡ some old
      → IsValid (insert_or_replace k t p l (some old)).pending
        × ((insert_or_replace k t p l (some old)).pending.size ≡ p.size)
  unfolding insert_or_replace
  replace-IsValid t old p l v at n =
      let same = find-nonce t old (items l) n in
      let found = find_same t old (items l) (sym same) in
      let count = deleted-found old old l (sym found ∙ n) in
      let shorter = ap length (items-delete old l) in
      let less = length-without old old (items l) (sym found ∙ n) in
      let gone =
        ap (find t) (items-delete old l)
        ∙ find_same t old (without old (items l)) (sym same)
        ∙ find-without old (items l) at.ascending in
      let (listed, more) =
        add-IsListed t (delete old l)
          (rw (items-delete old l) (without-Ascending old (items l) at.ascending))
          (rw (items-delete old l) (without-AllFrom t.source old (items l) at.from)) gone in
      let some_size = weight_at-le weight t.source p.waiting in
      elim (Bool-cases (ltb old.gas_price t.gas_price)) [
        | inl dear ↦ rw dear (
          insert-IsValid p t.source (add t (delete old l)) (p.size - deleted_count k old l + 1) v
              listed (omega (arith, count, shorter, less, more, at.held, some_size, v.counted)),
          omega (arith, count, less, at.held, some_size, v.counted),
        )
        | inr cheap ↦ rw cheap (v, refl)
      ]

  -- Removing a transaction that has an entry.
  pub remove-IsValid :
      (t : Item) (p : Pending k) (l : SkipList) (u : Item)
      → IsValid p
      → lookup t.source p.waiting ≡ some l
      → find t (items l) ≡ some u
      → IsValid (remove k t p) × (suc (remove k t p).size ≡ p.size)
  unfolding remove remove_from
  remove-IsValid t p l u v e n =
      let (s, f, some_items) = lookup-IsListed t.source l p.waiting v.listed e in
      let count = deleted-found t u l n in
      let shorter = ap length (items-delete t l) in
      let less = length-without t u (items l) n in
      let held : weight_at weight t.source (lookup t.source p.waiting) ≡ length (items l) =
        rw e refl in
      let fits = weight_at-le weight t.source p.waiting in
      let size : suc (p.size - deleted_count k t l) ≡ p.size =
        omega (arith, count, held, fits, v.counted, some_items) in
      rw e (elim (Bool-cases (length (items (delete t l)) == 0)) [
        | inl empty ↦ rw empty (
          erase-IsValid p t.source (p.size - deleted_count k t l) v
              (omega (arith, (==_iff _ _).0 empty, count, held, shorter, less, size)),
          size,
        )
        | inr full ↦ rw full (
          insert-IsValid p t.source (delete t l) (p.size - deleted_count k t l) v
              (
                rw (items-delete t l) (without-Ascending t (items l) s),
                rw (items-delete t l) (without-AllFrom t.source t (items l) f),
                ground (arith, full),
              )
              (omega (arith, count, held, shorter, less, size)),
          size,
        )
      ])
