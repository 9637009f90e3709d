-- ===== src/Pool/Lowest.antt =====
-- The scan for the cheapest of the last transactions.
use zvchain.Base.{
  ◌<◌, ◌≤◌, ◌≡◌, ◌≢◌, ◌⊎◌, refl, sym, ap, ◌∙◌, Bool-cases, Option, none, some, some-injective, List,
  [], ◌∷◌, length, ltb, ◌==◌, ==_iff, inl, inr, arith,
}
use zvchain.Base.Map.{lookup, Distinct, nat_key}
use zvchain.Stake.Types.{Address}
use zvchain.Pool.Pending.{Item, find, last_item, Skips, Waiting, cheaper, lowest}
use zvchain.Pool.Order.{AllFrom}
use zvchain.Pool.Valid.{AllListed}

pub last_item-find : (t : Item) (us : List Item) → last_item us ≡ some t → find t us ≢ none
unfolding last_item find
last_item-find t [] h n = absurd (ground (arith, h))
last_item-find t (u ∷ []) h n = ground (arith, h, n)
last_item-find t (u ∷ v ∷ us) h n = ground (arith, last_item-find t (v ∷ us) h)

last_item-from :
    (a : Address) (t : Item) (us : List Item) → AllFrom a us → last_item us ≡ some t → t.source ≡ a
unfolding last_item
last_item-from a t [] f h = absurd (ground (arith, h))
last_item-from a t (u ∷ []) f h = ground (arith, f, h)
last_item-from a t (u ∷ v ∷ us) f h = last_item-from a t (v ∷ us) f.1 h

pub last_item-nonempty : (us : List Item) → 0 < length us → (t : Item) × (last_item us ≡ some t)
unfolding last_item
last_item-nonempty [] h = absurd (omega arith)
last_item-nonempty (u ∷ []) h = (u, refl)
last_item-nonempty (u ∷ v ∷ us) h = last_item-nonempty (v ∷ us) (omega arith)

cheaper-le : (acc : Option Item) (u : Item) → (cheaper acc u).gas_price ≤ u.gas_price
cheaper-le none u = omega arith
cheaper-le (some x) u = ground arith

cheaper-le_old : (x u : Item) → (cheaper (some x) u).gas_price ≤ x.gas_price
cheaper-le_old x u = ground arith

cheaper-cases : (acc : Option Item) (u : Item) → (cheaper acc u ≡ u) ⊎ (acc ≡ some (cheaper acc u))
cheaper-cases none u = inl refl
cheaper-cases (some x) u = elim (Bool-cases (ltb u.gas_price x.gas_price)) [
  | inl e ↦ rw e (inl refl)
  | inr e ↦ rw e (inr refl)
]

as_cheap_old :
    (acc : Option Item) (u x : Item) → acc ≡ some x → (cheaper acc u).gas_price ≤ x.gas_price
as_cheap_old acc u x g = rw g (cheaper-le_old x u)

module _ (k : Skips) where
  open k use {SkipList, new, items, add, delete, items-new, items-add, items-delete}

  -- The cheapest of the last transactions stands last in the list of its source.
  abbrev pub Stands : Item → Waiting k → Type 0
  Stands low w = (l : SkipList) × (lookup low.source w ≡ some l) × (last_item (items l) ≡ some low)

  -- Each list's last transaction costs at least as much.
  abbrev pub Cheapest : Item → Waiting k → Type 0
  Cheapest low [] = Unit {0}
  Cheapest low ((a, l) ∷ w) =
      ((u : Item) → last_item (items l) ≡ some u → low.gas_price ≤ u.gas_price) × Cheapest low w

  Stands-past :
      (low : Item) (a : Address) (l : SkipList) (w : Waiting k)
      → lookup a w ≡ none
      → Stands low w
      → Stands low ((a, l) ∷ w)
  Stands-past low a l w n (m, e, last) = elim (Bool-cases (low.source == a)) [
    | inl s ↦ absurd (
        ground (
          arith,
          e,
          n,
          (==_iff low.source a).0 s,
          ap (λ x. lookup x w) ((==_iff low.source a).0 s),
        ))
    | inr d ↦ (m, rw d e, last)
  ]

  Stands-here :
      (low : Item) (a : Address) (l : SkipList) (w : Waiting k)
      → AllFrom a (items l)
      → last_item (items l) ≡ some low
      → Stands low ((a, l) ∷ w)
  Stands-here low a l w f e =
      let same = last_item-from a low (items l) f e in
      (l, rw ((==_iff low.source a).1 same) refl, e)

  -- What the scan for the cheapest finds.
  record Scanned (acc : Option Item) (w : Waiting k) (low : Item) : Type 0 where
    pub cheapest : Cheapest low w
    pub as_cheap : (x : Item) → acc ≡ some x → low.gas_price ≤ x.gas_price
    pub origin : (acc ≡ some low) ⊎ Stands low w

  scan_step :
      (acc : Option Item) (a : Address) (l : SkipList) (w : Waiting k) (u low : Item)
      → AllFrom a (items l)
      → lookup a w ≡ none
      → last_item (items l) ≡ some u
      → Scanned (some (cheaper acc u)) w low
      → Scanned acc ((a, l) ∷ w) low
  scan_step acc a l w u low f n e s = record {
    cheapest = (
      λ v g.
          let same = some-injective _ _ (rw e at (g)) in
          omega (
            arith,
            s.as_cheap (cheaper acc u) refl,
            cheaper-le acc u,
            ap (λ (x : Item). x.gas_price) same,
          ),
      s.cheapest,
    );
    as_cheap = λ x g. omega (arith, s.as_cheap (cheaper acc u) refl, as_cheap_old acc u x g);
    origin = elim s.origin [
      | inr stands ↦ inr (Stands-past low a l w n stands)
      | inl here ↦
          let low_is = some-injective _ _ here in
          elim (cheaper-cases acc u) [
            | inl newer ↦ inr (Stands-here low a l w f (e ∙ ap some (sym newer ∙ low_is)))
            | inr old ↦ inl (old ∙ ap some low_is)
          ]
    ];
  }

  lowest-Scanned :
      (acc : Item) (w : Waiting k)
      → AllListed k w
      → Distinct w
      → (low : Item) × (lowest k w (some acc) ≡ some (some low)) × Scanned (some acc) w low
  unfolding lowest
  lowest-Scanned acc [] h d = (
    acc,
    refl,
    record {
      cheapest = tt;
      as_cheap = λ x g. omega (arith, ap (λ (x : Item). x.gas_price) (some-injective _ _ g));
      origin = inl refl;
    },
  )
  lowest-Scanned acc ((a, l) ∷ w) h d =
      let (u, e) = last_item-nonempty (items l) h.0.2 in
      let (low, run, s) = lowest-Scanned (cheaper (some acc) u) w h.1 d.1 in
      (low, rw (e, lowest) run, scan_step (some acc) a l w u low h.0.1 d.0 e s)

  pub record Found (w : Waiting k) (low : Item) : Type 0 where
    pub cheapest : Cheapest low w
    pub stands : Stands low w

  pub lowest-Found :
      (a : Address) (l : SkipList) (w : Waiting k)
      → AllListed k ((a, l) ∷ w)
      → Distinct ((a, l) ∷ w)
      → (low : Item) × (lowest k ((a, l) ∷ w) none ≡ some (some low)) × Found ((a, l) ∷ w) low
  unfolding lowest
  lowest-Found a l w h d =
      let (u, e) = last_item-nonempty (items l) h.0.2 in
      let (low, run, s) = lowest-Scanned u w h.1 d.1 in
      let whole = scan_step none a l w u low h.0.1 d.0 e s in
      (
        low,
        rw (e, lowest) run,
        record {
          cheapest = whole.cheapest;
          stands = elim whole.origin [ inl n ↦ absurd (ground (arith, n)) | inr stands ↦ stands ];
        },
      )
