-- ===== src/Account/Revisions.antt =====
-- The stack of revisions against the copies that the contract keeps, and `RevertToSnapshot`.
use zvchain.Base.{
  ℕ, ◌<◌, ◌≤◌, ◌≡◌, refl, ◌∙◌, Bool-cases, true, false, none, some, inl, inr, List, [], ◌∷◌, length,
  arith, ◌==◌, leb, leb→le, le→leb,
}
use zvchain.Stake.Types.{Address}
use zvchain.Account.Types.{Reads, Revision, AccountDb}
use zvchain.Account.Journal.{search}
use zvchain.Account.Contract.{Copy, find_copy}
use zvchain.Account.Views.{Valid, view}
use zvchain.Account.Undo.{Back, Back-trans}

module _ (r : Reads) where
  -- g is the state in which a revision and its copy were taken, and s leads back to it.
  pub record Kept (n : ℕ) (x : Revision) (c : Copy) (g s : AccountDb) : Type 0 where
    pub below : x.id < n
    pub same_id : x.id ≡ c.id
    pub index : x.journal_index ≡ length g.transitions
    pub views : (b : Address) → view r g b ≡ c.views b
    pub refunds : g.refund ≡ c.refund
    pub back : Back r g s
    pub valid : Valid g

  Kept-Back :
      (n : ℕ) (x : Revision) (c : Copy) (g s t : AccountDb)
      → Kept n x c g s
      → Back r s t
      → Kept n x c g t
  Kept-Back n x c g s t k b = record {
    below = k.below;
    same_id = k.same_id;
    index = k.index;
    views = k.views;
    refunds = k.refunds;
    back = Back-trans r k.back b;
    valid = k.valid;
  }

  unfoldable pub Holds : ℕ → List Revision → List Copy → AccountDb → Type 0
  Holds n [] [] s = Unit {0}
  Holds n [] (c ∷ cs) s = ⊥
  Holds n (x ∷ xs) [] s = ⊥
  Holds n (x ∷ xs) (c ∷ cs) s = (g : AccountDb) × (Kept n x c g s × Holds x.id xs cs g)

  pub Holds-Back :
      (n : ℕ) (xs : List Revision) (cs : List Copy) (s t : AccountDb)
      → Back r s t
      → Holds n xs cs s
      → Holds n xs cs t
  unfolding Holds
  Holds-Back n [] [] s t b h = h
  Holds-Back n [] (c ∷ cs) s t b h = h
  Holds-Back n (x ∷ xs) [] s t b h = h
  Holds-Back n (x ∷ xs) (c ∷ cs) s t b (g, (k, h)) = (g, (Kept-Back n x c g s t k b, h))

  Kept-mono :
      (n m : ℕ) (x : Revision) (c : Copy) (g s : AccountDb)
      → n ≤ m
      → Kept n x c g s
      → Kept m x c g s
  Kept-mono n m x c g s l k = record {
    below = omega (arith, k.below, l);
    same_id = k.same_id;
    index = k.index;
    views = k.views;
    refunds = k.refunds;
    back = k.back;
    valid = k.valid;
  }

  pub Holds-same :
      (n m : ℕ) (xs ys : List Revision) (cs ds : List Copy) (s : AccountDb)
      → m ≡ n
      → ys ≡ xs
      → ds ≡ cs
      → Holds n xs cs s
      → Holds m ys ds s
  Holds-same n m xs ys cs ds s e f g h = rw (e, f, g) h

  pub Holds-mono :
      (n m : ℕ) (xs : List Revision) (cs : List Copy) (s : AccountDb)
      → n ≤ m
      → Holds n xs cs s
      → Holds m xs cs s
  unfolding Holds
  Holds-mono n m [] [] s l h = h
  Holds-mono n m [] (c ∷ cs) s l h = h
  Holds-mono n m (x ∷ xs) [] s l h = h
  Holds-mono n m (x ∷ xs) (c ∷ cs) s l (g, (k, h)) = (g, (Kept-mono n m x c g s l k, h))

  pub not_leb : (a b : ℕ) → b < a → leb a b ≡ false
  not_leb a b h = ground arith

  not_same : (a b : ℕ) → a < b → (a == b) ≡ false
  not_same a b h = ground arith

  search-older :
      (i : ℕ) (x : Revision) (xs : List Revision) (p : Revision × List Revision)
      → search i xs ≡ some p
      → search i (x ∷ xs) ≡ some p
  unfolding search
  search-older i x xs p h = rw (search, h) refl

  search-first :
      (i : ℕ) (x : Revision) (xs : List Revision)
      → search i xs ≡ none
      → i ≤ x.id
      → search i (x ∷ xs) ≡ some (x, xs)
  unfolding search
  search-first i x xs h l = rw (search, h, le→leb i x.id l) refl

  search-none :
      (i : ℕ) (x : Revision) (xs : List Revision)
      → search i xs ≡ none
      → x.id < i
      → search i (x ∷ xs) ≡ none
  unfolding search
  search-none i x xs h l = rw (search, h, not_leb i x.id l) refl

  find-here :
      (i : ℕ) (c : Copy) (cs : List Copy) → (c.id == i) ≡ true → find_copy i (c ∷ cs) ≡ some (c, cs)
  unfolding find_copy
  find-here i c cs h = rw (find_copy, h) refl

  find-older :
      (i : ℕ) (c : Copy) (cs : List Copy)
      → (c.id == i) ≡ false
      → find_copy i (c ∷ cs) ≡ find_copy i cs
  unfolding find_copy
  find-older i c cs h = rw h refl

  search-above :
      (i n : ℕ) (xs : List Revision) (cs : List Copy) (s : AccountDb)
      → Holds n xs cs s
      → n ≤ i
      → (search i xs ≡ none) × (find_copy i cs ≡ none)
  unfolding Holds search find_copy
  search-above i n [] [] s h l = (refl, refl)
  search-above i n [] (c ∷ cs) s h l = absurd h
  search-above i n (x ∷ xs) [] s h l = absurd h
  search-above i n (x ∷ xs) (c ∷ cs) s (g, (k, h)) l =
      let (p, q) = search-above i x.id xs cs g h (omega (arith, k.below, l)) in
      (
        search-none i x xs p (omega (arith, k.below, l)),
        find-older i c cs (not_same c.id i (omega (arith, k.below, k.same_id, l))) ∙ q,
      )

  -- How a revision is looked up, on both sides.
  pub data Lookup (n i : ℕ) (xs : List Revision) (cs : List Copy) (s : AccountDb) : Type 0 where
    hit :
        (x : Revision) (older : List Revision) (c : Copy) (copies : List Copy) (g : AccountDb)
        → search i xs ≡ some (x, older)
        → (x.id == i) ≡ true
        → find_copy i cs ≡ some (c, copies)
        → Kept n x c g s
        → Holds x.id older copies g
        → Lookup n i xs cs s
    stale :
        (x : Revision) (older : List Revision)
        → search i xs ≡ some (x, older)
        → (x.id == i) ≡ false
        → find_copy i cs ≡ none
        → Lookup n i xs cs s
    miss : search i xs ≡ none → find_copy i cs ≡ none → Lookup n i xs cs s

  -- Ids grow with the revisions, so that the binary search and a search by equality agree.
  pub Lookup-search :
      (i n : ℕ) (xs : List Revision) (cs : List Copy) (s : AccountDb)
      → Holds n xs cs s
      → Lookup n i xs cs s
  unfolding Holds search find_copy
  Lookup-search i n [] [] s h = miss refl refl
  Lookup-search i n [] (c ∷ cs) s h = absurd h
  Lookup-search i n (x ∷ xs) [] s h = absurd h
  Lookup-search i n (x ∷ xs) (c ∷ cs) s (g, (k, h)) =
      let next = Lookup-search i x.id xs cs g h in
      elim (Bool-cases (x.id == i)) [
        | inl e ↦
            let (p, _) = search-above i x.id xs cs g h (ground arith) in
            hit x xs c cs g (search-first i x xs p (ground arith)) e
              (find-here i c cs (rw k.same_id at (e))) k h
        | inr e ↦
            let f = find-older i c cs (rw k.same_id at (e)) in
            elim (Bool-cases (leb i x.id)) [
              | inl l ↦ elim next [
                | hit y older d copies g' a b z w v ↦
                    hit y older d copies g' (search-older i x xs (y, older) a) b (f ∙ z)
                      (Kept-mono x.id n y d g' s (omega (arith, k.below))
                        (Kept-Back x.id y d g' g s w k.back))
                      v
                | stale y older a b z ↦ stale y older (search-older i x xs (y, older) a) b (f ∙ z)
                | miss a z ↦ stale x xs (search-first i x xs a (leb→le i x.id l)) e (f ∙ z)
              ]
              | inr l ↦
                  let (p, q) = search-above i x.id xs cs g h (ground arith) in
                  miss (search-none i x xs p (ground arith)) (f ∙ q)
            ]
      ]
