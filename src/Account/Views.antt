-- ===== src/Account/Views.antt =====
-- What the objects of storage/account show, and how loads and writes of an object change it.
use zvchain.Base.{
  ℕ, ◌<◌, ◌≤◌, ap, ◌≡◌, refl, ◌∙◌, Option-cases, inl, inr, false, Option, none, some, ==_iff, arith,
}
use zvchain.Stake.Types.{Address}
use zvchain.Account.Types.{Reads, AccountObject, AccountDb}
use zvchain.Account.Object.{put}
use zvchain.Account.Contract.{View, Views, loaded, observe, set_view}

-- Every cached pointer is allocated and leads to an object that is not deleted.
abbrev pub Valid : AccountDb → Type 0
Valid s = (a : Address) (i : ℕ) → s.cache a ≡ some i → (i < s.next) × ((s.heap a i).deleted ≡ false)

module _ (r : Reads) where
  abbrev shown : Address → (ℕ → AccountObject) → Option ℕ → Option View
  shown a h none = loaded r a (r.account a)
  shown a h (some i) = some (observe r a (h i))

  unfoldable pub view : AccountDb → Views
  view s a = shown a (s.heap a) (s.cache a)

  -- t shows the accounts m and the refund n, and is s in what is not shown, but for objects loaded.
  pub record Moves (s t : AccountDb) (m : Views) (n : ℕ) : Type 0 where
    pub valid : Valid t
    pub shows : (b : Address) → view t b ≡ m b
    pub cached : (b : Address) → t.cache b ≡ none → s.cache b ≡ none
    pub refunds : t.refund ≡ n
    pub revisions : t.valid_revisions ≡ s.valid_revisions
    pub next_ids : t.next_revision_id ≡ s.next_revision_id

  pub view-cached :
      (a : Address) (i : ℕ) (s : AccountDb)
      → s.cache a ≡ some i
      → view s a ≡ some (observe r a (s.heap a i))
  unfolding view
  view-cached a i s h = rw (h, view) refl

  -- t is s after a write through a pointer, which now shows v.
  pub record Wrote (a : Address) (i : ℕ) (s t : AccountDb) (v : View) : Type 0 where
    pub cache : t.cache ≡ s.cache
    pub next : t.next ≡ s.next
    pub transitions : t.transitions ≡ s.transitions
    pub object : observe r a (t.heap a i) ≡ v
    pub deleted : (t.heap a i).deleted ≡ (s.heap a i).deleted

  pub put-heap :
      (a : Address) (i : ℕ) (o : AccountObject) (s : AccountDb) → (put a i o s).heap a i ≡ o
  unfolding put
  put-heap a i o s = ground (arith, ==_iff a a, ==_iff i i)

  pub put-Wrote :
      (a : Address) (i : ℕ) (o : AccountObject) (s : AccountDb)
      → o.deleted ≡ (s.heap a i).deleted
      → Wrote a i s (put a i o s) (observe r a o)
  unfolding put
  put-Wrote a i o s e = record {
    cache = refl;
    next = refl;
    transitions = refl;
    object = ap (observe r a) (put-heap a i o s);
    deleted = ap (λ p. p.deleted) (put-heap a i o s) ∙ e;
  }

  put-view :
      (a b : Address) (i : ℕ) (o : AccountObject) (s : AccountDb)
      → s.cache a ≡ some i
      → view (put a i o s) b ≡ set_view a (observe r a o) (view s) b
  unfolding view put
  put-view a b i o s h = ground (arith, ==_iff a b)

  pub put-Moves :
      (a : Address) (i : ℕ) (o : AccountObject) (s : AccountDb)
      → Valid s
      → s.cache a ≡ some i
      → o.deleted ≡ false
      → Moves s (put a i o s) (set_view a (observe r a o) (view s)) s.refund
  unfolding put
  put-Moves a i o s v h e = record {
    valid = λ b j h'. ground (arith, v b j h');
    shows = λ b. put-view a b i o s h;
    cached = λ b h'. h';
    refunds = refl;
    revisions = refl;
    next_ids = refl;
  }

  -- A pointer that the cache does not hold shows nothing.
  abbrev pub Loose : Address → ℕ → AccountDb → Type 0
  Loose a i s = (j : ℕ) → s.cache a ≡ some j → j < i

  Loose-put :
      (a b : Address) (i j : ℕ) (o : AccountObject) (s : AccountDb)
      → Loose a i s
      → s.cache b ≡ some j
      → (put a i o s).heap b j ≡ s.heap b j
  unfolding put
  Loose-put a b i j o s l h = ground (arith, l j, ==_iff a b, ==_iff i j)

  Loose-view :
      (a b : Address) (i : ℕ) (o : AccountObject) (s : AccountDb)
      → Loose a i s
      → view (put a i o s) b ≡ view s b
  unfolding view put
  Loose-view a b i o s l = elim (Option-cases (s.cache b)) [
    | inl e ↦ rw (view, e) refl
    | inr (j, e) ↦ rw (view, e, Loose-put a b i j o s l e) refl
  ]

  pub Loose-Moves :
      (a : Address) (i : ℕ) (o : AccountObject) (s : AccountDb)
      → Valid s
      → Loose a i s
      → Moves s (put a i o s) (view s) s.refund
  unfolding put
  Loose-Moves a i o s v l = record {
    valid = λ b j k. ground (arith, v b j k, l j);
    shows = λ b. Loose-view a b i o s l;
    cached = λ _ k. k;
    refunds = refl;
    revisions = refl;
    next_ids = refl;
  }

  pub Moves-trans :
      {s t u : AccountDb} {m m' : Views} {n n' : ℕ}
      → Moves s t m n
      → Moves t u m' n'
      → Moves s u m' n'
  Moves-trans f g = record {
    valid = g.valid;
    shows = g.shows;
    cached = λ b h. f.cached b (g.cached b h);
    refunds = g.refunds;
    revisions = g.revisions ∙ f.revisions;
    next_ids = g.next_ids ∙ f.next_ids;
  }

  pub Moves-weaken :
      {s t : AccountDb} {m m' : Views} {n n' : ℕ}
      → Moves s t m n
      → ((b : Address) → m b ≡ m' b)
      → n ≡ n'
      → Moves s t m' n'
  Moves-weaken f e e' = record {
    valid = f.valid;
    shows = λ b. f.shows b ∙ e b;
    cached = f.cached;
    refunds = f.refunds ∙ e';
    revisions = f.revisions;
    next_ids = f.next_ids;
  }

  pub set_view_same :
      (a b : Address) (i : ℕ) (s : AccountDb)
      → s.cache a ≡ some i
      → set_view a (observe r a (s.heap a i)) (view s) b ≡ view s b
  set_view_same a b i s h = ground (arith, ==_iff a b, view-cached a i s h)

  -- What is not shown of the state may change.
  pub same-Moves :
      (s t : AccountDb)
      → Valid s
      → t.cache ≡ s.cache
      → t.heap ≡ s.heap
      → s.next ≤ t.next
      → t.refund ≡ s.refund
      → t.valid_revisions ≡ s.valid_revisions
      → t.next_revision_id ≡ s.next_revision_id
      → Moves s t (view s) s.refund
  unfolding view
  same-Moves s t v c h n e f g = record {
    valid = λ b i k. ground (arith, v b i (rw c at (k)), ap (λ f. (f b i).deleted) h);
    shows = λ b. rw (view, c, h) refl;
    cached = λ b k. rw c at (k);
    refunds = e;
    revisions = f;
    next_ids = g;
  }
