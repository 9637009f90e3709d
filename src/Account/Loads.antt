-- ===== src/Account/Loads.antt =====
-- What loading and creating an object shows: `getAccountObject`, `createObject` and
-- `getOrNewAccountObject` of storage/account/accountdb.go.
use zvchain.Base.{
  List, ℕ, suc, ◌<◌, ◌≡◌, refl, ap, ◌∙◌, Option-cases, inl, inr, false, Option, none, some, ==_iff,
  arith,
}
use zvchain.Stake.Types.{Address}
use zvchain.Account.Types.{Entry, Account, Reads, AccountObject, AccountDb}
use zvchain.Account.Object.{
  update, put, new_account_object, set_account_object, allocate, get_account_object,
}
use zvchain.Account.Contract.{View, Views, observe, set_view}
use zvchain.Account.Views.{
  Valid, view, Moves, Loose, put-heap, Loose-Moves, Moves-trans, Moves-weaken, same-Moves,
}

module _ (r : Reads) where
  -- The object that the cache takes up is shown.
  install-Moves :
      (a : Address) (i : ℕ) (s : AccountDb)
      → Valid s
      → s.cache a ≡ none
      → i < s.next
      → (s.heap a i).deleted ≡ false
      → Moves r s
          (record s { cache = update s.cache a (some i) })
          (set_view a (observe r a (s.heap a i)) (view r s))
          s.refund
  unfolding view
  install-Moves a i s v c l d = record {
    valid = λ b j k. ground (arith, v b j);
    shows = λ b. ground (arith, ==_iff a b);
    cached = λ b k. ground (arith, ==_iff a b);
    refunds = refl;
    revisions = refl;
    next_ids = refl;
  }

  pub set-none :
      (a : Address) (i : ℕ) (s : AccountDb)
      → s.cache a ≡ none
      → set_account_object a i s ≡ record s { cache = update s.cache a (some i) }
  unfolding set_account_object
  set-none a i s h = rw (set_account_object, h) refl

  pub set-some :
      (a : Address) (i j : ℕ) (s : AccountDb) → s.cache a ≡ some j → set_account_object a i s ≡ s
  unfolding set_account_object
  set-some a i j s h = rw (set_account_object, h) refl

  -- A new object, not yet stored, and its pointer.
  pub record Fresh (a : Address) (s t : AccountDb) (v : View) (es : List Entry) : Type 0 where
    pub moves : Moves r s t (view r s) s.refund
    pub cache : t.cache ≡ s.cache
    pub next : t.next ≡ suc s.next
    pub transitions : t.transitions ≡ es
    pub object : observe r a (t.heap a s.next) ≡ v
    pub deleted : (t.heap a s.next).deleted ≡ false

  pub Loose-next : (a : Address) (s : AccountDb) → Valid s → Loose r a s.next s
  Loose-next a s v j k = (v a j k).0

  pub allocate-Fresh :
      (a : Address) (o : AccountObject) (s : AccountDb)
      → Valid s
      → o.deleted ≡ false
      → Fresh a s (allocate a o s) (observe r a o) s.transitions
  unfolding allocate put
  allocate-Fresh a o s v d =
      let bumped : AccountDb = record s { next = suc s.next } in
      let p : Moves r s bumped (view r s) s.refund =
        same-Moves r s bumped v refl refl (omega arith) refl refl refl in
      let q = Loose-Moves r a s.next o bumped p.valid (Loose-next a s v) in
      record {
        moves = Moves-weaken r (Moves-trans r p q) p.shows refl;
        cache = refl;
        next = refl;
        transitions = refl;
        object = ap (observe r a) (put-heap r a s.next o bumped);
        deleted = ap (λ p. p.deleted) (put-heap r a s.next o bumped) ∙ d;
      }

  set_view_step :
      {m m' : Views} (a b : Address) (v : View)
      → ((c : Address) → m c ≡ m' c)
      → set_view a v m b ≡ set_view a v m' b
  set_view_step a b v e = ground (arith, e b)

  -- Storing a fresh object under an address that has none.
  pub store-Moves :
      (a : Address) (s t : AccountDb) (v : View) (es : List Entry)
      → Fresh a s t v es
      → s.cache a ≡ none
      → Moves r s (set_account_object a s.next t) (set_view a v (view r s)) s.refund
  store-Moves a s t v es f h =
      let k : t.cache a ≡ none = ap (λ c. c a) f.cache ∙ h in
      rw (set-none a s.next t k) (
        Moves-weaken r
          (Moves-trans r f.moves
            (install-Moves a s.next t f.moves.valid k (rw f.next (omega arith)) f.deleted))
          (λ b. rw f.object (set_view_step a b v f.moves.shows)) f.moves.refunds)

  loaded-get :
      (a : Address) (s : AccountDb) (d : Account)
      → s.cache a ≡ none
      → r.account a ≡ some d
      → get_account_object r a s
        ≡ (some s.next, set_account_object a s.next (allocate a (new_account_object d) s))
  unfolding get_account_object
  loaded-get a s d h e = rw (get_account_object, h, e) refl

  absent-get :
      (a : Address) (s : AccountDb)
      → s.cache a ≡ none
      → r.account a ≡ none
      → get_account_object r a s ≡ (none, s)
  unfolding get_account_object
  absent-get a s h e = rw (get_account_object, h, e) refl

  cached-get :
      (a : Address) (i : ℕ) (s : AccountDb)
      → Valid s
      → s.cache a ≡ some i
      → get_account_object r a s ≡ (some i, s)
  unfolding get_account_object
  cached-get a i s v h = rw (get_account_object, h, (v a i h).1) refl

  -- What `getAccountObject` gives: the state, and the pointer where the account is there.
  pub record Found (a : Address) (s : AccountDb) (o : Option ℕ) (t : AccountDb) : Type 0 where
    pub moves : Moves r s t (view r s) s.refund
    pub transitions : t.transitions ≡ s.transitions
    pub missing : o ≡ none → (view r s a ≡ none) × (t.cache a ≡ none)
    pub present : (i : ℕ) → o ≡ some i → t.cache a ≡ some i

  view-absent :
      (a : Address) (s : AccountDb) → s.cache a ≡ none → r.account a ≡ none → view r s a ≡ none
  unfolding view
  view-absent a s h e = rw (view, h, e) refl

  view-loaded :
      (a : Address) (s : AccountDb) (d : Account)
      → s.cache a ≡ none
      → r.account a ≡ some d
      → view r s a ≡ some (observe r a (new_account_object d))
  unfolding view
  view-loaded a s d h e = rw (view, h, e) refl

  pub store-frame :
      (a : Address) (s t : AccountDb) (v : View) (es : List Entry)
      → Fresh a s t v es
      → s.cache a ≡ none
      → ((set_account_object a s.next t).transitions ≡ es)
        × ((set_account_object a s.next t).cache a ≡ some s.next)
  store-frame a s t v es f h =
      rw (set-none a s.next t (ap (λ c. c a) f.cache ∙ h))
        (f.transitions, ground (arith, ==_iff a a))

  loaded-Found :
      (a : Address) (s : AccountDb) (d : Account)
      → Valid s
      → s.cache a ≡ none
      → r.account a ≡ some d
      → Found a s (some s.next) (set_account_object a s.next (allocate a (new_account_object d) s))
  loaded-Found a s d v h e =
      let f = allocate-Fresh a (new_account_object d) s v refl in
      let t = allocate a (new_account_object d) s in
      let p = store-Moves a s t (observe r a (new_account_object d)) s.transitions f h in
      let k = store-frame a s t (observe r a (new_account_object d)) s.transitions f h in
      record {
        moves = Moves-weaken r p (λ b. ground (arith, view-loaded a s d h e, ==_iff a b)) refl;
        transitions = k.0;
        missing = λ n. absurd (ground arith);
        present = λ i n. k.1 ∙ n;
      }

  pub get-Found :
      (a : Address) (s : AccountDb)
      → Valid s
      → Found a s (get_account_object r a s).0 (get_account_object r a s).1
  get-Found a s v = elim (Option-cases (s.cache a)) [
    | inr (i, h) ↦ rw (cached-get a i s v h) (record {
      moves = same-Moves r s s v refl refl (omega arith) refl refl refl;
      transitions = refl;
      missing = λ e. absurd (ground arith);
      present = λ j e. h ∙ e;
    })
    | inl h ↦ elim (Option-cases (r.account a)) [
      | inl e ↦ rw (absent-get a s h e) (record {
        moves = same-Moves r s s v refl refl (omega arith) refl refl refl;
        transitions = refl;
        missing = λ _. (view-absent a s h e, h);
        present = λ j e. absurd (ground arith);
      })
      | inr (d, e) ↦ rw (loaded-get a s d h e) (loaded-Found a s d v h e)
    ]
  ]
