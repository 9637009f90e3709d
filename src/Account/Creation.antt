-- ===== src/Account/Creation.antt =====
-- Creating objects: `createObject`, `CreateAccount` and `getOrNewAccountObject`.
use zvchain.Base.{
  ℕ, ◌≡◌, refl, sym, ap, ◌∙◌, Bool-cases, false, none, some, Option-cases, inl, inr, [], ◌∷◌, arith,
  ◌==◌, ==_iff,
}
use zvchain.Stake.Types.{Address}
use zvchain.Account.Types.{
  Reads, AccountObject, Entry, create_object_change, reset_object_change, AccountDb,
}
use zvchain.Account.Object.{
  update, push, change, nonce_field, new_account_object, blank, set_account_object, allocate,
  get_account_object, create_object,
}
use zvchain.Account.Journal.{undo}
use zvchain.Account.Contract.{
  View, with_nonce, observe, code_of, slot_of, set_view, blank_view, loaded,
}
use zvchain.Account.Views.{Valid, view, Moves-trans, Moves-weaken, same-Moves, Loose}
use zvchain.Account.Writes.{change-Loose, change-Wrote}
use zvchain.Account.Loads.{Fresh, allocate-Fresh, store-Moves, store-frame, set-some, Loose-next}
use zvchain.Account.Undo.{Extends-trans, Moves-Extends, undo_all}
use zvchain.Account.Fields.{Step}

module _ (r : Reads) where
  nonce-observe :
      (a : Address) (o : AccountObject)
      → observe r a o ≡ blank_view r a
      → observe r a (nonce_field 0 o) ≡ blank_view r a
  unfolding observe code_of slot_of
  nonce-observe a o e = ap (with_nonce 0) e

  -- The object of `createObject`, before it is stored.
  pub started : Address → AccountDb → AccountDb
  started a t = change (nonce_field 0) a t.next (allocate a (new_account_object (blank r)) t)

  started-Fresh :
      (e : Entry) (a : Address) (t : AccountDb)
      → Valid t
      → Fresh r a t (push e (started a t)) (blank_view r a) (e ∷ t.transitions)
  unfolding started
  started-Fresh e a t v =
      let f = allocate-Fresh r a (new_account_object (blank r)) t v refl in
      let u = allocate a (new_account_object (blank r)) t in
      let l : Loose r a t.next u = λ j k. Loose-next r a t v j (sym (ap (λ c. c a) f.cache) ∙ k) in
      let m = change-Loose r (nonce_field 0) (λ _. refl) a t.next u f.moves.valid l in
      let w = change-Wrote r (nonce_field 0) (λ _. refl) a t.next u in
      let p =
        same-Moves r (started a t) (push e (started a t)) m.valid refl refl (omega arith) refl refl
          refl in
      record {
        moves =
            Moves-weaken r (Moves-trans r f.moves (Moves-trans r m p))
              (λ b. m.shows b ∙ f.moves.shows b) (m.refunds ∙ f.moves.refunds);
        cache = w.cache ∙ f.cache;
        next = w.next ∙ f.next;
        transitions = ap (λ x. e ∷ x) (w.transitions ∙ f.transitions);
        object = w.object ∙ nonce-observe a (u.heap a t.next) f.object;
        deleted = w.deleted ∙ f.deleted;
      }

  pub create-missing :
      (a : Address) (s : AccountDb)
      → (get_account_object r a s).0 ≡ none
      → create_object r a s ≡ (
        (get_account_object r a s).1.next,
        (
          none,
          set_account_object a
              (get_account_object r a s).1.next
              (push (create_object_change a) (started a (get_account_object r a s).1)),
        ),
      )
  unfolding create_object started
  create-missing a s h = rw (create_object, h) refl

  pub create-present :
      (a : Address) (i : ℕ) (s : AccountDb)
      → (get_account_object r a s).0 ≡ some i
      → create_object r a s ≡ (
        (get_account_object r a s).1.next,
        (
          some i,
          set_account_object a
              (get_account_object r a s).1.next
              (push (reset_object_change a i) (started a (get_account_object r a s).1)),
        ),
      )
  unfolding create_object started
  create-present a i s h = rw (create_object, h) refl

  uncached-view :
      (a : Address) (t : AccountDb) → t.cache a ≡ none → view r t a ≡ loaded r a (r.account a)
  unfolding view
  uncached-view a t h = rw (view, h) refl

  -- An account that is not there is created blank; the undo forgets it.
  forget-view :
      (a b : Address) (t u : AccountDb) (v : View)
      → t.cache a ≡ none
      → ((c : Address) → view r u c ≡ set_view a v (view r t) c)
      → view r (record u { cache = update u.cache a none; dirty = update u.dirty a false }) b
        ≡ view r t b
  unfolding view
  forget-view a b t u v h e = elim (Bool-cases (a == b)) [
    | inl x ↦ rw (view, x) (sym (uncached-view b t (ap t.cache (sym ((==_iff a b).0 x)) ∙ h)))
    | inr x ↦ rw (view, x) (rw x at (e b))
  ]

  pub created-Step :
      (a : Address) (t : AccountDb)
      → Valid t
      → t.cache a ≡ none
      → Step r t
          (set_account_object a t.next (push (create_object_change a) (started a t)))
          (set_view a (blank_view r a) (view r t))
          t.refund
  unfolding undo_all undo
  created-Step a t v h =
      let e = create_object_change a in
      let f = started-Fresh e a t v in
      let x = push e (started a t) in
      let m = store-Moves r a t x (blank_view r a) (e ∷ t.transitions) f h in
      let k = store-frame r a t x (blank_view r a) (e ∷ t.transitions) f h in
      record {
        moves = m;
        back = record {
          entries = e ∷ [];
          journal = k.0;
          leads = λ u w d.
              let y : AccountDb = record u {
                cache = update u.cache a none;
                dirty = update u.dirty a false;
              } in
              (
                y,
                (
                  refl,
                  record {
                    valid = λ b i z. ground (arith, w b i);
                    extends = record {
                      shows =
                          λ b. forget-view a b t u (blank_view r a) h (λ c. d.shows c ∙ m.shows c);
                      refunds = d.refunds ∙ m.refunds;
                      cached = λ b z. ground (arith, ==_iff a b, d.cached b, m.cached b, h);
                    };
                    revisions = refl;
                    next_ids = refl;
                  },
                ),
              );
        };
      }

  pub created-cached :
      (a : Address) (t : AccountDb)
      → Valid t
      → t.cache a ≡ none
      → ((set_account_object a t.next (push (create_object_change a) (started a t))).cache a
          ≡ some t.next)
  created-cached a t v h =
      let e = create_object_change a in
      (store-frame r a t (push e (started a t)) (blank_view r a) (e ∷ t.transitions)
        (started-Fresh e a t v) h).1

  -- Where the account is there, LoadOrStore keeps its object, and the undo finds it.
  pub reset-Step :
      (a : Address) (i j : ℕ) (t : AccountDb)
      → Valid t
      → t.cache a ≡ some j
      → Step r t
          (set_account_object a t.next (push (reset_object_change a i) (started a t)))
          (view r t)
          t.refund
  unfolding undo_all undo
  reset-Step a i j t v h =
      let e = reset_object_change a i in
      let f = started-Fresh e a t v in
      let x = push e (started a t) in
      rw (set-some r a t.next j x (ap (λ c. c a) f.cache ∙ h)) (record {
        moves = f.moves;
        back = record {
          entries = e ∷ [];
          journal = f.transitions;
          leads = λ u w d. elim (Option-cases (u.cache a)) [
            | inl n ↦ absurd (ground (arith, f.moves.cached a (d.cached a n), h))
            | inr (k, z) ↦ (
              u,
              (
                rw (set-some r a i k u z) refl,
                record {
                  valid = w;
                  extends = Extends-trans r (Moves-Extends r f.moves) d;
                  revisions = refl;
                  next_ids = refl;
                },
              ),
            )
          ];
        };
      })

  pub reset-cached :
      (a : Address) (i j : ℕ) (t : AccountDb)
      → Valid t
      → t.cache a ≡ some j
      → (set_account_object a t.next (push (reset_object_change a i) (started a t))).cache a
        ≡ some j
  reset-cached a i j t v h =
      let e = reset_object_change a i in
      let c = ap (λ c. c a) (started-Fresh e a t v).cache ∙ h in
      rw (set-some r a t.next j (push e (started a t)) c) c
