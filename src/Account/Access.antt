-- ===== src/Account/Access.antt =====
-- Calls through `getOrNewAccountObject` and `getAccountObject`, and `CreateAccount`.
use zvchain.Base.{
  ℕ, ◌≡◌, refl, sym, ap, ◌∙◌, false, Option, none, some, some-injective, Option-cases, inl, inr,
  arith, ==_iff,
}
use zvchain.Stake.Types.{Address}
use zvchain.Account.Types.{Reads, create_object_change, AccountDb}
use zvchain.Account.Object.{
  push, set_account_object, get_account_object, create_object, get_or_new_account_object,
}
use zvchain.Account.Calls.{on_object}
use zvchain.Account.Contract.{View, Views, observe, set_view, blank_view, answer_of, edit_views}
use zvchain.Account.Views.{Valid, view, view-cached}
use zvchain.Account.Loads.{Found, get-Found}
use zvchain.Account.Fields.{Step, Step-trans, Step-weaken, quiet-Step}
use zvchain.Account.Creation.{started, created-Step, created-cached, create-missing}

module _ (r : Reads) where
  -- The account of an address, blank where it is missing.
  abbrev pub held : Address → Option View → View
  held a o = answer_of (λ v. v) (blank_view r a) o

  -- An object to write to: cached, and showing the account or a blank one.
  pub record Held (a : Address) (s : AccountDb) (i : ℕ) (t : AccountDb) : Type 0 where
    pub step : Step r s t (set_view a (held a (view r s a)) (view r s)) s.refund
    pub cache : t.cache a ≡ some i
    pub object : observe r a (t.heap a i) ≡ held a (view r s a)

  -- A pointer that `getAccountObject` gives again.
  get-again :
      (a : Address) (s t : AccountDb) (o : Option ℕ)
      → Found r a s o t
      → o ≡ none
      → (get_account_object r a t).0 ≡ none
  get-again a s t o f h = elim (Option-cases (get_account_object r a t).0) [
    | inl e ↦ e
    | inr (i, e) ↦
        let g = get-Found r a t f.moves.valid in
        let v = view-cached r a i (get_account_object r a t).1 (g.present i e) in
        absurd (ground (arith, v, g.moves.shows a, f.moves.shows a, (f.missing h).0))
  ]

  get_or_new-present :
      (a : Address) (i : ℕ) (s : AccountDb)
      → (get_account_object r a s).0 ≡ some i
      → ((get_account_object r a s).1.heap a i).deleted ≡ false
      → get_or_new_account_object r a s ≡ (i, (get_account_object r a s).1)
  unfolding get_or_new_account_object
  get_or_new-present a i s h d = rw (get_or_new_account_object, h, d) refl

  get_or_new-missing :
      (a : Address) (s : AccountDb)
      → (get_account_object r a s).0 ≡ none
      → get_or_new_account_object r a s ≡ (
        (create_object r a (get_account_object r a s).1).0,
        (create_object r a (get_account_object r a s).1).1.1,
      )
  unfolding get_or_new_account_object
  get_or_new-missing a s h = rw (get_or_new_account_object, h) refl

  missing-Held :
      (a : Address) (s : AccountDb)
      → Valid s
      → (get_account_object r a s).0 ≡ none
      → Held a s
          (create_object r a (get_account_object r a s).1).0
          (create_object r a (get_account_object r a s).1).1.1
  missing-Held a s v e =
      let f = get-Found r a s v in
      let t = (get_account_object r a s).1 in
      let e' = get-again a s t (get_account_object r a s).0 f e in
      let g = get-Found r a t f.moves.valid in
      let u = (get_account_object r a t).1 in
      let n = (g.missing e').1 in
      let c = created-Step r a u g.moves.valid n in
      let k = created-cached r a u g.moves.valid n in
      let w = set_account_object a u.next (push (create_object_change a) (started r a u)) in
      let h : held a (view r s a) ≡ blank_view r a = ap (held a) (f.missing e).0 in
      rw (create-missing r a t e') (record {
        step =
            Step-weaken r
              (Step-trans r (quiet-Step r f.moves f.transitions)
                (Step-trans r (quiet-Step r g.moves g.transitions) c))
              (λ b. ground (arith, g.moves.shows b, f.moves.shows b, h))
              (g.moves.refunds ∙ f.moves.refunds);
        cache = k;
        object =
            some-injective (observe r a (w.heap a u.next)) (held a (view r s a)) (
              sym (view-cached r a u.next w k) ∙ (c.moves.shows a ∙ ground (arith, h, ==_iff a a)));
      })

  pub get_or_new-Held :
      (a : Address) (s : AccountDb)
      → Valid s
      → Held a s (get_or_new_account_object r a s).0 (get_or_new_account_object r a s).1
  get_or_new-Held a s v =
      let f = get-Found r a s v in
      elim (Option-cases (get_account_object r a s).0) [
        | inr (i, e) ↦
            let t = (get_account_object r a s).1 in
            let c = f.present i e in
            let w = view-cached r a i t c in
            rw (get_or_new-present a i s e (f.moves.valid a i c).1) (record {
              step =
                  Step-weaken r (quiet-Step r f.moves f.transitions)
                    (λ b. ground (arith, w, f.moves.shows a, ==_iff a b)) refl;
              cache = c;
              object = sym (ap (held a) (sym (f.moves.shows a) ∙ w));
            })
        | inl e ↦ rw (get_or_new-missing a s e) (missing-Held a s v e)
      ]

  set_view_over :
      (m m' : Views) (v w : View) (a b : Address)
      → m b ≡ set_view a v m' b
      → set_view a w m b ≡ set_view a w m' b
  set_view_over m m' v w a b h = ground (arith, h)

  -- A write through `getOrNewAccountObject`.
  pub on_object-Step :
      (f : Address → ℕ → AccountDb → AccountDb) (g : View → View) (a : Address) (s : AccountDb)
      → ((i : ℕ) (t : AccountDb)
          → Valid t
          → t.cache a ≡ some i
          → Step r t (f a i t) (set_view a (g (observe r a (t.heap a i))) (view r t)) t.refund)
      → Valid s
      → Step r s (on_object r f a s) (edit_views r g a (view r s)) s.refund
  unfolding on_object
  on_object-Step f g a s step v =
      let (i, t) = get_or_new_account_object r a s in
      let h = get_or_new-Held a s v in
      Step-weaken r (Step-trans r h.step (step i t h.step.moves.valid h.cache))
        (λ b.
          ap (λ x. set_view a (g x) (view r t) b) h.object
          ∙ set_view_over (view r t) (view r s) (held a (view r s a)) (g (held a (view r s a))) a b
              (h.step.moves.shows b))
        h.step.moves.refunds
