-- ===== src/Account/Answers.antt =====
-- The calls that read through `getAccountObject`, `CreateAccount`, `Suicide` and `Transfer`.
use zvchain.Base.{
  ℕ, ◌≡◌, refl, sym, ap, ◌∙◌, true, false, ◌||◌, Option, none, some, Option-cases, inl, inr, arith,
  ==_iff,
}
use zvchain.Base.Int.{ℤ, is_zero, is_negative}
use zvchain.Stake.Types.{Address}
use zvchain.Account.Types.{Reads, reset_object_change, AccountDb}
use zvchain.Account.Object
use zvchain.Account.Object.{
  push, change, balance_field, set_account_object, get_account_object, create_object,
}
use zvchain.Account.Calls.{create_account_db, read_object, transfer_db, on_object, suicide_at}
use zvchain.Account.Contract.{
  View, Views, observe, set_view, answer_of, edit_views, plus_balance, minus_balance,
}
use zvchain.Account.Views.{Valid, view, view-cached, same-Moves, Loose}
use zvchain.Account.Writes.{change-Loose, change-Wrote}
use zvchain.Account.Loads.{get-Found}
use zvchain.Account.Fields.{Step, Step-trans, Step-weaken, quiet-Step}
use zvchain.Account.Balance.{add_balance-Step, sub_balance-Step}
use zvchain.Account.Suicide.{suicide-Step, dead}
use zvchain.Account.Storage.{Read}
use zvchain.Account.Creation.{
  started, reset-Step, reset-cached, create-present, create-missing, created-Step,
}
use zvchain.Account.Access.{on_object-Step, held}

module _ (r : Reads) where
  -- A call that reads, its answer and its state.
  pub record Answered {A : Type 0} (s : AccountDb) (x y : A) (t : AccountDb) : Type 0 where
    pub step : Step r s t (view r s) s.refund
    pub answer : x ≡ y

  read-present :
      {A : Type 0} (f : Address → ℕ → AccountDb → A × AccountDb) (missing : A) (a : Address) (i : ℕ)
      (s : AccountDb)
      → (get_account_object r a s).0 ≡ some i
      → read_object r f missing a s ≡ f a i (get_account_object r a s).1
  unfolding read_object
  read-present f missing a i s h = rw (read_object, h) refl

  read-missing :
      {A : Type 0} (f : Address → ℕ → AccountDb → A × AccountDb) (missing : A) (a : Address)
      (s : AccountDb)
      → (get_account_object r a s).0 ≡ none
      → read_object r f missing a s ≡ (missing, (get_account_object r a s).1)
  unfolding read_object
  read-missing f missing a s h = rw (read_object, h) refl

  pub read_object-Answered :
      {A : Type 0} (f : Address → ℕ → AccountDb → A × AccountDb) (g : View → A) (missing : A)
      (a : Address) (s : AccountDb)
      → ((i : ℕ) (t : AccountDb)
          → Valid t
          → t.cache a ≡ some i
          → Read r a i t (f a i t).0 (g (observe r a (t.heap a i))) (f a i t).1)
      → Valid s
      → Answered s
          (read_object r f missing a s).0
          (answer_of g missing (view r s a))
          (read_object r f missing a s).1
  read_object-Answered f g missing a s reads v =
      let h = get-Found r a s v in
      let t = (get_account_object r a s).1 in
      elim (Option-cases (get_account_object r a s).0) [
        | inl e ↦ rw (read-missing f missing a s e) (record {
          step = quiet-Step r h.moves h.transitions;
          answer = sym (ap (answer_of g missing) (h.missing e).0);
        })
        | inr (i, e) ↦
            let c = h.present i e in
            let p = reads i t h.moves.valid c in
            rw (read-present f missing a i s e) (record {
              step =
                  Step-weaken r (Step-trans r (quiet-Step r h.moves h.transitions) p.step)
                    h.moves.shows h.moves.refunds;
              answer =
                  p.answer
                  ∙ ap (answer_of g missing) (sym (view-cached r a i t c) ∙ h.moves.shows a);
            })
      ]

  abbrev pub killed : Address → Option View → Views → Views
  killed a none m = m
  killed a (some v) m = set_view a (dead r v) m

  -- A field read off the object.
  pub field-Read :
      {A : Type 0} (x y : A) (a : Address) (i : ℕ) (t : AccountDb)
      → x ≡ y
      → Valid t
      → t.cache a ≡ some i
      → Read r a i t x y t
  field-Read x y a i t e v h = record {
    step = quiet-Step r (same-Moves r t t v refl refl (omega arith) refl refl refl) refl;
    answer = e;
    cache = h;
    object = refl;
  }

  Loose-kept :
      (a : Address) (i : ℕ) (t u : AccountDb)
      → Valid t
      → t.cache a ≡ some i
      → u.cache a ≡ some i
      → Loose r a t.next u
  Loose-kept a i t u v h k j e = ground (arith, (v a i h).0, h, k, e)

  -- `CreateAccount` leaves an account that is there as it is, and creates a blank one else.
  pub create_account_db-Step :
      (a : Address) (s : AccountDb)
      → Valid s
      → Step r s (create_account_db r a s) (edit_views r (λ v. v) a (view r s)) s.refund
  unfolding create_account_db
  create_account_db-Step a s v =
      let h = get-Found r a s v in
      let t = (get_account_object r a s).1 in
      elim (Option-cases (get_account_object r a s).0) [
        | inl e ↦
            let p = created-Step r a t h.moves.valid (h.missing e).1 in
            rw (create-missing r a s e) (
              Step-weaken r (Step-trans r (quiet-Step r h.moves h.transitions) p)
                (λ b. ground (arith, h.moves.shows b, ap (held r a) (h.missing e).0))
                h.moves.refunds)
        | inr (i, e) ↦
            let c = h.present i e in
            let x = set_account_object a t.next (push (reset_object_change a i) (started r a t)) in
            let p = reset-Step r a i i t h.moves.valid c in
            let k = reset-cached r a i i t h.moves.valid c in
            let f = balance_field (x.heap a i).account.balance in
            let q =
              quiet-Step r
                (change-Loose r f (λ _. refl) a t.next x p.moves.valid
                  (Loose-kept a i t x h.moves.valid c k))
                (change-Wrote r f (λ _. refl) a t.next x).transitions in
            let w = Step-trans r (quiet-Step r h.moves h.transitions) (Step-trans r p q) in
            rw (create-present r a i s e) (
              Step-weaken r w
                (λ b.
                  p.moves.shows b
                  ∙ (h.moves.shows b
                      ∙ ground (arith, sym (h.moves.shows a) ∙ view-cached r a i t c, ==_iff a b)))
                (p.moves.refunds ∙ h.moves.refunds))
      ]

  pub edit_same :
      (a b : Address) (g : View → View) (m m' : Views)
      → ((c : Address) → m c ≡ m' c)
      → edit_views r g a m b ≡ edit_views r g a m' b
  edit_same a b g m m' e = rw (e a, e b) refl

  pub transfer_db-Step :
      (a b : Address) (x : ℤ) (s : AccountDb)
      → (is_negative x || is_zero x) ≡ false
      → Valid s
      → Step r s
          (transfer_db r a b x s)
          (edit_views r (plus_balance x) b (edit_views r (minus_balance x) a (view r s)))
          s.refund
  unfolding transfer_db
  transfer_db-Step a b x s e v =
      let t = on_object r (Object.sub_balance x) a s in
      let p =
        on_object-Step r (Object.sub_balance x) (minus_balance x) a s
          (λ i u w h. sub_balance-Step r x a i u w h) v in
      let q =
        on_object-Step r (Object.add_balance r x) (plus_balance x) b t
          (λ i u w h. add_balance-Step r x b i u w h) p.moves.valid in
      rw e (
        Step-weaken r (Step-trans r p q)
          (λ c.
            edit_same b c (plus_balance x) (view r t) (edit_views r (minus_balance x) a (view r s))
              p.moves.shows)
          p.moves.refunds)

  -- `Suicide` kills the account that is there.
  pub suicide-Killed :
      (a : Address) (s : AccountDb)
      → Valid s
      → Step r s
          (read_object r (suicide_at r) false a s).1
          (killed a (view r s a) (view r s))
          s.refund
        × ((read_object r (suicide_at r) false a s).0 ≡ answer_of (λ _. true) false (view r s a))
  suicide-Killed a s v =
      let h = get-Found r a s v in
      let t = (get_account_object r a s).1 in
      elim (Option-cases (get_account_object r a s).0) [
        | inl e ↦
            rw (read-missing (suicide_at r) false a s e, (h.missing e).0)
              (quiet-Step r h.moves h.transitions, refl)
        | inr (i, e) ↦
            let c = h.present i e in
            let z : view r s a ≡ some (observe r a (t.heap a i)) =
              sym (h.moves.shows a) ∙ view-cached r a i t c in
            rw (read-present (suicide_at r) false a i s e, z)
              (
                Step-weaken r
                    (Step-trans r (quiet-Step r h.moves h.transitions)
                      (suicide-Step r a i t h.moves.valid c))
                    (λ b. ground (arith, h.moves.shows b)) h.moves.refunds,
                refl,
              )
      ]
