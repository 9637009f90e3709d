-- ===== src/Account/Suicide.antt =====
-- `Suicide` and the undo of its entry.
use zvchain.Base.{ℕ, ◌≡◌, refl, ap, ◌∙◌, Bool, true, some, arith}
use zvchain.Base.Int.{ℤ, pos}
use zvchain.Stake.Types.{Address}
use zvchain.Account.Types.{Reads, AccountObject, suicide_change, AccountDb}
use zvchain.Account.Object.{put, push, change, balance_field, suicided_field, get_account_object}
use zvchain.Account.Journal.{undo}
use zvchain.Account.Calls.{suicide_at}
use zvchain.Account.Contract.{
  View, Views, observe, code_of, slot_of, set_view, with_balance, with_suicided,
}
use zvchain.Account.Views.{
  Valid, view, view-cached, Moves, Moves-trans, Moves-weaken, same-Moves, put-Moves, put-Wrote,
}
use zvchain.Account.Writes.{change-Moves, change-Wrote}
use zvchain.Account.Loads.{get-Found}
use zvchain.Account.Undo.{entry-Back, get_present}
use zvchain.Account.Fields.{Step}

module _ (r : Reads) where
  abbrev pub dead : View → View
  dead w = with_balance (pos 0) (with_suicided true w)

  suicided-observe :
      (b : Bool) (x : ℤ) (a : Address) (o : AccountObject)
      → observe r a (balance_field x (suicided_field b o))
        ≡ with_balance x (with_suicided b (observe r a o))
  unfolding observe code_of slot_of
  suicided-observe b x a o = refl

  balance-observe :
      (x : ℤ) (a : Address) (o : AccountObject)
      → observe r a (balance_field x o) ≡ with_balance x (observe r a o)
  unfolding observe code_of slot_of
  balance-observe x a o = refl

  suicided_only-observe :
      (b : Bool) (a : Address) (o : AccountObject)
      → observe r a (suicided_field b o) ≡ with_suicided b (observe r a o)
  unfolding observe code_of slot_of
  suicided_only-observe b a o = refl

  set_view_twice :
      (a b : Address) (v w : View) (m m' : Views)
      → ((c : Address) → m' c ≡ set_view a v m c)
      → set_view a w m' b ≡ set_view a w m b
  set_view_twice a b v w m m' h = ground (arith, h b)

  undo-suicide :
      (b : Bool) (x : ℤ) (a : Address) (w : View) (u : AccountDb)
      → Valid u
      → view r u a ≡ some w
      → (y : AccountDb) × ((undo r (suicide_change a b x) u ≡ some y)
          × Moves r u y (set_view a (with_balance x (with_suicided b w)) (view r u)) u.refund)
  unfolding undo
  undo-suicide b x a w u k h =
      let f = get-Found r a u k in
      let (i, (o, (z, n))) = get_present r a w u k h in
      let t = (get_account_object r a u).1 in
      let o1 = suicided_field b (t.heap a i) in
      let p = put-Moves r a i o1 t f.moves.valid z (f.moves.valid a i z).1 in
      let pw = put-Wrote r a i o1 t refl in
      let q =
        change-Moves r (balance_field x) (λ _. refl) a i (put a i o1 t) p.valid
          (ap (λ c. c a) pw.cache ∙ z) in
      (
        change (balance_field x) a i (put a i o1 t),
        (
          rw (undo, o) refl,
          Moves-weaken r (Moves-trans r f.moves (Moves-trans r p q))
              (λ c.
                ap (λ v. set_view a v (view r (put a i o1 t)) c)
                  (balance-observe x a ((put a i o1 t).heap a i)
                    ∙ ap (with_balance x) (
                        pw.object
                        ∙ (suicided_only-observe b a (t.heap a i) ∙ ap (with_suicided b) n)))
                ∙ (set_view_twice a c (observe r a o1) (with_balance x (with_suicided b w))
                      (view r t) (view r (put a i o1 t)) p.shows
                    ∙ ground (arith, f.moves.shows c)))
              (p.refunds ∙ f.moves.refunds),
        ),
      )

  pub suicide-Step :
      (a : Address) (i : ℕ) (s : AccountDb)
      → Valid s
      → s.cache a ≡ some i
      → Step r s
          (suicide_at r a i s).1
          (set_view a (dead (observe r a (s.heap a i))) (view r s))
          s.refund
  unfolding observe
  suicide-Step a i s v h =
      let e = suicide_change a (s.heap a i).suicided (s.heap a i).account.balance in
      let w = observe r a (s.heap a i) in
      let j = push e s in
      let p = same-Moves r s j v refl refl (omega arith) refl refl refl in
      let q = change-Moves r (suicided_field true) (λ _. refl) a i j p.valid h in
      let qw = change-Wrote r (suicided_field true) (λ _. refl) a i j in
      let marked = change (suicided_field true) a i j in
      let c : marked.cache a ≡ some i = ap (λ c. c a) qw.cache ∙ h in
      let o = balance_field (pos 0) (marked.heap a i) in
      let t = put-Moves r a i o marked q.valid c (q.valid a i c).1 in
      let m : Moves r s (put a i o marked) (set_view a (dead w) (view r s)) s.refund =
        Moves-weaken r (Moves-trans r p (Moves-trans r q t))
          (λ b.
            ap (λ x. set_view a x (view r marked) b)
              (balance-observe (pos 0) a (marked.heap a i)
                ∙ ap (with_balance (pos 0)) (qw.object ∙ suicided_only-observe true a (s.heap a i)))
            ∙ (set_view_twice a b (observe r a (suicided_field true (s.heap a i))) (dead w)
                  (view r j) (view r marked) q.shows
                ∙ ground (arith, p.shows b)))
          q.refunds in
      record {
        moves = m;
        back =
            entry-Back r e a w (dead w) s (put a i o marked) m (view-cached r a i s h)
              ((put-Wrote r a i o marked refl).transitions ∙ qw.transitions)
              (λ u k x.
                undo-suicide (s.heap a i).suicided (s.heap a i).account.balance a (dead w) u k x);
      }
