-- ===== src/Account/Balance.antt =====
-- The methods of `accountObject` that move its balance, `touch` and `Suicide`.
use zvchain.Base.{
  ℕ, ◌≡◌, refl, sym, ap, ◌∙◌, Bool, Bool-cases, true, false, not, ◌||◌, some, inl, inr, arith, ◌==◌,
  ==_iff, if◌then◌else◌,
}
use zvchain.Base.Int.{ℤ, ◌+ℤ◌, ◌-ℤ◌, is_zero}
use zvchain.Stake.Types.{Address}
use zvchain.Account.Types.{Reads, AccountObject, touch_change, AccountDb}
use zvchain.Account.Object.{
  update, put, push, mark_dirty, touched_field, sub_balance, add_balance, touch, empty,
  get_account_object,
}
use zvchain.Account.Journal.{undo, ripemd}
use zvchain.Account.Contract.{
  View, observe, code_of, slot_of, set_view, with_balance, plus_balance, minus_balance,
}
use zvchain.Account.Views.{
  Valid, view, view-cached, Moves, Moves-trans, Moves-weaken, same-Moves, set_view_same, put-Moves,
  put-Wrote,
}
use zvchain.Account.Writes.{mark_dirty-Moves, mark_dirty-Wrote}
use zvchain.Account.Loads.{get-Found}
use zvchain.Account.Undo.{entry-Back, get_present, with_object-some}
use zvchain.Account.Fields.{Step, Step-weaken, quiet-Step, set_balance-Step, add_zero, sub_zero}

module _ (r : Reads) where
  still-Step :
      (x y : ℤ) (a : Address) (i : ℕ) (s : AccountDb)
      → x ≡ (s.heap a i).account.balance
      → Valid s
      → s.cache a ≡ some i
      → Step r s s (set_view a (with_balance x (observe r a (s.heap a i))) (view r s)) s.refund
  unfolding observe
  still-Step x y a i s e v h =
      Step-weaken r (quiet-Step r (same-Moves r s s v refl refl (omega arith) refl refl refl) refl)
        (λ b. sym (
          ap (λ z. set_view a (with_balance z (observe r a (s.heap a i))) (view r s) b) e
          ∙ set_view_same r a b i s h))
        refl

  pub sub_balance-Step :
      (x : ℤ) (a : Address) (i : ℕ) (s : AccountDb)
      → Valid s
      → s.cache a ≡ some i
      → Step r s
          (sub_balance x a i s)
          (set_view a (minus_balance x (observe r a (s.heap a i))) (view r s))
          s.refund
  unfolding sub_balance observe
  sub_balance-Step x a i s v h = elim (Bool-cases (is_zero x)) [
    | inl e ↦ rw e (
        still-Step ((s.heap a i).account.balance -ℤ x) x a i s
          (sub_zero r (s.heap a i).account.balance x e) v h)
    | inr e ↦ rw e (set_balance-Step r ((s.heap a i).account.balance -ℤ x) a i s v h)
  ]

  pub touched-observe :
      (b : Bool) (a : Address) (o : AccountObject) → observe r a (touched_field b o) ≡ observe r a o
  unfolding observe code_of slot_of
  touched-observe b a o = refl

  -- The mark of a touch is not shown.
  touched-Moves :
      (b : Bool) (a : Address) (i : ℕ) (s : AccountDb)
      → Valid s
      → s.cache a ≡ some i
      → Moves r s (put a i (touched_field b (s.heap a i)) s) (view r s) s.refund
  touched-Moves b a i s v h =
      Moves-weaken r (put-Moves r a i (touched_field b (s.heap a i)) s v h (v a i h).1)
        (λ c.
          ap (λ x. set_view a x (view r s) c) (touched-observe b a (s.heap a i))
          ∙ set_view_same r a c i s h)
        refl

  untouched : Bool → Bool → Address → ℕ → AccountDb → AccountDb
  untouched was_touched was_dirty a i t =
      record (put a i (touched_field was_touched (t.heap a i)) t) {
        dirty = if was_dirty then t.dirty else update t.dirty a false;
      }

  untouched-Moves :
      (b c : Bool) (a : Address) (i : ℕ) (s : AccountDb)
      → Valid s
      → s.cache a ≡ some i
      → Moves r s (untouched b c a i s) (view r s) s.refund
  unfolding untouched
  untouched-Moves b c a i s v h =
      let p = touched-Moves b a i s v h in
      let t = put a i (touched_field b (s.heap a i)) s in
      Moves-weaken r
        (Moves-trans r p
          (same-Moves r t (untouched b c a i s) p.valid refl refl (omega arith) refl refl refl))
        p.shows p.refunds

  undo-touch :
      (b c : Bool) (a : Address) (w : View) (u : AccountDb)
      → Valid u
      → view r u a ≡ some w
      → (x : AccountDb) × ((undo r (touch_change a b c) u ≡ some x)
          × Moves r u x (view r u) u.refund)
  unfolding undo untouched
  undo-touch b c a w u k h = elim (Bool-cases (b || a == ripemd)) [
    | inl e ↦ (u, (rw e refl, same-Moves r u u k refl refl (omega arith) refl refl refl))
    | inr e ↦
        let f = get-Found r a u k in
        let (i, (o, (z, _))) = get_present r a w u k h in
        let t = (get_account_object r a u).1 in
        let q = untouched-Moves b c a i t f.moves.valid z in
        (
          untouched b c a i t,
          (
            rw e (with_object-some r (untouched b c a) a i u o),
            Moves-weaken r (Moves-trans r f.moves q) f.moves.shows f.moves.refunds,
          ),
        )
  ]

  set_view_at :
      (a b : Address) (w : View) (u : AccountDb)
      → view r u a ≡ some w
      → set_view a w (view r u) b ≡ view r u b
  set_view_at a b w u h = ground (arith, ==_iff a b)

  touch-Step :
      (a : Address) (i : ℕ) (s : AccountDb)
      → Valid s
      → s.cache a ≡ some i
      → Step r s (touch a i s) (view r s) s.refund
  unfolding touch
  touch-Step a i s v h =
      let e = touch_change a (s.heap a i).touched (not (s.heap a i).on_dirty) in
      let p = same-Moves r s (push e s) v refl refl (omega arith) refl refl refl in
      let q = mark_dirty-Moves r a i (push e s) p.valid h in
      let w = mark_dirty-Wrote r a i (push e s) in
      let marked = mark_dirty a i (push e s) in
      let c : marked.cache a ≡ some i = ap (λ c. c a) w.cache ∙ h in
      let t = touched-Moves true a i marked q.valid c in
      let m =
        Moves-weaken r (Moves-trans r (Moves-trans r p q) t) (λ b. q.shows b ∙ p.shows b)
          (q.refunds) in
      record {
        moves = m;
        back =
            entry-Back r e a (observe r a (s.heap a i)) (observe r a (s.heap a i)) s
              (put a i (touched_field true (marked.heap a i)) marked)
              (Moves-weaken r m (λ b. sym (set_view_same r a b i s h)) refl) (view-cached r a i s h)
              ((put-Wrote r a i (touched_field true (marked.heap a i)) marked refl).transitions
                ∙ w.transitions)
              (λ u k x.
                (let (y, (d, n)) =
                    undo-touch (s.heap a i).touched (not (s.heap a i).on_dirty) a
                      (observe r a (s.heap a i)) u k x in
                  (
                    y,
                    (
                      d,
                      Moves-weaken r n (λ b. sym (set_view_at a b (observe r a (s.heap a i)) u x))
                          refl,
                    ),
                  )));
      }

  pub add_balance-Step :
      (x : ℤ) (a : Address) (i : ℕ) (s : AccountDb)
      → Valid s
      → s.cache a ≡ some i
      → Step r s
          (add_balance r x a i s)
          (set_view a (plus_balance x (observe r a (s.heap a i))) (view r s))
          s.refund
  unfolding add_balance observe
  add_balance-Step x a i s v h = elim (Bool-cases (is_zero x)) [
    | inl e ↦
        let k =
          still-Step ((s.heap a i).account.balance +ℤ x) x a i s
            (add_zero r (s.heap a i).account.balance x e) v h in
        elim (Bool-cases (empty r (s.heap a i))) [
          | inl z ↦ rw (e, z) (Step-weaken r (touch-Step a i s v h) k.moves.shows refl)
          | inr z ↦ rw (e, z) k
        ]
    | inr e ↦ rw e (set_balance-Step r ((s.heap a i).account.balance +ℤ x) a i s v h)
  ]
