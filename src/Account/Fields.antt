-- ===== src/Account/Fields.antt =====
-- The methods of `accountObject` that write a field: what each shows, and that its entry undoes it.
use zvchain.Base.{ℕ, zero, suc, ◌≡◌, refl, ap, true, some, arith}
use zvchain.Base.Bytes.{bytes_key}
use zvchain.Base.Int.{pos, negsuc, ◌+ℤ◌, ◌-ℤ◌, is_zero, ℤ}
use zvchain.Stake.Types.{Address}
use zvchain.Account.Types.{Reads, AccountObject, Entry, balance_change, nonce_change, AccountDb}
use zvchain.Account.Object.{push, change, balance_field, nonce_field, set_balance, set_nonce}
use zvchain.Account.Journal.{with_object, undo}
use zvchain.Account.Contract.{
  View, Views, observe, code_of, slot_of, set_view, with_balance, with_nonce,
}
use zvchain.Account.Views.{Valid, view, view-cached, Moves, Moves-trans, Moves-weaken, same-Moves}
use zvchain.Account.Writes.{change-Moves, change-Wrote}
use zvchain.Account.Undo.{
  Back, Back-trans, Extends-Back, Moves-Extends, entry-Back, with_object-Moves,
}

module _ (r : Reads) where
  -- What a step shows, with the journal that leads back from it.
  pub record Step (s t : AccountDb) (m : Views) (n : ℕ) : Type 0 where
    pub moves : Moves r s t m n
    pub back : Back r s t

  pub Step-trans :
      {s t u : AccountDb} {m m' : Views} {n n' : ℕ} → Step s t m n → Step t u m' n' → Step s u m' n'
  Step-trans p q = record {
    moves = Moves-trans r p.moves q.moves;
    back = Back-trans r p.back q.back;
  }

  pub Step-weaken :
      {s t : AccountDb} {m m' : Views} {n n' : ℕ}
      → Step s t m n
      → ((b : Address) → m b ≡ m' b)
      → n ≡ n'
      → Step s t m' n'
  Step-weaken p e f = record { moves = Moves-weaken r p.moves e f; back = p.back }

  pub quiet-Step :
      {s t : AccountDb}
      → Moves r s t (view r s) s.refund
      → t.transitions ≡ s.transitions
      → Step s t (view r s) s.refund
  quiet-Step p e = record { moves = p; back = Extends-Back r (Moves-Extends r p) e }

  push-Moves : (e : Entry) (s : AccountDb) → Valid s → Moves r s (push e s) (view r s) s.refund
  push-Moves e s v = same-Moves r s (push e s) v refl refl (omega arith) refl refl refl

  -- A write of a field by f, whose entry is undone by g.
  pub field-Step :
      (f g : AccountObject → AccountObject) (e : Entry) (a : Address) (i : ℕ) (w : View)
      (s : AccountDb)
      → ((o : AccountObject) → (f o).deleted ≡ o.deleted)
      → ((o : AccountObject) → (g o).deleted ≡ o.deleted)
      → ((u : AccountDb) → undo r e u ≡ with_object r (change g a) a u)
      → observe r a (f (s.heap a i)) ≡ w
      → ((o : AccountObject) → observe r a o ≡ w → observe r a (g o) ≡ observe r a (s.heap a i))
      → Valid s
      → s.cache a ≡ some i
      → Step s (change f a i (push e s)) (set_view a w (view r s)) s.refund
  field-Step f g e a i w s kf kg un shows law v h =
      let p = push-Moves e s v in
      let q = change-Moves r f kf a i (push e s) p.valid h in
      let m : Moves r s (change f a i (push e s)) (set_view a w (view r s)) s.refund =
        Moves-weaken r (Moves-trans r p q) (λ b. ground (arith, shows, p.shows b)) refl in
      record {
        moves = m;
        back =
            entry-Back r e a (observe r a (s.heap a i)) w s (change f a i (push e s)) m
              (view-cached r a i s h) (change-Wrote r f kf a i (push e s)).transitions
              (λ u k x.
                rw (un u) (with_object-Moves r g a w (observe r a (s.heap a i)) u kg law k x));
      }

  pub set_balance-Step :
      (x : ℤ) (a : Address) (i : ℕ) (s : AccountDb)
      → Valid s
      → s.cache a ≡ some i
      → Step s
          (set_balance x a i s)
          (set_view a (with_balance x (observe r a (s.heap a i))) (view r s))
          s.refund
  unfolding set_balance undo observe code_of slot_of
  set_balance-Step x a i s v h =
      field-Step (balance_field x) (balance_field (s.heap a i).account.balance)
        (balance_change a (s.heap a i).account.balance) a i
        (with_balance x (observe r a (s.heap a i))) s (λ _. refl) (λ _. refl) (λ _. refl) refl
        (λ o e. ap (with_balance (s.heap a i).account.balance) e) v h

  pub set_nonce-Step :
      (n : ℕ) (a : Address) (i : ℕ) (s : AccountDb)
      → Valid s
      → s.cache a ≡ some i
      → Step s
          (set_nonce n a i s)
          (set_view a (with_nonce n (observe r a (s.heap a i))) (view r s))
          s.refund
  unfolding set_nonce undo observe code_of slot_of
  set_nonce-Step n a i s v h =
      field-Step (nonce_field n) (nonce_field (s.heap a i).account.nonce)
        (nonce_change a (s.heap a i).account.nonce) a i (with_nonce n (observe r a (s.heap a i))) s
        (λ _. refl) (λ _. refl) (λ _. refl) refl
        (λ o e. ap (with_nonce (s.heap a i).account.nonce) e) v h

  -- An amount of zero leaves the balance.
  pub add_zero : (x y : ℤ) → is_zero y ≡ true → x +ℤ y ≡ x
  add_zero (pos n) (pos zero) h = ap pos (omega arith)
  add_zero (negsuc n) (pos zero) h = ground arith
  add_zero x (pos (suc m)) h = absurd (ground arith)
  add_zero x (negsuc m) h = absurd (ground arith)

  pub sub_zero : (x y : ℤ) → is_zero y ≡ true → x -ℤ y ≡ x
  sub_zero x (pos zero) h = add_zero x (pos 0) refl
  sub_zero x (pos (suc m)) h = absurd (ground arith)
  sub_zero x (negsuc m) h = absurd (ground arith)
