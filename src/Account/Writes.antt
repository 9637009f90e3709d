-- ===== src/Account/Writes.antt =====
-- A setter of an `accountObject`: the write, and the mark that `onDirty` leaves.
use zvchain.Base.{ℕ, ap, ◌≡◌, refl, sym, ◌∙◌, Bool-cases, inl, inr, true, false, some, arith}
use zvchain.Stake.Types.{Address}
use zvchain.Account.Types.{Reads, AccountObject, AccountDb}
use zvchain.Account.Object.{update, put, change, mark_dirty}
use zvchain.Account.Contract.{View, code_of, slot_of, observe, set_view}
use zvchain.Account.Views.{
  Valid, view, Moves, Wrote, Loose, put-Wrote, put-Moves, Loose-Moves, set_view_same, same-Moves,
  Moves-trans, Moves-weaken,
}

module _ (r : Reads) where
  -- The marks that `onDirty` leaves are not shown.
  pub clean-observe :
      (a : Address) (o : AccountObject)
      → observe r a (record o { on_dirty = false }) ≡ observe r a o
  unfolding observe code_of slot_of
  clean-observe a o = refl

  dirtied : Address → AccountDb → AccountDb
  dirtied a s = record s { dirty = update s.dirty a true }

  clean : AccountObject → AccountObject
  clean o = record o { on_dirty = false }

  mark_dirty-true :
      (a : Address) (i : ℕ) (s : AccountDb)
      → (s.heap a i).on_dirty ≡ true
      → mark_dirty a i s ≡ put a i (clean (s.heap a i)) (dirtied a s)
  unfolding mark_dirty dirtied clean
  mark_dirty-true a i s e = rw e refl

  mark_dirty-false :
      (a : Address) (i : ℕ) (s : AccountDb) → (s.heap a i).on_dirty ≡ false → mark_dirty a i s ≡ s
  unfolding mark_dirty
  mark_dirty-false a i s e = rw e refl

  dirtied-Moves :
      (a : Address) (s : AccountDb) → Valid s → Moves r s (dirtied a s) (view r s) s.refund
  unfolding dirtied
  dirtied-Moves a s v = same-Moves r s (dirtied a s) v refl refl (omega arith) refl refl refl

  dirtied-Loose : (a : Address) (i : ℕ) (s : AccountDb) → Loose r a i s → Loose r a i (dirtied a s)
  unfolding dirtied
  dirtied-Loose a i s l = l

  dirty_Wrote :
      (a : Address) (i : ℕ) (s : AccountDb)
      → Wrote r a i s (put a i (clean (s.heap a i)) (dirtied a s)) (observe r a (s.heap a i))
  unfolding dirtied clean
  dirty_Wrote a i s =
      let w = put-Wrote r a i (clean (s.heap a i)) (dirtied a s) refl in
      record {
        cache = w.cache;
        next = w.next;
        transitions = w.transitions;
        object = w.object ∙ clean-observe a (s.heap a i);
        deleted = w.deleted;
      }

  clean-Moves :
      (a : Address) (i : ℕ) (s : AccountDb)
      → Valid (dirtied a s)
      → Valid s
      → s.cache a ≡ some i
      → Moves r
          (dirtied a s)
          (put a i (clean (s.heap a i)) (dirtied a s))
          (set_view a (observe r a (clean (s.heap a i))) (view r (dirtied a s)))
          s.refund
  unfolding dirtied clean
  clean-Moves a i s v w h = put-Moves r a i (clean (s.heap a i)) (dirtied a s) v h (w a i h).1

  clean-view :
      (a b : Address) (i : ℕ) (s : AccountDb)
      → s.cache a ≡ some i
      → set_view a (observe r a (clean (s.heap a i))) (view r (dirtied a s)) b
        ≡ view r (dirtied a s) b
  unfolding dirtied clean
  clean-view a b i s h = rw (clean-observe a (s.heap a i)) (set_view_same r a b i (dirtied a s) h)

  pub mark_dirty-Wrote :
      (a : Address) (i : ℕ) (s : AccountDb)
      → Wrote r a i s (mark_dirty a i s) (observe r a (s.heap a i))
  mark_dirty-Wrote a i s = elim (Bool-cases (s.heap a i).on_dirty) [
    | inl e ↦ rw (mark_dirty-true a i s e) (dirty_Wrote a i s)
    | inr e ↦
        rw (mark_dirty-false a i s e)
          (record { cache = refl; next = refl; transitions = refl; object = refl; deleted = refl })
  ]

  pub mark_dirty-Moves :
      (a : Address) (i : ℕ) (s : AccountDb)
      → Valid s
      → s.cache a ≡ some i
      → Moves r s (mark_dirty a i s) (view r s) s.refund
  mark_dirty-Moves a i s v h = elim (Bool-cases (s.heap a i).on_dirty) [
    | inl e ↦
        let p = dirtied-Moves a s v in
        rw (mark_dirty-true a i s e) (
          Moves-weaken r (Moves-trans r p (clean-Moves a i s p.valid v h))
            (λ b. clean-view a b i s h ∙ p.shows b) refl)
    | inr e ↦
        rw (mark_dirty-false a i s e) (same-Moves r s s v refl refl (omega arith) refl refl refl)
  ]

  pub mark_dirty-Loose :
      (a : Address) (i : ℕ) (s : AccountDb)
      → Valid s
      → Loose r a i s
      → Moves r s (mark_dirty a i s) (view r s) s.refund
  mark_dirty-Loose a i s v l = elim (Bool-cases (s.heap a i).on_dirty) [
    | inl e ↦
        let p = dirtied-Moves a s v in
        rw (mark_dirty-true a i s e) (
          Moves-weaken r
            (Moves-trans r p (
              Loose-Moves r a i (clean (s.heap a i)) (dirtied a s) p.valid (dirtied-Loose a i s l)))
            p.shows p.refunds)
    | inr e ↦
        rw (mark_dirty-false a i s e) (same-Moves r s s v refl refl (omega arith) refl refl refl)
  ]

  pub Wrote-trans :
      {a : Address} {i : ℕ} {s t u : AccountDb} {v w : View}
      → Wrote r a i s t v
      → Wrote r a i t u w
      → Wrote r a i s u w
  Wrote-trans p q = record {
    cache = q.cache ∙ p.cache;
    next = q.next ∙ p.next;
    transitions = q.transitions ∙ p.transitions;
    object = q.object;
    deleted = q.deleted ∙ p.deleted;
  }

  module _ (f : AccountObject → AccountObject)
      (keeps : (o : AccountObject) → (f o).deleted ≡ o.deleted) (a : Address) (i : ℕ)
      (s : AccountDb) where
    pub change-Wrote : Wrote r a i s (change f a i s) (observe r a (f (s.heap a i)))
    unfolding change
    change-Wrote =
        let p = put-Wrote r a i (f (s.heap a i)) s (keeps (s.heap a i)) in
        let q = Wrote-trans p (mark_dirty-Wrote a i (put a i (f (s.heap a i)) s)) in
        record {
          cache = q.cache;
          next = q.next;
          transitions = q.transitions;
          object = q.object ∙ p.object;
          deleted = q.deleted;
        }

    pub change-Moves :
        Valid s
        → s.cache a ≡ some i
        → Moves r s (change f a i s) (set_view a (observe r a (f (s.heap a i))) (view r s)) s.refund
    unfolding change
    change-Moves v h =
        let p = put-Moves r a i (f (s.heap a i)) s v h (keeps (s.heap a i) ∙ (v a i h).1) in
        let w = put-Wrote r a i (f (s.heap a i)) s (keeps (s.heap a i)) in
        Moves-weaken r
          (Moves-trans r p
            (mark_dirty-Moves a i (put a i (f (s.heap a i)) s) p.valid (ap (λ c. c a) w.cache ∙ h)))
          p.shows p.refunds

    pub change-Loose : Valid s → Loose r a i s → Moves r s (change f a i s) (view r s) s.refund
    unfolding change
    change-Loose v l =
        let p = Loose-Moves r a i (f (s.heap a i)) s v l in
        let w = put-Wrote r a i (f (s.heap a i)) s (keeps (s.heap a i)) in
        Moves-weaken r
          (Moves-trans r p (
            mark_dirty-Loose a i (put a i (f (s.heap a i)) s) p.valid
              (λ j k. l j (sym (ap (λ c. c a) w.cache) ∙ k))))
          p.shows p.refunds
