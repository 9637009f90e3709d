-- ===== src/Account/Storage.antt =====
-- The storage and the code of an `accountObject`: the reads that fill its caches, and the writes.
use std.Path.{fun_ext}
use zvchain.Base.{
  ℕ, ◌≡◌, refl, sym, ap, ◌∙◌, Option, none, some, Option-cases, inl, inr, arith, if◌then◌else◌,
}
use zvchain.Base.Map.{lookup, insert, lookup-insert}
use zvchain.Base.Bytes.{Bytes, bytes_key, same_bytes, same_bytes_iff}
use zvchain.Stake.Types.{Address}
use zvchain.Account.Types.{Reads, AccountObject, storage_change, AccountDb}
use zvchain.Account.Object.{put, storage_fields, get_data, set_data}
use zvchain.Account.Journal.{undo}
use zvchain.Account.Contract.{View, observe, code_of, slot_of, set_view, with_slot}
use zvchain.Account.Views.{
  Valid, view, Moves-weaken, same-Moves, put-Moves, put-Wrote, set_view_same,
}
use zvchain.Account.Fields.{Step, Step-trans, Step-weaken, quiet-Step, field-Step}

module _ (r : Reads) where
  -- A pointer read that fills a cache of the object and shows nothing.
  put_quiet :
      (a : Address) (i : ℕ) (o : AccountObject) (s : AccountDb)
      → observe r a o ≡ observe r a (s.heap a i)
      → o.deleted ≡ (s.heap a i).deleted
      → Valid s
      → s.cache a ≡ some i
      → Step r s (put a i o s) (view r s) s.refund
  put_quiet a i o s e d v h =
      quiet-Step r
        (Moves-weaken r (put-Moves r a i o s v h (d ∙ (v a i h).1))
          (λ b. ap (λ x. set_view a x (view r s) b) e ∙ set_view_same r a b i s h) refl)
        (put-Wrote r a i o s d).transitions

  -- What a method that reads gives: its answer, and an object that shows the same under its pointer.
  pub record Read {A : Type 0} (a : Address) (i : ℕ) (s : AccountDb) (x y : A) (t : AccountDb)
      : Type 0 where
    pub step : Step r s t (view r s) s.refund
    pub answer : x ≡ y
    pub cache : t.cache a ≡ some i
    pub object : observe r a (t.heap a i) ≡ observe r a (s.heap a i)

  pub still_Read :
      {A : Type 0} (a : Address) (i : ℕ) (s : AccountDb) (x y : A)
      → x ≡ y
      → Valid s
      → s.cache a ≡ some i
      → Read a i s x y s
  still_Read a i s x y e v h = record {
    step = quiet-Step r (same-Moves r s s v refl refl (omega arith) refl refl refl) refl;
    answer = e;
    cache = h;
    object = refl;
  }

  pub put-Read :
      {A : Type 0} (a : Address) (i : ℕ) (o : AccountObject) (s : AccountDb) (x y : A)
      → x ≡ y
      → observe r a o ≡ observe r a (s.heap a i)
      → o.deleted ≡ (s.heap a i).deleted
      → Valid s
      → s.cache a ≡ some i
      → Read a i s x y (put a i o s)
  put-Read a i o s x y e k d v h = record {
    step = put_quiet a i o s k d v h;
    answer = e;
    cache = ap (λ c. c a) (put-Wrote r a i o s d).cache ∙ h;
    object = (put-Wrote r a i o s d).object ∙ k;
  }

  slot_filled :
      (a : Address) (o : AccountObject) (k j : Bytes) (x : Bytes)
      → lookup k o.cached_storage ≡ none
      → r.slot a o.account.root k ≡ some x
      → slot_of r a (record o { cached_storage = insert k (some x) o.cached_storage }) j
        ≡ slot_of r a o j
  unfolding slot_of
  slot_filled a o k j x n e =
      ground (arith, lookup-insert j k (some x) o.cached_storage, same_bytes_iff j k)

  slot_written :
      (a : Address) (o : AccountObject) (k j : Bytes) (x : Option Bytes)
      → slot_of r a (storage_fields k x o) j ≡ (if same_bytes j k then x else slot_of r a o j)
  unfolding slot_of
  slot_written a o k j x = ground (arith, lookup-insert j k x o.cached_storage, same_bytes_iff j k)

  -- An object whose slots alone differ.
  with_slots : (Bytes → Option Bytes) → View → View
  with_slots f v = record v { slots = f }

  storage-observe :
      (a : Address) (o : AccountObject) (k : Bytes) (x : Option Bytes)
      → observe r a (storage_fields k x o) ≡ with_slot k x (observe r a o)
  unfolding observe code_of with_slots
  storage-observe a o k x =
      ap (λ f. with_slots f (observe r a o)) (fun_ext λ j. slot_written a o k j x)

  filled-observe :
      (a : Address) (o : AccountObject) (k : Bytes) (x : Bytes)
      → lookup k o.cached_storage ≡ none
      → r.slot a o.account.root k ≡ some x
      → observe r a (record o { cached_storage = insert k (some x) o.cached_storage })
        ≡ observe r a o
  unfolding observe code_of with_slots
  filled-observe a o k x n e =
      ap (λ f. with_slots f (observe r a o)) (fun_ext λ j. slot_filled a o k j x n e)

  get_data-cached :
      (k : Bytes) (x : Option Bytes) (a : Address) (i : ℕ) (s : AccountDb)
      → lookup k (s.heap a i).cached_storage ≡ some x
      → get_data r k a i s ≡ (x, s)
  unfolding get_data
  get_data-cached k x a i s e = rw (get_data, e) refl

  get_data-absent :
      (k : Bytes) (a : Address) (i : ℕ) (s : AccountDb)
      → lookup k (s.heap a i).cached_storage ≡ none
      → r.slot a (s.heap a i).account.root k ≡ none
      → get_data r k a i s ≡ (none, s)
  unfolding get_data
  get_data-absent k a i s e f = rw (get_data, e, f) refl

  get_data-loaded :
      (k : Bytes) (x : Bytes) (a : Address) (i : ℕ) (s : AccountDb)
      → lookup k (s.heap a i).cached_storage ≡ none
      → r.slot a (s.heap a i).account.root k ≡ some x
      → get_data r k a i s ≡ (
        some x,
        put a i
            (record (s.heap a i) { cached_storage = insert k (some x) (s.heap a i).cached_storage })
            s,
      )
  unfolding get_data
  get_data-loaded k x a i s e f = rw (get_data, e, f) refl

  pub get_data-Read :
      (k : Bytes) (a : Address) (i : ℕ) (s : AccountDb)
      → Valid s
      → s.cache a ≡ some i
      → Read a i s
          (get_data r k a i s).0
          ((observe r a (s.heap a i)).slots k)
          (get_data r k a i s).1
  unfolding observe slot_of
  get_data-Read k a i s v h =
      let o = s.heap a i in
      elim (Option-cases (lookup k o.cached_storage)) [
        | inr (x, e) ↦
            rw (get_data-cached k x a i s e)
              (still_Read a i s x (slot_of r a o k) (rw (slot_of, e) refl) v h)
        | inl n ↦ elim (Option-cases (r.slot a o.account.root k)) [
          | inl e ↦
              rw (get_data-absent k a i s n e)
                (still_Read a i s none (slot_of r a o k) (rw (slot_of, n, e) refl) v h)
          | inr (x, e) ↦ rw (get_data-loaded k x a i s n e) (
              put-Read a i (record o { cached_storage = insert k (some x) o.cached_storage }) s
                (some x) (slot_of r a o k) (rw (slot_of, n, e) refl) (filled-observe a o k x n e)
                refl v h)
        ]
      ]

  with_slot_undo :
      (k : Bytes) (x y : Option Bytes) (v : View)
      → y ≡ v.slots k
      → with_slot k y (with_slot k x v) ≡ v
  unfolding with_slots
  with_slot_undo k x y v e =
      ap (λ f. with_slots f v) (fun_ext λ j. ground (arith, same_bytes_iff j k))

  pub set_data-Step :
      (k : Bytes) (x : Option Bytes) (a : Address) (i : ℕ) (s : AccountDb)
      → Valid s
      → s.cache a ≡ some i
      → Step r s
          (set_data r k x a i s)
          (set_view a (with_slot k x (observe r a (s.heap a i))) (view r s))
          s.refund
  unfolding set_data undo
  set_data-Step k x a i s v h =
      let p = get_data-Read k a i s v h in
      let t = (get_data r k a i s).1 in
      let before = (get_data r k a i s).0 in
      let w = observe r a (s.heap a i) in
      Step-weaken r
        (Step-trans r p.step (
          field-Step r (storage_fields k x) (storage_fields k before) (storage_change a k before) a
            i (with_slot k x w) t (λ _. refl) (λ _. refl) (λ _. refl)
            (storage-observe a (t.heap a i) k x ∙ ap (with_slot k x) p.object)
            (λ o e.
              storage-observe a o k before
              ∙ (ap (with_slot k before) e ∙ (with_slot_undo k x before w p.answer ∙ sym p.object)))
            p.step.moves.valid p.cache))
        (λ b. ground (arith, p.step.moves.shows b)) p.step.moves.refunds
