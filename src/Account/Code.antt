-- ===== src/Account/Code.antt =====
-- The code of an `accountObject`, and the methods that move its balance.
use zvchain.Base.{
  ℕ, ◌≡◌, refl, sym, ap, ◌∙◌, Bool-cases, true, false, Option, none, some, Option-cases, inl, inr,
  arith, ◌==◌, if◌then◌else◌,
}
use zvchain.Base.Bytes.{Bytes}
use zvchain.Stake.Types.{Address}
use zvchain.Account.Types.{Hash, Reads, AccountObject, code_change, AccountDb}
use zvchain.Account.Object.{put, code_fields, empty_code_hash, get_code, set_code}
use zvchain.Account.Journal.{undo}
use zvchain.Account.Contract.{View, observe, code_of, slot_of, set_view, with_code}
use zvchain.Account.Views.{Valid, view}
use zvchain.Account.Fields.{Step, Step-trans, Step-weaken, field-Step}
use zvchain.Account.Storage.{Read, still_Read, put-Read}

module _ (r : Reads) where
  -- What the code reads as, once set with its hash.
  abbrev pub resolve : Hash → Option Bytes → Option Bytes
  resolve h (some c) = some c
  resolve h none = if h == empty_code_hash r then none else r.code h

  code-resolve : (o : AccountObject) → code_of r o ≡ resolve o.account.code_hash o.code
  unfolding code_of
  code-resolve o = elim (Option-cases o.code) [
    | inl e ↦ rw (code_of, e) refl
    | inr (c, e) ↦ rw (code_of, e) refl
  ]

  resolve_known : (h : Hash) → (h == empty_code_hash r) ≡ false → resolve h (r.code h) ≡ r.code h
  resolve_known h e = ground arith

  resolve_twice : (h : Hash) (c : Option Bytes) → resolve h (resolve h c) ≡ resolve h c
  resolve_twice h (some c) = refl
  resolve_twice h none = elim (Bool-cases (h == empty_code_hash r)) [
    | inl e ↦ rw (e, e) refl
    | inr e ↦ rw e (resolve_known h e)
  ]

  with_code_of : Option Bytes → View → View
  with_code_of c v = record v { code = c }

  code-observe :
      (a : Address) (h : Hash) (c : Option Bytes) (o : AccountObject)
      → resolve h c ≡ c
      → observe r a (code_fields h c o) ≡ with_code h c (observe r a o)
  unfolding observe slot_of with_code_of
  code-observe a h c o k =
      ap (λ x. with_code_of x (with_code h c (observe r a o)))
        (code-resolve (code_fields h c o) ∙ k)

  filled_code-observe :
      (a : Address) (o : AccountObject)
      → o.code ≡ none
      → (o.account.code_hash == empty_code_hash r) ≡ false
      → observe r a (record o { code = r.code o.account.code_hash }) ≡ observe r a o
  unfolding observe slot_of with_code_of
  filled_code-observe a o n e =
      ap (λ x. with_code_of x (observe r a o))
        (code-resolve (record o { code = r.code o.account.code_hash })
          ∙ (resolve_known o.account.code_hash e ∙ sym (code-resolve o ∙ rw (n, e) refl)))

  get_code-set :
      (c : Bytes) (a : Address) (i : ℕ) (s : AccountDb)
      → (s.heap a i).code ≡ some c
      → get_code r a i s ≡ (some c, s)
  unfolding get_code
  get_code-set c a i s e = rw (get_code, e) refl

  get_code-empty :
      (a : Address) (i : ℕ) (s : AccountDb)
      → (s.heap a i).code ≡ none
      → ((s.heap a i).account.code_hash == empty_code_hash r) ≡ true
      → get_code r a i s ≡ (none, s)
  unfolding get_code
  get_code-empty a i s e f = rw (get_code, e, f) refl

  get_code-loaded :
      (a : Address) (i : ℕ) (s : AccountDb)
      → (s.heap a i).code ≡ none
      → ((s.heap a i).account.code_hash == empty_code_hash r) ≡ false
      → get_code r a i s ≡ (
        r.code (s.heap a i).account.code_hash,
        put a i (record (s.heap a i) { code = r.code (s.heap a i).account.code_hash }) s,
      )
  unfolding get_code
  get_code-loaded a i s e f = rw (get_code, e, f) refl

  pub get_code-Read :
      (a : Address) (i : ℕ) (s : AccountDb)
      → Valid s
      → s.cache a ≡ some i
      → Read r a i s (get_code r a i s).0 ((observe r a (s.heap a i)).code) (get_code r a i s).1
  unfolding observe
  get_code-Read a i s v h =
      let o = s.heap a i in
      let k = code-resolve o in
      elim (Option-cases o.code) [
        | inr (c, e) ↦
            rw (get_code-set c a i s e)
              (still_Read r a i s (some c) (code_of r o) (sym (k ∙ rw e refl)) v h)
        | inl n ↦ elim (Bool-cases (o.account.code_hash == empty_code_hash r)) [
          | inl e ↦
              rw (get_code-empty a i s n e)
                (still_Read r a i s none (code_of r o) (sym (k ∙ rw (n, e) refl)) v h)
          | inr e ↦ rw (get_code-loaded a i s n e) (
              put-Read r a i (record o { code = r.code o.account.code_hash }) s
                (r.code o.account.code_hash) (code_of r o) (sym (k ∙ rw (n, e) refl))
                (filled_code-observe a o n e) refl v h)
        ]
      ]

  observe_resolved :
      (a : Address) (o : AccountObject)
      → resolve (observe r a o).code_hash (observe r a o).code ≡ (observe r a o).code
  unfolding observe
  observe_resolved a o =
      let k = code-resolve o in
      ap (resolve o.account.code_hash) k ∙ (resolve_twice o.account.code_hash o.code ∙ sym k)

  code_hash-observe :
      (a : Address) (o : AccountObject) (w : View)
      → observe r a o ≡ w
      → o.account.code_hash ≡ w.code_hash
  unfolding observe
  code_hash-observe a o w e = ap (λ x. x.code_hash) e

  pub set_code-Step :
      (k : Hash) (c : Option Bytes) (a : Address) (i : ℕ) (s : AccountDb)
      → resolve k c ≡ c
      → Valid s
      → s.cache a ≡ some i
      → Step r s
          (set_code r k c a i s)
          (set_view a (with_code k c (observe r a (s.heap a i))) (view r s))
          s.refund
  unfolding set_code undo
  set_code-Step k c a i s known v h =
      let p = get_code-Read a i s v h in
      let t = (get_code r a i s).1 in
      let before = (get_code r a i s).0 in
      let w = observe r a (s.heap a i) in
      let old = (t.heap a i).account.code_hash in
      let hash : old ≡ w.code_hash = code_hash-observe a (t.heap a i) w p.object in
      Step-weaken r
        (Step-trans r p.step (
          field-Step r (code_fields k c) (code_fields old before) (code_change a before old) a i
            (with_code k c w) t (λ _. refl) (λ _. refl) (λ _. refl)
            (code-observe a k c (t.heap a i) known ∙ ap (with_code k c) p.object)
            (λ o e.
              code-observe a old before o (
                ap (λ x. resolve x before) hash
                ∙ (ap (resolve w.code_hash) p.answer
                    ∙ (observe_resolved a (s.heap a i) ∙ sym p.answer)))
              ∙ (ap (with_code old before) e
                  ∙ (ap (λ x. with_code x before w) hash
                      ∙ (ap (λ x. with_code w.code_hash x w) p.answer ∙ sym p.object))))
            p.step.moves.valid p.cache))
        (λ b. ground (arith, p.step.moves.shows b)) p.step.moves.refunds
