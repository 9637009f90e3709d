-- ===== src/Account/Undo.antt =====
-- A journal that leads back: undoing the entries of a run of calls restores what was shown before it.
use zvchain.Base.{
  ℕ, ◌≡◌, refl, sym, ap, ◌∙◌, Option, none, some, some-injective, Option-cases, inl, inr, List, [],
  ◌∷◌, ◌++◌, arith, ==_iff,
}
use zvchain.Stake.Types.{Address}
use zvchain.Account.Types.{Reads, AccountObject, Entry, AccountDb}
use zvchain.Account.Object.{change, get_account_object}
use zvchain.Account.Journal.{with_object, undo}
use zvchain.Account.Contract.{View, observe, set_view}
use zvchain.Account.Views.{Valid, view, view-cached, Moves, Moves-trans, Moves-weaken}
use zvchain.Account.Writes.{change-Moves}
use zvchain.Account.Loads.{get-Found}

module _ (r : Reads) where
  unfoldable pub undo_all : List Entry → AccountDb → Option AccountDb
  undo_all [] s = some s
  undo_all (e ∷ es) s = elim (undo r e s) [ none ↦ none | some t ↦ undo_all es t ]

  -- u shows what s shows, and has cached what s has.
  pub record Extends (s u : AccountDb) : Type 0 where
    pub shows : (b : Address) → view r u b ≡ view r s b
    pub refunds : u.refund ≡ s.refund
    pub cached : (b : Address) → u.cache b ≡ none → s.cache b ≡ none

  -- w is u, brought back to what s shows.
  pub record Undone (s u w : AccountDb) : Type 0 where
    pub valid : Valid w
    pub extends : Extends s w
    pub revisions : w.valid_revisions ≡ u.valid_revisions
    pub next_ids : w.next_revision_id ≡ u.next_revision_id

  -- The entries that t has on top of those of s bring back what s shows.
  pub record Back (s t : AccountDb) : Type 0 where
    pub entries : List Entry
    pub journal : t.transitions ≡ entries ++ s.transitions
    pub leads :
        (u : AccountDb)
        → Valid u
        → Extends t u
        → (w : AccountDb) × ((undo_all entries u ≡ some w) × Undone s u w)

  pub undo_all-cons :
      (e : Entry) (es : List Entry) (u w : AccountDb)
      → undo r e u ≡ some w
      → undo_all (e ∷ es) u ≡ undo_all es w
  unfolding undo_all
  undo_all-cons e es u w h = rw (undo_all, h) refl

  undo_all-append :
      (es fs : List Entry) (u w : AccountDb)
      → undo_all es u ≡ some w
      → undo_all (es ++ fs) u ≡ undo_all fs w
  unfolding undo_all
  undo_all-append [] fs u w h = ap (undo_all fs) (some-injective u w h)
  undo_all-append (e ∷ es) fs u w h = elim (Option-cases (undo r e u)) [
    | inl n ↦ absurd (ground (arith, h, n))
    | inr (x, n) ↦
        undo_all-cons e (es ++ fs) u x n
        ∙ undo_all-append es fs x w (sym (undo_all-cons e es u x n) ∙ h)
  ]

  append_assoc : (es fs gs : List Entry) → (es ++ fs) ++ gs ≡ es ++ (fs ++ gs)
  append_assoc [] fs gs = refl
  append_assoc (e ∷ es) fs gs = ap (λ x. e ∷ x) (append_assoc es fs gs)

  pub Back-trans : {s t w : AccountDb} → Back s t → Back t w → Back s w
  Back-trans {s = s} p q = record {
    entries = q.entries ++ p.entries;
    journal =
        q.journal
        ∙ (ap (λ x. q.entries ++ x) p.journal
            ∙ sym (append_assoc q.entries p.entries s.transitions));
    leads = λ u v e.
        let (x, (ux, dx)) = q.leads u v e in
        let (y, (uy, dy)) = p.leads x dx.valid dx.extends in
        (
          y,
          (
            undo_all-append q.entries p.entries u x ux ∙ uy,
            record {
              valid = dy.valid;
              extends = dy.extends;
              revisions = dy.revisions ∙ dx.revisions;
              next_ids = dy.next_ids ∙ dx.next_ids;
            },
          ),
        );
  }

  pub Moves-Extends : {s t : AccountDb} → Moves r s t (view r s) s.refund → Extends s t
  Moves-Extends p = record { shows = p.shows; refunds = p.refunds; cached = p.cached }

  pub Extends-trans : {s t u : AccountDb} → Extends s t → Extends t u → Extends s u
  Extends-trans p q = record {
    shows = λ b. q.shows b ∙ p.shows b;
    refunds = q.refunds ∙ p.refunds;
    cached = λ b h. p.cached b (q.cached b h);
  }

  -- No entries, nothing shown changes.
  pub Extends-Back : {s t : AccountDb} → Extends s t → t.transitions ≡ s.transitions → Back s t
  unfolding undo_all
  Extends-Back p h = record {
    entries = [];
    journal = h;
    leads = λ u v e. (
      u,
      (refl, record { valid = v; extends = Extends-trans p e; revisions = refl; next_ids = refl }),
    );
  }

  pub with_object-some :
      (g : ℕ → AccountDb → AccountDb) (a : Address) (i : ℕ) (u : AccountDb)
      → (get_account_object r a u).0 ≡ some i
      → with_object r g a u ≡ some (g i (get_account_object r a u).1)
  unfolding with_object
  with_object-some g a i u h = rw (with_object, h) refl

  -- An object that is there is found, cached and shown.
  pub get_present :
      (a : Address) (v : View) (u : AccountDb)
      → Valid u
      → view r u a ≡ some v
      → (i : ℕ) × (((get_account_object r a u).0 ≡ some i)
          × (((get_account_object r a u).1.cache a ≡ some i)
              × (observe r a ((get_account_object r a u).1.heap a i) ≡ v)))
  get_present a v u h e =
      let f = get-Found r a u h in
      elim (Option-cases (get_account_object r a u).0) [
        | inl n ↦ absurd (ground (arith, f.missing n, e))
        | inr (i, o) ↦
            let c = f.present i o in
            (
              i,
              (
                o,
                (
                  c,
                  ground
                      (arith, view-cached r a i (get_account_object r a u).1 c, f.moves.shows a, e),
                ),
              ),
            )
      ]

  set_view-Moves :
      {s t x : AccountDb} {n : ℕ} (a : Address) (v : View)
      → Moves r s t (view r s) n
      → Moves r t x (set_view a v (view r t)) n
      → Moves r s x (set_view a v (view r s)) n
  set_view-Moves a v p q = Moves-weaken r (Moves-trans r p q) (λ b. ground (arith, p.shows b)) refl

  -- The undo of an entry, through the object of its account.
  pub with_object-Moves :
      (f : AccountObject → AccountObject) (a : Address) (v w : View) (u : AccountDb)
      → ((o : AccountObject) → (f o).deleted ≡ o.deleted)
      → ((o : AccountObject) → observe r a o ≡ v → observe r a (f o) ≡ w)
      → Valid u
      → view r u a ≡ some v
      → (x : AccountDb) × ((with_object r (change f a) a u ≡ some x)
          × Moves r u x (set_view a w (view r u)) u.refund)
  with_object-Moves f a v w u k law h e =
      let f' = get-Found r a u h in
      let (i, (o, (c, z))) = get_present a v u h e in
      let t = (get_account_object r a u).1 in
      (
        change f a i t,
        (
          with_object-some (change f a) a i u o,
          set_view-Moves a w f'.moves (
              Moves-weaken r (change-Moves r f k a i t f'.moves.valid c)
                (λ b. ap (λ x. set_view a x (view r t) b) (law (t.heap a i) z)) f'.moves.refunds),
        ),
      )

  -- A step that pushes one entry, and changes one account to what the entry undoes.
  pub entry-Back :
      (e : Entry) (a : Address) (v w : View) (s t : AccountDb)
      → Moves r s t (set_view a w (view r s)) s.refund
      → view r s a ≡ some v
      → t.transitions ≡ e ∷ s.transitions
      → ((u : AccountDb)
          → Valid u
          → view r u a ≡ some w
          → (x : AccountDb) × ((undo r e u ≡ some x)
              × Moves r u x (set_view a v (view r u)) u.refund))
      → Back s t
  unfolding undo_all
  entry-Back e a v w s t m h j undoes = record {
    entries = e ∷ [];
    journal = j;
    leads = λ u k x.
        let (y, (uy, my)) = undoes u k (x.shows a ∙ (m.shows a ∙ ground (arith, ==_iff a a))) in
        (
          y,
          (
            undo_all-cons e [] u y uy,
            record {
              valid = my.valid;
              extends = record {
                shows = λ b. ground (arith, x.shows b, m.shows b, my.shows b, h, ==_iff a b);
                refunds = my.refunds ∙ (x.refunds ∙ m.refunds);
                cached = λ b z. m.cached b (x.cached b (my.cached b z));
              };
              revisions = my.revisions;
              next_ids = my.next_ids;
            },
          ),
        );
  }
