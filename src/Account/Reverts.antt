-- ===== src/Account/Reverts.antt =====
-- `RevertToSnapshot`: the undo of the entries above a revision.
use zvchain.Base.{
  ℕ, suc, ◌≤◌, ◌≡◌, refl, sym, ap, ◌∙◌, true, false, none, some, some-injective, some-injective,
  Option-cases, inl, inr, List, [], ◌∷◌, ◌++◌, length, length-append, arith, ◌==◌, le→leb,
}
use zvchain.Account.Types.{Reads, Entry, Revision, AccountDb}
use zvchain.Account.Journal.{search, undo, undo_above, revert_to_snapshot}
use zvchain.Account.Contract.{Copy}
use zvchain.Account.Views.{Valid, view}
use zvchain.Account.Undo.{Extends, undo_all, undo_all-cons}
use zvchain.Account.Revisions.{Kept, not_leb}

module _ (r : Reads) where
  undo_above-stop :
      (e : Entry) (gs : List Entry) (u : AccountDb)
      → undo_above r (length (e ∷ gs)) (e ∷ gs) u ≡ some (record u { transitions = e ∷ gs })
  unfolding undo_above
  undo_above-stop e gs u =
      rw (undo_above, le→leb (suc (length gs)) (suc (length gs)) (omega arith)) refl

  undo_above-cons :
      (n : ℕ) (e : Entry) (es : List Entry) (u x : AccountDb)
      → n ≤ length es
      → undo r e u ≡ some x
      → undo_above r n (e ∷ es) u ≡ undo_above r n es x
  unfolding undo_above
  undo_above-cons n e es u x l h =
      rw (undo_above, not_leb r (suc (length es)) n (omega (arith, l)), h) refl

  -- Undoing the entries above an index.
  undo_above-all :
      (es gs : List Entry) (u w : AccountDb)
      → undo_all r es u ≡ some w
      → undo_above r (length gs) (es ++ gs) u ≡ some (record w { transitions = gs })
  unfolding undo_all undo_above
  undo_above-all [] [] u w h =
      ap {A = AccountDb} (λ x. some (record x { transitions = [] })) (some-injective u w h)
  undo_above-all [] (e ∷ gs) u w h =
      undo_above-stop e gs u
      ∙ ap {A = AccountDb} (λ x. some (record x { transitions = e ∷ gs })) (some-injective u w h)
  undo_above-all (e ∷ es) gs u w h = elim (Option-cases (undo r e u)) [
    | inl n ↦ absurd (ground (arith, h, n))
    | inr (x, n) ↦
        undo_above-cons (length gs) e (es ++ gs) u x (omega (arith, length-append es gs)) n
        ∙ undo_above-all es gs x w (sym (undo_all-cons r e es u x n) ∙ h)
  ]

  -- A revert to a revision that is held brings back what its state showed.
  pub record Reverted (x : Revision) (older : List Revision) (g s t : AccountDb) : Type 0 where
    pub valid : Valid t
    pub extends : Extends r g t
    pub journal : t.transitions ≡ g.transitions
    pub revisions : t.valid_revisions ≡ older
    pub next_ids : t.next_revision_id ≡ s.next_revision_id

  revert-found :
      (i : ℕ) (x : Revision) (older : List Revision) (s w : AccountDb)
      → search i s.valid_revisions ≡ some (x, older)
      → (x.id == i) ≡ true
      → undo_above r x.journal_index s.transitions s ≡ some w
      → revert_to_snapshot r i s ≡ some (record w { valid_revisions = older })
  unfolding revert_to_snapshot
  revert-found i x older s w a b e = rw (revert_to_snapshot, a, b, e) refl

  pub revert-stale :
      (i : ℕ) (x : Revision) (older : List Revision) (s : AccountDb)
      → search i s.valid_revisions ≡ some (x, older)
      → (x.id == i) ≡ false
      → revert_to_snapshot r i s ≡ none
  unfolding revert_to_snapshot
  revert-stale i x older s a b = rw (revert_to_snapshot, a, b) refl

  pub revert-miss :
      (i : ℕ) (s : AccountDb) → search i s.valid_revisions ≡ none → revert_to_snapshot r i s ≡ none
  unfolding revert_to_snapshot
  revert-miss i s a = rw (revert_to_snapshot, a) refl

  pub revert-Reverted :
      (i n : ℕ) (x : Revision) (older : List Revision) (c : Copy) (g s : AccountDb)
      → Valid s
      → search i s.valid_revisions ≡ some (x, older)
      → (x.id == i) ≡ true
      → Kept r n x c g s
      → (t : AccountDb) × ((revert_to_snapshot r i s ≡ some t) × Reverted x older g s t)
  unfolding view
  revert-Reverted i n x older c g s v a b k =
      let (w, (u, d)) =
        k.back.leads s v (record { shows = λ _. refl; refunds = refl; cached = λ _ h. h }) in
      let y : AccountDb = record w { transitions = g.transitions } in
      let t : AccountDb = record y { valid_revisions = older } in
      let e : undo_above r x.journal_index s.transitions s ≡ some y =
        ap (λ m. undo_above r m s.transitions s) k.index
        ∙ (ap (λ es. undo_above r (length g.transitions) es s) k.back.journal
            ∙ undo_above-all k.back.entries g.transitions s w u) in
      (
        t,
        (
          revert-found i x older s y a b e,
          record {
            valid = d.valid;
            extends = record {
              shows = λ z. d.extends.shows z;
              refunds = d.extends.refunds;
              cached = d.extends.cached;
            };
            journal = refl;
            revisions = refl;
            next_ids = d.next_ids;
          },
        ),
      )
