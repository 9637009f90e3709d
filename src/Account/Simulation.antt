-- ===== src/Account/Simulation.antt =====
-- How a call on the account database matches the contract's: writes, reads, snapshots and reverts.
use zvchain.Base.{
  ℕ, suc, ◌≡◌, refl, sym, ap, ◌∙◌, Bool-cases, true, false, not, ◌||◌, Option, none, some,
  Option-cases, inl, inr, List, [], ◌∷◌, arith, add64,
}
use zvchain.Base.Bytes.{Bytes}
use zvchain.Base.Int.{ℤ, pos, ◌-ℤ◌, is_zero, is_negative}
use zvchain.Stake.Types.{Address}
use zvchain.Account.Types.{Reads, AccountDb, refund_change}
use zvchain.Account.Object.{push}
use zvchain.Account.Journal.{snapshot, undo, revert_to_snapshot}
use zvchain.Account.Calls.{
  transfer, can_transfer, suicide, revert, Answer, done, flag, on_object, read_object, call,
  balance_at, suicide_at, transfer_db, create_account_db,
}
use zvchain.Account.Contract.{
  View, Views, Copy, Contract, edit, edit_views, set_view, respond, find_copy, plus_balance,
  minus_balance, answer_of, observe,
}
use zvchain.Account.Views.{Valid, view}
use zvchain.Account.Undo.{Back, Extends, Extends-Back, undo_all}
use zvchain.Account.Fields.{Step}
use zvchain.Account.Storage.{Read}
use zvchain.Account.Code.{resolve}
use zvchain.Account.Access.{on_object-Step}
use zvchain.Account.Suicide.{dead}
use zvchain.Account.Answers.{
  read_object-Answered, field-Read, create_account_db-Step, transfer_db-Step, suicide-Killed,
  killed, edit_same,
}
use zvchain.Account.Revisions.{
  Holds, Holds-Back, Holds-mono, Holds-same, hit, stale, miss, Lookup-search,
}
use zvchain.Account.Reverts.{revert-Reverted, revert-stale, revert-miss}

module _ (r : Reads) where
  -- The database shows the contract's accounts, and its revisions lead back to the copies.
  pub record Matches (s : AccountDb) (c : Contract) : Type 0 where
    pub valid : Valid s
    pub views : (b : Address) → view r s b ≡ c.views b
    pub refunds : s.refund ≡ c.refund
    pub next_ids : s.next_revision_id ≡ c.next_id
    pub holds : Holds r s.next_revision_id s.valid_revisions c.copies s

  Step-Matches :
      {m : Views} {n : ℕ} (s t : AccountDb) (c d : Contract)
      → Matches s c
      → Step r s t m n
      → ((b : Address) → m b ≡ d.views b)
      → n ≡ d.refund
      → d.copies ≡ c.copies
      → d.next_id ≡ c.next_id
      → Matches t d
  Step-Matches s t c d h p e f g k = record {
    valid = p.moves.valid;
    views = λ b. p.moves.shows b ∙ e b;
    refunds = p.moves.refunds ∙ f;
    next_ids = p.moves.next_ids ∙ (h.next_ids ∙ sym k);
    holds =
        Holds-same r s.next_revision_id t.next_revision_id s.valid_revisions t.valid_revisions
          c.copies d.copies t p.moves.next_ids p.moves.revisions g
          (Holds-Back r s.next_revision_id s.valid_revisions c.copies s t p.back h.holds);
  }

  edit-Matches :
      (f : Address → ℕ → AccountDb → AccountDb) (g : View → View) (a : Address) (s : AccountDb)
      (c : Contract)
      → ((i : ℕ) (t : AccountDb)
          → Valid t
          → t.cache a ≡ some i
          → Step r t (f a i t) (set_view a (g (observe r a (t.heap a i))) (view r t)) t.refund)
      → Matches s c
      → Matches (on_object r f a s) (edit r g a c)
  unfolding edit
  edit-Matches f g a s c step h =
      let p = on_object-Step r f g a s step h.valid in
      Step-Matches s (on_object r f a s) c (edit r g a c) h p
        (λ b. edit_same r a b g (view r s) c.views h.views) h.refunds refl refl

  Read-Matches :
      {A : Type 0} (f : Address → ℕ → AccountDb → A × AccountDb) (g : View → A) (missing : A)
      (a : Address) (s : AccountDb) (c : Contract)
      → ((i : ℕ) (t : AccountDb)
          → Valid t
          → t.cache a ≡ some i
          → Read r a i t (f a i t).0 (g (observe r a (t.heap a i))) (f a i t).1)
      → Matches s c
      → ((read_object r f missing a s).0 ≡ answer_of g missing (c.views a))
        × Matches (read_object r f missing a s).1 c
  Read-Matches f g missing a s c reads h =
      let p = read_object-Answered r f g missing a s reads h.valid in
      (
        p.answer ∙ ap (answer_of g missing) (h.views a),
        Step-Matches s (read_object r f missing a s).1 c c h p.step h.views h.refunds refl refl,
      )

  -- The outcomes of a call on both sides.
  pub data Agrees : Option (Answer × AccountDb) → Option (Answer × Contract) → Type 0 where
    both :
        (x y : Answer) (s : AccountDb) (c : Contract)
        → x ≡ y
        → Matches s c
        → Agrees (some (x, s)) (some (y, c))
    neither : Agrees none none

  pub snapshot-Matches :
      (s : AccountDb) (c : Contract)
      → Matches s c
      → Matches (snapshot s).1 (record c {
        next_id = suc c.next_id;
        copies = record { id = c.next_id; views = c.views; refund = c.refund } ∷ c.copies;
      })
  unfolding snapshot Holds view
  snapshot-Matches s c h =
      let t = (snapshot s).1 in
      let e : Extends r s t = record { shows = λ b. refl; refunds = refl; cached = λ _ k. k } in
      let b = Extends-Back r e refl in
      record {
        valid = h.valid;
        views = λ z. e.shows z ∙ h.views z;
        refunds = h.refunds;
        next_ids = ap suc h.next_ids;
        holds = (
          s,
          (
            record {
              below = omega arith;
              same_id = h.next_ids;
              index = refl;
              views = h.views;
              refunds = h.refunds;
              back = b;
              valid = h.valid;
            },
            h.holds,
          ),
        );
      }

  reverts_none :
      (i : ℕ) (s : AccountDb) → revert_to_snapshot r i s ≡ none → call r (revert i) s ≡ none
  unfolding call
  reverts_none i s h = rw (call, h) refl

  reverts_some :
      (i : ℕ) (s t : AccountDb)
      → revert_to_snapshot r i s ≡ some t
      → call r (revert i) s ≡ some (done, t)
  unfolding call
  reverts_some i s t h = rw (call, h) refl

  copies_none : (i : ℕ) (c : Contract) → find_copy i c.copies ≡ none → respond r (revert i) c ≡ none
  unfolding respond
  copies_none i c h = rw (respond, h) refl

  copies_some :
      (i : ℕ) (c : Contract) (d : Copy) (older : List Copy)
      → find_copy i c.copies ≡ some (d, older)
      → respond r (revert i) c
        ≡ some (done, record c { views = d.views; refund = d.refund; copies = older })
  unfolding respond
  copies_some i c d older h = rw (respond, h) refl

  pub revert-Agrees :
      (i : ℕ) (s : AccountDb) (c : Contract)
      → Matches s c
      → Agrees (call r (revert i) s) (respond r (revert i) c)
  revert-Agrees i s c h =
      elim (Lookup-search r i s.next_revision_id s.valid_revisions c.copies s h.holds) [
        | miss a z ↦ rw (reverts_none i s (revert-miss r i s a), copies_none i c z) neither
        | stale x older a b z ↦
            rw (reverts_none i s (revert-stale r i x older s a b), copies_none i c z) neither
        | hit x older d copies g a b z k hh ↦
            let (t, (u, p)) = revert-Reverted r i s.next_revision_id x older d g s h.valid a b k in
            rw (reverts_some i s t u, copies_some i c d copies z)
              (both done done t (record c { views = d.views; refund = d.refund; copies = copies })
                refl
                (record {
                  valid = p.valid;
                  views = λ w. p.extends.shows w ∙ k.views w;
                  refunds = p.extends.refunds ∙ k.refunds;
                  next_ids = p.next_ids ∙ h.next_ids;
                  holds =
                      Holds-same r s.next_revision_id t.next_revision_id older t.valid_revisions
                        copies copies t p.next_ids p.revisions refl
                        (Holds-mono r x.id s.next_revision_id older copies t
                          (omega (arith, k.below))
                          (Holds-Back r x.id older copies g t (Extends-Back r p.extends p.journal)
                            hh));
                }))
      ]

  pub create-Matches :
      (a : Address) (s : AccountDb) (c : Contract)
      → Matches s c
      → Matches (create_account_db r a s) (edit r (λ v. v) a c)
  unfolding edit
  create-Matches a s c h =
      Step-Matches s (create_account_db r a s) c (edit r (λ v. v) a c) h
        (create_account_db-Step r a s h.valid)
        (λ b. edit_same r a b (λ v. v) (view r s) c.views h.views) h.refunds refl refl

  pub resolve_hash : (x : Option Bytes) → resolve r (r.sha3 x) x ≡ x
  resolve_hash none = ground arith
  resolve_hash (some b) = refl

  pub refund-Matches :
      (n : ℕ) (s : AccountDb) (c : Contract)
      → Matches s c
      → Matches
          (record (push (refund_change s.refund) s) { refund = add64 s.refund n })
          (record c { refund = add64 c.refund n })
  unfolding view undo undo_all
  refund-Matches n s c h =
      let t : AccountDb = record (push (refund_change s.refund) s) { refund = add64 s.refund n } in
      let b : Back r s t = record {
        entries = refund_change s.refund ∷ [];
        journal = refl;
        leads = λ u v e.
            let w : AccountDb = record u { refund = s.refund } in
            (
              w,
              (
                refl,
                record {
                  valid = v;
                  extends = record { shows = e.shows; refunds = refl; cached = e.cached };
                  revisions = refl;
                  next_ids = refl;
                },
              ),
            );
      } in
      record {
        valid = h.valid;
        views = h.views;
        refunds = ap (λ m. add64 m n) h.refunds;
        next_ids = h.next_ids;
        holds = Holds-Back r s.next_revision_id s.valid_revisions c.copies s t b h.holds;
      }

  pub edits :
      (f : Address → ℕ → AccountDb → AccountDb) (g : View → View) (a : Address) (s : AccountDb)
      (c : Contract)
      → ((i : ℕ) (t : AccountDb)
          → Valid t
          → t.cache a ≡ some i
          → Step r t (f a i t) (set_view a (g (observe r a (t.heap a i))) (view r t)) t.refund)
      → Matches s c
      → Agrees (some (done, on_object r f a s)) (some (done, edit r g a c))
  edits f g a s c step h =
      both done done (on_object r f a s) (edit r g a c) refl (edit-Matches f g a s c step h)

  pub reads :
      {A : Type 0} (k : A → Answer) (f : Address → ℕ → AccountDb → A × AccountDb) (g : View → A)
      (missing : A) (a : Address) (s : AccountDb) (c : Contract)
      → ((i : ℕ) (t : AccountDb)
          → Valid t
          → t.cache a ≡ some i
          → Read r a i t (f a i t).0 (g (observe r a (t.heap a i))) (f a i t).1)
      → Matches s c
      → Agrees
          (some (k (read_object r f missing a s).0, (read_object r f missing a s).1))
          (some (k (answer_of g missing (c.views a)), c))
  reads k f g missing a s c step h =
      let (e, m) = Read-Matches f g missing a s c step h in
      both (k (read_object r f missing a s).0) (k (answer_of g missing (c.views a)))
        (read_object r f missing a s).1 c (ap k e) m

  suicides_none :
      (a : Address) (c : Contract)
      → c.views a ≡ none
      → respond r (suicide a) c ≡ some (flag false, c)
  unfolding respond
  suicides_none a c h = rw (respond, h) refl

  suicides_some :
      (a : Address) (c : Contract) (v : View)
      → c.views a ≡ some v
      → respond r (suicide a) c ≡ some (flag true, edit r (dead r) a c)
  unfolding respond
  suicides_some a c v h = rw (respond, h) refl

  transfers_none :
      (a b : Address) (x : ℤ) (s : AccountDb)
      → (is_negative x || is_zero x) ≡ true
      → transfer_db r a b x s ≡ s
  unfolding transfer_db
  transfers_none a b x s e = rw (transfer_db, e) refl

  pub suicide-Agrees :
      (a : Address) (s : AccountDb) (c : Contract)
      → Matches s c
      → Agrees (call r (suicide a) s) (respond r (suicide a) c)
  unfolding call edit
  suicide-Agrees a s c h =
      let (p, e) = suicide-Killed r a s h.valid in
      let t = (read_object r (suicide_at r) false a s).1 in
      elim (Option-cases (c.views a)) [
        | inl z ↦
            let k = h.views a ∙ z in
            rw (suicides_none a c z) (
              both (flag (read_object r (suicide_at r) false a s).0) (flag false) t c
                (ap flag (e ∙ ap (answer_of (λ _. true) false) k))
                (Step-Matches s t c c h p (λ b. ap (λ o. killed r a o (view r s) b) k ∙ h.views b)
                  h.refunds refl refl))
        | inr (v, z) ↦
            let k = h.views a ∙ z in
            let d = edit r (dead r) a c in
            rw (suicides_some a c v z) (
              both (flag (read_object r (suicide_at r) false a s).0) (flag true) t d
                (ap flag (e ∙ ap (answer_of (λ _. true) false) k))
                (Step-Matches s t c d h p
                  (λ b. ap (λ o. killed r a o (view r s) b) k ∙ ground (arith, z, h.views b))
                  h.refunds refl refl))
      ]

  pub transfer-Agrees :
      (a b : Address) (x : ℤ) (s : AccountDb) (c : Contract)
      → Matches s c
      → Agrees (call r (transfer a b x) s) (respond r (transfer a b x) c)
  unfolding call respond edit
  transfer-Agrees a b x s c h = elim (Bool-cases (is_negative x || is_zero x)) [
    | inl e ↦ rw (transfers_none a b x s e, e) (both done done s c refl h)
    | inr e ↦
        let d = edit r (plus_balance x) b (edit r (minus_balance x) a c) in
        rw e (
          both done done (transfer_db r a b x s) d refl (
            Step-Matches s (transfer_db r a b x s) c d h (transfer_db-Step r a b x s e h.valid)
              (λ z.
                edit_same r b z (plus_balance x) (edit_views r (minus_balance x) a (view r s))
                  (edit_views r (minus_balance x) a c.views)
                  (λ y. edit_same r a y (minus_balance x) (view r s) c.views h.views))
              h.refunds refl refl))
  ]

  pub can_transfer-Agrees :
      (a : Address) (x : ℤ) (s : AccountDb) (c : Contract)
      → Matches s c
      → Agrees (call r (can_transfer a x) s) (respond r (can_transfer a x) c)
  unfolding call respond observe
  can_transfer-Agrees a x s c h = elim (Bool-cases (is_negative x)) [
    | inl e ↦ rw e (both (flag false) (flag false) s c refl h)
    | inr e ↦ rw e (
        reads (λ y. flag (not (is_negative (y -ℤ x)))) (balance_at r) (λ w. w.balance) (pos 0) a s c
          (λ i t v k.
            field-Read r (t.heap a i).account.balance (t.heap a i).account.balance a i t refl v k)
          h)
  ]
