-- ===== src/Account/Refinement.antt =====
-- The account database keeps the contract: every script of calls gets the contract's answers.
use zvchain.Base.{
  suc, ◌≡◌, refl, sym, ap, ◌∙◌, true, false, Option, none, some, List, [], ◌∷◌, arith, add64,
}
use zvchain.Base.Int.{pos}
use zvchain.Account.Types.{Reads, Account, AccountDb, refund_change}
use zvchain.Account.Object
use zvchain.Account.Object.{push, blank}
use zvchain.Account.Journal.{snapshot}
use zvchain.Account.Calls.{
  Call, add_balance, sub_balance, set_balance, set_nonce, set_code, set_data, transfer,
  can_transfer, create_account, suicide, exist, has_suicided, get_balance, get_nonce, get_code,
  get_code_hash, get_data, add_refund, get_refund, take_snapshot, revert, Answer, done, flag,
  amount, number, bytes, call, answers, new_account_db, balance_at, create_account_db,
}
use zvchain.Account.Contract.{
  Contract, edit, respond, responses, new_contract, plus_balance, minus_balance, with_balance,
  with_nonce, with_code, with_slot, observe,
}
use zvchain.Account.Views.{view}
use zvchain.Account.Fields.{set_balance-Step, set_nonce-Step}
use zvchain.Account.Storage.{get_data-Read, set_data-Step}
use zvchain.Account.Code.{get_code-Read, set_code-Step}
use zvchain.Account.Balance.{add_balance-Step, sub_balance-Step}
use zvchain.Account.Answers.{field-Read}
use zvchain.Account.Revisions.{Holds}
use zvchain.Account.Simulation.{
  Matches, snapshot-Matches, Agrees, both, neither, edits, reads, suicide-Agrees, transfer-Agrees,
  can_transfer-Agrees, create-Matches, resolve_hash, refund-Matches, revert-Agrees,
}

module _ (r : Reads) where
  pub call-Agrees :
      (x : Call) (s : AccountDb) (c : Contract)
      → Matches r s c
      → Agrees r (call r x s) (respond r x c)
  unfolding call respond observe snapshot
  call-Agrees (add_balance a x) s c h =
      edits r (Object.add_balance r x) (plus_balance x) a s c
        (λ i t v k. add_balance-Step r x a i t v k) h
  call-Agrees (sub_balance a x) s c h =
      edits r (Object.sub_balance x) (minus_balance x) a s c
        (λ i t v k. sub_balance-Step r x a i t v k) h
  call-Agrees (set_balance a x) s c h =
      edits r (Object.set_balance x) (with_balance x) a s c
        (λ i t v k. set_balance-Step r x a i t v k) h
  call-Agrees (set_nonce a n) s c h =
      edits r (Object.set_nonce n) (with_nonce n) a s c (λ i t v k. set_nonce-Step r n a i t v k) h
  call-Agrees (set_code a x) s c h =
      edits r (Object.set_code r (r.sha3 x) x) (with_code (r.sha3 x) x) a s c
        (λ i t v k. set_code-Step r (r.sha3 x) x a i t (resolve_hash r x) v k) h
  call-Agrees (set_data a j x) s c h =
      edits r (Object.set_data r j x) (with_slot j x) a s c
        (λ i t v k. set_data-Step r j x a i t v k) h
  call-Agrees (transfer a b x) s c h = transfer-Agrees r a b x s c h
  call-Agrees (can_transfer a x) s c h = can_transfer-Agrees r a x s c h
  call-Agrees (create_account a) s c h =
      both done done (create_account_db r a s) (edit r (λ v. v) a c) refl (create-Matches r a s c h)
  call-Agrees (suicide a) s c h = suicide-Agrees r a s c h
  call-Agrees (exist a) s c h =
      reads r flag (λ _ _ t. (true, t)) (λ _. true) false a s c
        (λ i t v k. field-Read r true true a i t refl v k) h
  call-Agrees (has_suicided a) s c h =
      reads r flag (λ b i t. ((t.heap b i).suicided, t)) (λ w. w.suicided) false a s c
        (λ i t v k. field-Read r (t.heap a i).suicided (t.heap a i).suicided a i t refl v k) h
  call-Agrees (get_balance a) s c h =
      reads r amount (balance_at r) (λ w. w.balance) (pos 0) a s c
        (λ i t v k.
          field-Read r (t.heap a i).account.balance (t.heap a i).account.balance a i t refl v k)
        h
  call-Agrees (get_nonce a) s c h =
      reads r number (λ b i t. ((t.heap b i).account.nonce, t)) (λ w. w.nonce) 0 a s c
        (λ i t v k.
          field-Read r (t.heap a i).account.nonce (t.heap a i).account.nonce a i t refl v k)
        h
  call-Agrees (get_code a) s c h =
      reads r bytes (Object.get_code r) (λ w. w.code) none a s c
        (λ i t v k. get_code-Read r a i t v k) h
  call-Agrees (get_code_hash a) s c h =
      reads r number (λ b i t. ((t.heap b i).account.code_hash, t)) (λ w. w.code_hash) 0 a s c
        (λ i t v k.
          field-Read r (t.heap a i).account.code_hash (t.heap a i).account.code_hash a i t refl v k)
        h
  call-Agrees (get_data a j) s c h =
      reads r bytes (Object.get_data r j) (λ w. w.slots j) none a s c
        (λ i t v k. get_data-Read r j a i t v k) h
  call-Agrees (add_refund n) s c h =
      both done done (record (push (refund_change s.refund) s) { refund = add64 s.refund n })
        (record c { refund = add64 c.refund n }) refl (refund-Matches r n s c h)
  call-Agrees get_refund s c h =
      both (number s.refund) (number c.refund) s c (ap number h.refunds) h
  call-Agrees take_snapshot s c h =
      both (number s.next_revision_id) (number c.next_id) (snapshot s).1
        (record c {
          next_id = suc c.next_id;
          copies = record { id = c.next_id; views = c.views; refund = c.refund } ∷ c.copies;
        })
        (ap number h.next_ids) (snapshot-Matches r s c h)
  call-Agrees (revert n) s c h = revert-Agrees r n s c h

  abbrev consed : Answer → Option (List Answer) → Option (List Answer)
  consed x none = none
  consed x (some xs) = some (x ∷ xs)

  consed_same :
      (x y : Answer) (o p : Option (List Answer)) → x ≡ y → o ≡ p → consed x o ≡ consed y p
  consed_same x y o p e f = rw (e, f) refl

  abbrev after : List Call → Option (Answer × AccountDb) → Option (List Answer)
  after cs none = none
  after cs (some (x, t)) = consed x (answers r cs t)

  abbrev after_contract : List Call → Option (Answer × Contract) → Option (List Answer)
  after_contract cs none = none
  after_contract cs (some (x, d)) = consed x (responses r cs d)

  agreeing :
      (x : Call) (cs : List Call) (s : AccountDb) (c : Contract) (o : Option (Answer × AccountDb))
      (p : Option (Answer × Contract))
      → call r x s ≡ o
      → respond r x c ≡ p
      → Agrees r o p
      → ((t : AccountDb) (d : Contract) → Matches r t d → answers r cs t ≡ responses r cs d)
      → answers r (x ∷ cs) s ≡ responses r (x ∷ cs) c
  unfolding answers responses
  agreeing x cs s c _ _ e f neither h = rw (answers, responses, e, f) refl
  agreeing x cs s c _ _ e f (both a b t d q m) h =
      ap (after cs) e
      ∙ (consed_same a b (answers r cs t) (responses r cs d) q (h t d m)
          ∙ sym (ap (after_contract cs) f))

  -- The answers to every script agree from matching states on.
  pub answers-responses :
      (cs : List Call) (s : AccountDb) (c : Contract)
      → Matches r s c
      → answers r cs s ≡ responses r cs c
  unfolding answers responses
  answers-responses [] s c h = refl
  answers-responses (x ∷ cs) s c h =
      agreeing x cs s c (call r x s) (respond r x c) refl refl (call-Agrees x s c h)
        (answers-responses cs)

  pub new_account_db-Matches : (d : Account) → Matches r (new_account_db d) (new_contract r)
  unfolding Holds view
  new_account_db-Matches d = record {
    valid = λ a i e. absurd (ground arith);
    views = λ b. refl;
    refunds = refl;
    next_ids = refl;
    holds = tt;
  }

  -- On a new database, every script of calls gets the answers of the contract, and panics exactly
  -- where the contract has no answer.
  pub new_account_db-Refines :
      (d : Account) (cs : List Call)
      → answers r cs (new_account_db d) ≡ responses r cs (new_contract r)
  new_account_db-Refines d cs =
      answers-responses cs (new_account_db d) (new_contract r) (new_account_db-Matches d)
