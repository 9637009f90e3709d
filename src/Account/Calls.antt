-- ===== src/Account/Calls.antt =====
-- The calls of `AccountDB` (storage/account/accountdb.go), each with its answer, and scripts of them.
use zvchain.Base.{
  ℕ, Bool, true, false, not, ◌||◌, Option, none, some, List, [], ◌∷◌, if◌then◌else◌, add64,
}
use zvchain.Base.Bytes.{Bytes}
use zvchain.Base.Int.{ℤ, pos, ◌-ℤ◌, is_zero, is_negative}
use zvchain.Stake.Types.{Address}
use zvchain.Account.Types.{Reads, Account, suicide_change, refund_change, AccountDb}
use zvchain.Account.Object
use zvchain.Account.Object.{
  put, push, change, mark_dirty, balance_field, suicided_field, new_account_object,
  get_account_object, create_object, get_or_new_account_object,
}
use zvchain.Account.Journal.{snapshot, revert_to_snapshot}

pub data Call : Type 0 where
  add_balance sub_balance set_balance : Address → ℤ → Call
  set_nonce : Address → ℕ → Call
  set_code : Address → Option Bytes → Call
  set_data : Address → Bytes → Option Bytes → Call
  transfer : Address → Address → ℤ → Call
  can_transfer : Address → ℤ → Call
  create_account suicide exist has_suicided : Address → Call
  get_balance get_nonce get_code get_code_hash : Address → Call
  get_data : Address → Bytes → Call
  add_refund : ℕ → Call
  get_refund take_snapshot : Call
  revert : ℕ → Call

pub data Answer : Type 0 where
  done : Answer
  flag : Bool → Answer
  amount : ℤ → Answer
  number : ℕ → Answer
  bytes : Option Bytes → Answer

-- `NewAccountDB` on a root that opens.
abbrev pub new_account_db : Account → AccountDb
new_account_db d = record {
  cache = λ _. none;
  heap = λ _ _. new_account_object d;
  next = 0;
  dirty = λ _. false;
  refund = 0;
  transitions = [];
  valid_revisions = [];
  next_revision_id = 0;
}

module _ (r : Reads) where
  -- stateObject := adb.getOrNewAccountObject(addr), and a method of it.
  unfoldable pub on_object : (Address → ℕ → AccountDb → AccountDb) → Address → AccountDb → AccountDb
  on_object f a s = let (i, t) = get_or_new_account_object r a s in f a i t

  -- A reader of the object, with the answer where there is none.
  unfoldable pub read_object :
      {A : Type 0}
      → (Address → ℕ → AccountDb → A × AccountDb)
      → A
      → Address
      → AccountDb
      → A × AccountDb
  read_object f missing a s =
      let (found, t) = get_account_object r a s in
      elim found [ none ↦ (missing, t) | some i ↦ f a i t ]

  -- `Transfer`
  unfoldable pub transfer_db : Address → Address → ℤ → AccountDb → AccountDb
  transfer_db sender recipient x s =
      if is_negative x || is_zero x
      then s
      else on_object (Object.add_balance r x) recipient (on_object (Object.sub_balance x) sender s)

  abbrev pub balance_at : Address → ℕ → AccountDb → ℤ × AccountDb
  balance_at a i s = ((s.heap a i).account.balance, s)

  -- `Suicide`
  abbrev pub suicide_at : Address → ℕ → AccountDb → Bool × AccountDb
  suicide_at a i s =
      let object = s.heap a i in
      let journaled = push (suicide_change a object.suicided object.account.balance) s in
      let marked = change (suicided_field true) a i journaled in
      (true, put a i (balance_field (pos 0) (marked.heap a i)) marked)

  -- `CreateAccount`: the balance that is carried over goes to the new object.
  abbrev pub carry_over : Address → ℕ × (Option ℕ × AccountDb) → AccountDb
  carry_over a (i, (none, t)) = t
  carry_over a (i, (some j, t)) = change (balance_field (t.heap a j).account.balance) a i t

  unfoldable pub create_account_db : Address → AccountDb → AccountDb
  create_account_db a s = carry_over a (create_object r a s)

  abbrev pub answered : {A : Type 0} → (A → Answer) → A × AccountDb → Option (Answer × AccountDb)
  answered f (x, s) = some (f x, s)

  unfoldable pub call : Call → AccountDb → Option (Answer × AccountDb)
  call (add_balance a x) s = some (done, on_object (Object.add_balance r x) a s)
  call (sub_balance a x) s = some (done, on_object (Object.sub_balance x) a s)
  call (set_balance a x) s = some (done, on_object (Object.set_balance x) a s)
  call (set_nonce a n) s = some (done, on_object (Object.set_nonce n) a s)
  call (set_code a c) s = some (done, on_object (Object.set_code r (r.sha3 c) c) a s)
  call (set_data a k v) s = some (done, on_object (Object.set_data r k v) a s)
  call (transfer a b x) s = some (done, transfer_db a b x s)
  call (can_transfer a x) s =
      if is_negative x
      then some (flag false, s)
      else answered (λ y. flag (not (is_negative (y -ℤ x)))) (read_object balance_at (pos 0) a s)
  call (create_account a) s = some (done, create_account_db a s)
  call (suicide a) s = answered flag (read_object suicide_at false a s)
  call (exist a) s = answered flag (read_object (λ _ _ t. (true, t)) false a s)
  call (has_suicided a) s =
      answered flag (read_object (λ b i t. ((t.heap b i).suicided, t)) false a s)
  call (get_balance a) s = answered amount (read_object balance_at (pos 0) a s)
  call (get_nonce a) s =
      answered number (read_object (λ b i t. ((t.heap b i).account.nonce, t)) 0 a s)
  call (get_code a) s = answered bytes (read_object (Object.get_code r) none a s)
  call (get_code_hash a) s =
      answered number (read_object (λ b i t. ((t.heap b i).account.code_hash, t)) 0 a s)
  call (get_data a k) s = answered bytes (read_object (Object.get_data r k) none a s)
  call (add_refund n) s =
      some (done, record (push (refund_change s.refund) s) { refund = add64 s.refund n })
  call get_refund s = some (number s.refund, s)
  call take_snapshot s = answered number (snapshot s)
  call (revert n) s = elim (revert_to_snapshot r n s) [ none ↦ none | some t ↦ some (done, t) ]

  -- The answers to a script of calls; none where a call panics.
  unfoldable pub answers : List Call → AccountDb → Option (List Answer)
  answers [] s = some []
  answers (c ∷ cs) s = elim (call c s) [
    | none ↦ none
    | some (x, t) ↦ let rest = answers cs t in elim rest [ none ↦ none | some xs ↦ some (x ∷ xs) ]
  ]
