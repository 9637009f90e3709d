-- ===== src/Account/Contract.antt =====
-- What storage/account promises its callers: accounts without pointers, caches or a journal, and
-- snapshots that keep a copy of them all.
use zvchain.Base.{
  ℕ, suc, Bool, true, false, not, ◌||◌, Option, none, some, List, [], ◌∷◌, ◌==◌, if◌then◌else◌,
  add64,
}
use zvchain.Base.Map.{lookup}
use zvchain.Base.Bytes.{Bytes, bytes_key, same_bytes}
use zvchain.Base.Int.{ℤ, pos, ◌+ℤ◌, ◌-ℤ◌, is_zero, is_negative}
use zvchain.Stake.Types.{Address}
use zvchain.Account.Types.{Hash, Account, Reads, AccountObject}
use zvchain.Account.Object.{update, new_account_object, blank, empty_code_hash}
use zvchain.Account.Calls.{
  Call, add_balance, sub_balance, set_balance, set_nonce, set_code, set_data, transfer,
  can_transfer, create_account, suicide, exist, has_suicided, get_balance, get_nonce, get_code,
  get_code_hash, get_data, add_refund, get_refund, take_snapshot, revert, Answer, done, flag,
  amount, number, bytes,
}

-- An account as its readers see it.
pub record View : Type 0 where
  pub nonce : ℕ
  pub balance : ℤ
  pub code_hash : Hash
  pub code : Option Bytes
  pub slots : Bytes → Option Bytes
  pub suicided : Bool

abbrev pub Views : Type 0
Views = Address → Option View

-- The accounts and the refund counter that a snapshot keeps.
pub record Copy : Type 0 where
  pub id : ℕ
  pub views : Views
  pub refund : ℕ

pub record Contract : Type 0 where
  pub views : Views
  pub refund : ℕ
  pub copies : List Copy
  pub next_id : ℕ

abbrev pub with_balance : ℤ → View → View
with_balance x v = record v { balance = x }

abbrev pub plus_balance : ℤ → View → View
plus_balance x v = with_balance (v.balance +ℤ x) v

abbrev pub minus_balance : ℤ → View → View
minus_balance x v = with_balance (v.balance -ℤ x) v

abbrev pub with_nonce : ℕ → View → View
with_nonce n v = record v { nonce = n }

abbrev pub with_code : Hash → Option Bytes → View → View
with_code h c v = record v { code_hash = h; code = c }

abbrev pub with_slot : Bytes → Option Bytes → View → View
with_slot k x v = record v { slots = λ j. if same_bytes j k then x else v.slots j }

abbrev pub with_suicided : Bool → View → View
with_suicided b v = record v { suicided = b }

abbrev pub answer_of : {A : Type 0} → (View → A) → A → Option View → A
answer_of f missing none = missing
answer_of f missing (some v) = f v

abbrev pub set_view : Address → View → Views → Views
set_view a v m = update m a (some v)

-- The copy of an id, with the older ones.
unfoldable pub find_copy : ℕ → List Copy → Option (Copy × List Copy)
find_copy n [] = none
find_copy n (c ∷ older) =
    let rest = find_copy n older in if c.id == n then some (c, older) else rest

module _ (r : Reads) where
  unfoldable pub code_of : AccountObject → Option Bytes
  code_of o = elim o.code [
    | some c ↦ some c
    | none ↦ if o.account.code_hash == empty_code_hash r then none else r.code o.account.code_hash
  ]

  unfoldable pub slot_of : Address → AccountObject → Bytes → Option Bytes
  slot_of a o k = elim (lookup k o.cached_storage) [ some v ↦ v | none ↦ r.slot a o.account.root k ]

  -- What an object shows to its readers.
  unfoldable pub observe : Address → AccountObject → View
  observe a o = record {
    nonce = o.account.nonce;
    balance = o.account.balance;
    code_hash = o.account.code_hash;
    code = code_of o;
    slots = slot_of a o;
    suicided = o.suicided;
  }

  abbrev pub loaded : Address → Option Account → Option View
  loaded a none = none
  loaded a (some d) = some (observe a (new_account_object d))

  abbrev pub blank_view : Address → View
  blank_view a = observe a (new_account_object (blank r))

  abbrev pub new_contract : Contract
  new_contract = record {
    views = λ a. loaded a (r.account a);
    refund = 0;
    copies = [];
    next_id = 0;
  }

  -- A write creates the account that it does not find.
  abbrev pub edit_views : (View → View) → Address → Views → Views
  edit_views f a m = set_view a (f (answer_of (λ v. v) (blank_view a) (m a))) m

  unfoldable pub edit : (View → View) → Address → Contract → Contract
  edit f a t = record t { views = edit_views f a t.views }

  -- The answer to a call, with the accounts after it; none for a revert to an id that is not held.
  unfoldable pub respond : Call → Contract → Option (Answer × Contract)
  respond (add_balance a x) t = some (done, edit (plus_balance x) a t)
  respond (sub_balance a x) t = some (done, edit (minus_balance x) a t)
  respond (set_balance a x) t = some (done, edit (with_balance x) a t)
  respond (set_nonce a n) t = some (done, edit (with_nonce n) a t)
  respond (set_code a c) t = some (done, edit (with_code (r.sha3 c) c) a t)
  respond (set_data a k v) t = some (done, edit (with_slot k v) a t)
  respond (transfer a b x) t =
      if is_negative x || is_zero x
      then some (done, t)
      else some (done, edit (plus_balance x) b (edit (minus_balance x) a t))
  respond (can_transfer a x) t =
      if is_negative x
      then some (flag false, t)
      else some (flag (not (is_negative (answer_of (λ v. v.balance) (pos 0) (t.views a) -ℤ x))), t)
  respond (create_account a) t = some (done, edit (λ v. v) a t)
  respond (suicide a) t = elim (t.views a) [
    | none ↦ some (flag false, t)
    | some v ↦ some (flag true, edit (λ w. with_balance (pos 0) (with_suicided true w)) a t)
  ]
  respond (exist a) t = some (flag (answer_of (λ _. true) false (t.views a)), t)
  respond (has_suicided a) t = some (flag (answer_of (λ v. v.suicided) false (t.views a)), t)
  respond (get_balance a) t = some (amount (answer_of (λ v. v.balance) (pos 0) (t.views a)), t)
  respond (get_nonce a) t = some (number (answer_of (λ v. v.nonce) 0 (t.views a)), t)
  respond (get_code a) t = some (bytes (answer_of (λ v. v.code) none (t.views a)), t)
  respond (get_code_hash a) t = some (number (answer_of (λ v. v.code_hash) 0 (t.views a)), t)
  respond (get_data a k) t = some (bytes (answer_of (λ v. v.slots k) none (t.views a)), t)
  respond (add_refund n) t = some (done, record t { refund = add64 t.refund n })
  respond get_refund t = some (number t.refund, t)
  respond take_snapshot t = some (
    number t.next_id,
    record t {
      next_id = suc t.next_id;
      copies = record { id = t.next_id; views = t.views; refund = t.refund } ∷ t.copies;
    },
  )
  respond (revert n) t = elim (find_copy n t.copies) [
    | none ↦ none
    | some (c, older) ↦ some (done, record t { views = c.views; refund = c.refund; copies = older })
  ]

  unfoldable pub responses : List Call → Contract → Option (List Answer)
  responses [] t = some []
  responses (c ∷ cs) t = elim (respond c t) [
    | none ↦ none
    | some (x, u) ↦ let rest = responses cs u in elim rest [ none ↦ none | some xs ↦ some (x ∷ xs) ]
  ]
