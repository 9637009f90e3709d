-- ===== src/Account/Object.antt =====
-- The methods of `accountObject` (storage/account/account_object.go), and how
-- storage/account/accountdb.go loads and creates objects. A method takes the address and the pointer
-- of its object.
use zvchain.Base.{
  ℕ, suc, Bool, true, false, not, ◌&&◌, Option, none, some, [], ◌∷◌, ◌==◌, length, if◌then◌else◌,
}
use zvchain.Base.Map.{lookup, insert}
use zvchain.Base.Bytes.{Bytes, bytes_key}
use zvchain.Base.Int.{ℤ, pos, ◌+ℤ◌, ◌-ℤ◌, is_zero}
use zvchain.Stake.Types.{Address}
use zvchain.Account.Types.{
  Hash, Account, Reads, AccountObject, Entry, create_object_change, reset_object_change,
  balance_change, nonce_change, storage_change, code_change, touch_change, AccountDb,
}

abbrev pub update {ℓ} : {A : Type ℓ} → (Address → A) → Address → A → Address → A
update f a v b = if a == b then v else f b

-- *object = o
unfoldable pub put : Address → ℕ → AccountObject → AccountDb → AccountDb
put a i o s = record s { heap = λ b j. if a == b && i == j then o else s.heap b j }

-- adb.transitions = append(adb.transitions, e)
abbrev pub push : Entry → AccountDb → AccountDb
push e s = record s { transitions = e ∷ s.transitions }

-- if ao.onDirty != nil { ao.onDirty(ao.Address()); ao.onDirty = nil }
unfoldable pub mark_dirty : Address → ℕ → AccountDb → AccountDb
mark_dirty a i s =
    if (s.heap a i).on_dirty
    then put a i (record (s.heap a i) { on_dirty = false })
        (record s { dirty = update s.dirty a true })
    else s

unfoldable pub change : (AccountObject → AccountObject) → Address → ℕ → AccountDb → AccountDb
change f a i s = mark_dirty a i (put a i (f (s.heap a i)) s)

-- The fields that the unexported setters write.
abbrev pub balance_field : ℤ → AccountObject → AccountObject
balance_field x o = record o { account = record o.account { balance = x } }

abbrev pub nonce_field : ℕ → AccountObject → AccountObject
nonce_field n o = record o { account = record o.account { nonce = n } }

abbrev pub code_fields : Hash → Option Bytes → AccountObject → AccountObject
code_fields h c o = record o {
  account = record o.account { code_hash = h };
  code = c;
  dirty_code = true;
}

abbrev pub storage_fields : Bytes → Option Bytes → AccountObject → AccountObject
storage_fields k v o = record o {
  cached_storage = insert k v o.cached_storage;
  dirty_storage = insert k v o.dirty_storage;
}

abbrev pub suicided_field : Bool → AccountObject → AccountObject
suicided_field b o = record o { suicided = b }

abbrev pub touched_field : Bool → AccountObject → AccountObject
touched_field b o = record o { touched = b }

-- `newAccountObject`, with the callback that marks it dirty.
abbrev pub new_account_object : Account → AccountObject
new_account_object d = record {
  account = d;
  code = none;
  cached_storage = [];
  dirty_storage = [];
  dirty_code = false;
  suicided = false;
  touched = false;
  deleted = false;
  on_dirty = true;
}

unfoldable pub allocate : Address → AccountObject → AccountDb → AccountDb
allocate a o s = put a s.next o (record s { next = suc s.next })

-- `setAccountObject`: LoadOrStore keeps the pointer that is there.
unfoldable pub set_account_object : Address → ℕ → AccountDb → AccountDb
set_account_object a i s = elim (s.cache a) [
  | none ↦ record s { cache = update s.cache a (some i) }
  | some j ↦ s
]

unfoldable pub set_balance : ℤ → Address → ℕ → AccountDb → AccountDb
set_balance x a i s =
    change (balance_field x) a i (push (balance_change a (s.heap a i).account.balance) s)

unfoldable pub sub_balance : ℤ → Address → ℕ → AccountDb → AccountDb
sub_balance x a i s = if is_zero x then s else set_balance ((s.heap a i).account.balance -ℤ x) a i s

unfoldable pub set_nonce : ℕ → Address → ℕ → AccountDb → AccountDb
set_nonce n a i s = change (nonce_field n) a i (push (nonce_change a (s.heap a i).account.nonce) s)

-- `accountObject.touch`
unfoldable pub touch : Address → ℕ → AccountDb → AccountDb
touch a i s =
    let marked =
      mark_dirty a i (push (touch_change a (s.heap a i).touched (not (s.heap a i).on_dirty)) s) in
    put a i (touched_field true (marked.heap a i)) marked

module _ (r : Reads) where
  abbrev pub empty_code_hash : Hash
  empty_code_hash = r.sha3 none

  -- Account{}, as `newAccountObject` completes it.
  abbrev pub blank : Account
  blank = record { nonce = 0; balance = pos 0; root = 0; code_hash = empty_code_hash }

  -- `accountObject.empty`
  abbrev pub empty : AccountObject → Bool
  empty o =
      o.account.nonce == 0
      && (is_zero o.account.balance
          && (o.account.code_hash == empty_code_hash && length o.cached_storage == 0))

  unfoldable pub add_balance : ℤ → Address → ℕ → AccountDb → AccountDb
  add_balance x a i s =
      if is_zero x
      then (if empty (s.heap a i) then touch a i s else s)
      else set_balance ((s.heap a i).account.balance +ℤ x) a i s

  -- `accountObject.GetData` and `SetData`
  unfoldable pub get_data : Bytes → Address → ℕ → AccountDb → Option Bytes × AccountDb
  get_data k a i s = elim (lookup k (s.heap a i).cached_storage) [
    | some v ↦ (v, s)
    | none ↦ elim (r.slot a (s.heap a i).account.root k) [
      | none ↦ (none, s)
      | some v ↦ (
        some v,
        put a i
            (record (s.heap a i) { cached_storage = insert k (some v) (s.heap a i).cached_storage })
            s,
      )
    ]
  ]

  unfoldable pub set_data : Bytes → Option Bytes → Address → ℕ → AccountDb → AccountDb
  set_data k v a i s =
      let (before, read) = get_data k a i s in
      change (storage_fields k v) a i (push (storage_change a k before) read)

  -- `accountObject.Code` and `SetCode`
  unfoldable pub get_code : Address → ℕ → AccountDb → Option Bytes × AccountDb
  get_code a i s = elim (s.heap a i).code [
    | some c ↦ (some c, s)
    | none ↦ if (s.heap a i).account.code_hash == empty_code_hash then (none, s) else (
      r.code (s.heap a i).account.code_hash,
      put a i (record (s.heap a i) { code = r.code (s.heap a i).account.code_hash }) s,
    )
  ]

  unfoldable pub set_code : Hash → Option Bytes → Address → ℕ → AccountDb → AccountDb
  set_code h c a i s =
      let (before, read) = get_code a i s in
      change (code_fields h c) a i
        (push (code_change a before (read.heap a i).account.code_hash) read)

  -- `getAccountObject`
  unfoldable pub get_account_object : Address → AccountDb → Option ℕ × AccountDb
  get_account_object a s = elim (s.cache a) [
    | some i ↦ (if (s.heap a i).deleted then none else some i, s)
    | none ↦ elim (r.account a) [
      | none ↦ (none, s)
      | some d ↦ (some s.next, set_account_object a s.next (allocate a (new_account_object d) s))
    ]
  ]

  abbrev pub creation : Address → Option ℕ → Entry
  creation a none = create_object_change a
  creation a (some i) = reset_object_change a i

  -- `createObject`: the new pointer, the one there was, and the state.
  unfoldable pub create_object : Address → AccountDb → ℕ × (Option ℕ × AccountDb)
  create_object a s =
      let (prev, found) = get_account_object a s in
      let new_state =
        change (nonce_field 0) a found.next (allocate a (new_account_object blank) found) in
      (found.next, (prev, set_account_object a found.next (push (creation a prev) new_state)))

  -- `getOrNewAccountObject`
  unfoldable pub get_or_new_account_object : Address → AccountDb → ℕ × AccountDb
  get_or_new_account_object a s =
      let (found, read) = get_account_object a s in
      let (new_pointer, (_, created)) = create_object a read in
      elim found [
        | none ↦ (new_pointer, created)
        | some i ↦ if (read.heap a i).deleted then (new_pointer, created) else (i, read)
      ]
