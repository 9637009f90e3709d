-- ===== src/Account/Journal.antt =====
-- The journal of storage/account/transaction.go and the snapshots of storage/account/accountdb.go.
use zvchain.Base.{
  ℕ, suc, false, ◌||◌, Option, none, some, List, [], ◌∷◌, ◌==◌, leb, length, if◌then◌else◌,
}
use zvchain.Stake.Types.{Address}
use zvchain.Account.Types.{
  Reads, Entry, create_object_change, reset_object_change, suicide_change, balance_change,
  nonce_change, storage_change, code_change, refund_change, touch_change, Revision, AccountDb,
}
use zvchain.Account.Object.{
  update, put, change, balance_field, nonce_field, code_fields, storage_fields, suicided_field,
  touched_field, set_account_object, get_account_object,
}

-- common.StringToAddress("0000000000000000000000000000000000000003")
abbrev pub ripemd : Address
ripemd = 3

-- The revision that sort.Search finds: the oldest whose id is at least `revid`, with those below it.
unfoldable pub search : ℕ → List Revision → Option (Revision × List Revision)
search revid [] = none
search revid (x ∷ older) =
    let rest = search revid older in
    elim rest [ some found ↦ some found | none ↦ if leb revid x.id then some (x, older) else none ]

-- `Snapshot`
unfoldable pub snapshot : AccountDb → ℕ × AccountDb
snapshot s = (
  s.next_revision_id,
  record s {
    next_revision_id = suc s.next_revision_id;
    valid_revisions =
        record { id = s.next_revision_id; journal_index = length s.transitions }
        ∷ s.valid_revisions;
  },
)

module _ (r : Reads) where
  -- A write through the pointer that `getAccountObject` gives; none where it is nil, and Go panics.
  unfoldable pub with_object : (ℕ → AccountDb → AccountDb) → Address → AccountDb → Option AccountDb
  with_object f a s =
      let (found, read) = get_account_object r a s in
      elim found [ none ↦ none | some i ↦ some (f i read) ]

  -- `undo` of an entry
  unfoldable pub undo : Entry → AccountDb → Option AccountDb
  undo (create_object_change a) s =
      some (record s { cache = update s.cache a none; dirty = update s.dirty a false })
  undo (reset_object_change a i) s = some (set_account_object a i s)
  undo (suicide_change a b x) s =
      let (found, read) = get_account_object r a s in
      elim found [
        | none ↦ some read
        | some i ↦
            some (change (balance_field x) a i (put a i (suicided_field b (read.heap a i)) read))
      ]
  undo (balance_change a x) s = with_object (change (balance_field x) a) a s
  undo (nonce_change a n) s = with_object (change (nonce_field n) a) a s
  undo (storage_change a k v) s = with_object (change (storage_fields k v) a) a s
  undo (code_change a c h) s = with_object (change (code_fields h c) a) a s
  undo (refund_change n) s = some (record s { refund = n })
  undo (touch_change a was_touched was_dirty) s =
      if was_touched || a == ripemd
      then some s
      else with_object
          (λ i t. record (put a i (touched_field was_touched (t.heap a i)) t) {
            dirty = if was_dirty then t.dirty else update t.dirty a false;
          })
          a s

  -- The entries above the snapshot, undone from the newest on.
  unfoldable pub undo_above : ℕ → List Entry → AccountDb → Option AccountDb
  undo_above n [] s = some (record s { transitions = [] })
  undo_above n (e ∷ es) s =
      if leb (suc (length es)) n
      then some (record s { transitions = e ∷ es })
      else elim (undo e s) [ none ↦ none | some t ↦ undo_above n es t ]

  -- `RevertToSnapshot`: none where it panics.
  unfoldable pub revert_to_snapshot : ℕ → AccountDb → Option AccountDb
  revert_to_snapshot revid s = elim (search revid s.valid_revisions) [
    | none ↦ none
    | some (x, older) ↦
        if x.id == revid
        then elim (undo_above x.journal_index s.transitions s) [
          | none ↦ none
          | some t ↦ some (record t { valid_revisions = older })
        ]
        else none
  ]
