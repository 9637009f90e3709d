-- ===== src/Account/Types.antt =====
-- The account database of storage/account: its objects, its journal and its state.
-- An object is mutable and shared, so it lives in a heap: `heap a i` is the object of address `a`
-- that pointer `i` leads to, and `cache a` the pointer that `accountObjects` holds for `a`.
-- The tries and the code store below it are read-only until `Finalise` or `Commit`: `Reads`.
use zvchain.Base.{ℕ, Bool, Option, List}
use zvchain.Base.Map.{Map}
use zvchain.Base.Bytes.{Bytes}
use zvchain.Base.Int.{ℤ}
use zvchain.Stake.Types.{Address}

abbrev pub Hash : Type 0
Hash = ℕ

-- `Account`: what the account trie holds.
pub record Account : Type 0 where
  pub nonce : ℕ
  pub balance : ℤ
  pub root : Hash
  pub code_hash : Hash

-- What lies below the journal: the account trie (decoded), the storage trie of an account under a
-- root, the code store, and sha3. A nil byte slice is `none`.
pub record Reads : Type 0 where
  pub account : Address → Option Account
  pub slot : Address → Hash → Bytes → Option Bytes
  pub code : Hash → Option Bytes
  pub sha3 : Option Bytes → Hash

pub record AccountObject : Type 0 where
  pub account : Account
  pub code : Option Bytes
  pub cached_storage : Map Bytes (Option Bytes)
  pub dirty_storage : Map Bytes (Option Bytes)
  pub dirty_code : Bool
  pub suicided : Bool
  pub touched : Bool
  pub deleted : Bool
  pub on_dirty : Bool

-- `transitionEntry`
pub data Entry : Type 0 where
  create_object_change : Address → Entry
  reset_object_change : Address → ℕ → Entry
  suicide_change : Address → Bool → ℤ → Entry
  balance_change : Address → ℤ → Entry
  nonce_change : Address → ℕ → Entry
  storage_change : Address → Bytes → Option Bytes → Entry
  code_change : Address → Option Bytes → Hash → Entry
  refund_change : ℕ → Entry
  touch_change : Address → Bool → Bool → Entry

pub record Revision : Type 0 where
  pub id : ℕ
  pub journal_index : ℕ

-- The journal and the revisions stand with the newest first.
pub record AccountDb : Type 0 where
  pub cache : Address → Option ℕ
  pub heap : Address → ℕ → AccountObject
  pub next : ℕ
  pub dirty : Address → Bool
  pub refund : ℕ
  pub transitions : List Entry
  pub valid_revisions : List Revision
  pub next_revision_id : ℕ
