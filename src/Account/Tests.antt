-- ===== src/Account/Tests.antt =====
-- Runs of scripts on a small trie, and the theorems at them.
use zvchain.Account.Object.{
  allocate, change, create_object, get_account_object, mark_dirty, put, set_account_object,
}
use zvchain.Base.{
  ℕ, ◌≡◌, ◌↔◌, refl, true, false, Option, none, some, List, [], ◌∷◌, ◌==◌, ◌&&◌, if◌then◌else◌,
}
use zvchain.Base.Bytes.{Bytes, same_bytes}
use zvchain.Base.Int.{pos}
use zvchain.Account.Types.{Reads, Account, AccountDb}
use zvchain.Account.Journal.{revert_to_snapshot, search, snapshot, undo_above}
use zvchain.Account.Calls.{
  Call, amount, answers, bytes, call, create_account, create_account_db, done, exist, flag,
  get_balance, get_data, get_nonce, new_account_db, number, read_object, revert, set_data,
  set_nonce, suicide, take_snapshot, transfer,
}
use zvchain.Account.Contract.{
  Contract, responses, new_contract, respond, edit, find_copy, observe, slot_of,
}
use zvchain.Account.Refinement.{new_account_db-Refines, new_account_db-Matches}
use zvchain.Account.Simulation.{Matches, snapshot-Matches}
use zvchain.Account.Panics.{is_held, revert_panics_iff}

-- Account 1 holds 100, has made 5 transactions, and keeps a slot.
abbrev rich : Account
rich = record { nonce = 5; balance = pos 100; root = 7; code_hash = 9 }

abbrev stored_account : ℕ → Option Account
stored_account a = if a == 1 then some rich else none

abbrev stored_slot : ℕ → ℕ → Bytes → Option Bytes
stored_slot a root k =
    if a == 1 && (root == 7 && same_bytes k (2 ∷ [])) then some (3 ∷ []) else none

abbrev trie : Reads
trie = record {
  account = stored_account;
  slot = stored_slot;
  code = λ _. none;
  sha3 = λ o. elim o [ none ↦ 9 | some _ ↦ 10 ];
}

abbrev nested : List Call
nested =
    take_snapshot
    ∷ transfer 1 2 (pos 30)
    ∷ take_snapshot
    ∷ set_data 1 (2 ∷ []) (some (4 ∷ []))
    ∷ set_nonce 2 1
    ∷ suicide 1
    ∷ get_balance 1
    ∷ revert 1
    ∷ get_balance 1
    ∷ get_data 1 (2 ∷ [])
    ∷ get_nonce 2
    ∷ exist 2
    ∷ revert 0
    ∷ exist 2
    ∷ get_balance 1
    ∷ []

nested-responses :
    responses trie nested (new_contract trie)
    ≡ some (
        number 0
        ∷ done
        ∷ number 1
        ∷ done
        ∷ done
        ∷ flag true
        ∷ amount (pos 0)
        ∷ done
        ∷ amount (pos 70)
        ∷ bytes (some (3 ∷ []))
        ∷ number 0
        ∷ flag true
        ∷ done
        ∷ flag false
        ∷ amount (pos 100)
        ∷ [])
unfolding responses respond edit find_copy observe slot_of
nested-responses = refl

-- An id that is used up is no revision any more.
stale_run :
    answers trie (take_snapshot ∷ take_snapshot ∷ revert 0 ∷ revert 1 ∷ []) (new_account_db rich)
    ≡ none
unfolding answers call revert_to_snapshot search snapshot undo_above
stale_run = refl

-- `CreateAccount` on an account that is there resets nothing.
create_run :
    answers trie (create_account 1 ∷ get_nonce 1 ∷ get_balance 1 ∷ []) (new_account_db rich)
    ≡ some (done ∷ number 5 ∷ amount (pos 100) ∷ [])
unfolding answers call read_object get_account_object create_account_db create_object change
    mark_dirty put set_account_object allocate
create_run = refl

new_account_db-Refines_example :
    answers trie nested (new_account_db rich) ≡ responses trie nested (new_contract trie)
new_account_db-Refines_example = new_account_db-Refines trie rich nested

-- A database with one snapshot, and its contract.
abbrev taken : AccountDb
taken = (snapshot (new_account_db rich)).1

abbrev taken_contract : Contract
taken_contract =
    let c = new_contract trie in
    record c { next_id = 1; copies = record { id = 0; views = c.views; refund = 0 } ∷ [] }

taken-Matches : Matches trie taken taken_contract
taken-Matches =
    snapshot-Matches trie (new_account_db rich) (new_contract trie)
      (new_account_db-Matches trie rich)

revert_panics_iff_example :
    (revert_to_snapshot trie 1 taken ≡ none) ↔ (is_held 1 taken.valid_revisions ≡ false)
revert_panics_iff_example = revert_panics_iff trie 1 taken taken_contract taken-Matches
