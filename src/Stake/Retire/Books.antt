-- ===== src/Stake/Retire/Books.antt =====
-- `miner_abort` and `miner_freeze` keep the books and change nothing but the miner's status.
use zvchain.Base.{ℕ, ◌≡◌, refl, Option, none, some, arith, ◌==◌, false}
use zvchain.Base.Map.{lookup, lookup-insert}
use zvchain.Stake.Types.{
  Address, Miner, update_status, is_verify_role, miner_type_verify, miner_status_prepare,
  miner_status_frozen,
}
use zvchain.Stake.Db.{
  ⊤, stored, Db, M, miner_key, detail_key, ◌>>◌, ◌>>=◌, guard, rs_miner_un_support_op, rs_fail,
}
use zvchain.Stake.Store.{miner_at, set_miner}
use zvchain.Stake.Role.{gene_base_identity_op}
use zvchain.Stake.Ledger.{worth, Inv, Ensures}
use zvchain.Stake.Ledger.Rules.{slot_of, guard-Ensures, get_miner-Ensures}
use zvchain.Stake.Ledger.Change.{Books-same_stake}
use zvchain.Stake.Ledger.Pools.{leave_pool, leave_pool-Ensures}
use zvchain.Stake.Retire.{
  MinerAbortOp, can_abort, check_stake_abort, process_miner_abort, miner_abort,
  process_miner_freeze, miner_freeze,
}

-- The record of a miner takes a new status; nothing else changes in the books.
abbrev pub Retired : ℕ → Address → ℕ → ℕ → Db → Db → Type 0
Retired t a status height d d' =
    Inv d'
    × (worth d' ≡ worth d)
    × (m : Miner) × (lookup (miner_at a t) d.miners ≡ some (stored m))
    × (lookup (miner_at a t) d'.miners ≡ some (stored (update_status m status height)))

-- The status of an active miner is no other.
pub set_status-Retired :
    (t a status height : ℕ) (m : Miner) (d : Db)
    → Inv d
    → lookup (miner_at a t) d.miners ≡ some (stored m)
    → (status == 1) ≡ false
    → Ensures
        (λ _. Retired t a status height d)
        ((leave_pool t a m >> set_miner (update_status m status height)) d)
unfolding set_miner
set_status-Retired t a status height m d v found idle =
    let (id_eq, type_eq) = v.keyed a t m found in
    let m' = update_status m status height in
    leave_pool-Ensures (λ _. Retired t a status height d) t a m (λ _. set_miner m') d v found
      λ total pp vp nk total_eq. (
        Books-same_stake total m' v (ground (arith, found)) (ground (arith, found)),
        refl,
        m,
        found,
        ground (arith, lookup-insert (miner_at a t) (miner_at m.id m.mtype) (stored m') d.miners),
      )

-- What an abort does when it goes through.
abbrev pub Aborted : MinerAbortOp → Db → ⊤ → Db → Type 0
Aborted op d _ d' = Retired op.miner_type op.addr miner_status_prepare op.height d d'

module _ (op : MinerAbortOp) (d : Db) (v : Inv d) where
  check_stake_abort-Ensures :
      (m : Miner) (f : ⊤ → M ⊤)
      → Ensures (Aborted op d) (f tt d)
      → Ensures (Aborted op d) ((check_stake_abort op m >>= f) d)
  unfolding check_stake_abort
  check_stake_abort-Ensures m f k = ground arith

  process_miner_abort-Aborted :
      (o : Option Miner)
      → lookup (miner_at op.addr op.miner_type) d.miners ≡ slot_of o
      → Ensures (Aborted op d) (process_miner_abort op o d)
  unfolding process_miner_abort
  process_miner_abort-Aborted none found = tt
  process_miner_abort-Aborted (some m) found =
      check_stake_abort-Ensures m
        (λ _.
          leave_pool op.miner_type op.addr m
          >> set_miner (update_status m miner_status_prepare op.height))
        (set_status-Retired op.miner_type op.addr miner_status_prepare op.height m d v found refl)

-- An abort that goes through keeps the books and the tokens in circulation, and changes nothing of
-- the miner but its status, which is `prepare` from then on; from sound books it never panics.
pub miner_abort-Aborted :
    (op : MinerAbortOp) (d : Db) → Inv d → Ensures (Aborted op d) (miner_abort op d)
unfolding miner_abort
miner_abort-Aborted op d v =
    get_miner-Ensures (Aborted op d) op.addr op.miner_type
      (λ m.
        guard (can_abort (gene_base_identity_op op.miner_type m)) rs_miner_un_support_op
        >> process_miner_abort op m)
      d
      λ m found.
        guard-Ensures (Aborted op d) _ _ (λ _. process_miner_abort op m) d
          λ _. process_miner_abort-Aborted op d v m found

abbrev pub Frozen : ℕ → Address → Db → ⊤ → Db → Type 0
Frozen height addr d _ d' = Retired miner_type_verify addr miner_status_frozen height d d'

module _ (height addr : ℕ) (d : Db) (v : Inv d) where
  process_miner_freeze-Frozen :
      (o : Option Miner)
      → lookup (miner_at addr miner_type_verify) d.miners ≡ slot_of o
      → Ensures (Frozen height addr d) (process_miner_freeze height addr o d)
  unfolding process_miner_freeze
  process_miner_freeze-Frozen none found = tt
  process_miner_freeze-Frozen (some m) found =
      let write =
        leave_pool miner_type_verify addr m
        >> set_miner (update_status m miner_status_frozen height) in
      guard-Ensures (Frozen height addr d) _ _
        (λ _. guard (is_verify_role m.mtype) rs_fail >> write) d
        λ _.
          guard-Ensures (Frozen height addr d) _ _ (λ _. write) d
            λ _.
              set_status-Retired miner_type_verify addr miner_status_frozen height m d v found refl

-- A freeze that goes through keeps the books and the tokens in circulation, and changes nothing of
-- the verifier but its status, which is `frozen` from then on; from sound books it never panics.
pub miner_freeze-Frozen :
    (height addr : ℕ) (d : Db) → Inv d → Ensures (Frozen height addr d) (miner_freeze height addr d)
unfolding miner_freeze
miner_freeze-Frozen height addr d v =
    get_miner-Ensures (Frozen height addr d) addr miner_type_verify
      (process_miner_freeze height addr) d (process_miner_freeze-Frozen height addr d v)
