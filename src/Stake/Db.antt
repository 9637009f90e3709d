-- ===== src/Stake/Db.antt =====
-- The part of the account database that staking reads and writes, and the actions on it.
-- The source keeps these values as bytes under prefixed keys of reserved accounts; here every
-- family of keys is a field. A stored record is `stored` or, where its bytes do not decode,
-- `corrupt`: the third-party codec itself is not modelled.
use zvchain.Base.{
  ℕ, ◌≡◌, ◌↔◌, Bool, true, false, ◌&&◌, Option, none, some, arith, ◌==◌, if◌then◌else◌,
}
use zvchain.Base.Map.{Key, Map, nat_key}
use zvchain.Stake.Types.{Address, Miner, StakeDetail, VoteInfo, FundGuardNode}

pub data Slot (A : Type 0) : Type 0 where
  corrupt : Slot A
  stored : A → Slot A

-- `getMinerKey`, with the account that holds the entry.
pub record MinerKey : Type 0 where
  pub holder : Address
  pub mtype : ℕ

-- `getDetailKey`, with the account that holds the entry (the target of the stake).
pub record DetailKey : Type 0 where
  pub holder : Address
  pub source : Address
  pub mtype : ℕ
  pub status : ℕ

abbrev pub same_miner_key : MinerKey → MinerKey → Bool
same_miner_key a b = a.holder == b.holder && a.mtype == b.mtype

pub same_miner_key_iff : (a b : MinerKey) → (same_miner_key a b ≡ true) ↔ (a ≡ b)
same_miner_key_iff a b = ground arith

abbrev pub same_detail_key : DetailKey → DetailKey → Bool
same_detail_key a b =
    a.holder == b.holder && (a.source == b.source && (a.mtype == b.mtype && a.status == b.status))

pub same_detail_key_iff : (a b : DetailKey) → (same_detail_key a b ≡ true) ↔ (a ≡ b)
same_detail_key_iff a b = ground arith

instance abbrev pub miner_key : Key MinerKey
miner_key = record { same = same_miner_key; same_iff = same_miner_key_iff }

instance abbrev pub detail_key : Key DetailKey
detail_key = record { same = same_detail_key; same_iff = same_detail_key_iff }

pub record Db : Type 0 where
  pub balances : Map Address ℕ
  pub miners : Map MinerKey (Slot Miner)
  pub details : Map DetailKey (Slot StakeDetail)
  pub proposal_total : ℕ
  pub proposal_pool : Address → Bool
  pub verifier_pool : Address → Bool
  pub nil_pool_key : Bool
  pub tickets : Address → ℕ
  pub votes : Address → Option (Slot VoteInfo)
  pub fund_guards : Address → Option (Slot FundGuardNode)
  pub full_guards : Address → Bool

-- `ReceiptStatus`: those that the operations on miners set.
pub data Status : Type 0 where
  rs_success rs_fail rs_balance_not_enough rs_parse_fail rs_miner_stake_frozen : Status
  rs_miner_stake_over_limit rs_miner_stake_less_than_reduce rs_miner_verify_lower_stake : Status
  rs_miner_verify_in_group rs_miner_reduce_height_not_enough rs_vote_not_in_round : Status
  rs_miner_un_support_op rs_miner_not_full_stake rs_miner_max_apply_guard : Status
  rs_miner_change_mode_expired rs_miner_abort_has_prepared : Status
  rs_miner_refund_height_not_enough rs_miner_not_exists : Status

-- How a call ends: with a value, with an error and its status, or in a panic. What was written
-- before an error stays written.
pub data Outcome (A : Type 0) : Type 0 where
  returned : A → Db → Outcome A
  failed : Status → Db → Outcome A
  panicked : Outcome A

abbrev pub ⊤ : Type 0
⊤ = Unit

abbrev pub M : Type 0 → Type 0
M A = Db → Outcome A

abbrev pub pure : {A : Type 0} → A → M A
pure a d = returned a d

abbrev pub fail : {A : Type 0} → Status → M A
fail s d = failed s d

abbrev pub panic : {A : Type 0} → M A
panic d = panicked

abbrev pub gets : {A : Type 0} → (Db → A) → M A
gets f d = returned (f d) d

abbrev pub modify : (Db → Db) → M ⊤
modify f d = returned tt (f d)

infixl 5 ◌>>=◌ ◌>>◌
abbrev pub ◌>>=◌ : {A B : Type 0} → M A → (A → M B) → M B
◌>>=◌ m f d = elim (m d) [
  | returned a d' ↦ f a d'
  | failed s d' ↦ failed s d'
  | panicked ↦ panicked
]

abbrev pub ◌>>◌ : {A B : Type 0} → M A → M B → M B
m >> k = m >>= λ _. k

-- if !b { return err, s }
abbrev pub guard : Bool → Status → M ⊤
guard true s d = returned tt d
guard false s d = failed s d

-- if !b { panic }
abbrev pub assert : Bool → M ⊤
assert true d = returned tt d
assert false d = panicked

abbrev pub when : Bool → M ⊤ → M ⊤
when true m d = m d
when false m d = returned tt d

-- A read of a stored record: an error where its bytes do not decode.
abbrev pub decode : {A : Type 0} → Option (Slot A) → M (Option A)
decode none d = returned none d
decode (some corrupt) d = failed rs_fail d
decode (some (stored a)) d = returned (some a) d

-- Writing a function at one address.
abbrev pub update {ℓ} : {A : Type ℓ} → (Address → A) → Address → A → Address → A
update f a v b = if a == b then v else f b
