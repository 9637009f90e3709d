-- ===== src/Process/Heights.antt =====
-- The operations on miners that a transaction is parsed to, at heights that do not overflow.
use zvchain.Base.{
  ℕ, ◌+◌, ◌<◌, ◌≡◌, refl, arith, Bool, true, false, ◌||◌, Option, none, some, List, [], ◌∷◌, ◌==◌,
  if◌then◌else◌, u64_mod,
}
use zvchain.Base.Map.{nat_key}
use zvchain.Stake.Types.{Address, MinerPks}
use zvchain.Stake.Limits.{adjust_weight_period}
use zvchain.Stake.Chain.Soundness.{InRange}
use zvchain.Transaction.TxType
use zvchain.Transaction.{Transaction}
use zvchain.Transaction.Parse.{
  BlackOperator, miner_op, black_op, foreign_op, Parsed, ready, refused, unsupported,
  parse_transaction, parse_transfer, parse_stake_add, parse_keys, parse_miner_abort,
  parse_stake_reduce, parse_stake_refund, parse_vote_miner_pool, parse_change_mode, read, read_byte,
  or_refused, foreign_parsed, black_parsed,
}

-- The types of transactions that neither a contract nor a group runs.
abbrev pub is_native : ℕ → Bool
is_native t =
    (t == TxType.transfer || (t == TxType.stake_add || t == TxType.miner_abort))
    || ((t == TxType.vote_miner_pool || (t == TxType.stake_reduce || t == TxType.apply_guard_miner))
        || (t == TxType.stake_refund
            || (t == TxType.change_fund_guard_mode || t == TxType.blacklist_update)))

-- An operation that is parsed at a height at which the periods of guards do not overflow; where the
-- type is native, it is no contract's or group's, and the type is known.
abbrev pub IsSafe : Bool → Parsed → Type 0
IsSafe native (ready (miner_op op)) = InRange op
IsSafe native (ready foreign_op) = native ≡ false
IsSafe native unsupported = native ≡ false
IsSafe native _ = Unit {0}

read-IsSafe :
    (native : Bool) {A : Type 0} (o : Option A) (f : A → Parsed)
    → ((a : A) → IsSafe native (f a))
    → IsSafe native (read o f)
read-IsSafe native none f h = tt
read-IsSafe native (some a) f h = h a

read_byte-IsSafe :
    (native : Bool) (bs : List ℕ) (f : ℕ → Parsed)
    → ((b : ℕ) → IsSafe native (f b))
    → IsSafe native (read_byte bs f)
read_byte-IsSafe native [] f h = tt
read_byte-IsSafe native (b ∷ bs) f h = h b

if-IsSafe :
    (native : Bool) (b : Bool) (v w : Parsed)
    → (b ≡ true → IsSafe native v)
    → (b ≡ false → IsSafe native w)
    → IsSafe native (if b then v else w)
if-IsSafe native true v w p q = p refl
if-IsSafe native false v w p q = q refl

guarded-IsSafe :
    (native b : Bool) (w : Parsed) → IsSafe native w → IsSafe native (if b then refused else w)
guarded-IsSafe native true w p = tt
guarded-IsSafe native false w p = p

group_native :
    (t : ℕ)
    → (t == TxType.group_piece || (t == TxType.group_mpk || t == TxType.group_origin_piece)) ≡ true
    → is_native t ≡ false
group_native t h = ground (arith, h)

module _ (native : Bool) (height : ℕ) (tx : Transaction) where
  parse_transfer-IsSafe : IsSafe native (parse_transfer tx)
  unfolding parse_transfer
  parse_transfer-IsSafe =
      read-IsSafe native tx.target _
        λ target. read-IsSafe native tx.source _ λ source. read-IsSafe native tx.value _ λ value. tt

  parse_keys-IsSafe : (o : Option MinerPks) → IsSafe native (parse_keys height tx o)
  unfolding parse_keys
  parse_keys-IsSafe none = tt
  parse_keys-IsSafe (some pks) = read-IsSafe native tx.source _ λ source.
      read-IsSafe native tx.target _
        λ target. guarded-IsSafe native _ _ (read-IsSafe native tx.value _ λ value. tt)

  parse_miner_abort-IsSafe : IsSafe native (parse_miner_abort height tx)
  unfolding parse_miner_abort
  parse_miner_abort-IsSafe =
      read_byte-IsSafe native tx.payload _ λ t. read-IsSafe native tx.source _ λ source. tt

  parse_stake_reduce-IsSafe : IsSafe native (parse_stake_reduce height tx)
  unfolding parse_stake_reduce
  parse_stake_reduce-IsSafe = read_byte-IsSafe native tx.payload _ λ t.
      read-IsSafe native tx.target _
        λ target. read-IsSafe native tx.source _ λ source. read-IsSafe native tx.value _ λ value. tt

  parse_stake_refund-IsSafe : IsSafe native (parse_stake_refund height tx)
  unfolding parse_stake_refund
  parse_stake_refund-IsSafe =
      read_byte-IsSafe native tx.payload _
        λ t. read-IsSafe native tx.target _ λ target. read-IsSafe native tx.source _ λ source. tt

  parse_vote_miner_pool-IsSafe :
      (o : Option Address) → IsSafe native (parse_vote_miner_pool height o tx)
  unfolding parse_vote_miner_pool
  parse_vote_miner_pool-IsSafe none = tt
  parse_vote_miner_pool-IsSafe (some target) = read-IsSafe native tx.source _ λ source. tt

  parse_change_mode-IsSafe : IsSafe native (parse_change_mode height tx)
  unfolding parse_change_mode
  parse_change_mode-IsSafe = guarded-IsSafe native _ _ (
      read_byte-IsSafe native tx.payload _
        λ mode. guarded-IsSafe native _ _ (read-IsSafe native tx.source _ λ source. tt))

  or_refused-IsSafe : (o : Option BlackOperator) → IsSafe native (or_refused o black_op)
  or_refused-IsSafe none = tt
  or_refused-IsSafe (some b) = tt

  black_parsed-IsSafe : (o : Option (Option BlackOperator)) → IsSafe native (black_parsed o)
  black_parsed-IsSafe none = tt
  black_parsed-IsSafe (some o) = or_refused-IsSafe o

  foreign_parsed-IsSafe : (o : Option Bool) → native ≡ false → IsSafe native (foreign_parsed o)
  foreign_parsed-IsSafe none n = tt
  foreign_parsed-IsSafe (some b) n =
      if-IsSafe native b (ready foreign_op) refused (λ _. n) (λ _. tt)

module _ (height : ℕ) (tx : Transaction) where
  -- A native type never gets to the branches of contracts, groups and unknown types.
  pub parse_transaction-IsSafe :
      height + adjust_weight_period < u64_mod
      → (black : Option (Option BlackOperator)) (foreign_parses : Option Bool)
      → IsSafe (is_native tx.tx_type) (parse_transaction black foreign_parses height tx)
  unfolding parse_transaction parse_stake_add
  parse_transaction-IsSafe in_range black foreign_parses =
      let t = tx.tx_type in
      let n = is_native t in
      if-IsSafe n (t == TxType.transfer) _ _ (λ _. parse_transfer-IsSafe n height tx)
        λ a0.
          if-IsSafe n (t == TxType.contract_create) _ _
            (λ c. foreign_parsed-IsSafe n height tx foreign_parses (ground (arith, c)))
            λ _.
              if-IsSafe n (t == TxType.contract_call) _ _
                (λ c. foreign_parsed-IsSafe n height tx foreign_parses (ground (arith, c)))
                λ _.
                  if-IsSafe n (t == TxType.stake_add) _ _ (λ _. parse_keys-IsSafe n height tx _)
                    λ a1.
                      if-IsSafe n (t == TxType.miner_abort) _ _
                        (λ _. parse_miner_abort-IsSafe n height tx)
                        λ a2.
                          if-IsSafe n (t == TxType.vote_miner_pool) _ _
                            (λ _. parse_vote_miner_pool-IsSafe n height tx tx.target)
                            λ a3.
                              if-IsSafe n (t == TxType.stake_reduce) _ _
                                (λ _. parse_stake_reduce-IsSafe n height tx)
                                λ a4.
                                  if-IsSafe n (t == TxType.apply_guard_miner) _ _
                                    (λ _. read-IsSafe n tx.source _ λ source. in_range)
                                    λ a5.
                                      if-IsSafe n (t == TxType.stake_refund) _ _
                                        (λ _. parse_stake_refund-IsSafe n height tx)
                                        λ a6.
                                          if-IsSafe n (t == TxType.change_fund_guard_mode) _ _
                                            (λ _. parse_change_mode-IsSafe n height tx)
                                            λ a7.
                                              if-IsSafe n
                                                (t == TxType.group_piece
                                                  || (t == TxType.group_mpk
                                                      || t == TxType.group_origin_piece))
                                                _ _
                                                (λ c.
                                                  foreign_parsed-IsSafe n height tx foreign_parses
                                                    (group_native t c))
                                                λ _.
                                                  if-IsSafe n (t == TxType.blacklist_update) _ _
                                                    (λ _. black_parsed-IsSafe n height tx black)
                                                    λ a8.
                                                      rw (a0, a1, a2, a3, a4, a5, a6, a7, a8) refl
