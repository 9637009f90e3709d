-- ===== src/Transaction/Safety.antt =====
-- What validation keeps out: which transactions make it panic, and that no validated one makes the
-- execution panic when it is parsed.
use zvchain.Base.{
  length, ℕ, ◌*◌, ◌≡◌, ◌≢◌, ◌⊎◌, ◌↔◌, inl, inr, refl, sym, ap, ◌∙◌, Bool, Bool-cases, true, false,
  Option, none, some, some-injective, [], leb, leb→le, ◌==◌, ==_iff, Option-cases, ◌<◌, ◌≤◌, arith,
  if◌then◌else◌, u64_mod,
}
use zvchain.Stake.Types.{Address}
use zvchain.Transaction.TxType
use zvchain.Transaction.{
  Transaction, is_reward, intrinsic_gas, gas_limit_per_transaction, valid_gas_price,
}
use zvchain.Transaction.Validate.{
  Verdict, accepted, rejected, crashed, ◌>>◌, check, present, Node, Accounts, validate,
  common_validate, gas_validate, type_validate, latest_validate, state_validate, source_recover,
  reward_validate, reward_format, verify_claim, Claim, pays_value, value_validate,
  transfer_validator, contract_create_validator, afford_value, sender_validate, unknown_type,
  source_nil, gas_price_too_low, TxError, contract_call_validator, stake_add_validator,
  miner_abort_validator, stake_reduce_validator, stake_refund_validator, vote_miner_pool_validator,
  group_validator, black_update_validate, change_fund_guard_mode_validator,
}

-- Accepted in sequence: both parts are.
pub both : (v w : Verdict) → (v >> w) ≡ accepted → (v ≡ accepted) × (w ≡ accepted)
both accepted w h = (refl, h)
both (rejected e) w h = absurd (ground arith)
both crashed w h = absurd (ground arith)

-- What gas validation grants.
pub record Gas (tx : Transaction) : Type 0 where
  pub limit : ℕ
  pub price : ℕ
  pub limit_is : tx.gas_limit ≡ some limit
  pub price_is : tx.gas_price ≡ some price
  pub price_fits : price < u64_mod
  pub above : intrinsic_gas tx ≤ limit
  pub below : limit ≤ gas_limit_per_transaction

pub gas_validate-Gas : (tx : Transaction) → gas_validate tx ≡ accepted → Gas tx
unfolding gas_validate
gas_validate-Gas tx h = elim (Option-cases tx.gas_limit) [
  | inl n ↦ absurd (ground (arith, rw n at (h)))
  | inr (limit, e) ↦ elim (Option-cases tx.gas_price) [
    | inl n ↦ absurd (ground (arith, rw (e, n) at (h)))
    | inr (price, f) ↦
        let g = rw (e, f) at (h) in
        record {
          limit = limit;
          price = price;
          limit_is = e;
          price_is = f;
          price_fits = ground (arith, g);
          above = ground (arith, g);
          below = ground (arith, g);
        }
  ]
]

-- A transaction that changes the mode of a guard node and has no data.
abbrev pub LacksMode : Transaction → Type 0
LacksMode tx = (tx.tx_type ≡ TxType.change_fund_guard_mode) × (tx.payload ≡ [])

transfer_validator-ne-crashed : (tx : Transaction) → transfer_validator tx ≢ crashed
unfolding transfer_validator
transfer_validator-ne-crashed tx h = ground arith

contract_create_validator-ne-crashed : (tx : Transaction) → contract_create_validator tx ≢ crashed
unfolding contract_create_validator
contract_create_validator-ne-crashed tx h = ground arith

contract_call_validator-ne-crashed : (tx : Transaction) → contract_call_validator tx ≢ crashed
unfolding contract_call_validator
contract_call_validator-ne-crashed tx h = ground arith

stake_add_validator-ne-crashed : (tx : Transaction) → stake_add_validator tx ≢ crashed
unfolding stake_add_validator
stake_add_validator-ne-crashed tx h = ground arith

miner_abort_validator-ne-crashed : (tx : Transaction) → miner_abort_validator tx ≢ crashed
unfolding miner_abort_validator
miner_abort_validator-ne-crashed tx h = ground arith

stake_reduce_validator-ne-crashed : (tx : Transaction) → stake_reduce_validator tx ≢ crashed
unfolding stake_reduce_validator
stake_reduce_validator-ne-crashed tx h = ground arith

stake_refund_validator-ne-crashed : (tx : Transaction) → stake_refund_validator tx ≢ crashed
unfolding stake_refund_validator
stake_refund_validator-ne-crashed tx h = ground arith

vote_miner_pool_validator-ne-crashed : (tx : Transaction) → vote_miner_pool_validator tx ≢ crashed
unfolding vote_miner_pool_validator
vote_miner_pool_validator-ne-crashed tx h = ground arith

group_validator-ne-crashed : (tx : Transaction) → group_validator tx ≢ crashed
unfolding group_validator
group_validator-ne-crashed tx h = ground arith

black_update_validate-ne-crashed :
    (node : Node) (tx : Transaction) (validate_state : Bool) (source : Address)
    → tx.source ≡ some source
    → black_update_validate node tx validate_state ≢ crashed
unfolding black_update_validate
black_update_validate-ne-crashed node tx validate_state source e h = ground arith

change_fund_guard_mode_validator-crashed :
    (node : Node) (tx : Transaction) (source : Address)
    → tx.source ≡ some source
    → (change_fund_guard_mode_validator node tx ≡ crashed) ↔ (tx.payload ≡ [])
unfolding change_fund_guard_mode_validator
change_fund_guard_mode_validator-crashed node tx source e = (λ h. ground arith, λ h. rw h refl)

type_validate-mode :
    (node : Node) (tx : Transaction) (validate_state : Bool)
    → tx.tx_type ≡ TxType.change_fund_guard_mode
    → type_validate node tx validate_state ≡ change_fund_guard_mode_validator node tx
unfolding type_validate
type_validate-mode node tx validate_state t = ground (arith, t)

if_safe : (b : Bool) (v w : Verdict) → v ≢ crashed → w ≢ crashed → (if b then v else w) ≢ crashed
if_safe true v w p q = p
if_safe false v w p q = q

else_safe : (b : Bool) (v w : Verdict) → b ≡ false → w ≢ crashed → (if b then v else w) ≢ crashed
else_safe true v w e q = absurd (ground (arith, e))
else_safe false v w e q = q

accepted_safe : accepted ≢ crashed
accepted_safe h = ground arith

unknown_safe : rejected unknown_type ≢ crashed
unknown_safe h = ground arith

other_types-ne-crashed :
    (node : Node) (tx : Transaction) (validate_state : Bool) (source : Address)
    → tx.source ≡ some source
    → (tx.tx_type == TxType.change_fund_guard_mode) ≡ false
    → type_validate node tx validate_state ≢ crashed
unfolding type_validate
other_types-ne-crashed node tx validate_state source e other =
    if_safe _ _ _ (transfer_validator-ne-crashed tx) (
      if_safe _ _ _ (contract_create_validator-ne-crashed tx) (
        if_safe _ _ _ (contract_call_validator-ne-crashed tx) (
          if_safe _ _ _ (stake_add_validator-ne-crashed tx) (
            if_safe _ _ _ (miner_abort_validator-ne-crashed tx) (
              if_safe _ _ _ (stake_reduce_validator-ne-crashed tx) (
                if_safe _ _ _ (stake_refund_validator-ne-crashed tx) (
                  if_safe _ _ _ accepted_safe (
                    if_safe _ _ _ (vote_miner_pool_validator-ne-crashed tx) (
                      else_safe _ _ _ other (
                        if_safe _ _ _ (group_validator-ne-crashed tx) (
                          if_safe _ _ _
                            (black_update_validate-ne-crashed node tx validate_state source e)
                            unknown_safe)))))))))))

type_validate-crashed :
    (node : Node) (tx : Transaction) (validate_state : Bool) (source : Address)
    → tx.source ≡ some source
    → (type_validate node tx validate_state ≡ crashed) ↔ LacksMode tx
type_validate-crashed node tx validate_state source e =
    let mode = change_fund_guard_mode_validator-crashed node tx source e in
    elim (Bool-cases (tx.tx_type == TxType.change_fund_guard_mode)) [
      | inl is ↦
          let t = (==_iff _ _).0 is in
          let same = type_validate-mode node tx validate_state t in
          (λ h. (t, mode.0 (sym same ∙ h)), λ l. same ∙ mode.1 l.1)
      | inr other ↦ (
        λ h. absurd (other_types-ne-crashed node tx validate_state source e other h),
        λ l. absurd (ground (arith, other, l.0)),
      )
    ]

-- Whether the source has the fee of the whole gas limit.
unfoldable pub affords_gas : Accounts → Option ℕ → Option ℕ → Option Address → Bool
affords_gas accounts (some price) (some limit) (some source) =
    leb (price * limit) (accounts.balance_of source)
affords_gas accounts _ _ _ = false

-- A transaction that is to pay a value, can pay its gas and has no value.
abbrev pub LacksValue : Accounts → Transaction → Type 0
LacksValue accounts tx =
    (pays_value tx.tx_type ≡ true)
    × ((tx.value ≡ none) × (affords_gas accounts tx.gas_price tx.gas_limit tx.source ≡ true))

afford_value-crashed :
    (tx_type : ℕ) (value : Option ℕ) (fee balance : ℕ)
    → (afford_value tx_type value fee balance ≡ crashed)
      ↔ ((pays_value tx_type ≡ true) × (value ≡ none))
unfolding afford_value
afford_value-crashed tx_type none fee balance = elim (Bool-cases (pays_value tx_type)) [
  | inl e ↦ (λ h. (e, refl), λ h. rw e refl)
  | inr e ↦ (λ h. absurd (ground (arith, rw e at (h))), λ h. absurd (ground (arith, e, h.0)))
]
afford_value-crashed tx_type (some v) fee balance = elim (Bool-cases (pays_value tx_type)) [
  | inl e ↦ (λ h. absurd (ground (arith, rw e at (h))), λ h. absurd (ground (arith, h.1)))
  | inr e ↦ (λ h. absurd (ground (arith, rw e at (h))), λ h. absurd (ground (arith, e, h.0)))
]

then-crashed : (v w : Verdict) → w ≢ crashed → ((v >> w) ≡ crashed) ↔ (v ≡ crashed)
then-crashed accepted w q = (λ h. absurd (q h), λ h. absurd (ground (arith, h)))
then-crashed (rejected e) w q = (λ h. h, λ h. h)
then-crashed crashed w q = (λ h. refl, λ h. refl)

pub then_safe : (v w : Verdict) → v ≢ crashed → w ≢ crashed → (v >> w) ≢ crashed
then_safe accepted w p q = q
then_safe (rejected e) w p q = p
then_safe crashed w p q = p

then-cases : (v w : Verdict) → (v >> w) ≡ crashed → (v ≡ crashed) ⊎ ((v ≡ accepted) × (w ≡ crashed))
then-cases accepted w h = inr (refl, h)
then-cases (rejected e) w h = absurd (ground (arith, h))
then-cases crashed w h = inl refl

head_accepted : (v a b c : Verdict) → v ≢ crashed → (v >> a >> b >> c) ≡ crashed → v ≡ accepted
head_accepted accepted a b c safe h = refl
head_accepted (rejected e) a b c safe h = absurd (ground (arith, h))
head_accepted crashed a b c safe h = absurd (safe refl)

-- Past a part that does not crash.
past : (v w : Verdict) → v ≢ crashed → (v >> w) ≡ crashed → (v ≡ accepted) × (w ≡ crashed)
past v w safe h = elim (then-cases v w h) [ inl c ↦ absurd (safe c) | inr p ↦ p ]

pub check-true : (b : Bool) (e : TxError) → check b e ≡ accepted → b ≡ true
check-true true e h = refl
check-true false e h = absurd (ground (arith, h))

check_safe : (b : Bool) (e : TxError) → check b e ≢ crashed
check_safe true e h = ground arith
check_safe false e h = ground arith

sender_validate-ne-crashed :
    (node : Node) (accounts : Accounts) (height sender : ℕ)
    → sender_validate node accounts height sender ≢ crashed
unfolding sender_validate
sender_validate-ne-crashed node accounts height sender = check_safe _ _

pub state_validate-crashed :
    (node : Node) (accounts : Accounts) (tx : Transaction) (height source : ℕ) (g : Gas tx)
    → tx.source ≡ some source
    → (state_validate node accounts tx height ≡ crashed) ↔ LacksValue accounts tx
unfolding state_validate affords_gas
state_validate-crashed node accounts tx height source g e =
    rw (g.limit_is, g.price_is, e)
      (elim (Bool-cases (leb (g.price * g.limit) (accounts.balance_of source))) [
        | inl l ↦
            let af =
              afford_value tx.tx_type tx.value (g.price * g.limit) (accounts.balance_of source) in
            let price = check (valid_gas_price g.price height) gas_price_too_low in
            let tail =
              if tx.tx_type == TxType.miner_abort
              then accepted
              else sender_validate node accounts height source in
            let one = then-crashed (af >> price) tail (
              if_safe _ _ _ accepted_safe
                (sender_validate-ne-crashed node accounts height source)) in
            let two = then-crashed af price (check_safe _ _) in
            let three =
              afford_value-crashed tx.tx_type tx.value (g.price * g.limit)
                (accounts.balance_of source) in
            rw l (
              λ h. let (a, b) = three.0 (two.0 (one.0 h)) in (a, (b, refl)),
              λ h. one.1 (two.1 (three.1 (h.0, h.1.0))),
            )
        | inr l ↦ rw l (λ h. absurd (ground (arith, h)), λ h. absurd (ground (arith, h.1.1)))
      ])

common_validate-ne-crashed : (tx : Transaction) → common_validate tx ≢ crashed
unfolding common_validate
common_validate-ne-crashed tx = then_safe _ _ (check_safe _ _) (check_safe _ _)

gas_validate-ne-crashed : (tx : Transaction) → gas_validate tx ≢ crashed
unfolding gas_validate
gas_validate-ne-crashed tx h = ground arith

reward_format-ne-crashed : (tx : Transaction) → reward_format tx ≢ crashed
unfolding value_validate
reward_format-ne-crashed tx h = ground arith

reward_format-value : (tx : Transaction) → reward_format tx ≡ accepted → present tx.value ≡ true
unfolding value_validate
reward_format-value tx h = ground arith

-- A claim for nobody.
abbrev pub LacksTargets : Node → Transaction → Type 0
LacksTargets node tx = (c : Claim) × (node.read_claim tx ≡ some c) × (length c.targets ≡ 0)

verify_claim-crashed :
    (node : Node) (tx : Transaction) (o : Option Claim)
    → present tx.value ≡ true
    → verify_claim node tx o ≡ crashed
    → (c : Claim) × (o ≡ some c) × (length c.targets ≡ 0)
unfolding verify_claim
verify_claim-crashed node tx none p h = absurd (ground (arith, h))
verify_claim-crashed node tx (some c) p h = elim (Bool-cases (length c.targets == 0)) [
  | inl e ↦ (c, refl, (==_iff _ _).0 e)
  | inr n ↦ absurd (ground (arith, p, rw n at (h)))
]

verify_claim-none :
    (node : Node) (tx : Transaction) (c : Claim)
    → length c.targets ≡ 0
    → verify_claim node tx (some c) ≡ crashed
unfolding verify_claim
verify_claim-none node tx c e = rw ((==_iff _ _).1 e) refl

reward_validate-crashed :
    (node : Node) (tx : Transaction)
    → (reward_validate node tx ≡ crashed) ↔ ((reward_format tx ≡ accepted) × LacksTargets node tx)
unfolding reward_validate
reward_validate-crashed node tx = (
  λ h.
      let (ok, rest) = past _ _ (reward_format-ne-crashed tx) h in
      (ok, verify_claim-crashed node tx (node.read_claim tx) (reward_format-value tx ok) rest),
  λ (ok, (c, e, n)). rw (ok, e) (verify_claim-none node tx c n),
)

common_validate-signed : (tx : Transaction) → common_validate tx ≡ accepted → present tx.sign ≡ true
unfolding common_validate
common_validate-signed tx h = ground arith

source_recover-ne-crashed :
    (node : Node) (tx : Transaction)
    → present tx.sign ≡ true
    → present tx.source ≡ true
    → source_recover node tx ≢ crashed
unfolding source_recover
source_recover-ne-crashed node tx s t h = ground arith

-- What every other transaction passes before its state and its type are looked at.
abbrev pub IsAdmitted : Transaction → Type 0
IsAdmitted tx =
    (common_validate tx ≡ accepted)
    × ((is_reward tx ≡ false) × ((gas_validate tx ≡ accepted) × (present tx.source ≡ true)))

-- The validation against the latest state, where it is asked for.
abbrev pub state_step : Node → Transaction → Bool → Verdict
state_step node tx validate_state =
    if validate_state then latest_validate node tx node.latest else accepted

-- The two ways in which the validation of an admitted transaction panics.
abbrev pub MustCrash : Node → Transaction → Bool → Type 0
MustCrash node tx validate_state =
    ((validate_state ≡ true) × (a : Accounts) × (node.latest ≡ some a) × LacksValue a tx)
    ⊎ ((state_step node tx validate_state ≡ accepted) × LacksMode tx)

latest_validate-crashed :
    (node : Node) (tx : Transaction) (o : Option Accounts) (source : ℕ) (g : Gas tx)
    → tx.source ≡ some source
    → (latest_validate node tx o ≡ crashed) ↔ ((a : Accounts) × (o ≡ some a) × LacksValue a tx)
unfolding latest_validate
latest_validate-crashed node tx none source g e =
    (λ h. absurd (ground (arith, h)), λ p. absurd (ground (arith, p.1)))
latest_validate-crashed node tx (some a) source g e =
    let at = state_validate-crashed node a tx node.height source g e in
    (λ h. (a, refl, at.0 h), λ p. at.1 (rw (some-injective _ _ p.1) p.2))

pub present-some : {A : Type 0} (o : Option A) → present o ≡ true → (a : A) × (o ≡ some a)
present-some none h = absurd (ground (arith, h))
present-some (some a) h = (a, refl)

state_step-crashed :
    (node : Node) (tx : Transaction) (validate_state : Bool) (source : ℕ) (g : Gas tx)
    → tx.source ≡ some source
    → (state_step node tx validate_state ≡ crashed)
      ↔ ((validate_state ≡ true) × (a : Accounts) × (node.latest ≡ some a) × LacksValue a tx)
state_step-crashed node tx true source g e =
    let at = latest_validate-crashed node tx node.latest source g e in
    (λ h. let (a, l, k) = at.0 h in (refl, a, l, k), λ p. at.1 (p.1, p.2, p.3))
state_step-crashed node tx false source g e =
    (λ h. absurd (ground (arith, h)), λ p. absurd (ground (arith, p.0)))

-- What is left of the validation once a transaction is admitted.
validate_admitted :
    (node : Node) (tx : Transaction) (validate_state : Bool)
    → IsAdmitted tx
    → validate node tx validate_state ≡ (
        state_step node tx validate_state
        >> type_validate node tx validate_state
        >> source_recover node tx)
unfolding validate
validate_admitted node tx validate_state (c, (r, (g, s))) = rw (c, r, g, s) refl

-- A reward that is well formed and claims for nobody.
abbrev pub IsIdleReward : Node → Transaction → Type 0
IsIdleReward node tx =
    (common_validate tx ≡ accepted)
    × (is_reward tx ≡ true)
    × (reward_format tx ≡ accepted)
    × LacksTargets node tx

validate-reward :
    (node : Node) (tx : Transaction) (validate_state : Bool)
    → IsIdleReward node tx
    → validate node tx validate_state ≡ crashed
unfolding validate
validate-reward node tx validate_state (c, r, ok, lacks) =
    rw (c, r) ((reward_validate-crashed node tx).1 (ok, lacks))

validate-IsAdmitted :
    (node : Node) (tx : Transaction) (validate_state : Bool)
    → validate node tx validate_state ≡ crashed
    → IsIdleReward node tx ⊎ IsAdmitted tx
unfolding validate
validate-IsAdmitted node tx validate_state h =
    let (c, rest) = past _ _ (common_validate-ne-crashed tx) h in
    elim (Bool-cases (is_reward tx)) [
      | inl r ↦
          let (ok, lacks) = (reward_validate-crashed node tx).0 (rw r at (rest)) in
          inl (c, r, ok, lacks)
      | inr r ↦
          let (g, p) = both (gas_validate tx) _ (
            head_accepted (gas_validate tx >> check (present tx.source) source_nil) _ _ _
              (then_safe _ _ (gas_validate-ne-crashed tx) (check_safe _ _)) (rw r at (rest))) in
          inr (c, (r, (g, check-true _ _ p)))
    ]

module _ (node : Node) (tx : Transaction) (validate_state : Bool) where
  crash-MustCrash :
      IsAdmitted tx
      → validate node tx validate_state ≡ crashed
      → IsAdmitted tx × MustCrash node tx validate_state
  crash-MustCrash ad h =
      let (source, e) = present-some tx.source ad.1.1.1 in
      let signed = common_validate-signed tx ad.0 in
      elim (then-cases (state_step node tx validate_state >> type_validate node tx validate_state)
        (source_recover node tx) (sym (validate_admitted node tx validate_state ad) ∙ h)) [
          | inl front ↦ elim (then-cases _ _ front) [
            | inl at ↦ (
              ad,
              inl (
                  (state_step-crashed node tx validate_state source (gas_validate-Gas tx ad.1.1.0)
                      e).0
                    at),
            )
            | inr (ok, at) ↦
                (ad, inr (ok, (type_validate-crashed node tx validate_state source e).0 at))
          ]
          | inr back ↦ absurd (source_recover-ne-crashed node tx signed ad.1.1.1 back.1)
        ]

  MustCrash-crash :
      IsAdmitted tx × MustCrash node tx validate_state → validate node tx validate_state ≡ crashed
  MustCrash-crash (ad, inl p) =
      let (source, e) = present-some tx.source ad.1.1.1 in
      let at =
        (state_step-crashed node tx validate_state source (gas_validate-Gas tx ad.1.1.0) e).1 p in
      validate_admitted node tx validate_state ad
      ∙ ap (λ v. v >> type_validate node tx validate_state >> source_recover node tx) at
  MustCrash-crash (ad, inr (ok, lacks)) =
      let (source, e) = present-some tx.source ad.1.1.1 in
      let at = (type_validate-crashed node tx validate_state source e).1 lacks in
      validate_admitted node tx validate_state ad
      ∙ ap (λ v. v >> type_validate node tx validate_state >> source_recover node tx) ok
      ∙ ap (λ v. v >> source_recover node tx) at

-- A validation panics exactly for a reward that passes the checks of size, signature, length and
-- value and whose claim can be read and has no targets, and for a transaction that passes the checks
-- of size, signature and gas, has a source and is no reward, and that either is to be checked against
-- a state, pays a value, can pay its gas and has a nil value, or that passes the state's check, if
-- there is one, and changes the mode of a guard node with empty data.
pub validate_panics_iff :
    (node : Node) (tx : Transaction) (validate_state : Bool)
    → (validate node tx validate_state ≡ crashed)
      ↔ (IsIdleReward node tx ⊎ (IsAdmitted tx × MustCrash node tx validate_state))
validate_panics_iff node tx validate_state = (
  λ h. elim (validate-IsAdmitted node tx validate_state h) [
    | inl idle ↦ inl idle
    | inr ad ↦ inr (crash-MustCrash node tx validate_state ad h)
  ],
  λ p. elim p [
    | inl idle ↦ validate-reward node tx validate_state idle
    | inr admitted ↦ MustCrash-crash node tx validate_state admitted
  ],
)

-- An accepted transaction that is no reward has a source, and its type's validator has accepted it.
pub validate-typed :
    (node : Node) (tx : Transaction) (validate_state : Bool)
    → validate node tx validate_state ≡ accepted
    → is_reward tx ≡ false
    → Gas tx × (present tx.source ≡ true) × (type_validate node tx validate_state ≡ accepted)
unfolding validate
validate-typed node tx validate_state h r =
    let (front, recovered) = both _ _ (rw r at ((both (common_validate tx) _ h).1)) in
    let (mid, typed) = both _ _ front in
    let (head, state) = both _ _ mid in
    let (gas, source) = both (gas_validate tx) _ head in
    (gas_validate-Gas tx gas, check-true _ _ source, typed)

pub state_validate-affords :
    (node : Node) (accounts : Accounts) (tx : Transaction) (height source : ℕ) (g : Gas tx)
    → tx.source ≡ some source
    → state_validate node accounts tx height ≡ accepted
    → g.price * g.limit ≤ accounts.balance_of source
unfolding state_validate
state_validate-affords node accounts tx height source g e h =
    elim (Bool-cases (leb (g.price * g.limit) (accounts.balance_of source))) [
      | inl l ↦ leb→le _ _ l
      | inr l ↦ absurd (ground (arith, rw (g.limit_is, g.price_is, e, l) at (h)))
    ]

reward_validate-value :
    (node : Node) (tx : Transaction) → reward_validate node tx ≡ accepted → present tx.value ≡ true
unfolding reward_validate
reward_validate-value node tx h = reward_format-value tx (both (reward_format tx) _ h).0

-- An accepted reward has a value.
pub validate-value :
    (node : Node) (tx : Transaction) (validate_state : Bool)
    → validate node tx validate_state ≡ accepted
    → is_reward tx ≡ true
    → (value : ℕ) × (tx.value ≡ some value)
unfolding validate
validate-value node tx validate_state h r =
    present-some tx.value
      (reward_validate-value node tx (rw r at ((both (common_validate tx) _ h).1)))
