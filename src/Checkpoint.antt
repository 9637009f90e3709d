-- ===== src/Checkpoint.antt =====
-- Checkpoints, core/checkpoint.go: the votes of an epoch's groups for its blocks, the block that
-- enough groups have voted for, and the scan of epochs for it. The chain and the groups are read
-- through `Querier`.
pub mod Votes
pub mod Scan
pub mod Blocks
pub mod Counting
pub mod Agreement
pub mod Update
mod Tests
use zvchain.Base.{
  ℕ, zero, suc, ◌+◌, ◌-◌, ◌*◌, ◌/◌, ◌%◌, Bool, true, false, not, Option, none, some, List, [], ◌∷◌,
  ◌++◌, ltb, leb, ◌==◌, length, if◌then◌else◌,
}
use zvchain.Base.Map.{Map, lookup, insert, nat_key}
use zvchain.Base.Bytes.{Bytes}
use zvchain.Epoch.{Epoch, epoch_at, start, next, equal}

abbrev pub group_num_min : ℕ
group_num_min = 10

abbrev pub cp_max_scan_epochs : ℕ
cp_max_scan_epochs = 10

abbrev pub cp_block_buffer : ℕ
cp_block_buffer = 20

-- A header: its height and the seed of its group.
pub record Header : Type 0 where
  pub height : ℕ
  pub group : ℕ

-- The account that holds the votes: the bytes of the votes, and the start of their epoch.
pub record CpDb : Type 0 where
  pub votes : Bytes
  pub epoch_start : ℕ

-- How `AccountDBAt` ends.
pub data DbAt : Type 0 where
  opened : CpDb → DbAt
  missing_node failed : DbAt

-- The interfaces `activatedGroupReader` and `blockQuerier`; a floor is the height of the block.
pub record Querier : Type 0 where
  pub groups_at : ℕ → List ℕ
  pub height : ℕ
  pub account_db_at : ℕ → DbAt
  pub floor : ℕ → ℕ
  pub headers_between : ℕ → ℕ → List Header

pub record CpContext : Type 0 where
  pub epoch : Epoch
  pub group_indexes : Map ℕ ℕ
  pub threshold : ℕ

-- ceil(0.7 n), as the float product gives it
abbrev pub cp_group_threshold : ℕ → ℕ
cp_group_threshold n = (7 * n + 9) / 10

unfoldable pub index_groups : ℕ → List ℕ → Map ℕ ℕ → Map ℕ ℕ
index_groups i [] m = m
index_groups i (g ∷ gs) m = index_groups (suc i) gs (insert g i m)

unfoldable pub new_cp_context : Epoch → List ℕ → CpContext
new_cp_context ep groups =
    let m = index_groups 0 groups [] in
    record { epoch = ep; group_indexes = m; threshold = cp_group_threshold (length m) }

abbrev pub group_size : CpContext → ℕ
group_size ctx = length ctx.group_indexes

abbrev pub groups_enough : CpContext → Bool
groups_enough ctx = leb group_num_min (group_size ctx)

-- `UInt16ToByte` and `ByteToUInt16`
abbrev pub uint16_to_bytes : ℕ → Bytes
uint16_to_bytes n = n / 256 % 256 ∷ n % 256 ∷ []

abbrev pub bytes_to_uint16 : ℕ → ℕ → ℕ
bytes_to_uint16 high low = high * 256 + low

-- `getGroupVotes`: none where the bytes end within a vote.
unfoldable pub get_group_votes : Bytes → Option (List ℕ)
get_group_votes [] = some []
get_group_votes (high ∷ []) = none
get_group_votes (high ∷ low ∷ bs) =
    let rest = get_group_votes bs in
    elim rest [ none ↦ none | some vs ↦ some (bytes_to_uint16 high low ∷ vs) ]

-- The bytes that `setGroupVotes` writes.
unfoldable pub set_group_votes : List ℕ → Bytes
set_group_votes [] = []
set_group_votes (v ∷ vs) = uint16_to_bytes v ++ set_group_votes vs

-- votes[i] = v; none where i is out of range.
unfoldable pub set_vote : ℕ → ℕ → List ℕ → Option (List ℕ)
set_vote i v [] = none
set_vote zero v (w ∷ ws) = some (v ∷ ws)
set_vote (suc i) v (w ∷ ws) =
    let rest = set_vote i v ws in elim rest [ none ↦ none | some xs ↦ some (w ∷ xs) ]

abbrev pub zeros : ℕ → List ℕ
zeros zero = []
zeros (suc n) = 0 ∷ zeros n

-- What `updateVotes` works on: the context, the votes and the start of their epoch.
pub record Ballot : Type 0 where
  pub context : CpContext
  pub votes : List ℕ
  pub epoch_start : ℕ

-- The first part of `updateVotes`; none where it panics.
unfoldable pub load_votes : Querier → CpContext → Header → CpDb → Option Ballot
load_votes q ctx bh db =
    let ep = epoch_at bh.height in
    let of_db = epoch_at db.epoch_start in
    let fresh = new_cp_context ep (q.groups_at (start ep)) in
    if leb (start (next of_db)) (start ep)
    then some (record { context = fresh; votes = zeros (group_size fresh); epoch_start = start ep })
    else if equal ep of_db
    then elim (get_group_votes db.votes) [
      | none ↦ none
      | some vs ↦ some (record {
        context = if equal ep ctx.epoch then ctx else fresh;
        votes = vs;
        epoch_start = db.epoch_start;
      })
    ]
    else none

-- uint16(bh.Height - ep.Start()) + 1, on uint16
abbrev pub vote_of : Header → ℕ
vote_of bh = ((bh.height - start (epoch_at bh.height)) % 65536 + 1) % 65536

-- The second part of `updateVotes`: the vote of the block's group, written back.
unfoldable pub cast_vote : Header → Ballot → Option (CpContext × CpDb)
cast_vote bh b = elim (lookup bh.group b.context.group_indexes) [
  | none ↦ none
  | some i ↦
      if length b.votes == group_size b.context
      then elim (set_vote i (vote_of bh) b.votes) [
        | none ↦ none
        | some ws ↦
            some (b.context, record { votes = set_group_votes ws; epoch_start = b.epoch_start })
      ]
      else none
]

-- `updateVotes`: the new context and account; none where it panics.
unfoldable pub update_votes : Querier → CpContext → Header → CpDb → Option (CpContext × CpDb)
update_votes q ctx bh db = elim (load_votes q ctx bh db) [ none ↦ none | some b ↦ cast_vote bh b ]

-- `sort.Ints`
abbrev pub sort_in : ℕ → List ℕ → List ℕ
sort_in x [] = x ∷ []
sort_in x (y ∷ ys) = if leb x y then x ∷ y ∷ ys else y ∷ sort_in x ys

unfoldable pub sort : List ℕ → List ℕ
sort [] = []
sort (x ∷ xs) = sort_in x (sort xs)

abbrev pub valid_votes : List ℕ → List ℕ
valid_votes [] = []
valid_votes (v ∷ vs) = if ltb 0 v then v ∷ valid_votes vs else valid_votes vs

unfoldable pub get_elem? : List ℕ → ℕ → Option ℕ
get_elem? [] i = none
get_elem? (x ∷ xs) zero = some x
get_elem? (x ∷ xs) (suc i) = get_elem? xs i

-- The vote that `threshold` votes reach, counted from the highest, for a positive threshold.
unfoldable pub threshold_vote : ℕ → List ℕ → Option ℕ
threshold_vote threshold votes =
    if leb threshold (length (valid_votes votes))
    then get_elem? (sort (valid_votes votes)) (length (valid_votes votes) - threshold)
    else none

-- `calcCheckpointByDB`: the checkpoint, if any, or none where it panics, as at a threshold of 0, where
-- the index is out of range.
unfoldable pub calc_checkpoint_by_db : CpDb → Epoch → ℕ → Option (Option ℕ)
calc_checkpoint_by_db db ep threshold =
    if equal (epoch_at db.epoch_start) ep
    then elim (get_group_votes db.votes) [
      | none ↦ none
      | some votes ↦ if threshold == 0 then none else elim (threshold_vote threshold votes) [
        | none ↦ some none
        | some v ↦ some (some (v + start ep - 1))
      ]
    ]
    else some none

-- The walk of `calcCheckpointByBlocks` over the headers, the newest first.
unfoldable pub count_groups : Epoch → ℕ → Map ℕ ℕ → List Header → Option ℕ
count_groups ep threshold seen [] = none
count_groups ep threshold seen (bh ∷ older) =
    let now = insert bh.group 0 seen in
    let counted = count_groups ep threshold now older in
    let skipped = count_groups ep threshold seen older in
    if equal (epoch_at bh.height) ep
    then (if leb threshold (length now) then some bh.height else counted)
    else skipped

abbrev pub reverse_onto : List Header → List Header → List Header
reverse_onto [] ys = ys
reverse_onto (x ∷ xs) ys = reverse_onto xs (x ∷ ys)

unfoldable pub calc_checkpoint_by_blocks : List Header → Epoch → ℕ → Option ℕ
calc_checkpoint_by_blocks blocks ep threshold =
    count_groups ep threshold [] (reverse_onto blocks [])

-- How a turn of the loop of `checkpointAt` ends: with a checkpoint or the answer 0, in a panic, with
-- `continue` on a missing node, or with the next epoch.
pub data Turn : Type 0 where
  answer : ℕ → Turn
  crash reread onward : Turn

abbrev pub found_or : Option ℕ → Turn
found_or none = onward
found_or (some c) = answer c

unfoldable pub turn : Querier → Bool → ℕ → Turn
turn q by_db h =
    let ep = epoch_at h in
    let ctx = new_cp_context ep (q.groups_at (start ep)) in
    if groups_enough ctx
    then (if by_db
        then elim (q.account_db_at h) [
          | missing_node ↦ reread
          | failed ↦ answer 0
          | opened db ↦ elim (calc_checkpoint_by_db db ep ctx.threshold) [
            | none ↦ crash
            | some c ↦ found_or c
          ]
        ]
        else found_or
            (calc_checkpoint_by_blocks (q.headers_between (start ep) (suc h)) ep ctx.threshold))
    else onward

pub data Scanned : Type 0 where
  found : ℕ → Scanned
  panicked spent : Scanned

-- The loop of `checkpointAt`, on fuel.
unfoldable pub scan : Querier → ℕ → ℕ → Bool → ℕ → Scanned
scan q zero scanned by_db h = spent
scan q (suc fuel) scanned by_db h =
    if leb cp_max_scan_epochs scanned then found 0 else elim (turn q by_db h) [
      | answer c ↦ found c
      | crash ↦ panicked
      | reread ↦ scan q fuel scanned false h
      | onward ↦ elim (start (epoch_at h) == 0) [
        | true ↦ found 0
        | false ↦ scan q fuel (suc scanned) by_db (start (epoch_at h) - 1)
      ]
    ]

-- `checkpointAt`
unfoldable pub checkpoint_at : Querier → ℕ → ℕ → Scanned
checkpoint_at q fuel h =
    if leb h cp_block_buffer
    then found 0
    else scan q fuel 0 true
        (if ltb q.height (h - cp_block_buffer) then q.height else q.floor (h - cp_block_buffer))
