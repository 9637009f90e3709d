-- ===== src/Checkpoint/Votes.antt =====
-- The codec of votes, and the vote that a threshold picks.
use zvchain.Base.{
  ◌==◌, false, ℕ, zero, suc, ◌+◌, ◌-◌, ◌*◌, ◌/◌, ◌%◌, ◌<◌, ◌≤◌, ◌≡◌, ◌≢◌, refl, sym, ap, ◌∙◌,
  Bool-cases, true, inl, inr, none, some, some-injective, Option-cases, ◌↔◌, List, [], ◌∷◌, length,
  ltb, leb, leb→le, ltb→lt, arith, if◌then◌else◌,
}
use zvchain.Epoch.{start, end, epoch_at, equal}
use zvchain.Checkpoint.{
  calc_checkpoint_by_db, get_group_votes, set_group_votes, sort_in, sort, valid_votes, get_elem?,
  threshold_vote,
}

-- Every vote fits a uint16.
abbrev pub AreUint16 : List ℕ → Type 0
AreUint16 [] = Unit {0}
AreUint16 (v ∷ vs) = (v < 65536) × AreUint16 vs

split_uint16 : (v : ℕ) → v < 65536 → v / 256 % 256 * 256 + v % 256 ≡ v
split_uint16 v h = omega (arith, h)

-- What is written of votes that fit a uint16 is read back.
pub get_group_votes-set_group_votes :
    (vs : List ℕ) → AreUint16 vs → get_group_votes (set_group_votes vs) ≡ some vs
unfolding get_group_votes set_group_votes
get_group_votes-set_group_votes [] h = refl
get_group_votes-set_group_votes (v ∷ vs) h =
    rw (get_group_votes-set_group_votes vs h.1, split_uint16 v h.0) refl

-- How many votes are at least n.
unfoldable pub count_from : ℕ → List ℕ → ℕ
count_from n [] = 0
count_from n (v ∷ vs) = if leb n v then suc (count_from n vs) else count_from n vs

abbrev AllFrom : ℕ → List ℕ → Type 0
AllFrom n [] = Unit {0}
AllFrom n (v ∷ vs) = (n ≤ v) × AllFrom n vs

abbrev Sorted : List ℕ → Type 0
Sorted [] = Unit {0}
Sorted (v ∷ vs) = AllFrom v vs × Sorted vs

AllFrom-mono : (n m : ℕ) (vs : List ℕ) → n ≤ m → AllFrom m vs → AllFrom n vs
AllFrom-mono n m [] l h = tt
AllFrom-mono n m (v ∷ vs) l h = (omega (arith, l, h.0), AllFrom-mono n m vs l h.1)

sort_in-AllFrom : (n x : ℕ) (vs : List ℕ) → n ≤ x → AllFrom n vs → AllFrom n (sort_in x vs)
sort_in-AllFrom n x [] l h = (l, tt)
sort_in-AllFrom n x (v ∷ vs) l h = elim (Bool-cases (leb x v)) [
  | inl e ↦ rw e (l, (h.0, h.1))
  | inr e ↦ rw e (h.0, sort_in-AllFrom n x vs l h.1)
]

sort_in-Sorted : (x : ℕ) (vs : List ℕ) → Sorted vs → Sorted (sort_in x vs)
sort_in-Sorted x [] h = (tt, tt)
sort_in-Sorted x (v ∷ vs) h = elim (Bool-cases (leb x v)) [
  | inl e ↦ rw e ((leb→le x v e, AllFrom-mono x v vs (leb→le x v e) h.0), (h.0, h.1))
  | inr e ↦ rw e (sort_in-AllFrom v x vs (ground arith) h.0, sort_in-Sorted x vs h.1)
]

sort-Sorted : (vs : List ℕ) → Sorted (sort vs)
unfolding sort
sort-Sorted [] = tt
sort-Sorted (v ∷ vs) = sort_in-Sorted v (sort vs) (sort-Sorted vs)

count_from-sort_in : (n x : ℕ) (vs : List ℕ) → count_from n (sort_in x vs) ≡ count_from n (x ∷ vs)
unfolding count_from
count_from-sort_in n x [] = refl
count_from-sort_in n x (v ∷ vs) = ground (arith, count_from-sort_in n x vs)

count_from-sort : (n : ℕ) (vs : List ℕ) → count_from n (sort vs) ≡ count_from n vs
unfolding count_from sort
count_from-sort n [] = refl
count_from-sort n (v ∷ vs) = count_from-sort_in n v (sort vs) ∙ ground (arith, count_from-sort n vs)

count_from-length : (n : ℕ) (vs : List ℕ) → count_from n vs ≤ length vs
unfolding count_from
count_from-length n [] = omega arith
count_from-length n (v ∷ vs) = ground (arith, count_from-length n vs)

AllFrom-count_from : (n : ℕ) (vs : List ℕ) → AllFrom n vs → count_from n vs ≡ length vs
unfolding count_from
AllFrom-count_from n [] h = refl
AllFrom-count_from n (v ∷ vs) h = ground (arith, AllFrom-count_from n vs h.1, h.0)

length-sort_in : (x : ℕ) (vs : List ℕ) → length (sort_in x vs) ≡ suc (length vs)
length-sort_in x [] = refl
length-sort_in x (v ∷ vs) = ground (arith, length-sort_in x vs)

length-sort : (vs : List ℕ) → length (sort vs) ≡ length vs
unfolding sort
length-sort [] = refl
length-sort (v ∷ vs) = length-sort_in v (sort vs) ∙ ap suc (length-sort vs)

get_elem?-AllFrom : (n v i : ℕ) (vs : List ℕ) → AllFrom n vs → get_elem? vs i ≡ some v → n ≤ v
unfolding get_elem?
get_elem?-AllFrom n v i [] h e = absurd (ground arith)
get_elem?-AllFrom n v zero (x ∷ vs) h e = ground (arith, h.0, e)
get_elem?-AllFrom n v (suc i) (x ∷ vs) h e = get_elem?-AllFrom n v i vs h.1 e

-- In a sorted list, the elements from an index on are those that are at least the one there.
get_elem?-Sorted :
    (v i : ℕ) (vs : List ℕ)
    → Sorted vs
    → get_elem? vs i ≡ some v
    → (length vs ≤ count_from v vs + i) × (count_from (suc v) vs + i < length vs)
unfolding get_elem? count_from
get_elem?-Sorted v i [] h e = absurd (ground arith)
get_elem?-Sorted v zero (x ∷ vs) h e =
    ground (arith, e, AllFrom-count_from x vs h.0, count_from-length (suc v) vs)
get_elem?-Sorted v (suc i) (x ∷ vs) h e =
    ground (arith, get_elem?-Sorted v i vs h.1 e, get_elem?-AllFrom x v i vs h.0 e)

count_from-valid_votes :
    (n : ℕ) (vs : List ℕ) → count_from (suc n) (valid_votes vs) ≡ count_from (suc n) vs
unfolding count_from
count_from-valid_votes n [] = refl
count_from-valid_votes n (v ∷ vs) = ground (arith, count_from-valid_votes n vs)

count_from_valid_le : (n : ℕ) (vs : List ℕ) → count_from n (valid_votes vs) ≤ count_from n vs
unfolding count_from
count_from_valid_le n [] = omega arith
count_from_valid_le n (v ∷ vs) = ground (arith, count_from_valid_le n vs)

length-valid_votes : (vs : List ℕ) → length (valid_votes vs) ≡ count_from 1 vs
unfolding count_from
length-valid_votes [] = refl
length-valid_votes (v ∷ vs) = ground (arith, length-valid_votes vs)

-- At least `threshold` votes reach the vote that is picked, and fewer go beyond it.
pub threshold_vote-Reached :
    (threshold v : ℕ) (votes : List ℕ)
    → threshold_vote threshold votes ≡ some v
    → 0 < threshold
    → (threshold ≤ count_from v votes) × (count_from (suc v) votes < threshold)
unfolding threshold_vote
threshold_vote-Reached threshold v votes h l =
    let valid = valid_votes votes in
    elim (Bool-cases (leb threshold (length valid))) [
      | inl e ↦
          let p =
            get_elem?-Sorted v (length valid - threshold) (sort valid) (sort-Sorted valid)
              (rw e at (h)) in
          omega (
            arith,
            p.0,
            p.1,
            length-sort valid,
            count_from-sort v valid,
            count_from-sort (suc v) valid,
            count_from-valid_votes v votes,
            count_from_valid_le v votes,
            leb→le threshold (length valid) e,
            l,
          )
      | inr e ↦ absurd (ground (arith, h, e))
    ]

same_epoch : (n : ℕ) → equal (epoch_at n) (epoch_at n) ≡ true
unfolding equal epoch_at end start
same_epoch n = ground arith

calc-none :
    (votes : List ℕ) (at threshold : ℕ)
    → AreUint16 votes
    → 0 < threshold
    → threshold_vote threshold votes ≡ none
    → calc_checkpoint_by_db
        (record { votes = set_group_votes votes; epoch_start = at })
        (epoch_at at)
        threshold
      ≡ some none
unfolding calc_checkpoint_by_db
calc-none votes at threshold u l e =
    let positive : (threshold == 0) ≡ false = ground (arith, l) in
    rw (calc_checkpoint_by_db, same_epoch at, get_group_votes-set_group_votes votes u, positive, e)
      refl

pub calc-some :
    (votes : List ℕ) (at threshold v : ℕ)
    → AreUint16 votes
    → 0 < threshold
    → threshold_vote threshold votes ≡ some v
    → calc_checkpoint_by_db
        (record { votes = set_group_votes votes; epoch_start = at })
        (epoch_at at)
        threshold
      ≡ some (some (v + start (epoch_at at) - 1))
unfolding calc_checkpoint_by_db
calc-some votes at threshold v u l e =
    let positive : (threshold == 0) ≡ false = ground (arith, l) in
    rw (calc_checkpoint_by_db, same_epoch at, get_group_votes-set_group_votes votes u, positive, e)
      refl

valid_votes-AllFrom : (vs : List ℕ) → AllFrom 1 (valid_votes vs)
valid_votes-AllFrom [] = tt
valid_votes-AllFrom (v ∷ vs) = elim (Bool-cases (ltb 0 v)) [
  | inl e ↦ rw e (ltb→lt 0 v e, valid_votes-AllFrom vs)
  | inr e ↦ rw e (valid_votes-AllFrom vs)
]

sort-AllFrom : (n : ℕ) (vs : List ℕ) → AllFrom n vs → AllFrom n (sort vs)
unfolding sort
sort-AllFrom n [] h = tt
sort-AllFrom n (v ∷ vs) h = sort_in-AllFrom n v (sort vs) h.0 (sort-AllFrom n vs h.1)

get_elem?-some : (i : ℕ) (vs : List ℕ) → i < length vs → get_elem? vs i ≢ none
unfolding get_elem?
get_elem?-some i [] l e = omega (arith, l)
get_elem?-some zero (v ∷ vs) l e = ground (arith, e)
get_elem?-some (suc i) (v ∷ vs) l e = get_elem?-some i vs (omega (arith, l)) e

threshold_vote-enough :
    (threshold v : ℕ) (votes : List ℕ)
    → threshold_vote threshold votes ≡ some v
    → threshold ≤ count_from 1 votes
unfolding threshold_vote
threshold_vote-enough threshold v votes h =
    elim (Bool-cases (leb threshold (length (valid_votes votes)))) [
      | inl e ↦
          omega (arith, leb→le threshold (length (valid_votes votes)) e, length-valid_votes votes)
      | inr e ↦ absurd (ground (arith, h, e))
    ]

threshold_vote-positive :
    (threshold v : ℕ) (votes : List ℕ) → threshold_vote threshold votes ≡ some v → 1 ≤ v
unfolding threshold_vote
threshold_vote-positive threshold v votes h =
    let valid = valid_votes votes in
    elim (Bool-cases (leb threshold (length valid))) [
      | inl e ↦
          get_elem?-AllFrom 1 v (length valid - threshold) (sort valid)
            (sort-AllFrom 1 valid (valid_votes-AllFrom votes)) (rw e at (h))
      | inr e ↦ absurd (ground (arith, h, e))
    ]

pub threshold_vote-none :
    (threshold : ℕ) (votes : List ℕ)
    → threshold_vote threshold votes ≡ none
    → 0 < threshold
    → count_from 1 votes < threshold
unfolding threshold_vote
threshold_vote-none threshold votes h l =
    let valid = valid_votes votes in
    elim (Bool-cases (leb threshold (length valid))) [
      | inl e ↦ absurd (
          get_elem?-some (length valid - threshold) (sort valid)
            (omega (arith, l, leb→le threshold (length valid) e, length-sort valid)) (rw e at (h)))
      | inr e ↦ ground (arith, e, length-valid_votes votes)
    ]

shift_back : (v s c : ℕ) → 1 ≤ v → v + s - 1 ≡ c → c + 1 - s ≡ v
shift_back v s c h e = omega (arith, h, e)

shift_past : (v s c : ℕ) → 1 ≤ v → v + s - 1 ≡ c → c + 2 - s ≡ suc v
shift_past v s c h e = omega (arith, h, e)

-- Votes as updates cast them, offsets in an epoch of 240 heights and one.
abbrev pub AreOffsets : List ℕ → Type 0
AreOffsets [] = Unit {0}
AreOffsets (v ∷ vs) = (v ≤ 240) × AreOffsets vs

offsets-AreUint16 : (vs : List ℕ) → AreOffsets vs → AreUint16 vs
offsets-AreUint16 [] h = tt
offsets-AreUint16 (v ∷ vs) (h, rest) = (omega (arith, h), offsets-AreUint16 vs rest)

count_from-AreOffsets : (n : ℕ) (vs : List ℕ) → AreOffsets vs → 0 < count_from n vs → n ≤ 240
unfolding count_from
count_from-AreOffsets n [] h p = absurd (ground (arith, p))
count_from-AreOffsets n (v ∷ vs) (h, rest) p = ground (arith, h, p, count_from-AreOffsets n vs rest)

within : (c s n : ℕ) → 0 < n → n ≤ 240 → c + 1 - s ≡ n → (s ≤ c) × (c < s + 240)
within c s n p h e = (omega (arith, p, e), omega (arith, h, e))

-- From votes of an epoch, offsets of heights in it and one, and for a positive threshold, the
-- checkpoint is a height of the epoch, which the last blocks of at least `threshold` groups reach,
-- and those of fewer pass.
pub calc_checkpoint_by_db-Reached :
    (votes : List ℕ) (at threshold c : ℕ)
    → AreOffsets votes
    → 0 < threshold
    → calc_checkpoint_by_db
        (record { votes = set_group_votes votes; epoch_start = at })
        (epoch_at at)
        threshold
      ≡ some (some c)
    → (start (epoch_at at) ≤ c)
      × (c < start (epoch_at at) + 240)
      × (threshold ≤ count_from (c + 1 - start (epoch_at at)) votes)
      × (count_from (c + 2 - start (epoch_at at)) votes < threshold)
unfolding calc_checkpoint_by_db
calc_checkpoint_by_db-Reached votes at threshold c offsets l h =
    let u = offsets-AreUint16 votes offsets in
    elim (Option-cases (threshold_vote threshold votes)) [
      | inl n ↦ absurd (ground (arith, h, calc-none votes at threshold u l n))
      | inr (v, e) ↦
          let p = threshold_vote-Reached threshold v votes e l in
          let z = threshold_vote-positive threshold v votes e in
          let k = calc-some votes at threshold v u l e in
          let d : v + start (epoch_at at) - 1 ≡ c =
            some-injective (v + start (epoch_at at) - 1) c
              (some-injective (some (v + start (epoch_at at) - 1)) (some c) (sym k ∙ h)) in
          let back = shift_back v (start (epoch_at at)) c z d in
          let low = count_from-AreOffsets v votes offsets (omega (arith, l, p.0)) in
          let (from, to) = within c (start (epoch_at at)) v z low back in
          let (reach, pass) : (threshold ≤ count_from (c + 1 - start (epoch_at at)) votes)
              × (count_from (c + 2 - start (epoch_at at)) votes < threshold) =
            rw (back, shift_past v (start (epoch_at at)) c z d) p in
          (from, to, reach, pass)
    ]

-- From votes that fit a uint16, a checkpoint is found exactly when enough groups have voted.
pub calc_checkpoint_by_db_iff :
    (votes : List ℕ) (at threshold : ℕ)
    → AreUint16 votes
    → 0 < threshold
    → (calc_checkpoint_by_db
          (record { votes = set_group_votes votes; epoch_start = at })
          (epoch_at at)
          threshold
        ≡ some none)
      ↔ (count_from 1 votes < threshold)
unfolding calc_checkpoint_by_db
calc_checkpoint_by_db_iff votes at threshold u l =
    elim (Option-cases (threshold_vote threshold votes)) [
      | inl n ↦ (
        (λ _. threshold_vote-none threshold votes n l),
        (λ _. calc-none votes at threshold u l n),
      )
      | inr (v, e) ↦
          let p = threshold_vote-enough threshold v votes e in
          (
            (λ h. absurd (ground (arith, h, calc-some votes at threshold v u l e))),
            (λ h. absurd (omega (arith, h, p))),
          )
    ]
