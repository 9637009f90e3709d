-- ===== src/Checkpoint/Agreement.antt =====
-- The votes of an epoch's groups count its blocks: the account and the blocks give one checkpoint.
use zvchain.Base.{
  ℕ, suc, ◌+◌, ◌-◌, ◌<◌, ◌≤◌, ◌≡◌, refl, sym, ap, ◌∙◌, Bool-cases, false, ◌||◌, inl, inr, none,
  some, some-injective, Option-cases, List, [], ◌∷◌, length, leb, leb→le, le→leb, ◌==◌, arith,
  if◌then◌else◌,
}
use zvchain.Base.Map.{Map, insert, nat_key}
use zvchain.Epoch.{Epoch, epoch_at, start}
use zvchain.Checkpoint.{
  Header, CpDb, count_groups, reverse_onto, set_group_votes, threshold_vote, calc_checkpoint_by_db,
  calc_checkpoint_by_blocks,
}
use zvchain.Checkpoint.Votes.{
  AreUint16, count_from, calc_checkpoint_by_db_iff, threshold_vote-Reached, threshold_vote-none,
  calc-some,
}
use zvchain.Checkpoint.Blocks.{groups_from, Falls, count_groups-Reached}
use zvchain.Checkpoint.Counting.{
  present, count_present, NoRepeat, Known, present-insert, groups_from-count,
}

-- The vote of a group: the offset of its newest block and one, or 0.
unfoldable pub last_vote : ℕ → ℕ → List Header → ℕ
last_vote s g [] = 0
last_vote s g (b ∷ bs) = if g == b.group then b.height - s + 1 else last_vote s g bs

unfoldable pub last_votes : ℕ → List ℕ → List Header → List ℕ
last_votes s [] bs = []
last_votes s (g ∷ gs) bs = last_vote s g bs ∷ last_votes s gs bs

-- No block lies below the start of the epoch.
abbrev pub AllAbove : ℕ → List Header → Type 0
AllAbove s [] = Unit {0}
AllAbove s (b ∷ bs) = (s ≤ b.height) × AllAbove s bs

present-below :
    (ep : Epoch) (s x g bound : ℕ) (bs : List Header)
    → Falls ep bound bs
    → AllAbove s bs
    → bound ≤ x
    → s ≤ x
    → leb (x - s + 1) (last_vote s g bs) ≡ false
unfolding last_vote
present-below ep s x g bound [] f a l k = ground arith
present-below ep s x g bound (b ∷ bs) f a l k =
    ground (
      arith,
      present-below ep s x g b.height bs f.1.1 a.1 (omega (arith, f.0, l)) k,
      f.0,
      a.0,
      l,
      k,
    )

present-groups_from :
    (ep : Epoch) (s x g bound : ℕ) (m : Map ℕ ℕ) (bs : List Header)
    → Falls ep bound bs
    → AllAbove s bs
    → s ≤ x
    → present g (groups_from x m bs) ≡ present g m || leb (x - s + 1) (last_vote s g bs)
unfolding groups_from last_vote
present-groups_from ep s x g bound m [] f a k = ground arith
present-groups_from ep s x g bound m (b ∷ bs) f a k = elim (Bool-cases (leb x b.height)) [
  | inl e ↦ rw e (
      ground (
        arith,
        present-groups_from ep s x g b.height (insert b.group 0 m) bs f.1.1 a.1 k,
        present-insert g b.group m,
        e,
        a.0,
        k,
      ))
  | inr e ↦ rw e (
      ground (
        arith,
        present-groups_from ep s x g b.height m bs f.1.1 a.1 k,
        present-below ep s x g b.height bs f.1.1 a.1,
        e,
        a.0,
        k,
      ))
]

count_present_empty : (gs : List ℕ) → count_present gs [] ≡ 0
unfolding count_present present
count_present_empty [] = refl
count_present_empty (g ∷ gs) = count_present_empty gs

module _ (ep : Epoch) (s bound : ℕ) (bs : List Header) (falls : Falls ep bound bs)
    (above : AllAbove s bs) where
  count_from-present :
      (x : ℕ) (gs : List ℕ)
      → s ≤ x
      → count_from (x - s + 1) (last_votes s gs bs) ≡ count_present gs (groups_from x [] bs)
  unfolding count_from count_present last_votes present
  count_from-present x [] k = refl
  count_from-present x (g ∷ gs) k =
      ground
        (arith, count_from-present x gs k, present-groups_from ep s x g bound [] bs falls above k)

  -- As many votes reach a height as groups have a block from it on.
  pub count_from-groups_from :
      (x : ℕ) (gs : List ℕ)
      → s ≤ x
      → NoRepeat gs
      → Known gs bs
      → count_from (x - s + 1) (last_votes s gs bs) ≡ length (groups_from x [] bs)
  count_from-groups_from x gs k n w =
      count_from-present x gs k
      ∙ sym (groups_from-count x gs [] bs n w (sym (count_present_empty gs)))

count_groups-above :
    (ep : Epoch) (s threshold c bound : ℕ) (seen : Map ℕ ℕ) (bs : List Header)
    → AllAbove s bs
    → Falls ep bound bs
    → count_groups ep threshold seen bs ≡ some c
    → s ≤ c
unfolding count_groups
count_groups-above ep s threshold c bound seen [] a f e = absurd (ground arith)
count_groups-above ep s threshold c bound seen (b ∷ bs) a f e =
    elim (Bool-cases (leb threshold (length (insert b.group 0 seen)))) [
      | inl k ↦ omega (arith, a.0, some-injective b.height c (rw (f.1.0, k) at (e)))
      | inr k ↦
          count_groups-above ep s threshold c b.height (insert b.group 0 seen) bs a.1 f.1.1
            (rw (f.1.0, k) at (e))
    ]

count_groups-none :
    (ep : Epoch) (s threshold bound : ℕ) (seen : Map ℕ ℕ) (bs : List Header)
    → AllAbove s bs
    → Falls ep bound bs
    → length seen < threshold
    → count_groups ep threshold seen bs ≡ none
    → length (groups_from s seen bs) < threshold
unfolding count_groups groups_from
count_groups-none ep s threshold bound seen [] a f l e = l
count_groups-none ep s threshold bound seen (b ∷ bs) a f l e =
    elim (Bool-cases (leb threshold (length (insert b.group 0 seen)))) [
      | inl k ↦ absurd (ground (arith, rw (f.1.0, k) at (e)))
      | inr k ↦ rw (le→leb s b.height a.0) (
          count_groups-none ep s threshold b.height (insert b.group 0 seen) bs a.1 f.1.1
            (ground (arith, k)) (rw (f.1.0, k) at (e)))
    ]

count_from-falls : (n m : ℕ) (vs : List ℕ) → n ≤ m → count_from m vs ≤ count_from n vs
unfolding count_from
count_from-falls n m [] l = omega arith
count_from-falls n m (v ∷ vs) l = ground (arith, count_from-falls n m vs l)

-- The height that enough votes reach and too few pass is one.
unique :
    (vs : List ℕ) (threshold v w : ℕ)
    → threshold ≤ count_from v vs
    → count_from (suc v) vs < threshold
    → threshold ≤ count_from w vs
    → count_from (suc w) vs < threshold
    → v ≡ w
unique vs threshold v w a b c d = elim (Bool-cases (leb v w)) [
  | inl e ↦ elim (Bool-cases (leb w v)) [
    | inl f ↦ omega (arith, leb→le v w e, leb→le w v f)
    | inr f ↦ absurd (omega (arith, count_from-falls (suc v) w vs (ground (arith, e, f)), b, c))
  ]
  | inr e ↦ absurd (omega (arith, count_from-falls (suc w) v vs (ground (arith, e)), a, d))
]

same_start : (s : ℕ) → s - s + 1 ≡ 1
same_start s = omega arith

past_start : (d s : ℕ) → s ≤ d → suc d - s + 1 ≡ suc (d - s + 1)
past_start d s l = omega (arith, l)

count_few :
    (s n threshold : ℕ) (votes : List ℕ)
    → count_from (s - s + 1) votes ≡ n
    → n < threshold
    → count_from 1 votes < threshold
count_few s n threshold votes e l = omega (arith, ap (λ x. count_from x votes) (same_start s), e, l)

-- The blocks of an epoch in the order of their heights, each of one of its groups, and the votes
-- that they cast.
pub record Cast (at bound : ℕ) (gs : List ℕ) (blocks : List Header) : Type 0 where
  pub falls : Falls (epoch_at at) bound (reverse_onto blocks [])
  pub above : AllAbove (start (epoch_at at)) (reverse_onto blocks [])
  pub known : Known gs (reverse_onto blocks [])
  pub distinct : NoRepeat gs
  pub fits : AreUint16 (last_votes (start (epoch_at at)) gs (reverse_onto blocks []))

abbrev pub cast_db : ℕ → List ℕ → List Header → CpDb
cast_db at gs blocks = record {
  votes = set_group_votes (last_votes (start (epoch_at at)) gs (reverse_onto blocks []));
  epoch_start = at;
}

-- For the blocks of an epoch and the votes that they cast, and for a positive threshold, the account
-- and the blocks give the same checkpoint, or none both.
pub calc_checkpoint_by_db-calc_checkpoint_by_blocks :
    (at bound threshold : ℕ) (gs : List ℕ) (blocks : List Header)
    → Cast at bound gs blocks
    → 0 < threshold
    → calc_checkpoint_by_db (cast_db at gs blocks) (epoch_at at) threshold
      ≡ some (calc_checkpoint_by_blocks blocks (epoch_at at) threshold)
unfolding calc_checkpoint_by_blocks
calc_checkpoint_by_db-calc_checkpoint_by_blocks at bound threshold gs blocks k l =
    let s = start (epoch_at at) in
    let bs = reverse_onto blocks [] in
    let votes = last_votes s gs bs in
    let counts = count_from-groups_from (epoch_at at) s bound bs k.falls k.above in
    elim (Option-cases (count_groups (epoch_at at) threshold [] bs)) [
      | inl n ↦
          let few =
            count_groups-none (epoch_at at) s threshold bound [] bs k.above k.falls
              (omega (arith, l)) n in
          let all = counts s gs (omega arith) k.distinct k.known in
          rw n (
            (calc_checkpoint_by_db_iff votes at threshold k.fits l).1
              (count_few s (length (groups_from s [] bs)) threshold votes all few))
      | inr (d, n) ↦
          let reached =
            count_groups-Reached (epoch_at at) threshold bound d [] bs k.falls (omega (arith, l))
              n in
          let low = count_groups-above (epoch_at at) s threshold d bound [] bs k.above k.falls n in
          let here = counts d gs low k.distinct k.known in
          let past = counts (suc d) gs (omega (arith, low)) k.distinct k.known in
          elim (Option-cases (threshold_vote threshold votes)) [
            | inl z ↦ absurd (
                omega (
                  arith,
                  threshold_vote-none threshold votes z l,
                  count_from-falls 1 (d - s + 1) votes (omega arith),
                  here,
                  reached.enough,
                ))
            | inr (v, z) ↦
                let (a, b) = threshold_vote-Reached threshold v votes z l in
                let e = unique votes threshold v (d - s + 1) a b (rw here reached.enough) (
                  omega (
                    arith,
                    ap (λ x. count_from x votes) (past_start d s low),
                    past,
                    reached.too_few,
                  )) in
                calc-some votes at threshold v k.fits l z
                ∙ rw n (ap some (ap some (omega (arith, e, low))))
          ]
    ]
