-- ===== src/Checkpoint/Update.antt =====
-- What `updateVotes` writes.
use zvchain.Base.{
  ℕ, zero, suc, ◌+◌, ◌-◌, ◌<◌, ◌≡◌, refl, sym, ap, ◌∙◌, Bool-cases, true, false, inl, inr, none,
  some, some-injective, Option-cases, List, [], ◌∷◌, length, arith, ◌==◌, ==_iff, u64_mod, Bool,
  leb, if◌then◌else◌, ◌⊎◌, mul64_exact, ◌/◌,
}
use zvchain.Base.Map.{lookup, nat_key}
use zvchain.Epoch.{start, next, equal, epoch_at, epoch_length}
use zvchain.Checkpoint.{
  Querier, CpContext, CpDb, Header, Ballot, group_size, get_group_votes, set_group_votes, set_vote,
  vote_of, load_votes, cast_vote, update_votes, get_elem?, zeros, new_cp_context,
}
use zvchain.Checkpoint.Votes.{AreUint16, get_group_votes-set_group_votes}

-- The votes ws are vs with v at i.
pub record Placed (i v : ℕ) (vs ws : List ℕ) : Type 0 where
  pub here : get_elem? ws i ≡ some v
  pub others : (j : ℕ) → (j == i) ≡ false → get_elem? ws j ≡ get_elem? vs j
  pub same_length : length ws ≡ length vs

set_vote-some :
    (i v w : ℕ) (vs xs : List ℕ)
    → set_vote i v vs ≡ some xs
    → set_vote (suc i) v (w ∷ vs) ≡ some (w ∷ xs)
unfolding set_vote
set_vote-some i v w vs xs h = rw (set_vote, h) refl

set_vote-none :
    (i v w : ℕ) (vs : List ℕ) → set_vote i v vs ≡ none → set_vote (suc i) v (w ∷ vs) ≡ none
unfolding set_vote
set_vote-none i v w vs h = rw (set_vote, h) refl

others_zero :
    (v w : ℕ) (vs : List ℕ) (j : ℕ) → (j == 0) ≡ false → get_elem? (v ∷ vs) j ≡ get_elem? (w ∷ vs) j
unfolding get_elem?
others_zero v w vs zero e = absurd (ground arith)
others_zero v w vs (suc j) e = refl

others_suc :
    (w i : ℕ) (xs vs : List ℕ)
    → ((j : ℕ) → (j == i) ≡ false → get_elem? xs j ≡ get_elem? vs j)
    → (j : ℕ) → (j == suc i) ≡ false
    → get_elem? (w ∷ xs) j ≡ get_elem? (w ∷ vs) j
unfolding get_elem?
others_suc w i xs vs f zero e = refl
others_suc w i xs vs f (suc j) e = f j (ground arith)

set_vote-Placed :
    (i v : ℕ) (vs ws : List ℕ)
    → v < 65536
    → AreUint16 vs
    → set_vote i v vs ≡ some ws
    → Placed i v vs ws × AreUint16 ws
unfolding set_vote get_elem?
set_vote-Placed i v [] ws l u h = absurd (ground arith)
set_vote-Placed zero v (w ∷ vs) ws l u h =
    rw⁻¹ (some-injective (v ∷ vs) ws h)
      (record { here = refl; others = others_zero v w vs; same_length = refl }, (l, u.1))
set_vote-Placed (suc i) v (w ∷ vs) ws l u h = elim (Option-cases (set_vote i v vs)) [
  | inl n ↦ absurd (ground (arith, h, set_vote-none i v w vs n))
  | inr (xs, e) ↦
      let (p, q) = set_vote-Placed i v vs xs l u.1 e in
      rw⁻¹ (some-injective (w ∷ xs) ws (sym (set_vote-some i v w vs xs e) ∙ h)) (
        record {
          here = p.here;
          others = others_suc w i xs vs p.others;
          same_length = ap suc p.same_length;
        },
        (u.0, q),
      )
]

-- The offset of a height in its epoch.
offset : (h : ℕ) → h < u64_mod → h - start (epoch_at h) < 240
unfolding start epoch_at
offset h l = rw (mul64_exact (h / epoch_length) epoch_length (omega (arith, l))) (omega arith)

vote_of_exact :
    (bh : Header) → bh.height < u64_mod → vote_of bh ≡ bh.height - start (epoch_at bh.height) + 1
vote_of_exact bh l = omega (arith, offset bh.height l)

-- What an update has written: the context, the votes before it, and the place of the block's group.
pub record Voted (bh : Header) (b : Ballot) (c : CpContext) (d : CpDb) : Type 0 where
  pub place : ℕ
  pub votes : List ℕ
  pub of_group : lookup bh.group b.context.group_indexes ≡ some place
  pub read_back : get_group_votes d.votes ≡ some votes
  pub placed : Placed place (bh.height - start (epoch_at bh.height) + 1) b.votes votes
  pub sized : length votes ≡ group_size b.context
  pub same_context : c ≡ b.context
  pub same_start : d.epoch_start ≡ b.epoch_start

update-cast :
    (q : Querier) (ctx : CpContext) (bh : Header) (db : CpDb) (b : Ballot)
    → load_votes q ctx bh db ≡ some b
    → update_votes q ctx bh db ≡ cast_vote bh b
unfolding update_votes
update-cast q ctx bh db b e = rw (update_votes, e) refl

module _ (bh : Header) (b : Ballot) where
  cast-unknown : lookup bh.group b.context.group_indexes ≡ none → cast_vote bh b ≡ none
  unfolding cast_vote
  cast-unknown n = rw (cast_vote, n) refl

  cast-uneven :
      (i : ℕ)
      → lookup bh.group b.context.group_indexes ≡ some i
      → (length b.votes == group_size b.context) ≡ false
      → cast_vote bh b ≡ none
  unfolding cast_vote
  cast-uneven i k m = rw (cast_vote, k, m) refl

  cast-out :
      (i : ℕ)
      → lookup bh.group b.context.group_indexes ≡ some i
      → (length b.votes == group_size b.context) ≡ true
      → set_vote i (vote_of bh) b.votes ≡ none
      → cast_vote bh b ≡ none
  unfolding cast_vote
  cast-out i k m n = rw (cast_vote, k, m, n) refl

  cast-in :
      (i : ℕ) (ws : List ℕ)
      → lookup bh.group b.context.group_indexes ≡ some i
      → (length b.votes == group_size b.context) ≡ true
      → set_vote i (vote_of bh) b.votes ≡ some ws
      → cast_vote bh b
        ≡ some (b.context, record { votes = set_group_votes ws; epoch_start = b.epoch_start })
  unfolding cast_vote
  cast-in i ws k m w = rw (cast_vote, k, m, w) refl

  Cast-Voted :
      (c : CpContext) (d : CpDb) (i : ℕ) (ws : List ℕ)
      → bh.height < u64_mod
      → AreUint16 b.votes
      → lookup bh.group b.context.group_indexes ≡ some i
      → (length b.votes == group_size b.context) ≡ true
      → set_vote i (vote_of bh) b.votes ≡ some ws
      → cast_vote bh b ≡ some (c, d)
      → Voted bh b c d
  Cast-Voted c d i ws l u k m w h =
      let written : CpDb = record { votes = set_group_votes ws; epoch_start = b.epoch_start } in
      let same = some-injective (b.context, written) (c, d) (sym (cast-in i ws k m w) ∙ h) in
      let (p, q) =
        set_vote-Placed i (vote_of bh) b.votes ws (omega (arith, offset bh.height l)) u w in
      record {
        place = i;
        votes = ws;
        of_group = k;
        read_back =
            ap (λ x. get_group_votes x.1.votes) (sym same) ∙ get_group_votes-set_group_votes ws q;
        placed = rw⁻¹ (vote_of_exact bh l) p;
        sized = p.same_length ∙ (==_iff (length b.votes) (group_size b.context)).0 m;
        same_context = sym (ap (λ x. x.0) same);
        same_start = sym (ap (λ x. x.1.epoch_start) same);
      }

Loaded-Voted :
    (q : Querier) (ctx c : CpContext) (bh : Header) (db d : CpDb) (b : Ballot)
    → bh.height < u64_mod
    → load_votes q ctx bh db ≡ some b
    → AreUint16 b.votes
    → update_votes q ctx bh db ≡ some (c, d)
    → Voted bh b c d
Loaded-Voted q ctx c bh db d b l e u h =
    let cast = sym (update-cast q ctx bh db b e) ∙ h in
    elim (Option-cases (lookup bh.group b.context.group_indexes)) [
      | inl n ↦ absurd (ground (arith, cast, cast-unknown bh b n))
      | inr (i, k) ↦ elim (Bool-cases (length b.votes == group_size b.context)) [
        | inr m ↦ absurd (ground (arith, cast, cast-uneven bh b i k m))
        | inl m ↦ elim (Option-cases (set_vote i (vote_of bh) b.votes)) [
          | inl n ↦ absurd (ground (arith, cast, cast-out bh b i k m n))
          | inr (ws, w) ↦ Cast-Voted bh b c d i ws l u k m w cast
        ]
      ]
    ]

-- The groups that are active in the epoch of a block.
abbrev pub context_of : Querier → Header → CpContext
context_of q bh = new_cp_context (epoch_at bh.height) (q.groups_at (start (epoch_at bh.height)))

-- The account's epoch is over when the block's begins.
abbrev pub is_over : Header → CpDb → Bool
is_over bh db = leb (start (next (epoch_at db.epoch_start))) (start (epoch_at bh.height))

-- From a new epoch on, no group has voted.
abbrev pub blank : Querier → Header → Ballot
blank q bh = record {
  context = context_of q bh;
  votes = zeros (group_size (context_of q bh));
  epoch_start = start (epoch_at bh.height);
}

-- Within an epoch, the votes are those of the account.
abbrev pub standing : Querier → CpContext → Header → CpDb → List ℕ → Ballot
standing q ctx bh db vs = record {
  context = if equal (epoch_at bh.height) ctx.epoch then ctx else context_of q bh;
  votes = vs;
  epoch_start = db.epoch_start;
}

zeros-AreUint16 : (n : ℕ) → AreUint16 (zeros n)
zeros-AreUint16 zero = tt
zeros-AreUint16 (suc n) = (omega arith, zeros-AreUint16 n)

-- How an update goes through: over no votes in a new epoch, over the stored ones in the same.
abbrev pub Updated : Querier → CpContext → Header → CpDb → CpContext → CpDb → Type 0
Updated q ctx bh db c d =
    ((is_over bh db ≡ true) × Voted bh (blank q bh) c d)
    ⊎ ((vs : List ℕ) × (equal (epoch_at bh.height) (epoch_at db.epoch_start) ≡ true)
        × (get_group_votes db.votes ≡ some vs)
        × Voted bh (standing q ctx bh db vs) c d)

module _ (q : Querier) (ctx : CpContext) (bh : Header) (db : CpDb) where
  load-over : is_over bh db ≡ true → load_votes q ctx bh db ≡ some (blank q bh)
  unfolding load_votes
  load-over o = rw (load_votes, o) refl

  load-standing :
      (vs : List ℕ)
      → is_over bh db ≡ false
      → equal (epoch_at bh.height) (epoch_at db.epoch_start) ≡ true
      → get_group_votes db.votes ≡ some vs
      → load_votes q ctx bh db ≡ some (standing q ctx bh db vs)
  unfolding load_votes
  load-standing vs o s e = rw (load_votes, o, s, e) refl

  load-elsewhere :
      is_over bh db ≡ false
      → equal (epoch_at bh.height) (epoch_at db.epoch_start) ≡ false
      → load_votes q ctx bh db ≡ none
  unfolding load_votes
  load-elsewhere o s = rw (load_votes, o, s) refl

  load-torn :
      is_over bh db ≡ false
      → equal (epoch_at bh.height) (epoch_at db.epoch_start) ≡ true
      → get_group_votes db.votes ≡ none
      → load_votes q ctx bh db ≡ none
  unfolding load_votes
  load-torn o s e = rw (load_votes, o, s, e) refl

  not_updated :
      (c : CpContext) (d : CpDb)
      → load_votes q ctx bh db ≡ none
      → update_votes q ctx bh db ≡ some (c, d)
      → ⊥
  unfolding update_votes
  not_updated c d n h = ground (arith, rw (update_votes, n) at (h))

-- An update that goes through, at a uint64 height and from an account whose votes fit a uint16, sets
-- the vote of the block's group to the offset of the height in its epoch and one. Where the account's
-- epoch is over when the block's begins, all other groups have no vote, the context is that of the
-- groups of the new epoch, and the account is in it; else both epochs are the same, and the other
-- votes, the account's epoch and a context of that epoch stay. The votes are read back, one for each
-- group.
pub update_votes-Updated :
    (q : Querier) (ctx c : CpContext) (bh : Header) (db d : CpDb)
    → bh.height < u64_mod
    → ((vs : List ℕ) → get_group_votes db.votes ≡ some vs → AreUint16 vs)
    → update_votes q ctx bh db ≡ some (c, d)
    → Updated q ctx bh db c d
update_votes-Updated q ctx c bh db d l u h = elim (Bool-cases (is_over bh db)) [
  | inl o ↦ inl (
    o,
    Loaded-Voted q ctx c bh db d (blank q bh) l (load-over q ctx bh db o)
        (zeros-AreUint16 (group_size (context_of q bh))) h,
  )
  | inr o ↦ elim (Bool-cases (equal (epoch_at bh.height) (epoch_at db.epoch_start))) [
    | inr n ↦ absurd (not_updated q ctx bh db c d (load-elsewhere q ctx bh db o n) h)
    | inl s ↦ elim (Option-cases (get_group_votes db.votes)) [
      | inl n ↦ absurd (not_updated q ctx bh db c d (load-torn q ctx bh db o s n) h)
      | inr (vs, e) ↦ inr (
        vs,
        s,
        e,
        Loaded-Voted q ctx c bh db d (standing q ctx bh db vs) l
            (load-standing q ctx bh db vs o s e) (u vs e) h,
      )
    ]
  ]
]
