-- ===== src/Checkpoint/Tests.antt =====
-- Checkpoints of small epochs, and the theorems at them.
use zvchain.Base.{
  some-injective, sym, ◌∙◌, ℕ, ◌+◌, ◌-◌, ◌<◌, ◌≤◌, ◌≡◌, ◌↔◌, refl, false, none, some, List, [], ◌∷◌,
  ltb, if◌then◌else◌, arith,
}
use zvchain.Epoch.{epoch_at, start, end, equal, next}
use zvchain.Checkpoint.{
  Header, CpDb, opened, missing_node, Querier, CpContext, new_cp_context, index_groups,
  get_group_votes, set_group_votes, load_votes, cast_vote, update_votes, set_vote,
  calc_checkpoint_by_db, calc_checkpoint_by_blocks, reverse_onto, count_groups, threshold_vote,
  sort, get_elem?, scan, turn, checkpoint_at, found,
}
use zvchain.Checkpoint.Votes.{
  get_group_votes-set_group_votes, AreUint16, count_from, calc_checkpoint_by_db-Reached,
  calc_checkpoint_by_db_iff,
}
use zvchain.Checkpoint.Scan.{is_spent, checkpoint_at-ends}
use zvchain.Checkpoint.Blocks.{Reached, calc_checkpoint_by_blocks-Reached}
use zvchain.Checkpoint.Counting.{has}
use zvchain.Checkpoint.Agreement.{
  Cast, cast_db, calc_checkpoint_by_db-calc_checkpoint_by_blocks, last_vote, last_votes,
}
use zvchain.Checkpoint.Update.{Updated, update_votes-Updated}

-- Ten groups, whose votes in the epoch from height 240 on are these.
abbrev groups : List ℕ
groups = 11 ∷ 12 ∷ 13 ∷ 14 ∷ 15 ∷ 16 ∷ 17 ∷ 18 ∷ 19 ∷ 20 ∷ []

abbrev cast : List ℕ
cast = 5 ∷ 0 ∷ 9 ∷ 3 ∷ 240 ∷ 7 ∷ 0 ∷ 12 ∷ 4 ∷ 1 ∷ []

abbrev voted_db : CpDb
voted_db = record { votes = set_group_votes cast; epoch_start = 240 }

abbrev chain : Querier
chain = record {
  groups_at = λ _. groups;
  height = 600;
  account_db_at = λ h. if ltb h 480 then opened voted_db else missing_node;
  floor = λ h. h;
  headers_between = λ _ _. [];
}

by_db_run : calc_checkpoint_by_db voted_db (epoch_at 240) 7 ≡ some (some 242)
unfolding calc_checkpoint_by_db equal epoch_at end start get_group_votes set_group_votes
    threshold_vote sort get_elem?
by_db_run = refl

abbrev blocks : List Header
blocks =
    record { height = 241; group = 1 }
    ∷ record { height = 242; group = 2 }
    ∷ record { height = 243; group = 2 }
    ∷ []

by_blocks_run : calc_checkpoint_by_blocks blocks (epoch_at 240) 2 ≡ some 241
unfolding calc_checkpoint_by_blocks count_groups equal epoch_at end start
by_blocks_run = refl

calc_checkpoint_by_blocks-Reached_example :
    Reached (epoch_at 240) 2 244 [] (reverse_onto blocks []) 241
unfolding equal epoch_at end start
calc_checkpoint_by_blocks-Reached_example =
    calc_checkpoint_by_blocks-Reached (epoch_at 240) 2 244 241 blocks
      (omega arith, (refl, (omega arith, (refl, (omega arith, (refl, tt)))))) (omega arith)
      by_blocks_run

scan_run : checkpoint_at chain 12 400 ≡ found 242
unfolding checkpoint_at scan turn new_cp_context index_groups calc_checkpoint_by_db equal epoch_at
    end start get_group_votes set_group_votes threshold_vote sort get_elem?
scan_run = refl

get_group_votes-set_group_votes_example : get_group_votes (set_group_votes cast) ≡ some cast
get_group_votes-set_group_votes_example = get_group_votes-set_group_votes cast (
  omega arith,
  (
    omega arith,
    (
      omega arith,
      (
        omega arith,
        (
          omega arith,
          (omega arith, (omega arith, (omega arith, (omega arith, (omega arith, tt))))),
        ),
      ),
    ),
  ),
)

calc_checkpoint_by_db-Reached_example :
    (start (epoch_at 240) ≤ 242)
    × (242 < start (epoch_at 240) + 240)
    × (7 ≤ count_from (242 + 1 - start (epoch_at 240)) cast)
    × (count_from (242 + 2 - start (epoch_at 240)) cast < 7)
calc_checkpoint_by_db-Reached_example =
    calc_checkpoint_by_db-Reached cast 240 7 242
      (
        omega arith,
        (
          omega arith,
          (
            omega arith,
            (
              omega arith,
              (
                omega arith,
                (omega arith, (omega arith, (omega arith, (omega arith, (omega arith, tt))))),
              ),
            ),
          ),
        ),
      )
      (omega arith) by_db_run

calc_checkpoint_by_db_iff_example :
    (calc_checkpoint_by_db
        (record { votes = set_group_votes (3 ∷ 0 ∷ []); epoch_start = 240 })
        (epoch_at 240)
        2
      ≡ some none)
    ↔ (count_from 1 (3 ∷ 0 ∷ []) < 2)
calc_checkpoint_by_db_iff_example =
    calc_checkpoint_by_db_iff (3 ∷ 0 ∷ []) 240 2 (omega arith, (omega arith, tt)) (omega arith)

checkpoint_at-ends_example : is_spent (checkpoint_at chain 12 400) ≡ false
checkpoint_at-ends_example = checkpoint_at-ends chain 12 400 (omega arith)

-- The block 250 of group 12.
abbrev block : Header
block = record { height = 250; group = 12 }

abbrev context : CpContext
context = new_cp_context (epoch_at 250) groups

abbrev updated : CpDb
updated = record {
  votes = set_group_votes (5 ∷ 11 ∷ 9 ∷ 3 ∷ 240 ∷ 7 ∷ 0 ∷ 12 ∷ 4 ∷ 1 ∷ []);
  epoch_start = 240;
}

update_run : update_votes chain context block voted_db ≡ some (context, updated)
unfolding update_votes cast_vote set_vote load_votes new_cp_context index_groups equal epoch_at end
    start next get_group_votes set_group_votes
update_run = refl

stored_votes : get_group_votes voted_db.votes ≡ some cast
unfolding get_group_votes set_group_votes
stored_votes = refl

cast-AreUint16 : AreUint16 cast
cast-AreUint16 = (
  omega arith,
  (
    omega arith,
    (
      omega arith,
      (
        omega arith,
        (
          omega arith,
          (omega arith, (omega arith, (omega arith, (omega arith, (omega arith, tt))))),
        ),
      ),
    ),
  ),
)

update_votes-Updated_example : Updated chain context block voted_db context updated
update_votes-Updated_example =
    update_votes-Updated chain context context block voted_db updated (omega arith)
      (λ vs e. rw (← some-injective _ _ (sym stored_votes ∙ e)) cast-AreUint16) update_run

-- The votes that the three blocks cast.
blocks-Cast : Cast 240 244 (1 ∷ 2 ∷ []) blocks
unfolding equal epoch_at end start last_vote last_votes has
blocks-Cast = record {
  falls = (omega arith, (refl, (omega arith, (refl, (omega arith, (refl, tt))))));
  above = (omega arith, (omega arith, (omega arith, tt)));
  known = (refl, (refl, (refl, tt)));
  distinct = (refl, (refl, tt));
  fits = (omega arith, (omega arith, tt));
}

calc_checkpoint_by_db-calc_checkpoint_by_blocks_example :
    calc_checkpoint_by_db (cast_db 240 (1 ∷ 2 ∷ []) blocks) (epoch_at 240) 2
    ≡ some (calc_checkpoint_by_blocks blocks (epoch_at 240) 2)
calc_checkpoint_by_db-calc_checkpoint_by_blocks_example =
    calc_checkpoint_by_db-calc_checkpoint_by_blocks 240 244 2 (1 ∷ 2 ∷ []) blocks blocks-Cast
      (omega arith)
