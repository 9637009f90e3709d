-- ===== src/Account/Panics.antt =====
-- Where `RevertToSnapshot` panics.
use zvchain.Base.{ℕ, ◌≡◌, ◌↔◌, Bool, false, ◌||◌, none, List, [], ◌∷◌, arith, ◌==◌}
use zvchain.Account.Types.{Reads, Revision, AccountDb}
use zvchain.Account.Journal.{revert_to_snapshot}
use zvchain.Account.Contract.{Contract, Copy, find_copy}
use zvchain.Account.Revisions.{Holds, hit, stale, miss, Lookup-search}
use zvchain.Account.Simulation.{Matches}
use zvchain.Account.Reverts.{revert-Reverted, revert-stale, revert-miss}

-- Some revision has the id.
unfoldable pub is_held : ℕ → List Revision → Bool
is_held i [] = false
is_held i (x ∷ xs) = x.id == i || is_held i xs

module _ (r : Reads) where
  find-held :
      (i n : ℕ) (xs : List Revision) (cs : List Copy) (s : AccountDb)
      → Holds r n xs cs s
      → (find_copy i cs ≡ none) ↔ (is_held i xs ≡ false)
  unfolding Holds find_copy is_held
  find-held i n [] [] s h = ground arith
  find-held i n [] (c ∷ cs) s h = absurd h
  find-held i n (x ∷ xs) [] s h = absurd h
  find-held i n (x ∷ xs) (c ∷ cs) s (g, (k, h)) =
      ground (arith, find-held i x.id xs cs g h, k.same_id)

  -- In a state that a script of calls can reach, a revert panics exactly when no valid revision has
  -- its id: the undo of the journal itself never meets a missing object.
  pub revert_panics_iff :
      (i : ℕ) (s : AccountDb) (c : Contract)
      → Matches r s c
      → (revert_to_snapshot r i s ≡ none) ↔ (is_held i s.valid_revisions ≡ false)
  revert_panics_iff i s c m =
      let held = find-held i s.next_revision_id s.valid_revisions c.copies s m.holds in
      elim (Lookup-search r i s.next_revision_id s.valid_revisions c.copies s m.holds) [
        | miss a z ↦ ((λ _. held.0 z), (λ _. revert-miss r i s a))
        | stale x older a b z ↦ ((λ _. held.0 z), (λ _. revert-stale r i x older s a b))
        | hit x older d copies g a b z k hh ↦
            let (t, (u, _)) = revert-Reverted r i s.next_revision_id x older d g s m.valid a b k in
            ((λ e. absurd (ground (arith, e, u))), (λ e. absurd (ground (arith, held.1 e, z))))
      ]
