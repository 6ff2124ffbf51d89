-- ===== src/Board/Problems/Steps.antt =====
-- What each operation does to the problems.
use mathlib.Core.Path.{subst}
use problem_bulletin.Prelude.{
  Option, ℕ, suc, ◌<◌, ◌≡◌, ◌⊎◌, ◌==◌, refl, sym, inl, inr, true, false, some, List, ◌∷◌, any,
  count, leb, arith, Bool-cases, Option-cases,
}
use problem_bulletin.Prelude.Table.{lookup, put, lookup_key}
use problem_bulletin.Prelude.Keyed.{has_key}
use problem_bulletin.Prelude.Text.{Text}
use problem_bulletin.Board.{
  category_key, user_key, ProblemStatus, opened, claimed, problem_status_eq, Problem, problem_key,
  Fields, Board,
}
use problem_bulletin.Board.Problems.{
  max_pinned, max_seq, is_pin, ProblemCreate, is_live, tags_found, new_problem, is_claim,
  is_other_claim, create_problem, transition_status, claim_problem, pin_problem, update_problem,
  may_move, moved, reopened, taken, edited, snapshot_of, read_category, apply_updates, sets_any,
}

-- The problems after an operation: as before; with one row overwritten that keeps its number, and is pinned only if
-- it was before or fewer than three are; or with a new row.
pub data Change (problems : List Problem) : List Problem → Type 0 where
  kept : Change problems problems
  rewritten :
      (q p : Problem)
      → lookup problem_key q.id problems ≡ some p
      → q.seq_number ≡ p.seq_number
      → (q.is_pinned ≡ p.is_pinned) ⊎ (q.is_pinned ≡ false) ⊎ (count is_pin problems < max_pinned)
      → Change problems (put problem_key q problems)
  added :
      (p : Problem)
      → p.seq_number ≡ some (suc (max_seq problems))
      → p.is_pinned ≡ false
      → count (has_key problem_key p.id) problems ≡ 0
      → Change problems (p ∷ problems)

module _ (b : Board) where
  at_key :
      (id : ℕ) (p : Problem)
      → lookup problem_key id b.problems ≡ some p
      → lookup problem_key p.id b.problems ≡ some p
  at_key id p e =
      subst (λ k. lookup problem_key k b.problems ≡ some p)
        (sym (lookup_key problem_key id b.problems e)) e

  pub create-Change :
      (now new_id user : ℕ) (args : ProblemCreate)
      → count (has_key problem_key new_id) b.problems ≡ 0
      → Change b.problems (create_problem now new_id user args b).1.problems
  unfolding create_problem
  create-Change now new_id user args fresh =
      elim (Bool-cases (is_live (lookup category_key args.category_id b.categories))) [
        | inr e ↦ rw (create_problem, e) kept
        | inl e ↦ elim (Bool-cases (tags_found args.tag_ids b.tags)) [
          | inr f ↦ rw (create_problem, e, f) kept
          | inl f ↦
              rw (create_problem, e, f)
                (added (new_problem now new_id user args b.problems) refl refl fresh)
        ]
      ]

  pub transition-Change :
      (now id actor : ℕ) (target : ProblemStatus)
      → Change b.problems (transition_status now id target actor b).1.problems
  unfolding transition_status
  transition-Change now id actor target = elim (Option-cases (lookup user_key actor b.users)) [
    | inl e ↦ rw (transition_status, e) kept
    | inr (u, e) ↦ elim (Option-cases (lookup problem_key id b.problems)) [
      | inl f ↦ rw (transition_status, e, f) kept
      | inr (p, f) ↦ elim (Bool-cases (may_move u p target)) [
        | inl y ↦
            rw (transition_status, e, f, y)
              (rewritten (moved now target p) p (at_key id p f) refl (inl refl))
        | inr n ↦ rw (transition_status, e, f, n) kept
      ]
    ]
  ]

  pub claim-Change : (now id user : ℕ) → Change b.problems (claim_problem now id user b).1.problems
  unfolding claim_problem
  claim-Change now id user = elim (Option-cases (lookup problem_key id b.problems)) [
    | inl e ↦ rw (claim_problem, e) kept
    | inr (p, e) ↦ elim (Bool-cases (any (is_claim p.id user) b.claims)) [
      | inr n ↦ rw (claim_problem, e, n) (rewritten (taken now p) p (at_key id p e) refl (inl refl))
      | inl y ↦ elim (Bool-cases (count (is_other_claim p.id user) b.claims == 0)) [
        | inl alone ↦ rw (claim_problem, e, y, alone) (reopen id p e)
        | inr others ↦ rw (claim_problem, e, y, others) kept
      ]
    ]
  ]
    where
      reopen :
          (id : ℕ) (p : Problem)
          → lookup problem_key id b.problems ≡ some p
          → Change b.problems (put problem_key (reopened p) b.problems)
      reopen id p e = elim (Bool-cases (problem_status_eq p.status claimed)) [
        | inl y ↦ rw y (rewritten (record p { status = opened }) p (at_key id p e) refl (inl refl))
        | inr n ↦ rw n (rewritten p p (at_key id p e) refl (inl refl))
      ]

  pub pin-Change : (id : ℕ) → Change b.problems (pin_problem id b).1.problems
  unfolding pin_problem
  pin-Change id = elim (Option-cases (lookup problem_key id b.problems)) [
    | inl e ↦ rw (pin_problem, e) kept
    | inr (p, e) ↦ elim (Bool-cases p.is_pinned) [
      | inl y ↦
          rw (pin_problem, e, y)
            (rewritten (record p { is_pinned = false }) p (at_key id p e) refl (inr (inl refl)))
      | inr n ↦ elim (Bool-cases (leb max_pinned (count is_pin b.problems))) [
        | inl full ↦ rw (pin_problem, e, n, full) kept
        | inr free ↦
            rw (pin_problem, e, n, free)
              (rewritten (record p { is_pinned = true }) p (at_key id p e) refl
                (inr (inr (ground (arith, free)))))
      ]
    ]
  ]

  pub update-Change :
      (show_uuid : ℕ → Text) (read_uuid : Text → Option ℕ) (now id editor : ℕ) (updates : Fields)
      → Change b.problems (update_problem show_uuid read_uuid now id editor updates b).1.problems
  unfolding update_problem apply_updates
  update-Change show_uuid read_uuid now id editor updates =
      elim (Option-cases (lookup problem_key id b.problems)) [
        | inl e ↦ rw (update_problem, e) kept
        | inr (p, e) ↦ elim (Bool-cases (sets_any (snapshot_of show_uuid read_uuid p updates))) [
          | inl y ↦ elim (Option-cases (read_category show_uuid read_uuid updates.category_id)) [
            | inl bad ↦ rw (update_problem, e, y, bad) kept
            | inr (c, good) ↦
                rw (update_problem, e, y, good)
                  (rewritten (edited now p updates c) p (at_key id p e) refl (inl refl))
          ]
          | inr n ↦ rw (update_problem, e, n) kept
        ]
      ]
