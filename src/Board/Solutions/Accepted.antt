-- ===== src/Board/Solutions/Accepted.antt =====
-- At most one accepted solution for a problem.
use mathlib.Core.Option
use mathlib.Core.Path.{subst}
use problem_bulletin.Prelude.{
  ℕ, suc, any, ◌≤◌, ◌≡◌, ◌⊎◌, ◌==◌, refl, sym, ap, ◌∙◌, inl, inr, true, false, some, List, [], ◌∷◌,
  count, arith, if◌then◌else◌, Bool-cases, Option-cases,
}
use problem_bulletin.Prelude.Keyed.{IsKeyed, has_key, count_key-put, count-put}
use problem_bulletin.Prelude.Table.{lookup, put, lookup_key, lookup-map}
use problem_bulletin.Board.{user_key, problem_key, is_terminal}
use problem_bulletin.Board.Solutions.{
  SolutionStatus, pending, is_status, is_accepted, may_become, Solution, solution_key, Tables,
  Draft, SolutionVersion, max_version, has_number, create_solution, create_version, is_accepted_of,
  unaccept, owns, with_status, update_solution_status,
}

pub record IsAcceptedOnce (solutions : List Solution) : Type 0 where
  pub keyed : IsKeyed solution_key solutions
  pub alone : (problem : ℕ) → count (is_accepted_of problem) solutions ≤ 1

count-unaccept :
    (problem other : ℕ) (solutions : List Solution)
    → count (is_accepted_of other) (unaccept problem solutions)
      ≡ (if problem == other then 0 else count (is_accepted_of other) solutions)
unfolding unaccept
count-unaccept problem other [] = ground arith
count-unaccept problem other (s ∷ solutions) = elim (Bool-cases (is_accepted_of problem s)) [
  | inl e ↦ rw e (ground (arith, e, count-unaccept problem other solutions))
  | inr e ↦ rw e (ground (arith, e, count-unaccept problem other solutions))
]

keyed-unaccept :
    (problem k : ℕ) (solutions : List Solution)
    → count (has_key solution_key k) (unaccept problem solutions)
      ≡ count (has_key solution_key k) solutions
unfolding unaccept
keyed-unaccept problem k [] = refl
keyed-unaccept problem k (s ∷ solutions) = elim (Bool-cases (is_accepted_of problem s)) [
  | inl e ↦ rw e (ground (arith, keyed-unaccept problem k solutions))
  | inr e ↦ rw e (ground (arith, keyed-unaccept problem k solutions))
]

-- A row is overwritten by one that is accepted only where no other of its problem is.
put-IsAcceptedOnce :
    (q s : Solution) (solutions : List Solution)
    → lookup solution_key q.id solutions ≡ some s
    → q.problem_id ≡ s.problem_id
    → (is_accepted q.status ≡ false)
      ⊎ (q.status ≡ s.status)
      ⊎ (count (is_accepted_of q.problem_id) solutions ≡ 0)
    → IsAcceptedOnce solutions
    → IsAcceptedOnce (put solution_key q solutions)
put-IsAcceptedOnce q s solutions found same how h = record {
  keyed = λ k. rw (count_key-put solution_key k q solutions) (h.keyed k);
  alone = λ problem. ground (
    arith,
    how,
    same,
    count-put solution_key (is_accepted_of problem) q s solutions (h.keyed q.id) found,
    h.alone problem,
  );
}

unaccept-IsAcceptedOnce :
    (problem : ℕ) (solutions : List Solution)
    → IsAcceptedOnce solutions
    → IsAcceptedOnce (unaccept problem solutions)
unaccept-IsAcceptedOnce problem solutions h = record {
  keyed = λ k. rw (keyed-unaccept problem k solutions) (h.keyed k);
  alone = λ other. ground (arith, count-unaccept problem other solutions, h.alone other);
}

-- A solution that is not accepted is left alone.
lookup-unaccept :
    (problem k : ℕ) (solutions : List Solution) (s : Solution)
    → lookup solution_key k solutions ≡ some s
    → is_accepted s.status ≡ false
    → lookup solution_key k (unaccept problem solutions) ≡ some s
unfolding unaccept
lookup-unaccept problem k solutions s found plain =
    let demote : Solution → Solution =
      λ t. if is_accepted_of problem t then record t { status = pending } else t in
    let passed : is_accepted_of problem s ≡ false = ground (arith, plain) in
    lookup-map solution_key demote k solutions (same_key problem)
    ∙ ap (Option.map demote) found
    ∙ ap some (ap (λ c. if c then record s { status = pending } else s) passed)
  where
    same_key :
        (problem : ℕ) (t : Solution)
        → solution_key (if is_accepted_of problem t then record t { status = pending } else t)
          ≡ solution_key t
    same_key problem t = ground arith

becomes_accepted :
    (old : SolutionStatus) (new : SolutionStatus)
    → may_become old new ≡ true
    → is_accepted new ≡ true
    → is_accepted old ≡ false
becomes_accepted old new h k = ground (arith, h, k)

with_status-IsAcceptedOnce :
    (status : SolutionStatus) (s : Solution) (solutions : List Solution)
    → lookup solution_key s.id solutions ≡ some s
    → may_become s.status status ≡ true
    → IsAcceptedOnce solutions
    → IsAcceptedOnce (with_status status s solutions)
with_status-IsAcceptedOnce status s solutions found may h = elim (Bool-cases (is_accepted status)) [
  | inr plain ↦
      rw plain
        (put-IsAcceptedOnce (record s { status = status }) s solutions found refl (inl plain) h)
  | inl chosen ↦
      let before = becomes_accepted s.status status may chosen in
      let empty : count (is_accepted_of s.problem_id) (unaccept s.problem_id solutions) ≡ 0 =
        ground (arith, count-unaccept s.problem_id s.problem_id solutions) in
      rw chosen (
        put-IsAcceptedOnce (record s { status = status }) s (unaccept s.problem_id solutions)
          (lookup-unaccept s.problem_id s.id solutions s found before) refl (inr (inr empty))
          (unaccept-IsAcceptedOnce s.problem_id solutions h))
]

module _ (db : Tables) where
  at_key :
      (id : ℕ) (s : Solution)
      → lookup solution_key id db.solutions ≡ some s
      → lookup solution_key s.id db.solutions ≡ some s
  at_key id s e =
      subst (λ k. lookup solution_key k db.solutions ≡ some s)
        (sym (lookup_key solution_key id db.solutions e)) e

  create-IsAcceptedOnce :
      (now id version problem user : ℕ) (draft : Draft)
      → count (has_key solution_key id) db.solutions ≡ 0
      → IsAcceptedOnce db.solutions
      → IsAcceptedOnce (create_solution now id version problem user draft db).1.solutions
  unfolding create_solution
  create-IsAcceptedOnce now id version problem user draft fresh h =
      elim (Option-cases (lookup problem_key problem db.problems)) [
        | inl e ↦ rw (create_solution, e) h
        | inr (p, e) ↦ elim (Bool-cases (is_terminal p.status)) [
          | inl over ↦ rw (create_solution, e, over) h
          | inr on ↦
              rw (create_solution, e, on)
                (record {
                  keyed = λ k. ground (arith, fresh, h.keyed k);
                  alone = λ k. ground (arith, h.alone k);
                })
        ]
      ]

  version-IsAcceptedOnce :
      (earlier : List SolutionVersion) (version id user : ℕ) (draft : Draft)
      → IsAcceptedOnce db.solutions
      → IsAcceptedOnce (create_version earlier version id user draft db).1.solutions
  unfolding create_version
  version-IsAcceptedOnce earlier version id user draft h =
      elim (Option-cases (lookup solution_key id db.solutions)) [
        | inl e ↦ rw (create_version, e) h
        | inr (s, e) ↦
            let number = suc (max_version id earlier) in
            elim (Bool-cases (any (has_number id number) db.versions)) [
              | inl taken ↦ rw (create_version, e, taken) h
              | inr free ↦
                  rw (create_version, e, free)
                    (put-IsAcceptedOnce (record s { current_version_id = some version }) s
                      db.solutions (at_key id s e) refl (inr (inl refl)) h)
            ]
      ]

  status-IsAcceptedOnce :
      (now id actor : ℕ) (status : SolutionStatus)
      → IsAcceptedOnce db.solutions
      → IsAcceptedOnce (update_solution_status now id actor status db).1.solutions
  unfolding update_solution_status
  status-IsAcceptedOnce now id actor status h = elim (Bool-cases (is_status status)) [
    | inr bad ↦ rw (update_solution_status, bad) h
    | inl fine ↦ elim (Option-cases (lookup solution_key id db.solutions)) [
      | inl e ↦ rw (update_solution_status, fine, e) h
      | inr (s, e) ↦ elim (Option-cases (lookup problem_key s.problem_id db.problems)) [
        | inl f ↦ rw (update_solution_status, fine, e, f) h
        | inr (p, f) ↦ elim (Option-cases (lookup user_key actor db.users)) [
          | inl g ↦ rw (update_solution_status, fine, e, f, g) h
          | inr (u, g) ↦ elim (Bool-cases (owns u p)) [
            | inr not_hers ↦ rw (update_solution_status, fine, e, f, g, not_hers) h
            | inl hers ↦ elim (Bool-cases (may_become s.status status)) [
              | inr never ↦ rw (update_solution_status, fine, e, f, g, hers, never) h
              | inl may ↦
                  rw (update_solution_status, fine, e, f, g, hers, may)
                    (with_status-IsAcceptedOnce status s db.solutions (at_key id s e) may h)
            ]
          ]
        ]
      ]
    ]
  ]

pub data Call : Type 0 where
  create : ℕ → ℕ → ℕ → ℕ → ℕ → Draft → Call
  revise : List SolutionVersion → ℕ → ℕ → ℕ → Draft → Call
  judge : ℕ → ℕ → ℕ → SolutionStatus → Call

abbrev pub run : Call → Tables → Tables
run (create now id version problem user draft) db =
    (create_solution now id version problem user draft db).1
run (revise earlier version id user draft) db = (create_version earlier version id user draft db).1
run (judge now id actor status) db = (update_solution_status now id actor status db).1

-- A generated id of a solution is new.
abbrev pub IsFresh : Call → Tables → Type 0
IsFresh (create now id version problem user draft) db =
    count (has_key solution_key id) db.solutions ≡ 0
IsFresh _ db = Unit

pub data Reaches (db : Tables) : Tables → Type 0 where
  start : Reaches db db
  step :
      {mid : Tables} (call : Call) → Reaches db mid → IsFresh call mid → Reaches db (run call mid)

run-IsAcceptedOnce :
    (call : Call) (db : Tables)
    → IsFresh call db
    → IsAcceptedOnce db.solutions
    → IsAcceptedOnce (run call db).solutions
run-IsAcceptedOnce (create now id version problem user draft) db fresh h =
    create-IsAcceptedOnce db now id version problem user draft fresh h
run-IsAcceptedOnce (revise earlier version id user draft) db fresh h =
    version-IsAcceptedOnce db earlier version id user draft h
run-IsAcceptedOnce (judge now id actor status) db fresh h =
    status-IsAcceptedOnce db now id actor status h

-- From tables in which each solution has one row and no problem two accepted solutions, this
-- stays so whatever solutions are created, revised and judged, one call after another, if the id
-- that a new solution gets is new: accepting one takes it from the one before.
pub Reaches-IsAcceptedOnce :
    (db end : Tables) → Reaches db end → IsAcceptedOnce db.solutions → IsAcceptedOnce end.solutions
Reaches-IsAcceptedOnce db end start h = h
Reaches-IsAcceptedOnce db end (step {mid = m} call r fresh) h =
    run-IsAcceptedOnce call m fresh (Reaches-IsAcceptedOnce db m r h)
