-- ===== src/Board/Solutions.antt =====
-- app/services/solutions.py: solutions with their versions, the moves of their status, and their
-- dictionaries.
pub mod Accepted
pub mod Versions
pub mod View
use problem_bulletin.Prelude.{
  ℕ, zero, suc, ◌+◌, ◌==◌, Bool, true, false, not, ◌&&◌, ◌||◌, Option, none, some, List, [], ◌∷◌,
  map, length, filter, any, count, ltb, if◌then◌else◌,
}
use problem_bulletin.Prelude.Table.{lookup, put}
use problem_bulletin.Prelude.Text.{Text}
use problem_bulletin.Board.{
  User, user_key, Role, is_admin, ProblemStatus, Problem, problem_key, is_terminal,
}

-- The statuses of a solution, and any other text.
pub data SolutionStatus : Type 0 where
  pending under_review verified accepted rejected : SolutionStatus
  other : Text → SolutionStatus

-- `new_status in SOLUTION_STATUSES`
abbrev pub is_status : SolutionStatus → Bool
is_status (other s) = false
is_status _ = true

abbrev pub is_accepted : SolutionStatus → Bool
is_accepted accepted = true
is_accepted _ = false

-- `new_status in SOLUTION_TRANSITIONS.get(status, set())`
abbrev pub may_become : SolutionStatus → SolutionStatus → Bool
may_become pending under_review = true
may_become pending verified = true
may_become pending accepted = true
may_become pending rejected = true
may_become under_review pending = true
may_become under_review verified = true
may_become under_review accepted = true
may_become under_review rejected = true
may_become verified pending = true
may_become verified under_review = true
may_become verified accepted = true
may_become verified rejected = true
may_become accepted pending = true
may_become accepted under_review = true
may_become accepted verified = true
may_become accepted rejected = true
may_become rejected pending = true
may_become rejected under_review = true
may_become _ _ = false

-- app/models/solution.py
pub record Solution : Type 0 where
  pub id : ℕ
  pub problem_id : ℕ
  pub author_id : Option ℕ
  pub status : SolutionStatus
  pub is_anonymous : Bool
  pub current_version_id : Option ℕ
  pub created_at : ℕ

abbrev pub solution_key : Solution → ℕ
solution_key s = s.id

pub record SolutionVersion : Type 0 where
  pub id : ℕ
  pub solution_id : ℕ
  pub version_number : ℕ
  pub description : Text
  pub git_link : Option Text
  pub created_by : ℕ

pub record SolutionUpvote : Type 0 where
  pub user_id : ℕ
  pub solution_id : ℕ

pub record Tables : Type 0 where
  pub users : List User
  pub problems : List Problem
  pub solutions : List Solution
  pub versions : List SolutionVersion
  pub upvotes : List SolutionUpvote

pub data SolutionError : Type 0 where
  problem_missing solution_missing actor_missing not_owner invalid_status number_taken :
      SolutionError
  terminal_problem : ProblemStatus → SolutionError
  cannot_become : SolutionStatus → SolutionStatus → SolutionError

pub data Outcome (A : Type 0) : Type 0 where
  ok : A → Outcome A
  err : SolutionError → Outcome A

-- `SolutionCreate` and `SolutionVersionCreate`
pub record Draft : Type 0 where
  pub description : Text
  pub git_link : Option Text
  pub is_anonymous : Bool

abbrev pub touch : ℕ → Problem → List Problem → List Problem
touch now p problems = put problem_key (record p { activity_at = some now }) problems

abbrev pub version_of : ℕ → ℕ → ℕ → ℕ → Draft → SolutionVersion
version_of id solution number user draft = record {
  id = id;
  solution_id = solution;
  version_number = number;
  description = draft.description;
  git_link = draft.git_link;
  created_by = user;
}

abbrev pub new_solution : ℕ → ℕ → ℕ → ℕ → ℕ → Draft → Solution
new_solution now id version problem user draft = record {
  id = id;
  problem_id = problem;
  author_id = some user;
  status = pending;
  is_anonymous = draft.is_anonymous;
  current_version_id = some version;
  created_at = now;
}

-- `create_solution`, with the ids of the solution and of its first version
unfoldable pub create_solution : ℕ → ℕ → ℕ → ℕ → ℕ → Draft → Tables → Outcome Solution × Tables
create_solution now id version problem user draft db =
    elim (lookup problem_key problem db.problems) [
      | none ↦ (err problem_missing, db)
      | some p ↦ if is_terminal p.status then (err (terminal_problem p.status), db) else (
        ok (new_solution now id version problem user draft),
        record db {
          solutions = new_solution now id version problem user draft ∷ db.solutions;
          versions = version_of version id 1 user draft ∷ db.versions;
          problems = touch now p db.problems;
        },
      )
    ]

abbrev pub is_of : ℕ → SolutionVersion → Bool
is_of solution v = v.solution_id == solution

-- `coalesce(max(version_number), 0)` of a solution
unfoldable pub max_version : ℕ → List SolutionVersion → ℕ
max_version solution [] = 0
max_version solution (v ∷ versions) =
    let rest = max_version solution versions in
    if is_of solution v && ltb rest v.version_number then v.version_number else rest

abbrev pub has_number : ℕ → ℕ → SolutionVersion → Bool
has_number solution n v = is_of solution v && v.version_number == n

-- The flush of the version, which `uq_solution_version_number` refuses if the number is taken.
abbrev pub insert_version : SolutionVersion → Solution → Tables → Outcome SolutionVersion × Tables
insert_version v s db =
    if any (has_number v.solution_id v.version_number) db.versions
    then (err number_taken, db)
    else (
      ok v,
      record db {
        versions = v ∷ db.versions;
        solutions = put solution_key (record s { current_version_id = some v.id }) db.solutions;
      },
    )

-- `create_version`, with the versions as its query for the greatest number found them: it takes no
-- lock, so others may have been added since.
unfoldable pub create_version :
    List SolutionVersion → ℕ → ℕ → ℕ → Draft → Tables → Outcome SolutionVersion × Tables
unfolding max_version
create_version earlier version id user draft db = elim (lookup solution_key id db.solutions) [
  | none ↦ (err solution_missing, db)
  | some s ↦ insert_version (version_of version id (suc (max_version id earlier)) user draft) s db
]

-- An accepted solution of the problem.
abbrev pub is_accepted_of : ℕ → Solution → Bool
is_accepted_of problem s = s.problem_id == problem && is_accepted s.status

-- `for prev in ...: prev.status = "pending"`
unfoldable pub unaccept : ℕ → List Solution → List Solution
unaccept problem solutions =
    map (λ (s : Solution). if is_accepted_of problem s then record s { status = pending } else s)
      solutions

abbrev pub owns : User → Problem → Bool
owns u p = elim p.author_id [ none ↦ false | some a ↦ u.id == a ] || is_admin u.role

-- The solutions under the new status.
abbrev pub with_status : SolutionStatus → Solution → List Solution → List Solution
with_status status s solutions =
    put solution_key (record s { status = status })
      (if is_accepted status then unaccept s.problem_id solutions else solutions)

abbrev write_status : ℕ → SolutionStatus → Solution → Problem → Tables → Tables
write_status now status s p db = record db {
  solutions = with_status status s db.solutions;
  problems = touch now p db.problems;
}

-- `update_solution_status`
unfoldable pub update_solution_status :
    ℕ → ℕ → ℕ → SolutionStatus → Tables → Outcome Solution × Tables
unfolding unaccept
update_solution_status now id actor status db =
    if not (is_status status)
    then (err invalid_status, db)
    else elim (lookup solution_key id db.solutions) [
      | none ↦ (err solution_missing, db)
      | some s ↦ elim (lookup problem_key s.problem_id db.problems) [
        | none ↦ (err problem_missing, db)
        | some p ↦ elim (lookup user_key actor db.users) [
          | none ↦ (err actor_missing, db)
          | some u ↦
              if not (owns u p)
              then (err not_owner, db)
              else if not (may_become s.status status)
              then (err (cannot_become s.status status), db)
              else (ok (record s { status = status }), write_status now status s p db)
        ]
      ]
    ]

-- `accept_solution`
unfoldable pub accept_solution : ℕ → ℕ → ℕ → Tables → Outcome Solution × Tables
unfolding update_solution_status
accept_solution now id actor db = update_solution_status now id actor accepted db
