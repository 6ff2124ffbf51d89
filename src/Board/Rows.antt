-- ===== src/Board/Rows.antt =====
-- The rows of the problem board, and calls that may raise. A service raises before it writes, so
-- that a raise leaves the tables alone.
use problem_bulletin.Prelude.{ℕ, ◌==◌, ◌≡◌, ◌↔◌, Bool, true, false, Option, List, arith}
use problem_bulletin.Prelude.Text.{Text}

-- `UserRole`
pub data Role : Type 0 where
  user admin : Role

abbrev pub is_admin : Role → Bool
is_admin user = false
is_admin admin = true

-- app/models/user.py, as far as the board reads it
pub record User : Type 0 where
  pub id : ℕ
  pub role : Role

abbrev pub user_key : User → ℕ
user_key u = u.id

-- `ProblemStatus`, with `open` as `opened`
pub data ProblemStatus : Type 0 where
  opened claimed solved accepted duplicate : ProblemStatus

abbrev pub problem_rank : ProblemStatus → ℕ
problem_rank opened = 0
problem_rank claimed = 1
problem_rank solved = 2
problem_rank accepted = 3
problem_rank duplicate = 4

abbrev pub problem_status_eq : ProblemStatus → ProblemStatus → Bool
problem_status_eq a b = problem_rank a == problem_rank b

pub problem_status_eq_iff : (a b : ProblemStatus) → (problem_status_eq a b ≡ true) ↔ (a ≡ b)
problem_status_eq_iff a b = ground arith

pub record Category : Type 0 where
  pub id : ℕ
  pub deleted_at : Option ℕ

abbrev pub category_key : Category → ℕ
category_key c = c.id

pub record Problem : Type 0 where
  pub id : ℕ
  pub seq_number : Option ℕ
  pub title : Text
  pub description : Text
  pub author_id : Option ℕ
  pub status : ProblemStatus
  pub category_id : Option ℕ
  pub domain_id : Option ℕ
  pub is_pinned : Bool
  pub is_anonymous : Bool
  pub activity_at : Option ℕ
  pub created_at : ℕ

abbrev pub problem_key : Problem → ℕ
problem_key p = p.id

pub record ProblemTag : Type 0 where
  pub problem_id : ℕ
  pub tag_id : ℕ

pub record Claim : Type 0 where
  pub problem_id : ℕ
  pub user_id : ℕ

-- What an update gives for a category: an id, or its text, as it stands in a snapshot.
pub data CategoryValue : Type 0 where
  uuid : ℕ → CategoryValue
  str : Text → CategoryValue

-- The columns that an edit may change. In an update: those that it sets. In a snapshot: those
-- that were set, with the values before.
pub record Fields : Type 0 where
  pub title : Option Text
  pub description : Option Text
  pub category_id : Option (Option CategoryValue)

pub record ProblemEditHistory : Type 0 where
  pub problem_id : ℕ
  pub editor_id : ℕ
  pub snapshot : Fields

-- The tables of the board; a tag is its id.
pub record Board : Type 0 where
  pub users : List User
  pub categories : List Category
  pub tags : List ℕ
  pub problems : List Problem
  pub problem_tags : List ProblemTag
  pub claims : List Claim
  pub history : List ProblemEditHistory

pub data BoardError : Type 0 where
  category_missing tags_missing actor_missing problem_missing pin_limit badly_formed_uuid :
      BoardError
  forbidden_transition : ProblemStatus → ProblemStatus → BoardError

pub data Outcome (A : Type 0) : Type 0 where
  ok : A → Outcome A
  err : BoardError → Outcome A

-- `_TERMINAL_STATUSES` of app/services/solutions.py
abbrev pub is_terminal : ProblemStatus → Bool
is_terminal accepted = true
is_terminal duplicate = true
is_terminal _ = false
