-- ===== src/Board/Comments.antt =====
-- app/services/comments.py: comments on problems and solutions, their tombstones, and what readers
-- see. What sanitizes a body is an argument; Board/Sanitize has it.
pub mod Threads
pub mod Calls
pub mod View
use problem_bulletin.Prelude.{
  ℕ, ◌==◌, Bool, true, false, not, ◌&&◌, ◌||◌, Option, none, some, List, [], ◌∷◌, any,
  if◌then◌else◌,
}
use problem_bulletin.Prelude.Table.{lookup, put, remove}
use problem_bulletin.Prelude.Text.{Text, text}
use problem_bulletin.Board.{User, user_key, is_admin}

-- app/models/comment.py
pub record Comment : Type 0 where
  pub id : ℕ
  pub problem_id : ℕ
  pub solution_id : Option ℕ
  pub author_id : Option ℕ
  pub parent_comment_id : Option ℕ
  pub body : Text
  pub is_anonymous : Bool
  pub is_edited : Bool
  pub created_at : ℕ

abbrev pub comment_key : Comment → ℕ
comment_key c = c.id

-- The `HTTPException`s: 404, 400 and 403.
pub data CommentError : Type 0 where
  parent_missing other_problem other_solution comment_missing not_author may_not_delete :
      CommentError

pub data Outcome (A : Type 0) : Type 0 where
  ok : A → Outcome A
  err : CommentError → Outcome A

-- `CommentCreate`
pub record CommentCreate : Type 0 where
  pub parent_comment_id : Option ℕ
  pub body : Text
  pub is_anonymous : Bool

abbrev pub same_id : Option ℕ → Option ℕ → Bool
same_id (some a) (some b) = a == b
same_id _ _ = false

-- `solution_id is not None and str(parent.solution_id or "") != solution_id`
abbrev pub elsewhere : Option ℕ → Comment → Bool
elsewhere none parent = false
elsewhere (some s) parent = not (same_id parent.solution_id (some s))

-- What the checks of the parent say.
abbrev pub against : ℕ → Option ℕ → Option Comment → Option CommentError
against problem solution none = some parent_missing
against problem solution (some parent) =
    if not (parent.problem_id == problem)
    then some other_problem
    else if elsewhere solution parent
    then some other_solution
    else none

abbrev pub check_parent : ℕ → Option ℕ → Option ℕ → List Comment → Option CommentError
check_parent problem solution none comments = none
check_parent problem solution (some id) comments =
    against problem solution (lookup comment_key id comments)

module _ (sanitize : Text → Text) where
  abbrev pub new_comment : ℕ → ℕ → ℕ → Option ℕ → ℕ → CommentCreate → Comment
  new_comment now id problem solution user args = record {
    id = id;
    problem_id = problem;
    solution_id = solution;
    author_id = some user;
    parent_comment_id = args.parent_comment_id;
    body = sanitize args.body;
    is_anonymous = args.is_anonymous;
    is_edited = false;
    created_at = now;
  }

  -- `create_comment`
  unfoldable pub create_comment :
      ℕ → ℕ → ℕ → Option ℕ → ℕ → CommentCreate → List Comment → Outcome Comment × List Comment
  create_comment now id problem solution user args comments =
      elim (check_parent problem solution args.parent_comment_id comments) [
        | some e ↦ (err e, comments)
        | none ↦ (
          ok (new_comment now id problem solution user args),
          new_comment now id problem solution user args ∷ comments,
        )
      ]

  -- `edit_comment`
  unfoldable pub edit_comment : ℕ → User → Text → List Comment → Outcome Comment × List Comment
  edit_comment id actor body comments = elim (lookup comment_key id comments) [
    | none ↦ (err comment_missing, comments)
    | some c ↦
        if same_id c.author_id (some actor.id)
        then (
          ok (record c { body = sanitize body; is_edited = true }),
          put comment_key (record c { body = sanitize body; is_edited = true }) comments,
        )
        else (err not_author, comments)
  ]

abbrev pub is_reply_to : ℕ → Comment → Bool
is_reply_to id c = same_id c.parent_comment_id (some id)

abbrev pub tombstone : Comment → Comment
tombstone c = record c { body = text "[deleted]"; is_anonymous = true }

-- `delete_comment`
unfoldable pub delete_comment : ℕ → User → List Comment → Outcome (Unit {0}) × List Comment
delete_comment id actor comments = elim (lookup comment_key id comments) [
  | none ↦ (err comment_missing, comments)
  | some c ↦
      if not (same_id c.author_id (some actor.id)) && not (is_admin actor.role)
      then (err may_not_delete, comments)
      else if any (is_reply_to c.id) comments
      then (ok tt, put comment_key (tombstone c) comments)
      else (ok tt, remove comment_key c.id comments)
]
