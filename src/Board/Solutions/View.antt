-- ===== src/Board/Solutions/View.antt =====
-- `_solution_to_dict`: the dictionary of a solution. The routes put the author back for an admin, which
-- is not modelled.
use problem_bulletin.Prelude.{
  ℕ, ◌==◌, Bool, false, not, ◌||◌, Option, none, some, List, [], ◌∷◌, length, filter, any, find,
  ltb, if◌then◌else◌,
}
use problem_bulletin.Prelude.Table.{lookup}
use problem_bulletin.Prelude.Text.{Text}
use problem_bulletin.Board.{User, user_key}
use problem_bulletin.Board.Solutions.{
  SolutionStatus, Solution, SolutionVersion, SolutionUpvote, Tables, is_of,
}

-- The dictionary, with the author's row for the author's data.
pub record View : Type 0 where
  pub id : ℕ
  pub author : Option User
  pub description : Text
  pub git_link : Option Text
  pub status : SolutionStatus
  pub upvote_count : ℕ
  pub is_upvoted : Bool
  pub is_anonymous : Bool
  pub version_count : ℕ
  pub created_at : ℕ

-- `max(solution.versions, key=lambda v: v.version_number)`: the first with the highest number
unfoldable pub highest : SolutionVersion → List SolutionVersion → SolutionVersion
highest v [] = v
highest v (w ∷ versions) =
    if ltb v.version_number w.version_number then highest w versions else highest v versions

abbrev is_current : Solution → SolutionVersion → Bool
is_current s v = elim s.current_version_id [ none ↦ false | some k ↦ v.id == k ]

abbrev or_highest : List SolutionVersion → Option SolutionVersion → Option SolutionVersion
or_highest versions (some v) = some v
or_highest [] none = none
or_highest (v ∷ versions) none = some (highest v versions)

-- The version that the solution points to, or that with the highest number.
unfoldable pub current_version : Solution → List SolutionVersion → Option SolutionVersion
current_version s versions = or_highest versions (find (is_current s) versions)

abbrev is_same : Option ℕ → Option ℕ → Bool
is_same (some a) (some b) = a == b
is_same _ _ = false

-- In the dictionary, an anonymous solution shows its author to the author alone.
abbrev pub show_author : Solution → Option ℕ → Bool
show_author s viewer = not s.is_anonymous || is_same s.author_id viewer

abbrev author_row : Option ℕ → List User → Option User
author_row none users = none
author_row (some a) users = lookup user_key a users

-- `_solution_to_dict`
unfoldable pub solution_to_dict : Solution → Option ℕ → Tables → View
unfolding current_version
solution_to_dict s viewer db =
    let versions = filter (is_of s.id) db.versions in
    let upvotes = filter (λ (u : SolutionUpvote). u.solution_id == s.id) db.upvotes in
    let current = current_version s versions in
    record {
      id = s.id;
      author = (if show_author s viewer then author_row s.author_id db.users else none);
      description = elim current [ none ↦ [] | some v ↦ v.description ];
      git_link = elim current [ none ↦ none | some v ↦ v.git_link ];
      status = s.status;
      upvote_count = length upvotes;
      is_upvoted = any (λ (u : SolutionUpvote). is_same (some u.user_id) viewer) upvotes;
      is_anonymous = s.is_anonymous;
      version_count = length versions;
      created_at = s.created_at;
    }
