-- ===== src/Board/Comments/View.antt =====
-- `_comment_to_dict`: what readers see of a comment.
use problem_bulletin.Prelude.{
  ℕ, ◌≡◌, refl, Bool, true, false, not, ◌||◌, Option, none, some, List, if◌then◌else◌,
}
use problem_bulletin.Prelude.Table.{lookup}
use problem_bulletin.Prelude.Text.{Text}
use problem_bulletin.Board.{User, user_key, is_admin}
use problem_bulletin.Board.Comments.{Comment, same_id}

-- The dictionary, less the replies, with the author's row for the author's data.
pub record View : Type 0 where
  pub id : ℕ
  pub author : Option User
  pub body : Text
  pub is_anonymous : Bool
  pub is_edited : Bool
  pub created_at : ℕ

abbrev may_see : Option ℕ → Option User → Bool
may_see author none = false
may_see author (some u) = same_id (some u.id) author || is_admin u.role

abbrev pub show_author : Comment → Option User → Bool
show_author c requester = not c.is_anonymous || may_see c.author_id requester

abbrev author_row : Option ℕ → List User → Option User
author_row none users = none
author_row (some a) users = lookup user_key a users

-- `_comment_to_dict`, with the author from `authors_by_id`
unfoldable pub comment_to_dict : Comment → List User → Option User → View
comment_to_dict c users requester = record {
  id = c.id;
  author = (if show_author c requester then author_row c.author_id users else none);
  body = c.body;
  is_anonymous = c.is_anonymous;
  is_edited = c.is_edited;
  created_at = c.created_at;
}

-- What a reader sees of an anonymous comment does not depend on who wrote it, for a reader who is not logged in and for one who
-- is no admin and neither of two authors: the dictionary is the same whichever of the two is its author.
comment_to_dict-hides :
    (c : Comment) (author author' : Option ℕ) (users : List User) (requester : Option User)
    → c.is_anonymous ≡ true
    → may_see author requester ≡ false
    → may_see author' requester ≡ false
    → comment_to_dict (record c { author_id = author }) users requester
      ≡ comment_to_dict (record c { author_id = author' }) users requester
unfolding comment_to_dict
comment_to_dict-hides c author author' users requester anonymous a a' = rw (anonymous, a, a') refl
