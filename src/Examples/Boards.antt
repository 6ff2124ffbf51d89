-- ===== src/Examples/Boards.antt =====
-- A board with two problems.
use problem_bulletin.Prelude.{
  Option, ℕ, ◌++◌, ◌≡◌, refl, true, false, none, some, [], ◌∷◌, leb, arith,
}
use problem_bulletin.Prelude.Table.{lookup}
use problem_bulletin.Prelude.Text.{Text, text, text_eq}
use problem_bulletin.Board.{
  Fields, Outcome, ok, uuid, admin, User, opened, Problem, problem_key, Board,
}
use problem_bulletin.Board.Problems.{
  ProblemCreate, update_problem, sets_any, snapshot_of, apply_updates,
}
use problem_bulletin.Board.Problems.Sound.{
  IsSound, Reaches, start, step, create, pin, run, Reaches-IsSound,
}
use problem_bulletin.Board.Problems.History.{update-snapshot}
use problem_bulletin.Board.Watches.{all_activity, status_only, auto_watch}
use problem_bulletin.Board.Watches.Levels.{level_of, auto_watch-level}
use problem_bulletin.Board.Sanitize.{less, greater, sanitize_html}
use problem_bulletin.Board.Sanitize.Nested.{sanitize-nested}

abbrev pub a_problem : ℕ → Problem
a_problem id = record {
  id = id;
  seq_number = some id;
  title = text "Title";
  description = text "Text";
  author_id = some 1;
  status = opened;
  category_id = some 4;
  domain_id = none;
  is_pinned = true;
  is_anonymous = false;
  activity_at = none;
  created_at = 3;
}

abbrev pub root : User
root = record { id = 1; role = admin }

abbrev board : Board
board = record {
  users = root ∷ [];
  categories = record { id = 4; deleted_at = none } ∷ [];
  tags = [];
  problems = a_problem 1 ∷ a_problem 2 ∷ [];
  problem_tags = [];
  claims = [];
  history = [];
}

board-IsSound : IsSound board.problems
board-IsSound = record { keyed = λ k. ground arith; pins = omega arith; once = λ n. ground arith }

abbrev new_problem : ProblemCreate
new_problem = record {
  title = text "New";
  description = text "Text";
  category_id = 4;
  domain_id = none;
  tag_ids = [];
  is_anonymous = true;
}

two_steps : Reaches board (run (pin 1) (run (create 8 3 1 new_problem) board))
two_steps = step (pin 1) (step (create 8 3 1 new_problem) start refl) tt

Reaches-IsSound_example : IsSound (run (pin 1) (run (create 8 3 1 new_problem) board)).problems
Reaches-IsSound_example =
    Reaches-IsSound board (run (pin 1) (run (create 8 3 1 new_problem) board)) two_steps
      board-IsSound

first_found : lookup problem_key 1 board.problems ≡ some (a_problem 1)
unfolding lookup
first_found = refl

-- Ids as texts of one sign.
abbrev show_uuid : ℕ → Text
show_uuid k = k ∷ []

abbrev read_uuid : Text → Option ℕ
read_uuid (k ∷ []) = some k
read_uuid _ = none

abbrev new_category : Fields
new_category = record { title = none; description = none; category_id = some (some (uuid 9)) }

category_set : sets_any (snapshot_of show_uuid read_uuid (a_problem 1) new_category) ≡ true
unfolding snapshot_of
category_set = refl

abbrev after_edit : Outcome Problem × Board
after_edit = update_problem show_uuid read_uuid 5 1 1 new_category board

abbrev in_category : Problem
in_category = record (a_problem 1) { category_id = some 9; activity_at = some 5 }

goes_through : after_edit.0 ≡ ok in_category
unfolding update_problem snapshot_of apply_updates lookup
goes_through = refl

update-snapshot_example :
    (after_edit.1.history
      ≡ record {
        problem_id = 1;
        editor_id = 1;
        snapshot = snapshot_of show_uuid read_uuid (a_problem 1) new_category;
      }
        ∷ [])
    × (lookup problem_key 1
          (update_problem show_uuid read_uuid 6 1 1
            (snapshot_of show_uuid read_uuid (a_problem 1) new_category)
            after_edit.1).1.problems
        ≡ some (record (a_problem 1) { activity_at = some 6 }))
update-snapshot_example =
    update-snapshot show_uuid read_uuid (λ k. refl) 5 6 1 1 1 new_category board (a_problem 1)
      in_category first_found category_set goes_through

auto_watch-level_example :
    level_of 1 2 (
      auto_watch 1 2 status_only
        (record { user_id = 1; problem_id = 2; level = all_activity } ∷ []))
    ≡ some all_activity
auto_watch-level_example =
    auto_watch-level 1 2 1 2 status_only
      (record { user_id = 1; problem_id = 2; level = all_activity } ∷ [])

-- Small letters are the word signs.
sanitize-nested_example :
    sanitize_html (λ c. leb 97 c) (λ s. s) (less ∷ less ∷ text "b" ++ greater ∷ text "script>")
    ≡ less ∷ text "script>"
unfolding text_eq
sanitize-nested_example =
    sanitize-nested (λ c. leb 97 c) (λ s. s) refl refl refl 98 [] (text "script>") (refl, tt) refl
      (refl, (refl, (refl, (refl, (refl, (refl, (refl, tt)))))))
