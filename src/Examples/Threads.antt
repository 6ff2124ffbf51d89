-- ===== src/Examples/Threads.antt =====
-- Solutions and comments.
use problem_bulletin.Prelude.{◌≡◌, refl, true, false, none, some, List, [], ◌∷◌, arith}
use problem_bulletin.Prelude.Table.{lookup}
use problem_bulletin.Prelude.Text.{text}
use problem_bulletin.Board.Solutions.{max_version, accepted, Solution, Tables, Draft}
use problem_bulletin.Board.Solutions.Accepted.{
  IsAcceptedOnce, Reaches, start, step, create, revise, judge, run, Reaches-IsAcceptedOnce,
}
use problem_bulletin.Board.Solutions.Versions.{IsNumbered, run-IsNumbered}
use problem_bulletin.Board.Comments.{Comment, comment_key, create_comment}
use problem_bulletin.Board.Comments.Threads.{IsThreaded}
use problem_bulletin.Board.Comments.Calls
use problem_bulletin.Board.Comments.Calls.{run-IsThreaded}
use problem_bulletin.Examples.Boards.{a_problem, root}

abbrev a_solution : Solution
a_solution = record {
  id = 5;
  problem_id = 1;
  author_id = some 1;
  status = accepted;
  is_anonymous = true;
  current_version_id = none;
  created_at = 4;
}

abbrev tables : Tables
tables = record {
  users = root ∷ [];
  problems = a_problem 1 ∷ [];
  solutions = a_solution ∷ [];
  versions = [];
  upvotes = [];
}

abbrev draft : Draft
draft = record { description = text "Do"; git_link = none; is_anonymous = false }

tables-IsAcceptedOnce : IsAcceptedOnce tables.solutions
tables-IsAcceptedOnce = record { keyed = λ k. ground arith; alone = λ problem. ground arith }

abbrev end : Tables
end = run (judge 9 6 1 accepted) (run (create 8 6 7 1 1 draft) tables)

two_steps : Reaches tables end
two_steps = step (judge 9 6 1 accepted) (step (create 8 6 7 1 1 draft) start refl) tt

Reaches-IsAcceptedOnce_example : IsAcceptedOnce end.solutions
Reaches-IsAcceptedOnce_example = Reaches-IsAcceptedOnce tables end two_steps tables-IsAcceptedOnce

none-IsNumbered : IsNumbered tables.versions
unfolding max_version
none-IsNumbered solution n = ground arith

run-IsNumbered_example : IsNumbered (run (revise [] 8 5 1 draft) tables).versions
run-IsNumbered_example = run-IsNumbered (revise [] 8 5 1 draft) tables (omega arith) none-IsNumbered

abbrev threads_of : Calls.Call → List Comment → List Comment
threads_of call comments = Calls.run (λ s. s) call comments

-- A comment and a reply to it.
abbrev first : Calls.Call
first =
    Calls.create 2 1 1 none 1
      (record { parent_comment_id = none; body = text "Hi"; is_anonymous = false })

abbrev reply : Calls.Call
reply =
    Calls.create 3 2 1 none 1
      (record { parent_comment_id = some 1; body = text "Ho"; is_anonymous = false })

nothing-IsThreaded : IsThreaded []
unfolding lookup
nothing-IsThreaded k c parent at of = absurd cc

first_fresh : lookup comment_key 1 [] ≡ none
unfolding lookup
first_fresh = refl

reply_fresh : lookup comment_key 2 (threads_of first []) ≡ none
unfolding lookup create_comment
reply_fresh = refl

both-IsThreaded : IsThreaded (threads_of reply (threads_of first []))
both-IsThreaded =
    run-IsThreaded (λ s. s) reply (threads_of first []) reply_fresh
      (run-IsThreaded (λ s. s) first [] first_fresh nothing-IsThreaded)

run-IsThreaded_example :
    IsThreaded (Calls.run (λ s. s) (Calls.delete 1 root) (threads_of reply (threads_of first [])))
run-IsThreaded_example =
    run-IsThreaded (λ s. s) (Calls.delete 1 root) (threads_of reply (threads_of first [])) tt
      both-IsThreaded
