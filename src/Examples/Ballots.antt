-- ===== src/Examples/Ballots.antt =====
-- Votes on one target.
use problem_bulletin.Prelude.{◌≡◌, refl, some, List, [], ◌∷◌, arith}
use problem_bulletin.Prelude.Table.{lookup}
use problem_bulletin.Votes
use problem_bulletin.Votes.Toggle.{Once}
use problem_bulletin.Votes.Upstars.{toggle_twice_lem}
use problem_bulletin.Votes.Posts.{IsCounted, toggle_vote-IsCounted}
use problem_bulletin.Examples.Rows.{alice, bot}

abbrev one_vote : List Votes.Vote
one_vote = record { target = 2; voter = bot } ∷ []

one-Once : Once one_vote
one-Once = λ target voter. ground arith

abbrev board : Votes.Board
board = record { posts = record { id = 2; upvotes = 1 } ∷ []; votes = one_vote; audit = [] }

board-IsCounted : IsCounted board
unfolding lookup
board-IsCounted = record { counted = λ k p found. ground arith; once = one-Once }

toggle_vote-IsCounted_example : IsCounted (Votes.toggle_vote alice 2 board).1
toggle_vote-IsCounted_example = toggle_vote-IsCounted alice 2 board board-IsCounted

toggle_twice_lem_example :
    ((Votes.toggle_upstar (2 ∷ []) 2 1 (Votes.toggle_upstar (2 ∷ []) 2 1 one_vote).1).0
      ≡ some (Votes.has_vote 2 alice one_vote, Votes.tally 2 one_vote))
    × ((Votes.toggle_solution_upvote
          (2 ∷ [])
          2
          1
          (Votes.toggle_solution_upvote (2 ∷ []) 2 1 one_vote).1).0
        ≡ some (Votes.has_vote 2 alice one_vote, Votes.tally 2 one_vote))
toggle_twice_lem_example = toggle_twice_lem (2 ∷ []) 2 1 one_vote one-Once refl
