-- ===== src/Votes/Upstars.antt =====
-- Two toggles by one user.
use problem_bulletin.Prelude.{Option, Bool, ℕ, ◌≡◌, ◌==◌, true, some, List, any, arith}
use problem_bulletin.Domain.{Person, user}
use problem_bulletin.Votes.{
  Vote, has_vote, tally, flip, toggle, toggle_upstar, toggle_solution_upvote,
}
use problem_bulletin.Votes.Toggle.{Once, flip-Toggles, flip_twice}

toggle_found :
    (targets : List ℕ) (target : ℕ) (voter : Person) (votes : List Vote)
    → any (λ id. id == target) targets ≡ true
    → toggle targets target voter votes ≡ (
      some ((flip target voter votes).0, tally target (flip target voter votes).1),
      (flip target voter votes).1,
    )
unfolding toggle
toggle_found targets target voter votes e = ground (arith, e)

toggle_twice :
    (targets : List ℕ) (target : ℕ) (voter : Person) (votes : List Vote)
    → Once votes
    → any (λ id. id == target) targets ≡ true
    → (toggle targets target voter (toggle targets target voter votes).1).0
      ≡ some (has_vote target voter votes, tally target votes)
toggle_twice targets target voter votes once there =
    let one = flip-Toggles target voter votes once in
    let two = flip-Toggles target voter (flip target voter votes).1 one.once in
    let (_, same) = flip_twice target voter votes once in
    rw
      (
        toggle_found targets target voter votes there,
        toggle_found targets target voter (flip target voter votes).1 there,
        same,
      )
      (ground (arith, one.active, one.now, two.active))

-- If nobody has two votes for one target: the second of two toggles by a user, of an upstar on a
-- problem that is there or of an upvote for a solution that is there, answers whether the vote was
-- there before the first, and the count of before.
pub toggle_twice_lem :
    (targets : List ℕ) (target id : ℕ) (votes : List Vote)
    → Once votes
    → any (λ k. k == target) targets ≡ true
    → (let voter : Person = record { kind = user; id = id } in
        let before : Option (Bool × ℕ) = some (has_vote target voter votes, tally target votes) in
        ((toggle_upstar targets target id (toggle_upstar targets target id votes).1).0 ≡ before)
        × ((toggle_solution_upvote targets target id
              (toggle_solution_upvote targets target id votes).1).0
            ≡ before))
unfolding toggle_upstar toggle_solution_upvote
toggle_twice_lem targets target id votes once there = (
  toggle_twice targets target (record { kind = user; id = id }) votes once there,
  toggle_twice targets target (record { kind = user; id = id }) votes once there,
)
