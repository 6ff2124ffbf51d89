-- ===== src/Votes.antt =====
-- app/services/voting.py and `toggle_vote` of app/services/share_posts.py: votes that a second call
-- takes back. The lock on the target's row makes toggles of one target run one after another.
pub mod Toggle
pub mod Upstars
pub mod Posts
use problem_bulletin.Prelude.{
  ℕ, ◌==◌, Bool, true, false, ◌&&◌, Option, none, some, List, [], ◌∷◌, count, any, if◌then◌else◌,
}
use problem_bulletin.Prelude.Table.{lookup, put}
use problem_bulletin.Domain.{Person, person_eq, user}

-- A row of `upstars`, `solution_upvotes` or `share_post_votes`: the target and who votes.
pub record Vote : Type 0 where
  pub target : ℕ
  pub voter : Person

abbrev pub is_vote : ℕ → Person → Vote → Bool
is_vote target voter v = v.target == target && person_eq v.voter voter

-- `delete(...).where(id == existing.id)`: the row that the select found
unfoldable pub drop_vote : ℕ → Person → List Vote → List Vote
drop_vote target voter [] = []
drop_vote target voter (v ∷ votes) =
    let rest = drop_vote target voter votes in if is_vote target voter v then votes else v ∷ rest

unfoldable pub has_vote : ℕ → Person → List Vote → Bool
has_vote target voter votes = any (is_vote target voter) votes

-- `select(func.count()).where(target_id == target)`
abbrev pub tally : ℕ → List Vote → ℕ
tally target votes = count (λ (v : Vote). v.target == target) votes

-- The row is taken back or added: whether the vote exists now, and the rows.
unfoldable pub flip : ℕ → Person → List Vote → Bool × List Vote
flip target voter votes =
    if has_vote target voter votes
    then (false, drop_vote target voter votes)
    else (true, record { target = target; voter = voter } ∷ votes)

-- The body that `toggle_upstar` and `toggle_solution_upvote` share: nothing for a target that is not there (404), else
-- whether the vote exists now and the new count
unfoldable pub toggle : List ℕ → ℕ → Person → List Vote → Option (Bool × ℕ) × List Vote
toggle targets target voter votes =
    let (active, after) = flip target voter votes in
    if any (λ id. id == target) targets
    then (some (active, tally target after), after)
    else (none, votes)

-- `toggle_upstar`: the problems, the problem, the user
unfoldable pub toggle_upstar : List ℕ → ℕ → ℕ → List Vote → Option (Bool × ℕ) × List Vote
unfolding toggle
toggle_upstar problems problem id votes =
    toggle problems problem (record { kind = user; id = id }) votes

-- `toggle_solution_upvote`: the solutions, the solution, the user
unfoldable pub toggle_solution_upvote : List ℕ → ℕ → ℕ → List Vote → Option (Bool × ℕ) × List Vote
unfolding toggle
toggle_solution_upvote solutions solution id votes =
    toggle solutions solution (record { kind = user; id = id }) votes

-- app/models/share_post.py, the columns of a vote
pub record SharePost : Type 0 where
  pub id : ℕ
  pub upvotes : ℕ

abbrev pub post_key : SharePost → ℕ
post_key p = p.id

pub record Board : Type 0 where
  pub posts : List SharePost
  pub votes : List Vote
  -- the "vote" and "unvote" rows of the audit log: the post, whether it is a vote, the new count
  pub audit : List (ℕ × Bool × ℕ)

-- `SharePostService.toggle_vote`
unfoldable pub toggle_vote : Person → ℕ → Board → Option (Bool × ℕ) × Board
toggle_vote actor id b =
    let (voted, after) = flip id actor b.votes in
    let n = tally id after in
    elim (lookup post_key id b.posts) [
      | none ↦ (none, b)
      | some p ↦ (
        some (voted, n),
        record {
          posts = put post_key (record p { upvotes = n }) b.posts;
          votes = after;
          audit = (id, voted, n) ∷ b.audit;
        },
      )
    ]
