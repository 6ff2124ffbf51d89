-- ===== src/Examples/Others.antt =====
-- Recipients, excerpts, bounties, votes, sprints and the rate limiter.
use problem_bulletin.Prelude.{
  ◌++◌, ◌+◌, ◌*◌, ◌≡◌, ◌≤◌, ◌⊎◌, refl, true, false, ◌||◌, none, some, [], ◌∷◌, arith,
}
use problem_bulletin.Prelude.Text.{Text, text, text_eq}
use problem_bulletin.Prelude.Table.{lookup}
use problem_bulletin.Domain.{
  Ticket, todo, status_value, ticket_blocked, ticket_resolved, ticket_cancelled, story, active,
}
use problem_bulletin.Notifications.Recipients.{in_people}
use problem_bulletin.Notifications.Recipients.Laws.{is_named}
use problem_bulletin.Notifications.Fanout.{
  about, assignee_of, reporter_of, fanout_blocked, fanout_resolved, fanout_cancelled,
}
use problem_bulletin.Notifications.Fanout.Exact.{IsTold, fanouts_exact}
use problem_bulletin.Bounties
use problem_bulletin.Bounties.Lifecycle.{AllSound, next_status, may, is_returned, Moves}
use problem_bulletin.Bounties.Machine.{transition_exact, empty, posting, moving, Reaches-AllSound}
use problem_bulletin.RateLimit
use problem_bulletin.RateLimit.Window.{Runs, fresh, checking, note, recent}
use problem_bulletin.RateLimit.Bound.{Runs-recent-le, retry_enough}
use problem_bulletin.Votes.Toggle.{Once}
use problem_bulletin.Sprints
use problem_bulletin.Sprints.Lifecycle.{IsExclusive}
use problem_bulletin.Sprints.Exclusive.{Reaches-IsExclusive, started_from, creating, starting}
use problem_bulletin.Examples.Rows.{alice, bot, sample}

abbrev blocked : Ticket
blocked = sample 11 story (some 3)

fanouts_exact_example :
    IsTold
      (about ticket_blocked alice blocked none none)
      9
      (λ p. is_named p (assignee_of blocked) || in_people p (bot ∷ alice ∷ bot ∷ []))
      []
      (fanout_blocked 9 alice blocked (bot ∷ alice ∷ bot ∷ []) [])
    × IsTold
        (about ticket_resolved alice blocked none (some (status_value todo ++ text " → done")))
        9
        (λ p.
          is_named p (assignee_of blocked)
          || is_named p (reporter_of blocked)
          || in_people p (bot ∷ alice ∷ bot ∷ []))
        []
        (fanout_resolved 9 alice todo blocked (bot ∷ alice ∷ bot ∷ []) [])
    × IsTold
        (about ticket_cancelled alice blocked none
          (some (status_value todo ++ text " → cancelled")))
        9
        (λ p.
          is_named p (assignee_of blocked)
          || is_named p (reporter_of blocked)
          || in_people p (bot ∷ alice ∷ bot ∷ []))
        []
        (fanout_cancelled 9 alice todo blocked (bot ∷ alice ∷ bot ∷ []) [])
fanouts_exact_example = fanouts_exact 9 alice todo blocked (bot ∷ alice ∷ bot ∷ []) []

abbrev the_bounty : Bounties.Bounty
the_bounty = record {
  id = 5;
  title = text "Fix it";
  description = [];
  points = 10;
  status = Bounties.open_bounty;
  poster_user_id = some 1;
  ticket_id = none;
  problem_id = none;
  claimant_id = none;
  claimant_type = none;
  claimed_at = none;
  awarded_at = none;
}

abbrev ledger : Bounties.Ledger
ledger = record { bounties = the_bounty ∷ []; audit = [] }

bounty_found : lookup Bounties.bounty_key 5 ledger.bounties ≡ some the_bounty
unfolding lookup
bounty_found = refl

transition_exact_example :
    ((s : Bounties.BountyStatus) × (next_status Bounties.claim Bounties.open_bounty ≡ some s)
      × (may Bounties.claim bot the_bounty ≡ true)
      × Moves s the_bounty bot ledger (Bounties.transition Bounties.claim bot 9 5 ledger))
    ⊎ (((next_status Bounties.claim Bounties.open_bounty ≡ none)
          ⊎ (may Bounties.claim bot the_bounty ≡ false))
        × (is_returned (Bounties.transition Bounties.claim bot 9 5 ledger).0 ≡ false)
        × ((Bounties.transition Bounties.claim bot 9 5 ledger).1 ≡ ledger))
transition_exact_example = transition_exact Bounties.claim bot 9 5 ledger the_bounty bounty_found

abbrev posted : Bounties.Ledger
posted =
    (Bounties.create_bounty alice 5 (text "Fix it") [] 10 none none
      (record { bounties = []; audit = [] })).1

Reaches-AllSound_example : AllSound (Bounties.transition Bounties.claim bot 9 5 posted).1
Reaches-AllSound_example =
    Reaches-AllSound
      (moving (posting empty alice 5 (text "Fix it") [] 10 none none) Bounties.claim bot 9 5)

abbrev email : Text
email = text "a@b.c"

abbrev limiter : RateLimit.Limiter
limiter = record { max_requests = 1; window_seconds = 600; attempts = [] }

abbrev asked : RateLimit.Limiter
asked = (RateLimit.check email 1000000 limiter).1

one_run : Runs 1 600 asked (note (RateLimit.check email 1000000 limiter).0 email 1000000 []) 1000000
one_run = checking fresh email 1000000 (omega arith)

Runs-recent-le_example :
    recent asked email 2000000 (note (RateLimit.check email 1000000 limiter).0 email 1000000 []) ≤ 1
Runs-recent-le_example = Runs-recent-le one_run email 2000000 (omega arith)

asked_again : (RateLimit.check email 2000000 asked).0 ≡ RateLimit.too_many 600
unfolding RateLimit.check RateLimit.attempts_of RateLimit.set_attempts text_eq
asked_again = refl

retry_enough_example :
    (RateLimit.check email
      (2000000 + 600 * RateLimit.second)
      (RateLimit.check email 2000000 asked).1).0
    ≡ RateLimit.admitted
retry_enough_example = retry_enough one_run email 2000000 602000000 600 asked_again (omega arith)

none-Once : Once []
none-Once = λ target voter. omega arith

abbrev sprint_row : Sprints.Sprint
sprint_row = record {
  id = 4;
  project_id = 3;
  name = text "Sprint";
  goal = none;
  state = active;
  start_date = none;
  end_date = none;
}

abbrev sprints : Sprints.Board
sprints = record {
  sprints = sprint_row ∷ [];
  tickets = record (sample 11 story none) { sprint_id = some 4 } ∷ [];
}

sprints-IsExclusive : IsExclusive sprints.sprints
sprints-IsExclusive = record { keyed = λ k. ground arith; exclusive = λ project. ground arith }

second_fresh : lookup Sprints.sprint_key 6 sprints.sprints ≡ none
unfolding lookup
second_fresh = refl

abbrev with_second : Sprints.Board
with_second = (Sprints.create 6 (some 3) (text "Next") none none none sprints).1

Reaches-IsExclusive_example : IsExclusive (Sprints.start 6 with_second).1.sprints
Reaches-IsExclusive_example =
    Reaches-IsExclusive sprints-IsExclusive
      (starting (creating started_from 6 (some 3) (text "Next") none none none second_fresh) 6)
