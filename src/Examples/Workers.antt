-- ===== src/Examples/Workers.antt =====
-- The worker at a queue of two runs.
use problem_bulletin.Prelude.{
  ℕ, any, ◌==◌, true, false, ◌⊎◌, ◌≡◌, refl, some, none, [], ◌∷◌, List, count, arith,
}
use problem_bulletin.Prelude.Text.{text}
use problem_bulletin.Domain.{Db}
use problem_bulletin.Domain.Runs.{AgentRun, pending}
use problem_bulletin.Queue.Effects.{ShowId}
use problem_bulletin.Queue.Worker.{
  Provider, Refuses, raised, gave, is_pending, oldest, lost, process_one,
}
use problem_bulletin.Queue.Worker.Drain.{Keyed}
use problem_bulletin.Queue.Worker.Turn.{Turn, turn_lem, turns, turns_drain}
use problem_bulletin.Examples.Rows.{request, tables}

abbrev sample_run : ℕ → ℕ → AgentRun
sample_run id enqueued_at = record {
  id = id;
  agent_id = 7;
  ticket_id = 11;
  comment_id = none;
  status = pending;
  prompt = text "Fix it";
  response_body = none;
  error_text = none;
  idempotency_key = text "key";
  enqueued_at = enqueued_at;
  started_at = none;
  finished_at = none;
}

abbrev two_runs : List AgentRun
two_runs = sample_run 21 60 ∷ sample_run 22 50 ∷ []

abbrev queue : Db
queue = record (tables []) { runs = two_runs }

-- A provider that is down.
abbrev down : Provider
down who ticket comment prompt = raised (text "down")

abbrev no_text : ShowId
no_text id = []

older_first : oldest two_runs ≡ some (sample_run 22 50)
unfolding oldest
older_first = refl

two-Keyed : Keyed two_runs
two-Keyed = λ k. ground arith

-- A database that refuses an answer with the sign NUL.
abbrev refuses_nul : Refuses
refuses_nul r (raised why) = any (λ c. c == 0) why
refuses_nul r (gave result) = any (λ c. c == 0) result.comment_body

abbrev accepts : Refuses
accepts r ran = false

abbrev broken : Provider
broken who ticket comment prompt = raised (0 ∷ [])

turn_lem_example :
    (refuses_nul (sample_run 22 50) (raised (text "down")) ≡ false)
      × Turn down refuses_nul no_text request queue (sample_run 22 50)
    ⊎ (refuses_nul (sample_run 22 50) (raised (text "down")) ≡ true)
      × (process_one down refuses_nul no_text request queue ≡ (lost, queue))
turn_lem_example =
    turn_lem down refuses_nul no_text request queue (sample_run 22 50) older_first two-Keyed

turns_drain_example : count is_pending (turns 2 down accepts no_text request queue).runs ≡ 0
turns_drain_example =
    turns_drain down accepts no_text request (λ r ran. refl) 2 queue two-Keyed (omega arith)
