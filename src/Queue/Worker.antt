-- ===== src/Queue/Worker.antt =====
-- `AgentRunQueue.process_one` of app/services/agent_run_queue.py. The provider is an argument, and so
-- is whether the database refuses one of the writes that follow its answer: the exception is caught
-- there, but the transaction is aborted, so the last flush raises and nothing is committed.
pub mod Drain
pub mod Turn
use problem_bulletin.Prelude.{
  ℕ, suc, ◌==◌, ◌&&◌, ◌||◌, Bool, true, false, not, Option, none, some, List, [], ◌∷◌, ◌++◌, map,
  any, ltb, leb, if◌then◌else◌,
}
use problem_bulletin.Prelude.Table.{lookup, put}
use problem_bulletin.Prelude.Text.{Text, text, is_empty, decimal}
use problem_bulletin.Domain.{
  Db, Context, Person, user, agent, Ticket, ticket_key, TicketComment, comment_key,
  TicketNotification, agent_responded, agent_invoked_in_comment,
}
use problem_bulletin.Domain.Runs.{
  AgentRun, run_key, RunStatus, pending, running, done, error, AgentAccount, agent_key,
  ProjectLesson,
}
use problem_bulletin.Queue.Effects.{ProviderResult, ShowId, side_effects, truthy}

-- What `provider.run` does on agent, ticket, comment and prompt: it raises or returns.
pub data Ran : Type 0 where
  raised : Text → Ran
  gave : ProviderResult → Ran

abbrev pub Provider : Type 0
Provider = ℕ → ℕ → Option ℕ → Text → Ran

-- Whether a write that follows what the provider did with a run is refused by the database.
abbrev pub Refuses : Type 0
Refuses = AgentRun → Ran → Bool

-- What a turn answers: there was no pending row, the id of the row, or an exception.
pub data Turned : Type 0 where
  idle lost : Turned
  processed : ℕ → Turned

abbrev pub is_pending : AgentRun → Bool
is_pending r = elim r.status [ pending ↦ true | running ↦ false | done ↦ false | error ↦ false ]

-- `order_by(enqueued_at, id)`
abbrev pub before : AgentRun → AgentRun → Bool
before r s = ltb r.enqueued_at s.enqueued_at || r.enqueued_at == s.enqueued_at && leb r.id s.id

-- The oldest pending row.
unfoldable pub oldest : List AgentRun → Option AgentRun
oldest [] = none
oldest (r ∷ runs) =
    let rest = oldest runs in
    if is_pending r
    then elim rest [ none ↦ some r | some s ↦ (if before r s then some r else some s) ]
    else rest

abbrev pub started : Context → AgentRun → AgentRun
started ctx r = record r { status = running; started_at = some ctx.now }

-- `row.status = "error"; row.error = ...; row.finished_at = ...`
abbrev pub failed : Context → Text → AgentRun → AgentRun
failed ctx why r = record r { status = error; error_text = some why; finished_at = some ctx.now }

abbrev pub succeeded : Context → ProviderResult → AgentRun → AgentRun
succeeded ctx result r = record r {
  status = done;
  response_body = some result.comment_body;
  comment_id = some ctx.new_id;
  finished_at = some ctx.now;
}

-- `result.error or "provider returned status=error"`
abbrev pub error_of : ProviderResult → Text
error_of result = elim (truthy result.error) [
  | none ↦ text "provider returned status=error"
  | some s ↦ s
]

abbrev pub keep_run : AgentRun → Db → Db
keep_run r db = record db { runs = put run_key r db.runs }

-- What follows the provider's answer, on the row that is running.
unfoldable pub settle : ShowId → Context → AgentRun → Ran → Db → Db
unfolding side_effects
settle show ctx r (raised why) db = keep_run (failed ctx why r) db
settle show ctx r (gave result) db =
    if result.is_ok
    then keep_run (succeeded ctx result r) (side_effects show r result ctx db)
    else keep_run (failed ctx (error_of result) r) db

-- `process_one` and the end of its transaction: an exception rolls it back.
unfoldable pub process_one : Provider → Refuses → ShowId → Context → Db → Turned × Db
unfolding oldest settle
process_one provider refuses show ctx db = elim (oldest db.runs) [
  | none ↦ (idle, db)
  | some r ↦
      let r' = started ctx r in
      let ran = provider r.agent_id r.ticket_id r.comment_id r.prompt in
      if refuses r ran
      then (lost, db)
      else (processed r.id, settle show ctx r' ran (keep_run r' db))
]
