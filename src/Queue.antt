-- ===== src/Queue.antt =====
-- app/services/agent_run_queue.py: the queue over the `agent_run` rows. SHA-256 is a parameter.
pub mod Effects
pub mod Worker
use problem_bulletin.Prelude.{ℕ, Option, none, some, List, ◌∷◌, find}
use problem_bulletin.Prelude.Text.{Text, text_eq}
use problem_bulletin.Domain.{Context}
use problem_bulletin.Domain.Runs.{AgentRun, pending}

-- The first 32 hex digits of the SHA-256 of `agent_id:ticket_id:prompt`.
abbrev pub Digest : Type 0
Digest = ℕ → ℕ → Text → Text

-- `AgentRunQueue.enqueue`: the rows, and the id of the run
unfoldable pub enqueue :
    Digest → Context → ℕ → ℕ → Option ℕ → Text → List AgentRun → List AgentRun × ℕ
enqueue digest ctx agent ticket comment prompt runs =
    let key = digest agent ticket prompt in
    elim (find (λ (r : AgentRun). text_eq r.idempotency_key key) runs) [
      | some r ↦ (runs, r.id)
      | none ↦ (
        record {
          id = ctx.new_id;
          agent_id = agent;
          ticket_id = ticket;
          comment_id = comment;
          status = pending;
          prompt = prompt;
          response_body = none;
          error_text = none;
          idempotency_key = key;
          enqueued_at = ctx.now;
          started_at = none;
          finished_at = none;
        }
            ∷ runs,
        ctx.new_id,
      )
    ]
