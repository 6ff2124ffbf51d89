-- ===== src/Domain/Runs.antt =====
-- app/models/agent_run.py, app/models/agent_account.py, app/models/project_lesson.py
use problem_bulletin.Prelude.{ℕ, Option}
use problem_bulletin.Prelude.Text.{Text}

pub data RunStatus : Type 0 where
  pending running done error : RunStatus

-- app/models/agent_run.py
pub record AgentRun : Type 0 where
  pub id : ℕ
  pub agent_id : ℕ
  pub ticket_id : ℕ
  pub comment_id : Option ℕ
  pub status : RunStatus
  pub prompt : Text
  pub response_body : Option Text
  pub error_text : Option Text
  pub idempotency_key : Text
  pub enqueued_at : ℕ
  pub started_at : Option ℕ
  pub finished_at : Option ℕ

abbrev pub run_key : AgentRun → ℕ
run_key r = r.id

pub record AgentAccount : Type 0 where
  pub id : ℕ
  pub handle : Option Text
  pub created_by : ℕ

abbrev pub agent_key : AgentAccount → ℕ
agent_key a = a.id

-- A lesson with `source='agent'`.
pub record ProjectLesson : Type 0 where
  pub project_id : ℕ
  pub author_agent_id : ℕ
  pub agent_run_id : ℕ
  pub lesson_index : ℕ
  pub title : Text
  pub body : Text
