-- ===== src/Domain/Rows.antt =====
-- app/models/*.py: the rows. A UUID is a number that is only compared, a datetime counts
-- microseconds, JSON and column contents that no code reads are texts.
use problem_bulletin.Prelude.{ℕ, Bool, Option, List, ◌==◌, ◌&&◌}
use problem_bulletin.Prelude.Text.{Text}
use problem_bulletin.Domain.Enums.{
  TicketType, TicketStatus, TicketPriority, TicketLinkType, Party, party_eq,
}

-- app/models/ticket.py, less the generated column `search_tsv`
pub record Ticket : Type 0 where
  pub id : ℕ
  pub seq_number : ℕ
  pub display_id : Text
  pub title : Text
  pub description : Option Text
  pub type : TicketType
  pub status : TicketStatus
  pub priority : TicketPriority
  pub parent_id : Option ℕ
  pub project_id : ℕ
  pub sprint_id : Option ℕ
  pub component_id : Option ℕ
  pub epic_id : Option ℕ
  pub reporter_id : ℕ
  pub reporter_type : Party
  pub assignee_id : Option ℕ
  pub assignee_type : Option Party
  pub story_points : Option ℕ
  pub due_date : Option ℕ
  pub labels : List Text
  pub fix_versions : List Text
  pub custom_fields : Text
  pub resolution : Option Text
  pub resolved_at : Option ℕ
  pub created_agent_step_id : Option Text
  pub last_actor_type : Option Party
  pub last_actor_id : Option ℕ
  pub last_activity_at : Option ℕ
  pub last_agent_step_id : Option Text
  pub version : ℕ
  pub created_at : ℕ
  pub updated_at : Option ℕ

abbrev pub ticket_key : Ticket → ℕ
ticket_key t = t.id

-- app/models/project.py
pub record Project : Type 0 where
  pub id : ℕ
  pub key : Text
  pub state_change_coalesce_seconds : ℕ
  -- the last value of the PostgreSQL sequence `seq_<key>`
  pub last_seq : ℕ

abbrev pub project_key : Project → ℕ
project_key p = p.id

-- app/models/ticket_transition.py
pub record TicketTransition : Type 0 where
  pub ticket_id : ℕ
  pub from_status : Option TicketStatus
  pub to_status : TicketStatus
  pub actor_id : ℕ
  pub actor_type : Party
  pub reason : Option Text
  pub agent_step_id : Option Text

-- app/models/ticket_comment.py
pub record TicketComment : Type 0 where
  pub id : ℕ
  pub ticket_id : ℕ
  pub parent_comment_id : Option ℕ
  pub author_id : ℕ
  pub author_type : Party
  pub body : Text
  pub agent_step_id : Option Text
  pub mentions : List ℕ

abbrev pub comment_key : TicketComment → ℕ
comment_key c = c.id

-- app/models/ticket_link.py
pub record TicketLink : Type 0 where
  pub source_id : ℕ
  pub target_id : ℕ
  pub link_type : TicketLinkType
  pub created_by : ℕ
  pub created_by_type : Party
  pub agent_step_id : Option Text

-- A principal as the tables name it: a type and an id.
pub record Person : Type 0 where
  pub kind : Party
  pub id : ℕ

abbrev pub person_eq : Person → Person → Bool
person_eq p q = party_eq p.kind q.kind && p.id == q.id

-- app/models/ticket_watcher.py
pub record TicketWatcher : Type 0 where
  pub ticket_id : ℕ
  pub watcher : Person

pub data NotificationKind : Type 0 where
  ticket_mention ticket_assigned ticket_state_change ticket_watcher_added ticket_blocked
        ticket_resolved ticket_cancelled ticket_due_soon agent_responded agent_invoked_in_comment :
      NotificationKind

-- app/models/ticket_notification.py
pub record TicketNotification : Type 0 where
  pub kind : NotificationKind
  pub recipient : Person
  pub actor : Person
  pub target_id : ℕ
  pub target_display_id : Option Text
  pub comment_id : Option ℕ
  pub excerpt : Option Text
  pub is_read : Bool
  pub created_at : ℕ
