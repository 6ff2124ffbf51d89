-- ===== src/Domain/Session.antt =====
-- The session of a service call: the tables that the transaction sees, what it has staged, and
-- calls that may raise. What was flushed before a raise stays in the transaction, so the state
-- comes back beside the error too.
use problem_bulletin.Prelude.{
  ℕ, ◌≡◌, ◌⊎◌, refl, inl, inr, Bool, true, false, Option, none, some, List, ◌∷◌, if◌then◌else◌,
}
use problem_bulletin.Prelude.Text.{Text}
use problem_bulletin.Domain.Enums.{
  TicketStatus, TicketType, TicketLinkType, Party, user, agent, other,
}
use problem_bulletin.Domain.Rows.{
  Ticket, Project, TicketTransition, TicketComment, TicketLink, TicketWatcher, TicketNotification,
  Person,
}
use problem_bulletin.Domain.Runs.{AgentRun, AgentAccount, ProjectLesson}

pub data Entity : Type 0 where
  ticket_entity comment_entity link_entity : Entity

-- The `action` of an audit row (create, update, ...) and the last word of the event that is
-- staged beside it (ticket.created, ticket.updated, ...).
pub data Action : Type 0 where
  created updated deleted transitioned assigned claimed commented linked : Action

-- The `diff` of an audit row.
pub data Diff : Type 0 where
  rows : Option Ticket → Option Ticket → Diff
  moved : Ticket → Ticket → TicketStatus → TicketStatus → Option Text → Diff
  comment_diff : ℕ → Text → Diff
  link_diff : ℕ → ℕ → TicketLinkType → Diff

-- app/models/audit_log_event.py
pub record AuditLogEvent : Type 0 where
  pub entity_type : Entity
  pub entity_id : ℕ
  pub action : Action
  pub actor : Person
  pub diff : Diff

-- An envelope of app/events.py: its name and its ticket.
pub record Event : Type 0 where
  pub event : Action
  pub ticket_id : ℕ

pub record Db : Type 0 where
  pub projects : List Project
  pub tickets : List Ticket
  pub transitions : List TicketTransition
  pub comments : List TicketComment
  pub links : List TicketLink
  pub watchers : List TicketWatcher
  pub notifications : List TicketNotification
  pub agents : List AgentAccount
  pub runs : List AgentRun
  pub lessons : List ProjectLesson
  pub audit : List AuditLogEvent
  pub staged : List Event

-- What the database answers to a flush, beyond what the service has checked itself: the row is
-- written, `trg_tickets_same_project` refuses it, or another constraint does.
pub data Flush : Type 0 where
  flushed same_project violated : Flush

abbrev pub is_flushed : Flush → Bool
is_flushed flushed = true
is_flushed same_project = false
is_flushed violated = false

-- What a call reads from its surroundings: the clock, the agent step of the request, the UUID that
-- its new row gets, and the answer to its flush.
pub record Context : Type 0 where
  pub now : ℕ
  pub step : Option Text
  pub new_id : ℕ
  pub flush : Flush

-- `get_agent_step_id() if actor_type == "agent" else None`
abbrev pub step_for : Party → Option Text → Option Text
step_for agent step = step
step_for user step = none
step_for (other s) step = none

pub data Error : Type 0 where
  title_required assignee_pair assignee_kind no_default_project unknown_project : Error
  subtask_needs_parent parent_missing parent_cycle existing_cycle cross_project : Error
  parent_type : TicketType → TicketType → Error
  not_updatable constraint_violated integrity ticket_not_found : Error
  stale_version : ℕ → Error
  has_children : ℕ → Error
  invalid_transition : TicketStatus → TicketStatus → Error
  only_agents_claim : Error
  already_claimed : Option ℕ → Error
  body_required parent_comment self_link tombstoned duplicate_link watcher_kind : Error

pub data Result {ℓ} (A : Type ℓ) : Type ℓ where
  ok : A → Result A
  err : Error → Result A

pub Result-cases : (r : Result (Unit {0})) → (r ≡ ok tt) ⊎ ((e : Error) × (r ≡ err e))
Result-cases (ok u) = inl refl
Result-cases (err e) = inr (e, refl)

abbrev pub is_ok {ℓ} : {A : Type ℓ} → Result A → Bool
is_ok (ok a) = true
is_ok (err e) = false

abbrev pub Exec : Type 0 → Type 0
Exec A = Db → Result A × Db

module _ {A : Type 0} where
  abbrev pub pure : A → Exec A
  pure a db = (ok a, db)

  abbrev pub raise : Error → Exec A
  raise e db = (err e, db)

  abbrev pub lift : Result A → Exec A
  lift r db = (r, db)

  abbrev pub gets : (Db → A) → Exec A
  gets f db = (ok (f db), db)

  abbrev pub or_raise : Option A → Error → Exec A
  or_raise none e = raise e
  or_raise (some a) e = pure a

infixl 5 ◌>>=◌ ◌>>◌
abbrev pub ◌>>=◌ : {A B : Type 0} → Exec A → (A → Exec B) → Exec B
◌>>=◌ m f db = let (r, db') = m db in elim r [ ok a ↦ f a db' | err e ↦ raise e db' ]

abbrev pub ◌>>◌ : {A B : Type 0} → Exec A → Exec B → Exec B
m >> k = m >>= λ _. k

abbrev pub raise_if : Bool → Error → Exec (Unit {0})
raise_if c e db = (if c then err e else ok tt, db)

abbrev pub modify : (Db → Db) → Exec (Unit {0})
modify f db = (ok tt, f db)

-- `AuditService.record`, as the services call it: with an action and an entity type.
unfoldable pub record_audit : Entity → ℕ → Action → Person → Diff → Exec (Unit {0})
record_audit entity id action actor diff = modify λ db. record db {
  audit =
      record { entity_type = entity; entity_id = id; action = action; actor = actor; diff = diff }
      ∷ db.audit;
}

-- `stage_event`
unfoldable pub stage_event : Action → ℕ → Exec (Unit {0})
stage_event event id =
    modify λ db. record db { staged = record { event = event; ticket_id = id } ∷ db.staged }
