-- ===== src/Tickets/Create.antt =====
-- `TicketService.create`.
use problem_bulletin.Prelude.{
  ℕ, ◌+◌, ◌||◌, Option, none, some, List, ◌∷◌, ◌++◌, if◌then◌else◌, find,
}
use problem_bulletin.Prelude.Table.{lookup, put}
use problem_bulletin.Prelude.Text.{Text, text, text_eq, is_blank, decimal}
use problem_bulletin.Domain.{
  Ticket, TicketType, workpackage, epic, TicketPriority, TicketStatus, backlog, todo, type_eq,
  Project, project_key, Person, Party, Context, Exec, Error, title_required, assignee_pair,
  assignee_kind, no_default_project, unknown_project, cross_project, constraint_violated, gets,
  or_raise, raise_if, modify, raise, pure, lift, ◌>>=◌, ◌>>◌, step_for, Flush, flushed,
  same_project, violated, record_audit, stage_event, ticket_entity, created, rows,
}
use problem_bulletin.Hierarchy.{validate_hierarchy, walk_to_epic}
use problem_bulletin.Tickets.{unpaired, bad_kind}

-- A project's identifier: a UUID, or a text that parses as one, or else a key.
pub data ProjectIdent : Type 0 where
  by_id : ℕ → ProjectIdent
  by_key : Text → ProjectIdent

pub record NewTicket : Type 0 where
  pub title : Text
  pub description : Option Text
  pub type : TicketType
  pub priority : TicketPriority
  pub parent_id : Option ℕ
  pub assignee_id : Option ℕ
  pub assignee_type : Option Party
  pub labels : List Text
  pub custom_fields : Text
  pub story_points : Option ℕ
  pub due_date : Option ℕ
  pub project_id : Option ProjectIdent
  pub project_key : Option ProjectIdent
  pub sprint_id : Option ℕ
  pub component_id : Option ℕ
  pub fix_versions : List Text

-- `_DEFAULT_PROJECT_KEY`
abbrev pub default_project_key : Text
default_project_key = text "DEF"

-- `project_id`, else `project_key`, else the default key
abbrev pub chosen_project : Option ProjectIdent → Option ProjectIdent → ProjectIdent
chosen_project (some i) key = i
chosen_project none (some i) = i
chosen_project none none = by_key default_project_key

-- `ProjectService.get`
unfoldable pub get_project : ProjectIdent → List Project → Option Project
get_project (by_id id) projects = lookup project_key id projects
get_project (by_key key) projects = find (λ (p : Project). text_eq p.key key) projects

abbrev pub missing_project : ProjectIdent → Error
missing_project (by_id id) = unknown_project
missing_project (by_key key) =
    if text_eq key default_project_key then no_default_project else unknown_project

-- `_resolve_project`
unfoldable pub resolve_project : Option ProjectIdent → Option ProjectIdent → Exec Project
unfolding get_project
resolve_project id key = do
  found ← gets (λ db. get_project (chosen_project id key) db.projects)
  or_raise found (missing_project (chosen_project id key))

-- `ProjectService.next_seq_number`: `nextval` of the project's sequence
unfoldable pub next_seq_number : Project → Exec ℕ
next_seq_number p = do
  modify λ db. record db {
    projects = put project_key (record p { last_seq = p.last_seq + 1 }) db.projects;
  }
  pure (p.last_seq + 1)

-- workpackage/epic -> backlog; everything else -> todo
abbrev pub default_status : TicketType → TicketStatus
default_status type = if type_eq type workpackage || type_eq type epic then backlog else todo

abbrev pub new_ticket : NewTicket → Person → Context → Project → ℕ → Option ℕ → Ticket
new_ticket args actor ctx project n epic_id = record {
  id = ctx.new_id;
  seq_number = n;
  display_id = project.key ++ text "-" ++ decimal n;
  title = args.title;
  description = args.description;
  type = args.type;
  status = default_status args.type;
  priority = args.priority;
  parent_id = args.parent_id;
  project_id = project.id;
  sprint_id = args.sprint_id;
  component_id = args.component_id;
  epic_id = epic_id;
  reporter_id = actor.id;
  reporter_type = actor.kind;
  assignee_id = args.assignee_id;
  assignee_type = args.assignee_type;
  story_points = args.story_points;
  due_date = args.due_date;
  labels = args.labels;
  fix_versions = args.fix_versions;
  custom_fields = args.custom_fields;
  resolution = none;
  resolved_at = none;
  created_agent_step_id = step_for actor.kind ctx.step;
  last_actor_type = some actor.kind;
  last_actor_id = some actor.id;
  last_activity_at = some ctx.now;
  last_agent_step_id = step_for actor.kind ctx.step;
  version = 1;
  created_at = ctx.now;
  updated_at = none;
}

-- `session.add(ticket)` and its flush
unfoldable pub insert_ticket : Flush → Ticket → Exec (Unit {0})
insert_ticket flushed t = modify λ db. record db { tickets = t ∷ db.tickets }
insert_ticket same_project t = raise cross_project
insert_ticket violated t = raise constraint_violated

-- `session.add(TicketTransition(...))`
unfoldable pub log_transition :
    Ticket → Option TicketStatus → TicketStatus → Person → Context → Option Text → Exec (Unit {0})
log_transition t from to actor ctx reason = modify λ db. record db {
  transitions =
      record {
        ticket_id = t.id;
        from_status = from;
        to_status = to;
        actor_id = actor.id;
        actor_type = actor.kind;
        reason = reason;
        agent_step_id = step_for actor.kind ctx.step;
      }
      ∷ db.transitions;
}

-- `TicketService.create`
unfoldable pub create : NewTicket → Person → Context → Exec Ticket
unfolding next_seq_number insert_ticket log_transition record_audit stage_event
create args actor ctx = do
  raise_if (is_blank args.title) title_required
  raise_if (unpaired args.assignee_id args.assignee_type) assignee_pair
  raise_if (bad_kind args.assignee_type) assignee_kind
  project ← resolve_project args.project_id args.project_key
  valid ← gets (λ db. validate_hierarchy db.tickets args.type args.parent_id none project.id)
  lift valid
  n ← next_seq_number project
  epic_id ← gets (λ db. walk_to_epic db.tickets args.parent_id)
  let t = new_ticket args actor ctx project n epic_id
  insert_ticket ctx.flush t
  log_transition t none t.status actor ctx none
  record_audit ticket_entity t.id created actor (rows none (some t))
  stage_event created t.id
  pure t
