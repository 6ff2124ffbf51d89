-- ===== src/Examples/Rows.antt =====
-- Sample rows and requests.
use problem_bulletin.Prelude.{ℕ, Option, none, some, List, [], ◌∷◌}
use problem_bulletin.Prelude.Text.{Text, text}
use problem_bulletin.Domain.{
  TicketType, epic, story, todo, medium, user, agent, Ticket, Project, Person, Db, Context, flushed,
}
use problem_bulletin.Service.{World}
use problem_bulletin.Tickets.Create.{NewTicket}
use problem_bulletin.Tickets.Update.{Patch}

abbrev pub alice : Person
alice = record { kind = user; id = 1 }

abbrev pub bot : Person
bot = record { kind = agent; id = 7 }

abbrev pub other_bot : Person
other_bot = record { kind = agent; id = 8 }

abbrev pub request : Context
request = record { now = 100; step = none; new_id = 50; flush = flushed }

abbrev pub sample : ℕ → TicketType → Option ℕ → Ticket
sample id type parent = record {
  id = id;
  seq_number = id;
  display_id = text "DEF-1";
  title = text "A ticket";
  description = none;
  type = type;
  status = todo;
  priority = medium;
  parent_id = parent;
  project_id = 3;
  sprint_id = none;
  component_id = none;
  epic_id = none;
  reporter_id = 1;
  reporter_type = user;
  assignee_id = none;
  assignee_type = none;
  story_points = none;
  due_date = none;
  labels = [];
  fix_versions = [];
  custom_fields = text "{}";
  resolution = none;
  resolved_at = none;
  created_agent_step_id = none;
  last_actor_type = some user;
  last_actor_id = some 1;
  last_activity_at = some 90;
  last_agent_step_id = none;
  version = 4;
  created_at = 80;
  updated_at = none;
}

abbrev pub project : Project
project = record { id = 3; key = text "DEF"; state_change_coalesce_seconds = 300; last_seq = 2 }

abbrev pub the_epic : Ticket
the_epic = sample 10 epic none

abbrev pub the_story : Ticket
the_story = sample 11 story (some 10)

abbrev pub two_tickets : List Ticket
two_tickets = the_epic ∷ the_story ∷ []

abbrev pub tables : List Ticket → Db
tables tickets = record {
  projects = project ∷ [];
  tickets = tickets;
  transitions = [];
  comments = [];
  links = [];
  watchers = [];
  notifications = [];
  agents = [];
  runs = [];
  lessons = [];
  audit = [];
  staged = [];
}

abbrev pub empty_world : World
empty_world = record { db = tables []; published = [] }

abbrev pub new_story : NewTicket
new_story = record {
  title = text "A story";
  description = none;
  type = story;
  priority = medium;
  parent_id = none;
  assignee_id = none;
  assignee_type = none;
  labels = [];
  custom_fields = text "{}";
  story_points = none;
  due_date = none;
  project_id = none;
  project_key = none;
  sprint_id = none;
  component_id = none;
  fix_versions = [];
}

abbrev pub rename : Text → Patch
rename title = record {
  title = some title;
  description = none;
  priority = none;
  parent_id = none;
  labels = none;
  custom_fields = none;
  story_points = none;
  due_date = none;
  sprint_id = none;
  component_id = none;
  fix_versions = none;
  resolution = none;
  unknown = [];
}
