-- ===== src/Queue/Effects.antt =====
-- What `process_one` of app/services/agent_run_queue.py writes after an answer: the comment, the
-- notifications and the lessons (app/services/project_lessons.py).
use problem_bulletin.Prelude.{
  ℕ, suc, ◌==◌, ◌&&◌, Bool, false, Option, none, some, List, [], ◌∷◌, ◌++◌, map, any, if◌then◌else◌,
}
use problem_bulletin.Prelude.Table.{lookup}
use problem_bulletin.Prelude.Text.{Text, text, is_empty}
use problem_bulletin.Domain.{
  Db, Context, user, agent, Ticket, ticket_key, TicketComment, comment_key, TicketNotification,
  agent_responded, agent_invoked_in_comment,
}
use problem_bulletin.Domain.Runs.{AgentRun, AgentAccount, agent_key, ProjectLesson}

-- app/services/agent_provider.py, the result of a run
pub record ProviderResult : Type 0 where
  pub is_ok : Bool
  pub comment_body : Text
  pub error : Option Text
  pub summary : Option Text
  pub locations : List Text
  pub lessons_emitted : List Text

-- `"\n".join(parts)`
unfoldable pub join_lines : List Text → Text
join_lines [] = []
join_lines (s ∷ []) = s
join_lines (s ∷ t ∷ rest) = s ++ (10 ∷ join_lines (t ∷ rest))

abbrev location_lines : List Text → List Text
location_lines [] = []
location_lines (l ∷ ls) = [] ∷ text "**Locations**:" ∷ map (λ x. text "- " ++ x) (l ∷ ls)

-- `_format_structured_comment`
unfoldable pub format_structured_comment : Text → Text → Text → Text → List Text → Text
unfolding join_lines
format_structured_comment handle display_id summary details locations = join_lines (
    (text "@" ++ handle ++ text " finished on " ++ display_id)
    ∷ []
    ∷ (text "**Summary**: " ++ summary)
    ∷ []
    ∷ (text "**Details**: " ++ details)
    ∷ location_lines locations)

abbrev pub truthy : Option Text → Option Text
truthy none = none
truthy (some s) = if is_empty s then none else some s

-- `if _summary: ... if _handle and _display_id: ...`
abbrev pub body_to_post : ProviderResult → Option Text → Option Text → Text
body_to_post result handle display_id = elim (truthy result.summary) [
  | none ↦ result.comment_body
  | some s ↦ elim (truthy handle) [
    | none ↦ result.comment_body
    | some h ↦ elim (truthy display_id) [
      | none ↦ result.comment_body
      | some d ↦ format_structured_comment h d s result.comment_body result.locations
    ]
  ]
]

abbrev handle_of : Option AgentAccount → Option Text
handle_of none = none
handle_of (some a) = a.handle

abbrev display_of : Option Ticket → Option Text
display_of none = none
display_of (some t) = some t.display_id

-- `str(uuid)`; a parameter, since the library prints it
abbrev pub ShowId : Type 0
ShowId = ℕ → Text

abbrev answered : AgentRun → Context → Option Text → ℕ → TicketNotification
answered run ctx display_id owner = record {
  kind = agent_responded;
  recipient = record { kind = user; id = owner };
  actor = record { kind = agent; id = run.agent_id };
  target_id = run.ticket_id;
  target_display_id = display_id;
  comment_id = some ctx.new_id;
  excerpt = none;
  is_read = false;
  created_at = ctx.now;
}

abbrev invoked : ShowId → AgentRun → Context → Option Text → ℕ → TicketComment → TicketNotification
invoked show run ctx display_id owner origin = record {
  kind = agent_invoked_in_comment;
  recipient = record { kind = user; id = owner };
  actor = record { kind = user; id = origin.author_id };
  target_id = run.ticket_id;
  target_display_id = display_id;
  comment_id = some origin.id;
  excerpt = some (text "response_comment_id:" ++ show ctx.new_id);
  is_read = false;
  created_at = ctx.now;
}

-- The comment that the run came from, if its author is not the owner.
abbrev foreign_origin : ℕ → Option ℕ → List TicketComment → Option TicketComment
foreign_origin owner none comments = none
foreign_origin owner (some id) comments = elim (lookup comment_key id comments) [
  | none ↦ none
  | some c ↦ (if c.author_id == owner then none else some c)
]

-- The rows for the owner of the agent.
unfoldable pub tell_owner :
    ShowId
    → AgentRun
    → Context
    → Option Text
    → Option AgentAccount
    → List TicketComment
    → List TicketNotification
    → List TicketNotification
tell_owner show run ctx display_id none comments inbox = inbox
tell_owner show run ctx display_id (some a) comments inbox =
    let told = answered run ctx display_id a.created_by ∷ inbox in
    elim (foreign_origin a.created_by run.comment_id comments) [
      | none ↦ told
      | some c ↦ invoked show run ctx display_id a.created_by c ∷ told
    ]

-- `lesson.split("\n", 1)`, or the lesson and no body
unfoldable pub split_lesson : Text → Text × Text
split_lesson [] = ([], [])
split_lesson (c ∷ s) =
    let (title, body) = split_lesson s in if c == 10 then ([], s) else (c ∷ title, body)

-- `record_agent_lesson`: ON CONFLICT (agent_run_id, lesson_index) DO NOTHING
unfoldable pub record_agent_lesson :
    ℕ → AgentRun → ℕ → Text → List ProjectLesson → List ProjectLesson
unfolding split_lesson
record_agent_lesson project run index lesson lessons =
    if any (λ (l : ProjectLesson). l.agent_run_id == run.id && l.lesson_index == index) lessons
    then lessons
    else record {
      project_id = project;
      author_agent_id = run.agent_id;
      agent_run_id = run.id;
      lesson_index = index;
      title = (split_lesson lesson).0;
      body = (split_lesson lesson).1;
    }
      ∷ lessons

unfoldable pub record_lessons :
    ℕ → AgentRun → ℕ → List Text → List ProjectLesson → List ProjectLesson
unfolding record_agent_lesson
record_lessons project run index [] lessons = lessons
record_lessons project run index (s ∷ rest) lessons =
    record_lessons project run (suc index) rest (record_agent_lesson project run index s lessons)

-- The comment, the notifications and the lessons of a run that went well.
unfoldable pub side_effects : ShowId → AgentRun → ProviderResult → Context → Db → Db
unfolding tell_owner record_lessons format_structured_comment
side_effects show run result ctx db =
    let ticket = lookup ticket_key run.ticket_id db.tickets in
    let account = lookup agent_key run.agent_id db.agents in
    let comment : TicketComment = record {
      id = ctx.new_id;
      ticket_id = run.ticket_id;
      parent_comment_id = none;
      author_id = run.agent_id;
      author_type = agent;
      body = body_to_post result (handle_of account) (display_of ticket);
      agent_step_id = none;
      mentions = [];
    } in
    record db {
      comments = comment ∷ db.comments;
      notifications =
          tell_owner show run ctx (display_of ticket) account (comment ∷ db.comments)
            db.notifications;
      lessons = elim ticket [
        | none ↦ db.lessons
        | some t ↦ record_lessons t.project_id run 0 result.lessons_emitted db.lessons
      ];
    }
