-- ===== src/Notifications/Fanout.antt =====
-- The fanouts of app/services/ticket_notifications.py, as writes to the notification rows. An
-- insert that the database refuses inside its savepoint leaves no row; that is not modelled.
pub mod Exact
pub mod Newest
pub mod Coalesced
use problem_bulletin.Prelude.{
  ℕ, Bool, false, ◌&&◌, Option, none, some, List, [], ◌∷◌, ◌++◌, ◌==◌, if◌then◌else◌, any,
}
use problem_bulletin.Prelude.Table.{lookup}
use problem_bulletin.Prelude.Text.{Text, text, is_empty}
use problem_bulletin.Domain.{
  TicketStatus, status_value, Person, person_eq, Project, project_key, Ticket, TicketNotification,
  NotificationKind, ticket_mention, ticket_assigned, ticket_state_change, ticket_watcher_added,
  ticket_blocked, ticket_resolved, ticket_cancelled,
}
use problem_bulletin.Notifications.Excerpt.{excerpt_of}
use problem_bulletin.Notifications.Coalesce.{Message, new_row, coalesce_or_insert}
use problem_bulletin.Notifications.Recipients.{nobody, add_all, pair, watching, involved}

abbrev pub Inbox : Type 0
Inbox = List TicketNotification

-- A message about a ticket.
abbrev pub about : NotificationKind → Person → Ticket → Option ℕ → Option Text → Message
about kind actor t comment excerpt = record {
  kind = kind;
  actor = actor;
  target_id = t.id;
  target_display_id = some t.display_id;
  comment_id = comment;
  excerpt = excerpt;
}

-- `for rtype, rid in recipients: ... pg_insert(...)`
unfoldable pub insert_each : Message → ℕ → List Person → Inbox → Inbox
insert_each m now [] inbox = inbox
insert_each m now (p ∷ people) inbox = insert_each m now people (new_row m now p ∷ inbox)

abbrev is_mention_of : ℕ → Person → TicketNotification → Bool
is_mention_of comment p n = elim n.kind [
  | ticket_mention ↦ elim n.comment_id [
    | none ↦ false
    | some c ↦ c == comment && person_eq n.recipient p
  ]
  | _ ↦ false
]

-- `create_mention`: `ON CONFLICT DO NOTHING` on the comment and the recipient
unfoldable pub create_mention : Message → ℕ → ℕ → Inbox → Person → Inbox
create_mention m comment now inbox p =
    if any (is_mention_of comment p) inbox then inbox else new_row m now p ∷ inbox

unfoldable pub create_mentions : Message → ℕ → ℕ → List Person → Inbox → Inbox
create_mentions m comment now [] inbox = inbox
create_mentions m comment now (p ∷ people) inbox =
    create_mentions m comment now people (create_mention m comment now inbox p)

-- `fanout_mentions`
unfoldable pub fanout_mentions : ℕ → Person → Ticket → ℕ → Text → List Person → Inbox → Inbox
unfolding create_mentions create_mention add_all
fanout_mentions now actor t comment body people inbox =
    let m = about ticket_mention actor t (some comment) (some (excerpt_of body)) in
    create_mentions m comment now (add_all actor people nobody).recipients inbox

-- `fanout_assigned`, for an assignee that is not null
unfoldable pub fanout_assigned : ℕ → Person → Person → Ticket → Inbox → Inbox
fanout_assigned now actor assignee t inbox =
    let excerpt =
      if is_empty t.title then none else some (excerpt_of (text "Assigned to you: " ++ t.title)) in
    if person_eq assignee actor
    then inbox
    else new_row (about ticket_assigned actor t none excerpt) now assignee ∷ inbox

-- `fanout_watcher_added`
unfoldable pub fanout_watcher_added : ℕ → Person → Person → Ticket → Inbox → Inbox
fanout_watcher_added now actor watcher t inbox =
    let excerpt = some (text "You were added as a watcher") in
    if person_eq watcher actor
    then inbox
    else new_row (about ticket_watcher_added actor t none excerpt) now watcher ∷ inbox

-- `f"{from_status} → {to_status}"`
abbrev pub arrow : TicketStatus → TicketStatus → Text
arrow from to = status_value from ++ text " → " ++ status_value to

-- `_STATE_CHANGE_COALESCE_SECONDS` and the project's own window
unfoldable pub coalesce_seconds : List Project → ℕ → ℕ
coalesce_seconds projects project = elim (lookup project_key project projects) [
  | none ↦ 60
  | some p ↦ p.state_change_coalesce_seconds
]

unfoldable pub coalesce_each : Message → ℕ → ℕ → List Person → Inbox → Inbox
unfolding coalesce_or_insert
coalesce_each m now seconds [] inbox = inbox
coalesce_each m now seconds (p ∷ people) inbox =
    coalesce_each m now seconds people (coalesce_or_insert m now seconds inbox p)

abbrev pub assignee_of : Ticket → Option Person
assignee_of t = pair t.assignee_type t.assignee_id

abbrev pub reporter_of : Ticket → Option Person
reporter_of t = some (record { kind = t.reporter_type; id = t.reporter_id })

-- `fanout_state_change`
unfoldable pub fanout_state_change :
    ℕ → List Project → Person → TicketStatus → TicketStatus → Ticket → List Person → Inbox → Inbox
unfolding coalesce_each watching
fanout_state_change now projects actor from to t watchers inbox =
    coalesce_each (about ticket_state_change actor t none (some (arrow from to))) now
      (coalesce_seconds projects t.project_id) (watching actor (assignee_of t) watchers) inbox

-- `fanout_blocked`
unfoldable pub fanout_blocked : ℕ → Person → Ticket → List Person → Inbox → Inbox
unfolding insert_each watching
fanout_blocked now actor t watchers inbox =
    insert_each (about ticket_blocked actor t none none) now
      (watching actor (assignee_of t) watchers) inbox

-- `fanout_resolved`
unfoldable pub fanout_resolved : ℕ → Person → TicketStatus → Ticket → List Person → Inbox → Inbox
unfolding insert_each involved
fanout_resolved now actor from t watchers inbox =
    insert_each (about ticket_resolved actor t none (some (status_value from ++ text " → done")))
      now (involved actor (assignee_of t) (reporter_of t) watchers) inbox

-- `fanout_cancelled`
unfoldable pub fanout_cancelled : ℕ → Person → TicketStatus → Ticket → List Person → Inbox → Inbox
unfolding insert_each involved
fanout_cancelled now actor from t watchers inbox =
    let excerpt = some (status_value from ++ text " → cancelled") in
    insert_each (about ticket_cancelled actor t none excerpt) now
      (involved actor (assignee_of t) (reporter_of t) watchers) inbox
