-- ===== src/Tickets/Remove.antt =====
-- `TicketService.delete`, with what the foreign keys of app/models do to the other tables.
use problem_bulletin.Prelude.{
  ℕ, Bool, false, not, Option, none, some, List, ◌==◌, if◌then◌else◌, filter, map, count, any, ltb,
}
use problem_bulletin.Prelude.Table.{remove}
use problem_bulletin.Domain.{
  Ticket, ticket_key, TicketTransition, TicketComment, TicketLink, TicketWatcher,
  TicketNotification, Person, Db, Exec, has_children, gets, raise_if, modify, ◌>>=◌, ◌>>◌,
  record_audit, stage_event, ticket_entity, deleted, rows,
}
use problem_bulletin.Domain.Runs.{AgentRun}
use problem_bulletin.Tickets.{Ident, load}

-- `o = k`, for a nullable column
abbrev pub points_to : ℕ → Option ℕ → Bool
points_to k none = false
points_to k (some j) = j == k

-- `select(func.count()).where(Ticket.parent_id == ticket.id)`
abbrev pub child_count : ℕ → List Ticket → ℕ
child_count k tickets = count (λ (t : Ticket). points_to k t.parent_id) tickets

-- `fk_tickets_epic_id`: ON DELETE SET NULL
abbrev pub forget_epic : ℕ → Ticket → Ticket
forget_epic k t = record t { epic_id = (if points_to k t.epic_id then none else t.epic_id) }

-- Is it a comment of the ticket?
abbrev pub on_comment_of : ℕ → List TicketComment → Option ℕ → Bool
on_comment_of k comments none = false
on_comment_of k comments (some id) =
    any (λ (c : TicketComment). if c.ticket_id == k then c.id == id else false) comments

-- `agent_run.comment_id`: ON DELETE SET NULL
abbrev pub forget_comment : ℕ → List TicketComment → AgentRun → AgentRun
forget_comment k comments r = record r {
  comment_id = (if on_comment_of k comments r.comment_id then none else r.comment_id);
}

-- `session.delete(ticket)` and the foreign keys that point to the row and to its comments
unfoldable pub delete_row : ℕ → Db → Db
delete_row k db = record db {
  tickets = map (forget_epic k) (remove ticket_key k db.tickets);
  transitions = filter (λ (r : TicketTransition). not (r.ticket_id == k)) db.transitions;
  comments = filter (λ (r : TicketComment). not (r.ticket_id == k)) db.comments;
  links =
      filter (λ (r : TicketLink). if r.source_id == k then false else not (r.target_id == k))
        db.links;
  watchers = filter (λ (r : TicketWatcher). not (r.ticket_id == k)) db.watchers;
  notifications =
      filter (λ (n : TicketNotification). not (on_comment_of k db.comments n.comment_id))
        db.notifications;
  runs =
      map (forget_comment k db.comments)
        (filter (λ (r : AgentRun). not (r.ticket_id == k)) db.runs);
}

-- `TicketService.delete`
unfoldable pub delete : Ident → Person → Exec (Unit {0})
unfolding delete_row record_audit stage_event
delete ident actor = do
  t ← load ident
  children ← gets (λ db. child_count t.id db.tickets)
  raise_if (ltb 0 children) (has_children children)
  modify (delete_row t.id)
  record_audit ticket_entity t.id deleted actor (rows (some t) none)
  stage_event deleted t.id
