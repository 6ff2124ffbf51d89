-- ===== src/Tickets/Move.antt =====
-- `TicketService.transition`.
use problem_bulletin.Prelude.{ℕ, not, Option, some, List, ◌==◌, if◌then◌else◌, filter, map}
use problem_bulletin.Prelude.Text.{Text}
use problem_bulletin.Domain.{
  Ticket, TicketStatus, blocked, done, cancelled, status_eq, is_terminal, Person, TicketWatcher, Db,
  Context, Exec, invalid_transition, raise_if, modify, pure, ◌>>=◌, ◌>>◌, record_audit, stage_event,
  ticket_entity, transitioned, moved,
}
use problem_bulletin.Workflow.{is_allowed}
use problem_bulletin.Notifications.Fanout.{
  Inbox, fanout_state_change, fanout_blocked, fanout_resolved, fanout_cancelled,
}
use problem_bulletin.Tickets.{Ident, load, save, touched}
use problem_bulletin.Tickets.Create.{log_transition}

-- The ticket that is flushed.
abbrev pub moved_to : TicketStatus → Person → Context → Ticket → Ticket
moved_to target actor ctx t = touched actor ctx (record t {
  status = target;
  resolved_at = (if is_terminal target then some ctx.now else t.resolved_at);
})

-- `select(TicketWatcher).where(TicketWatcher.ticket_id == ticket.id)`
abbrev pub watchers_of : ℕ → List TicketWatcher → List Person
watchers_of id watchers =
    map (λ (w : TicketWatcher). w.watcher)
      (filter (λ (w : TicketWatcher). w.ticket_id == id) watchers)

-- The fanouts at the end of `transition`, over the inbox rows.
unfoldable pub announce : Db → Person → Context → TicketStatus → TicketStatus → Ticket → Inbox
announce db actor ctx from to t =
    let watchers = watchers_of t.id db.watchers in
    let told = fanout_state_change ctx.now db.projects actor from to t watchers db.notifications in
    if status_eq to blocked
    then fanout_blocked ctx.now actor t watchers told
    else if status_eq to done
    then fanout_resolved ctx.now actor from t watchers told
    else if status_eq to cancelled
    then fanout_cancelled ctx.now actor from t watchers told
    else told

-- `TicketService.transition`
unfoldable pub transition : Ident → Person → TicketStatus → Option Text → Context → Exec Ticket
unfolding save log_transition record_audit stage_event
transition ident actor target reason ctx = do
  t ← load ident
  raise_if (status_eq t.status target) (invalid_transition t.status target)
  raise_if (not (is_allowed t.status target)) (invalid_transition t.status target)
  log_transition t (some t.status) target actor ctx reason
  let t' = moved_to target actor ctx t
  save t'
  record_audit ticket_entity t.id transitioned actor (moved t t' t.status target reason)
  stage_event transitioned t.id
  modify (λ db. record db { notifications = announce db actor ctx t.status target t' })
  pure t'
