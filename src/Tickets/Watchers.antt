-- ===== src/Tickets/Watchers.antt =====
-- `TicketService.add_watcher`, `remove_watcher` and `list_watchers`.
use problem_bulletin.Prelude.{
  ℕ, Bool, not, ◌&&◌, Option, none, some, List, ◌∷◌, ◌==◌, if◌then◌else◌, filter, any,
}
use problem_bulletin.Domain.{
  Ticket, TicketWatcher, is_party, Person, person_eq, Db, Context, Exec, watcher_kind, gets,
  raise_if, modify, pure, ◌>>=◌, ◌>>◌,
}
use problem_bulletin.Notifications.Fanout.{fanout_watcher_added}
use problem_bulletin.Tickets.{Ident, load}

abbrev pub is_watch : ℕ → Person → TicketWatcher → Bool
is_watch ticket p w = w.ticket_id == ticket && person_eq w.watcher p

unfoldable pub is_watching : ℕ → Person → List TicketWatcher → Bool
is_watching ticket p watchers = any (is_watch ticket p) watchers

abbrev tell_watcher : Option Person → Context → Person → Ticket → Db → Db
tell_watcher none ctx p t db = db
tell_watcher (some actor) ctx p t db = record db {
  notifications = fanout_watcher_added ctx.now actor p t db.notifications;
}

-- The new row and its notification, unless the person watches already.
unfoldable pub watch : Option Person → Context → Person → Ticket → Db → Db
unfolding is_watching
watch actor ctx p t db =
    if is_watching t.id p db.watchers
    then db
    else tell_watcher actor ctx p t
        (record db { watchers = record { ticket_id = t.id; watcher = p } ∷ db.watchers })

-- `TicketService.add_watcher`
unfoldable pub add_watcher : Ident → Person → Option Person → Context → Exec TicketWatcher
unfolding watch
add_watcher ident p actor ctx = do
  raise_if (not (is_party p.kind)) watcher_kind
  t ← load ident
  modify (watch actor ctx p t)
  pure (record { ticket_id = t.id; watcher = p })

-- `TicketService.remove_watcher`
unfoldable pub remove_watcher : Ident → Person → Exec (Unit {0})
remove_watcher ident p = do
  t ← load ident
  modify (λ db. record db { watchers = filter (λ w. not (is_watch t.id p w)) db.watchers })

-- `TicketService.list_watchers`
unfoldable pub list_watchers : Ident → Exec (List TicketWatcher)
list_watchers ident = do
  t ← load ident
  gets (λ db. filter (λ (w : TicketWatcher). w.ticket_id == t.id) db.watchers)
