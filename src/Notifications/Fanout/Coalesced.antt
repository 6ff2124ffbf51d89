-- ===== src/Notifications/Fanout/Coalesced.antt =====
-- The rows that a state change leaves, whether it is told by a new row or taken into an old one.
use problem_bulletin.Prelude.{ℕ, ◌==◌, Bool, not, ◌&&◌, ◌||◌, List, any}
use problem_bulletin.Prelude.Text.{Text}
use problem_bulletin.Domain.{is_party, Person, person_eq, Ticket, TicketNotification}
use problem_bulletin.Notifications.Coalesce.{Message, is_state_change}
use problem_bulletin.Notifications.Recipients.{in_people}
use problem_bulletin.Notifications.Recipients.Laws.{is_named}
use problem_bulletin.Notifications.Fanout.{Inbox, assignee_of}

-- An unread row of now that tells a person that a ticket's state has changed.
abbrev pub tells_now : ℕ → Person → ℕ → TicketNotification → Bool
tells_now now q target n =
    is_state_change n.kind
    && person_eq n.recipient q
    && n.target_id == target
    && not n.is_read
    && n.created_at == now

abbrev pub addressed : Person → TicketNotification → Bool
addressed q n = person_eq n.recipient q

module _ (m : Message) (now seconds : ℕ) where
  abbrev told : Person → Inbox → Bool
  told q rows = any (tells_now now q m.target_id) rows

-- The person is to be told: the assignee or a watcher, a user or agent, and not the actor.
abbrev pub is_concerned : Person → Ticket → List Person → Person → Bool
is_concerned actor t watchers q =
    not (person_eq q actor)
    && is_party q.kind
    && (is_named q (assignee_of t) || in_people q watchers)
