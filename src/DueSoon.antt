-- ===== src/DueSoon.antt =====
-- app/services/due_soon_scanner.py: who is told that a ticket is due soon. Time counts
-- microseconds. Whether an insert fails is an argument, as is the printing of a time; the clock of the
-- scanner and the one that stamps rows are one.
pub mod Once
pub mod Concerned
pub mod Told
use problem_bulletin.Prelude.{
  ℕ, zero, suc, ◌+◌, ◌-◌, ◌*◌, ◌==◌, Bool, true, false, not, ◌&&◌, ◌||◌, Option, none, some, List,
  [], ◌∷◌, ◌++◌, map, filter, any, count, ltb, leb, if◌then◌else◌,
}
use problem_bulletin.Prelude.Text.{Text, text}
use problem_bulletin.Domain.{
  Ticket, TicketWatcher, TicketNotification, NotificationKind, ticket_due_soon, Person, person_eq,
  is_terminal, user,
}

-- `_DEDUP_HOURS`, and an hour
abbrev pub dedup_hours : ℕ
dedup_hours = 24

abbrev pub hours : ℕ → ℕ
hours n = n * 3600000000

abbrev is_due_in : ℕ → ℕ → Option ℕ → Bool
is_due_in now lookahead none = false
is_due_in now lookahead (some d) = ltb now d && ltb d lookahead

-- The tickets of the query.
abbrev pub is_due_soon : ℕ → ℕ → Ticket → Bool
is_due_soon now lookahead_hours t =
    is_due_in now (now + hours lookahead_hours) t.due_date && not (is_terminal t.status)

abbrev pair : Ticket → List Person
pair t = elim t.assignee_type [
  | none ↦ []
  | some kind ↦ elim t.assignee_id [ none ↦ [] | some id ↦ record { kind = kind; id = id } ∷ [] ]
]

-- The assignee, the reporter and the watchers.
unfoldable pub candidates : Ticket → List TicketWatcher → List Person
candidates t watchers =
    pair t
    ++ (record { kind = t.reporter_type; id = t.reporter_id }
        ∷ map (λ (w : TicketWatcher). w.watcher)
            (filter (λ (w : TicketWatcher). w.ticket_id == t.id) watchers))

-- Each person once, with the set of those that were seen.
unfoldable pub unique : List Person → List Person → List Person
unique seen [] = []
unique seen (p ∷ people) =
    let known = unique seen people in
    let rest = unique (p ∷ seen) people in if any (person_eq p) seen then known else p ∷ rest

abbrev pub is_due_kind : NotificationKind → Bool
is_due_kind ticket_due_soon = true
is_due_kind _ = false

-- A row that tells a person of a ticket, written since the cutoff.
abbrev pub tells : Person → ℕ → ℕ → TicketNotification → Bool
tells p ticket cutoff n =
    is_due_kind n.kind
    && person_eq n.recipient p
    && n.target_id == ticket
    && leb cutoff n.created_at

-- What the scan has written, and the rows.
abbrev pub Written : Type 0
Written = ℕ × List TicketNotification

module _ (show_time : ℕ → Text) (fails : Ticket → Person → Bool) where
  abbrev due_text : Option ℕ → Text
  due_text none = text "Due soon"
  due_text (some d) = text "Due " ++ show_time d

  abbrev pub due_row : ℕ → Ticket → Person → TicketNotification
  due_row now t p = record {
    kind = ticket_due_soon;
    recipient = p;
    actor = record { kind = user; id = t.reporter_id };
    target_id = t.id;
    target_display_id = some t.display_id;
    comment_id = none;
    excerpt = some (due_text t.due_date);
    is_read = false;
    created_at = now;
  }

  abbrev pub insert_row : ℕ → Ticket → Person → Written → Written
  insert_row now t p (n, rows) = if fails t p then (n, rows) else (suc n, due_row now t p ∷ rows)

  -- `scalar_one_or_none` over the rows since the cutoff: none is written again, two of them are
  -- an exception, and without one a row is inserted under a savepoint.
  abbrev pub by_existing : ℕ → ℕ → Ticket → Person → Written → Option Written
  by_existing zero now t p w = some (insert_row now t p w)
  by_existing (suc zero) now t p w = some w
  by_existing (suc (suc n)) now t p w = none

  abbrev pub cutoff_at : ℕ → ℕ
  cutoff_at now = now - hours dedup_hours

  unfoldable pub tell : ℕ → Ticket → Person → Written → Option Written
  tell now t p (n, rows) = by_existing (count (tells p t.id (cutoff_at now)) rows) now t p (n, rows)

  abbrev pub then_on : (Written → Option Written) → Option Written → Option Written
  then_on f none = none
  then_on f (some w) = f w

  unfoldable pub tell_each : ℕ → Ticket → List Person → Written → Option Written
  unfolding tell
  tell_each now t [] w = some w
  tell_each now t (p ∷ people) w = then_on (tell_each now t people) (tell now t p w)

  unfoldable pub scan_tickets : ℕ → List Ticket → List TicketWatcher → Written → Option Written
  unfolding tell_each candidates unique
  scan_tickets now [] watchers w = some w
  scan_tickets now (t ∷ tickets) watchers w =
      then_on (scan_tickets now tickets watchers)
        (tell_each now t (unique [] (candidates t watchers)) w)

  -- `_scan_body`
  unfoldable pub scan_body :
      ℕ → ℕ → List Ticket → List TicketWatcher → List TicketNotification → Option Written
  unfolding scan_tickets
  scan_body now lookahead_hours tickets watchers rows =
      scan_tickets now (filter (is_due_soon now lookahead_hours) tickets) watchers (0, rows)

  -- `scan_once`, with the answer to the try for the lock
  unfoldable pub scan_once :
      Bool → ℕ → ℕ → List Ticket → List TicketWatcher → List TicketNotification → Option Written
  unfolding scan_body
  scan_once acquired now lookahead_hours tickets watchers rows =
      if acquired then scan_body now lookahead_hours tickets watchers rows else some (0, rows)
