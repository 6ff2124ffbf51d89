-- ===== src/Notifications/Fanout/Exact.antt =====
-- The rows that a block, a resolution and a cancellation leave.
use problem_bulletin.Prelude.{
  ℕ, ◌≡◌, refl, ap, ◌∙◌, Bool, not, ◌&&◌, ◌||◌, none, some, List, [], ◌∷◌, ◌++◌, map, arith,
  if◌then◌else◌,
}
use problem_bulletin.Prelude.Text.{text}
use problem_bulletin.Domain.{
  is_party, Person, person_eq, Ticket, TicketStatus, status_value, ticket_blocked, ticket_resolved,
  ticket_cancelled,
}
use problem_bulletin.Notifications.Coalesce.{Message, new_row}
use problem_bulletin.Notifications.Recipients.{in_people, watching, involved}
use problem_bulletin.Notifications.Recipients.Laws.{
  times, times-append, is_named, watching_exact, involved_exact,
}
use problem_bulletin.Notifications.Fanout.{
  Inbox, about, insert_each, assignee_of, reporter_of, fanout_blocked, fanout_resolved,
  fanout_cancelled,
}

-- New rows of one message stand before the old ones: one for each person of the group that has the
-- type user or agent and is not the actor, and none for anybody else.
pub record IsTold (m : Message) (now : ℕ) (group : Person → Bool) (inbox after : Inbox)
    : Type 0 where
  pub people : List Person
  pub rows : after ≡ map (new_row m now) people ++ inbox
  pub once :
      (p : Person)
      → times p people ≡ (if not (person_eq p m.actor) && is_party p.kind && group p then 1 else 0)

module _ (m : Message) (now : ℕ) where
  append-row :
      (people : List Person) (p : Person) (inbox : Inbox)
      → map (new_row m now) people ++ (new_row m now p ∷ inbox)
        ≡ map (new_row m now) (people ++ p ∷ []) ++ inbox
  append-row [] p inbox = refl
  append-row (q ∷ people) p inbox = ap (λ rows. new_row m now q ∷ rows) (append-row people p inbox)

  -- The people whose rows are written, the last one first.
  abbrev written : List Person → List Person
  written [] = []
  written (p ∷ people) = written people ++ p ∷ []

  insert_each-eq :
      (people : List Person) (inbox : Inbox)
      → insert_each m now people inbox ≡ map (new_row m now) (written people) ++ inbox
  unfolding insert_each
  insert_each-eq [] inbox = refl
  insert_each-eq (p ∷ people) inbox =
      insert_each-eq people (new_row m now p ∷ inbox) ∙ append-row (written people) p inbox

  times-written : (p : Person) (people : List Person) → times p (written people) ≡ times p people
  times-written p [] = refl
  times-written p (q ∷ people) =
      ground (arith, times-append p (written people) (q ∷ []), times-written p people)

  insert_each-IsTold :
      (group : Person → Bool) (people : List Person) (inbox : Inbox)
      → ((p : Person)
          → times p people
            ≡ (if not (person_eq p m.actor) && is_party p.kind && group p then 1 else 0))
      → IsTold m now group inbox (insert_each m now people inbox)
  insert_each-IsTold group people inbox exact = record {
    people = written people;
    rows = insert_each-eq people inbox;
    once = λ p. times-written p people ∙ exact p;
  }

-- Where the database refuses no insert, a block writes exactly one row for everyone who is the
-- ticket's assignee or a watcher, has the type user or agent and is not the actor, a resolution
-- and a cancellation also for the reporter, however often the watchers repeat a person; nobody
-- else gets a row, each row is of the event's kind and unread, and the rows before stay as they
-- were.
pub fanouts_exact :
    (now : ℕ) (actor : Person) (from : TicketStatus) (t : Ticket) (watchers : List Person)
    (inbox : Inbox)
    → IsTold
        (about ticket_blocked actor t none none)
        now
        (λ p. is_named p (assignee_of t) || in_people p watchers)
        inbox
        (fanout_blocked now actor t watchers inbox)
      × IsTold
          (about ticket_resolved actor t none (some (status_value from ++ text " → done")))
          now
          (λ p. is_named p (assignee_of t) || is_named p (reporter_of t) || in_people p watchers)
          inbox
          (fanout_resolved now actor from t watchers inbox)
      × IsTold
          (about ticket_cancelled actor t none (some (status_value from ++ text " → cancelled")))
          now
          (λ p. is_named p (assignee_of t) || is_named p (reporter_of t) || in_people p watchers)
          inbox
          (fanout_cancelled now actor from t watchers inbox)
unfolding fanout_blocked fanout_resolved fanout_cancelled
fanouts_exact now actor from t watchers inbox =
    let people = involved actor (assignee_of t) (reporter_of t) watchers in
    let exact = involved_exact actor (assignee_of t) (reporter_of t) watchers in
    (
      insert_each-IsTold _ now _ (watching actor (assignee_of t) watchers) inbox
          (watching_exact actor (assignee_of t) watchers),
      insert_each-IsTold _ now _ people inbox exact,
      insert_each-IsTold _ now _ people inbox exact,
    )
