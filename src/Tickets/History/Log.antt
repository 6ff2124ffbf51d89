-- ===== src/Tickets/History/Log.antt =====
-- What the log says of a ticket, and how writes to the tickets and the log keep it true.
use problem_bulletin.Prelude.{
  ℕ, ◌≡◌, refl, Bool, true, false, not, Option, none, some, inl, inr, Option-cases, Bool-cases,
  List, [], ◌∷◌, arith, map, filter, ◌==◌, if◌then◌else◌,
}
use problem_bulletin.Prelude.Table.{
  lookup, put, remove, lookup-cons, lookup-put, lookup-remove, lookup-map,
}
use problem_bulletin.Domain.{Ticket, ticket_key, TicketStatus, TicketTransition}
use problem_bulletin.Workflow.{is_allowed}
use problem_bulletin.Tickets.Remove.{forget_epic}

-- The status that the newest row of the log gives a ticket.
abbrev pub latest : ℕ → List TicketTransition → Option TicketStatus
latest k [] = none
latest k (r ∷ log) = if r.ticket_id == k then some r.to_status else latest k log

-- A row of the log starts where the one before it ended, and its move is allowed; the first row of
-- a ticket starts from no status.
abbrev pub is_allowed_from : Option TicketStatus → TicketStatus → Bool
is_allowed_from none target = true
is_allowed_from (some current) target = is_allowed current target

abbrev pub IsChain : List TicketTransition → Type 0
IsChain [] = Unit
IsChain (r ∷ log) =
    (r.from_status ≡ latest r.ticket_id log)
    × (is_allowed_from r.from_status r.to_status ≡ true)
    × IsChain log

-- The log replays to the status of each ticket, by allowed moves.
pub record IsLogged (tickets : List Ticket) (log : List TicketTransition) : Type 0 where
  pub at :
      (k : ℕ) (t : Ticket) → lookup ticket_key k tickets ≡ some t → latest k log ≡ some t.status
  pub chain : IsChain log

pub put_same_status :
    (tickets : List Ticket) (log : List TicketTransition) (old new : Ticket)
    → lookup ticket_key old.id tickets ≡ some old
    → new.id ≡ old.id
    → new.status ≡ old.status
    → IsLogged tickets log
    → IsLogged (put ticket_key new tickets) log
put_same_status tickets log old new at ids same h = record {
  at = λ k t found.
      ground (arith, lookup-put ticket_key k new tickets, at, h.at old.id old, h.at k t);
  chain = h.chain;
}

pub put_moved :
    (tickets : List Ticket) (log : List TicketTransition) (old new : Ticket)
    (row : TicketTransition)
    → lookup ticket_key old.id tickets ≡ some old
    → new.id ≡ old.id
    → row.ticket_id ≡ old.id
    → row.from_status ≡ some old.status
    → row.to_status ≡ new.status
    → is_allowed old.status new.status ≡ true
    → IsLogged tickets log
    → IsLogged (put ticket_key new tickets) (row ∷ log)
put_moved tickets log old new row at ids named from to allowed h = record {
  at = λ k t found. ground (arith, lookup-put ticket_key k new tickets, h.at k t);
  chain = ground (arith, h.at old.id old at, h.chain);
}

pub cons_created :
    (tickets : List Ticket) (log : List TicketTransition) (new : Ticket) (row : TicketTransition)
    → latest new.id log ≡ none
    → row.ticket_id ≡ new.id
    → row.from_status ≡ none
    → row.to_status ≡ new.status
    → IsLogged tickets log
    → IsLogged (new ∷ tickets) (row ∷ log)
cons_created tickets log new row fresh named from to h = record {
  at = λ k t found. ground (arith, lookup-cons ticket_key k new tickets, h.at k t);
  chain = ground (arith, h.chain);
}

abbrev pub not_of : ℕ → TicketTransition → Bool
not_of k r = not (r.ticket_id == k)

latest-filter :
    (j k : ℕ) (log : List TicketTransition)
    → (j == k) ≡ false
    → latest j (filter (not_of k) log) ≡ latest j log
latest-filter j k [] ne = refl
latest-filter j k (r ∷ log) ne = ground (arith, latest-filter j k log ne)

filter-IsChain :
    (k : ℕ) (log : List TicketTransition) → IsChain log → IsChain (filter (not_of k) log)
filter-IsChain k [] h = tt
filter-IsChain k (r ∷ log) h = elim (Bool-cases (r.ticket_id == k)) [
  | inl e ↦ ground (arith, e, filter-IsChain k log h.2)
  | inr ne ↦ ground (arith, ne, latest-filter r.ticket_id k log ne, filter-IsChain k log h.2)
]

pub remove_deleted :
    (tickets : List Ticket) (log : List TicketTransition) (k : ℕ)
    → IsLogged tickets log
    → IsLogged (map (forget_epic k) (remove ticket_key k tickets)) (filter (not_of k) log)
remove_deleted tickets log k h = record {
  at = λ j t found.
      let mapped =
        lookup-map ticket_key (forget_epic k) j (remove ticket_key k tickets) (λ r. refl) in
      let removed = lookup-remove ticket_key j k tickets in
      elim (Option-cases (lookup ticket_key j tickets)) [
        | inl e ↦ absurd (ground (arith, e, mapped, removed))
        | inr (r, e) ↦ ground (arith, e, mapped, removed, h.at j r e, latest-filter j k log)
      ];
  chain = filter-IsChain k log h.chain;
}
