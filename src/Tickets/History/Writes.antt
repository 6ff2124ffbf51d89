-- ===== src/Tickets/History/Writes.antt =====
-- Every method of `TicketService` keeps the log true.
use problem_bulletin.Prelude.{
  ℕ, ◌≡◌, refl, Bool, true, false, not, ◌&&◌, Option, some, inl, inr, Bool-cases, List, ◌∷◌, arith,
  if◌then◌else◌,
}
use problem_bulletin.Prelude.Text.{Text}
use problem_bulletin.Domain.{
  Ticket, TicketTransition, TicketStatus, status_eq, Person, Db, Context, ok, err, ticket_not_found,
  step_for,
}
use problem_bulletin.Workflow.{is_allowed}
use problem_bulletin.Tickets.{Ident, load}
use problem_bulletin.Tickets.Load.{load-cases}
use problem_bulletin.Tickets.Update.{Patch, update, edited}
use problem_bulletin.Tickets.Move.{transition, moved_to}
use problem_bulletin.Tickets.Forest.Writes.{
  update-tickets, update-tickets_missing, transition-tickets, transition-tickets_missing,
}
use problem_bulletin.Tickets.History.Log.{IsLogged, put_same_status, put_moved}

pub if_IsLogged :
    (b : Bool) {xs ys : List Ticket} (log : List TicketTransition)
    → IsLogged xs log
    → IsLogged ys log
    → IsLogged (if b then xs else ys) log
if_IsLogged true log p q = p
if_IsLogged false log p q = q

module _ (ident : Ident) (actor : Person) (expected : ℕ) (patch : Patch) (ctx : Context)
    (db : Db) where
  update-transitions : (update ident actor expected patch ctx db).1.transitions ≡ db.transitions
  unfolding update
  update-transitions = elim (load-cases ident db) [
    | inl e ↦ ground (arith, e)
    | inr (t, e, at) ↦ ground (arith, e)
  ]

  pub update-IsLogged :
      IsLogged db.tickets db.transitions
      → let db' = (update ident actor expected patch ctx db).1 in
        IsLogged db'.tickets db'.transitions
  update-IsLogged h = elim (load-cases ident db) [
    | inl e ↦ rw (update-tickets_missing ident actor expected patch ctx db e, update-transitions) h
    | inr (t, e, at) ↦
        rw (update-tickets ident actor expected patch ctx db t e, update-transitions)
          (if_IsLogged _ db.transitions
            (put_same_status db.tickets db.transitions t (edited db.tickets patch actor ctx t) at
              refl refl h)
            h)
  ]

module _ (ident : Ident) (actor : Person) (target : TicketStatus) (reason : Option Text)
    (ctx : Context) (db : Db) where
  -- The row that `transition` adds.
  abbrev pub move_row : Ticket → TicketTransition
  move_row t = record {
    ticket_id = t.id;
    from_status = some t.status;
    to_status = target;
    actor_id = actor.id;
    actor_type = actor.kind;
    reason = reason;
    agent_step_id = step_for actor.kind ctx.step;
  }

  transition-transitions_missing :
      load ident db ≡ (err ticket_not_found, db)
      → (transition ident actor target reason ctx db).1.transitions ≡ db.transitions
  unfolding transition
  transition-transitions_missing e = ground (arith, e)

  pub transition-transitions :
      (t : Ticket)
      → load ident db ≡ (ok t, db)
      → (transition ident actor target reason ctx db).1.transitions ≡ (
          if not (status_eq t.status target) && is_allowed t.status target
          then move_row t ∷ db.transitions
          else db.transitions)
  unfolding transition
  transition-transitions t e = ground (arith, e)

  pub transition-IsLogged :
      IsLogged db.tickets db.transitions
      → let db' = (transition ident actor target reason ctx db).1 in
        IsLogged db'.tickets db'.transitions
  transition-IsLogged h = elim (load-cases ident db) [
    | inl e ↦
        rw
          (
            transition-tickets_missing ident actor target reason ctx db e,
            transition-transitions_missing e,
          )
          h
    | inr (t, e, at) ↦
        let moves = transition-tickets ident actor target reason ctx db t e in
        elim (Bool-cases (not (status_eq t.status target) && is_allowed t.status target)) [
          | inr no_move ↦ rw (moves, transition-transitions t e, no_move) h
          | inl move ↦
              rw (moves, transition-transitions t e, move)
                (put_moved db.tickets db.transitions t (moved_to target actor ctx t) (move_row t) at
                  refl refl refl refl (ground arith) h)
        ]
  ]
