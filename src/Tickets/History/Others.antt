-- ===== src/Tickets/History/Others.antt =====
-- `create`, `assign` and `claim` keep the log true.
use problem_bulletin.Prelude.{
  ℕ, ◌≡◌, ◌+◌, refl, Option, none, some, inl, inr, Option-cases, Bool-cases, ◌∷◌, arith,
  if◌then◌else◌,
}
use problem_bulletin.Domain.{
  TicketTransition, Person, Party, Db, Context, ok, err, Result-cases, step_for, Project, Error,
}
use problem_bulletin.Hierarchy.{walk_to_epic}
use problem_bulletin.Queue.{Digest}
use problem_bulletin.Tickets.{Ident}
use problem_bulletin.Tickets.Load.{load-cases}
use problem_bulletin.Tickets.Create.{NewTicket, create, new_ticket, resolve_project, default_status}
use problem_bulletin.Tickets.Assign.{assign, claim, claimed_by}
use problem_bulletin.Tickets.Forest.Writes.{
  is_accepted, target_project, placed, create-tickets, create-tickets_homeless,
  create-tickets_misplaced,
}
use problem_bulletin.Tickets.Forest.Others.{
  reassigned, assign-tickets, assign-tickets_missing, claim-tickets, claim-tickets_missing,
}
use problem_bulletin.Tickets.History.Log.{IsLogged, latest, put_same_status, cons_created}
use problem_bulletin.Tickets.History.Writes.{if_IsLogged}

module _ (args : NewTicket) (actor : Person) (ctx : Context) (db : Db) where
  -- The row that `create` adds.
  abbrev pub first_row : TicketTransition
  first_row = record {
    ticket_id = ctx.new_id;
    from_status = none;
    to_status = default_status args.type;
    actor_id = actor.id;
    actor_type = actor.kind;
    reason = none;
    agent_step_id = step_for actor.kind ctx.step;
  }

  create-transitions_homeless :
      target_project args actor ctx db ≡ none
      → (create args actor ctx db).1.transitions ≡ db.transitions
  unfolding create resolve_project
  create-transitions_homeless e = ground (arith, e)

  create-transitions_misplaced :
      (p : Project) (er : Error)
      → target_project args actor ctx db ≡ some p
      → placed args actor ctx db p ≡ err er
      → (create args actor ctx db).1.transitions ≡ db.transitions
  unfolding create resolve_project
  create-transitions_misplaced p er e v = ground (arith, e, v)

  create-transitions :
      (p : Project)
      → target_project args actor ctx db ≡ some p
      → placed args actor ctx db p ≡ ok tt
      → (create args actor ctx db).1.transitions
        ≡ (if is_accepted args ctx then first_row ∷ db.transitions else db.transitions)
  unfolding create resolve_project
  create-transitions p e v = ground (arith, e, v)

  pub create-IsLogged :
      latest ctx.new_id db.transitions ≡ none
      → IsLogged db.tickets db.transitions
      → let db' = (create args actor ctx db).1 in IsLogged db'.tickets db'.transitions
  create-IsLogged fresh h = elim (Option-cases (target_project args actor ctx db)) [
    | inl e ↦ rw (create-tickets_homeless args actor ctx db e, create-transitions_homeless e) h
    | inr (p, e) ↦ elim (Result-cases (placed args actor ctx db p)) [
      | inr (er, v) ↦
          rw
            (
              create-tickets_misplaced args actor ctx db p er e v,
              create-transitions_misplaced p er e v,
            )
            h
      | inl v ↦
          let t =
            new_ticket args actor ctx p (p.last_seq + 1) (walk_to_epic db.tickets args.parent_id) in
          elim (Bool-cases (is_accepted args ctx)) [
            | inr refused ↦
                rw (create-tickets args actor ctx db p e v, create-transitions p e v, refused) h
            | inl accepted ↦
                rw (create-tickets args actor ctx db p e v, create-transitions p e v, accepted)
                  (cons_created db.tickets db.transitions t first_row fresh refl refl refl h)
          ]
    ]
  ]

module _ (digest : Digest) (ident : Ident) (actor : Person) (id : Option ℕ) (kind : Option Party)
    (expected : ℕ) (ctx : Context) (db : Db) where
  assign-transitions :
      (assign digest ident actor id kind expected ctx db).1.transitions ≡ db.transitions
  unfolding assign
  assign-transitions = elim (load-cases ident db) [
    | inl e ↦ ground (arith, e)
    | inr (t, e, at) ↦ ground (arith, e)
  ]

  pub assign-IsLogged :
      IsLogged db.tickets db.transitions
      → let db' = (assign digest ident actor id kind expected ctx db).1 in
        IsLogged db'.tickets db'.transitions
  assign-IsLogged h = elim (load-cases ident db) [
    | inl e ↦
        rw (assign-tickets_missing digest ident actor id kind expected ctx db e, assign-transitions)
          h
    | inr (t, e, at) ↦
        rw (assign-tickets digest ident actor id kind expected ctx db t e, assign-transitions)
          (if_IsLogged _ db.transitions
            (put_same_status db.tickets db.transitions t
              (reassigned digest ident actor id kind expected ctx db t) at refl refl h)
            h)
  ]

module _ (ident : Ident) (actor : Person) (ctx : Context) (db : Db) where
  claim-transitions : (claim ident actor ctx db).1.transitions ≡ db.transitions
  unfolding claim
  claim-transitions = elim (load-cases ident db) [
    | inl e ↦ ground (arith, e)
    | inr (t, e, at) ↦ ground (arith, e)
  ]

  pub claim-IsLogged :
      IsLogged db.tickets db.transitions
      → let db' = (claim ident actor ctx db).1 in IsLogged db'.tickets db'.transitions
  claim-IsLogged h = elim (load-cases ident db) [
    | inl e ↦ rw (claim-tickets_missing ident actor ctx db e, claim-transitions) h
    | inr (t, e, at) ↦
        rw (claim-tickets ident actor ctx db t e, claim-transitions)
          (if_IsLogged _ db.transitions
            (put_same_status db.tickets db.transitions t (claimed_by actor ctx t) at refl refl h) h)
  ]
