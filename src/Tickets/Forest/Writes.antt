-- ===== src/Tickets/Forest/Writes.antt =====
-- `create`, `update` and `transition` keep the parent pointers a forest.
use problem_bulletin.Prelude.{
  ℕ, ◌≡◌, ◌+◌, ◌==◌, refl, Bool, true, false, not, ◌&&◌, Option, none, some, inl, inr, Option-cases,
  List, ◌∷◌, arith, if◌then◌else◌,
}
use problem_bulletin.Prelude.Table.{lookup, put}
use problem_bulletin.Prelude.Text.{Text, is_blank}
use problem_bulletin.Domain.{
  Ticket, ticket_key, Person, Db, Context, TicketStatus, status_eq, ok, err, ticket_not_found,
  Project, Result, Result-cases, Error, is_flushed, is_ok,
}
use problem_bulletin.Hierarchy.{validate_hierarchy, walk_to_epic}
use problem_bulletin.Tickets.Create.{
  NewTicket, create, new_ticket, get_project, chosen_project, resolve_project,
}
use problem_bulletin.Workflow.{is_allowed}
use problem_bulletin.Hierarchy.Forest.{
  IsForest, put-IsForest, parent_valid, validate_hierarchy-valid, cons-IsForest, row_valid,
}
use problem_bulletin.Tickets.{Ident, load, unpaired, bad_kind}
use problem_bulletin.Tickets.Update.{Patch, update, edited, patched, is_nil}
use problem_bulletin.Tickets.Load.{load-cases}
use problem_bulletin.Tickets.Move.{transition, moved_to}

-- A flushed row with the same place in the tree.
pub record SamePlace (old new : Ticket) : Type 0 where
  pub id : new.id ≡ old.id
  pub type : new.type ≡ old.type
  pub project : new.project_id ≡ old.project_id
  pub parent : new.parent_id ≡ old.parent_id

pub put-SamePlace :
    (tickets : List Ticket) (old new : Ticket)
    → lookup ticket_key old.id tickets ≡ some old
    → SamePlace old new
    → IsForest tickets
    → IsForest (put ticket_key new tickets)
put-SamePlace tickets old new at same h =
    put-IsForest tickets old new (rw same.id at) same.type same.project
      (ground (arith, same, h.at old.id old at)) h

pub transition-tickets :
    (ident : Ident) (actor : Person) (target : TicketStatus) (reason : Option Text) (ctx : Context)
    (db : Db) (t : Ticket)
    → load ident db ≡ (ok t, db)
    → (transition ident actor target reason ctx db).1.tickets ≡ (
        if not (status_eq t.status target) && is_allowed t.status target
        then put ticket_key (moved_to target actor ctx t) db.tickets
        else db.tickets)
unfolding transition
transition-tickets ident actor target reason ctx db t e = ground (arith, e)

pub transition-tickets_missing :
    (ident : Ident) (actor : Person) (target : TicketStatus) (reason : Option Text) (ctx : Context)
    (db : Db)
    → load ident db ≡ (err ticket_not_found, db)
    → (transition ident actor target reason ctx db).1.tickets ≡ db.tickets
unfolding transition
transition-tickets_missing ident actor target reason ctx db e = ground (arith, e)

pub if_IsForest :
    (b : Bool) {xs ys : List Ticket} → IsForest xs → IsForest ys → IsForest (if b then xs else ys)
if_IsForest true p q = p
if_IsForest false p q = q

pub transition-IsForest :
    (ident : Ident) (actor : Person) (target : TicketStatus) (reason : Option Text) (ctx : Context)
    (db : Db)
    → IsForest db.tickets
    → IsForest (transition ident actor target reason ctx db).1.tickets
transition-IsForest ident actor target reason ctx db h = elim (load-cases ident db) [
  | inl e ↦ rw (transition-tickets_missing ident actor target reason ctx db e) h
  | inr (t, e, at) ↦ rw (transition-tickets ident actor target reason ctx db t e) (
      if_IsForest (not (status_eq t.status target) && is_allowed t.status target)
        (put-SamePlace db.tickets t (moved_to target actor ctx t) at (ground arith) h) h)
]

-- The guards of `create` that read no table, and the answer to its flush.
abbrev pub is_accepted : NewTicket → Context → Bool
is_accepted args ctx =
    not (is_blank args.title)
    && not (unpaired args.assignee_id args.assignee_type)
    && not (bad_kind args.assignee_type)
    && is_flushed ctx.flush

module _ (args : NewTicket) (actor : Person) (ctx : Context) (db : Db) where
  abbrev pub target_project : Option Project
  target_project = get_project (chosen_project args.project_id args.project_key) db.projects

  abbrev pub placed : Project → Result (Unit {0})
  placed p = validate_hierarchy db.tickets args.type args.parent_id none p.id

  pub create-tickets_homeless :
      target_project ≡ none → (create args actor ctx db).1.tickets ≡ db.tickets
  unfolding create resolve_project
  create-tickets_homeless e = ground (arith, e)

  pub create-tickets_misplaced :
      (p : Project) (er : Error)
      → target_project ≡ some p
      → placed p ≡ err er
      → (create args actor ctx db).1.tickets ≡ db.tickets
  unfolding create resolve_project
  create-tickets_misplaced p er e v = ground (arith, e, v)

  pub create-tickets :
      (p : Project)
      → target_project ≡ some p
      → placed p ≡ ok tt
      → (create args actor ctx db).1.tickets ≡ (
          if is_accepted args ctx
          then new_ticket args actor ctx p (p.last_seq + 1) (walk_to_epic db.tickets args.parent_id)
            ∷ db.tickets
          else db.tickets)
  unfolding create resolve_project
  create-tickets p e v = ground (arith, e, v)

  pub create-IsForest :
      lookup ticket_key ctx.new_id db.tickets ≡ none
      → IsForest db.tickets
      → IsForest (create args actor ctx db).1.tickets
  create-IsForest fresh h = elim (Option-cases target_project) [
    | inl e ↦ rw (create-tickets_homeless e) h
    | inr (p, e) ↦ elim (Result-cases (placed p)) [
      | inr (er, v) ↦ rw (create-tickets_misplaced p er e v) h
      | inl v ↦
          let epic_id = walk_to_epic db.tickets args.parent_id in
          let t = new_ticket args actor ctx p (p.last_seq + 1) epic_id in
          let valid = validate_hierarchy-valid db.tickets args.type args.parent_id none p.id v in
          rw (create-tickets p e v)
            (if_IsForest (is_accepted args ctx) (cons-IsForest db.tickets t fresh valid h) h)
    ]
  ]

-- A patch keeps a row valid: it keeps the parent, or the new one has been validated.
module _ (ident : Ident) (actor : Person) (expected : ℕ) (patch : Patch) (ctx : Context)
    (db : Db) where
  pub update-tickets_missing :
      load ident db ≡ (err ticket_not_found, db)
      → (update ident actor expected patch ctx db).1.tickets ≡ db.tickets
  unfolding update
  update-tickets_missing e = ground (arith, e)

  -- The answer of the check that the patch asks for.
  abbrev pub parent_check : Ticket → Option (Option ℕ) → Result (Unit {0})
  parent_check t none = ok tt
  parent_check t (some parent) =
      validate_hierarchy db.tickets t.type parent (some t.id) t.project_id

  pub update-tickets :
      (t : Ticket)
      → load ident db ≡ (ok t, db)
      → (update ident actor expected patch ctx db).1.tickets ≡ (
          if is_nil patch.unknown
            && t.version == expected
            && is_ok (parent_check t patch.parent_id)
            && is_flushed ctx.flush
          then put ticket_key (edited db.tickets patch actor ctx t) db.tickets
          else db.tickets)
  unfolding update
  update-tickets t e = ground (arith, e)

  edited-valid :
      (t : Ticket)
      → row_valid db.tickets t ≡ true
      → (change : Option (Option ℕ)) → parent_check t change ≡ ok tt
      → parent_valid db.tickets t.type t.project_id (patched change t.parent_id) ≡ true
  edited-valid t h none v = h
  edited-valid t h (some parent) v =
      validate_hierarchy-valid db.tickets t.type parent (some t.id) t.project_id v

  -- With no refusal the flushed row is `edited`, in the place of the loaded one.
  pub update-IsForest :
      IsForest db.tickets → IsForest (update ident actor expected patch ctx db).1.tickets
  update-IsForest h = elim (load-cases ident db) [
    | inl e ↦ rw (update-tickets_missing e) h
    | inr (t, e, at) ↦ elim (Result-cases (parent_check t patch.parent_id)) [
      | inr (er, v) ↦
          let kept : (update ident actor expected patch ctx db).1.tickets ≡ db.tickets =
            ground (arith, update-tickets t e, v) in
          rw kept h
      | inl v ↦
          let valid = edited-valid t (h.at t.id t at) patch.parent_id v in
          rw (update-tickets t e) (
            if_IsForest _
              (put-IsForest db.tickets t (edited db.tickets patch actor ctx t) at refl refl valid h)
              h)
    ]
  ]
