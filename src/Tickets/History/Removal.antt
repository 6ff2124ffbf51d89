-- ===== src/Tickets/History/Removal.antt =====
-- `delete`, `link` and `add_comment` keep the log true.
use problem_bulletin.Prelude.{
  ℕ, ◌≡◌, ◌==◌, refl, Option, inl, inr, Bool-cases, List, arith, if◌then◌else◌, filter,
}
use problem_bulletin.Prelude.Text.{Text}
use problem_bulletin.Domain.{Ticket, Person, Db, Context, ok, err, ticket_not_found, TicketLinkType}
use problem_bulletin.Tickets.{Ident, uuid, load, stamped}
use problem_bulletin.Tickets.Load.{load-cases}
use problem_bulletin.Tickets.Remove.{delete, child_count}
use problem_bulletin.Tickets.Links.{link}
use problem_bulletin.Tickets.Comments.{add_comment}
use problem_bulletin.Tickets.Forest.Others.{
  delete-tickets, delete-tickets_missing, link-tickets, link-tickets_missing, link-tickets_unlinked,
  comment-tickets, comment-tickets_missing,
}
use problem_bulletin.Tickets.History.Log.{IsLogged, not_of, put_same_status, remove_deleted}
use problem_bulletin.Tickets.History.Writes.{if_IsLogged}

module _ (ident : Ident) (actor : Person) (db : Db) where
  delete-transitions_missing :
      load ident db ≡ (err ticket_not_found, db)
      → (delete ident actor db).1.transitions ≡ db.transitions
  unfolding delete
  delete-transitions_missing e = ground (arith, e)

  delete-transitions :
      (t : Ticket)
      → load ident db ≡ (ok t, db)
      → (delete ident actor db).1.transitions ≡ (
          if child_count t.id db.tickets == 0
          then filter (not_of t.id) db.transitions
          else db.transitions)
  unfolding delete
  delete-transitions t e = ground (arith, e)

  pub delete-IsLogged :
      IsLogged db.tickets db.transitions
      → let db' = (delete ident actor db).1 in IsLogged db'.tickets db'.transitions
  delete-IsLogged h = elim (load-cases ident db) [
    | inl e ↦ rw (delete-tickets_missing ident actor db e, delete-transitions_missing e) h
    | inr (t, e, at) ↦ elim (Bool-cases (child_count t.id db.tickets == 0)) [
      | inl z ↦
          rw (delete-tickets ident actor db t e, delete-transitions t e, z)
            (remove_deleted db.tickets db.transitions t.id h)
      | inr nz ↦ rw (delete-tickets ident actor db t e, delete-transitions t e, nz) h
    ]
  ]

module _ (actor : Person) (source target : ℕ) (lt : TicketLinkType) (ctx : Context) (db : Db) where
  link-transitions : (link actor source target lt ctx db).1.transitions ≡ db.transitions
  unfolding link
  link-transitions = elim (load-cases (uuid source) db) [
    | inl e ↦ ground (arith, e)
    | inr (t, e, at) ↦ elim (load-cases (uuid target) db) [
      | inl f ↦ ground (arith, e, f)
      | inr (u, f, _) ↦ ground (arith, e, f)
    ]
  ]

  pub link-IsLogged :
      IsLogged db.tickets db.transitions
      → let db' = (link actor source target lt ctx db).1 in IsLogged db'.tickets db'.transitions
  link-IsLogged h = elim (load-cases (uuid source) db) [
    | inl e ↦ rw (link-tickets_missing actor source target lt ctx db e, link-transitions) h
    | inr (t, e, at) ↦ elim (load-cases (uuid target) db) [
      | inl f ↦ rw (link-tickets_unlinked actor source target lt ctx db t e f, link-transitions) h
      | inr (u, f, _) ↦
          rw (link-tickets actor source target lt ctx db t u e f, link-transitions)
            (if_IsLogged _ db.transitions
              (put_same_status db.tickets db.transitions t (stamped actor ctx t) at refl refl h) h)
    ]
  ]

module _ (ident : Ident) (actor : Person) (body : Text) (mentions : List ℕ) (resolved : List Person)
    (parent : Option ℕ) (ctx : Context) (db : Db) where
  comment-transitions :
      (add_comment ident actor body mentions resolved parent ctx db).1.transitions ≡ db.transitions
  unfolding add_comment
  comment-transitions = elim (load-cases ident db) [
    | inl e ↦ ground (arith, e)
    | inr (t, e, at) ↦ ground (arith, e)
  ]

  pub comment-IsLogged :
      IsLogged db.tickets db.transitions
      → let db' = (add_comment ident actor body mentions resolved parent ctx db).1 in
        IsLogged db'.tickets db'.transitions
  comment-IsLogged h = elim (load-cases ident db) [
    | inl e ↦
        rw
          (
            comment-tickets_missing ident actor body mentions resolved parent ctx db e,
            comment-transitions,
          )
          h
    | inr (t, e, at) ↦
        rw
          (
            comment-tickets ident actor body mentions resolved parent ctx db t e,
            comment-transitions,
          )
          (if_IsLogged _ db.transitions
            (put_same_status db.tickets db.transitions t (stamped actor ctx t) at refl refl h) h)
  ]
