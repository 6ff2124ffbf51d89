-- ===== src/Tickets/Load.antt =====
-- `_resolve_id` and `_load` only read, and what they find is a row of the table.
use problem_bulletin.Prelude.{ℕ, ◌≡◌, sym, ◌⊎◌, none, some, inl, inr, Option-cases, arith}
use mathlib.Core.Path.{subst}
use problem_bulletin.Prelude.Table.{lookup, lookup_key}
use problem_bulletin.Prelude.Text.{Text}
use problem_bulletin.Domain.{Ticket, ticket_key, Db, Result, ok, err, ticket_not_found}
use problem_bulletin.Tickets.{Ident, uuid, display, find_display, load}

load_uuid :
    (id : ℕ) (db : Db)
    → (load (uuid id) db ≡ (err ticket_not_found, db))
      ⊎ ((t : Ticket) × (load (uuid id) db ≡ (ok t, db))
          × (lookup ticket_key t.id db.tickets ≡ some t))
unfolding load
load_uuid id db = elim (Option-cases (lookup ticket_key id db.tickets)) [
  | inl e ↦ inl (ground (arith, e))
  | inr (t, e) ↦ inr (
    t,
    ground (arith, e),
    subst (λ k. lookup ticket_key k db.tickets ≡ some t)
        (sym (lookup_key ticket_key id db.tickets e)) e,
  )
]

load_missing :
    (s : Text) (db : Db)
    → find_display s db.tickets ≡ none
    → load (display s) db ≡ (err ticket_not_found, db)
unfolding load
load_missing s db e = ground (arith, e)

load_display :
    (s : Text) (db : Db) (t : Ticket)
    → find_display s db.tickets ≡ some t
    → load (display s) db ≡ load (uuid t.id) db
unfolding load
load_display s db t e = ground (arith, e)

-- A load fails with "not found" or finds a row under its own key; it changes nothing.
pub load-cases :
    (ident : Ident) (db : Db)
    → (load ident db ≡ (err ticket_not_found, db))
      ⊎ ((t : Ticket) × (load ident db ≡ (ok t, db)) × (lookup ticket_key t.id db.tickets ≡ some t))
load-cases (uuid id) db = load_uuid id db
load-cases (display s) db = elim (Option-cases (find_display s db.tickets)) [
  | inl e ↦ inl (load_missing s db e)
  | inr (t, e) ↦ subst Cases (sym (load_display s db t e)) (load_uuid t.id db)
]
  where
    Cases : Result Ticket × Db → Type 0
    Cases r =
        (r ≡ (err ticket_not_found, db))
        ⊎ ((t : Ticket) × (r ≡ (ok t, db)) × (lookup ticket_key t.id db.tickets ≡ some t))

-- What a load by id finds has that id.
pub load-id : (id : ℕ) (db : Db) (t : Ticket) → load (uuid id) db ≡ (ok t, db) → t.id ≡ id
unfolding load
load-id id db t e = elim (Option-cases (lookup ticket_key id db.tickets)) [
  | inl m ↦ ground (arith, m)
  | inr (u, m) ↦
      let same : u ≡ t = ground (arith, m) in
      subst (λ (r : Ticket). r.id ≡ id) same (lookup_key ticket_key id db.tickets m)
]
