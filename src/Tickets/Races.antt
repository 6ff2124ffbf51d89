-- ===== src/Tickets/Races.antt =====
-- Two requests on one ticket: the version check of `update` and `assign`, and the claim race.
pub mod Edits
pub mod Claims
use problem_bulletin.Prelude.{
  ℕ, suc, ◌≡◌, ◌==◌, refl, sym, Option, none, some, List, arith, ==_iff, if◌then◌else◌,
}
use problem_bulletin.Prelude.Table.{lookup, put, lookup-put}
use problem_bulletin.Domain.{Ticket, ticket_key, Db, ok, Result, err}
use problem_bulletin.Tickets.{Ident, uuid, load}

-- A call replaced the row `old` by `new`: later loads of the id find `new`.
pub record Replaces (old new : Ticket) (before after : Db) : Type 0 where
  pub found : lookup ticket_key old.id before.tickets ≡ some old
  pub id : new.id ≡ old.id
  pub version : new.version ≡ suc old.version
  pub stored : after.tickets ≡ put ticket_key new before.tickets

-- A saved row is what the next load finds.
pub load_replaced :
    (old new : Ticket) (before after : Db)
    → Replaces old new before after
    → load (uuid old.id) after ≡ (ok new, after)
unfolding load
load_replaced old new before after r =
    let at : lookup ticket_key old.id after.tickets ≡ some new =
      rw r.stored
        (ground (arith, lookup-put ticket_key old.id new before.tickets, r.found, r.id)) in
    ground (arith, at)
