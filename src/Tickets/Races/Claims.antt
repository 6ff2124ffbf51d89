-- ===== src/Tickets/Races/Claims.antt =====
-- Agents that claim one ticket.
use mathlib.Core.Path.{subst}
use problem_bulletin.Prelude.{ℕ, ◌≡◌, true, false, ◌&&◌, some, inl, inr, arith}
use problem_bulletin.Prelude.Table.{lookup}
use problem_bulletin.Domain.{
  Ticket, ticket_key, Person, agent, Db, Context, ok, err, already_claimed, ticket_not_found, is_ok,
}
use problem_bulletin.Tickets.{Ident, uuid, load, is_none}
use problem_bulletin.Tickets.Load.{load-cases, load-id}
use problem_bulletin.Tickets.Assign.{claim, claimed_by, is_agent}
use problem_bulletin.Tickets.Forest.Others.{claim-tickets}
use problem_bulletin.Tickets.Races.{Replaces, load_replaced}

module _ (ident : Ident) (actor : Person) (ctx : Context) (db : Db) where
  missing_claim :
      load ident db ≡ (err ticket_not_found, db) → is_ok (claim ident actor ctx db).0 ≡ false
  unfolding claim
  missing_claim m = ground (arith, m)

  claim-ok :
      (t t' : Ticket)
      → load ident db ≡ (ok t, db)
      → (claim ident actor ctx db).0 ≡ ok t'
      → ((is_agent actor.kind && is_none t.assignee_id) ≡ true) × (claimed_by actor ctx t ≡ t')
  unfolding claim
  claim-ok t t' f done = ground (arith, f)

  claim-Replaces :
      (t t' : Ticket)
      → load ident db ≡ (ok t, db)
      → lookup ticket_key t.id db.tickets ≡ some t
      → (claim ident actor ctx db).0 ≡ ok t'
      → Replaces t t' db (claim ident actor ctx db).1
  claim-Replaces t t' f at done =
      let (guards, new) = claim-ok t t' f done in
      record {
        found = at;
        id = ground (arith, new);
        version = ground (arith, new);
        stored = ground (arith, guards, new, claim-tickets ident actor ctx db t f);
      }

  claim_held :
      (t : Ticket) (holder : ℕ)
      → load ident db ≡ (ok t, db)
      → t.assignee_id ≡ some holder
      → actor.kind ≡ agent
      → claim ident actor ctx db ≡ (err (already_claimed (some holder)), db)
  unfolding claim
  claim_held t holder f held kind = ground (arith, f, held, kind)

-- Of two agents that claim a ticket only the first gets it: its claim leaves it the assignee, and
-- the other's is refused with the first one's id and changes nothing.
pub claim_once :
    (id : ℕ) (first second : Person) (c d : Context) (db : Db) (t : Ticket)
    → (claim (uuid id) first c db).0 ≡ ok t
    → second.kind ≡ agent
    → (let after = (claim (uuid id) first c db).1 in
        (load (uuid id) after ≡ (ok t, after))
        × (t.assignee_id ≡ some first.id)
        × (claim (uuid id) second d after ≡ (err (already_claimed (some first.id)), after)))
claim_once id first second c d db t done kind = elim (load-cases (uuid id) db) [
  | inl m ↦ ground (arith, missing_claim (uuid id) first c db m)
  | inr (old, found, at) ↦
      let after = (claim (uuid id) first c db).1 in
      let again : load (uuid id) after ≡ (ok t, after) =
        subst (λ k. load (uuid k) after ≡ (ok t, after)) (load-id id db old found)
          (load_replaced old t db after
            (claim-Replaces (uuid id) first c db old t found at done)) in
      let held : t.assignee_id ≡ some first.id =
        ground (arith, claim-ok (uuid id) first c db old t found done) in
      (again, held, claim_held (uuid id) second d after t first.id again held kind)
]
