-- ===== src/Tickets.antt =====
-- `TicketService` of app/services/tickets.py. Each method is a call on a session (`Exec`); methods
-- that lock a row with `FOR UPDATE` are run one after another, so a call sees one state.
pub mod Load
pub mod Forest
pub mod History
pub mod Create
pub mod Update
pub mod Move
pub mod Assign
pub mod Remove
pub mod Links
pub mod Comments
pub mod Watchers
pub mod Races
pub mod Listing
use problem_bulletin.Prelude.{
  ℕ, ◌+◌, Bool, true, false, not, ◌&&◌, ◌||◌, Option, none, some, List, [], ◌∷◌, ◌==◌,
  if◌then◌else◌, find,
}
use problem_bulletin.Prelude.Table.{lookup, put}
use problem_bulletin.Prelude.Text.{Text, text_eq}
use problem_bulletin.Domain.{
  Ticket, ticket_key, Person, Party, is_party, Db, Context, Exec, Error, ticket_not_found, gets,
  or_raise, modify, ◌>>=◌, ◌>>◌, step_for, Flush, flushed, same_project, violated, raise, pure,
  cross_project, integrity, lift,
}

-- A ticket's identifier: a UUID, or a text that parses as one, or else a display id.
pub data Ident : Type 0 where
  uuid : ℕ → Ident
  display : Text → Ident

-- `select(Ticket.id).where(Ticket.display_id == ident)`
unfoldable pub find_display : Text → List Ticket → Option Ticket
find_display s tickets = find (λ (t : Ticket). text_eq t.display_id s) tickets

-- `_resolve_id`: a UUID is not looked up here
unfoldable pub resolve_id : Ident → Exec ℕ
resolve_id (uuid id) = pure id
resolve_id (display s) = do
  found ← gets (λ db. find_display s db.tickets)
  t ← or_raise found ticket_not_found
  pure t.id

-- `_load`
unfoldable pub load : Ident → Exec Ticket
unfolding resolve_id
load ident = do
  id ← resolve_id ident
  found ← gets (λ db. lookup ticket_key id db.tickets)
  or_raise found ticket_not_found

-- `_stamp_last_activity`
abbrev pub stamped : Person → Context → Ticket → Ticket
stamped actor ctx t = record t {
  last_actor_type = some actor.kind;
  last_actor_id = some actor.id;
  last_activity_at = some ctx.now;
  last_agent_step_id = step_for actor.kind ctx.step;
}

-- The changed row is flushed.
unfoldable pub save : Ticket → Exec (Unit {0})
save t = modify λ db. record db { tickets = put ticket_key t db.tickets }

-- `ticket.version = ticket.version + 1; ticket.updated_at = now` and the stamp
abbrev pub touched : Person → Context → Ticket → Ticket
touched actor ctx t =
    stamped actor ctx (record t { version = t.version + 1; updated_at = some ctx.now })

abbrev pub is_none {ℓ} : {A : Type ℓ} → Option A → Bool
is_none none = true
is_none (some a) = false

-- `(a is None) != (b is None)`
abbrev pub unpaired {ℓ κ} : {A : Type ℓ} {B : Type κ} → Option A → Option B → Bool
unpaired none none = false
unpaired (some a) (some b) = false
unpaired _ _ = true

-- `t is not None and t not in ("user", "agent")`
abbrev pub bad_kind : Option Party → Bool
bad_kind none = false
bad_kind (some kind) = not (is_party kind)
