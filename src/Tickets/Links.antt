-- ===== src/Tickets/Links.antt =====
-- `TicketService.link` and `list_links`.
pub mod Laws
pub mod Pairs
use problem_bulletin.Prelude.{
  ℕ, Bool, true, false, not, ◌&&◌, Option, none, some, List, [], ◌∷◌, ◌==◌, if◌then◌else◌, filter,
  any,
}
use problem_bulletin.Domain.{
  Ticket, TicketLinkType, blocks, is_blocked_by, duplicates, is_duplicate_of, relates_to, parent_of,
  child_of, clones, is_cloned_by, link_type_eq, TicketLink, Person, Db, Context, Exec, self_link,
  tombstoned, duplicate_link, gets, raise_if, modify, pure, ◌>>=◌, ◌>>◌, step_for, record_audit,
  stage_event, link_entity, linked, link_diff,
}
use problem_bulletin.Tickets.{Ident, uuid, load, save, stamped}

-- `_TOMBSTONED_LINK_TYPES`
abbrev pub is_tombstoned : TicketLinkType → Bool
is_tombstoned parent_of = true
is_tombstoned child_of = true
is_tombstoned _ = false

-- `_LINK_INVERSES.get(lt)`
abbrev pub link_inverse : TicketLinkType → Option TicketLinkType
link_inverse blocks = some is_blocked_by
link_inverse is_blocked_by = some blocks
link_inverse duplicates = some is_duplicate_of
link_inverse is_duplicate_of = some duplicates
link_inverse clones = some is_cloned_by
link_inverse is_cloned_by = some clones
link_inverse relates_to = none
link_inverse parent_of = none
link_inverse child_of = none

abbrev pub is_link : ℕ → ℕ → TicketLinkType → TicketLink → Bool
is_link source target lt r =
    r.source_id == source && r.target_id == target && link_type_eq r.link_type lt

unfoldable pub has_link : ℕ → ℕ → TicketLinkType → List TicketLink → Bool
has_link source target lt links = any (is_link source target lt) links

abbrev pub new_link : ℕ → ℕ → TicketLinkType → Person → Context → TicketLink
new_link source target lt actor ctx = record {
  source_id = source;
  target_id = target;
  link_type = lt;
  created_by = actor.id;
  created_by_type = actor.kind;
  agent_step_id = step_for actor.kind ctx.step;
}

-- The row of the other side, unless it is there.
unfoldable pub add_inverse :
    ℕ → ℕ → TicketLinkType → Person → Context → List TicketLink → List TicketLink
unfolding has_link
add_inverse source target lt actor ctx links = elim (link_inverse lt) [
  | none ↦ links
  | some inverse ↦
      (if has_link target source inverse links
        then links
        else new_link target source inverse actor ctx ∷ links)
]

-- `TicketService.link`; `uq_ticket_links` refuses a second row of the same ends and type
unfoldable pub link : Person → ℕ → ℕ → TicketLinkType → Context → Exec TicketLink
unfolding save record_audit stage_event
link actor source target lt ctx = do
  raise_if (source == target) self_link
  raise_if (is_tombstoned lt) tombstoned
  t ← load (uuid source)
  load (uuid target) >>= λ _. pure tt
  present ← gets (λ db. has_link source target lt db.links)
  raise_if present duplicate_link
  let row = new_link source target lt actor ctx
  modify (λ db. record db { links = row ∷ db.links })
  modify (λ db. record db { links = add_inverse source target lt actor ctx db.links })
  save (stamped actor ctx t)
  record_audit link_entity ctx.new_id linked actor (link_diff source target lt)
  stage_event linked source
  pure row

-- `TicketService.list_links`: the outgoing and the incoming links
unfoldable pub list_links : Ident → Exec (List TicketLink × List TicketLink)
list_links ident = do
  t ← load ident
  gets (λ db. (
    filter (λ (r : TicketLink). r.source_id == t.id) db.links,
    filter (λ (r : TicketLink). r.target_id == t.id) db.links,
  ))
