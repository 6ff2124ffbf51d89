-- ===== src/Tickets/Comments.antt =====
-- `TicketService.add_comment`. The people that its `@handle` tokens resolve to are an argument.
use problem_bulletin.Prelude.{
  ℕ, Bool, true, false, not, Option, none, some, List, [], ◌∷◌, ◌==◌, map,
}
use problem_bulletin.Prelude.Table.{lookup}
use problem_bulletin.Prelude.Text.{Text, is_blank}
use problem_bulletin.Domain.{
  Ticket, TicketComment, comment_key, user, Person, Context, Exec, body_required, parent_comment,
  gets, raise_if, modify, pure, ◌>>=◌, ◌>>◌, step_for, record_audit, stage_event, comment_entity,
  commented, comment_diff,
}
use problem_bulletin.Notifications.Fanout.{fanout_mentions}
use problem_bulletin.Tickets.{Ident, load, save, stamped}

-- `parent is None or parent.ticket_id != ticket.id`, for a parent that is given
abbrev pub bad_parent : ℕ → Option ℕ → List TicketComment → Bool
bad_parent ticket none comments = false
bad_parent ticket (some parent) comments = elim (lookup comment_key parent comments) [
  | none ↦ true
  | some c ↦ not (c.ticket_id == ticket)
]

abbrev pub new_comment : Ticket → Person → Text → List Person → Option ℕ → Context → TicketComment
new_comment t actor body people parent ctx = record {
  id = ctx.new_id;
  ticket_id = t.id;
  parent_comment_id = parent;
  author_id = actor.id;
  author_type = actor.kind;
  body = body;
  agent_step_id = step_for actor.kind ctx.step;
  mentions = map (λ (p : Person). p.id) people;
}

-- Explicit `mentions` are users; without them the resolved handles are taken.
abbrev pub mentioned : List ℕ → List Person → List Person
mentioned [] resolved = resolved
mentioned (m ∷ ms) resolved = map (λ id. record { kind = user; id = id }) (m ∷ ms)

-- `TicketService.add_comment`
unfoldable pub add_comment :
    Ident → Person → Text → List ℕ → List Person → Option ℕ → Context → Exec TicketComment
unfolding save record_audit stage_event
add_comment ident actor body mentions resolved parent ctx = do
  raise_if (is_blank body) body_required
  t ← load ident
  bad ← gets (λ db. bad_parent t.id parent db.comments)
  raise_if bad parent_comment
  let people = mentioned mentions resolved
  let comment = new_comment t actor body people parent ctx
  modify (λ db. record db { comments = comment ∷ db.comments })
  modify (λ db. record db {
    notifications = fanout_mentions ctx.now actor t comment.id body people db.notifications;
  })
  save (stamped actor ctx t)
  record_audit comment_entity comment.id commented actor (comment_diff t.id body)
  stage_event commented t.id
  pure comment
