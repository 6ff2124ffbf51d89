-- ===== src/Tickets/Assign.antt =====
-- `TicketService.assign` and `TicketService.claim`.
use problem_bulletin.Prelude.{
  ℕ, ◌+◌, Bool, true, false, not, Option, none, some, [], ◌∷◌, ◌++◌, ◌==◌, if◌then◌else◌,
}
use problem_bulletin.Prelude.Table.{lookup}
use problem_bulletin.Prelude.Text.{Text, strip}
use problem_bulletin.Domain.{
  Ticket, Party, agent, Person, person_eq, Context, Exec, assignee_pair, assignee_kind,
  stale_version, only_agents_claim, already_claimed, raise_if, raise, modify, pure, ◌>>=◌, ◌>>◌,
  record_audit, stage_event, ticket_entity, assigned, claimed, rows,
}
use problem_bulletin.Domain.Runs.{agent_key}
use problem_bulletin.Notifications.Fanout.{fanout_assigned, assignee_of}
use problem_bulletin.Queue.{enqueue, Digest}
use problem_bulletin.Tickets.{Ident, load, save, touched, unpaired, bad_kind}

-- `_assignee_changed`: the new assignee, if it is not null and differs from the old one
abbrev pub newly_assigned : Option Person → Option Person → Option Person
newly_assigned old none = none
newly_assigned none (some p) = some p
newly_assigned (some q) (some p) = if person_eq p q then none else some p

-- `f"{ticket.title}\n\n{ticket.description or ''}".strip()`
abbrev pub prompt_of : Ticket → Text
prompt_of t = strip (t.title ++ (10 ∷ 10 ∷ elim t.description [ none ↦ [] | some d ↦ d ]))

-- `_tns.fanout_assigned(...)`, if the assignee changed
unfoldable pub tell_assignee : Person → Context → Ticket → Option Person → Exec (Unit {0})
tell_assignee actor ctx t none = pure tt
tell_assignee actor ctx t (some p) =
    modify λ db. record db { notifications = fanout_assigned ctx.now actor p t db.notifications }

abbrev pub is_agent : Party → Bool
is_agent agent = true
is_agent _ = false

-- The run of a new assignee that is an agent with an account.
unfoldable pub enqueue_run : Digest → Context → Ticket → Option Person → Exec (Unit {0})
enqueue_run digest ctx t none = pure tt
enqueue_run digest ctx t (some p) = modify λ db.
    if is_agent p.kind
    then elim (lookup agent_key p.id db.agents) [
      | none ↦ db
      | some a ↦ record db { runs = (enqueue digest ctx p.id t.id none (prompt_of t) db.runs).0 }
    ]
    else db

-- `TicketService.assign`
unfoldable pub assign :
    Digest → Ident → Person → Option ℕ → Option Party → ℕ → Context → Exec Ticket
unfolding save record_audit stage_event tell_assignee enqueue_run
assign digest ident actor assignee_id assignee_type expected ctx = do
  raise_if (unpaired assignee_id assignee_type) assignee_pair
  raise_if (bad_kind assignee_type) assignee_kind
  t ← load ident
  raise_if (not (t.version == expected)) (stale_version t.version)
  let t' = touched actor ctx (record t { assignee_id = assignee_id; assignee_type = assignee_type })
  save t'
  record_audit ticket_entity t.id assigned actor (rows (some t) (some t'))
  stage_event assigned t.id
  let new = newly_assigned (assignee_of t) (assignee_of t')
  tell_assignee actor ctx t' new
  enqueue_run digest ctx t' new
  pure t'

-- The values of the `UPDATE ... WHERE assignee_id IS NULL` of `claim`.
abbrev pub claimed_by : Person → Context → Ticket → Ticket
claimed_by actor ctx t = record t {
  assignee_id = some actor.id;
  assignee_type = some agent;
  version = t.version + 1;
  updated_at = some ctx.now;
  last_actor_type = some agent;
  last_actor_id = some actor.id;
  last_activity_at = some ctx.now;
  last_agent_step_id = ctx.step;
}

-- The conditional update, and what a miss raises.
unfoldable pub take_free : Person → Context → Ticket → Exec Ticket
unfolding save
take_free actor ctx t = elim t.assignee_id [
  | none ↦ (do save (claimed_by actor ctx t); pure (claimed_by actor ctx t))
  | some holder ↦ raise (already_claimed (some holder))
]

-- `TicketService.claim`; the update reads the row of the resolved id, and so does the miss.
unfoldable pub claim : Ident → Person → Context → Exec Ticket
unfolding take_free record_audit stage_event
claim ident actor ctx = do
  raise_if (not (is_agent actor.kind)) only_agents_claim
  t ← load ident
  t' ← take_free actor ctx t
  record_audit ticket_entity t'.id claimed actor (rows none (some t'))
  stage_event claimed t'.id
  pure t'
