-- ===== src/Tickets/Update.antt =====
-- `TicketService.update`.
use problem_bulletin.Prelude.{ℕ, Bool, true, false, not, Option, none, some, List, [], ◌∷◌, ◌==◌}
use problem_bulletin.Prelude.Text.{Text}
use problem_bulletin.Domain.{
  Ticket, TicketPriority, Person, Context, Exec, not_updatable, stale_version, cross_project,
  integrity, gets, raise_if, raise, pure, lift, ◌>>=◌, ◌>>◌, Flush, flushed, same_project, violated,
  record_audit, stage_event, ticket_entity, updated, rows,
}
use problem_bulletin.Hierarchy.{validate_hierarchy, walk_to_epic}
use problem_bulletin.Tickets.{Ident, load, save, touched}

-- The `patch` dict: a field is `some` if the dict has its key. `unknown` holds the other keys.
pub record Patch : Type 0 where
  pub title : Option Text
  pub description : Option (Option Text)
  pub priority : Option TicketPriority
  pub parent_id : Option (Option ℕ)
  pub labels : Option (List Text)
  pub custom_fields : Option Text
  pub story_points : Option (Option ℕ)
  pub due_date : Option (Option ℕ)
  pub sprint_id : Option (Option ℕ)
  pub component_id : Option (Option ℕ)
  pub fix_versions : Option (List Text)
  pub resolution : Option (Option Text)
  pub unknown : List Text

-- `setattr(ticket, k, v)` if the patch has the key
abbrev pub patched {ℓ} : {A : Type ℓ} → Option A → A → A
patched none old = old
patched (some new) old = new

abbrev pub apply_patch : Patch → Ticket → Ticket
apply_patch p t = record t {
  title = patched p.title t.title;
  description = patched p.description t.description;
  priority = patched p.priority t.priority;
  parent_id = patched p.parent_id t.parent_id;
  labels = patched p.labels t.labels;
  custom_fields = patched p.custom_fields t.custom_fields;
  story_points = patched p.story_points t.story_points;
  due_date = patched p.due_date t.due_date;
  sprint_id = patched p.sprint_id t.sprint_id;
  component_id = patched p.component_id t.component_id;
  fix_versions = patched p.fix_versions t.fix_versions;
  resolution = patched p.resolution t.resolution;
}

abbrev pub is_nil {ℓ} : {A : Type ℓ} → List A → Bool
is_nil [] = true
is_nil (x ∷ xs) = false

-- `if "parent_id" in patch: await self._validate_hierarchy(...)`
unfoldable pub check_parent : Ticket → Option (Option ℕ) → Exec (Unit {0})
check_parent t none = pure tt
check_parent t (some parent) = do
  valid ← gets (λ db. validate_hierarchy db.tickets t.type parent (some t.id) t.project_id)
  lift valid

-- The epic of the patched ticket; the walk reads the rows before the flush, but not the ticket's
-- own.
abbrev pub new_epic : List Ticket → Option (Option ℕ) → Option ℕ → Option ℕ
new_epic tickets none old = old
new_epic tickets (some parent) old = walk_to_epic tickets parent

-- The ticket that is flushed.
abbrev pub edited : List Ticket → Patch → Person → Context → Ticket → Ticket
edited tickets patch actor ctx t =
    touched actor ctx
      (record (apply_patch patch t) { epic_id = new_epic tickets patch.parent_id t.epic_id })

-- `session.flush([ticket])`
unfoldable pub save_checked : Flush → Ticket → Exec (Unit {0})
unfolding save
save_checked flushed t = save t
save_checked same_project t = raise cross_project
save_checked violated t = raise integrity

-- `TicketService.update`
unfoldable pub update : Ident → Person → ℕ → Patch → Context → Exec Ticket
unfolding check_parent save_checked record_audit stage_event
update ident actor expected patch ctx = do
  raise_if (not (is_nil patch.unknown)) not_updatable
  t ← load ident
  raise_if (not (t.version == expected)) (stale_version t.version)
  check_parent t patch.parent_id
  tickets ← gets (λ db. db.tickets)
  let t' = edited tickets patch actor ctx t
  save_checked ctx.flush t'
  record_audit ticket_entity t.id updated actor (rows (some t) (some t'))
  stage_event updated t.id
  pure t'
