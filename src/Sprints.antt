-- ===== src/Sprints.antt =====
-- app/services/sprints.py: `SprintService`, over the `sprints` table of app/models/project.py and
-- the tickets.
pub mod Lifecycle
pub mod Exclusive
use problem_bulletin.Prelude.{
  ℕ, Bool, true, false, not, ◌&&◌, Option, none, some, List, [], ◌∷◌, ◌==◌, leb, map, any,
  if◌then◌else◌,
}
use problem_bulletin.Prelude.Table.{lookup, put, remove}
use problem_bulletin.Prelude.Text.{Text, is_blank}
use problem_bulletin.Domain.{Ticket, ticket_key, SprintState, planned, active, closed, is_terminal}

pub record Sprint : Type 0 where
  pub id : ℕ
  pub project_id : ℕ
  pub name : Text
  pub goal : Option Text
  pub state : SprintState
  pub start_date : Option ℕ
  pub end_date : Option ℕ

abbrev pub sprint_key : Sprint → ℕ
sprint_key s = s.id

pub record Board : Type 0 where
  pub sprints : List Sprint
  pub tickets : List Ticket

pub data SprintError : Type 0 where
  name_required dates_reversed project_missing not_updatable_field date_order sprint_not_found
        other_active :
      SprintError
  cannot_move : SprintState → SprintError

-- A sprint, nothing, or what was raised.
pub data Reply : Type 0 where
  sprint : Sprint → Reply
  nothing : Reply
  raised : SprintError → Reply

abbrev pub is_planned : SprintState → Bool
is_planned planned = true
is_planned _ = false

abbrev pub is_active : SprintState → Bool
is_active active = true
is_active _ = false

-- `start is not None and end is not None and start > end`
abbrev pub reversed : Option ℕ → Option ℕ → Bool
reversed (some a) (some b) = not (leb a b)
reversed _ _ = false

-- `create`; `project` is what `project_service.get_or_raise` finds
unfoldable pub create :
    ℕ → Option ℕ → Text → Option Text → Option ℕ → Option ℕ → Board → Reply × Board
create new_id project name goal start end b =
    if is_blank name
    then (raised name_required, b)
    else if reversed start end
    then (raised dates_reversed, b)
    else elim project [
      | none ↦ (raised project_missing, b)
      | some p ↦
          let s : Sprint = record {
            id = new_id;
            project_id = p;
            name = name;
            goal = goal;
            state = planned;
            start_date = start;
            end_date = end;
          } in
          (sprint s, record b { sprints = s ∷ b.sprints })
    ]

-- The `patch` dict; `unknown` says whether it has other keys.
pub record SprintPatch : Type 0 where
  pub name : Option Text
  pub goal : Option (Option Text)
  pub start_date : Option (Option ℕ)
  pub end_date : Option (Option ℕ)
  pub unknown : Bool

abbrev pub given {ℓ} : {A : Type ℓ} → Option A → A → A
given none old = old
given (some new) old = new

abbrev pub patched : SprintPatch → Sprint → Sprint
patched p s = record s {
  name = given p.name s.name;
  goal = given p.goal s.goal;
  start_date = given p.start_date s.start_date;
  end_date = given p.end_date s.end_date;
}

abbrev pub save : Sprint → Board → Reply × Board
save s b = (sprint s, record b { sprints = put sprint_key s b.sprints })

-- `update`; the CHECK `date_order` of the table refuses reversed dates at the flush
unfoldable pub update : ℕ → SprintPatch → Board → Reply × Board
update id patch b =
    if patch.unknown
    then (raised not_updatable_field, b)
    else elim (lookup sprint_key id b.sprints) [
      | none ↦ (raised sprint_not_found, b)
      | some s ↦
          let s' = patched patch s in
          if reversed s'.start_date s'.end_date then (raised date_order, b) else save s' b
    ]

-- An active sprint of the project.
abbrev pub is_running : ℕ → Sprint → Bool
is_running project s = s.project_id == project && is_active s.state

-- `start`
unfoldable pub start : ℕ → Board → Reply × Board
start id b = elim (lookup sprint_key id b.sprints) [
  | none ↦ (raised sprint_not_found, b)
  | some s ↦
      (if not (is_planned s.state)
        then (raised (cannot_move s.state), b)
        else if any (is_running s.project_id) b.sprints
        then (raised other_active, b)
        else save (record s { state = active }) b)
]

abbrev pub in_sprint : ℕ → Option ℕ → Bool
in_sprint id none = false
in_sprint id (some j) = j == id

-- `update(Ticket).where(sprint, not terminal).values(sprint_id=None)`
abbrev pub release : ℕ → Ticket → Ticket
release id t = record t {
  sprint_id =
      (if in_sprint id t.sprint_id && not (is_terminal t.status) then none else t.sprint_id);
}

-- `close`
unfoldable pub close : ℕ → Board → Reply × Board
close id b = elim (lookup sprint_key id b.sprints) [
  | none ↦ (raised sprint_not_found, b)
  | some s ↦
      (if not (is_active s.state)
        then (raised (cannot_move s.state), b)
        else save (record s { state = closed }) (record b { tickets = map (release id) b.tickets }))
]

-- ON DELETE SET NULL
abbrev pub forget_sprint : ℕ → Ticket → Ticket
forget_sprint id t = record t {
  sprint_id = (if in_sprint id t.sprint_id then none else t.sprint_id);
}

-- `delete`
unfoldable pub delete : ℕ → Board → Reply × Board
delete id b = elim (lookup sprint_key id b.sprints) [
  | none ↦ (raised sprint_not_found, b)
  | some s ↦
      (if not (is_planned s.state) then (raised (cannot_move s.state), b) else (
        nothing,
        record {
          sprints = remove sprint_key id b.sprints;
          tickets = map (forget_sprint id) b.tickets;
        },
      ))
]

-- `add_ticket`: a ticket of another project is left alone
unfoldable pub add_ticket : ℕ → ℕ → Board → Reply × Board
add_ticket id ticket b = elim (lookup sprint_key id b.sprints) [
  | none ↦ (raised sprint_not_found, b)
  | some s ↦ (
    nothing,
    record b {
      tickets =
          map
            (λ (t : Ticket).
              if t.id == ticket && t.project_id == s.project_id
              then record t { sprint_id = some id }
              else t)
            b.tickets;
    },
  )
]

-- `remove_ticket`
unfoldable pub remove_ticket : ℕ → ℕ → Board → Reply × Board
remove_ticket id ticket b = (
  nothing,
  record b {
    tickets =
        map
          (λ (t : Ticket).
            if t.id == ticket && in_sprint id t.sprint_id then record t { sprint_id = none } else t)
          b.tickets;
  },
)
