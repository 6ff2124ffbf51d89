-- ===== src/Hierarchy.antt =====
-- The parenting rules of app/services/tickets.py: `_PARENT_ALLOWED`, `_validate_hierarchy` and
-- `_walk_to_epic`.
pub mod Forest
pub mod Cycles
pub mod Epic
use problem_bulletin.Prelude.{
  ℕ, zero, suc, ◌+◌, Bool, true, false, not, ◌&&◌, ◌||◌, Option, none, some, List, [], ◌∷◌, ◌==◌,
  if◌then◌else◌, length, any,
}
use problem_bulletin.Prelude.Table.{lookup}
use problem_bulletin.Domain.{
  TicketType, workpackage, epic, story, task, subtask, bug, type_eq, Ticket, ticket_key, Error,
  subtask_needs_parent, parent_missing, parent_cycle, existing_cycle, cross_project, parent_type,
  Result, ok, err,
}

-- `_PARENT_ALLOWED`, the types other than `None`
abbrev pub parent_types : TicketType → List TicketType
parent_types workpackage = []
parent_types epic = workpackage ∷ []
parent_types story = epic ∷ workpackage ∷ []
parent_types task = story ∷ epic ∷ workpackage ∷ []
parent_types bug = story ∷ epic ∷ workpackage ∷ []
parent_types subtask = task ∷ bug ∷ story ∷ []

-- `parent.type in _PARENT_ALLOWED.get(child_type, set())`
unfoldable pub may_parent : TicketType → TicketType → Bool
may_parent child parent = any (λ p. type_eq p parent) (parent_types child)

-- `cursor in seen`
abbrev pub is_seen : ℕ → List ℕ → Bool
is_seen c seen = any (λ s. s == c) seen

-- `select(Ticket.parent_id).where(Ticket.id == cursor)`, `None` too if there is no such row.
abbrev pub parent_of : List Ticket → ℕ → Option ℕ
parent_of rows c = elim (lookup ticket_key c rows) [ none ↦ none | some r ↦ r.parent_id ]

-- The `while` loop of `_validate_hierarchy` over `cursor` and `seen`. `none` means that the fuel
-- ran out.
unfoldable pub check_chain : ℕ → List Ticket → ℕ → List ℕ → Option ℕ → Option (Result (Unit {0}))
check_chain fuel rows child seen none = some (ok tt)
check_chain zero rows child seen (some c) = none
check_chain (suc fuel) rows child seen (some c) =
    let rest = check_chain fuel rows child (c ∷ seen) (parent_of rows c) in
    if c == child
    then some (err parent_cycle)
    else if is_seen c seen
    then some (err existing_cycle)
    else rest

-- Each round puts one more cursor into `seen`, and all but the last have a row.
abbrev pub chain_fuel : List Ticket → ℕ
chain_fuel rows = length rows + 2

-- `if child_id is not None:` and the loop below it
unfoldable pub check_cycle : List Ticket → Option ℕ → ℕ → Result (Unit {0})
unfolding check_chain
check_cycle rows none parent = ok tt
check_cycle rows (some child) parent =
    elim (check_chain (chain_fuel rows) rows child [] (some parent)) [
      | none ↦ err existing_cycle
      | some r ↦ r
    ]

abbrev check_parent_row : List Ticket → TicketType → Option ℕ → ℕ → Ticket → Result (Unit {0})
check_parent_row rows child_type child_id project p =
    if not (may_parent child_type p.type)
    then err (parent_type child_type p.type)
    else if not (p.project_id == project)
    then err cross_project
    else check_cycle rows child_id p.id

-- `_validate_hierarchy`: child type, new parent, the child's id if it exists, its project. Both
-- callers pass a project, and the column is never null.
unfoldable pub validate_hierarchy :
    List Ticket → TicketType → Option ℕ → Option ℕ → ℕ → Result (Unit {0})
unfolding may_parent
validate_hierarchy rows child_type none child_id project =
    if type_eq child_type subtask then err subtask_needs_parent else ok tt
validate_hierarchy rows child_type (some parent) child_id project =
    elim (lookup ticket_key parent rows) [
      | none ↦ err parent_missing
      | some p ↦ check_parent_row rows child_type child_id project p
    ]

-- The loop of `_walk_to_epic`, with the rounds that `range(50)` has left.
unfoldable pub walk : ℕ → List Ticket → List ℕ → Option ℕ → Option ℕ
walk zero rows seen cursor = none
walk (suc n) rows seen none = none
walk (suc n) rows seen (some c) = if is_seen c seen then none else elim (lookup ticket_key c rows) [
  | none ↦ none
  | some r ↦ (if type_eq r.type epic then some c else walk n rows (c ∷ seen) r.parent_id)
]

unfoldable pub walk_to_epic : List Ticket → Option ℕ → Option ℕ
unfolding walk
walk_to_epic rows parent_id = walk 50 rows [] parent_id
