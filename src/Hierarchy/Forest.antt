-- ===== src/Hierarchy/Forest.antt =====
-- The parent pointers form a forest: each parent exists, is of an allowed type and of the child's
-- project. Writes that respect the rules keep it so.
use problem_bulletin.Prelude.{
  ℕ, ◌≡◌, ◌≢◌, ◌<◌, Bool, true, false, not, ◌&&◌, Option, none, some, List, ◌∷◌, map, ◌==◌, arith,
  inl, inr, Option-cases,
}
use problem_bulletin.Prelude.Table.{
  lookup, put, remove, lookup-cons, lookup-put, lookup-remove, lookup-map,
}
use problem_bulletin.Domain.{
  TicketType, workpackage, epic, story, task, subtask, bug, type_eq, Ticket, ticket_key, ok,
}
use problem_bulletin.Hierarchy.{may_parent, validate_hierarchy}

-- A ticket's depth in a well-formed tree is at most that of its type.
abbrev pub level : TicketType → ℕ
level workpackage = 0
level epic = 1
level story = 2
level task = 3
level bug = 3
level subtask = 4

pub may_parent-level : (c p : TicketType) → may_parent c p ≡ true → level p < level c
unfolding may_parent
may_parent-level c p h = ground arith

-- The rules of one child against the rows.
abbrev pub parent_valid : List Ticket → TicketType → ℕ → Option ℕ → Bool
parent_valid rows type project none = not (type_eq type subtask)
parent_valid rows type project (some p) = elim (lookup ticket_key p rows) [
  | none ↦ false
  | some r ↦ may_parent type r.type && r.project_id == project
]

abbrev pub row_valid : List Ticket → Ticket → Bool
row_valid rows t = parent_valid rows t.type t.project_id t.parent_id

pub record IsForest (rows : List Ticket) : Type 0 where
  pub at : (k : ℕ) (t : Ticket) → lookup ticket_key k rows ≡ some t → row_valid rows t ≡ true

-- What the validation lets through is valid.
pub validate_hierarchy-valid :
    (rows : List Ticket) (type : TicketType) (parent child : Option ℕ) (project : ℕ)
    → validate_hierarchy rows type parent child project ≡ ok tt
    → parent_valid rows type project parent ≡ true
unfolding validate_hierarchy
validate_hierarchy-valid rows type none child project h = ground arith
validate_hierarchy-valid rows type (some p) child project h = ground arith

-- The parent row that a valid pointer names.
pub parent_row :
    (rows : List Ticket) (type : TicketType) (project p : ℕ)
    → parent_valid rows type project (some p) ≡ true
    → (r : Ticket) × (lookup ticket_key p rows ≡ some r)
      × (level r.type < level type)
      × (r.project_id ≡ project)
parent_row rows type project p h = elim (Option-cases (lookup ticket_key p rows)) [
  | inl e ↦ absurd (ground (arith, e))
  | inr (r, e) ↦ (r, e, ground (arith, may_parent-level type r.type), ground arith)
]

-- Overwriting a row by one of the same type and project keeps every valid pointer.
put-parent_valid :
    (rows : List Ticket) (old new : Ticket)
    → lookup ticket_key new.id rows ≡ some old
    → new.type ≡ old.type
    → new.project_id ≡ old.project_id
    → (type : TicketType) (project : ℕ) (parent : Option ℕ)
    → parent_valid rows type project parent ≡ true
    → parent_valid (put ticket_key new rows) type project parent ≡ true
put-parent_valid rows old new e et ep type project none h = h
put-parent_valid rows old new e et ep type project (some p) h =
    ground (arith, lookup-put ticket_key p new rows)

pub put-IsForest :
    (rows : List Ticket) (old new : Ticket)
    → lookup ticket_key new.id rows ≡ some old
    → new.type ≡ old.type
    → new.project_id ≡ old.project_id
    → row_valid rows new ≡ true
    → IsForest rows
    → IsForest (put ticket_key new rows)
put-IsForest rows old new e et ep valid h = record {
  at = λ k t found.
      put-parent_valid rows old new e et ep t.type t.project_id t.parent_id
        (ground (arith, lookup-put ticket_key k new rows, h.at k t));
}

-- A new row under a fresh id.
cons-parent_valid :
    (rows : List Ticket) (new : Ticket)
    → lookup ticket_key new.id rows ≡ none
    → (type : TicketType) (project : ℕ) (parent : Option ℕ)
    → parent_valid rows type project parent ≡ true
    → parent_valid (new ∷ rows) type project parent ≡ true
cons-parent_valid rows new e type project none h = h
cons-parent_valid rows new e type project (some p) h =
    ground (arith, lookup-cons ticket_key p new rows)

pub cons-IsForest :
    (rows : List Ticket) (new : Ticket)
    → lookup ticket_key new.id rows ≡ none
    → row_valid rows new ≡ true
    → IsForest rows
    → IsForest (new ∷ rows)
cons-IsForest rows new e valid h = record {
  at = λ k t found.
      cons-parent_valid rows new e t.type t.project_id t.parent_id
        (ground (arith, lookup-cons ticket_key k new rows, h.at k t));
}

-- A row without children is removed.
remove-parent_valid :
    (rows : List Ticket) (k : ℕ) (type : TicketType) (project : ℕ) (parent : Option ℕ)
    → parent ≢ some k
    → parent_valid rows type project parent ≡ true
    → parent_valid (remove ticket_key k rows) type project parent ≡ true
remove-parent_valid rows k type project none ne h = h
remove-parent_valid rows k type project (some p) ne h =
    ground (arith, lookup-remove ticket_key p k rows)

pub remove-IsForest :
    (rows : List Ticket) (k : ℕ)
    → ((j : ℕ) (t : Ticket) → lookup ticket_key j rows ≡ some t → t.parent_id ≢ some k)
    → IsForest rows
    → IsForest (remove ticket_key k rows)
remove-IsForest rows k childless h = record {
  at = λ j t found.
      let before : lookup ticket_key j rows ≡ some t =
        ground (arith, lookup-remove ticket_key j k rows) in
      remove-parent_valid rows k t.type t.project_id t.parent_id (childless j t before)
        (h.at j t before);
}

-- An update over all rows that leaves their places alone.
map-parent_valid :
    (f : Ticket → Ticket) (rows : List Ticket)
    → ((t : Ticket) → ((f t).id ≡ t.id) × ((f t).type ≡ t.type) × ((f t).project_id ≡ t.project_id))
    → (type : TicketType) (project : ℕ) (parent : Option ℕ)
    → parent_valid rows type project parent ≡ true
    → parent_valid (map f rows) type project parent ≡ true
map-parent_valid f rows same type project none h = h
map-parent_valid f rows same type project (some p) h =
    let (r, e, _, _) = parent_row rows type project p h in
    ground (arith, e, same r, lookup-map ticket_key f p rows (λ t. (same t).0))

pub map-IsForest :
    (f : Ticket → Ticket) (rows : List Ticket)
    → ((t : Ticket) → ((f t).id ≡ t.id) × ((f t).type ≡ t.type) × ((f t).project_id ≡ t.project_id))
    → ((t : Ticket) → (f t).parent_id ≡ t.parent_id)
    → IsForest rows
    → IsForest (map f rows)
map-IsForest f rows same parent h = record {
  at = λ k t found. elim (Option-cases (lookup ticket_key k rows)) [
    | inl e ↦ absurd (ground (arith, e, lookup-map ticket_key f k rows (λ t. (same t).0)))
    | inr (r, e) ↦
        let moved : f r ≡ t = ground (arith, e, lookup-map ticket_key f k rows (λ t. (same t).0)) in
        map-parent_valid f rows same t.type t.project_id t.parent_id
          (ground (arith, moved, same r, parent r, h.at k r e))
  ];
}
