-- ===== src/Hierarchy/Epic.antt =====
-- In a forest the walks up the parent chain are exact: the cycle check never fires, and the 50
-- rounds of `_walk_to_epic` are enough.
use problem_bulletin.Prelude.{
  ℕ, zero, suc, ◌≡◌, refl, ◌≢◌, ◌<◌, ◌≤◌, ◌↔◌, ◌⊎◌, true, false, Option, none, some, List, [], ◌∷◌,
  ◌==◌, arith, inl, inr, Option-cases, Bool-cases, ==_iff, ap, All, sym,
}
use mathlib.Core.Path.{subst}
use problem_bulletin.Prelude.Table.{lookup, lookup_key}
use problem_bulletin.Domain.{TicketType, Ticket, ticket_key, epic, type_eq, ok}
use problem_bulletin.Hierarchy.{
  check_chain, check_cycle, validate_hierarchy, is_seen, chain_fuel, walk, walk_to_epic,
}
use problem_bulletin.Hierarchy.Forest.{
  IsForest, level, parent_valid, parent_row, validate_hierarchy-valid,
}
use problem_bulletin.Hierarchy.Cycles.{check_chain-ne-none}

-- The row of `s` lies below level `n`.
abbrev Below : List Ticket → ℕ → ℕ → Type 0
Below rows n s = elim (lookup ticket_key s rows) [ none ↦ ⊥ | some t ↦ n < level t.type ]

not_seen :
    (rows : List Ticket) (c : ℕ) (r : Ticket) (seen : List ℕ)
    → lookup ticket_key c rows ≡ some r
    → All (Below rows (level r.type)) seen
    → is_seen c seen ≡ false
not_seen rows c r [] found h = refl
not_seen rows c r (s ∷ seen) found h = elim (Bool-cases (s == c)) [
  | inl e ↦ absurd (ground (arith, (==_iff s c).0 e, found))
  | inr ne ↦ ground (arith, ne, not_seen rows c r seen found h.1)
]

Below-mono :
    (rows : List Ticket) (m n : ℕ) (seen : List ℕ)
    → m ≤ n
    → All (Below rows n) seen
    → All (Below rows m) seen
Below-mono rows m n [] le h = tt
Below-mono rows m n (s ∷ seen) le h = ground (arith, Below-mono rows m n seen le h.1)

check_chain_passes :
    (fuel : ℕ) (rows : List Ticket) (child : ℕ) (ch : Ticket) (seen : List ℕ) (c : ℕ) (r : Ticket)
    → IsForest rows
    → lookup ticket_key child rows ≡ some ch
    → lookup ticket_key c rows ≡ some r
    → level r.type < level ch.type
    → All (Below rows (level r.type)) seen
    → (check_chain fuel rows child seen (some c) ≡ none)
      ⊎ (check_chain fuel rows child seen (some c) ≡ some (ok tt))
unfolding check_chain
check_chain_passes zero rows child ch seen c r forest at_child at_c lt below = inl refl
check_chain_passes (suc fuel) rows child ch seen c r forest at_child at_c lt below =
    let other : (c == child) ≡ false = elim (Bool-cases (c == child)) [
      | inl e ↦ absurd (ground (arith, (==_iff c child).0 e, at_child, at_c))
      | inr ne ↦ ne
    ] in
    let fresh = not_seen rows c r seen at_c below in
    elim (Option-cases r.parent_id) [
      | inl e ↦ ground (arith, other, fresh, at_c, e)
      | inr (p, e) ↦
          let valid : parent_valid rows r.type r.project_id (some p) ≡ true =
            ground (arith, forest.at c r at_c, e) in
          let (q, at_p, lower, _) = parent_row rows r.type r.project_id p valid in
          let rest =
            check_chain_passes fuel rows child ch (c ∷ seen) p q forest at_child at_p (omega arith)
              (
                ground (arith, at_c),
                Below-mono rows (level q.type) (level r.type) seen (omega arith) below,
              ) in
          ground (arith, other, fresh, at_c, e, rest)
    ]

check_cycle_passes :
    (rows : List Ticket) (child p : ℕ) (ch r : Ticket)
    → IsForest rows
    → lookup ticket_key child rows ≡ some ch
    → lookup ticket_key p rows ≡ some r
    → level r.type < level ch.type
    → check_cycle rows (some child) p ≡ ok tt
unfolding check_cycle
check_cycle_passes rows child p ch r forest at_child at_p lt =
    elim (check_chain_passes (chain_fuel rows) rows child ch [] p r forest at_child at_p lt tt) [
      | inl e ↦ absurd (check_chain-ne-none rows child p e)
      | inr e ↦ ground (arith, e)
    ]

valid-validate_hierarchy :
    (rows : List Ticket) (ch : Ticket) (parent : Option ℕ)
    → IsForest rows
    → lookup ticket_key ch.id rows ≡ some ch
    → parent_valid rows ch.type ch.project_id parent ≡ true
    → validate_hierarchy rows ch.type parent (some ch.id) ch.project_id ≡ ok tt
unfolding validate_hierarchy
valid-validate_hierarchy rows ch none forest at_child h = ground arith
valid-validate_hierarchy rows ch (some p) forest at_child h =
    let (r, at_p, lower, same) = parent_row rows ch.type ch.project_id p h in
    let key = lookup_key ticket_key p rows at_p in
    let passes = check_cycle_passes rows ch.id p ch r forest at_child at_p lower in
    ground (arith, at_p, key, ap (check_cycle rows (some ch.id)) key, passes)

-- In a forest, a move of an existing ticket is accepted exactly if the new parent exists, is of an
-- allowed type and of the ticket's project, or if there is none and the ticket is no subtask. So the
-- parent types alone rule cycles out, and no move is refused for a cycle.
pub validate_hierarchy_exact :
    (rows : List Ticket) (ch : Ticket) (parent : Option ℕ)
    → IsForest rows
    → lookup ticket_key ch.id rows ≡ some ch
    → (validate_hierarchy rows ch.type parent (some ch.id) ch.project_id ≡ ok tt)
      ↔ (parent_valid rows ch.type ch.project_id parent ≡ true)
validate_hierarchy_exact rows ch parent forest at_child = (
  validate_hierarchy-valid rows ch.type parent (some ch.id) ch.project_id,
  valid-validate_hierarchy rows ch parent forest at_child,
)

-- The nearest epic at or above a cursor, with no bound on the way.
pub data NearestEpic (rows : List Ticket) : Option ℕ → Option ℕ → Type 0 where
  top : {o : Option ℕ} → o ≡ none → NearestEpic rows o none
  found :
      {o : Option ℕ} (c : ℕ) (r : Ticket)
      → o ≡ some c
      → lookup ticket_key c rows ≡ some r
      → r.type ≡ epic
      → NearestEpic rows o (some c)
  above :
      {o e : Option ℕ} (c : ℕ) (r : Ticket)
      → o ≡ some c
      → lookup ticket_key c rows ≡ some r
      → r.type ≢ epic
      → NearestEpic rows r.parent_id e
      → NearestEpic rows o e

walk-none : (n : ℕ) (rows : List Ticket) (seen : List ℕ) → walk n rows seen none ≡ none
unfolding walk
walk-none zero rows seen = refl
walk-none (suc n) rows seen = refl

walk_nearest :
    (n : ℕ) (rows : List Ticket) (seen : List ℕ) (c : ℕ) (r : Ticket)
    → IsForest rows
    → lookup ticket_key c rows ≡ some r
    → level r.type < n
    → All (Below rows (level r.type)) seen
    → NearestEpic rows (some c) (walk n rows seen (some c))
unfolding walk
walk_nearest zero rows seen c r forest at_c lt below = elim lt [ ]
walk_nearest (suc n) rows seen c r forest at_c lt below =
    let fresh = not_seen rows c r seen at_c below in
    elim (Bool-cases (type_eq r.type epic)) [
      | inl e ↦
          let stop : walk (suc n) rows seen (some c) ≡ some c = ground (arith, fresh, at_c, e) in
          rw stop (found c r refl at_c (ground arith))
      | inr ne ↦
          let go : walk (suc n) rows seen (some c) ≡ walk n rows (c ∷ seen) r.parent_id =
            ground (arith, fresh, at_c, ne) in
          let Rest : Option ℕ → Type 0 = λ o. NearestEpic rows o (walk n rows (c ∷ seen) o) in
          let rest : Rest r.parent_id = elim (Option-cases r.parent_id) [
            | inl e ↦ subst Rest (sym e) (rw walk-none (top refl))
            | inr (p, e) ↦
                let valid : parent_valid rows r.type r.project_id (some p) ≡ true =
                  ground (arith, forest.at c r at_c, e) in
                let (q, at_p, lower, _) = parent_row rows r.type r.project_id p valid in
                let still =
                  Below-mono rows (level q.type) (level r.type) seen (omega arith) below in
                subst Rest (sym e) (
                  walk_nearest n rows (c ∷ seen) p q forest at_p (omega arith)
                    (ground (arith, at_c), still))
          ] in
          rw go (above c r refl at_c (ground arith) rest)
    ]

-- In a forest, the 50 rounds of the walk find, for any valid parent pointer, the nearest epic at or
-- above it, and answer none only if there is none.
pub walk_to_epic-NearestEpic :
    (rows : List Ticket) (type : TicketType) (project : ℕ) (parent : Option ℕ)
    → IsForest rows
    → parent_valid rows type project parent ≡ true
    → NearestEpic rows parent (walk_to_epic rows parent)
unfolding walk_to_epic
walk_to_epic-NearestEpic rows type project none forest h = top refl
walk_to_epic-NearestEpic rows type project (some p) forest h =
    let (r, at_p, _, _) = parent_row rows type project p h in
    walk_nearest 50 rows [] p r forest at_p (shallow r.type) tt
  where
    shallow : (t : TicketType) → level t < 50
    shallow t = ground arith
