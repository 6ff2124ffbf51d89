-- ===== src/Hierarchy/Cycles.antt =====
-- The cycle check of `_validate_hierarchy`: it ends, it refuses exactly the moves under a
-- descendant, and in a forest it never meets a cycle of its own.
use problem_bulletin.Prelude.{
  ℕ, zero, suc, ◌≡◌, refl, ◌≢◌, ◌+◌, ◌<◌, ◌≤◌, Bool, false, not, Option, none, some, List, [], ◌∷◌,
  ◌==◌, arith, inl, inr, Option-cases, Bool-cases, count, length, ==_iff, ap,
}
use mathlib.Core.Path.{subst}
use problem_bulletin.Prelude.Table.{lookup}
use problem_bulletin.Domain.{Ticket, ticket_key, ok, err, parent_cycle}
use problem_bulletin.Hierarchy.{check_chain, check_cycle, is_seen, parent_of, chain_fuel}

-- The rows that the walk has not visited.
abbrev unseen : List ℕ → Ticket → Bool
unseen seen t = not (is_seen t.id seen)

abbrev left : List Ticket → List ℕ → ℕ
left rows seen = count (unseen seen) rows

left-cons-le : (rows : List Ticket) (c : ℕ) (seen : List ℕ) → left rows (c ∷ seen) ≤ left rows seen
left-cons-le [] c seen = omega arith
left-cons-le (t ∷ rows) c seen = ground (arith, left-cons-le rows c seen)

-- A visit of a row that was not seen leaves one row fewer.
left-cons-lt :
    (rows : List Ticket) (c : ℕ) (seen : List ℕ)
    → is_seen c seen ≡ false
    → lookup ticket_key c rows ≢ none
    → left rows (c ∷ seen) < left rows seen
unfolding lookup
left-cons-lt [] c seen fresh found = absurd (found refl)
left-cons-lt (t ∷ rows) c seen fresh found = elim (Bool-cases (t.id == c)) [
  | inl e ↦ let same = (==_iff t.id c).0 e in rw (same) (ground (arith, left-cons-le rows c seen))
  | inr ne ↦ ground (arith, left-cons-lt rows c seen fresh)
]

left-le-length : (rows : List Ticket) (seen : List ℕ) → left rows seen ≤ length rows
left-le-length [] seen = omega arith
left-le-length (t ∷ rows) seen = ground (arith, left-le-length rows seen)

check_chain_ends :
    (fuel : ℕ) (rows : List Ticket) (child : ℕ) (seen : List ℕ) (cursor : Option ℕ)
    → left rows seen + 1 < fuel
    → check_chain fuel rows child seen cursor ≢ none
unfolding check_chain
check_chain_ends fuel rows child seen none h = cc
check_chain_ends zero rows child seen (some c) h = elim h [ ]
check_chain_ends (suc zero) rows child seen (some c) h = absurd (omega arith)
check_chain_ends (suc (suc fuel)) rows child seen (some c) h =
    elim (Option-cases (lookup ticket_key c rows)) [
      | inl e ↦ ground (arith, e)
      | inr (r, e) ↦ ground (
        arith,
        e,
        left-cons-lt rows c seen,
        check_chain_ends (suc fuel) rows child (c ∷ seen) r.parent_id,
      )
    ]

-- The loop over the parent chain ends within its fuel, for any rows, also if their parent pointers
-- form a cycle.
pub check_chain-ne-none :
    (rows : List Ticket) (child : ℕ) (parent : ℕ)
    → check_chain (chain_fuel rows) rows child [] (some parent) ≢ none
check_chain-ne-none rows child parent =
    check_chain_ends (chain_fuel rows) rows child [] (some parent)
      (omega (arith, left-le-length rows []))

-- `d` is `c` or an ancestor of `c`, for a cursor `c`.
pub data Chain (rows : List Ticket) : Option ℕ → ℕ → Type 0 where
  here : {o : Option ℕ} (c : ℕ) → o ≡ some c → Chain rows o c
  up :
      {o : Option ℕ} {d : ℕ} (c : ℕ) → o ≡ some c → Chain rows (parent_of rows c) d → Chain rows o d

-- A refusal as a cycle is right: the child is among the new parent and its ancestors.
check_chain_sound :
    (fuel : ℕ) (rows : List Ticket) (child : ℕ) (seen : List ℕ) (cursor : Option ℕ)
    → check_chain fuel rows child seen cursor ≡ some (err parent_cycle)
    → Chain rows cursor child
unfolding check_chain
check_chain_sound fuel rows child seen none h = cc
check_chain_sound zero rows child seen (some c) h = cc
check_chain_sound (suc fuel) rows child seen (some c) h = elim (Bool-cases (c == child)) [
  | inl e ↦ here child (ap some ((==_iff c child).0 e))
  | inr ne ↦
      up c refl
        (check_chain_sound fuel rows child (c ∷ seen) (parent_of rows c) (ground (arith, ne)))
]

-- A pass is right: the child is not among the new parent and its ancestors.
check_chain_complete :
    (fuel : ℕ) (rows : List Ticket) (child : ℕ) (seen : List ℕ) (cursor : Option ℕ)
    → check_chain fuel rows child seen cursor ≡ some (ok tt)
    → ¬ Chain rows cursor child
unfolding check_chain
check_chain_complete fuel rows child seen none h (here c e) = cc
check_chain_complete fuel rows child seen none h (up c e r) = cc
check_chain_complete zero rows child seen (some c) h _ = cc
check_chain_complete (suc fuel) rows child seen (some c) h (here d e) = ground arith
check_chain_complete (suc fuel) rows child seen (some c) h (up d e r) =
    check_chain_complete fuel rows child (c ∷ seen) (parent_of rows c) (ground arith)
      (let q : d ≡ c = cc in subst (λ x. Chain rows (parent_of rows x) child) q r)

-- The cycle check of an existing child answers by the ancestors of the new parent: it accepts only
-- a parent that has the child neither as itself nor as an ancestor, and a refusal with the
-- parent cycle means that it has.
pub check_cycle_exact :
    (rows : List Ticket) (child parent : ℕ)
    → (check_cycle rows (some child) parent ≡ ok tt → ¬ Chain rows (some parent) child)
      × (check_cycle rows (some child) parent ≡ err parent_cycle → Chain rows (some parent) child)
unfolding check_cycle
check_cycle_exact rows child parent =
    elim (Option-cases (check_chain (chain_fuel rows) rows child [] (some parent))) [
      | inl e ↦ absurd (check_chain-ne-none rows child parent e)
      | inr (r, e) ↦ (
        λ h. check_chain_complete (chain_fuel rows) rows child [] (some parent) (ground (arith, e)),
        λ h. check_chain_sound (chain_fuel rows) rows child [] (some parent) (ground (arith, e)),
      )
    ]
