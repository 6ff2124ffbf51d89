-- ===== src/Workflow/Matrix.antt =====
-- The workflow table against the matrix of docs/specs/ticketing-v2.md, section 4.
use mathlib.Core.Path.{subst}
use problem_bulletin.Prelude.{◌≡◌, ◌⊎◌, sym, inl, inr, Bool, true, false, ◌||◌, arith}
use problem_bulletin.Domain.{
  TicketStatus, backlog, todo, in_progress, in_review, blocked, done, cancelled,
}
use problem_bulletin.Workflow.{is_allowed}

-- The matrix of the specification, a row for each source status.
abbrev pub spec_matrix : TicketStatus → TicketStatus → Bool
spec_matrix backlog todo = true
spec_matrix backlog in_progress = true
spec_matrix backlog blocked = true
spec_matrix backlog cancelled = true
spec_matrix todo backlog = true
spec_matrix todo in_progress = true
spec_matrix todo blocked = true
spec_matrix todo cancelled = true
spec_matrix in_progress backlog = true
spec_matrix in_progress todo = true
spec_matrix in_progress in_review = true
spec_matrix in_progress blocked = true
spec_matrix in_progress done = true
spec_matrix in_progress cancelled = true
spec_matrix in_review todo = true
spec_matrix in_review in_progress = true
spec_matrix in_review blocked = true
spec_matrix in_review done = true
spec_matrix in_review cancelled = true
spec_matrix blocked backlog = true
spec_matrix blocked todo = true
spec_matrix blocked in_progress = true
spec_matrix blocked in_review = true
spec_matrix blocked cancelled = true
spec_matrix done in_progress = true
spec_matrix cancelled todo = true
spec_matrix cancelled in_progress = true
spec_matrix _ _ = false

-- The moves that the code allows and the specification leaves blank.
abbrev pub extra_moves : TicketStatus → TicketStatus → Bool
extra_moves backlog in_review = true
extra_moves todo in_review = true
extra_moves in_review backlog = true
extra_moves _ _ = false

-- The table of the code allows exactly the moves of the specification's matrix and three more:
-- backlog to in_review, todo to in_review, in_review to backlog.
pub is_allowed-eq-spec_matrix :
    (current target : TicketStatus)
    → is_allowed current target ≡ (spec_matrix current target || extra_moves current target)
unfolding is_allowed
is_allowed-eq-spec_matrix current target = ground arith

-- A sequence of allowed moves.
infix 40 ◌⟶*◌
pub data ◌⟶*◌ : TicketStatus → TicketStatus → Type 0 where
  here : {s : TicketStatus} → s ⟶* s
  move : {s t u : TicketStatus} → is_allowed s t ≡ true → t ⟶* u → s ⟶* u

to_in_progress : (s : TicketStatus) → (is_allowed s in_progress ≡ true) ⊎ (s ≡ in_progress)
unfolding is_allowed
to_in_progress s = ground arith

from_in_progress : (s : TicketStatus) → (is_allowed in_progress s ≡ true) ⊎ (s ≡ in_progress)
unfolding is_allowed
from_in_progress s = ground arith

-- No status is a dead end: from every status, the terminal ones included, allowed moves lead to
-- every status.
reach_every_status : (s t : TicketStatus) → s ⟶* t
reach_every_status s t = elim (to_in_progress s) [
  | inl p ↦ move p (arrive t)
  | inr e ↦ subst (λ x. x ⟶* t) (sym e) (arrive t)
]
  where
    arrive : (t : TicketStatus) → in_progress ⟶* t
    arrive t = elim (from_in_progress t) [
      | inl p ↦ move p here
      | inr e ↦ subst (λ x. in_progress ⟶* x) (sym e) here
    ]
