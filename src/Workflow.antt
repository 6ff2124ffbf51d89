-- ===== src/Workflow.antt =====
-- The status workflow of app/services/tickets.py: the table of allowed transitions.
pub mod Matrix
use problem_bulletin.Prelude.{Bool, not, ◌||◌, List, [], ◌∷◌, ◌++◌, filter, any, if◌then◌else◌}
use problem_bulletin.Domain.{
  TicketStatus, backlog, todo, in_progress, in_review, blocked, done, cancelled, status_eq,
}

-- `_ACTIVE_STATES`
abbrev pub active_states : List TicketStatus
active_states = backlog ∷ todo ∷ in_progress ∷ in_review ∷ blocked ∷ []

-- One round of the loop of `_build_allowed_transitions`.
abbrev pub active_targets : TicketStatus → List TicketStatus
active_targets src =
    filter (λ s. not (status_eq s src)) active_states
    ++ (cancelled
        ∷ (if status_eq src in_progress || status_eq src in_review then done ∷ [] else []))

-- `_ALLOWED_TRANSITIONS`
unfoldable pub allowed_transitions : TicketStatus → List TicketStatus
allowed_transitions done = in_progress ∷ []
allowed_transitions cancelled = todo ∷ in_progress ∷ []
allowed_transitions src = active_targets src

-- `target in _ALLOWED_TRANSITIONS.get(current, frozenset())`
unfoldable pub is_allowed : TicketStatus → TicketStatus → Bool
unfolding allowed_transitions
is_allowed current target = any (λ s. status_eq s target) (allowed_transitions current)
