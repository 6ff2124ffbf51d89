-- ===== src/Domain/Enums.antt =====
-- app/enums.py
use problem_bulletin.Prelude.{ℕ, ◌≡◌, ◌↔◌, Bool, true, false, arith, ◌==◌}
use problem_bulletin.Prelude.Text.{Text, text, text_eq, text_eq_iff}

pub data TicketType : Type 0 where
  workpackage epic story task subtask bug : TicketType

pub data TicketStatus : Type 0 where
  backlog todo in_progress in_review blocked done cancelled : TicketStatus

pub data TicketPriority : Type 0 where
  low medium high urgent : TicketPriority

pub data TicketLinkType : Type 0 where
  blocks is_blocked_by duplicates is_duplicate_of relates_to parent_of child_of clones
        is_cloned_by :
      TicketLinkType

pub data SprintState : Type 0 where
  planned active closed : SprintState

-- The text of a `*_type` column or argument: 'user', 'agent' or some other text. `ActorType` has
-- the first two.
pub data Party : Type 0 where
  user agent : Party
  other : Text → Party

-- `x in ("user", "agent")`
abbrev pub is_party : Party → Bool
is_party user = true
is_party agent = true
is_party (other s) = false

unfoldable pub party_eq : Party → Party → Bool
party_eq user user = true
party_eq agent agent = true
party_eq (other s) (other t) = text_eq s t
party_eq _ _ = false

pub party_eq_iff : (p q : Party) → (party_eq p q ≡ true) ↔ (p ≡ q)
unfolding party_eq
party_eq_iff (other s) (other t) = ground (arith, text_eq_iff s t)
party_eq_iff user _ = ground arith
party_eq_iff agent _ = ground arith
party_eq_iff (other s) _ = ground arith

abbrev pub type_rank : TicketType → ℕ
type_rank workpackage = 0
type_rank epic = 1
type_rank story = 2
type_rank task = 3
type_rank bug = 4
type_rank subtask = 5

abbrev pub type_eq : TicketType → TicketType → Bool
type_eq a b = type_rank a == type_rank b

abbrev pub status_rank : TicketStatus → ℕ
status_rank backlog = 0
status_rank todo = 1
status_rank in_progress = 2
status_rank in_review = 3
status_rank blocked = 4
status_rank done = 5
status_rank cancelled = 6

abbrev pub status_eq : TicketStatus → TicketStatus → Bool
status_eq a b = status_rank a == status_rank b

-- `TERMINAL_STATUSES`
abbrev pub is_terminal : TicketStatus → Bool
is_terminal done = true
is_terminal cancelled = true
is_terminal _ = false

-- `TicketStatus.value`
abbrev pub status_value : TicketStatus → Text
status_value backlog = text "backlog"
status_value todo = text "todo"
status_value in_progress = text "in_progress"
status_value in_review = text "in_review"
status_value blocked = text "blocked"
status_value done = text "done"
status_value cancelled = text "cancelled"

abbrev pub link_rank : TicketLinkType → ℕ
link_rank blocks = 0
link_rank is_blocked_by = 1
link_rank duplicates = 2
link_rank is_duplicate_of = 3
link_rank relates_to = 4
link_rank parent_of = 5
link_rank child_of = 6
link_rank clones = 7
link_rank is_cloned_by = 8

abbrev pub link_type_eq : TicketLinkType → TicketLinkType → Bool
link_type_eq a b = link_rank a == link_rank b

pub status_eq_iff : (a b : TicketStatus) → (status_eq a b ≡ true) ↔ (a ≡ b)
status_eq_iff a b = ground arith

pub type_eq_iff : (a b : TicketType) → (type_eq a b ≡ true) ↔ (a ≡ b)
type_eq_iff a b = ground arith

pub link_type_eq_iff : (a b : TicketLinkType) → (link_type_eq a b ≡ true) ↔ (a ≡ b)
link_type_eq_iff a b = ground arith
