-- ===== src/Notifications/Coalesce.antt =====
-- `_coalesce_or_insert_state_change` of app/services/ticket_notifications.py.
use problem_bulletin.Prelude.{
  ℕ, ◌+◌, ◌*◌, Bool, true, false, not, ◌&&◌, Option, none, some, List, [], ◌∷◌, ◌++◌, ◌==◌, ltb,
  leb, if◌then◌else◌, any,
}
use problem_bulletin.Prelude.Text.{Text, text, strip}
use problem_bulletin.Domain.{
  Person, person_eq, TicketNotification, NotificationKind, ticket_state_change,
}
use problem_bulletin.Notifications.Excerpt.{excerpt_of}

-- The columns of a new row that its sender chooses; it is unread and dated by the database.
pub record Message : Type 0 where
  pub kind : NotificationKind
  pub actor : Person
  pub target_id : ℕ
  pub target_display_id : Option Text
  pub comment_id : Option ℕ
  pub excerpt : Option Text

-- `pg_insert(TicketNotification).values(...)`
abbrev pub new_row : Message → ℕ → Person → TicketNotification
new_row m now recipient = record {
  kind = m.kind;
  recipient = recipient;
  actor = m.actor;
  target_id = m.target_id;
  target_display_id = m.target_display_id;
  comment_id = m.comment_id;
  excerpt = m.excerpt;
  is_read = false;
  created_at = now;
}

abbrev pub is_state_change : NotificationKind → Bool
is_state_change ticket_state_change = true
is_state_change _ = false

-- The `where` of `existing_stmt`: an unread state change for the recipient and the ticket that was
-- made at most `seconds` ago.
unfoldable pub is_fresh : ℕ → ℕ → Person → ℕ → TicketNotification → Bool
is_fresh now seconds recipient target n =
    is_state_change n.kind
    && person_eq n.recipient recipient
    && n.target_id == target
    && not n.is_read
    && leb now (n.created_at + seconds * 1000000)

-- `.order_by(created_at.desc()).limit(1)`
unfoldable pub newest :
    (TicketNotification → Bool) → List TicketNotification → Option TicketNotification
newest test [] = none
newest test (n ∷ rows) =
    let rest = newest test rows in
    if test n
    then elim rest [
      | none ↦ some n
      | some m ↦ (if leb m.created_at n.created_at then some n else some m)
    ]
    else rest

-- The text after the last occurrence of a character: `s.rsplit(c, 1)[-1]`.
unfoldable pub after_last : ℕ → Text → Text
after_last c [] = []
after_last c (x ∷ s) =
    let rest = after_last c s in if any (λ y. y == c) s then rest else if x == c then s else x ∷ s

abbrev pub or_empty : Option Text → Text
or_empty none = []
or_empty (some s) = s

-- The excerpt of a row that takes in one more move.
unfoldable pub extended : Option Text → Option Text → Text
unfolding after_last
extended old new =
    excerpt_of (or_empty old ++ text " → " ++ strip (after_last 0x2192 (or_empty new)))

-- The first row that passes the test and has the date, with a new excerpt and date.
unfoldable pub refresh :
    (TicketNotification → Bool) → ℕ → Text → ℕ → List TicketNotification → List TicketNotification
refresh test date excerpt now [] = []
refresh test date excerpt now (n ∷ rows) =
    let rest = refresh test date excerpt now rows in
    if test n && n.created_at == date
    then record n { excerpt = some excerpt; created_at = now } ∷ rows
    else n ∷ rest

-- `_coalesce_or_insert_state_change`; with a window of 0 seconds it always inserts.
unfoldable pub coalesce_or_insert :
    Message → ℕ → ℕ → List TicketNotification → Person → List TicketNotification
unfolding newest refresh is_fresh
coalesce_or_insert m now seconds rows recipient =
    let test = is_fresh now seconds recipient m.target_id in
    elim (if ltb 0 seconds then newest test rows else none) [
      | none ↦ new_row m now recipient ∷ rows
      | some n ↦ refresh test n.created_at (extended n.excerpt m.excerpt) now rows
    ]
