-- ===== src/Examples/Mails.antt =====
-- An inbox of two rows.
use problem_bulletin.Prelude.{
  map, true, ◌+◌, ◌≡◌, false, none, some, List, [], ◌∷◌, count, if◌then◌else◌,
}
use problem_bulletin.Prelude.Text.{text}
use problem_bulletin.Domain.{ticket_assigned, Person, TicketNotification}
use problem_bulletin.Domain.Runs.{AgentAccount}
use problem_bulletin.Notifications.Mailbox.{
  Mail, agents_of, recipient, is_unread, unread_count, mark_all_read,
}
use problem_bulletin.Notifications.Mailbox.Reading.{
  reads, answered, mark_all_read_exact, MarkOutcome, mark_read_exact,
}
use problem_bulletin.Examples.Rows.{alice, bot}

abbrev row : Person → TicketNotification
row p = record {
  kind = ticket_assigned;
  recipient = p;
  actor = alice;
  target_id = 10;
  target_display_id = some (text "DEF-1");
  comment_id = none;
  excerpt = none;
  is_read = false;
  created_at = 5;
}

abbrev mails : List Mail
mails = record { id = 1; row = row alice } ∷ record { id = 2; row = row bot } ∷ []

abbrev agents : List AgentAccount
agents = record { id = 7; handle = none; created_by = 1 } ∷ []

mark_all_read_exact_example :
    ((mark_all_read (agents_of (some 1)) agents mails).1
      ≡ map
          (λ (m : Mail).
            if reads (agents_of (some 1)) agents m.row.recipient
            then record m { row = record m.row { is_read = true } }
            else m)
          mails)
    × ((q : Person)
        → unread_count q (mark_all_read (agents_of (some 1)) agents mails).1
          ≡ (if reads (agents_of (some 1)) agents q then 0 else unread_count q mails))
    × (count is_unread mails
        ≡ answered (mark_all_read (agents_of (some 1)) agents mails).0
          + count is_unread (mark_all_read (agents_of (some 1)) agents mails).1)
mark_all_read_exact_example = mark_all_read_exact (agents_of (some 1)) agents mails

mark_read_exact_example : MarkOutcome 1 (recipient alice) agents mails
mark_read_exact_example = mark_read_exact 1 (recipient alice) agents mails
