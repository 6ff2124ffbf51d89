-- ===== src/Notifications/Mailbox.antt =====
-- `TicketNotificationService`: the inbox lists, `mark_read`, `mark_all_read` and `unread_count`.
-- What is published to open sockets is not modelled.
pub mod Reading
pub mod Paged
use problem_bulletin.Prelude.{
  ℤ, pos, negsuc, ℕ, zero, suc, ◌==◌, Bool, true, false, not, ◌&&◌, ◌||◌, Option, none, some, List,
  [], ◌∷◌, map, length, filter, any, count, ltb, leb, if◌then◌else◌,
}
use problem_bulletin.Prelude.Table.{lookup, put}
use problem_bulletin.Prelude.Text.{Text}
use problem_bulletin.Domain.{
  TicketNotification, Person, person_eq, Party, user, agent, other, party_eq,
}
use problem_bulletin.Domain.Runs.{AgentAccount}
use problem_bulletin.Paging.Client.{cursor_pair, printed}
use problem_bulletin.Paging.{Key, Page, page}

-- A row with its primary key.
pub record Mail : Type 0 where
  pub id : ℕ
  pub row : TicketNotification

abbrev pub mail_key : Mail → ℕ
mail_key m = m.id

abbrev pub mail_time : Mail → Key
mail_time m = (m.row.created_at, m.id)

abbrev pub addressed : Person → Mail → Bool
addressed p m = person_eq m.row.recipient p

abbrev pub is_unread : Mail → Bool
is_unread m = not m.row.is_read

abbrev pub max_limit : ℕ
max_limit = 200

-- `max(1, min(int(limit or 50), 200))`
abbrev pub limit_of : ℤ → ℕ
limit_of (pos zero) = 50
limit_of (pos (suc n)) = if leb (suc n) max_limit then suc n else max_limit
limit_of (negsuc n) = 1

pub record InboxPage : Type 0 where
  pub items : List Mail
  pub next_cursor : Option Text
  pub total : ℕ

abbrev pub to_agents : List ℕ → Mail → Bool
to_agents ids m = party_eq m.row.recipient.kind agent && any (λ k. m.row.recipient.id == k) ids

abbrev pub wanted : Bool → Mail → Bool
wanted only_unread m = not only_unread || is_unread m

module _ (decode : Text → Option Key) (encode : Key → Text) where
  -- The rows of the recipients after a cursor and how many they are; none if the cursor cannot be
  -- read (`InvalidCursorError`).
  abbrev pub list_under :
      (Mail → Bool) → Bool → ℤ → List Mail → Option (Option Key) → Option InboxPage
  list_under mine only_unread limit mails none = none
  list_under mine only_unread limit mails (some c) =
      let p =
        page mail_time (limit_of limit) c (filter (λ m. mine m && wanted only_unread m) mails) in
      some (record {
        items = p.items;
        next_cursor = printed decode encode p.next_cursor;
        total = count mine mails;
      })

  unfoldable pub list_for : (Mail → Bool) → Bool → Option Text → ℤ → List Mail → Option InboxPage
  list_for mine only_unread cursor limit mails =
      list_under mine only_unread limit mails (cursor_pair decode encode cursor)

  -- `list_for_recipient`
  unfoldable pub list_for_recipient : Person → Bool → Option Text → ℤ → List Mail → Option InboxPage
  unfolding list_for
  list_for_recipient p only_unread cursor limit mails =
      list_for (addressed p) only_unread cursor limit mails

  -- `list_for_agent_recipients`
  unfoldable pub list_for_agent_recipients :
      List ℕ → Bool → Option Text → ℤ → List Mail → Option InboxPage
  unfolding list_for
  list_for_agent_recipients [] only_unread cursor limit mails =
      some (record { items = []; next_cursor = none; total = 0 })
  list_for_agent_recipients (a ∷ ids) only_unread cursor limit mails =
      list_for (to_agents (a ∷ ids)) only_unread cursor limit mails

-- `_resolve_owned_agent_ids`
unfoldable pub resolve_owned_agent_ids : ℕ → List AgentAccount → List ℕ
resolve_owned_agent_ids owner agents =
    map (λ (a : AgentAccount). a.id) (filter (λ (a : AgentAccount). a.created_by == owner) agents)

-- Whom a call reads for: a recipient, or all agents of a user, if the user is given.
pub data Reader : Type 0 where
  recipient : Person → Reader
  agents_of : Option ℕ → Reader

pub data Refusal : Type 0 where
  -- `PermissionDeniedError`
  acting_user_required not_to_an_agent not_to_callers_agent not_to_caller : Refusal
  -- `LookupError`
  missing : Refusal

pub data Answer (A : Type 0) : Type 0 where
  ok : A → Answer A
  refused : Refusal → Answer A

abbrev as_read : Mail → Mail
as_read m = record m { row = record m.row { is_read = true } }

-- The ownership check of `mark_read`.
unfoldable pub refusal : Reader → List AgentAccount → Mail → Option Refusal
unfolding resolve_owned_agent_ids
refusal (recipient p) agents m = if addressed p m then none else some not_to_caller
refusal (agents_of none) agents m = some acting_user_required
refusal (agents_of (some u)) agents m =
    if not (party_eq m.row.recipient.kind agent)
    then some not_to_an_agent
    else if any (λ k. m.row.recipient.id == k) (resolve_owned_agent_ids u agents)
    then none
    else some not_to_callers_agent

-- The row under the check's outcome.
abbrev pub settle : Option Refusal → Mail → List Mail → Answer Mail × List Mail
settle (some r) m mails = (refused r, mails)
settle none m mails =
    if m.row.is_read then (ok m, mails) else (ok (as_read m), put mail_key (as_read m) mails)

abbrev pub check_row :
    Reader → List AgentAccount → List Mail → Option Mail → Answer Mail × List Mail
check_row reader agents mails none = (refused missing, mails)
check_row reader agents mails (some m) = settle (refusal reader agents m) m mails

-- `mark_read`
unfoldable pub mark_read : ℕ → Reader → List AgentAccount → List Mail → Answer Mail × List Mail
mark_read id reader agents mails = check_row reader agents mails (lookup mail_key id mails)

-- `update(...).where(mine, is_read.is_(False)).values(is_read=True)` and its row count
unfoldable pub read_rows : (Mail → Bool) → List Mail → ℕ × List Mail
read_rows mine mails =
    let test : Mail → Bool = λ m. mine m && is_unread m in
    (count test mails, map (λ m. if test m then as_read m else m) mails)

-- No statement runs for a user without agents.
abbrev pub read_owned : List ℕ → List Mail → ℕ × List Mail
read_owned [] mails = (0, mails)
read_owned (a ∷ ids) mails = read_rows (to_agents (a ∷ ids)) mails

abbrev counted : ℕ × List Mail → Answer ℕ × List Mail
counted (n, mails) = (ok n, mails)

-- `mark_all_read`
unfoldable pub mark_all_read : Reader → List AgentAccount → List Mail → Answer ℕ × List Mail
unfolding resolve_owned_agent_ids read_rows
mark_all_read (recipient p) agents mails = counted (read_rows (addressed p) mails)
mark_all_read (agents_of none) agents mails = (refused acting_user_required, mails)
mark_all_read (agents_of (some u)) agents mails =
    counted (read_owned (resolve_owned_agent_ids u agents) mails)

-- `unread_count`
unfoldable pub unread_count : Person → List Mail → ℕ
unread_count p mails = count (λ m. addressed p m && is_unread m) mails
