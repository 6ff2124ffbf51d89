-- ===== src/Tickets/Listing.antt =====
-- `TicketService.list_page`: the filters, the page under a cursor, and the counts. The query's
-- cursor is a text; what reads and prints it is an argument.
pub mod Counts
pub mod AllPages
use problem_bulletin.Prelude.{
  ℕ, ℤ, is_negative, natural, zero, suc, ◌==◌, Bool, true, false, ◌&&◌, ◌||◌, Option, none, some,
  List, [], ◌∷◌, ◌++◌, map, length, filter, any, count, ltb, leb, if◌then◌else◌,
}
use problem_bulletin.Prelude.Text.{Text, is_empty, text_eq}
use problem_bulletin.Domain.{
  Ticket, TicketStatus, TicketType, status_eq, type_eq, backlog, todo, in_progress, in_review,
  blocked, done, cancelled,
}
use problem_bulletin.Paging.Client.{cursor_pair, printed}
use problem_bulletin.Paging.{Key, Page, is_after, sort, take, cut}

-- `assignee_id` and the like: not given, the text "null", or an id
pub data Filter : Type 0 where
  unset is_null : Filter
  is : ℕ → Filter

pub data OrderBy : Type 0 where
  by_created_at by_last_activity_at : OrderBy

-- The arguments of `list_page`.
pub record Query : Type 0 where
  pub status : List TicketStatus
  pub type : List TicketType
  pub assignee_id : Filter
  pub parent_id : Option ℕ
  pub project_id : Option ℕ
  pub sprint_id : Filter
  pub component_id : Filter
  pub epic_id : Filter
  pub labels : List Text
  pub limit : ℤ
  pub offset : ℤ
  pub cursor : Option Text
  pub count_total : Bool
  pub include_column_counts : Bool
  pub order_by : OrderBy

pub record Listing : Type 0 where
  pub items : List Ticket
  pub next_cursor : Option Text
  pub total : Option ℕ
  pub column_counts : Option (TicketStatus → ℕ)

pub data Listed : Type 0 where
  listed : Listing → Listed
  -- `ValidationError` on the limit, `InvalidCursorError`
  bad_limit bad_cursor : Listed

abbrev pub max_limit : ℕ
max_limit = 500

abbrev pub min : ℕ → ℕ → ℕ
min a b = if leb a b then a else b

-- `max(0, min(limit, 500))`
abbrev pub bounded_limit : ℤ → ℕ
bounded_limit limit = min (natural limit) max_limit

abbrev matches : Filter → Option ℕ → Bool
matches unset _ = true
matches is_null none = true
matches is_null (some _) = false
matches (is k) none = false
matches (is k) (some i) = i == k

-- `column == value`, if there is a value
abbrev equals : Option ℕ → Option ℕ → Bool
equals none _ = true
equals (some k) none = false
equals (some k) (some i) = i == k

-- `column.in_(values)`, if there are values
abbrev one_of {ℓ} : {A : Type ℓ} → (A → A → Bool) → List A → A → Bool
one_of eq [] x = true
one_of eq (y ∷ ys) x = any (eq x) (y ∷ ys)

-- `labels @> wanted`
abbrev contains : List Text → List Text → Bool
contains labels [] = true
contains labels (w ∷ wanted) = any (text_eq w) labels && contains labels wanted

-- The conditions but for the cursor's.
unfoldable pub where_clauses : Query → Ticket → Bool
where_clauses q t =
    one_of status_eq q.status t.status
    && one_of type_eq q.type t.type
    && matches q.assignee_id t.assignee_id
    && equals q.parent_id t.parent_id
    && equals q.project_id (some t.project_id)
    && matches q.sprint_id t.sprint_id
    && matches q.component_id t.component_id
    && matches q.epic_id t.epic_id
    && contains t.labels q.labels

-- `COALESCE(last_activity_at, created_at)`
abbrev activity : Ticket → ℕ
activity t = elim t.last_activity_at [ none ↦ t.created_at | some at ↦ at ]

abbrev pub sort_key : OrderBy → Ticket → Key
sort_key by_created_at t = (t.created_at, t.id)
sort_key by_last_activity_at t = (activity t, t.id)

abbrev drop {ℓ} : {A : Type ℓ} → ℕ → List A → List A
drop zero xs = xs
drop (suc n) [] = []
drop (suc n) (x ∷ xs) = drop n xs

-- The offset counts only without a cursor.
abbrev pub skip : Option Key → ℕ → List Ticket → List Ticket
skip none n rows = drop n rows
skip (some c) n rows = rows

-- `stmt.limit(fetch_n)`, if that is positive
abbrev pub fetch : ℕ → List Ticket → List Ticket
fetch zero rows = rows
fetch (suc n) rows = take (suc (suc n)) rows

-- One group of `GROUP BY status` is written over the seed; a status without tickets has no group.
abbrev add_group : (TicketStatus → ℕ) → TicketStatus → (TicketStatus → ℕ) → TicketStatus → ℕ
add_group size s counts s' = if ltb 0 (size s) && status_eq s' s then size s else counts s'

abbrev fill : (TicketStatus → ℕ) → List TicketStatus → TicketStatus → ℕ
fill size [] s = 0
fill size (k ∷ ks) s = add_group size k (fill size ks) s

abbrev pub statuses : List TicketStatus
statuses = backlog ∷ todo ∷ in_progress ∷ in_review ∷ blocked ∷ done ∷ cancelled ∷ []

unfoldable pub column_counts_of : List Ticket → TicketStatus → ℕ
column_counts_of tickets = fill (λ s. count (λ t. status_eq t.status s) tickets) statuses

abbrev pub when {ℓ} : {A : Type ℓ} → Bool → A → Option A
when true x = some x
when false x = none

-- The statement under a limit and an offset, and the page that is cut from its rows.
unfoldable pub page_at : Query → Option Key → ℕ → ℕ → List Ticket → Page Ticket
unfolding where_clauses cut sort
page_at q cursor limit offset tickets =
    let key = sort_key q.order_by in
    let after = filter (is_after key cursor) (filter (where_clauses q) tickets) in
    cut key limit (fetch limit (skip cursor offset (sort key after)))

module _ (decode : Text → Option Key) (encode : Key → Text) where
  unfoldable pub page_under : Query → Option Key → List Ticket → Listing
  unfolding page_at where_clauses column_counts_of
  page_under q cursor tickets =
      let p = page_at q cursor (bounded_limit q.limit) (natural q.offset) tickets in
      let matching = filter (where_clauses q) tickets in
      record {
        items = p.items;
        next_cursor = printed decode encode p.next_cursor;
        total = when q.count_total (length matching);
        column_counts = when q.include_column_counts (column_counts_of matching);
      }

  -- `TicketService.list_page`
  unfoldable pub list_page : Query → List Ticket → Listed
  list_page q tickets =
      if is_negative q.limit || is_negative q.offset
      then bad_limit
      else elim (cursor_pair decode encode q.cursor) [
        | none ↦ bad_cursor
        | some c ↦ listed (page_under q c tickets)
      ]
