-- ===== src/Tickets/Listing/Counts.antt =====
-- The counts beside a page of tickets.
use problem_bulletin.Prelude.{
  ℕ, suc, ◌+◌, ◌≡◌, refl, ap, ◌∙◌, inl, inr, true, ◌||◌, List, [], ◌∷◌, length, any, count, arith,
  if◌then◌else◌, Bool-cases,
}
use problem_bulletin.Domain.{Ticket, TicketStatus, status_eq, status_eq_iff}
use problem_bulletin.Prelude.Text.{Text}
use problem_bulletin.Prelude.{is_negative, Option, some, filter, Option-cases}
use mathlib.Core.Path.{subst}
use problem_bulletin.Paging.{Key}
use problem_bulletin.Paging.Client.{cursor_pair}
use problem_bulletin.Tickets.Listing.{
  statuses, fill, column_counts_of, Query, Listing, Listed, listed, bad_limit, bad_cursor,
  where_clauses, when, page_under, list_page,
}

abbrev pub sum : (TicketStatus → ℕ) → List TicketStatus → ℕ
sum f [] = 0
sum f (s ∷ ss) = f s + sum f ss

abbrev size : List Ticket → TicketStatus → ℕ
size tickets s = count (λ t. status_eq t.status s) tickets

fill-any :
    (f : TicketStatus → ℕ) (ks : List TicketStatus) (s : TicketStatus)
    → fill f ks s ≡ (if any (status_eq s) ks then f s else 0)
fill-any f [] s = refl
fill-any f (k ∷ ks) s = elim (Bool-cases (status_eq s k)) [
  | inl e ↦
      let same = status_eq_iff s k in ground (arith, same, e, fill-any f ks s, ap f (same.0 e))
  | inr e ↦ rw e (ground (arith, fill-any f ks s))
]

any_status : (s : TicketStatus) → any (status_eq s) statuses ≡ true
any_status s = ground arith

-- Each column's count is the number of the tickets in its status, also where no group of the
-- query has the status.
pub column_counts_of_lem :
    (tickets : List Ticket) (s : TicketStatus)
    → column_counts_of tickets s ≡ count (λ t. status_eq t.status s) tickets
unfolding column_counts_of
column_counts_of_lem tickets s = fill-any (size tickets) statuses s ∙ rw (any_status s) refl

total_lem : (tickets : List Ticket) → sum (size tickets) statuses ≡ length tickets
total_lem [] = refl
total_lem (t ∷ tickets) = one t.status (total_lem tickets)
  where
    one :
        (s : TicketStatus)
        → sum (size tickets) statuses ≡ length tickets
        → sum (λ k. (if status_eq s k then 1 else 0) + size tickets k) statuses
          ≡ suc (length tickets)
    one s h = ground arith

sum_ext :
    (f g : TicketStatus → ℕ) (ks : List TicketStatus)
    → ((s : TicketStatus) → f s ≡ g s)
    → sum f ks ≡ sum g ks
sum_ext f g [] h = refl
sum_ext f g (k ∷ ks) h = rw (h k, sum_ext f g ks h) refl

-- The counts of the seven columns sum to the number of the tickets.
pub sum-column_counts_of :
    (tickets : List Ticket) → sum (column_counts_of tickets) statuses ≡ length tickets
sum-column_counts_of tickets =
    sum_ext (column_counts_of tickets) (size tickets) statuses (column_counts_of_lem tickets)
    ∙ total_lem tickets

-- The counts of a page that is listed, whatever the cursor and the limit are.
abbrev pub IsCounted : List Ticket → Listing → Type 0
IsCounted matching r =
    (r.total ≡ some (length matching))
    × ((counts : TicketStatus → ℕ) × (r.column_counts ≡ some counts)
        × ((s : TicketStatus) → counts s ≡ count (λ t. status_eq t.status s) matching)
        × (sum counts statuses ≡ length matching))

module _ (decode : Text → Option Key) (encode : Key → Text) where
  page_under-IsCounted :
      (q : Query) (cursor : Option Key) (tickets : List Ticket)
      → q.count_total ≡ true
      → q.include_column_counts ≡ true
      → IsCounted (filter (where_clauses q) tickets) (page_under decode encode q cursor tickets)
  unfolding page_under
  page_under-IsCounted q cursor tickets total columns =
      let matching = filter (where_clauses q) tickets in
      (
        ap (λ b. when b (length matching)) total,
        (
          column_counts_of matching,
          ap (λ b. when b (column_counts_of matching)) columns,
          column_counts_of_lem matching,
          sum-column_counts_of matching,
        ),
      )

  listed_inj : (a b : Listing) → listed a ≡ listed b → a ≡ b
  listed_inj a b h = ap (λ (l : Listed). elim l [ listed r ↦ r | bad_limit ↦ a | bad_cursor ↦ a ]) h

  -- Only a query with limits in range and a cursor that can be read gives a page.
  listed_under :
      (q : Query) (tickets : List Ticket) (r : Listing)
      → list_page decode encode q tickets ≡ listed r
      → (cursor : Option Key) × (page_under decode encode q cursor tickets ≡ r)
  unfolding list_page
  listed_under q tickets r h = elim (Bool-cases (is_negative q.limit || is_negative q.offset)) [
    | inl e ↦ absurd cc
    | inr e ↦ elim (Option-cases (cursor_pair decode encode q.cursor)) [
      | inl n ↦ absurd cc
      | inr (c, s) ↦ (c, listed_inj (page_under decode encode q c tickets) r cc)
    ]
  ]

  -- A listed page that is asked for the counts has as its total the number of all tickets that
  -- match the filters, and as each column's count the number of those in its status; the seven
  -- counts sum to the total. The cursor, the limit and the offset change none of this.
  pub list_page-IsCounted :
      (q : Query) (tickets : List Ticket) (r : Listing)
      → list_page decode encode q tickets ≡ listed r
      → q.count_total ≡ true
      → q.include_column_counts ≡ true
      → IsCounted (filter (where_clauses q) tickets) r
  unfolding list_page
  list_page-IsCounted q tickets r h total columns =
      let (cursor, e) = listed_under q tickets r h in
      subst (IsCounted (filter (where_clauses q) tickets)) e
        (page_under-IsCounted q cursor tickets total columns)
