-- ===== src/Tickets/Listing/AllPages.antt =====
-- A client that asks for page after page.
use problem_bulletin.Prelude.{
  ℤ, pos, negsuc, is_negative, natural, ℕ, suc, ◌*◌, ◌==◌, ◌≡◌, ◌≤◌, refl, ap, ◌∙◌, inl, inr, Bool,
  false, Option, none, some, List, [], ◌∷◌, length, filter, All, arith, Bool-cases,
}
use problem_bulletin.Paging.Client.{
  printed, Readable, cursor_pair-printed, Seen, all_pages, all_pages-sort,
}
use problem_bulletin.Prelude.Text.{Text}
use problem_bulletin.Domain.{Ticket}
use problem_bulletin.Paging.{Key, Page, sort, page}
use problem_bulletin.Paging.Order.{same, Distinct, Descending, sort-Descending}
use problem_bulletin.Tickets.Listing.{
  Query, Listed, listed, bad_limit, bad_cursor, bounded_limit, page_at, where_clauses, sort_key,
  page_under, list_page,
}

-- No two tickets have one id.
abbrev pub UniqueIds : List Ticket → Type 0
UniqueIds [] = Unit
UniqueIds (t ∷ ts) = All (λ s. (t.id == s.id) ≡ false) ts × UniqueIds ts

abbrev pub matching : Query → List Ticket → List Ticket
matching q tickets = filter (where_clauses q) tickets

module _ (q : Query) where
  All-same :
      (keep : Ticket → Bool) (t : Ticket) (ts : List Ticket)
      → All (λ s. (t.id == s.id) ≡ false) ts
      → All (λ s. same (sort_key q.order_by t) (sort_key q.order_by s) ≡ false) (filter keep ts)
  All-same keep t [] h = tt
  All-same keep t (s ∷ ts) h = elim (Bool-cases (keep s)) [
    | inl e ↦ rw e (apart q.order_by h.0, All-same keep t ts h.1)
    | inr e ↦ rw e (All-same keep t ts h.1)
  ]
    where
      apart : (o : _) → (t.id == s.id) ≡ false → same (sort_key o t) (sort_key o s) ≡ false
      apart o h = ground arith

  UniqueIds-Distinct :
      (keep : Ticket → Bool) (ts : List Ticket)
      → UniqueIds ts
      → Distinct (sort_key q.order_by) (filter keep ts)
  UniqueIds-Distinct keep [] h = tt
  UniqueIds-Distinct keep (t ∷ ts) h = elim (Bool-cases (keep t)) [
    | inl e ↦ rw e (All-same keep t ts h.0, UniqueIds-Distinct keep ts h.1)
    | inr e ↦ rw e (UniqueIds-Distinct keep ts h.1)
  ]

abbrev seen : Listed → Seen Ticket
seen (listed r) = some (r.items, r.next_cursor)
seen bad_limit = none
seen bad_cursor = none

module _ (decode : Text → Option Key) (encode : Key → Text) where
  -- The query with another cursor.
  abbrev pub ask : Query → List Ticket → Option Text → Seen Ticket
  ask q tickets cursor = seen (list_page decode encode (record q { cursor = cursor }) tickets)

  module _ (readable : Readable decode encode) (q : Query) (tickets : List Ticket) (m : ℕ)
      (bounded : bounded_limit q.limit ≡ suc m) (start : q.offset ≡ pos 0) where
    abbrev key : Ticket → Key
    key = sort_key q.order_by

    abbrev at : Option Key → Query
    at cursor = record q { cursor = printed decode encode cursor }

    nonnegative : (limit : ℤ) → bounded_limit limit ≡ suc m → is_negative limit ≡ false
    nonnegative (pos n) h = refl
    nonnegative (negsuc n) h = ground (arith, h)

    page_of : Option Key → Page Ticket
    page_of cursor = page key (suc m) cursor (matching q tickets)

    page_at_lem :
        (cursor : Option Key)
        → page_at (at cursor) cursor (bounded_limit q.limit) (natural q.offset) tickets
          ≡ page_of cursor
    unfolding page_at page page_of
    page_at_lem none = rw (start, bounded) refl
    page_at_lem (some k) = rw (start, bounded) refl

    list_page_lem :
        (cursor : Option Key)
        → list_page decode encode (at cursor) tickets
          ≡ listed (page_under decode encode (at cursor) cursor tickets)
    unfolding list_page
    list_page_lem cursor =
        rw
          (
            nonnegative q.limit bounded,
            ap is_negative start,
            cursor_pair-printed decode encode readable cursor,
          )
          refl

    answers :
        (cursor : Option Key)
        → ask q tickets (printed decode encode cursor)
          ≡ some ((page_of cursor).items, printed decode encode (page_of cursor).next_cursor)
    unfolding page_under
    answers cursor =
        ap seen (list_page_lem cursor)
        ∙ ap (λ (p : Page Ticket). some (p.items, printed decode encode p.next_cursor))
            (page_at_lem cursor)

    -- A client that asks for a first page without cursor and offset and follows the cursors, for
    -- so many requests that the page size (the limit, at most 500 and not 0) times their number
    -- is at least the number of the tickets that match the filters, sees exactly these tickets,
    -- each as often as the table has it, in descending order of the query's time and then the id. It takes
    -- that no two tickets have one id, that a printed cursor is read back as it was, and that
    -- the empty text is no cursor.
    pub all_pages-matching :
        (fuel : ℕ)
        → UniqueIds tickets
        → length (matching q tickets) ≤ fuel * suc m
        → (all_pages (ask q tickets) fuel none ≡ some (sort key (matching q tickets)))
          × Descending key (sort key (matching q tickets))
    unfolding page_of
    all_pages-matching fuel unique enough =
        let d = UniqueIds-Distinct q (where_clauses q) tickets unique in
        (
          all_pages-sort decode encode key (matching q tickets) m (ask q tickets) answers fuel d
              enough,
          sort-Descending key (matching q tickets) d,
        )
