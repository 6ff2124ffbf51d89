-- ===== src/Examples/Pages.antt =====
-- Pages of two tickets.
use problem_bulletin.Prelude.{pos, ◌≡◌, refl, true, none, some, [], arith}
use problem_bulletin.Paging.{sort}
use problem_bulletin.Paging.Order.{Descending}
use problem_bulletin.Paging.Client.{all_pages}
use problem_bulletin.Cursors.{encode_cursor}
use problem_bulletin.Cursors.Plain.{service_decode}
use problem_bulletin.Tickets.Listing.{
  Query, unset, by_last_activity_at, list_page, page_under, where_clauses, sort_key, listed,
  Listing,
}
use problem_bulletin.Tickets.Listing.Counts.{IsCounted, list_page-IsCounted}
use problem_bulletin.Tickets.Listing.AllPages.{matching, ask, UniqueIds, all_pages-matching}
use problem_bulletin.Examples.Rows.{two_tickets}
use problem_bulletin.Examples.Codec.{dumps, loads, readable}

abbrev query : Query
query = record {
  status = [];
  type = [];
  assignee_id = unset;
  parent_id = none;
  project_id = some 3;
  sprint_id = unset;
  component_id = unset;
  epic_id = unset;
  labels = [];
  limit = pos 1;
  offset = pos 0;
  cursor = none;
  count_total = true;
  include_column_counts = true;
  order_by = by_last_activity_at;
}

two_unique : UniqueIds two_tickets
two_unique = ((refl, tt), (tt, tt))

all_pages-matching_example :
    (all_pages (ask (service_decode loads) (encode_cursor dumps) query two_tickets) 2 none
      ≡ some (sort (sort_key by_last_activity_at) (matching query two_tickets)))
    × Descending
        (sort_key by_last_activity_at)
        (sort (sort_key by_last_activity_at) (matching query two_tickets))
unfolding where_clauses
all_pages-matching_example =
    all_pages-matching (service_decode loads) (encode_cursor dumps) readable query two_tickets 0
      refl refl 2 two_unique (omega arith)

the_page : Listing
the_page = page_under (service_decode loads) (encode_cursor dumps) query none two_tickets

first_page :
    list_page (service_decode loads) (encode_cursor dumps) query two_tickets ≡ listed the_page
unfolding list_page the_page
first_page = refl

list_page-IsCounted_example : IsCounted (matching query two_tickets) the_page
list_page-IsCounted_example =
    list_page-IsCounted (service_decode loads) (encode_cursor dumps) query two_tickets the_page
      first_page refl refl
