-- ===== src/Tickets/Links/Laws.antt =====
-- `ticket_links`: a link of a type with an inverse and its inverse, and what a deletion leaves of them.
use problem_bulletin.Prelude.{
  ℕ, ◌≡◌, ◌==◌, ◌≤◌, refl, Bool, true, false, not, ◌&&◌, some, List, [], ◌∷◌, arith, filter, any,
  count, if◌then◌else◌,
}
use problem_bulletin.Domain.{TicketLink, TicketLinkType, link_type_eq}
use problem_bulletin.Tickets.Links.{link_inverse, is_link, has_link}

-- A link of a type with an inverse stands beside its inverse, and no link is there twice.
pub record IsPaired (links : List TicketLink) : Type 0 where
  pub paired :
      (source target : ℕ) (lt inverse : TicketLinkType)
      → link_inverse lt ≡ some inverse
      → has_link source target lt links ≡ true
      → has_link target source inverse links ≡ true
  pub once : (source target : ℕ) (lt : TicketLinkType) → count (is_link source target lt) links ≤ 1

pub inverse_sym :
    (lt inverse : TicketLinkType)
    → link_inverse lt ≡ some inverse
    → (link_inverse inverse ≡ some lt) × (link_type_eq lt inverse ≡ false)
inverse_sym lt inverse e = ground arith

-- The tickets that a link row names stay when other tickets go.
abbrev pub keeps : ℕ → TicketLink → Bool
keeps k r = if r.source_id == k then false else not (r.target_id == k)

any-filter {ℓ} :
    {A : Type ℓ} (test keep : A → Bool) (c : Bool) (xs : List A)
    → ((x : A) → test x ≡ true → keep x ≡ c)
    → any test (filter keep xs) ≡ (c && any test xs)
any-filter test keep c [] h = ground arith
any-filter test keep c (x ∷ xs) h = ground (arith, h x, any-filter test keep c xs h)

link_ends :
    (source target : ℕ) (lt : TicketLinkType) (r : TicketLink)
    → is_link source target lt r ≡ true
    → (r.source_id ≡ source) × (r.target_id ≡ target)
link_ends source target lt r e = ground arith

kept_by_ends :
    (k source target : ℕ) (lt : TicketLinkType) (r : TicketLink)
    → is_link source target lt r ≡ true
    → keeps k r ≡ (not (source == k) && not (target == k))
kept_by_ends k source target lt r e =
    let (s, t) = link_ends source target lt r e in rw (s, t) (ground arith)

has_link-filter :
    (k source target : ℕ) (lt : TicketLinkType) (links : List TicketLink)
    → has_link source target lt (filter (keeps k) links)
      ≡ ((not (source == k) && not (target == k)) && has_link source target lt links)
unfolding has_link
has_link-filter k source target lt links =
    any-filter (is_link source target lt) (keeps k) (not (source == k) && not (target == k)) links
      (kept_by_ends k source target lt)

count-filter-le :
    (k source target : ℕ) (lt : TicketLinkType) (links : List TicketLink)
    → count (is_link source target lt) (filter (keeps k) links)
      ≤ count (is_link source target lt) links
count-filter-le k source target lt [] = omega arith
count-filter-le k source target lt (r ∷ links) =
    ground (arith, count-filter-le k source target lt links)

pub filter-IsPaired :
    (k : ℕ) (links : List TicketLink) → IsPaired links → IsPaired (filter (keeps k) links)
filter-IsPaired k links h = record {
  paired = λ source target lt inverse e found. ground (
    arith,
    has_link-filter k source target lt links,
    has_link-filter k target source inverse links,
    h.paired source target lt inverse e,
  );
  once = λ source target lt.
      omega (arith, count-filter-le k source target lt links, h.once source target lt);
}

pub absent :
    (source target : ℕ) (lt : TicketLinkType) (links : List TicketLink)
    → has_link source target lt links ≡ false
    → count (is_link source target lt) links ≡ 0
unfolding has_link
absent source target lt [] e = refl
absent source target lt (r ∷ links) e = ground (arith, absent source target lt links)
