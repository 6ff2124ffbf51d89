-- ===== src/Tickets/Forest/Others.antt =====
-- `assign`, `claim`, `delete`, `link` and `add_comment` keep the parent pointers a forest.
use problem_bulletin.Prelude.{
  ℕ, ◌≡◌, ◌==◌, refl, not, ◌&&◌, Option, inl, inr, Bool-cases, List, arith, map, ==_iff,
  if◌then◌else◌,
}
use problem_bulletin.Prelude.Table.{put, remove, lookup-count_zero}
use problem_bulletin.Prelude.Text.{Text, is_blank}
use problem_bulletin.Domain.{
  Ticket, ticket_key, Person, Party, Db, Context, ok, err, ticket_not_found, TicketLinkType,
}
use problem_bulletin.Hierarchy.Forest.{IsForest, map-IsForest, remove-IsForest}
use problem_bulletin.Queue.{Digest}
use problem_bulletin.Tickets.{Ident, uuid, load, touched, stamped, unpaired, bad_kind, is_none}
use problem_bulletin.Tickets.Load.{load-cases}
use problem_bulletin.Tickets.Assign.{assign, claim, claimed_by, is_agent}
use problem_bulletin.Tickets.Remove.{delete, child_count, forget_epic, points_to}
use problem_bulletin.Tickets.Links.{link, is_tombstoned, has_link}
use problem_bulletin.Tickets.Comments.{add_comment, bad_parent}
use problem_bulletin.Tickets.Forest.Writes.{put-SamePlace, if_IsForest}

module _ (digest : Digest) (ident : Ident) (actor : Person) (id : Option ℕ) (kind : Option Party)
    (expected : ℕ) (ctx : Context) (db : Db) where
  -- The row that `assign` flushes.
  abbrev pub reassigned : Ticket → Ticket
  reassigned t = touched actor ctx (record t { assignee_id = id; assignee_type = kind })

  pub assign-tickets_missing :
      load ident db ≡ (err ticket_not_found, db)
      → (assign digest ident actor id kind expected ctx db).1.tickets ≡ db.tickets
  unfolding assign
  assign-tickets_missing e = ground (arith, e)

  pub assign-tickets :
      (t : Ticket)
      → load ident db ≡ (ok t, db)
      → (assign digest ident actor id kind expected ctx db).1.tickets ≡ (
          if not (unpaired id kind) && not (bad_kind kind) && t.version == expected
          then put ticket_key (reassigned t) db.tickets
          else db.tickets)
  unfolding assign
  assign-tickets t e = ground (arith, e)

  pub assign-IsForest :
      IsForest db.tickets → IsForest (assign digest ident actor id kind expected ctx db).1.tickets
  assign-IsForest h = elim (load-cases ident db) [
    | inl e ↦ rw (assign-tickets_missing e) h
    | inr (t, e, at) ↦
        rw (assign-tickets t e)
          (if_IsForest _ (put-SamePlace db.tickets t (reassigned t) at (ground arith) h) h)
  ]

module _ (ident : Ident) (actor : Person) (ctx : Context) (db : Db) where
  pub claim-tickets_missing :
      load ident db ≡ (err ticket_not_found, db) → (claim ident actor ctx db).1.tickets ≡ db.tickets
  unfolding claim
  claim-tickets_missing e = ground (arith, e)

  pub claim-tickets :
      (t : Ticket)
      → load ident db ≡ (ok t, db)
      → (claim ident actor ctx db).1.tickets ≡ (
          if is_agent actor.kind && is_none t.assignee_id
          then put ticket_key (claimed_by actor ctx t) db.tickets
          else db.tickets)
  unfolding claim
  claim-tickets t e = ground (arith, e)

  pub claim-IsForest : IsForest db.tickets → IsForest (claim ident actor ctx db).1.tickets
  claim-IsForest h = elim (load-cases ident db) [
    | inl e ↦ rw (claim-tickets_missing e) h
    | inr (t, e, at) ↦
        rw (claim-tickets t e) (
          if_IsForest _ (put-SamePlace db.tickets t (claimed_by actor ctx t) at (ground arith) h) h)
  ]

module _ (ident : Ident) (actor : Person) (db : Db) where
  pub delete-tickets_missing :
      load ident db ≡ (err ticket_not_found, db) → (delete ident actor db).1.tickets ≡ db.tickets
  unfolding delete
  delete-tickets_missing e = ground (arith, e)

  pub delete-tickets :
      (t : Ticket)
      → load ident db ≡ (ok t, db)
      → (delete ident actor db).1.tickets ≡ (
          if child_count t.id db.tickets == 0
          then map (forget_epic t.id) (remove ticket_key t.id db.tickets)
          else db.tickets)
  unfolding delete
  delete-tickets t e = ground (arith, e)

  removed-IsForest :
      (k : ℕ)
      → child_count k db.tickets ≡ 0
      → IsForest db.tickets
      → IsForest (map (forget_epic k) (remove ticket_key k db.tickets))
  removed-IsForest k childless h =
      map-IsForest (forget_epic k) (remove ticket_key k db.tickets) (λ t. (refl, refl, refl))
        (λ t. refl)
        (remove-IsForest db.tickets k
          (λ j t found here. ground (
            arith,
            here,
            lookup-count_zero ticket_key (λ (r : Ticket). points_to k r.parent_id) j db.tickets
                childless found,
          ))
          h)

  pub delete-IsForest : IsForest db.tickets → IsForest (delete ident actor db).1.tickets
  delete-IsForest h = elim (load-cases ident db) [
    | inl e ↦ rw (delete-tickets_missing e) h
    | inr (t, e, at) ↦ elim (Bool-cases (child_count t.id db.tickets == 0)) [
      | inl z ↦ rw (delete-tickets t e, z) (removed-IsForest t.id ((==_iff _ _).0 z) h)
      | inr nz ↦ rw (delete-tickets t e, nz) h
    ]
  ]

-- `link` and `add_comment` stamp the ticket and change no other ticket.
module _ (actor : Person) (source target : ℕ) (lt : TicketLinkType) (ctx : Context) (db : Db) where
  pub link-tickets_missing :
      load (uuid source) db ≡ (err ticket_not_found, db)
      → (link actor source target lt ctx db).1.tickets ≡ db.tickets
  unfolding link
  link-tickets_missing e = ground (arith, e)

  pub link-tickets_unlinked :
      (t : Ticket)
      → load (uuid source) db ≡ (ok t, db)
      → load (uuid target) db ≡ (err ticket_not_found, db)
      → (link actor source target lt ctx db).1.tickets ≡ db.tickets
  unfolding link
  link-tickets_unlinked t e f = ground (arith, e, f)

  pub link-tickets :
      (t u : Ticket)
      → load (uuid source) db ≡ (ok t, db)
      → load (uuid target) db ≡ (ok u, db)
      → (link actor source target lt ctx db).1.tickets ≡ (
          if not (source == target)
            && not (is_tombstoned lt)
            && not (has_link source target lt db.links)
          then put ticket_key (stamped actor ctx t) db.tickets
          else db.tickets)
  unfolding link
  link-tickets t u e f = ground (arith, e, f)

  pub link-IsForest : IsForest db.tickets → IsForest (link actor source target lt ctx db).1.tickets
  link-IsForest h = elim (load-cases (uuid source) db) [
    | inl e ↦ rw (link-tickets_missing e) h
    | inr (t, e, at) ↦ elim (load-cases (uuid target) db) [
      | inl f ↦ rw (link-tickets_unlinked t e f) h
      | inr (u, f, _) ↦
          rw (link-tickets t u e f)
            (if_IsForest _ (put-SamePlace db.tickets t (stamped actor ctx t) at (ground arith) h) h)
    ]
  ]

module _ (ident : Ident) (actor : Person) (body : Text) (mentions : List ℕ) (resolved : List Person)
    (parent : Option ℕ) (ctx : Context) (db : Db) where
  pub comment-tickets_missing :
      load ident db ≡ (err ticket_not_found, db)
      → (add_comment ident actor body mentions resolved parent ctx db).1.tickets ≡ db.tickets
  unfolding add_comment
  comment-tickets_missing e = ground (arith, e)

  pub comment-tickets :
      (t : Ticket)
      → load ident db ≡ (ok t, db)
      → (add_comment ident actor body mentions resolved parent ctx db).1.tickets ≡ (
          if not (is_blank body) && not (bad_parent t.id parent db.comments)
          then put ticket_key (stamped actor ctx t) db.tickets
          else db.tickets)
  unfolding add_comment
  comment-tickets t e = ground (arith, e)

  pub comment-IsForest :
      IsForest db.tickets
      → IsForest (add_comment ident actor body mentions resolved parent ctx db).1.tickets
  comment-IsForest h = elim (load-cases ident db) [
    | inl e ↦ rw (comment-tickets_missing e) h
    | inr (t, e, at) ↦
        rw (comment-tickets t e)
          (if_IsForest _ (put-SamePlace db.tickets t (stamped actor ctx t) at (ground arith) h) h)
  ]
