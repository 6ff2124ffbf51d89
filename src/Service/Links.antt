-- ===== src/Service/Links.antt =====
-- What each method does to the link rows.
use problem_bulletin.Prelude.{
  ℕ, ◌≡◌, refl, Bool, true, false, not, ◌&&◌, ◌==◌, Option, some, inl, inr, Option-cases,
  Bool-cases, List, ◌∷◌, arith, filter, if◌then◌else◌,
}
use problem_bulletin.Domain.{
  Person, Party, Ticket, TicketLink, TicketStatus, TicketLinkType, Db, Context, Result, ok, err,
  ticket_not_found, Result-cases,
}
use problem_bulletin.Prelude.Text.{Text}
use problem_bulletin.Queue.{Digest}
use problem_bulletin.Tickets.{Ident, uuid, load}
use problem_bulletin.Tickets.Load.{load-cases}
use problem_bulletin.Tickets.Create.{NewTicket, create, resolve_project}
use problem_bulletin.Tickets.Update.{Patch, update}
use problem_bulletin.Tickets.Move.{transition}
use problem_bulletin.Tickets.Assign.{assign, claim}
use problem_bulletin.Tickets.Remove.{delete, child_count}
use problem_bulletin.Tickets.Links.{link, has_link, is_tombstoned, new_link, add_inverse}
use problem_bulletin.Tickets.Links.Laws.{IsPaired, filter-IsPaired, keeps}
use problem_bulletin.Tickets.Links.Pairs.{both-IsPaired}
use problem_bulletin.Tickets.Comments.{add_comment}
use problem_bulletin.Tickets.Watchers.{add_watcher, remove_watcher}
use problem_bulletin.Tickets.Forest.Writes.{target_project, placed}
use problem_bulletin.Service.{done}

if_IsPaired :
    (b : Bool) {xs ys : List TicketLink}
    → IsPaired xs
    → IsPaired ys
    → IsPaired (if b then xs else ys)
if_IsPaired true p q = p
if_IsPaired false p q = q

module _ (actor : Person) (source target : ℕ) (lt : TicketLinkType) (ctx : Context) (db : Db) where
  link-links_missing :
      load (uuid source) db ≡ (err ticket_not_found, db)
      → (link actor source target lt ctx db).1.links ≡ db.links
  unfolding link
  link-links_missing e = ground (arith, e)

  link-links_unlinked :
      (t : Ticket)
      → load (uuid source) db ≡ (ok t, db)
      → load (uuid target) db ≡ (err ticket_not_found, db)
      → (link actor source target lt ctx db).1.links ≡ db.links
  unfolding link
  link-links_unlinked t e f = ground (arith, e, f)

  link-links :
      (t u : Ticket)
      → load (uuid source) db ≡ (ok t, db)
      → load (uuid target) db ≡ (ok u, db)
      → (link actor source target lt ctx db).1.links ≡ (
          if not (source == target)
            && not (is_tombstoned lt)
            && not (has_link source target lt db.links)
          then add_inverse source target lt actor ctx
              (new_link source target lt actor ctx ∷ db.links)
          else db.links)
  unfolding link
  link-links t u e f = ground (arith, e, f)

  pub link-IsPaired : IsPaired db.links → IsPaired (link actor source target lt ctx db).1.links
  link-IsPaired h = elim (load-cases (uuid source) db) [
    | inl e ↦ rw (link-links_missing e) h
    | inr (t, e, at) ↦ elim (load-cases (uuid target) db) [
      | inl f ↦ rw (link-links_unlinked t e f) h
      | inr (u, f, _) ↦ elim (Bool-cases (has_link source target lt db.links)) [
        | inl present ↦
            let kept : (link actor source target lt ctx db).1.links ≡ db.links =
              ground (arith, link-links t u e f, present) in
            rw kept h
        | inr fresh ↦
            rw (link-links t u e f)
              (if_IsPaired _ (both-IsPaired actor ctx source target lt db.links fresh h) h)
      ]
    ]
  ]

module _ (ident : Ident) (actor : Person) (db : Db) where
  delete-links_missing :
      load ident db ≡ (err ticket_not_found, db) → (delete ident actor db).1.links ≡ db.links
  unfolding delete
  delete-links_missing e = ground (arith, e)

  delete-links :
      (t : Ticket)
      → load ident db ≡ (ok t, db)
      → (delete ident actor db).1.links
        ≡ (if child_count t.id db.tickets == 0 then filter (keeps t.id) db.links else db.links)
  unfolding delete
  delete-links t e = ground (arith, e)

  pub delete-IsPaired : IsPaired db.links → IsPaired (delete ident actor db).1.links
  delete-IsPaired h = elim (load-cases ident db) [
    | inl e ↦ rw (delete-links_missing e) h
    | inr (t, e, at) ↦ rw (delete-links t e) (if_IsPaired _ (filter-IsPaired t.id db.links h) h)
  ]

pub create-links :
    (args : NewTicket) (actor : Person) (ctx : Context) (db : Db)
    → (create args actor ctx db).1.links ≡ db.links
unfolding create resolve_project
create-links args actor ctx db = elim (Option-cases (target_project args actor ctx db)) [
  | inl e ↦ ground (arith, e)
  | inr (p, e) ↦ elim (Result-cases (placed args actor ctx db p)) [
    | inl v ↦ ground (arith, e, v)
    | inr (er, v) ↦ ground (arith, e, v)
  ]
]

module _ (ident : Ident) (actor : Person) (ctx : Context) (db : Db) where
  pub update-links :
      (expected : ℕ) (patch : Patch) → (update ident actor expected patch ctx db).1.links ≡ db.links
  unfolding update
  update-links expected patch = elim (load-cases ident db) [
    | inl e ↦ ground (arith, e)
    | inr (t, e, at) ↦ ground (arith, e)
  ]

  pub transition-links :
      (target : TicketStatus) (reason : Option Text)
      → (transition ident actor target reason ctx db).1.links ≡ db.links
  unfolding transition
  transition-links target reason = elim (load-cases ident db) [
    | inl e ↦ ground (arith, e)
    | inr (t, e, at) ↦ ground (arith, e)
  ]

  pub assign-links :
      (digest : Digest) (id : Option ℕ) (kind : Option Party) (expected : ℕ)
      → (assign digest ident actor id kind expected ctx db).1.links ≡ db.links
  unfolding assign
  assign-links digest id kind expected = elim (load-cases ident db) [
    | inl e ↦ ground (arith, e)
    | inr (t, e, at) ↦ ground (arith, e)
  ]

  pub claim-links : (claim ident actor ctx db).1.links ≡ db.links
  unfolding claim
  claim-links = elim (load-cases ident db) [
    | inl e ↦ ground (arith, e)
    | inr (t, e, at) ↦ ground (arith, e)
  ]

  pub comment-links :
      (body : Text) (mentions : List ℕ) (resolved : List Person) (parent : Option ℕ)
      → (add_comment ident actor body mentions resolved parent ctx db).1.links ≡ db.links
  unfolding add_comment
  comment-links body mentions resolved parent = elim (load-cases ident db) [
    | inl e ↦ ground (arith, e)
    | inr (t, e, at) ↦ ground (arith, e)
  ]

  pub watcher-links : (p : Person) → (add_watcher ident p (some actor) ctx db).1.links ≡ db.links
  unfolding add_watcher
  watcher-links p = elim (load-cases ident db) [
    | inl e ↦ ground (arith, e)
    | inr (t, e, at) ↦ ground (arith, e)
  ]

  pub unwatch-links : (p : Person) → (remove_watcher ident p db).1.links ≡ db.links
  unfolding remove_watcher
  unwatch-links p = elim (load-cases ident db) [
    | inl e ↦ ground (arith, e)
    | inr (t, e, at) ↦ ground (arith, e)
  ]

pub done-links {ℓ} : {A : Type ℓ} (r : Result A × Db) → (done r).1.links ≡ r.1.links
done-links (ok a, db) = refl
done-links (err e, db) = refl
