-- ===== src/Service/Pairing.antt =====
-- The two directions of a link, after any calls.
use problem_bulletin.Prelude.{◌≡◌, some, inl, inr, []}
use problem_bulletin.Domain.{Person, Db, Context, Result, Result-cases}
use problem_bulletin.Queue.{Digest}
use problem_bulletin.Tickets.Create.{create}
use problem_bulletin.Tickets.Update.{update}
use problem_bulletin.Tickets.Move.{transition}
use problem_bulletin.Tickets.Assign.{assign, claim}
use problem_bulletin.Tickets.Links.{link}
use problem_bulletin.Tickets.Comments.{add_comment}
use problem_bulletin.Tickets.Watchers.{add_watcher}
use problem_bulletin.Tickets.Links.Laws.{IsPaired}
use problem_bulletin.Service.{
  Call, creating, updating, moving, assigning, claiming, deleting, linking, commenting, watching,
  unwatching, done, run_call, World, transact-ok, transact-err, Reach, start, then,
}
use problem_bulletin.Service.Links.{
  link-IsPaired, delete-IsPaired, create-links, update-links, transition-links, assign-links,
  claim-links, comment-links, watcher-links, unwatch-links, done-links,
}

-- A method that leaves the rows alone.
of_same {ℓ} :
    {A : Type ℓ} (r : Result A × Db) (db : Db)
    → r.1.links ≡ db.links
    → IsPaired db.links
    → IsPaired (done r).1.links
of_same r db same h = rw (done-links r, same) h

run_call-IsPaired :
    (digest : Digest) (actor : Person) (ctx : Context) (call : Call) (db : Db)
    → IsPaired db.links
    → IsPaired (run_call digest actor ctx call db).1.links
unfolding run_call
run_call-IsPaired digest actor ctx (creating args) db h =
    of_same (create args actor ctx db) db (create-links args actor ctx db) h
run_call-IsPaired digest actor ctx (updating t version patch) db h =
    of_same (update t actor version patch ctx db) db (update-links t actor ctx db version patch) h
run_call-IsPaired digest actor ctx (moving t target reason) db h =
    of_same (transition t actor target reason ctx db) db
      (transition-links t actor ctx db target reason) h
run_call-IsPaired digest actor ctx (assigning t id kind version) db h =
    of_same (assign digest t actor id kind version ctx db) db
      (assign-links t actor ctx db digest id kind version) h
run_call-IsPaired digest actor ctx (claiming t) db h =
    of_same (claim t actor ctx db) db (claim-links t actor ctx db) h
run_call-IsPaired digest actor ctx (deleting t) db h = delete-IsPaired t actor db h
run_call-IsPaired digest actor ctx (linking source target lt) db h =
    rw (done-links (link actor source target lt ctx db))
      (link-IsPaired actor source target lt ctx db h)
run_call-IsPaired digest actor ctx (commenting t body mentions resolved parent) db h =
    of_same (add_comment t actor body mentions resolved parent ctx db) db
      (comment-links t actor ctx db body mentions resolved parent) h
run_call-IsPaired digest actor ctx (watching t p) db h =
    of_same (add_watcher t p (some actor) ctx db) db (watcher-links t actor ctx db p) h
run_call-IsPaired digest actor ctx (unwatching t p) db h = rw (unwatch-links t actor ctx db p) h

-- From paired links, whatever calls clients make, if new tickets get UUIDs that are not in use, every
-- link of a type with an inverse stands beside
-- its inverse, and no two rows have the same ends and type.
pub Reach-IsPaired :
    (digest : Digest) {w v : World} → IsPaired w.db.links → Reach digest w v → IsPaired v.db.links
Reach-IsPaired digest h start = h
Reach-IsPaired digest h (then {v = u} r actor ctx call fresh) =
    let before = Reach-IsPaired digest h r in
    let m = run_call digest actor ctx call in
    elim (Result-cases (m (record u.db { staged = [] })).0) [
      | inl e ↦
          rw (transact-ok m u e)
            (run_call-IsPaired digest actor ctx call (record u.db { staged = [] }) before)
      | inr (x, e) ↦ rw (transact-err m u x e) before
    ]
