-- ===== src/Service/Invariant.antt =====
-- What holds of the tables after any calls.
use problem_bulletin.Prelude.{◌≡◌, refl, Option, none, some, inl, inr, [], arith}
use problem_bulletin.Domain.{Person, Db, Context, Exec, Result, ok, err, Result-cases}
use problem_bulletin.Hierarchy.Forest.{IsForest}
use problem_bulletin.Queue.{Digest}
use problem_bulletin.Tickets.{Ident}
use problem_bulletin.Tickets.Load.{load-cases}
use problem_bulletin.Tickets.Create.{create}
use problem_bulletin.Tickets.Update.{update}
use problem_bulletin.Tickets.Move.{transition}
use problem_bulletin.Tickets.Assign.{assign, claim}
use problem_bulletin.Tickets.Links.{link}
use problem_bulletin.Tickets.Comments.{add_comment}
use problem_bulletin.Tickets.Watchers.{add_watcher, remove_watcher}
use problem_bulletin.Tickets.Forest.Writes.{create-IsForest, update-IsForest, transition-IsForest}
use problem_bulletin.Tickets.Forest.Others.{
  assign-IsForest, claim-IsForest, delete-IsForest, link-IsForest, comment-IsForest,
}
use problem_bulletin.Tickets.History.Log.{IsLogged}
use problem_bulletin.Tickets.History.Writes.{update-IsLogged, transition-IsLogged}
use problem_bulletin.Tickets.History.Others.{create-IsLogged, assign-IsLogged, claim-IsLogged}
use problem_bulletin.Tickets.History.Removal.{delete-IsLogged, link-IsLogged, comment-IsLogged}
use problem_bulletin.Service.{
  Call, creating, updating, moving, assigning, claiming, deleting, linking, commenting, watching,
  unwatching, done, run_call, World, transact, transact-ok, transact-err, DrawsFresh, Reach, start,
  then,
}

pub record IsConsistent (db : Db) : Type 0 where
  pub forest : IsForest db.tickets
  pub logged : IsLogged db.tickets db.transitions

done-db {ℓ} : {A : Type ℓ} (r : Result A × Db) → (done r).1 ≡ r.1
done-db (ok a, db) = refl
done-db (err e, db) = refl

watching-tables :
    (ident : Ident) (p : Person) (actor : Option Person) (ctx : Context) (db : Db)
    → ((add_watcher ident p actor ctx db).1.tickets ≡ db.tickets)
      × ((add_watcher ident p actor ctx db).1.transitions ≡ db.transitions)
unfolding add_watcher
watching-tables ident p none ctx db = elim (load-cases ident db) [
  | inl e ↦ ground (arith, e)
  | inr (t, e, at) ↦ ground (arith, e)
]
watching-tables ident p (some actor) ctx db = elim (load-cases ident db) [
  | inl e ↦ ground (arith, e)
  | inr (t, e, at) ↦ ground (arith, e)
]

unwatching-tables :
    (ident : Ident) (p : Person) (db : Db)
    → ((remove_watcher ident p db).1.tickets ≡ db.tickets)
      × ((remove_watcher ident p db).1.transitions ≡ db.transitions)
unfolding remove_watcher
unwatching-tables ident p db = elim (load-cases ident db) [
  | inl e ↦ ground (arith, e)
  | inr (t, e, at) ↦ ground (arith, e)
]

of_done {ℓ} :
    {A : Type ℓ} (r : Result A × Db)
    → IsForest r.1.tickets
    → IsLogged r.1.tickets r.1.transitions
    → IsConsistent (done r).1
of_done r f l = rw (done-db r) (record { forest = f; logged = l })

run_call-IsConsistent :
    (digest : Digest) (actor : Person) (ctx : Context) (call : Call) (db : Db)
    → DrawsFresh ctx call db
    → IsConsistent db
    → IsConsistent (run_call digest actor ctx call db).1
unfolding run_call
run_call-IsConsistent digest actor ctx (creating args) db fresh h =
    of_done (create args actor ctx db) (create-IsForest args actor ctx db fresh.0 h.forest)
      (create-IsLogged args actor ctx db fresh.1 h.logged)
run_call-IsConsistent digest actor ctx (updating t version patch) db fresh h =
    of_done (update t actor version patch ctx db)
      (update-IsForest t actor version patch ctx db h.forest)
      (update-IsLogged t actor version patch ctx db h.logged)
run_call-IsConsistent digest actor ctx (moving t target reason) db fresh h =
    of_done (transition t actor target reason ctx db)
      (transition-IsForest t actor target reason ctx db h.forest)
      (transition-IsLogged t actor target reason ctx db h.logged)
run_call-IsConsistent digest actor ctx (assigning t id kind version) db fresh h =
    of_done (assign digest t actor id kind version ctx db)
      (assign-IsForest digest t actor id kind version ctx db h.forest)
      (assign-IsLogged digest t actor id kind version ctx db h.logged)
run_call-IsConsistent digest actor ctx (claiming t) db fresh h =
    of_done (claim t actor ctx db) (claim-IsForest t actor ctx db h.forest)
      (claim-IsLogged t actor ctx db h.logged)
run_call-IsConsistent digest actor ctx (deleting t) db fresh h = record {
  forest = delete-IsForest t actor db h.forest;
  logged = delete-IsLogged t actor db h.logged;
}
run_call-IsConsistent digest actor ctx (linking source target lt) db fresh h =
    of_done (link actor source target lt ctx db)
      (link-IsForest actor source target lt ctx db h.forest)
      (link-IsLogged actor source target lt ctx db h.logged)
run_call-IsConsistent digest actor ctx (commenting t body mentions resolved parent) db fresh h =
    of_done (add_comment t actor body mentions resolved parent ctx db)
      (comment-IsForest t actor body mentions resolved parent ctx db h.forest)
      (comment-IsLogged t actor body mentions resolved parent ctx db h.logged)
run_call-IsConsistent digest actor ctx (watching t p) db fresh h =
    let (same, log) = watching-tables t p (some actor) ctx db in
    of_done (add_watcher t p (some actor) ctx db) (rw same h.forest) (rw (same, log) h.logged)
run_call-IsConsistent digest actor ctx (unwatching t p) db fresh h =
    let (same, log) = unwatching-tables t p db in
    record { forest = rw same h.forest; logged = rw (same, log) h.logged }

fresh_db :
    (call : Call) (db : Db) (ctx : Context)
    → DrawsFresh ctx call db
    → DrawsFresh ctx call (record db { staged = [] })
fresh_db (creating args) db ctx h = h
fresh_db _ db ctx h = tt

-- Of a request only the tables of a commit are new.
settled :
    (m : Exec (Unit {0})) (w : World)
    → IsConsistent w.db
    → IsConsistent (m (record w.db { staged = [] })).1
    → IsConsistent (transact m w).db
settled m w h k = elim (Result-cases (m (record w.db { staged = [] })).0) [
  | inl e ↦ rw (transact-ok m w e) (record { forest = k.forest; logged = k.logged })
  | inr (x, e) ↦ rw (transact-err m w x e) (record { forest = h.forest; logged = h.logged })
]

-- From consistent tables, whatever calls clients make, in whatever order and however they fail, if
-- new tickets get UUIDs that are not in use, the parent pointers form a forest and the transition log replays to the status of every ticket by
-- allowed moves.
pub Reach-IsConsistent :
    (digest : Digest) {w v : World} → IsConsistent w.db → Reach digest w v → IsConsistent v.db
Reach-IsConsistent digest h start = h
Reach-IsConsistent digest h (then {v = u} r actor ctx call fresh) =
    let before = Reach-IsConsistent digest h r in
    let db = record u.db { staged = [] } in
    let clean : IsConsistent db = record { forest = before.forest; logged = before.logged } in
    settled (run_call digest actor ctx call) u before
      (run_call-IsConsistent digest actor ctx call db (fresh_db call u.db ctx fresh) clean)
