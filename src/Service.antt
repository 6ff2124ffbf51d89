-- ===== src/Service.antt =====
-- The ticket service as its clients drive it: calls, each in a request with a transaction of its
-- own (`get_db` of app/database.py), one after another.
pub mod Invariant
pub mod Links
pub mod Pairing
use problem_bulletin.Prelude.{ℕ, Option, none, some, List, [], ◌++◌, ◌≡◌, arith}
use problem_bulletin.Prelude.Table.{lookup}
use problem_bulletin.Prelude.Text.{Text}
use problem_bulletin.Domain.{
  Party, Person, TicketStatus, TicketLinkType, Ticket, ticket_key, Db, Event, Context, Exec, Result,
  ok, err, Error,
}
use problem_bulletin.Queue.{Digest}
use problem_bulletin.Tickets.{Ident}
use problem_bulletin.Tickets.Create.{NewTicket, create}
use problem_bulletin.Tickets.Update.{Patch, update}
use problem_bulletin.Tickets.Move.{transition}
use problem_bulletin.Tickets.Assign.{assign, claim}
use problem_bulletin.Tickets.Remove.{delete}
use problem_bulletin.Tickets.Links.{link}
use problem_bulletin.Tickets.Comments.{add_comment}
use problem_bulletin.Tickets.Watchers.{add_watcher, remove_watcher}
use problem_bulletin.Tickets.History.Log.{latest}

-- The methods that write, with their arguments.
pub data Call : Type 0 where
  creating : NewTicket → Call
  updating : Ident → ℕ → Patch → Call
  moving : Ident → TicketStatus → Option Text → Call
  assigning : Ident → Option ℕ → Option Party → ℕ → Call
  claiming : Ident → Call
  deleting : Ident → Call
  linking : ℕ → ℕ → TicketLinkType → Call
  commenting : Ident → Text → List ℕ → List Person → Option ℕ → Call
  watching : Ident → Person → Call
  unwatching : Ident → Person → Call

abbrev pub done {ℓ} : {A : Type ℓ} → Result A × Db → Result (Unit {0}) × Db
done (ok a, db) = (ok tt, db)
done (err e, db) = (err e, db)

-- One method on the session.
unfoldable pub run_call : Digest → Person → Context → Call → Exec (Unit {0})
run_call digest actor ctx (creating args) db = done (create args actor ctx db)
run_call digest actor ctx (updating t version patch) db = done (update t actor version patch ctx db)
run_call digest actor ctx (moving t target reason) db =
    done (transition t actor target reason ctx db)
run_call digest actor ctx (assigning t id kind version) db =
    done (assign digest t actor id kind version ctx db)
run_call digest actor ctx (claiming t) db = done (claim t actor ctx db)
run_call digest actor ctx (deleting t) db = delete t actor db
run_call digest actor ctx (linking source target lt) db = done (link actor source target lt ctx db)
run_call digest actor ctx (commenting t body mentions resolved parent) db =
    done (add_comment t actor body mentions resolved parent ctx db)
run_call digest actor ctx (watching t p) db = done (add_watcher t p (some actor) ctx db)
run_call digest actor ctx (unwatching t p) db = remove_watcher t p db

-- The committed tables, and the events that subscribers have been sent.
pub record World : Type 0 where
  pub db : Db
  pub published : List Event

-- `get_db` round a method: commit and `flush_session_events`, or rollback and
-- `discard_session_events`. Only the sequences keep what a rolled back call drew from them; no
-- statement reads that.
unfoldable pub transact : Exec (Unit {0}) → World → World
transact m w =
    let (r, db') = m (record w.db { staged = [] }) in
    elim r [
      | ok a ↦ record { db = record db' { staged = [] }; published = db'.staged ++ w.published }
      | err e ↦ record w { db = record w.db { staged = [] } }
    ]

-- A request whose method returns is committed, and its events are published in order.
pub transact-ok :
    (m : Exec (Unit {0})) (w : World)
    → (m (record w.db { staged = [] })).0 ≡ ok tt
    → transact m w ≡ record {
      db = record (m (record w.db { staged = [] })).1 { staged = [] };
      published = (m (record w.db { staged = [] })).1.staged ++ w.published;
    }
unfolding transact
transact-ok m w e = ground (arith, e)

-- A request whose method raises leaves every table as it was and publishes nothing.
pub transact-err :
    (m : Exec (Unit {0})) (w : World) (x : Error)
    → (m (record w.db { staged = [] })).0 ≡ err x
    → transact m w ≡ record w { db = record w.db { staged = [] } }
unfolding transact
transact-err m w x e = ground (arith, e)

-- A UUID that is drawn for a new ticket is none that is in use.
abbrev pub DrawsFresh : Context → Call → Db → Type 0
DrawsFresh ctx (creating args) db =
    (lookup ticket_key ctx.new_id db.tickets ≡ none) × (latest ctx.new_id db.transitions ≡ none)
DrawsFresh ctx _ db = Unit

-- What any clients can reach, by any calls in any order.
pub data Reach (digest : Digest) (w : World) : World → Type 0 where
  start : Reach digest w w
  then :
      {v : World}
      → Reach digest w v
      → (actor : Person) (ctx : Context) (call : Call) → DrawsFresh ctx call v.db
      → Reach digest w (transact (run_call digest actor ctx call) v)
