-- ===== src/Tickets/Races/Edits.antt =====
-- `update` and `assign` under the version check.
use mathlib.Core.Path.{subst}
use problem_bulletin.Prelude.{
  ℕ, suc, ◌≡◌, ◌≢◌, ◌==◌, Bool, true, false, not, ◌&&◌, Option, some, inl, inr, arith,
}
use problem_bulletin.Prelude.Table.{lookup}
use problem_bulletin.Domain.{
  Ticket, ticket_key, Party, Person, Db, Context, Exec, ok, err, stale_version, ticket_not_found,
  is_flushed, is_ok,
}
use problem_bulletin.Queue.{Digest}
use problem_bulletin.Tickets.{Ident, uuid, load, unpaired, bad_kind}
use problem_bulletin.Tickets.Load.{load-cases, load-id}
use problem_bulletin.Tickets.Update.{Patch, update, edited, is_nil}
use problem_bulletin.Tickets.Assign.{assign}
use problem_bulletin.Tickets.Forest.Writes.{update-tickets, parent_check}
use problem_bulletin.Tickets.Forest.Others.{assign-tickets, reassigned}
use problem_bulletin.Tickets.Races.{Replaces, load_replaced}

-- A change that carries the version that its client has seen.
pub data Edit : Type 0 where
  patching : Patch → Edit
  reassigning : Option ℕ → Option Party → Edit

unfoldable pub edit : Digest → Ident → Person → ℕ → Edit → Context → Exec Ticket
edit digest ident actor expected (patching patch) ctx = update ident actor expected patch ctx
edit digest ident actor expected (reassigning id kind) ctx =
    assign digest ident actor id kind expected ctx

-- The checks on the arguments alone.
abbrev pub is_wellformed : Edit → Bool
is_wellformed (patching patch) = is_nil patch.unknown
is_wellformed (reassigning id kind) = not (unpaired id kind) && not (bad_kind kind)

module _ (digest : Digest) (ident : Ident) (actor : Person) (expected : ℕ) (ctx : Context)
    (db : Db) where
  missing_edit :
      (e : Edit)
      → load ident db ≡ (err ticket_not_found, db)
      → is_ok (edit digest ident actor expected e ctx db).0 ≡ false
  unfolding edit update assign
  missing_edit (patching patch) m = ground (arith, m)
  missing_edit (reassigning id kind) m = ground (arith, m)

  -- A change that was asked for on another version is refused, with the version that is there.
  pub stale_edit :
      (e : Edit) (t : Ticket)
      → load ident db ≡ (ok t, db)
      → is_wellformed e ≡ true
      → t.version ≢ expected
      → edit digest ident actor expected e ctx db ≡ (err (stale_version t.version), db)
  unfolding edit update assign
  stale_edit (patching patch) t f w s = ground (arith, f)
  stale_edit (reassigning id kind) t f w s = ground (arith, f)

  update-ok :
      (patch : Patch) (t t' : Ticket)
      → load ident db ≡ (ok t, db)
      → (update ident actor expected patch ctx db).0 ≡ ok t'
      → ((is_nil patch.unknown
            && t.version == expected
            && is_ok (parent_check ident actor expected patch ctx db t patch.parent_id)
            && is_flushed ctx.flush)
          ≡ true)
        × (edited db.tickets patch actor ctx t ≡ t')
  unfolding update
  update-ok patch t t' f done = ground (arith, f)

  assign-ok :
      (id : Option ℕ) (kind : Option Party) (t t' : Ticket)
      → load ident db ≡ (ok t, db)
      → (assign digest ident actor id kind expected ctx db).0 ≡ ok t'
      → ((not (unpaired id kind) && not (bad_kind kind) && t.version == expected) ≡ true)
        × (reassigned digest ident actor id kind expected ctx db t ≡ t')
  unfolding assign
  assign-ok id kind t t' f done = ground (arith, f)

  edit-Replaces :
      (e : Edit) (t t' : Ticket)
      → load ident db ≡ (ok t, db)
      → lookup ticket_key t.id db.tickets ≡ some t
      → (edit digest ident actor expected e ctx db).0 ≡ ok t'
      → (t.version ≡ expected) × Replaces t t' db (edit digest ident actor expected e ctx db).1
  unfolding edit
  edit-Replaces (patching patch) t t' f at done =
      let (guards, new) = update-ok patch t t' f done in
      (
        ground (arith, guards),
        record {
          found = at;
          id = ground (arith, new);
          version = ground (arith, new);
          stored =
              ground (arith, guards, new, update-tickets ident actor expected patch ctx db t f);
        },
      )
  edit-Replaces (reassigning id kind) t t' f at done =
      let (guards, new) = assign-ok id kind t t' f done in
      (
        ground (arith, guards),
        record {
          found = at;
          id = ground (arith, new);
          version = ground (arith, new);
          stored =
              ground
                (arith, guards, new, assign-tickets digest ident actor id kind expected ctx db t f);
        },
      )

-- Of two changes that were asked for on the same version of a ticket, updates or assignments by
-- whomever, only the first can go through: once it has, the other, if it passes the checks on its
-- arguments alone, is refused as stale with the next version, and changes nothing.
pub edit_once :
    (digest : Digest) (id : ℕ) (actor other : Person) (expected : ℕ) (e f : Edit) (c d : Context)
    (db : Db) (t : Ticket)
    → (edit digest (uuid id) actor expected e c db).0 ≡ ok t
    → is_wellformed f ≡ true
    → (let after = (edit digest (uuid id) actor expected e c db).1 in
        edit digest (uuid id) other expected f d after
        ≡ (err (stale_version (suc expected)), after))
edit_once digest id actor other expected e f c d db t done good = elim (load-cases (uuid id) db) [
  | inl m ↦ ground (arith, missing_edit digest (uuid id) actor expected c db e m)
  | inr (old, found, at) ↦
      let (seen, r) = edit-Replaces digest (uuid id) actor expected c db e old t found at done in
      let after = (edit digest (uuid id) actor expected e c db).1 in
      let again : load (uuid id) after ≡ (ok t, after) =
        subst (λ k. load (uuid k) after ≡ (ok t, after)) (load-id id db old found)
          (load_replaced old t db after r) in
      let newer : t.version ≡ suc expected = omega (arith, r.version, seen) in
      subst (λ v. edit digest (uuid id) other expected f d after ≡ (err (stale_version v), after))
        newer
        (stale_edit digest (uuid id) other expected d after f t again good
          (λ e. omega (arith, e, newer)))
]
