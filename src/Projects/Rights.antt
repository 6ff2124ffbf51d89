-- ===== src/Projects/Rights.antt =====
-- Who may change a project, and edits that meet.
use problem_bulletin.Prelude.{
  ℕ, suc, ◌≡◌, ◌≢◌, ◌==◌, refl, sym, ap, ◌∙◌, inl, inr, true, some, arith, Bool-cases, Option-cases,
}
use problem_bulletin.Prelude.Table.{lookup, put, lookup-put, lookup_key}
use problem_bulletin.Projects.{
  ProjectRow, row_key, Account, Tables, ok, err, ProjectError, unpaired, bad_kind, ProjectPatch,
  patched, write_row, may_edit, update, not_updatable, not_found, permission_denied, stale_version,
  lead_pair, lead_kind,
}

module _ (id expected : ℕ) (patch : ProjectPatch) (acting : Account) (db : Tables) where
  -- What an update that goes through says of the project before it, and what it does.
  pub record Rightful (q : ProjectRow) : Type 0 where
    pub before : ProjectRow
    pub found : lookup row_key id db.projects ≡ some before
    pub allowed : may_edit acting before ≡ true
    pub current : before.version ≡ expected
    pub written : update id expected patch acting db ≡ write_row (patched patch before) db
    pub same : patched patch before ≡ q

  refused :
      (e : ProjectError) (q : ProjectRow)
      → update id expected patch acting db ≡ (err e, db)
      → (update id expected patch acting db).0 ≡ ok q
      → Rightful q
  refused e q h k = absurd (clash (sym (ap (λ r. r.0) h) ∙ k))
    where
      clash : err e ≡ ok q → ⊥
      clash k = cc

  went_through :
      (p q : ProjectRow)
      → update id expected patch acting db ≡ write_row (patched patch p) db
      → (update id expected patch acting db).0 ≡ ok q
      → patched patch p ≡ q
  went_through p q h k = inject (sym (ap (λ r. r.0) h) ∙ k)
    where
      inject : ok (patched patch p) ≡ ok q → patched patch p ≡ q
      inject k = cc

  update-Rightful : (q : ProjectRow) → (update id expected patch acting db).0 ≡ ok q → Rightful q
  unfolding update
  update-Rightful q h = elim (Bool-cases patch.unknown) [
    | inl e ↦ refused not_updatable q (rw (update, e) refl) h
    | inr e ↦ elim (Option-cases (lookup row_key id db.projects)) [
      | inl f ↦ refused not_found q (rw (update, e, f) refl) h
      | inr (p, f) ↦ elim (Bool-cases (may_edit acting p)) [
        | inr g ↦ refused permission_denied q (rw (update, e, f, g) refl) h
        | inl g ↦ elim (Bool-cases (p.version == expected)) [
          | inr i ↦ refused (stale_version p.version) q (rw (update, e, f, g, i) refl) h
          | inl i ↦
              elim (Bool-cases (unpaired (patched patch p).lead_id (patched patch p).lead_type)) [
                | inl j ↦ refused lead_pair q (rw (update, e, f, g, i, j) refl) h
                | inr j ↦ elim (Bool-cases (bad_kind (patched patch p).lead_type)) [
                  | inl k ↦ refused lead_kind q (rw (update, e, f, g, i, j, k) refl) h
                  | inr k ↦
                      let goes : update id expected patch acting db
                          ≡ write_row (patched patch p) db =
                        rw (update, e, f, g, i, j, k) refl in
                      record {
                        before = p;
                        found = f;
                        allowed = g;
                        current = ground (arith, i);
                        written = goes;
                        same = went_through p q goes h;
                      }
                ]
              ]
        ]
      ]
    ]
  ]

some_inj : (p q : ProjectRow) → some p ≡ some q → p ≡ q
some_inj p q h = cc

found_again :
    (id : ℕ) (q p : ProjectRow) (db : Tables)
    → lookup row_key id db.projects ≡ some p
    → q.id ≡ p.id
    → lookup row_key id (put row_key q db.projects) ≡ some q
found_again id q p db found same =
    let at : p.id ≡ id = lookup_key row_key id db.projects found in
    ground (arith, lookup-put row_key id q db.projects, found, same, at)

-- Of two updates with one expected version, an update that goes through is by an admin or by a
-- user who is the project's lead, finds the project with the expected version and leaves it with
-- the next one; the other one, coming after it, is refused, whoever asks for it and whatever it
-- would change.
pub update_once :
    (id expected : ℕ) (patch patch' : ProjectPatch) (acting acting' : Account) (db : Tables)
    (q q' : ProjectRow)
    → (update id expected patch acting db).0 ≡ ok q
    → (p : ProjectRow) × (lookup row_key id db.projects ≡ some p)
      × (may_edit acting p ≡ true)
      × (p.version ≡ expected)
      × (q.version ≡ suc expected)
      × ((update id expected patch' acting' (update id expected patch acting db).1).0 ≢ ok q')
update_once id expected patch patch' acting acting' db q q' h =
    let first = update-Rightful id expected patch acting db q h in
    let p = first.before in
    let r = patched patch p in
    let db' = (update id expected patch acting db).1 in
    let now : lookup row_key id db'.projects ≡ some r =
      ap (λ t. lookup row_key id t.1.projects) first.written
      ∙ found_again id r p db first.found refl in
    (
      p,
      first.found,
      first.allowed,
      first.current,
      ap (λ (x : ProjectRow). x.version) (sym first.same) ∙ ap suc first.current,
      λ again.
          let second = update-Rightful id expected patch' acting' db' q' again in
          let both : some r ≡ some second.before = sym now ∙ second.found in
          let one : r ≡ second.before = some_inj r second.before both in
          let versions : suc p.version ≡ expected =
            ap (λ (x : ProjectRow). x.version) one ∙ second.current in
          absurd (omega (arith, versions, first.current)),
    )
