-- ===== src/Projects/Kept.antt =====
-- What the operations keep of the projects.
use mathlib.Core.Path.{subst}
use problem_bulletin.Prelude.{
  ℕ, suc, ◌<◌, ◌≤◌, ◌≡◌, ◌==◌, refl, sym, ap, inl, inr, Bool, false, some, List, [], ◌∷◌, count,
  All, arith, Bool-cases, Option-cases,
}
use problem_bulletin.Prelude.Keyed.{IsKeyed, has_key, count_key-put, count-put}
use problem_bulletin.Prelude.Table.{lookup, put, remove, lookup_key}
use problem_bulletin.Prelude.Text.{Text, text_eq}
use problem_bulletin.Projects.{
  ProjectRow, row_key, Account, Tables, has_name, unpaired, bad_kind, ProjectPatch, patched,
  may_edit, update, set_archived, in_project,
}

-- The lead of a project is both a kind and an id, or neither, and the kind is a user or an agent.
abbrev pub IsLed : ProjectRow → Type 0
IsLed p = (unpaired p.lead_id p.lead_type ≡ false) × (bad_kind p.lead_type ≡ false)

-- Each id and each key has one project, leads are complete, and each ticket's project is there.
pub record IsKept (db : Tables) : Type 0 where
  pub keyed : IsKeyed row_key db.projects
  pub named : (key : Text) → count (has_name key) db.projects ≤ 1
  pub led : All IsLed db.projects
  pub housed :
      (k : ℕ)
      → 0 < count (in_project k) db.ticket_projects
      → 0 < count (has_key row_key k) db.projects

All-put :
    (P : ProjectRow → Type 0) (q : ProjectRow) (rows : List ProjectRow)
    → P q
    → All P rows
    → All P (put row_key q rows)
unfolding put
All-put P q [] p h = tt
All-put P q (r ∷ rows) p h = elim (Bool-cases (r.id == q.id)) [
  | inl e ↦ rw e (p, All-put P q rows p h.1)
  | inr e ↦ rw e (h.0, All-put P q rows p h.1)
]

pub All-remove :
    (P : ProjectRow → Type 0) (k : ℕ) (rows : List ProjectRow)
    → All P rows
    → All P (remove row_key k rows)
unfolding remove
All-remove P k [] h = tt
All-remove P k (r ∷ rows) h = elim (Bool-cases (r.id == k)) [
  | inl e ↦ rw e (All-remove P k rows h.1)
  | inr e ↦ rw e (h.0, All-remove P k rows h.1)
]

pub count-remove-le :
    (test : ProjectRow → Bool) (k : ℕ) (rows : List ProjectRow)
    → count test (remove row_key k rows) ≤ count test rows
unfolding remove
count-remove-le test k [] = omega arith
count-remove-le test k (r ∷ rows) = ground (arith, count-remove-le test k rows)

pub count_key-remove :
    (j k : ℕ) (rows : List ProjectRow)
    → (k == j) ≡ false
    → count (has_key row_key j) (remove row_key k rows) ≡ count (has_key row_key j) rows
unfolding remove
count_key-remove j k [] h = refl
count_key-remove j k (r ∷ rows) h = ground (arith, h, count_key-remove j k rows h)

-- A row is overwritten by one with the same key and a complete lead.
put-IsKept :
    (db : Tables) (q p : ProjectRow)
    → lookup row_key q.id db.projects ≡ some p
    → q.key ≡ p.key
    → IsLed q
    → IsKept db
    → IsKept (record db { projects = put row_key q db.projects })
put-IsKept db q p found same ledger h = record {
  keyed = λ k. rw (count_key-put row_key k q db.projects) (h.keyed k);
  named = λ key.
      let name : has_name key q ≡ has_name key p = ap (λ k. text_eq k key) same in
      ground (
        arith,
        name,
        count-put row_key (has_name key) q p db.projects (h.keyed q.id) found,
        h.named key,
      );
  led = All-put IsLed q db.projects ledger h.led;
  housed = λ k tickets. rw (count_key-put row_key k q db.projects) (h.housed k tickets);
}

module _ (db : Tables) (h : IsKept db) where
  at_key :
      (id : ℕ) (p : ProjectRow)
      → lookup row_key id db.projects ≡ some p
      → lookup row_key p.id db.projects ≡ some p
  at_key id p e =
      subst (λ k. lookup row_key k db.projects ≡ some p) (sym (lookup_key row_key id db.projects e))
        e

  lookup-All :
      (k : ℕ) (rows : List ProjectRow) (p : ProjectRow)
      → lookup row_key k rows ≡ some p
      → All IsLed rows
      → IsLed p
  unfolding lookup
  lookup-All k [] p e led = absurd cc
  lookup-All k (r ∷ rows) p e led = elim (Bool-cases (r.id == k)) [
    | inl y ↦
        let one : some r ≡ some p = ground (arith, y, e) in
        let same : r ≡ p = cc in subst IsLed same led.0
    | inr n ↦ lookup-All k rows p (ground (arith, n, e)) led.1
  ]

  pub set_archived-IsKept : (archived : Bool) (id : ℕ) → IsKept (set_archived archived id db).1
  unfolding set_archived
  set_archived-IsKept archived id = elim (Option-cases (lookup row_key id db.projects)) [
    | inl e ↦ rw (set_archived, e) h
    | inr (p, e) ↦
        rw (set_archived, e)
          (put-IsKept db (record p { archived = archived; version = suc p.version }) p
            (at_key id p e) refl (lookup-All id db.projects p e h.led) h)
  ]

  pub update-IsKept :
      (id expected : ℕ) (patch : ProjectPatch) (acting : Account)
      → IsKept (update id expected patch acting db).1
  unfolding update
  update-IsKept id expected patch acting = elim (Bool-cases patch.unknown) [
    | inl e ↦ rw (update, e) h
    | inr e ↦ elim (Option-cases (lookup row_key id db.projects)) [
      | inl f ↦ rw (update, e, f) h
      | inr (p, f) ↦ elim (Bool-cases (may_edit acting p)) [
        | inr g ↦ rw (update, e, f, g) h
        | inl g ↦ elim (Bool-cases (p.version == expected)) [
          | inr i ↦ rw (update, e, f, g, i) h
          | inl i ↦
              elim (Bool-cases (unpaired (patched patch p).lead_id (patched patch p).lead_type)) [
                | inl j ↦ rw (update, e, f, g, i, j) h
                | inr j ↦ elim (Bool-cases (bad_kind (patched patch p).lead_type)) [
                  | inl k ↦ rw (update, e, f, g, i, j, k) h
                  | inr k ↦
                      rw (update, e, f, g, i, j, k)
                        (put-IsKept db (patched patch p) p (at_key id p f) refl (j, k) h)
                ]
              ]
        ]
      ]
    ]
  ]
