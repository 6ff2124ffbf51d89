-- ===== src/Projects/Calls.antt =====
-- The calls of the service one after another.
use problem_bulletin.Prelude.{
  ℕ, ◌≡◌, ◌==◌, refl, sym, ap, inl, inr, Bool, true, false, not, ◌||◌, Option, List, [], ◌∷◌, any,
  count, ltb, arith, Bool-cases, Option-cases,
}
use problem_bulletin.Prelude.Keyed.{has_key}
use problem_bulletin.Prelude.Table.{lookup, remove}
use problem_bulletin.Prelude.Text.{Text, text_eq, text_eq_iff, is_blank}
use problem_bulletin.Domain.{Party, is_party}
use problem_bulletin.Projects.{
  ProjectRole, ProjectMember, ProjectRow, row_key, Account, Tables, NewProject, has_name, row_of,
  may_create, unpaired, bad_kind, matches_key, create, ProjectPatch, may_edit, update, set_archived,
  in_project, delete,
}
use problem_bulletin.Projects.Members.{is_membership, add_member, remove_member, update_member_role}
use problem_bulletin.Projects.Kept.{
  IsLed, IsKept, All-remove, count-remove-le, count_key-remove, set_archived-IsKept, update-IsKept,
}

named_none :
    (key other : Text) (rows : List ProjectRow)
    → any (has_name key) rows ≡ false
    → text_eq key other ≡ true
    → count (has_name other) rows ≡ 0
named_none key other [] h e = refl
named_none key other (r ∷ rows) h e =
    let same : key ≡ other = (text_eq_iff key other).0 e in
    let apart : has_name other r ≡ has_name key r = ap (λ k. has_name k r) (sym same) in
    ground (arith, apart, h, named_none key other rows)

module _ (db : Tables) (h : IsKept db) where
  members-IsKept : (members : List ProjectMember) → IsKept (record db { members = members })
  members-IsKept members = record {
    keyed = h.keyed;
    named = h.named;
    led = h.led;
    housed = h.housed;
  }

  cons-IsKept :
      (p : ProjectRow) (sequences : List Text)
      → count (has_key row_key p.id) db.projects ≡ 0
      → any (has_name p.key) db.projects ≡ false
      → IsLed p
      → IsKept (record db { projects = p ∷ db.projects; sequences = sequences })
  cons-IsKept p sequences fresh new led = record {
    keyed = λ k. ground (arith, fresh, h.keyed k);
    named = λ key. ground (arith, named_none p.key key db.projects new, h.named key);
    led = (led, h.led);
    housed = λ k tickets. omega (arith, h.housed k tickets);
  }

  remove-IsKept :
      (id : ℕ) (members : List ProjectMember) (sequences : List Text)
      → ltb 0 (count (in_project id) db.ticket_projects) ≡ false
      → IsKept (record db {
        projects = remove row_key id db.projects;
        members = members;
        sequences = sequences;
      })
  remove-IsKept id members sequences empty = record {
    keyed = λ k. omega (arith, count-remove-le (has_key row_key k) id db.projects, h.keyed k);
    named = λ key. omega (arith, count-remove-le (has_name key) id db.projects, h.named key);
    led = All-remove IsLed id db.projects h.led;
    housed = λ k tickets. elim (Bool-cases (id == k)) [
      | inl e ↦
          let here : id ≡ k = ground (arith, e) in
          let counts : count (in_project id) db.ticket_projects
              ≡ count (in_project k) db.ticket_projects =
            ap (λ j. count (in_project j) db.ticket_projects) here in
          absurd (ground (arith, empty, counts, tickets))
      | inr e ↦ omega (arith, count_key-remove k id db.projects e, h.housed k tickets)
    ];
  }

  delete-IsKept : (id : ℕ) → IsKept (delete id db).1
  unfolding delete
  delete-IsKept id = elim (Option-cases (lookup row_key id db.projects)) [
    | inl e ↦ rw (delete, e) h
    | inr (p, e) ↦ elim (Bool-cases (ltb 0 (count (in_project p.id) db.ticket_projects))) [
      | inl f ↦ rw (delete, e, f) h
      | inr f ↦ rw (delete, e, f) (remove-IsKept p.id _ _ f)
    ]
  ]

  create-IsKept :
      (id seconds : ℕ) (flushes : Bool) (args : NewProject) (acting : Option Account)
      → count (has_key row_key id) db.projects ≡ 0
      → IsKept (create id seconds flushes args acting db).1
  unfolding create
  create-IsKept id seconds flushes args acting fresh = elim (Bool-cases (may_create acting)) [
    | inr e ↦ rw (create, e) h
    | inl e ↦ elim (Bool-cases (matches_key args.key)) [
      | inr f ↦ rw (create, e, f) h
      | inl f ↦ elim (Bool-cases (is_blank args.name)) [
        | inl g ↦ rw (create, e, f, g) h
        | inr g ↦ elim (Bool-cases (unpaired args.lead_id args.lead_type)) [
          | inl i ↦ rw (create, e, f, g, i) h
          | inr i ↦ elim (Bool-cases (bad_kind args.lead_type)) [
            | inl j ↦ rw (create, e, f, g, i, j) h
            | inr j ↦ elim (Bool-cases (any (has_name args.key) db.projects || not flushes)) [
              | inl k ↦ rw (create, e, f, g, i, j, k) h
              | inr k ↦
                  let new : any (has_name args.key) db.projects ≡ false = ground (arith, k) in
                  rw (create, e, f, g, i, j, k)
                    (cons-IsKept (row_of id seconds args) _ fresh new (i, j))
            ]
          ]
        ]
      ]
    ]
  ]

  add_member-IsKept :
      (project id : ℕ) (kind : Party) (role : ProjectRole)
      → IsKept (add_member project id kind role db).1
  unfolding add_member
  add_member-IsKept project id kind role = elim (Bool-cases (is_party kind)) [
    | inr e ↦ rw (add_member, e) h
    | inl e ↦ elim (Option-cases (lookup row_key project db.projects)) [
      | inl f ↦ rw (add_member, e, f) h
      | inr (p, f) ↦ elim (Bool-cases (any (is_membership p.id id kind) db.members)) [
        | inl g ↦ rw (add_member, e, f, g) (members-IsKept _)
        | inr g ↦ rw (add_member, e, f, g) (members-IsKept _)
      ]
    ]
  ]

  remove_member-IsKept :
      (project id : ℕ) (kind : Party) (acting : Account)
      → IsKept (remove_member project id kind acting db).1
  unfolding remove_member
  remove_member-IsKept project id kind acting =
      elim (Option-cases (lookup row_key project db.projects)) [
        | inl f ↦ rw (remove_member, f) h
        | inr (p, f) ↦ elim (Bool-cases (may_edit acting p)) [
          | inr g ↦ rw (remove_member, f, g) h
          | inl g ↦ rw (remove_member, f, g) (members-IsKept _)
        ]
      ]

  update_member_role-IsKept :
      (project id : ℕ) (kind : Party) (role : ProjectRole) (acting : Account)
      → IsKept (update_member_role project id kind role acting db).1
  unfolding update_member_role
  update_member_role-IsKept project id kind role acting =
      elim (Option-cases (lookup row_key project db.projects)) [
        | inl f ↦ rw (update_member_role, f) h
        | inr (p, f) ↦ elim (Bool-cases (may_edit acting p)) [
          | inr g ↦ rw (update_member_role, f, g) h
          | inl g ↦ elim (Bool-cases (any (is_membership p.id id kind) db.members)) [
            | inr i ↦ rw (update_member_role, f, g, i) h
            | inl i ↦ rw (update_member_role, f, g, i) (members-IsKept _)
          ]
        ]
      ]

pub data Call : Type 0 where
  created : ℕ → ℕ → Bool → NewProject → Option Account → Call
  updated : ℕ → ℕ → ProjectPatch → Account → Call
  archived : Bool → ℕ → Call
  deleted : ℕ → Call
  joined : ℕ → ℕ → Party → ProjectRole → Call
  left : ℕ → ℕ → Party → Account → Call
  promoted : ℕ → ℕ → Party → ProjectRole → Account → Call

abbrev pub run : Call → Tables → Tables
run (created id seconds flushes args acting) db = (create id seconds flushes args acting db).1
run (updated id expected patch acting) db = (update id expected patch acting db).1
run (archived flag id) db = (set_archived flag id db).1
run (deleted id) db = (delete id db).1
run (joined project id kind role) db = (add_member project id kind role db).1
run (left project id kind acting) db = (remove_member project id kind acting db).1
run (promoted project id kind role acting) db =
    (update_member_role project id kind role acting db).1

-- A generated id is new.
abbrev pub IsFresh : Call → Tables → Type 0
IsFresh (created id seconds flushes args acting) db = count (has_key row_key id) db.projects ≡ 0
IsFresh _ db = Unit

pub data Reaches (db : Tables) : Tables → Type 0 where
  start : Reaches db db
  step :
      {mid : Tables} (call : Call) → Reaches db mid → IsFresh call mid → Reaches db (run call mid)

run-IsKept : (call : Call) (db : Tables) → IsFresh call db → IsKept db → IsKept (run call db)
run-IsKept (created id seconds flushes args acting) db fresh h =
    create-IsKept db h id seconds flushes args acting fresh
run-IsKept (updated id expected patch acting) db fresh h =
    update-IsKept db h id expected patch acting
run-IsKept (archived flag id) db fresh h = set_archived-IsKept db h flag id
run-IsKept (deleted id) db fresh h = delete-IsKept db h id
run-IsKept (joined project id kind role) db fresh h = add_member-IsKept db h project id kind role
run-IsKept (left project id kind acting) db fresh h =
    remove_member-IsKept db h project id kind acting
run-IsKept (promoted project id kind role acting) db fresh h =
    update_member_role-IsKept db h project id kind role acting

-- From tables in which each id and each key has one project, each lead is a user or an agent with an id or missing
-- altogether, and each ticket's project is there, this stays so whatever projects are created,
-- changed, archived and deleted and whatever members come and go, one call after another, if the id that a new project gets
-- is new: a key is not given twice, and a project with tickets is not deleted.
pub Reaches-IsKept : (db end : Tables) → Reaches db end → IsKept db → IsKept end
Reaches-IsKept db end start h = h
Reaches-IsKept db end (step {mid = m} call r fresh) h =
    run-IsKept call m fresh (Reaches-IsKept db m r h)
