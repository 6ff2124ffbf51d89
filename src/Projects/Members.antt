-- ===== src/Projects/Members.antt =====
-- `add_member`, `remove_member` and `update_member_role`.
use problem_bulletin.Prelude.{
  ℕ, ◌==◌, Bool, not, ◌&&◌, none, some, List, ◌∷◌, map, filter, any, if◌then◌else◌,
}
use problem_bulletin.Prelude.Table.{lookup}
use problem_bulletin.Domain.{Party, is_party, party_eq}
use problem_bulletin.Projects.{
  ProjectRole, ProjectMember, row_key, Account, may_edit, Tables, not_found, member_kind,
  permission_denied, not_a_member, Outcome, ok, err,
}

abbrev pub is_membership : ℕ → ℕ → Party → ProjectMember → Bool
is_membership project id kind m =
    m.project_id == project && m.member_id == id && party_eq m.member_type kind

-- The membership's row gets the role.
abbrev pub give_role : ℕ → ℕ → Party → ProjectRole → List ProjectMember → List ProjectMember
give_role project id kind role members =
    map
      (λ (m : ProjectMember).
        if is_membership project id kind m then record m { role = role } else m)
      members

abbrev pub new_member : ℕ → ℕ → Party → ProjectRole → ProjectMember
new_member project id kind role = record {
  project_id = project;
  member_id = id;
  member_type = kind;
  role = role;
}

abbrev pub write_members : List ProjectMember → Tables → Outcome (Unit {0}) × Tables
write_members members db = (ok tt, record db { members = members })

-- `add_member`, an upsert
unfoldable pub add_member : ℕ → ℕ → Party → ProjectRole → Tables → Outcome (Unit {0}) × Tables
add_member project id kind role db =
    if not (is_party kind)
    then (err member_kind, db)
    else elim (lookup row_key project db.projects) [
      | none ↦ (err not_found, db)
      | some p ↦
          if any (is_membership p.id id kind) db.members
          then write_members (give_role p.id id kind role db.members) db
          else write_members (new_member p.id id kind role ∷ db.members) db
    ]

-- `remove_member`
unfoldable pub remove_member : ℕ → ℕ → Party → Account → Tables → Outcome (Unit {0}) × Tables
remove_member project id kind acting db = elim (lookup row_key project db.projects) [
  | none ↦ (err not_found, db)
  | some p ↦
      if not (may_edit acting p)
      then (err permission_denied, db)
      else write_members (filter (λ m. not (is_membership p.id id kind m)) db.members) db
]

-- `update_member_role`
unfoldable pub update_member_role :
    ℕ → ℕ → Party → ProjectRole → Account → Tables → Outcome (Unit {0}) × Tables
update_member_role project id kind role acting db = elim (lookup row_key project db.projects) [
  | none ↦ (err not_found, db)
  | some p ↦
      if not (may_edit acting p)
      then (err permission_denied, db)
      else if not (any (is_membership p.id id kind) db.members)
      then (err not_a_member, db)
      else write_members (give_role p.id id kind role db.members) db
]
