-- ===== src/Projects.antt =====
-- app/services/projects.py: projects, their members and their sequences. The audit row of a creation
-- is best effort and not modelled.
pub mod Members
pub mod Kept
pub mod Calls
pub mod Rights
use problem_bulletin.Prelude.{
  ℕ, zero, suc, ◌+◌, ◌==◌, Bool, true, false, not, ◌&&◌, ◌||◌, Option, none, some, List, [], ◌∷◌,
  ◌++◌, map, length, filter, any, count, ltb, leb, if◌then◌else◌,
}
use problem_bulletin.Prelude.Table.{lookup, put, remove}
use problem_bulletin.Prelude.Text.{Text, text_eq, is_blank}
use problem_bulletin.Domain.{Party, user, is_party, party_eq}

-- `ProjectRole`
pub data ProjectRole : Type 0 where
  lead member viewer : ProjectRole

-- app/models/project.py
pub record ProjectRow : Type 0 where
  pub id : ℕ
  pub key : Text
  pub name : Text
  pub description : Option Text
  pub lead_id : Option ℕ
  pub lead_type : Option Party
  pub archived : Bool
  pub wip_limits : Text
  pub state_change_coalesce_seconds : ℕ
  pub version : ℕ

abbrev pub row_key : ProjectRow → ℕ
row_key p = p.id

pub record ProjectMember : Type 0 where
  pub project_id : ℕ
  pub member_id : ℕ
  pub member_type : Party
  pub role : ProjectRole

-- The user of a request.
pub record Account : Type 0 where
  pub id : ℕ
  pub is_admin : Bool

-- The tables: of a ticket its project counts, of a sequence its name.
pub record Tables : Type 0 where
  pub projects : List ProjectRow
  pub members : List ProjectMember
  pub ticket_projects : List ℕ
  pub sequences : List Text

pub data ProjectError : Type 0 where
  not_found key_conflict permission_denied key_format name_required lead_pair lead_kind
        not_updatable member_kind not_a_member :
      ProjectError
  has_tickets stale_version : ℕ → ProjectError

pub data Outcome (A : Type 0) : Type 0 where
  ok : A → Outcome A
  err : ProjectError → Outcome A

abbrev is_capital : ℕ → Bool
is_capital c = leb 65 c && leb c 90

abbrev is_key_sign : ℕ → Bool
is_key_sign c = is_capital c || leb 48 c && leb c 57

abbrev all_key_signs : Text → Bool
all_key_signs [] = true
all_key_signs (c ∷ s) = is_key_sign c && all_key_signs s

-- `^[A-Z][A-Z0-9]{1,9}$` of the key's text
abbrev is_key : Text → Bool
is_key [] = false
is_key (c ∷ s) = is_capital c && all_key_signs s && leb 1 (length s) && leb (length s) 9

-- Python's `$` matches before a line feed at the end as well.
abbrev drop_line_feed : Text → Text
drop_line_feed [] = []
drop_line_feed (c ∷ []) = if c == 10 then [] else c ∷ []
drop_line_feed (c ∷ d ∷ s) = c ∷ drop_line_feed (d ∷ s)

-- `_KEY_RE.match(key)`
abbrev pub matches_key : Text → Bool
matches_key key = is_key key || is_key (drop_line_feed key)

-- `_seq_name(key)`, whose prefix `seq_` is left out
abbrev seq_name : Text → Text
seq_name key = map (λ c. if is_capital c then c + 32 else c) key

-- `(lead_id is None) != (lead_type is None)`
abbrev pub unpaired : Option ℕ → Option Party → Bool
unpaired none none = false
unpaired none (some p) = true
unpaired (some i) none = true
unpaired (some i) (some p) = false

abbrev pub bad_kind : Option Party → Bool
bad_kind none = false
bad_kind (some p) = not (is_party p)

-- The arguments of `create`.
pub record NewProject : Type 0 where
  pub key : Text
  pub name : Text
  pub description : Option Text
  pub lead_id : Option ℕ
  pub lead_type : Option Party
  pub wip_limits : Text

abbrev pub has_name : Text → ProjectRow → Bool
has_name key p = text_eq p.key key

abbrev pub row_of : ℕ → ℕ → NewProject → ProjectRow
row_of id seconds args = record {
  id = id;
  key = args.key;
  name = args.name;
  description = args.description;
  lead_id = args.lead_id;
  lead_type = args.lead_type;
  archived = false;
  wip_limits = args.wip_limits;
  state_change_coalesce_seconds = seconds;
  version = 1;
}

abbrev pub may_create : Option Account → Bool
may_create none = true
may_create (some u) = u.is_admin

abbrev with_sequence : Text → List Text → List Text
with_sequence s sequences = if any (text_eq s) sequences then sequences else s ∷ sequences

-- `create`, with the id of the row, the default of the column and whether the flush goes through
unfoldable pub create :
    ℕ → ℕ → Bool → NewProject → Option Account → Tables → Outcome ProjectRow × Tables
create id seconds flushes args acting db =
    if not (may_create acting)
    then (err permission_denied, db)
    else if not (matches_key args.key)
    then (err key_format, db)
    else if is_blank args.name
    then (err name_required, db)
    else if unpaired args.lead_id args.lead_type
    then (err lead_pair, db)
    else if bad_kind args.lead_type
    then (err lead_kind, db)
    else if any (has_name args.key) db.projects || not flushes
    then (err key_conflict, db)
    else (
      ok (row_of id seconds args),
      record db {
        projects = row_of id seconds args ∷ db.projects;
        sequences = with_sequence (seq_name args.key) db.sequences;
      },
    )

-- `_check_project_edit_permission`: an admin, or the project's lead that is a user
abbrev pub may_edit : Account → ProjectRow → Bool
may_edit u p = u.is_admin || is_lead p.lead_type p.lead_id
  where
    is_lead : Option Party → Option ℕ → Bool
    is_lead (some user) (some i) = i == u.id
    is_lead _ _ = false

-- The keys of a patch that it sets, and whether it has another key.
pub record ProjectPatch : Type 0 where
  pub name : Option Text
  pub description : Option (Option Text)
  pub lead_id : Option (Option ℕ)
  pub lead_type : Option (Option Party)
  pub wip_limits : Option Text
  pub state_change_coalesce_seconds : Option ℕ
  pub unknown : Bool

abbrev get {ℓ} : {A : Type ℓ} → Option A → A → A
get none old = old
get (some new) old = new

abbrev pub patched : ProjectPatch → ProjectRow → ProjectRow
patched patch p = record p {
  name = get patch.name p.name;
  description = get patch.description p.description;
  lead_id = get patch.lead_id p.lead_id;
  lead_type = get patch.lead_type p.lead_type;
  wip_limits = get patch.wip_limits p.wip_limits;
  state_change_coalesce_seconds =
      get patch.state_change_coalesce_seconds p.state_change_coalesce_seconds;
  version = suc p.version;
}

abbrev pub write_row : ProjectRow → Tables → Outcome ProjectRow × Tables
write_row q db = (ok q, record db { projects = put row_key q db.projects })

-- `update`
unfoldable pub update : ℕ → ℕ → ProjectPatch → Account → Tables → Outcome ProjectRow × Tables
update id expected patch acting db =
    if patch.unknown then (err not_updatable, db) else elim (lookup row_key id db.projects) [
      | none ↦ (err not_found, db)
      | some p ↦
          if not (may_edit acting p)
          then (err permission_denied, db)
          else if not (p.version == expected)
          then (err (stale_version p.version), db)
          else if unpaired (patched patch p).lead_id (patched patch p).lead_type
          then (err lead_pair, db)
          else if bad_kind (patched patch p).lead_type
          then (err lead_kind, db)
          else write_row (patched patch p) db
    ]

-- `archive` and `unarchive`
unfoldable pub set_archived : Bool → ℕ → Tables → Outcome ProjectRow × Tables
set_archived archived id db = elim (lookup row_key id db.projects) [
  | none ↦ (err not_found, db)
  | some p ↦ write_row (record p { archived = archived; version = suc p.version }) db
]

abbrev pub in_project : ℕ → ℕ → Bool
in_project id ticket_project = ticket_project == id

-- `delete`; the members go with their project
unfoldable pub delete : ℕ → Tables → Outcome (Unit {0}) × Tables
delete id db = elim (lookup row_key id db.projects) [
  | none ↦ (err not_found, db)
  | some p ↦
      if ltb 0 (count (in_project p.id) db.ticket_projects)
      then (err (has_tickets (count (in_project p.id) db.ticket_projects)), db)
      else (
        ok tt,
        record db {
          projects = remove row_key p.id db.projects;
          members = filter (λ (m : ProjectMember). not (m.project_id == p.id)) db.members;
          sequences = filter (λ s. not (text_eq s (seq_name p.key))) db.sequences;
        },
      )
]
