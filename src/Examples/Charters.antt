-- ===== src/Examples/Charters.antt =====
-- A project and its changes.
use problem_bulletin.Prelude.{suc, ◌≡◌, ◌≢◌, refl, true, false, none, some, [], ◌∷◌, arith}
use problem_bulletin.Prelude.Table.{lookup}
use problem_bulletin.Prelude.Text.{text}
use problem_bulletin.Domain.{user}
use problem_bulletin.Projects.{
  ProjectRow, row_key, Account, Tables, member, ProjectPatch, patched, update, ok, may_edit,
}
use problem_bulletin.Projects.Kept.{IsKept}
use problem_bulletin.Projects.Calls.{Reaches, start, step, joined, archived, run, Reaches-IsKept}
use problem_bulletin.Projects.Rights.{update_once}

abbrev charter : ProjectRow
charter = record {
  id = 3;
  key = text "DEF";
  name = text "Default";
  description = none;
  lead_id = some 1;
  lead_type = some user;
  archived = false;
  wip_limits = text "{}";
  state_change_coalesce_seconds = 60;
  version = 4;
}

abbrev tables : Tables
tables = record {
  projects = charter ∷ [];
  members = [];
  ticket_projects = 3 ∷ 3 ∷ [];
  sequences = text "def" ∷ [];
}

tables-IsKept : IsKept tables
tables-IsKept = record {
  keyed = λ k. ground arith;
  named = λ key. ground arith;
  led = ((refl, refl), tt);
  housed = λ k tickets. ground (arith, tickets);
}

abbrev end : Tables
end = run (archived true 3) (run (joined 3 2 user member) tables)

two_steps : Reaches tables end
two_steps = step (archived true 3) (step (joined 3 2 user member) start tt) tt

Reaches-IsKept_example : IsKept end
Reaches-IsKept_example = Reaches-IsKept tables end two_steps tables-IsKept

abbrev lead_account : Account
lead_account = record { id = 1; is_admin = false }

abbrev rename : ProjectPatch
rename = record {
  name = some (text "New");
  description = none;
  lead_id = none;
  lead_type = none;
  wip_limits = none;
  state_change_coalesce_seconds = none;
  unknown = false;
}

renamed : (update 3 4 rename lead_account tables).0 ≡ ok (patched rename charter)
unfolding update lookup
renamed = refl

update_once_example :
    (p : ProjectRow) × (lookup row_key 3 tables.projects ≡ some p)
    × (may_edit lead_account p ≡ true)
    × (p.version ≡ 4)
    × ((patched rename charter).version ≡ suc 4)
    × ((update 3 4 rename lead_account (update 3 4 rename lead_account tables).1).0 ≢ ok charter)
update_once_example =
    update_once 3 4 rename rename lead_account lead_account tables (patched rename charter) charter
      renamed
