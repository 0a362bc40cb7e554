-- ===== src/Postgres/Teams.antt =====
-- The methods of Postgres on teams, pkg/store/postgres.go.
use shpyrd.Common.{
  String, Bool, true, false, not, Option, none, some, List, [], ◌∷◌, ◌++◌, map, ◌==◌, if◌then◌else◌,
  any, keep, find?, update_first, sort, text_less,
}
use shpyrd.Store.Types.{Team, team_everyone, not_found, built_in}
use shpyrd.Store.State.{Env}
use shpyrd.Store.Teams.{normalize_emails, dedupe}
use shpyrd.Postgres.Tables.{
  TeamRow, GrantRow, Database, Answer, ok, err, failed, with_id, is_row, has_row_id, scan_team,
}

-- Postgres.ListTeams
unfoldable pub list_teams : String → Database → Answer (List Team) × Database
list_teams ws db = with_id ws db λ wid. (
  ok (
      map scan_team
        (sort (λ a b. text_less a.name b.name) (keep (λ t. t.workspace_id == wid) db.teams))),
  db,
)

abbrev found_row : Database → Option TeamRow → Answer Team × Database
found_row db none = (err not_found, db)
found_row db (some t) = (ok (scan_team t), db)

-- Postgres.GetTeam
unfoldable pub get_team : String → String → Database → Answer Team × Database
get_team ws name db = with_id ws db λ wid. found_row db (find? (is_row wid name) db.teams)

-- VALUES of the INSERT
abbrev pub inserted : Env → String → Team → TeamRow
inserted env wid t = record {
  id = env.uuid 0;
  workspace_id = wid;
  name = t.name;
  description = t.description;
  members = normalize_emails t.members;
  groups = dedupe t.groups;
  platform_role = t.platform_role;
  kind = "";
  created_at = env.now;
  updated_at = env.now;
}

-- ON CONFLICT (workspace_id, name) DO UPDATE
abbrev pub updated : Env → Team → TeamRow → TeamRow
updated env t row = record row {
  description = t.description;
  members = normalize_emails t.members;
  groups = dedupe t.groups;
  platform_role = t.platform_role;
  updated_at = env.now;
}

-- PutTeam scans `kind` and does not set Everyone.
abbrev pub returned : TeamRow → Team
returned row = record (scan_team row) { everyone = false }

abbrev put_row : Env → String → Team → Database → Option TeamRow → Answer (Team × Bool) × Database
put_row env wid t db none = if any (has_row_id (env.uuid 0)) db.teams then (failed, db) else (
  ok (returned (inserted env wid t), true),
  record db { teams = db.teams ++ inserted env wid t ∷ [] },
)
put_row env wid t db (some row) = (
  ok (returned (updated env t row), false),
  record db { teams = update_first (is_row wid t.name) (updated env t) db.teams },
)

-- Postgres.PutTeam. The key of the table is UNIQUE (workspace_id, name), so one row at most is
-- updated.
unfoldable pub put_team : Env → String → Team → Database → Answer (Team × Bool) × Database
put_team env ws t db = with_id ws db λ wid.
    if t.name == team_everyone
    then (err built_in, db)
    else put_row env wid t db (find? (is_row wid t.name) db.teams)

abbrev pub refers : String → Option String → Bool
refers id none = false
refers id (some i) = i == id

-- ON DELETE CASCADE: the team of the grant is among the rows that go.
abbrev pub falls_with : List TeamRow → GrantRow → Bool
falls_with gone g = any (λ t. refers t.id g.team_id) gone

abbrev delete_rows : String → String → Database → Bool → Answer (Unit {0}) × Database
delete_rows wid name db false = (err not_found, db)
delete_rows wid name db true = (
  ok tt,
  record db {
    teams = keep (λ t. not (is_row wid name t)) db.teams;
    grants = keep (λ g. not (falls_with (keep (is_row wid name) db.teams) g)) db.grants;
  },
)

-- Postgres.DeleteTeam
unfoldable pub delete_team : String → String → Database → Answer (Unit {0}) × Database
delete_team ws name db = with_id ws db λ wid.
    if name == team_everyone
    then (err built_in, db)
    else delete_rows wid name db (any (is_row wid name) db.teams)
