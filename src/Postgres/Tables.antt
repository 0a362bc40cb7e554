-- ===== src/Postgres/Tables.antt =====
-- The tables of pkg/store/migrations that pkg/store/postgres.go keeps teams and grants in. A table
-- is the list of its rows in the order of insertion; an UPDATE writes a row in place.
use shpyrd.Common.{ℕ, String, Bool, Option, none, some, List, ◌==◌, ◌&&◌, find?}
use shpyrd.Store.Types.{Workspace, Team, Grant, Error, not_found}

-- The table teams of 0001_init.sql with the column `kind` of 0003_everyone_status.sql
pub record TeamRow : Type 0 where
  pub id : String
  pub workspace_id : String
  pub name : String
  pub description : String
  pub members : List String
  pub groups : List String
  pub platform_role : String
  pub kind : String
  pub created_at : ℕ
  pub updated_at : ℕ

-- `team_id` refers to a team; `none` is NULL.
pub record GrantRow : Type 0 where
  pub id : String
  pub workspace_id : String
  pub project : String
  pub role : String
  pub user_email : String
  pub team_id : Option String
  pub created_at : ℕ

pub record Database : Type 0 where
  pub workspaces : List Workspace
  pub teams : List TeamRow
  pub grants : List GrantRow

-- The answer of a method: `failed` is any other error of the database, such as a CHECK that a row
-- does not meet.
pub data Answer {ℓ} (A : Type ℓ) : Type ℓ where
  ok : A → Answer A
  err : Error → Answer A
  failed : Answer A

abbrev with_row {ℓ} :
    {A : Type ℓ}
    → Option Workspace
    → Database
    → (String → Answer A × Database)
    → Answer A × Database
with_row none db body = (err not_found, db)
with_row (some w) db body = body w.id

-- Postgres.wsID, and the return on its error
unfoldable pub with_id {ℓ} :
    {A : Type ℓ} → String → Database → (String → Answer A × Database) → Answer A × Database
with_id slug db body = with_row (find? (λ w. w.slug == slug) db.workspaces) db body

-- WHERE workspace_id = $1 AND name = $2
abbrev pub is_row : String → String → TeamRow → Bool
is_row workspace_id name t = t.workspace_id == workspace_id && t.name == name

abbrev pub has_row_id : String → TeamRow → Bool
has_row_id id t = t.id == id

abbrev pub name_or_empty : Option TeamRow → String
name_or_empty none = ""
name_or_empty (some t) = t.name

-- COALESCE(t.name, '') of `LEFT JOIN teams t ON t.id = g.team_id`
abbrev pub team_name : List TeamRow → Option String → String
team_name teams none = ""
team_name teams (some id) = name_or_empty (find? (has_row_id id) teams)

-- scanTeam
abbrev pub scan_team : TeamRow → Team
scan_team t = record {
  id = t.id;
  workspace_id = t.workspace_id;
  name = t.name;
  description = t.description;
  members = t.members;
  groups = t.groups;
  platform_role = t.platform_role;
  everyone = t.kind == "everyone";
  created_at = t.created_at;
  updated_at = t.updated_at;
}

-- A row of grantSelect
abbrev pub scan_grant : List TeamRow → GrantRow → Grant
scan_grant teams g = record {
  id = g.id;
  workspace_id = g.workspace_id;
  project = g.project;
  role = g.role;
  user = g.user_email;
  team = team_name teams g.team_id;
  created_at = g.created_at;
}
