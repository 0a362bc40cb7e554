-- ===== src/Postgres/Grants.antt =====
-- The methods of Postgres on grants, pkg/store/postgres.go.
use shpyrd.Common.{
  String, Bool, true, false, not, ◌&&◌, ◌||◌, Option, none, some, List, [], ◌∷◌, ◌++◌, map, ◌==◌,
  if◌then◌else◌, any, keep, find?, sort, text_less, to_lower, trim_space,
}
use shpyrd.Store.Types.{Grant, not_found, conflict}
use shpyrd.Store.State.{Env}
use shpyrd.Postgres.Tables.{
  TeamRow, GrantRow, Database, Answer, ok, err, failed, with_id, is_row, scan_grant,
}

-- ORDER BY g.project, g.role, g.user_email, t.name, where NULL stands last
unfoldable pub row_less : Grant → Grant → Bool
row_less a b =
    if not (a.project == b.project)
    then text_less a.project b.project
    else if not (a.role == b.role)
    then text_less a.role b.role
    else if not (a.user == b.user)
    then text_less a.user b.user
    else not (a.team == "") && (b.team == "" || text_less a.team b.team)

-- Postgres.listGrants
abbrev pub select_grants : (GrantRow → Bool) → Database → List Grant
select_grants test db = sort row_less (map (scan_grant db.teams) (keep test db.grants))

-- Postgres.ListGrants
unfoldable pub list_grants : String → Database → Answer (List Grant) × Database
list_grants ws db = with_id ws db λ wid. (ok (select_grants (λ g. g.workspace_id == wid) db), db)

-- Postgres.ListProjectGrants
unfoldable pub list_project_grants : String → String → Database → Answer (List Grant) × Database
list_project_grants ws project db =
    with_id ws db
      λ wid. (ok (select_grants (λ g. g.workspace_id == wid && g.project == project) db), db)

abbrev or_empty : Option String → String
or_empty none = ""
or_empty (some id) = id

-- The index grants_unique, on (workspace_id, project, role, user_email, COALESCE(team_id, ''))
abbrev pub same_row : GrantRow → GrantRow → Bool
same_row e g =
    e.workspace_id == g.workspace_id
    && e.project == g.project
    && e.role == g.role
    && e.user_email == g.user_email
    && or_empty e.team_id == or_empty g.team_id

abbrev is_null : Option String → Bool
is_null none = true
is_null (some id) = false

abbrev differ : Bool → Bool → Bool
differ a true = not a
differ a false = a

-- CHECK ((user_email = '') <> (team_id IS NULL))
abbrev pub has_one_subject : GrantRow → Bool
has_one_subject g = differ (g.user_email == "") (is_null g.team_id)

abbrev pub new_row : Env → String → Grant → Option String → GrantRow
new_row env wid g team_id = record {
  id = env.uuid 0;
  workspace_id = wid;
  project = g.project;
  role = g.role;
  user_email = to_lower (trim_space g.user);
  team_id = team_id;
  created_at = env.now;
}

-- The INSERT; a row whose identifier is taken breaks the primary key.
abbrev pub insert_row : GrantRow → Database → Answer Grant × Database
insert_row row db =
    if not (has_one_subject row)
    then (failed, db)
    else if any (λ e. e.id == row.id) db.grants || any (λ e. same_row e row) db.grants
    then (err conflict, db)
    else (ok (scan_grant db.teams row), record db { grants = db.grants ++ row ∷ [] })

abbrev insert_to_team : Env → String → Grant → Database → Option TeamRow → Answer Grant × Database
insert_to_team env wid g db none = (err not_found, db)
insert_to_team env wid g db (some t) = insert_row (new_row env wid g (some t.id)) db

-- Postgres.AddGrant
unfoldable pub add_grant : Env → String → Grant → Database → Answer Grant × Database
add_grant env ws g db = with_id ws db λ wid.
    if g.team == ""
    then insert_row (new_row env wid g none) db
    else insert_to_team env wid g db (find? (is_row wid g.team) db.teams)

abbrev pub has_grant_id : String → String → GrantRow → Bool
has_grant_id wid id g = g.workspace_id == wid && g.id == id

-- Postgres.DeleteGrant
unfoldable pub delete_grant : String → String → Database → Answer (Unit {0}) × Database
delete_grant ws id db = with_id ws db λ wid.
    if any (has_grant_id wid id) db.grants
    then (ok tt, record db { grants = keep (λ g. not (has_grant_id wid id g)) db.grants })
    else (err not_found, db)

-- Postgres.DeleteProjectGrants
unfoldable pub delete_project_grants : String → String → Database → Answer (Unit {0}) × Database
delete_project_grants ws project db = with_id ws db λ wid. (
  ok tt,
  record db { grants = keep (λ g. not (g.workspace_id == wid && g.project == project)) db.grants },
)
