-- ===== src/Store/Workspaces.antt =====
-- The methods of Memory on workspaces, pkg/store/memory.go.
use shpyrd.Common.{
  ℕ, String, Bool, true, not, ◌&&◌, ◌||◌, Option, none, some, List, [], ◌∷◌, ◌++◌, map, ltb, ◌==◌,
  if◌then◌else◌, any, lookup, find?, update_first, sort, to_lower, trim_space, text_less,
}
use shpyrd.Store.Types.{
  Workspace, WorkspaceSettings, Team, default_workspace, workspace_active, team_everyone, not_found,
  conflict,
}
use shpyrd.Store.State.{Memory, empty_memory, Env, Result, ok, err, with_ws}

-- The built-in team that Migrate and CreateWorkspace add.
abbrev pub everyone_team : String → String → ℕ → Team
everyone_team id workspace_id now = record {
  id = id;
  workspace_id = workspace_id;
  name = team_everyone;
  description = "Everyone who has signed in";
  members = [];
  groups = [];
  platform_role = "";
  everyone = true;
  created_at = now;
  updated_at = now;
}

abbrev pub is_everyone_of : String → Team → Bool
is_everyone_of workspace_id t = t.workspace_id == workspace_id && t.everyone

abbrev pub no_settings : WorkspaceSettings
no_settings = record { join_policy = ""; limits = none }

abbrev pub implicit_workspace : Env → String → Workspace
implicit_workspace env name = record {
  id = env.uuid 0;
  slug = default_workspace;
  name = name;
  address = "";
  status = workspace_active;
  settings = no_settings;
  created_at = env.now;
  updated_at = env.now;
}

-- The first half of Migrate: the workspaces, the implicit one, and whether it is new.
abbrev pub ensure_implicit :
    Env
    → String
    → Option Workspace
    → List (String × Workspace)
    → List (String × Workspace) × Workspace × String
ensure_implicit env name (some w) ws = (ws, w, env.uuid 0)
ensure_implicit env name none ws =
    let w = implicit_workspace env name in (ws ++ (default_workspace, w) ∷ [], w, env.uuid 1)

-- Memory.Migrate. The last identifier drawn is the team's.
unfoldable pub migrate : Env → String → Memory → Memory
migrate env default_name m =
    let r = ensure_implicit env default_name (lookup default_workspace m.workspaces) m.workspaces in
    if any (is_everyone_of r.1.id) m.teams
    then record m { workspaces = r.0 }
    else record m { workspaces = r.0; teams = m.teams ++ everyone_team r.2 r.1.id env.now ∷ [] }

-- NewMemory
unfoldable pub new_memory : Env → Memory
unfolding migrate
new_memory env = migrate env "shpyrd" empty_memory

-- Memory.Workspace
unfoldable pub workspace : String → Memory → Result Workspace × Memory
workspace slug m = with_ws slug m λ w. (ok w, m)

-- Memory.WorkspaceByAddress
unfoldable pub workspace_by_address : String → Memory → Result Workspace × Memory
workspace_by_address address m =
    let a = to_lower (trim_space address) in
    if a == "" then (err not_found, m) else (elim (find? (λ e. e.1.address == a) m.workspaces) [
      | some e ↦ (ok e.1, m)
      | none ↦ (err not_found, m)
    ])

abbrev pub workspace_less : Workspace → Workspace → Bool
workspace_less a b =
    if ltb a.created_at b.created_at || ltb b.created_at a.created_at
    then ltb a.created_at b.created_at
    else text_less a.slug b.slug

-- Memory.ListWorkspaces
unfoldable pub list_workspaces : Memory → List Workspace
list_workspaces m = sort workspace_less (map (λ e. e.1) m.workspaces)

abbrev pub address_taken : String → String × Workspace → Bool
address_taken address e = not (address == "") && e.1.address == address

-- The workspace that CreateWorkspace stores.
abbrev pub created_workspace : Env → Workspace → Workspace
created_workspace env w = record w {
  id = env.uuid 0;
  address = to_lower (trim_space w.address);
  status = if w.status == "" then workspace_active else w.status;
  created_at = env.now;
  updated_at = env.now;
}

-- Memory.CreateWorkspace. The new key is not among the keys, so the entry goes to the end.
unfoldable pub create_workspace : Env → Workspace → Memory → Result Workspace × Memory
create_workspace env w m =
    let c = created_workspace env w in
    if any (λ e. e.0 == w.slug) m.workspaces
    then (err conflict, m)
    else if any (address_taken c.address) m.workspaces
    then (err conflict, m)
    else (
      ok c,
      record m {
        workspaces = m.workspaces ++ (w.slug, c) ∷ [];
        teams = m.teams ++ everyone_team (env.uuid 1) c.id env.now ∷ [];
      },
    )

-- A write through the pointer that `m.ws(slug)` returned.
abbrev pub write_workspace : String → (Workspace → Workspace) → Memory → Memory
write_workspace slug f m = record m {
  workspaces = update_first (λ e. e.0 == slug) (λ e. (e.0, f e.1)) m.workspaces;
}

-- Memory.SetWorkspaceStatus
unfoldable pub set_workspace_status : Env → String → String → Memory → Result Workspace × Memory
set_workspace_status env slug status m = with_ws slug m λ w.
    let f = λ (x : Workspace). record x { status = status; updated_at = env.now } in
    (ok (f w), write_workspace slug f m)

-- Memory.UpdateWorkspace
unfoldable pub update_workspace : Env → String → String → Memory → Result Workspace × Memory
update_workspace env slug name m = with_ws slug m λ w.
    let f = λ (x : Workspace). record x { name = name; updated_at = env.now } in
    (ok (f w), write_workspace slug f m)

-- Memory.UpdateWorkspaceSettings
unfoldable pub update_workspace_settings :
    Env → String → WorkspaceSettings → Memory → Result Workspace × Memory
update_workspace_settings env slug settings m = with_ws slug m λ w.
    let f = λ (x : Workspace). record x { settings = settings; updated_at = env.now } in
    (ok (f w), write_workspace slug f m)
