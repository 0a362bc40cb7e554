-- ===== src/Store/Grants.antt =====
-- The methods of Memory on grants, pkg/store/memory.go.
use Prim.Native.String.{◌++◌ as text_append}
use shpyrd.Common.{
  String, Bool, not, ◌&&◌, Option, none, some, List, [], ◌∷◌, ◌++◌, ◌==◌, if◌then◌else◌, any, keep,
  find?, delete_first, sort, to_lower, trim_space, text_less,
}
use shpyrd.Store.Types.{Grant, not_found, conflict}
use shpyrd.Store.State.{Memory, Env, Result, ok, err, with_ws}
use shpyrd.Store.Teams.{is_team}

-- The comparison of sortGrants.
unfoldable pub grant_less : Grant → Grant → Bool
grant_less a b =
    if not (a.project == b.project)
    then text_less a.project b.project
    else if not (a.role == b.role)
    then text_less a.role b.role
    else text_less (text_append a.user a.team) (text_append b.user b.team)

-- Memory.ListGrants
unfoldable pub list_grants : String → Memory → Result (List Grant) × Memory
list_grants ws m =
    with_ws ws m λ w. (ok (sort grant_less (keep (λ g. g.workspace_id == w.id) m.grants)), m)

abbrev of_project : String → Memory → Result (List Grant) × Memory → Result (List Grant) × Memory
of_project project m (ok all, after) = (ok (keep (λ g. g.project == project) all), after)
of_project project m (err e, after) = (err e, after)

-- Memory.ListProjectGrants
unfoldable pub list_project_grants : String → String → Memory → Result (List Grant) × Memory
unfolding list_grants
list_project_grants ws project m = of_project project m (list_grants ws m)

-- Two grants that AddGrant does not let stand side by side.
abbrev pub same_grant : Grant → Grant → Bool
same_grant e g =
    e.workspace_id == g.workspace_id
    && e.project == g.project
    && e.role == g.role
    && e.user == g.user
    && e.team == g.team

-- The grant that AddGrant stores.
abbrev pub new_grant : Env → String → Grant → Grant
new_grant env workspace_id g = record g {
  id = env.uuid 0;
  workspace_id = workspace_id;
  user = to_lower (trim_space g.user);
  created_at = env.now;
}

-- Memory.AddGrant
unfoldable pub add_grant : Env → String → Grant → Memory → Result Grant × Memory
add_grant env ws g m = with_ws ws m λ w.
    let n = new_grant env w.id g in
    if not (g.team == "") && not (any (is_team w.id g.team) m.teams)
    then (err not_found, m)
    else if any (λ e. same_grant e n) m.grants
    then (err conflict, m)
    else (ok n, record m { grants = m.grants ++ n ∷ [] })

abbrev pub is_grant : String → String → Grant → Bool
is_grant workspace_id id g = g.workspace_id == workspace_id && g.id == id

abbrev delete_found : String → String → Memory → Option Grant → Result (Unit {0}) × Memory
delete_found wid id m none = (err not_found, m)
delete_found wid id m (some g) =
    (ok tt, record m { grants = delete_first (is_grant wid id) m.grants })

-- Memory.DeleteGrant
unfoldable pub delete_grant : String → String → Memory → Result (Unit {0}) × Memory
delete_grant ws id m = with_ws ws m λ w. delete_found w.id id m (find? (is_grant w.id id) m.grants)

abbrev pub on_project : String → String → Grant → Bool
on_project workspace_id project g = g.workspace_id == workspace_id && g.project == project

-- Memory.DeleteProjectGrants
unfoldable pub delete_project_grants : String → String → Memory → Result (Unit {0}) × Memory
delete_project_grants ws project m =
    with_ws ws m
      λ w. (ok tt, record m { grants = keep (λ g. not (on_project w.id project g)) m.grants })
