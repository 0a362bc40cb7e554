-- ===== src/Authz/Snapshot.antt =====
-- The type Snapshot of pkg/authz/authz.go, its methods, and Load.
use shpyrd.Common.{
  String, Bool, true, false, not, ◌&&◌, ◌||◌, Option, none, some, List, [], ◌∷◌, map, ltb, ◌==◌,
  if◌then◌else◌, any, keep, lookup, insert, sort, to_lower, equal_fold, text_less,
}
use shpyrd.Store.Types.{Team, Grant, Identity as Person, default_workspace, status_suspended}
use shpyrd.Store.State.{Memory, Result, ok, err}
use shpyrd.Store.Teams.{list_teams}
use shpyrd.Store.Grants.{list_grants}
use shpyrd.Store.Identities.{list_identities}
use shpyrd.Authz.Table.{rank, platform_rank, role_platform_admin}
use shpyrd.Authz.Roles.{Roles, role_at}

-- ext.Identity, the fields that authz reads
pub record Identity : Type 0 where
  pub subject : String
  pub email : String
  pub groups : List String
  pub provider : String

-- `suspended` holds the keys of the map, all of which it maps to true.
pub record Snapshot : Type 0 where
  pub teams : List Team
  pub grants : List Grant
  pub suspended : List String
  pub explicit : Bool

abbrev pub is_empty {ℓ} : {A : Type ℓ} → List A → Bool
is_empty [] = true
is_empty (x ∷ xs) = false

-- Snapshot.Enforced
unfoldable pub enforced : Snapshot → Bool
enforced s =
    if s.explicit
    then true
    else if any (λ t. not t.everyone) s.teams
    then true
    else not (is_empty s.grants)

-- The tests that put a team among an identity's teams: the built-in team for whoever has an
-- email, a member with this email, a group in common.
unfoldable pub belongs : Identity → Team → Bool
belongs id t =
    let email = to_lower id.email in
    (t.everyone && not (email == ""))
    || (not (email == "") && any (λ m. equal_fold m email) t.members)
    || any (λ g. any (λ have. g == have) id.groups) t.groups

-- The loop of teamsOf. Go's map has one entry for a name, the last one written.
abbrev pub collect : Identity → List Team → List (String × Team) → List (String × Team)
collect id [] out = out
collect id (t ∷ ts) out = collect id ts (if belongs id t then insert t.name t out else out)

-- Snapshot.teamsOf
unfoldable pub teams_of : Snapshot → Identity → List (String × Team)
teams_of s id = collect id s.teams []

-- The loop over the teams in RolesFor.
abbrev pub strongest_platform : List (String × Team) → String → String
strongest_platform [] role = role
strongest_platform ((name, t) ∷ ts) role =
    strongest_platform ts
      (if ltb (platform_rank role) (platform_rank t.platform_role) then t.platform_role else role)

abbrev pub is_some {ℓ} : {A : Type ℓ} → Option A → Bool
is_some none = false
is_some (some a) = true

-- The grant is given to this email or to one of these teams.
unfoldable pub matches : String → List (String × Team) → Grant → Bool
matches email teams g =
    (not (g.user == "") && not (email == "") && equal_fold g.user email)
    || (not (g.team == "") && is_some (lookup g.team teams))

-- The loop over the grants in RolesFor.
abbrev pub project_roles :
    (Grant → Bool) → List Grant → List (String × String) → List (String × String)
project_roles match [] out = out
project_roles match (g ∷ gs) out = project_roles match gs (
    if match g && ltb (rank (role_at out g.project)) (rank g.role)
    then insert g.project g.role out
    else out)

abbrev pub is_operator : Identity → Bool
is_operator id =
    id.provider == "token" || id.provider == "kubeconfig" || id.subject == "admin-token"

abbrev pub is_suspended : Snapshot → Identity → Bool
is_suspended s id = not (id.email == "") && any (λ e. e == to_lower id.email) s.suspended

-- Snapshot.RolesFor
unfoldable pub roles_for : Snapshot → Identity → Roles
roles_for s id =
    let r : Roles = record {
      platform = "";
      projects = [];
      enforced = enforced s;
      suspended = false;
    } in
    if is_operator id
    then record r { platform = role_platform_admin }
    else if is_suspended s id
    then record r { suspended = true; enforced = true }
    else if not (enforced s)
    then record r { platform = role_platform_admin }
    else (let teams = teams_of s id in
        record r {
          platform = strongest_platform teams "";
          projects = project_roles (matches (to_lower id.email) teams) s.grants [];
        })

-- Snapshot.TeamNames
unfoldable pub team_names : Snapshot → Identity → List String
team_names s id = sort text_less (map (λ e. e.0) (teams_of s id))

abbrev pub strongest_of : String → List String → List Grant → String → String
strongest_of project want [] role = role
strongest_of project want (g ∷ gs) role = strongest_of project want gs (
    if g.project == project
      && not (g.team == "")
      && any (λ t. t == g.team) want
      && ltb (rank role) (rank g.role)
    then g.role
    else role)

-- Snapshot.RoleForTeams
unfoldable pub role_for_teams : Snapshot → String → List String → String
role_for_teams s project teams = strongest_of project teams s.grants ""

-- The emails that Load puts among the suspended ones; an error of ListIdentities leaves none.
abbrev pub suspended_in : Result (List Person) → List String
suspended_in (ok people) = map (λ p. p.email) (keep (λ p. p.status == status_suspended) people)
suspended_in (err e) = []

abbrev assemble :
    String → Result (List Team) → Result (List Grant) → Result (List Person) → Result Snapshot
assemble ws (err e) gs ps = err e
assemble ws (ok ts) (err e) ps = err e
assemble ws (ok ts) (ok gs) ps = ok (record {
  teams = ts;
  grants = gs;
  suspended = suspended_in ps;
  explicit = not (ws == "") && not (ws == default_workspace);
})

-- Load, over the in-memory store
unfoldable pub load : Memory → String → Result Snapshot
load m ws = assemble ws (list_teams ws m).0 (list_grants ws m).0 (list_identities ws m).0
